-- ===== src/Records/Jobs.antt =====
-- `parse_job_json` of src/sgpu/common.py. `loads` stands for `json.loads`: a value, or the text of its
-- error.
use slurm_gpu_tui.Prelude.{
  ℕ, suc, Str, Bool, false, str_eq, nat_eq, Option, some, ◌⊎◌, inl, inr, List, [], ◌∷◌, ◌++◌,
}
use slurm_gpu_tui.Prelude.{◌==◌, ◌&&◌, ◌||◌, if◌then◌else◌, all, leb, length, nat_beq}
use slurm_gpu_tui.Prelude.Int.{ℤ, pos}
use slurm_gpu_tui.Prelude.Dict.{Dict, put, get_or}
use slurm_gpu_tui.Prelude.Text.{codes, is_alnum, upper}
use slurm_gpu_tui.Nodelist.{expand_idx}
use slurm_gpu_tui.Legacy.Gpus.{idx_groups}
use slurm_gpu_tui.Records.{
  Json, Jsons, Fields, string, array, object, no_items, item, lookup, json_number, json_job_ids,
  public_json_scalar,
}
use slurm_gpu_tui.Records.Detail.{LogMetadata, json_job_log_spec, public_json_job_detail}

-- The five results.
pub record Jobs : Type 0 where
  pub alloc : Dict Str (Dict Str Str)
  pub users : Dict Str Str
  pub owner_uids : Dict Str ℕ
  pub details : Dict Str Str
  pub metadata : Dict Str LogMetadata

abbrev pub no_jobs : Jobs
no_jobs = record { alloc = []; users = []; owner_uids = []; details = []; metadata = [] }

-- `for jobid in ids: d[jobid] = v`
unfoldable pub put_all : {V : Type 0} → List Str → V → Dict Str V → Dict Str V
put_all [] v d = d
put_all (k ∷ ks) v d = put_all ks v (put k v d)

abbrev pub put_user : List Str → Str → Dict Str Str → Dict Str Str
put_user ids user d = if user == [] then d else put_all ids user d

abbrev pub put_uid : List Str → Option ℤ → Dict Str ℕ → Dict Str ℕ
put_uid ids (some (pos uid)) d = put_all ids uid d
put_uid ids _ d = d

-- A text in upper case that is one of the states; the text of a value that is no string never is.
abbrev is_running_text : Json → Bool
is_running_text (string s) = upper s == codes "RUNNING" || upper s == codes "COMPLETING"
is_running_text _ = false

unfoldable pub any_active : Jsons → Bool
unfolding upper
any_active no_items = false
any_active (item v rest) = is_running_text v || any_active rest

unfoldable pub is_running : Json → Bool
unfolding any_active upper
is_running (array states) = any_active states
is_running state = is_running_text state

abbrev is_node_char : ℕ → Bool
is_node_char c = is_alnum c || nat_beq c b'_' || nat_beq c b'.' || nat_beq c b'-'

abbrev name_onto : Json → List Str → List Str
name_onto (string name) names =
    if leb 1 (length name) && leb (length name) 255 && all is_node_char name
    then name ∷ names
    else names
name_onto _ names = names

abbrev node_onto : Json → List Str → List Str
node_onto (object node) names = name_onto (lookup node (codes "nodename")) names
node_onto _ names = names

unfoldable pub names_of : Jsons → List Str
unfolding lookup
names_of no_items = []
names_of (item node rest) = node_onto node (names_of rest)

abbrev names_in : Json → List Str
names_in (array nodes) = names_of nodes
names_in _ = []

abbrev resource_nodes : Json → List Str
resource_nodes (object resources) = names_in (lookup resources (codes "allocated_nodes"))
resource_nodes _ = []

unfoldable pub node_names : Fields → List Str
unfolding names_of lookup
node_names r = resource_nodes (lookup r (codes "job_resources"))

unfoldable pub indices_of : List Str → List Str
unfolding expand_idx
indices_of [] = []
indices_of (group ∷ groups) = expand_idx group ++ indices_of groups

-- `_gpu_indices`
unfoldable pub gpu_indices : Json → List Str
unfolding indices_of idx_groups
gpu_indices (string gres) = indices_of (idx_groups gres)
gpu_indices _ = []

-- `alloc.setdefault(node, {})[index] = jobid`
unfoldable pub allocate : Str → List Str → Str → Dict Str (Dict Str Str) → Dict Str (Dict Str Str)
allocate node [] jobid alloc = alloc
allocate node (i ∷ indices) jobid alloc =
    allocate node indices jobid (put node (put i jobid (get_or alloc node [])) alloc)

unfoldable pub count_items : Jsons → ℕ
count_items no_items = 0
count_items (item v rest) = suc (count_items rest)

unfoldable pub allocate_all :
    List Str → Jsons → Str → Dict Str (Dict Str Str) → Dict Str (Dict Str Str)
unfolding allocate gpu_indices
allocate_all (node ∷ nodes) (item gres rest) jobid alloc =
    allocate_all nodes rest jobid (allocate node (gpu_indices gres) jobid alloc)
allocate_all nodes details jobid alloc = alloc

abbrev pub with_cards : List Str → Json → Str → Jobs → Jobs
with_cards nodes (array details) jobid jobs =
    if nat_beq (length nodes) (count_items details)
    then record jobs { alloc = allocate_all nodes details jobid jobs.alloc }
    else jobs
with_cards nodes _ jobid jobs = jobs

module _ (local_time : ℕ → Option Str) where
  -- The parts of the loop that every record with an id goes through.
  abbrev pub identified : Fields → List Str → Jobs → Jobs
  identified r ids jobs = record jobs {
    users = put_user ids (public_json_scalar (lookup r (codes "user_name"))) jobs.users;
    owner_uids = put_uid ids (json_number (lookup r (codes "user_id"))) jobs.owner_uids;
    details = put_all ids (public_json_job_detail local_time r ids) jobs.details;
    metadata = put_all ids (json_job_log_spec r) jobs.metadata;
  }

  abbrev pub add_ids : Fields → List Str → Jobs → Jobs
  add_ids r [] jobs = jobs
  add_ids r (jobid ∷ ids) jobs =
      let known = identified r (jobid ∷ ids) jobs in
      if is_running (lookup r (codes "job_state"))
      then with_cards (node_names r) (lookup r (codes "gres_detail")) jobid known
      else known

  abbrev pub add_record : Json → Jobs → Jobs
  add_record (object r) jobs = add_ids r (json_job_ids r) jobs
  add_record _ jobs = jobs

  unfoldable pub add_records : Jsons → Jobs → Jobs
  unfolding json_job_ids lookup json_number public_json_scalar public_json_job_detail
      json_job_log_spec put_all is_running node_names count_items allocate_all
  add_records no_items jobs = jobs
  add_records (item r rest) jobs = add_records rest (add_record r jobs)

  abbrev pub jobs_in : Json → Str ⊎ Jobs
  jobs_in (array records) = inr (add_records records no_jobs)
  jobs_in _ = inl (codes "scontrol JSON has no jobs list")

  abbrev pub jobs_of : Str ⊎ Json → Str ⊎ Jobs
  jobs_of (inl exc) = inl exc
  jobs_of (inr (object payload)) = jobs_in (lookup payload (codes "jobs"))
  jobs_of (inr _) = inl (codes "scontrol JSON has no jobs list")

  -- An error's text, or the jobs.
  unfoldable pub parse_job_json : (Str → Str ⊎ Json) → Str → Str ⊎ Jobs
  unfolding add_records lookup
  parse_job_json loads text = jobs_of (loads text)
