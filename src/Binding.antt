-- ===== src/Binding.antt =====
-- Which job holds which GPU: `reconcile_gpu_alloc` and `apply_gpu_alloc` of src/sgpu/common.py.
pub mod Conservation
pub mod Evidence
pub mod Exact
pub mod Tests
use slurm_gpu_tui.Prelude.{Str, Bool, Option, none, some, List, [], ◌∷◌, ◌&&◌, ◌||◌, not, map}
use slurm_gpu_tui.Prelude.{◌==◌, str_eq, if◌then◌else◌, contains, remove, first, any, keep}
use slurm_gpu_tui.Prelude.{◌≡◌, refl}
use slurm_gpu_tui.Prelude.Dict.{Dict, values, get, get_or, put}
use slurm_gpu_tui.Prelude.Text.{codes}
use slurm_gpu_tui.Data.{GpuInfo, JobInfo, NodeInfo}

-- What is known of one GPU: the real users of its processes, its minor or index, and the jobs that
-- the cgroups of its processes name.
pub record Card : Type 0 where
  pub users : List Str
  pub key : Str
  pub jobids : List Str

-- A card with its entry of `out`.
pub record Slot : Type 0 where
  pub card : Card
  pub jobid : Str
  pub user : Str

abbrev pub is_empty : Str → Bool
is_empty s = s == []

-- `next((j for j in xs if p(j)), "")`
abbrev pub next_or_empty : (Str → Bool) → List Str → Str
next_or_empty p xs = elim (first p xs) [ none ↦ [] | some j ↦ j ]

abbrev pub unbound : Card → Slot
unbound c = record { card = c; jobid = []; user = [] }

-- `if jid: out[i] = (jid, jobid_user.get(jid, "")); remaining.remove(jid)`
unfoldable pub bind : Dict Str Str → Str → Slot → Slot
bind jobid_user jid s =
    if is_empty jid then s else record s { jobid = jid; user = get_or jobid_user jid [] }

unfoldable pub take_out : Str → List Str → List Str
take_out jid remaining = if is_empty jid then remaining else remove jid remaining

-- Pass 0 asks for the job that the processes name, pass 1 for a job of one of the users.
unfoldable pub exact_job : List Str → Slot → Str
exact_job remaining s = next_or_empty (contains remaining) s.card.jobids

abbrev no_users : List Str → Bool
no_users [] = Bool.true
no_users (u ∷ us) = Bool.false

unfoldable pub confirmed_job : Dict Str Str → List Str → Slot → Str
confirmed_job jobid_user remaining s =
    if not (is_empty s.jobid) || no_users s.card.users
    then []
    else next_or_empty (λ j. contains s.card.users (get_or jobid_user j [])) remaining

-- One pass over the cards: each takes the job that `choose` gives it out of what remains.
unfoldable pub pass :
    Dict Str Str → (List Str → Slot → Str) → List Slot → List Str → List Slot × List Str
pass jobid_user choose [] remaining = ([], remaining)
pass jobid_user choose (s ∷ slots) remaining =
    let jid = choose remaining s in
    let (slots', left) = pass jobid_user choose slots (take_out jid remaining) in
    (bind jobid_user jid s ∷ slots', left)

-- Pass 2. A card is free if it is not bound and no process runs on it.
unfoldable pub is_free : Slot → Bool
is_free s = is_empty s.jobid && no_users s.card.users

unfoldable pub set_first : (Slot → Bool) → (Slot → Slot) → List Slot → List Slot
set_first p f [] = []
set_first p f (s ∷ slots) = let rest = set_first p f slots in if p s then f s ∷ slots else s ∷ rest

-- The keys that the allocation gives to the job.
unfoldable pub preferred : Dict Str Str → Str → List Str
preferred [] jid = []
preferred ((k, j) ∷ node_alloc) jid =
    let rest = preferred node_alloc jid in if j == jid then k ∷ rest else rest

abbrev pub is_preferred : Dict Str Str → Str → Slot → Bool
is_preferred node_alloc jid s = is_free s && contains (preferred node_alloc jid) s.card.key

abbrev pub assign : Dict Str Str → Str → Slot → Slot
assign jobid_user jid s = record s { jobid = jid; user = get_or jobid_user jid [] }

unfoldable pub place : Dict Str Str → Dict Str Str → Str → List Slot → List Slot
unfolding is_free set_first preferred
place node_alloc jobid_user jid slots =
    set_first
      (if any (is_preferred node_alloc jid) slots then is_preferred node_alloc jid else is_free)
      (assign jobid_user jid) slots

unfoldable pub place_all : Dict Str Str → Dict Str Str → List Str → List Slot → List Slot
unfolding place
place_all node_alloc jobid_user [] slots = slots
place_all node_alloc jobid_user (jid ∷ remaining) slots =
    place_all node_alloc jobid_user remaining (place node_alloc jobid_user jid slots)

unfoldable pub reconcile_gpu_alloc : Dict Str Str → Dict Str Str → List Card → List Slot
unfolding bind take_out exact_job confirmed_job pass place_all
reconcile_gpu_alloc node_alloc jobid_user gpus =
    let (slots, remaining) = pass jobid_user exact_job (map unbound gpus) (values node_alloc) in
    let (slots', remaining') = pass jobid_user (confirmed_job jobid_user) slots remaining in
    place_all node_alloc jobid_user remaining' slots'

-- `apply_gpu_alloc`. The names of accounts and the ignored users come from outside.
-- `{j.jobid: j.user for j in jobs}`, overridden by the names of `alloc_user_map` that are not empty
unfoldable pub users_of_jobs : List JobInfo → Dict Str Str → Dict Str Str
users_of_jobs [] d = d
users_of_jobs (j ∷ jobs) d = users_of_jobs jobs (put j.jobid j.user d)

unfoldable pub override : Dict Str Str → Dict Str Str → Dict Str Str
override d [] = d
override d ((k, v) ∷ more) = override (if is_empty v then d else put k v d) more

-- `list(dict.fromkeys(xs))`
unfoldable pub distinct : List Str → List Str → List Str
distinct seen [] = []
distinct seen (x ∷ xs) =
    let rest = distinct (x ∷ seen) xs in if contains seen x then rest else x ∷ rest

module _ (resolve_user : Str → Str) (rogue_ignore : List Str) where
  unfoldable pub card_of : GpuInfo → Card
  card_of g = record {
    users = keep (λ u. not (contains rogue_ignore u)) g.users;
    key = if is_empty g.minor then g.index else g.minor;
    jobids = distinct [] (values g.pid_jobid);
  }

  abbrev pub with_resolved_users : GpuInfo → GpuInfo
  with_resolved_users g = record g { users = map resolve_user g.users }

  -- `zip(node.gpus, pairs, strict=True)`
  unfoldable pub annotate : List GpuInfo → List Slot → List GpuInfo
  annotate [] slots = []
  annotate (g ∷ gpus) [] = []
  annotate (g ∷ gpus) (s ∷ slots) =
      record g { alloc_jobid = s.jobid; alloc_user = s.user } ∷ annotate gpus slots

  unfoldable pub apply_to_node : Dict Str (Dict Str Str) → Dict Str Str → NodeInfo → NodeInfo
  unfolding card_of annotate reconcile_gpu_alloc
  apply_to_node gpu_alloc jobid_user node =
      let gpus = map with_resolved_users node.gpus in
      let slots =
        reconcile_gpu_alloc (get_or gpu_alloc node.name []) jobid_user (map card_of gpus) in
      record node { gpus = annotate gpus slots }

  unfoldable pub apply_gpu_alloc :
      List NodeInfo → Dict Str (Dict Str Str) → List JobInfo → Dict Str Str → List NodeInfo
  unfolding users_of_jobs override apply_to_node
  apply_gpu_alloc nodes gpu_alloc jobs alloc_user_map =
      map (apply_to_node gpu_alloc (override (users_of_jobs jobs []) alloc_user_map)) nodes
