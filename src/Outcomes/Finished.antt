-- ===== src/Outcomes/Finished.antt =====
-- What the outcome worker of src/sgpu/notify.py posts of a batch: `_drain_outcomes`,
-- `_job_final_states` and `_fail_log_tail`.
use slurm_gpu_tui.Prelude.{
  ℕ, ◌-◌, Str, Bool, false, str_eq, nat_eq, Option, none, some, List, [], ◌∷◌, ◌++◌,
}
use slurm_gpu_tui.Prelude.{
  ◌==◌, ◌&&◌, ◌||◌, not, if◌then◌else◌, nat_beq, length, drop, keep, contains, all, any,
}
use slurm_gpu_tui.Prelude.Int.{ℤ, pos, negsuc}
use slurm_gpu_tui.Prelude.Dict.{Dict, get, get_or, put, has}
use slurm_gpu_tui.Prelude.Text.{codes, split, splitlines, strip, join, is_alnum, starts_with}
use slurm_gpu_tui.Prelude.Words.{words}
use slurm_gpu_tui.Queue.Fields.{valid_slurm_job_id}
use slurm_gpu_tui.Records.{distinct_ids}
use slurm_gpu_tui.Scheduler.{Answer, answered, failed}
use slurm_gpu_tui.Outcomes.{is_nil, Watched, LogSource, Batch}

abbrev is_safe_char : ℕ → Bool
is_safe_char c =
    is_alnum c
    || nat_beq c b'_'
    || nat_beq c b'.'
    || nat_beq c b'+'
    || nat_beq c b';'
    || nat_beq c b':'
    || nat_beq c b'-'

-- `_JOB_ID_SAFE`
abbrev pub is_safe_id : Str → Bool
is_safe_id [] = false
is_safe_id (c ∷ s) = is_alnum c && all is_safe_char s

unfoldable pub requested : List Str → List Str
unfolding distinct_ids
requested jids = distinct_ids [] (keep is_safe_id jids)

abbrev first_word : List Str → Str
first_word [] = []
first_word (w ∷ ws) = w

abbrev put_state : Str → Str → Dict Str Str → Dict Str Str
put_state jid raw_state states =
    if raw_state == [] then states else put jid (first_word (words raw_state)) states

abbrev add_fields : List Str → List Str → Dict Str Str → Dict Str Str
add_fields wanted (raw_jid ∷ raw_state ∷ more) states =
    let jid = strip raw_jid in
    if not (contains wanted jid) || has states jid
    then states
    else put_state jid (strip raw_state) states
add_fields wanted _ states = states

unfoldable pub states_of_lines : List Str → List Str → Dict Str Str → Dict Str Str
unfolding words strip
states_of_lines wanted [] states = states
states_of_lines wanted (line ∷ lines) states =
    states_of_lines wanted lines (add_fields wanted (split b'|' line) states)

abbrev states_answered : List Str → Answer → Dict Str Str
states_answered wanted (failed out) = []
states_answered wanted (answered out) = states_of_lines wanted (splitlines out) []

-- `_job_final_states`, given what `sacct` answers for the requested ids.
unfoldable pub job_final_states : List Str → Answer → Dict Str Str
unfolding requested states_of_lines splitlines
job_final_states jids answer =
    if is_nil (requested jids) then [] else states_answered (requested jids) answer

abbrev fail_states : List Str
fail_states = codes "FAILED" ∷ codes "OUT_OF_MEMORY" ∷ codes "TIMEOUT" ∷ codes "NODE_FAIL" ∷ []

abbrev pub is_failure : Str → Bool
is_failure state = any (starts_with state) fail_states

-- A message, to the channel or to a member.
pub record Message : Type 0 where
  pub failure : Bool
  pub jid : Str
  pub job : Watched
  pub state : Str
  pub member : Option Str
  pub tail : Str

-- `lines[-n:]`
abbrev last_lines : ℕ → List Str → List Str
last_lines n lines = drop (length lines - n) lines

abbrev tail_text : Option Str → Str
tail_text none = []
tail_text (some text) = strip (join (codes "\n") (last_lines 15 (splitlines text)))

abbrev log_path : Str × Str → Str
log_path (out, err) = if err == [] then out else err

abbrev tail_of : (Str → ℕ → Option Str) → LogSource → Str
tail_of read_log source = owned source.owner_uid
  where
    owned : ℤ → Str
    owned (negsuc n) = []
    owned (pos uid) =
        if log_path source.paths == [] then [] else tail_text (read_log (log_path source.paths) uid)

abbrev tail_from : (Str → ℕ → Option Str) → Str → Option LogSource → Str
tail_from read_log jid none = []
tail_from read_log jid (some source) =
    if valid_slurm_job_id jid then tail_of read_log source else []

-- `_fail_log_tail`. `read_log` gives the decoded end of a log that the owner may read.
unfoldable pub fail_log_tail : (Str → ℕ → Option Str) → Str → Dict Str LogSource → Str
unfolding splitlines join strip valid_slurm_job_id
fail_log_tail read_log jid sources = tail_from read_log jid (get sources jid)

abbrev dm : (Str → ℕ → Option Str) → Batch → Message → Option Str → List Message
dm read_log b m none = []
dm read_log b m (some member) =
    record m {
      member = some member;
      tail = if m.failure then fail_log_tail read_log m.jid b.sources else [];
    }
    ∷ []

abbrev named : Option Str → Option Str
named none = none
named (some m) = if m == [] then none else some m

-- The messages of a job: to the channel, and to its user if that is a member.
abbrev pub messages_of :
    (Str → ℕ → Option Str) → Batch → Dict Str Str → Str × Watched → List Message
messages_of read_log b states (jid, job) =
    let state = get_or states jid [] in
    let failure = is_failure state in
    let m : Message = record {
      failure = failure;
      jid = jid;
      job = job;
      state = state;
      member = none;
      tail = [];
    } in
    if not failure && not (contains b.done_users job.user)
    then []
    else m ∷ dm read_log b m (named (get b.targets job.user))

unfoldable pub post_jobs :
    (Str → ℕ → Option Str) → Batch → Dict Str Str → List (Str × Watched) → List Message
unfolding fail_log_tail
post_jobs read_log b states [] = []
post_jobs read_log b states (job ∷ jobs) =
    messages_of read_log b states job ++ post_jobs read_log b states jobs

-- A round of `_drain_outcomes`.
unfoldable pub drain_batch : (Str → ℕ → Option Str) → Answer → Batch → List Message
unfolding post_jobs job_final_states
drain_batch read_log answer b = post_jobs read_log b (job_final_states b.state_ids answer) b.jobs
