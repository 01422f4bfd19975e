-- ===== src/Outcomes.antt =====
-- The outcomes of jobs in src/sgpu/notify.py: how `process` finds the jobs that have gone, how it
-- hands them to the outcome worker in bounded batches, and what the worker posts of them.
pub mod Finished
pub mod Conserved
pub mod Settles
pub mod Tests
use slurm_gpu_tui.Prelude.{
  ℕ, zero, suc, ◌+◌, ◌*◌, ◌/◌, Str, Bool, true, false, str_eq, Option, none, some, List, [], ◌∷◌,
  ◌++◌,
}
use slurm_gpu_tui.Prelude.{
  ◌==◌, ◌&&◌, ◌||◌, not, if◌then◌else◌, ltb, length, take, drop, keep, contains, map,
}
use slurm_gpu_tui.Prelude.Int.{ℤ}
use slurm_gpu_tui.Prelude.Dict.{Dict, get, put, has, keys}
use slurm_gpu_tui.Prelude.Text.{codes}
use slurm_gpu_tui.Data.{JobInfo}

abbrev pub is_nil : {A : Type 0} → List A → Bool
is_nil [] = true
is_nil (x ∷ xs) = false

-- What is remembered of a watched job.
pub record Watched : Type 0 where
  pub jobname : Str
  pub user : Str
  pub elapsed : Str

-- A job's owner and the paths of its logs.
pub record LogSource : Type 0 where
  pub owner_uid : ℤ
  pub paths : Str × Str

pub record OutcomeSettings : Type 0 where
  pub job_done_users : List Str
  pub job_fail_users : List Str
  pub dm_users : Dict Str Str
  pub queue_size : ℕ

-- An entry of `_outcome_queue`.
pub record Batch : Type 0 where
  pub jobs : List (Str × Watched)
  pub state_ids : List Str
  pub targets : Dict Str Str
  pub done_users : List Str
  pub sources : Dict Str LogSource

-- `_jobs`, `_job_logs`, the queue, and the batches that the worker has taken from it.
pub record Tracker : Type 0 where
  pub jobs : Dict Str Watched
  pub logs : Dict Str LogSource
  pub queue : List Batch
  pub taken : List Batch

abbrev pub batch_size : ℕ
batch_size = 32

-- `range(0, len(gone), 32)`: `fuel` rounds; as many as there are entries are enough.
unfoldable pub batches : {A : Type 0} → ℕ → List A → List (List A)
batches zero xs = []
batches (suc fuel) [] = []
batches (suc fuel) (x ∷ xs) = take batch_size (x ∷ xs) ∷ batches fuel (drop batch_size (x ∷ xs))

abbrev pub all_of : {A : Type 0} → List A → List (List A)
all_of xs = batches (length xs) xs

-- The worker takes up to `n` batches.
unfoldable pub take_batches : ℕ → Tracker → Tracker
take_batches n s = record s { queue = drop n s.queue; taken = s.taken ++ take n s.queue }

-- `{jid: source for jid, source in sources.items() if jid in jobs}`
unfoldable pub sources_of : List (Str × Watched) → Dict Str LogSource → Dict Str LogSource
sources_of jobs [] = []
sources_of jobs ((k, s) ∷ sources) =
    let rest = sources_of jobs sources in if has jobs k then (k, s) ∷ rest else rest

module _ (set : OutcomeSettings) where
  abbrev pub fail_all : Bool
  fail_all = contains set.job_fail_users (codes "*")

  abbrev pub is_watched : Str → Bool
  is_watched u = fail_all || contains set.job_done_users u || contains set.job_fail_users u

  abbrev pub remembered : JobInfo → Watched
  remembered j = record { jobname = j.jobname; user = j.user; elapsed = j.elapsed }

  -- The watched jobs of the snapshot, by their ids.
  unfoldable pub current_jobs : List JobInfo → Dict Str Watched → Dict Str Watched
  current_jobs [] d = d
  current_jobs (j ∷ jobs) d =
      current_jobs jobs (if is_watched j.user then put j.jobid (remembered j) d else d)

  unfoldable pub finished_jobs : Dict Str Watched → Dict Str Watched → List (Str × Watched)
  finished_jobs current [] = []
  finished_jobs current ((k, j) ∷ jobs) =
      let rest = finished_jobs current jobs in if has current k then rest else (k, j) ∷ rest

  abbrev asks_state : Str × Watched → Bool
  asks_state (k, j) = fail_all || contains set.job_fail_users j.user

  abbrev pub batch_of : Dict Str LogSource → List (Str × Watched) → Batch
  batch_of logs batch = record {
    jobs = batch;
    state_ids = keys (keep asks_state batch);
    targets = set.dm_users;
    done_users = set.job_done_users;
    sources = sources_of batch logs;
  }

  abbrev pub next_taken : List ℕ → ℕ
  next_taken [] = 0
  next_taken (n ∷ ns) = n

  abbrev pub later_taken : List ℕ → List ℕ
  later_taken [] = []
  later_taken (n ∷ ns) = ns

  -- One batch goes into the queue, or is deferred if the queue is full.
  abbrev pub offer :
      List (Str × Watched) → Tracker × List (Str × Watched) → Tracker × List (Str × Watched)
  offer batch (s, deferred) =
      if ltb (length s.queue) set.queue_size
      then (record s { queue = s.queue ++ (batch_of s.logs batch ∷ []) }, deferred)
      else (s, deferred ++ batch)

  -- The loop over the batches, with the number of batches that the worker takes before each.
  unfoldable pub enqueue :
      List ℕ
      → List (List (Str × Watched))
      → Tracker × List (Str × Watched)
      → Tracker × List (Str × Watched)
  unfolding take_batches sources_of
  enqueue taken [] r = r
  enqueue taken (batch ∷ rest) (s, deferred) =
      enqueue (later_taken taken) rest (offer batch (take_batches (next_taken taken) s, deferred))

  -- `d.update(entries)`
  unfoldable pub put_entries : {V : Type 0} → List (Str × V) → Dict Str V → Dict Str V
  put_entries [] d = d
  put_entries ((k, v) ∷ entries) d = put_entries entries (put k v d)

  abbrev pub with_deferred :
      Dict Str Watched → Dict Str LogSource → Tracker × List (Str × Watched) → Tracker
  with_deferred current sources (s, deferred) = record s {
    jobs = put_entries deferred current;
    logs = put_entries (sources_of deferred s.logs) sources;
  }

  -- The part of `process` that looks for finished jobs.
  unfoldable pub process_jobs :
      Bool → List JobInfo → Dict Str LogSource → List ℕ → Tracker → Tracker
  unfolding current_jobs finished_jobs batches enqueue put_entries sources_of
  process_jobs errors jobs sources taken s =
      let current = current_jobs jobs [] in
      if not (is_nil set.job_done_users && is_nil set.job_fail_users) && not errors
      then with_deferred current sources
          (enqueue taken (all_of (finished_jobs current s.jobs)) (s, []))
      else if errors
      then record s { logs = [] }
      else s
