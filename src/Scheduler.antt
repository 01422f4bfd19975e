-- ===== src/Scheduler.antt =====
-- The job queries of src/sgpu/common.py: which backend answers for the jobs' owners, and the join of
-- its answer with the queue in `collect_basic`. What a command answers comes from outside.
pub mod Basic
pub mod Closed
pub mod Owners
pub mod Fallback
pub mod Tests
use slurm_gpu_tui.Prelude.{
  ℕ, Str, Bool, true, false, str_eq, nat_eq, Option, none, some, ◌⊎◌, inl, inr, List, [], ◌∷◌, ◌++◌,
}
use slurm_gpu_tui.Prelude.{◌==◌, ◌&&◌, ◌||◌, if◌then◌else◌, length, not}
use slurm_gpu_tui.Prelude.Dict.{Dict}
use slurm_gpu_tui.Prelude.Text.{codes, lower, has_substring}
use slurm_gpu_tui.Prelude.Words.{squeezed}
use slurm_gpu_tui.Data.{JobInfo, PendingJob}
use slurm_gpu_tui.Queue.{QueueAnchor, parse_queue_output}
use slurm_gpu_tui.Records.{Json}
use slurm_gpu_tui.Records.Detail.{LogMetadata}
use slurm_gpu_tui.Records.Jobs.{Jobs, no_jobs, parse_job_json}
use slurm_gpu_tui.Legacy.Jobs.{Parsed, Allocated, parse_legacy_jobs}

-- What `run_cmd` gives: the output, or the text of the failure.
pub data Answer : Type 0 where
  answered failed : Str → Answer

pub record QueueSnapshot : Type 0 where
  pub jobs : List JobInfo
  pub pending : List PendingJob
  pub anchors : Dict Str QueueAnchor
  pub error : Str

unfoldable pub collect_queue_snapshot : Answer → QueueSnapshot
unfolding parse_queue_output
collect_queue_snapshot (failed out) = record { jobs = []; pending = []; anchors = []; error = out }
collect_queue_snapshot (answered out) =
    let q = parse_queue_output out in
    record { jobs = q.jobs; pending = q.pending_jobs; anchors = q.anchors; error = [] }

abbrev alloc_of : Str ⊎ Jobs → Jobs × Str
alloc_of (inl exc) = (no_jobs, codes "scontrol JSON parse failed: " ++ exc)
alloc_of (inr jobs) = (jobs, [])

-- `collect_gpu_alloc`: the jobs and an error.
unfoldable pub collect_gpu_alloc : (ℕ → Option Str) → (Str → Str ⊎ Json) → Answer → Jobs × Str
unfolding parse_job_json
collect_gpu_alloc local_time loads (answered out) = alloc_of (parse_job_json local_time loads out)
collect_gpu_alloc local_time loads (failed out) = (no_jobs, codes "scontrol JSON failed: " ++ out)

unfoldable pub json_option_unsupported : Str → Bool
unfolding squeezed lower has_substring
json_option_unsupported message =
    let text = squeezed (lower message) in
    (has_substring (codes "unrecognized option") text && has_substring (codes "json") text)
    || (has_substring (codes "unknown option") text && has_substring (codes "json") text)
    || has_substring (codes "invalid option -- '-'") text

pub record JobStatus : Type 0 where
  pub job_backend : Str
  pub fallback_reason : Str
  pub error : Str
  pub rejected_records : ℕ

abbrev pub unavailable : Str
unavailable = codes "unavailable"

abbrev pub legacy_text : Str
legacy_text = codes "legacy-text"

abbrev pub structured_json : Str
structured_json = codes "structured-json"

-- The nine results of a scheduler query.
pub record Outcome : Type 0 where
  pub jobs : List JobInfo
  pub pending : List PendingJob
  pub alloc : Dict Str (Dict Str Str)
  pub users : Dict Str Str
  pub uids : Dict Str ℕ
  pub details : Dict Str Str
  pub metadata : Dict Str LogMetadata
  pub status : JobStatus
  pub error : Str

-- Queue rows without owners, details or paths.
abbrev pub closed : List JobInfo → List PendingJob → Str → Outcome
closed jobs pending error = record {
  jobs = jobs;
  pending = pending;
  alloc = [];
  users = [];
  uids = [];
  details = [];
  metadata = [];
  status = record {
    job_backend = unavailable;
    fallback_reason = [];
    error = error;
    rejected_records = 0;
  };
  error = error;
}

abbrev pub legacy_outcome :
    List JobInfo → List PendingJob → Str → Option (Parsed × Allocated) → Outcome
legacy_outcome jobs pending reason none =
    closed jobs pending
      (codes "scontrol legacy parse failed: legacy scontrol output exceeds safety limit")
legacy_outcome jobs pending reason (some (p, a)) = record {
  jobs = jobs;
  pending = pending;
  alloc = a.alloc;
  users = p.users;
  uids = p.owner_uids;
  details = p.details;
  metadata = p.metadata;
  status = record {
    job_backend = legacy_text;
    fallback_reason = reason;
    error = [];
    rejected_records = length a.rejected;
  };
  error = [];
}

abbrev pub post_checked :
    List JobInfo → List PendingJob → Dict Str QueueAnchor → Str → Str → QueueSnapshot → Outcome
post_checked jobs pending before reason out after =
    if after.error == []
    then legacy_outcome jobs pending reason (parse_legacy_jobs before after.anchors out)
    else closed jobs pending (codes "legacy post-check squeue failed: " ++ after.error)

-- `_legacy_scheduler_jobs`, given the answers of `scontrol` and of the second `squeue`.
unfoldable pub legacy_scheduler_jobs :
    Answer → Answer → List JobInfo → List PendingJob → Dict Str QueueAnchor → Str → Outcome
unfolding parse_legacy_jobs collect_queue_snapshot
legacy_scheduler_jobs (failed out) after jobs pending before reason =
    closed jobs pending (codes "scontrol legacy failed: " ++ out)
legacy_scheduler_jobs (answered out) after jobs pending before reason =
    post_checked jobs pending before reason out (collect_queue_snapshot after)

-- `_job_query_backend` and `_job_query_fallback_reason`
pub record Backend : Type 0 where
  pub backend : Str
  pub reason : Str

-- The answers of one cycle: `squeue`, `scontrol --json`, the text `scontrol`, and `squeue` again.
pub record Answers : Type 0 where
  pub queue : Answer
  pub json : Answer
  pub legacy : Answer
  pub queue_after : Answer

abbrev or_text : Str → Str → Str
or_text s t = if s == [] then t else s

abbrev pub unsupported : Str
unsupported = codes "scontrol --json unsupported"

abbrev json_outcome : QueueSnapshot → Jobs → Outcome
json_outcome q j = record {
  jobs = q.jobs;
  pending = q.pending;
  alloc = j.alloc;
  users = j.users;
  uids = j.owner_uids;
  details = j.details;
  metadata = j.metadata;
  status = record {
    job_backend = structured_json;
    fallback_reason = [];
    error = [];
    rejected_records = 0;
  };
  error = [];
}

abbrev pub by_legacy : Answers → QueueSnapshot → Str → Outcome
by_legacy a q reason =
    legacy_scheduler_jobs a.legacy a.queue_after q.jobs q.pending q.anchors reason

abbrev pub by_json : Answers → QueueSnapshot → Backend → Jobs × Str → Backend × Outcome
by_json a q b (jobs, error) =
    if error == []
    then (record { backend = structured_json; reason = [] }, json_outcome q jobs)
    else if json_option_unsupported error
    then (record { backend = legacy_text; reason = unsupported }, by_legacy a q unsupported)
    else (b, closed q.jobs q.pending error)

abbrev queue_failed : Str → Str
queue_failed error =
    codes "squeue failed: " ++ (error ++ (codes " | " ++ (codes "squeue PD failed: " ++ error)))

module _ (local_time : ℕ → Option Str) (loads : Str → Str ⊎ Json) where
  -- `_collect_scheduler_jobs`, from the backend known so far.
  unfoldable pub collect_scheduler_jobs : Answers → Backend → Backend × Outcome
  unfolding collect_queue_snapshot legacy_scheduler_jobs collect_gpu_alloc json_option_unsupported
  collect_scheduler_jobs a b =
      let q = collect_queue_snapshot a.queue in
      if not (q.error == [])
      then (b, closed q.jobs q.pending (queue_failed q.error))
      else if b.backend == legacy_text
      then (b, by_legacy a q (or_text b.reason unsupported))
      else by_json a q b (collect_gpu_alloc local_time loads a.json)
