-- ===== src/Scheduler/Closed.antt =====
-- A scheduler query that fails gives no owner, no path and no allocation.
use slurm_gpu_tui.Prelude.{
  ℕ, Str, str_eq, nat_eq, Option, none, some, ◌⊎◌, inl, inr, List, [], ◌≡◌, refl, Bool-cases, ◌==◌,
}
use slurm_gpu_tui.Prelude.Dict.{Dict}
use slurm_gpu_tui.Data.{JobInfo, PendingJob}
use slurm_gpu_tui.Queue.{QueueAnchor}
use slurm_gpu_tui.Records.{Json}
use slurm_gpu_tui.Records.Jobs.{Jobs}
use slurm_gpu_tui.Legacy.Jobs.{Parsed, Allocated, parse_legacy_jobs}
use slurm_gpu_tui.Scheduler.{
  Answer, answered, failed, Answers, Backend, Outcome, QueueSnapshot, collect_queue_snapshot,
  legacy_outcome, legacy_scheduler_jobs, post_checked, by_json, collect_scheduler_jobs,
  collect_gpu_alloc, json_option_unsupported, legacy_text, unavailable, unsupported,
}

-- There was no error, or nothing is said of any job but what the queue says.
abbrev pub IsClosed : Outcome → Type 0
IsClosed o =
    (o.error ≡ [])
    ⊎ ((o.uids ≡ [])
        × (o.users ≡ [])
        × (o.metadata ≡ [])
        × (o.details ≡ [])
        × (o.alloc ≡ [])
        × (o.status.job_backend ≡ unavailable)
        × (o.status.error ≡ o.error))

legacy_outcome-IsClosed :
    (jobs : List JobInfo) (pending : List PendingJob) (reason : Str)
    (o : Option (Parsed × Allocated))
    → IsClosed (legacy_outcome jobs pending reason o)
legacy_outcome-IsClosed jobs pending reason none = inr (refl, refl, refl, refl, refl, refl, refl)
legacy_outcome-IsClosed jobs pending reason (some (p, a)) = inl refl

post_checked-IsClosed :
    (jobs : List JobInfo) (pending : List PendingJob) (before : Dict Str QueueAnchor)
    (reason out : Str) (after : QueueSnapshot)
    → IsClosed (post_checked jobs pending before reason out after)
post_checked-IsClosed jobs pending before reason out after = elim (Bool-cases (after.error == [])) [
  | inl t ↦
      rw t
        (legacy_outcome-IsClosed jobs pending reason (parse_legacy_jobs before after.anchors out))
  | inr t ↦ rw t (inr (refl, refl, refl, refl, refl, refl, refl))
]

legacy_scheduler_jobs-IsClosed :
    (legacy after : Answer) (jobs : List JobInfo) (pending : List PendingJob)
    (before : Dict Str QueueAnchor) (reason : Str)
    → IsClosed (legacy_scheduler_jobs legacy after jobs pending before reason)
unfolding legacy_scheduler_jobs
legacy_scheduler_jobs-IsClosed (failed out) after jobs pending before reason =
    inr (refl, refl, refl, refl, refl, refl, refl)
legacy_scheduler_jobs-IsClosed (answered out) after jobs pending before reason =
    post_checked-IsClosed jobs pending before reason out (collect_queue_snapshot after)

by_json-IsClosed :
    (a : Answers) (q : QueueSnapshot) (b : Backend) (r : Jobs × Str) → IsClosed (by_json a q b r).1
by_json-IsClosed a q b (jobs, error) = elim (Bool-cases (error == [])) [
  | inl t ↦ rw t (inl refl)
  | inr t ↦ elim (Bool-cases (json_option_unsupported error)) [
    | inl u ↦ rw t (
        rw u (
          legacy_scheduler_jobs-IsClosed a.legacy a.queue_after q.jobs q.pending q.anchors
            unsupported))
    | inr u ↦ rw t (rw u (inr (refl, refl, refl, refl, refl, refl, refl)))
  ]
]

module _ (local_time : ℕ → Option Str) (loads : Str → Str ⊎ Json) where
  -- A query that ends in an error gives no owner, user, path, detail or allocation, and its status
  -- says so.
  pub collect_scheduler_jobs-IsClosed :
      (a : Answers) (b : Backend) → IsClosed (collect_scheduler_jobs local_time loads a b).1
  unfolding collect_scheduler_jobs
  collect_scheduler_jobs-IsClosed a b =
      let q = collect_queue_snapshot a.queue in
      elim (Bool-cases (q.error == [])) [
        | inr t ↦ rw t (inr (refl, refl, refl, refl, refl, refl, refl))
        | inl t ↦ elim (Bool-cases (b.backend == legacy_text)) [
          | inl u ↦ rw t (
              rw u (
                legacy_scheduler_jobs-IsClosed a.legacy a.queue_after q.jobs q.pending q.anchors _))
          | inr u ↦ rw t (rw u (by_json-IsClosed a q b (collect_gpu_alloc local_time loads a.json)))
        ]
      ]
