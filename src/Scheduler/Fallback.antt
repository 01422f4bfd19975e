-- ===== src/Scheduler/Fallback.antt =====
-- When the backend of the job query changes.
use slurm_gpu_tui.Prelude.{
  ℕ, Str, true, str_eq, nat_eq, Option, ◌⊎◌, inl, inr, [], ◌≡◌, ◌≢◌, refl, arith, Bool-cases, ◌==◌,
  ==_iff,
}
use slurm_gpu_tui.Records.{Json}
use slurm_gpu_tui.Records.Jobs.{Jobs}
use slurm_gpu_tui.Scheduler.{
  Answers, Backend, QueueSnapshot, collect_queue_snapshot, by_json, collect_scheduler_jobs,
  collect_gpu_alloc, json_option_unsupported, legacy_text, structured_json,
}

-- The JSON query answered, or it said that it has no such option.
abbrev pub IsSwitch : Str → Backend → Type 0
IsSwitch error b =
    ((error ≡ []) × (b.backend ≡ structured_json))
    ⊎ ((json_option_unsupported error ≡ true) × (b.backend ≡ legacy_text))

by_json-IsSwitch :
    (a : Answers) (q : QueueSnapshot) (b : Backend) (r : Jobs × Str)
    → ((by_json a q b r).0 ≡ b) ⊎ IsSwitch r.1 (by_json a q b r).0
by_json-IsSwitch a q b (jobs, error) = elim (Bool-cases (error == [])) [
  | inl t ↦ rw t (inr (inl ((==_iff error []).0 t, refl)))
  | inr t ↦ elim (Bool-cases (json_option_unsupported error)) [
    | inl u ↦ rw t (rw u (inr (inr (refl, refl))))
    | inr u ↦ rw t (rw u (inl refl))
  ]
]

module _ (local_time : ℕ → Option Str) (loads : Str → Str ⊎ Json) where
  -- A cycle leaves the backend as it is, or the queue was read, the backend was not the text one, and
  -- the JSON query either answered or said that it has no such option. So the text backend, once it
  -- is chosen, stays.
  pub collect_scheduler_jobs-IsSwitch :
      (a : Answers) (b : Backend)
      → let b' = (collect_scheduler_jobs local_time loads a b).0 in
        (b' ≡ b)
        ⊎ (((collect_queue_snapshot a.queue).error ≡ [])
            × (b.backend ≢ legacy_text)
            × IsSwitch (collect_gpu_alloc local_time loads a.json).1 b')
  unfolding collect_scheduler_jobs
  collect_scheduler_jobs-IsSwitch a b =
      let q = collect_queue_snapshot a.queue in
      elim (Bool-cases (q.error == [])) [
        | inr t ↦ rw t (inl refl)
        | inl t ↦ elim (Bool-cases (b.backend == legacy_text)) [
          | inl u ↦ rw t (rw u (inl refl))
          | inr u ↦ rw t (
              rw u (elim (by_json-IsSwitch a q b (collect_gpu_alloc local_time loads a.json)) [
                | inl e ↦ inl e
                | inr s ↦ inr (
                  (==_iff q.error []).0 t,
                  (λ e. ground (arith, ==_iff b.backend legacy_text)),
                  s,
                )
              ]))
        ]
      ]
