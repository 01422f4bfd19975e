-- ===== src/Usage/Days.antt =====
-- The split of a job over the days.
use slurm_gpu_tui.Prelude.{ℕ, zero, suc, ◌-◌, ◌<◌, ◌≡◌, refl, arith, Str, none, some}
use slurm_gpu_tui.Prelude.{List, [], ◌∷◌, ltb, ltb→lt, map, sum, min, Bool-cases, inl, inr}
use slurm_gpu_tui.Usage.Sacct.{day_end, segments, job_segments}

abbrev pub lasting : List (Str × ℕ) → ℕ
lasting segs = sum (map (λ s. s.1) segs)

module _ (midnight : ℕ → ℕ) (day_key : ℕ → Str) where
  pub segments-total :
      ((t : ℕ) → t < day_end midnight day_key t)
      → (fuel cur t1 : ℕ) → t1 - cur < fuel
      → (segs : List (Str × ℕ)) × (segments midnight day_key fuel cur t1 ≡ some segs)
        × (lasting segs ≡ t1 - cur)
  unfolding segments
  segments-total ahead zero cur t1 enough = absurd (omega (arith, enough))
  segments-total ahead (suc fuel) cur t1 enough = elim (Bool-cases (ltb cur t1)) [
    | inr e ↦ ([], rw e refl, ground arith)
    | inl e ↦
        let (segs, ends, total) =
          segments-total ahead fuel (day_end midnight day_key cur) t1
            (omega (arith, ahead cur, ltb→lt cur t1 e)) in
        (
          (day_key cur, min t1 (day_end midnight day_key cur) - cur) ∷ segs,
          rw (e, ends) refl,
          ground (arith, ahead cur),
        )
  ]

  -- Where every instant lies less than 24 hours after its local midnight, the loop ends, and the
  -- parts of a job last as long as the job.
  pub job_segments-total :
      ((t : ℕ) → t < day_end midnight day_key t)
      → (t0 t1 : ℕ)
      → (segs : List (Str × ℕ)) × (job_segments midnight day_key t0 t1 ≡ some segs)
        × (lasting segs ≡ t1 - t0)
  job_segments-total ahead t0 t1 = segments-total ahead (suc (t1 - t0)) t0 t1 (omega arith)

  -- At an instant 24 hours after its own local midnight, as on a day of 25 hours, the loop stays
  -- where it is: no number of rounds is enough for a job that goes on past it.
  pub segments-stuck :
      (fuel cur t1 : ℕ)
      → day_end midnight day_key cur ≡ cur
      → cur < t1
      → segments midnight day_key fuel cur t1 ≡ none
  unfolding segments
  segments-stuck zero cur t1 same more = refl
  segments-stuck (suc fuel) cur t1 same more =
      rw same (ground (arith, segments-stuck fuel cur t1 same more))
