-- ===== src/LogShare/Threads/Seeding.antt =====
-- Which sections of src/sgpu/collector.py leave the tokens, the paths and the owners of the jobs alone.
use slurm_gpu_tui.Prelude.{ℕ, ◌≡◌, refl, arith, Str, Bool, Option}
use slurm_gpu_tui.Prelude.{str_eq}
use slurm_gpu_tui.Prelude.{inl, inr, Bool-cases}
use slurm_gpu_tui.LogShare.{Suffix, Fingerprint, Logs, set_log_status, unpublish_log_stream}
use slurm_gpu_tui.LogShare.{publish_tail, keep_tail, holds_token}
use slurm_gpu_tui.LogShare.Mirror.{reschedule}

-- A section that leaves the tokens, the paths and the owners alone.
abbrev pub SameSeeds : Logs → Logs → Type 0
SameSeeds a b =
    (a.fresh ≡ b.fresh)
    × (a.seed_tokens ≡ b.seed_tokens)
    × (a.paths ≡ b.paths)
    × (a.owner_uids ≡ b.owner_uids)

pub unpublish-seeds :
    (j : Str) (a : Suffix) (u : Option ℕ) (ok : Bool) (s : Logs)
    → SameSeeds (unpublish_log_stream j a u ok s) s
unfolding unpublish_log_stream
unpublish-seeds j a u ok s = ground arith

pub report-seeds :
    (k : Str) (a : Suffix) (text : Str) (u : Option ℕ) (s : Logs)
    → SameSeeds (set_log_status k a text u s) s
unfolding set_log_status
report-seeds k a text u s = ground arith

pub publish-seeds :
    (k : Str) (a : Suffix) (u : ℕ) (tail : Str) (fp : Fingerprint) (s : Logs)
    → SameSeeds (publish_tail k a u tail fp s) s
unfolding publish_tail
publish-seeds k a u tail fp s = elim (Bool-cases (holds_token s k u)) [
  | inl e ↦ rw e (refl, refl, refl, refl)
  | inr e ↦ rw e (refl, refl, refl, refl)
]

pub confirm-seeds : (k : Str) (a : Suffix) (u : ℕ) (s : Logs) → SameSeeds (keep_tail k a u s) s
unfolding keep_tail
confirm-seeds k a u s = elim (Bool-cases (holds_token s k u)) [
  | inl e ↦ rw e (refl, refl, refl, refl)
  | inr e ↦ rw e (refl, refl, refl, refl)
]

pub delay-seeds :
    (sec max_sec : ℕ) (k : Str) (u : ℕ) (b : Bool) (now : ℕ) (s : Logs)
    → SameSeeds (reschedule sec max_sec k u b now s) s
unfolding reschedule
delay-seeds sec max_sec k u b now s = elim (Bool-cases (holds_token s k u)) [
  | inl e ↦ rw e (refl, refl, refl, refl)
  | inr e ↦ rw e (refl, refl, refl, refl)
]
