-- ===== src/LogShare/Threads/Sections.antt =====
-- What the sections of a mirror worker of src/sgpu/collector.py do to the published streams, the files
-- and the live set.
use slurm_gpu_tui.Prelude.{ℕ, ◌≡◌, refl, arith, Str, Bool, false, Option, none, some}
use slurm_gpu_tui.Prelude.{[], ◌∷◌, ==_iff, str_eq}
use slurm_gpu_tui.Prelude.{inl, inr, Bool-cases}
use slurm_gpu_tui.Prelude.Dict.{Dict, get, put, pop, has, get-put, get-pop, has-pop}
use slurm_gpu_tui.LogShare.{Suffix, suffix_eq, Dst, dst_eq, Logs}
use slurm_gpu_tui.LogShare.{set_log_status, unpublish_log_stream}
use slurm_gpu_tui.LogShare.{without_stream, holds_token}
use slurm_gpu_tui.LogShare.Mirror.{start_with, reschedule}
use slurm_gpu_tui.LogShare.Threads.Spool.{SameSpool}

get-without_some :
    (suffix : Suffix) (streams : Dict Suffix Dst) (j k : Str) (d : Dict Str (Dict Suffix Dst))
    → get d j ≡ some streams
    → get d k ≡ none
    → get (without_stream suffix (some streams) j d) k ≡ none
get-without_some suffix streams j k d e h = go (pop suffix streams)
  where
    go :
        (left : Dict Suffix Dst)
        → get (elim left [ [] ↦ pop j d | x ∷ xs ↦ put j (x ∷ xs) d ]) k ≡ none
    go [] = rw get-pop (ground arith)
    go (x ∷ xs) = rw get-put (ground (arith, ==_iff j k))

get-without_stream :
    (suffix : Suffix) (o : Option (Dict Suffix Dst)) (j k : Str) (d : Dict Str (Dict Suffix Dst))
    → get d j ≡ o
    → get d k ≡ none
    → get (without_stream suffix o j d) k ≡ none
get-without_stream suffix none j k d e h = h
get-without_stream suffix (some streams) j k d e h = get-without_some suffix streams j k d e h

-- A withdrawn stream publishes nothing that was not published, and no file appears.
pub unpublish-spool :
    (j k : Str) (a b : Suffix) (o : Option ℕ) (ok : Bool) (s : Logs)
    → (get s.published k ≡ none → get (unpublish_log_stream j a o ok s).published k ≡ none)
      × (has s.files (k, b) ≡ false → has (unpublish_log_stream j a o ok s).files (k, b) ≡ false)
      × ((unpublish_log_stream j a o ok s).live ≡ s.live)
unfolding unpublish_log_stream
unpublish-spool j k a b o ok s =
    let gone = get-without_stream a (get s.published j) j k s.published refl in
    (
      λ h. ground (arith, gone h),
      (λ h. ground (arith, has-pop (j, a) (k, b) s.files)),
      ground arith,
    )

pub start-spool : (o : Option ℕ) (jid : Str) (s : Logs) → SameSpool (start_with o jid s) s
start-spool none jid s = (refl, refl, refl)
start-spool (some t) jid s = (refl, refl, refl)

pub report-spool :
    (jid : Str) (a : Suffix) (text : Str) (o : Option ℕ) (s : Logs)
    → SameSpool (set_log_status jid a text o s) s
unfolding set_log_status
report-spool jid a text o s = ground arith

pub delay-spool :
    (sec max_sec : ℕ) (jid : Str) (t : ℕ) (u : Bool) (now : ℕ) (s : Logs)
    → SameSpool (reschedule sec max_sec jid t u now s) s
unfolding reschedule
delay-spool sec max_sec jid t u now s = elim (Bool-cases (holds_token s jid t)) [
  | inl e ↦ rw e (refl, refl, refl)
  | inr e ↦ rw e (refl, refl, refl)
]
