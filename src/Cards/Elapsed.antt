-- ===== src/Cards/Elapsed.antt =====
-- The idle clock of a card counts from the first sample of the same holder.
use slurm_gpu_tui.Prelude.{ℕ, ◌≡◌, refl, ◌∙◌, Str, true, none, some, List, [], ◌∷◌}
use slurm_gpu_tui.Prelude.{==_refl, str_eq}
use slurm_gpu_tui.Prelude.Dict.{Dict, get, get-put}
use slurm_gpu_tui.Cards.{seconds_since, tick}

-- Samples at several times, with the condition and the holder the same.
abbrev pub ticks : Str → Str → List ℕ → Dict Str (Str × ℕ) → Dict Str (Str × ℕ)
ticks key who [] d = d
ticks key who (now ∷ times) d = ticks key who times (tick true key who now d).1

get-ticks :
    (key who : Str) (since : ℕ) (times : List ℕ) (d : Dict Str (Str × ℕ))
    → get d key ≡ some (who, since)
    → get (ticks key who times d) key ≡ some (who, since)
get-ticks key who since [] d h = h
get-ticks key who since (now ∷ times) d h =
    get-ticks key who since times (tick true key who now d).1 (
      unfold tick in
      rw h (rw (==_refl who) (get-put key key (who, since) d ∙ rw (==_refl key) refl)))

-- After a first sample that starts the clock for a holder, and any further samples of it, the next
-- sample reports the time since the first.
pub ticks-elapsed :
    (key who : Str) (first now : ℕ) (times : List ℕ) (d : Dict Str (Str × ℕ))
    → get d key ≡ none
    → (tick true key who now (ticks key who (first ∷ times) d)).0 ≡ seconds_since first now
unfolding tick
ticks-elapsed key who first now times d h =
    let d1 = (tick true key who first d).1 in
    let began : get d1 key ≡ some (who, first) =
      unfold tick in rw h (get-put key key (who, first) d ∙ rw (==_refl key) refl) in
    rw (get-ticks key who first times d1 began) (rw (==_refl who) refl)
