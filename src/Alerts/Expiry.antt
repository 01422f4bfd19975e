-- ===== src/Alerts/Expiry.antt =====
-- Slots of `_last_sent` that `_save` drops would have stopped no alert.
use slurm_gpu_tui.Prelude.{ℕ, ◌+◌, ◌≤◌, ◌≡◌, refl, arith, Str, false, str_eq, [], ◌∷◌, ==_iff}
use slurm_gpu_tui.Prelude.Dict.{Dict, get, get_or, has, get-none, NodupKeys}
use slurm_gpu_tui.Notify.{is_due}
use slurm_gpu_tui.Alerts.{drop_expired}

has-drop_expired :
    (cutoff : ℕ) (d : Dict Str ℕ) (k : Str)
    → has d k ≡ false
    → has (drop_expired cutoff d) k ≡ false
unfolding drop_expired has
has-drop_expired cutoff [] k h = refl
has-drop_expired cutoff ((j, t) ∷ d) k h = ground (arith, has-drop_expired cutoff d k)

pub is_due-drop_expired :
    (key : Str) (now gap cutoff : ℕ) (d : Dict Str ℕ)
    → NodupKeys d
    → cutoff + gap ≤ now
    → gap ≤ now
    → is_due key now gap (drop_expired cutoff d) ≡ is_due key now gap d
unfolding drop_expired get get_or
is_due-drop_expired key now gap cutoff [] u h g = refl
is_due-drop_expired key now gap cutoff ((j, t) ∷ d) (fresh, u) h g = ground (
  arith,
  is_due-drop_expired key now gap cutoff d u h g,
  get-none key (drop_expired cutoff d),
  has-drop_expired cutoff d key,
  get-none key d,
  ==_iff j key,
)
