-- ===== src/UsageView/Balance.antt =====
-- The totals by users and the totals by days are the same time.
use slurm_gpu_tui.Prelude.{
  ℕ, ◌+◌, ◌≡◌, refl, arith, Str, Bool, true, false, str_eq, List, [], ◌∷◌, sum, map, max, ==_iff,
}
use slurm_gpu_tui.Prelude.Dict.{Dict, get, get_or, put, values}
use slurm_gpu_tui.UsageView.{
  SampledUse, no_total, no_day, user_plus, day_plus, UsageFile, Window, no_use, open_day, add_use,
  add_users, add_day, add_day_if, add_days, either_keys, merge_usage_window,
}

-- The sum of a table in one of its columns.
abbrev pub total : {V : Type 0} → (V → ℕ) → Dict Str V → ℕ
total f d = sum (map f (values d))

total-put :
    {V : Type 0} (f : V → ℕ) (k : Str) (v z : V) (a : ℕ) (d : Dict Str V)
    → f z ≡ 0
    → f v ≡ f (get_or d k z) + a
    → total f (put k v d) ≡ total f d + a
unfolding put get get_or
total-put f k v z a [] e h = omega (arith, e, h)
total-put f k v z a ((j, w) ∷ d) e h = ground (arith, total-put f k v z a d e, ==_iff j k)

abbrev pub IsBalanced : Window → Type 0
IsBalanced w =
    (total (λ t. t.alloc) w.users ≡ total (λ d. d.alloc) w.daily)
    × (total (λ t. t.busy) w.users ≡ total (λ d. d.busy) w.daily)

add_use-IsBalanced :
    (day user : Str) (su : SampledUse) (accounted : ℕ) (w : Window)
    → IsBalanced w
    → IsBalanced (add_use day user su accounted w)
unfolding add_use
add_use-IsBalanced day user su accounted w (a, b) = (
  omega (
    arith,
    a,
    total-put (λ t. t.alloc) user (user_plus (get_or w.users user no_total) su accounted) no_total
        (max su.alloc accounted) w.users refl refl,
    total-put (λ t. t.alloc) day (day_plus (get_or w.daily day no_day) su accounted) no_day
        (max su.alloc accounted) w.daily refl refl,
  ),
  omega (
    arith,
    b,
    total-put (λ t. t.busy) user (user_plus (get_or w.users user no_total) su accounted) no_total
        su.busy w.users refl refl,
    total-put (λ t. t.busy) day (day_plus (get_or w.daily day no_day) su accounted) no_day su.busy
        w.daily refl refl,
  ),
)

add_users-IsBalanced :
    (day : Str) (s_users : Dict Str SampledUse) (a_users : Dict Str ℕ) (users : List Str)
    (w : Window)
    → IsBalanced w
    → IsBalanced (add_users day s_users a_users users w)
unfolding add_users
add_users-IsBalanced day s_users a_users [] w h = h
add_users-IsBalanced day s_users a_users (user ∷ users) w h =
    let su = get_or s_users user no_use in
    let accounted = get_or a_users user 0 in
    add_users-IsBalanced day s_users a_users users (add_use day user su accounted w)
      (add_use-IsBalanced day user su accounted w h)

open_day-IsBalanced : (day : Str) (w : Window) → IsBalanced w → IsBalanced (open_day day w)
open_day-IsBalanced day w (a, b) = (
  omega (
    arith,
    a,
    total-put (λ t. t.alloc) day (get_or w.daily day no_day) no_day 0 w.daily refl (omega arith),
  ),
  omega (
    arith,
    b,
    total-put (λ t. t.busy) day (get_or w.daily day no_day) no_day 0 w.daily refl (omega arith),
  ),
)

add_day_if-IsBalanced :
    (kept : Bool) (raw : UsageFile) (day : Str) (w : Window)
    → IsBalanced w
    → IsBalanced (add_day_if kept raw day w)
unfolding add_day
add_day_if-IsBalanced false raw day w h = h
add_day_if-IsBalanced true raw day w h =
    let s_users = get_or raw.days day [] in
    let a_users = get_or raw.sacct_days day [] in
    add_users-IsBalanced day s_users a_users (either_keys s_users a_users) (open_day day w)
      (open_day-IsBalanced day w h)

add_days-IsBalanced :
    (raw : UsageFile) (keep : Str → Bool) (days : List Str) (w : Window)
    → IsBalanced w
    → IsBalanced (add_days raw keep days w)
unfolding add_days
add_days-IsBalanced raw keep [] w h = h
add_days-IsBalanced raw keep (day ∷ days) w h =
    add_days-IsBalanced raw keep days (add_day_if (keep day) raw day w)
      (add_day_if-IsBalanced (keep day) raw day w h)

-- Over any days, the allocated time of the users adds up to that of the days, and so does the busy
-- time.
pub merge_usage_window-IsBalanced :
    (raw : UsageFile) (keep : Str → Bool) → IsBalanced (merge_usage_window raw keep)
unfolding merge_usage_window
merge_usage_window-IsBalanced raw keep =
    add_days-IsBalanced raw keep (either_keys raw.days raw.sacct_days)
      (record { users = []; daily = [] }) (refl, refl)
