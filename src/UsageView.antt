-- ===== src/UsageView.antt =====
-- The usage window of src/sgpu/usage.py: `merge_usage_window`, which folds the two sources of
-- allocated time. Times are in ticks; the days of a set are taken in one of its orders.
pub mod Balance
pub mod Tests
use slurm_gpu_tui.Prelude.{
  ℕ, ◌+◌, Str, Bool, true, false, str_eq, Option, none, some, List, [], ◌∷◌, ◌++◌, max,
}
use slurm_gpu_tui.Prelude.{if◌then◌else◌}
use slurm_gpu_tui.Prelude.Dict.{Dict, get, get_or, put, keys, or_default}
use slurm_gpu_tui.Records.{distinct_ids}

-- What was sampled of a user on a day. Older files have no `observed_alloc`.
pub record SampledUse : Type 0 where
  pub alloc : ℕ
  pub busy : ℕ
  pub waste : ℕ
  pub observed_alloc : Option ℕ

abbrev pub no_use : SampledUse
no_use = record { alloc = 0; busy = 0; waste = 0; observed_alloc = none }

pub record UserTotal : Type 0 where
  pub alloc : ℕ
  pub busy : ℕ
  pub sampled_alloc : ℕ
  pub waste : ℕ

pub record DayTotal : Type 0 where
  pub alloc : ℕ
  pub busy : ℕ

abbrev pub no_total : UserTotal
no_total = record { alloc = 0; busy = 0; sampled_alloc = 0; waste = 0 }

abbrev pub no_day : DayTotal
no_day = record { alloc = 0; busy = 0 }

pub record UsageFile : Type 0 where
  pub days : Dict Str (Dict Str SampledUse)
  pub sacct_days : Dict Str (Dict Str ℕ)

-- The two tables that are returned.
pub record Window : Type 0 where
  pub users : Dict Str UserTotal
  pub daily : Dict Str DayTotal

-- The union of the keys of two dicts.
abbrev pub either_keys : {V W : Type 0} → Dict Str V → Dict Str W → List Str
either_keys d e = distinct_ids [] (keys d ++ keys e)

abbrev pub merged_alloc : SampledUse → ℕ → ℕ
merged_alloc su accounted = max su.alloc accounted

abbrev pub user_plus : UserTotal → SampledUse → ℕ → UserTotal
user_plus t su accounted = record {
  alloc = t.alloc + merged_alloc su accounted;
  busy = t.busy + su.busy;
  sampled_alloc = t.sampled_alloc + or_default su.alloc su.observed_alloc;
  waste = t.waste + su.waste;
}

abbrev pub day_plus : DayTotal → SampledUse → ℕ → DayTotal
day_plus d su accounted = record {
  alloc = d.alloc + merged_alloc su accounted;
  busy = d.busy + su.busy;
}

unfoldable pub add_use : Str → Str → SampledUse → ℕ → Window → Window
add_use day user su accounted w = record {
  users = put user (user_plus (get_or w.users user no_total) su accounted) w.users;
  daily = put day (day_plus (get_or w.daily day no_day) su accounted) w.daily;
}

unfoldable pub add_users : Str → Dict Str SampledUse → Dict Str ℕ → List Str → Window → Window
unfolding add_use
add_users day s_users a_users [] w = w
add_users day s_users a_users (user ∷ users) w =
    add_users day s_users a_users users
      (add_use day user (get_or s_users user no_use) (get_or a_users user 0) w)

-- `daily.setdefault(day, [0.0, 0.0])`
abbrev pub open_day : Str → Window → Window
open_day day w = record w { daily = put day (get_or w.daily day no_day) w.daily }

unfoldable pub add_day : UsageFile → Str → Window → Window
unfolding add_users distinct_ids
add_day raw day w =
    let s_users = get_or raw.days day [] in
    let a_users = get_or raw.sacct_days day [] in
    add_users day s_users a_users (either_keys s_users a_users) (open_day day w)

abbrev pub add_day_if : Bool → UsageFile → Str → Window → Window
add_day_if true raw day w = add_day raw day w
add_day_if false raw day w = w

unfoldable pub add_days : UsageFile → (Str → Bool) → List Str → Window → Window
unfolding add_day
add_days raw keep [] w = w
add_days raw keep (day ∷ days) w = add_days raw keep days (add_day_if (keep day) raw day w)

unfoldable pub merge_usage_window : UsageFile → (Str → Bool) → Window
unfolding add_days distinct_ids
merge_usage_window raw keep =
    add_days raw keep (either_keys raw.days raw.sacct_days) (record { users = []; daily = [] })
