-- ===== src/Usage.antt =====
-- The GPU-hour accounts of src/sgpu/collector.py: `_accumulate_usage` and `_save_usage`. An amount
-- is a number of ticks, and the local dates come from outside.
pub mod Sacct
pub mod Balance
pub mod Bounds
pub mod Days
pub mod Tests
use slurm_gpu_tui.Prelude.{
  ℕ, ◌+◌, ◌-◌, ◌*◌, Str, Bool, true, false, Option, none, some, List, [], ◌∷◌,
}
use slurm_gpu_tui.Prelude.{◌==◌, str_eq, ◌&&◌, ◌||◌, not, if◌then◌else◌, ltb, leb, nat_beq, keep}
use slurm_gpu_tui.Prelude.Int.{ℤ, pos, negsuc}
use slurm_gpu_tui.Prelude.Dict.{Dict, get, put, get_or, or_default}
use slurm_gpu_tui.Prelude.Float.{float_above}
use slurm_gpu_tui.Prelude.Sort.{str_leb}
use slurm_gpu_tui.Data.{GpuInfo, NodeInfo, second}

-- The entry of one user on one day. An absent key is `none`.
pub record Account : Type 0 where
  pub alloc : ℕ
  pub busy : ℕ
  pub observed_alloc : Option ℕ
  pub waste : Option ℕ

pub record Coverage : Type 0 where
  pub fresh_gpu_sec : ℕ
  pub stale_gpu_sec : ℕ

-- The value of `_usage`.
pub record Usage : Type 0 where
  pub days : Dict Str (Dict Str Account)
  pub meta : Dict Str ℕ
  pub telemetry : Dict Str Coverage
  pub sacct_days : Dict Str (Dict Str ℕ)
  pub sacct_ts : Option ℕ

-- The module's variables, and the last text written to the usage file.
pub record Ledger : Type 0 where
  pub usage : Usage
  pub last_usage_ts : Option ℕ
  pub usage_dirty : Bool
  pub usage_last_save : ℕ
  pub usage_file : Option Usage
  pub sacct_inflight : Bool
  pub sacct_last_attempt : ℕ
  pub sacct_failures : ℕ

abbrev pub no_account : Account
no_account = record { alloc = 0; busy = 0; observed_alloc = none; waste = none }

abbrev pub no_coverage : Coverage
no_coverage = record { fresh_gpu_sec = 0; stale_gpu_sec = 0 }

-- `g.get("alloc_user") or (g.get("users") or [""])[0]`
abbrev first_or_empty : List Str → Str
first_or_empty [] = []
first_or_empty (u ∷ us) = u

abbrev pub holder : GpuInfo → Str
holder g = if g.alloc_user == [] then first_or_empty g.users else g.alloc_user

abbrev at_least : ℤ → ℕ → Bool
at_least (pos n) m = leb m n
at_least (negsuc n) m = false

-- `max(idle_sec, parked_sec) >= WASTE_MIN_SEC`
abbrev is_waste : ℕ → GpuInfo → Bool
is_waste waste_min g = at_least g.idle_sec waste_min || at_least g.parked_sec waste_min

module _ (waste_min dt : ℕ) where
  -- What a GPU adds to the account of its user.
  unfoldable pub charge : Bool → GpuInfo → Account → Account
  charge stale g u =
      let observed = or_default u.alloc u.observed_alloc in
      if stale then record u { alloc = u.alloc + dt; observed_alloc = some observed } else record {
        alloc = u.alloc + dt;
        busy = if float_above g.util 5 then u.busy + dt else u.busy;
        observed_alloc = some (observed + dt);
        waste = if is_waste waste_min g then some (or_default 0 u.waste + dt) else u.waste;
      }

  unfoldable pub cover : Bool → Coverage → Coverage
  cover stale c =
      if stale
      then record c { stale_gpu_sec = c.stale_gpu_sec + dt }
      else record c { fresh_gpu_sec = c.fresh_gpu_sec + dt }

  -- One round of the loop over the GPUs of a node, on the accounts of the day and its coverage.
  unfoldable pub charge_gpu :
      Bool → GpuInfo → Dict Str Account × Option Coverage → Dict Str Account × Option Coverage
  unfolding charge cover
  charge_gpu stale g (bucket, coverage) = if holder g == [] then (bucket, coverage) else (
    put (holder g) (charge stale g (get_or bucket (holder g) no_account)) bucket,
    some (cover stale (or_default no_coverage coverage)),
  )

  unfoldable pub charge_gpus :
      Bool → List GpuInfo → Dict Str Account × Option Coverage → Dict Str Account × Option Coverage
  unfolding charge_gpu
  charge_gpus stale [] b = b
  charge_gpus stale (g ∷ gpus) b = charge_gpus stale gpus (charge_gpu stale g b)

  unfoldable pub charge_nodes :
      List NodeInfo → Dict Str Account × Option Coverage → Dict Str Account × Option Coverage
  unfolding charge_gpus
  charge_nodes [] b = b
  charge_nodes (n ∷ nodes) b = charge_nodes nodes (charge_gpus n.stale n.gpus b)

-- Dates are compared as strings.
abbrev pub is_kept : Str → Str → Bool
is_kept cutoff d = str_leb cutoff d

unfoldable pub kept_days {ℓ} : {V : Type ℓ} → Str → Dict Str V → Dict Str V
kept_days cutoff d = keep (λ e. is_kept cutoff e.0) d

abbrev pub put_some {ℓ} : {V : Type ℓ} → Str → Option V → Dict Str V → Dict Str V
put_some k none d = d
put_some k (some v) d = put k v d

-- The usage after a sample of `dt` ticks on a day.
unfoldable pub sampled : ℕ → Str → Str → List NodeInfo → ℕ → Usage → Usage
unfolding charge_nodes kept_days
sampled waste_min day cutoff nodes dt u =
    let (bucket, coverage) =
      charge_nodes waste_min dt nodes (get_or u.days day [], get u.telemetry day) in
    record u {
      days = kept_days cutoff (put day bucket u.days);
      meta = kept_days cutoff (put day (get_or u.meta day 0 + dt) u.meta);
      telemetry = kept_days cutoff (put_some day coverage u.telemetry);
    }

-- The time since the last sample, where it counts: at most 60 seconds.
abbrev credited : Option ℕ → ℕ → Option ℕ
credited none now = none
credited (some prev) now =
    if ltb prev now && leb (now - prev) (60 * second) then some (now - prev) else none

abbrev sample_with : ℕ → Str → Str → List NodeInfo → Option ℕ → Ledger → Ledger
sample_with waste_min day cutoff nodes none l = l
sample_with waste_min day cutoff nodes (some dt) l = record l {
  usage = sampled waste_min day cutoff nodes dt l.usage;
  usage_dirty = true;
}

unfoldable pub accumulate_usage : ℕ → Str → Str → List NodeInfo → ℕ → Ledger → Ledger
unfolding sampled
accumulate_usage waste_min day cutoff nodes now l =
    sample_with waste_min day cutoff nodes (credited l.last_usage_ts now)
      (record l { last_usage_ts = some now })

-- `_save_usage`: whether a checkpoint is due, and what happens as the write succeeds or fails.
unfoldable pub save_usage : ℕ → Bool → ℕ → Bool → Ledger → Bool × Ledger
save_usage save_sec force now written l =
    if not l.usage_dirty
      || (not force && not (nat_beq l.usage_last_save 0) && ltb now (l.usage_last_save + save_sec))
      || not written
    then (false, l)
    else (true, record l { usage_file = some l.usage; usage_dirty = false; usage_last_save = now })
