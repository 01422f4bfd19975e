-- ===== src/Usage/Bounds.antt =====
-- A user is never busier than observed, nor observed for longer than charged.
use slurm_gpu_tui.Prelude.{ℕ, ◌≤◌, ◌≡◌, refl, arith, Str, Bool, true, false, Option, none, some}
use slurm_gpu_tui.Prelude.{List, [], ◌∷◌, ◌==◌, str_eq, Option-cases, Bool-cases, inl, inr}
use slurm_gpu_tui.Prelude.Dict.{Dict, get, put, get_or, or_default, get-put}
use slurm_gpu_tui.Data.{GpuInfo, NodeInfo}
use slurm_gpu_tui.Usage.{Account, Coverage, Usage, Ledger, no_account, holder, charge}
use slurm_gpu_tui.Usage.{charge_gpu, charge_gpus, charge_nodes, kept_days, sampled}
use slurm_gpu_tui.Usage.{credited, sample_with, accumulate_usage}
use slurm_gpu_tui.Usage.Balance.{get-kept_days}

-- An account without the key `observed_alloc` counts as observed throughout.
abbrev pub IsWithin : Account → Type 0
IsWithin a =
    (a.busy ≤ or_default a.alloc a.observed_alloc)
    × (or_default 0 a.waste ≤ or_default a.alloc a.observed_alloc)
    × (or_default a.alloc a.observed_alloc ≤ a.alloc)

abbrev pub AllWithin : Dict Str Account → Type 0
AllWithin d = (user : Str) (a : Account) → get d user ≡ some a → IsWithin a

abbrev pub IsSane : Usage → Type 0
IsSane u = (day : Str) → AllWithin (get_or u.days day [])

charge-IsWithin :
    (waste_min dt : ℕ) (stale : Bool) (g : GpuInfo) (a : Account)
    → IsWithin a
    → IsWithin (charge waste_min dt stale g a)
unfolding charge
charge-IsWithin waste_min dt true g a h =
    (omega (arith, h.0), omega (arith, h.1), omega (arith, h.2))
charge-IsWithin waste_min dt false g a h = ground (arith, h)

found-IsWithin :
    (d : Dict Str Account) (user : Str) → AllWithin d → IsWithin (get_or d user no_account)
unfolding get_or
found-IsWithin d user h = elim (Option-cases (get d user)) [
  | inl e ↦ rw e (omega arith, omega arith, omega arith)
  | inr e ↦ rw e.1 (h user e.0 e.1)
]

put-AllWithin :
    (user : Str) (v : Account) (d : Dict Str Account)
    → IsWithin v
    → AllWithin d
    → AllWithin (put user v d)
put-AllWithin user v d w h j a e = ground (arith, get-put user j v d, h j a, w)

module _ (waste_min dt : ℕ) where
  charge_gpu-AllWithin :
      (stale : Bool) (g : GpuInfo) (b : Dict Str Account × Option Coverage)
      → AllWithin b.0
      → AllWithin (charge_gpu waste_min dt stale g b).0
  unfolding charge_gpu
  charge_gpu-AllWithin stale g (bucket, coverage) h = elim (Bool-cases (holder g == [])) [
    | inl e ↦ rw e h
    | inr e ↦ rw e (
        put-AllWithin (holder g) (charge waste_min dt stale g (get_or bucket (holder g) no_account))
          bucket
          (charge-IsWithin waste_min dt stale g (get_or bucket (holder g) no_account)
            (found-IsWithin bucket (holder g) h))
          h)
  ]

  charge_gpus-AllWithin :
      (stale : Bool) (gpus : List GpuInfo) (b : Dict Str Account × Option Coverage)
      → AllWithin b.0
      → AllWithin (charge_gpus waste_min dt stale gpus b).0
  unfolding charge_gpus
  charge_gpus-AllWithin stale [] b h = h
  charge_gpus-AllWithin stale (g ∷ gpus) b h =
      charge_gpus-AllWithin stale gpus (charge_gpu waste_min dt stale g b)
        (charge_gpu-AllWithin stale g b h)

  charge_nodes-AllWithin :
      (nodes : List NodeInfo) (b : Dict Str Account × Option Coverage)
      → AllWithin b.0
      → AllWithin (charge_nodes waste_min dt nodes b).0
  unfolding charge_nodes
  charge_nodes-AllWithin [] b h = h
  charge_nodes-AllWithin (n ∷ nodes) b h =
      charge_nodes-AllWithin nodes (charge_gpus waste_min dt n.stale n.gpus b)
        (charge_gpus-AllWithin n.stale n.gpus b h)

get-nil : (user : Str) → get {V = Account} [] user ≡ none
unfolding get
get-nil user = refl

-- The accounts of a day after the day's own are replaced and old days are dropped.
days-AllWithin :
    (cutoff day k : Str) (b : Dict Str Account) (days : Dict Str (Dict Str Account))
    → AllWithin b
    → AllWithin (get_or days k [])
    → AllWithin (get_or (kept_days cutoff (put day b days)) k [])
unfolding get_or
days-AllWithin cutoff day k b days h old user a e = ground (
  arith,
  get-kept_days cutoff k (put day b days),
  get-put day k b days,
  h user a,
  old user a,
  get-nil user,
)

sampled-IsSane :
    (waste_min : ℕ) (day cutoff : Str) (nodes : List NodeInfo) (dt : ℕ) (u : Usage)
    → IsSane u
    → IsSane (sampled waste_min day cutoff nodes dt u)
unfolding sampled
sampled-IsSane waste_min day cutoff nodes dt u h k =
    let b : Dict Str Account × Option Coverage = (get_or u.days day [], get u.telemetry day) in
    days-AllWithin cutoff day k (charge_nodes waste_min dt nodes b).0 u.days
      (charge_nodes-AllWithin waste_min dt nodes b (h day)) (h k)

-- Where every account has its busy and its wasted time within the observed time, and that within
-- the charged time, a sample keeps it so.
pub accumulate_usage-IsSane :
    (waste_min : ℕ) (day cutoff : Str) (nodes : List NodeInfo) (now : ℕ) (l : Ledger)
    → IsSane l.usage
    → IsSane (accumulate_usage waste_min day cutoff nodes now l).usage
unfolding accumulate_usage
accumulate_usage-IsSane waste_min day cutoff nodes now l h = go (credited l.last_usage_ts now)
  where
    go :
        (o : Option ℕ)
        → IsSane
            (sample_with waste_min day cutoff nodes o (record l { last_usage_ts = some now })).usage
    go none = h
    go (some dt) = sampled-IsSane waste_min day cutoff nodes dt l.usage h
