-- ===== src/Usage/Balance.antt =====
-- Every tick that is charged to a user is covered as fresh or stale telemetry, and the reverse.
use slurm_gpu_tui.Prelude.{
  ℕ, ◌+◌, ◌*◌, ◌≤◌, ◌≡◌, refl, arith, Str, Bool, true, false, Option, none, some,
}
use slurm_gpu_tui.Prelude.{List, [], ◌∷◌, ◌==◌, ==_iff, ==_refl, str_eq, if◌then◌else◌}
use slurm_gpu_tui.Prelude.Dict.{Dict, get, put, get_or, or_default, get-put}
use slurm_gpu_tui.Data.{GpuInfo, NodeInfo}
use slurm_gpu_tui.Usage.{
  Account, Coverage, Usage, Ledger, no_account, no_coverage, holder, charge, cover,
}
use slurm_gpu_tui.Usage.{
  charge_gpu, charge_gpus, charge_nodes, is_kept, kept_days, put_some, sampled,
}
use slurm_gpu_tui.Usage.{credited, sample_with, accumulate_usage}

-- What the users of a day have been charged.
abbrev pub charged : Dict Str Account → ℕ
charged [] = 0
charged ((user, a) ∷ d) = a.alloc + charged d

-- The GPU time that the coverage of a day accounts for.
abbrev pub covered : Option Coverage → ℕ
covered none = 0
covered (some c) = c.fresh_gpu_sec + c.stale_gpu_sec

-- How many GPUs have a holder.
abbrev pub held_gpus : List GpuInfo → ℕ
held_gpus [] = 0
held_gpus (g ∷ gpus) = (if holder g == [] then 0 else 1) + held_gpus gpus

abbrev pub held : List NodeInfo → ℕ
held [] = 0
held (n ∷ nodes) = held_gpus n.gpus + held nodes

charged-put :
    (k : Str) (v : Account) (d : Dict Str Account)
    → charged (put k v d) + (get_or d k no_account).alloc ≡ charged d + v.alloc
unfolding put get_or get
charged-put k v [] = omega arith
charged-put k v ((j, w) ∷ d) = ground (arith, charged-put k v d)

covered-default : (o : Option Coverage) → covered (some (or_default no_coverage o)) ≡ covered o
covered-default none = refl
covered-default (some c) = refl

module _ (waste_min dt : ℕ) where
  alloc-charge :
      (stale : Bool) (g : GpuInfo) (u : Account)
      → (charge waste_min dt stale g u).alloc ≡ u.alloc + dt
  unfolding charge
  alloc-charge true g u = refl
  alloc-charge false g u = refl

  covered-cover :
      (stale : Bool) (c : Coverage)
      → covered (some (cover waste_min dt stale c)) ≡ covered (some c) + dt
  unfolding cover
  covered-cover true c = omega arith
  covered-cover false c = omega arith

  abbrev Charged :
      ℕ → Dict Str Account × Option Coverage → Dict Str Account × Option Coverage → Type 0
  Charged n b b' = (charged b'.0 ≡ charged b.0 + dt * n) × (covered b'.1 ≡ covered b.1 + dt * n)

  charge_gpu-Charged :
      (stale : Bool) (g : GpuInfo) (b : Dict Str Account × Option Coverage)
      → Charged (held_gpus (g ∷ [])) b (charge_gpu waste_min dt stale g b)
  unfolding charge_gpu
  charge_gpu-Charged stale g (bucket, coverage) =
      let u = get_or bucket (holder g) no_account in
      ground (
        arith,
        charged-put (holder g) (charge waste_min dt stale g u) bucket,
        alloc-charge stale g u,
        covered-cover stale (or_default no_coverage coverage),
        covered-default coverage,
      )

  charge_gpus-Charged :
      (stale : Bool) (gpus : List GpuInfo) (b : Dict Str Account × Option Coverage)
      → Charged (held_gpus gpus) b (charge_gpus waste_min dt stale gpus b)
  unfolding charge_gpus
  charge_gpus-Charged stale [] b = (omega arith, omega arith)
  charge_gpus-Charged stale (g ∷ gpus) b =
      let one = charge_gpu-Charged stale g b in
      let more = charge_gpus-Charged stale gpus (charge_gpu waste_min dt stale g b) in
      (grind (arith, one.0, more.0), grind (arith, one.1, more.1))

  -- A sample charges `dt` for each GPU that has a holder, and covers as much.
  pub charge_nodes-Charged :
      (nodes : List NodeInfo) (b : Dict Str Account × Option Coverage)
      → Charged (held nodes) b (charge_nodes waste_min dt nodes b)
  unfolding charge_nodes
  charge_nodes-Charged [] b = (omega arith, omega arith)
  charge_nodes-Charged (n ∷ nodes) b =
      let one = charge_gpus-Charged n.stale n.gpus b in
      let more = charge_nodes-Charged nodes (charge_gpus waste_min dt n.stale n.gpus b) in
      (grind (arith, one.0, more.0), grind (arith, one.1, more.1))

pub get-kept_days {ℓ} :
    {V : Type ℓ} (cutoff k : Str) (d : Dict Str V)
    → get (kept_days cutoff d) k ≡ (if is_kept cutoff k then get d k else none)
unfolding kept_days get
get-kept_days cutoff k [] = ground arith
get-kept_days cutoff k ((j, v) ∷ d) = ground (arith, get-kept_days cutoff k d, ==_iff j k)

-- On every day, what the users were charged is what the telemetry covers.
abbrev pub IsBalanced : Usage → Type 0
IsBalanced u = (k : Str) → charged (get_or u.days k []) ≡ covered (get u.telemetry k)

covered-put_some :
    (k j : Str) (o : Option Coverage) (d : Dict Str Coverage)
    → covered (get d k) ≤ covered o
    → covered (get (put_some k o d) j) ≡ (if k == j then covered o else covered (get d j))
covered-put_some k j none d h = ground (arith, ==_iff k j)
covered-put_some k j (some c) d h = ground (arith, get-put k j c d)

charged-put_day :
    (k j : Str) (b : Dict Str Account) (d : Dict Str (Dict Str Account))
    → charged (get_or (put k b d) j []) ≡ (if k == j then charged b else charged (get_or d j []))
unfolding get_or
charged-put_day k j b d = ground (arith, get-put k j b d)

sampled-IsBalanced :
    (waste_min : ℕ) (day cutoff : Str) (nodes : List NodeInfo) (dt : ℕ) (u : Usage)
    → IsBalanced u
    → IsBalanced (sampled waste_min day cutoff nodes dt u)
unfolding sampled get_or
sampled-IsBalanced waste_min day cutoff nodes dt u h k =
    let b : Dict Str Account × Option Coverage = (get_or u.days day [], get u.telemetry day) in
    let b' = charge_nodes waste_min dt nodes b in
    let c = charge_nodes-Charged waste_min dt nodes b in
    ground (
      arith,
      get-kept_days cutoff k (put day b'.0 u.days),
      get-kept_days cutoff k (put_some day b'.1 u.telemetry),
      charged-put_day day k b'.0 u.days,
      covered-put_some day k b'.1 u.telemetry,
      c,
      h day,
      h k,
    )

-- If the accounts balance on every day, they balance after a sample.
pub accumulate_usage-IsBalanced :
    (waste_min : ℕ) (day cutoff : Str) (nodes : List NodeInfo) (now : ℕ) (l : Ledger)
    → IsBalanced l.usage
    → IsBalanced (accumulate_usage waste_min day cutoff nodes now l).usage
unfolding accumulate_usage
accumulate_usage-IsBalanced waste_min day cutoff nodes now l h = go (credited l.last_usage_ts now)
  where
    go :
        (o : Option ℕ)
        → IsBalanced
            (sample_with waste_min day cutoff nodes o (record l { last_usage_ts = some now })).usage
    go none = h
    go (some dt) = sampled-IsBalanced waste_min day cutoff nodes dt l.usage h

-- What the day is charged by a sample that counts, if the day is kept: its ticks for each GPU with
-- a holder.
pub charged-sampled :
    (waste_min : ℕ) (day cutoff : Str) (nodes : List NodeInfo) (dt : ℕ) (u : Usage)
    → is_kept cutoff day ≡ true
    → charged (get_or (sampled waste_min day cutoff nodes dt u).days day [])
      ≡ charged (get_or u.days day []) + dt * held nodes
unfolding sampled get_or
charged-sampled waste_min day cutoff nodes dt u kept =
    let b : Dict Str Account × Option Coverage = (get_or u.days day [], get u.telemetry day) in
    let b' = charge_nodes waste_min dt nodes b in
    let c = charge_nodes-Charged waste_min dt nodes b in
    ground (
      arith,
      get-kept_days cutoff day (put day b'.0 u.days),
      charged-put_day day day b'.0 u.days,
      c.0,
      ==_refl day,
    )
