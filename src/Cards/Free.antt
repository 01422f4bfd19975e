-- ===== src/Cards/Free.antt =====
-- When a card is shown as free.
use slurm_gpu_tui.Prelude.{
  ℕ, ◌≡◌, ◌≢◌, refl, arith, Str, Bool, true, false, Option, none, some, List, [], ◌∷◌,
}
use slurm_gpu_tui.Prelude.{◌&&◌, ◌||◌, not, if◌then◌else◌, nat_beq, Bool-cases, ap, inl, inr}
use slurm_gpu_tui.Prelude.Float.{Decimal, float}
use slurm_gpu_tui.Data.{GpuInfo, NodeInfo}
use slurm_gpu_tui.Cards.{
  Class, rogue, busy, parked, idle, free, unknown, is_nil, real_users, classify_gpu,
}
use slurm_gpu_tui.Cards.{
  class_of_util, holds_vram, node_schedulable, gpu_health_status, unless_free, class_in,
}

is_nil-eq : (s : Str) → is_nil s ≡ true → s ≡ []
is_nil-eq [] h = refl
is_nil-eq (c ∷ s) h = cc

is_nil_users : (us : List Str) → is_nil us ≡ true → us ≡ []
is_nil_users [] h = refl
is_nil_users (c ∷ s) h = cc

abbrev pub is_free : Class → Bool
is_free free = true
is_free c = false

util-free :
    (o : Option Decimal) (vram held : Bool)
    → is_free (class_of_util o vram held) ≡ true
    → (vram ≡ false) × (held ≡ false)
util-free none vram held h = cc
util-free (some u) vram held h = ground (arith)

module _ (telemetry_max_age now : ℕ) (rogue_ignore : List Str) where
  classify-free :
      (g : GpuInfo)
      → is_free (classify_gpu rogue_ignore g) ≡ true
      → (g.alloc_jobid ≡ []) × (real_users rogue_ignore g ≡ [])
  unfolding classify_gpu
  classify-free g h =
      elim (Bool-cases (not (is_nil (real_users rogue_ignore g)) && is_nil g.alloc_jobid)) [
        | inl e ↦ cc (rw e at h)
        | inr e ↦
            let u =
              util-free (float g.util) (holds_vram (float g.mem_used) (float g.mem_total))
                (not (is_nil g.alloc_jobid) || not (is_nil (real_users rogue_ignore g)))
                (rw e at h) in
            (
              is_nil-eq g.alloc_jobid (ground (arith, u.1)),
              is_nil_users (real_users rogue_ignore g) (ground (arith, u.1)),
            )
      ]

  unless-free :
      (fit : Bool) (c : Class)
      → is_free (unless_free telemetry_max_age now rogue_ignore fit c) ≡ true
      → (fit ≡ true) × (is_free c ≡ true)
  unless-free true free h = (refl, refl)
  unless-free false free h = cc
  unless-free fit rogue h = cc
  unless-free fit busy h = cc
  unless-free fit parked h = cc
  unless-free fit idle h = cc
  unless-free fit unknown h = cc

  fresh-free :
      (stale : Bool) (c : Class)
      → is_free (if stale then unknown else c) ≡ true
      → (stale ≡ false) × (is_free c ≡ true)
  fresh-free true c h = cc
  fresh-free false c h = (refl, h)

  -- A card is shown as free only on a node that is fresh and can be scheduled, if no severe health
  -- flag stands, no job is bound to it, and no real user has a process on it.
  pub class_in-free :
      (node : NodeInfo) (g : GpuInfo)
      → class_in telemetry_max_age now rogue_ignore node g ≡ free
      → (node.stale ≡ false)
        × (node_schedulable node ≡ true)
        × ((gpu_health_status telemetry_max_age now g).1 ≢ 2)
        × (g.alloc_jobid ≡ [])
        × (real_users rogue_ignore g ≡ [])
  unfolding class_in
  class_in-free node g h =
      let fit =
        node_schedulable node && not (nat_beq (gpu_health_status telemetry_max_age now g).1 2) in
      let f =
        fresh-free node.stale
          (unless_free telemetry_max_age now rogue_ignore fit (classify_gpu rogue_ignore g))
          (ap is_free h) in
      let u = unless-free fit (classify_gpu rogue_ignore g) f.1 in
      let c = classify-free g u.1 in (f.0, ground (arith, u.0), ground (arith, u.0), c.0, c.1)
