-- ===== src/Cards.antt =====
-- What a card is doing: `classify_gpu`, `gpu_health_status` and `node_gpu_classes` of
-- src/sgpu/cells.py, and the clocks of `_track_waste` of src/sgpu/collector.py.
pub mod Free
pub mod Elapsed
pub mod Tests
use slurm_gpu_tui.Prelude.{
  ℕ, ◌+◌, ◌-◌, ◌*◌, ◌/◌, ◌%◌, ◌^◌, Str, Bool, true, false, Option, none, some, List, [], ◌∷◌, ◌++◌,
}
use slurm_gpu_tui.Prelude.{
  ◌==◌, str_eq, ◌&&◌, ◌||◌, not, if◌then◌else◌, ltb, leb, nat_beq, contains, any, map, keep, max,
}
use slurm_gpu_tui.Prelude.Int.{ℤ, pos, negsuc, sub_ℕ, trunc_div, ltb_ℤ}
use slurm_gpu_tui.Prelude.Dict.{Dict, get, put, pop}
use slurm_gpu_tui.Prelude.Float.{Decimal, float, above, nonnegative}
use slurm_gpu_tui.Prelude.Text.{codes, lower, has_substring, join, show}
use slurm_gpu_tui.Data.{GpuInfo, NodeInfo, second}

pub data Class : Type 0 where
  rogue busy parked idle free unknown : Class

abbrev pub is_nil {ℓ} : {A : Type ℓ} → List A → Bool
is_nil [] = true
is_nil (x ∷ xs) = false

-- `used / total >= 0.3`, with 0 for a total that is not positive
abbrev pub holds_vram : Option Decimal → Option Decimal → Bool
holds_vram none total = false
holds_vram (some used) none = false
holds_vram (some used) (some total) =
    above total 0
    && nonnegative used
    && leb (3 * (total.digits * 10 ^ used.scale)) (10 * (used.digits * 10 ^ total.scale))

abbrev pub class_of_util : Option Decimal → Bool → Bool → Class
class_of_util none vram held = unknown
class_of_util (some util) vram held =
    if above util 5 then busy else if vram then parked else if held then idle else free

module _ (rogue_ignore : List Str) where
  abbrev pub real_users : GpuInfo → List Str
  real_users g = keep (λ u. not (contains rogue_ignore u)) g.users

  unfoldable pub classify_gpu : GpuInfo → Class
  classify_gpu g =
      if not (is_nil (real_users g)) && is_nil g.alloc_jobid
      then rogue
      else class_of_util (float g.util) (holds_vram (float g.mem_used) (float g.mem_total))
          (not (is_nil g.alloc_jobid) || not (is_nil (real_users g)))

abbrev out_states : List Str
out_states = codes "down" ∷ codes "drain" ∷ codes "fail" ∷ codes "maint" ∷ codes "unknown" ∷ []

unfoldable pub node_schedulable : NodeInfo → Bool
node_schedulable node = not (
    node.stale
    || not (is_nil node.error)
    || not node.scheduler_available
    || ltb_ℤ (pos (30 * second)) node.scheduler_age_sec
    || any (λ s. has_substring s (lower node.state)) out_states)

module _ (telemetry_max_age now : ℕ) where
  -- `health_observed_at > 0 and -5 <= now - health_observed_at <= TELEMETRY_MAX_AGE`
  abbrev is_observed : GpuInfo → Bool
  is_observed g =
      ltb 0 g.health_observed_at
      && leb g.health_observed_at (now + 5 * second)
      && leb now (g.health_observed_at + telemetry_max_age)

  abbrev action_flag : Str → Str
  action_flag action =
      if action == codes "reboot"
      then codes "REBOOT"
      else if action == codes "reset"
      then codes "RESET"
      else codes "DRAIN"

  abbrev action_flags : Str → List Str × ℕ
  action_flags action =
      if is_nil action || action == codes "none" then ([], 0) else (action_flag action ∷ [], 2)

  -- The flags of the clock reasons, on the severity so far.
  abbrev clock_flags : Str → ℕ → List Str × ℕ
  clock_flags reasons severity =
      if has_substring (codes "thermal") reasons
      then (codes "THERMAL" ∷ [], 2)
      else if any (λ r. has_substring r reasons) (codes "hw-slowdown" ∷ codes "power-brake" ∷ [])
      then (codes "SLOW" ∷ [], max severity 1)
      else if has_substring (codes "power-cap") reasons
      then (codes "CAP" ∷ [], severity)
      else ([], severity)

  abbrev observed_flags : GpuInfo → List Str × ℕ
  observed_flags g =
      let (flags, severity) = action_flags (lower g.recovery_action) in
      let (more, severity') = clock_flags g.clock_reasons severity in
      if is_observed g then (flags ++ more, severity') else ([], 0)

  -- `f"{ecc:.0f}"`: rounded to the nearest whole number, to an even one in the middle
  abbrev rounded : Decimal → ℕ
  rounded x =
      let unit = 10 ^ x.scale in
      let q = x.digits / unit in
      let r = x.digits % unit in
      if ltb unit (2 * r) || (nat_beq (2 * r) unit && nat_beq (q % 2) 1) then q + 1 else q

  abbrev hot_flags : Option Decimal → ℕ → List Str × ℕ
  hot_flags none severity = ([], severity)
  hot_flags (some t) severity =
      if not t.negative && leb (85 * 10 ^ t.scale) t.digits
      then (codes "HOT" ∷ [], max severity 1)
      else ([], severity)

  abbrev ecc_flags : Option Decimal → ℕ → List Str × ℕ
  ecc_flags none severity = ([], severity)
  ecc_flags (some n) severity =
      if above n 0
      then ((codes "ECC:" ++ show (rounded n)) ∷ [], max severity 1)
      else ([], severity)

  abbrev is_read : Option Decimal → Bool
  is_read none = false
  is_read (some x) = true

  unfoldable pub gpu_health_status : GpuInfo → Str × ℕ
  gpu_health_status g =
      let (flags, severity) = observed_flags g in
      let (hot, severity') = hot_flags (float g.temp) severity in
      let (ecc, severity'') = ecc_flags (float g.ecc) severity' in
      let known = is_read (float g.temp) || is_read (float g.ecc) || is_observed g in
      let all_flags = flags ++ hot ++ ecc in
      (
        if is_nil all_flags
            then (if known then codes "OK" else 8212 ∷ [])
            else join (codes "/") all_flags,
        severity'',
      )

  module _ (rogue_ignore : List Str) where
    abbrev pub unless_free : Bool → Class → Class
    unless_free fit free = if fit then free else unknown
    unless_free fit c = c

    -- The class of one card of a node.
    unfoldable pub class_in : NodeInfo → GpuInfo → Class
    unfolding classify_gpu gpu_health_status node_schedulable
    class_in node g =
        if node.stale
        then unknown
        else unless_free (node_schedulable node && not (nat_beq (gpu_health_status g).1 2))
            (classify_gpu rogue_ignore g)

    unfoldable pub node_gpu_classes : NodeInfo → List Class
    unfolding class_in
    node_gpu_classes node = map (class_in node) node.gpus

-- `_idle_since` with the job, `_parked_since` with the owner.
pub record Clocks : Type 0 where
  pub idle_since : Dict Str (Str × ℕ)
  pub parked_since : Dict Str (Str × ℕ)

-- The entry while the same holder stays, or one that begins now.
abbrev pub started : Str → ℕ → Option (Str × ℕ) → Str × ℕ
started who now none = (who, now)
started who now (some (holder, since)) = if holder == who then (holder, since) else (who, now)

-- `int(now - since)`, in seconds
abbrev pub seconds_since : ℕ → ℕ → ℤ
seconds_since since now = trunc_div (sub_ℕ now since) second

-- The clock of a key: it runs while the condition holds, and is taken away else.
unfoldable pub tick : Bool → Str → Str → ℕ → Dict Str (Str × ℕ) → ℤ × Dict Str (Str × ℕ)
tick holds key who now d =
    let st = started who now (get d key) in
    if holds then (seconds_since st.1 now, put key st d) else (pos 0, pop key d)

abbrev low_util : Option Decimal → Bool
low_util none = false
low_util (some u) = nonnegative u && not (above u 5)

abbrev or_text : Str → Str → Str
or_text s t = if is_nil s then t else s

abbrev pub clock_key : Str → GpuInfo → Str
clock_key node g = node ++ codes ":" ++ g.index

abbrev pub is_reserved : GpuInfo → Bool
is_reserved g = not (is_nil g.alloc_jobid) && is_nil g.users

abbrev pub owner_of : GpuInfo → Str
owner_of g = or_text g.alloc_jobid (join (codes ",") g.users)

abbrev pub is_parked : GpuInfo → Bool
is_parked g =
    low_util (float g.util)
    && holds_vram (float g.mem_used) (float g.mem_total)
    && not (is_nil (owner_of g))

unfoldable pub track_waste : Str → GpuInfo → ℕ → Clocks → GpuInfo × Clocks
unfolding tick
track_waste node g now c =
    let (idle_sec, idle_since) =
      tick (is_reserved g) (clock_key node g) g.alloc_jobid now c.idle_since in
    let (parked_sec, parked_since) =
      tick (is_parked g) (clock_key node g) (owner_of g) now c.parked_since in
    (
      record g { idle_sec = idle_sec; parked_sec = parked_sec },
      record { idle_since = idle_since; parked_since = parked_since },
    )
