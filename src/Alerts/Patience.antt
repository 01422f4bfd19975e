-- ===== src/Alerts/Patience.antt =====
-- The clocks of uses without an allocation over many snapshots.
use slurm_gpu_tui.Prelude.{
  ℕ, ◌+◌, ◌≡◌, refl, sym, ap, ◌∙◌, arith, Str, Bool, true, false, str_eq, nat_eq, Option, none,
  some, List, [], ◌∷◌,
}
use slurm_gpu_tui.Prelude.{
  ==_iff, ◌&&◌, ◌||◌, not, if◌then◌else◌, ltb, leb, contains, contains-append, Bool-cases, inl, inr,
}
use slurm_gpu_tui.Prelude.Dict.{Dict, get, or_default}
use slurm_gpu_tui.Data.{GpuInfo, NodeInfo, PendingJob}
use slurm_gpu_tui.Alerts.{
  AlertSettings, AlertState, after, pending_alerts, waste_alert, rogue_keys, rogue_alert,
  rogue_alerts, card_loop, node_loop, active_on, active_rogue, keep_active, clear_clocks,
  use_alerts, hardware_alerts, free_alert, process_alerts,
}
use slurm_gpu_tui.Alerts.Rogue.{
  is_rogue, IsOther, IsClocked, known_since, pending_alerts-IsOther, waste_alert-IsOther,
  hardware_alerts-IsOther, free_alert-IsOther, same-IsOther, IsOther-IsClocked, after-IsClocked,
  rogue_alert-IsClocked,
}

module _ (set : AlertSettings) (now : ℕ) where
  get-keep_active :
      (active : List Str) (d : Dict Str ℕ) (k : Str)
      → get (keep_active set now active d) k ≡ (if contains active k then get d k else none)
  unfolding keep_active get
  get-keep_active active [] k = ground arith
  get-keep_active active ((j, t) ∷ d) k = ground (arith, get-keep_active active d k, ==_iff j k)

  rogue_alerts-IsClocked : (keys : List Str) → IsClocked set now keys (rogue_alerts set now keys)
  unfolding rogue_alerts
  rogue_alerts-IsClocked [] = IsOther-IsClocked set now (λ s. (s, [])) same-IsOther
  rogue_alerts-IsClocked (key ∷ keys) =
      after-IsClocked set now keys (key ∷ []) (rogue_alerts set now keys) (rogue_alert set now key)
        (rogue_alerts-IsClocked keys) (rogue_alert-IsClocked set now key)

  card_loop-IsClocked :
      (rogue_ok : Bool) (n : NodeInfo) (gpus : List GpuInfo)
      → IsClocked set now (active_on set now rogue_ok n gpus) (card_loop set now rogue_ok n gpus)
  unfolding card_loop active_on
  card_loop-IsClocked rogue_ok n [] = IsOther-IsClocked set now (λ s. (s, [])) same-IsOther
  card_loop-IsClocked rogue_ok n (g ∷ gpus) =
      let keys = rogue_keys set now rogue_ok n g in
      after-IsClocked set now (active_on set now rogue_ok n gpus) keys
        (card_loop set now rogue_ok n gpus)
        (λ s. after (rogue_alerts set now keys) (waste_alert set now n g s))
        (card_loop-IsClocked rogue_ok n gpus)
        (after-IsClocked set now keys [] (rogue_alerts set now keys) (waste_alert set now n g)
          (rogue_alerts-IsClocked keys)
          (IsOther-IsClocked set now (waste_alert set now n g) (waste_alert-IsOther set now n g)))

  node_loop-IsClocked :
      (rogue_ok : Bool) (nodes : List NodeInfo)
      → IsClocked set now (active_rogue set now rogue_ok nodes) (node_loop set now rogue_ok nodes)
  unfolding node_loop active_rogue
  node_loop-IsClocked rogue_ok [] = IsOther-IsClocked set now (λ s. (s, [])) same-IsOther
  node_loop-IsClocked rogue_ok (n ∷ nodes) =
      after-IsClocked set now (active_rogue set now rogue_ok nodes)
        (active_on set now rogue_ok n n.gpus) (node_loop set now rogue_ok nodes)
        (card_loop set now rogue_ok n n.gpus) (node_loop-IsClocked rogue_ok nodes)
        (card_loop-IsClocked rogue_ok n n.gpus)

  active_on_nothing : (n : NodeInfo) (gpus : List GpuInfo) → active_on set now false n gpus ≡ []
  unfolding active_on
  active_on_nothing n [] = refl
  active_on_nothing n (g ∷ gpus) = active_on_nothing n gpus

  active_nothing : (nodes : List NodeInfo) → active_rogue set now false nodes ≡ []
  unfolding active_rogue
  active_nothing [] = refl
  active_nothing (n ∷ nodes) = rw (active_on_nothing n n.gpus) (active_nothing nodes)

-- What a snapshot makes of a clock: a use that goes on keeps it or starts it, one that has ended in a
-- trusted snapshot loses it, and a snapshot that is not trusted says nothing.
abbrev pub clock_step : Bool → Bool → ℕ → Option ℕ → Option ℕ
clock_step trusted active now before =
    if trusted then (if active then some (or_default now before) else none) else before

pub record Snapshot : Type 0 where
  pub now : ℕ
  pub errors : Bool
  pub pending : List PendingJob
  pub nodes : List NodeInfo

module _ (set : AlertSettings) where
  abbrev pub is_trusted : Bool → Bool
  is_trusted errors = set.rogue_alert && not errors

  abbrev pub uses : Str → Snapshot → Bool
  uses k x = contains (active_rogue set x.now (is_trusted x.errors) x.nodes) k

  abbrev pub step : Snapshot → AlertState → AlertState × List Str
  step x s = process_alerts set x.now x.errors x.pending x.nodes s

  -- The clock of a key after a snapshot, and what an alert on it says.
  abbrev IsWatched : Snapshot → (AlertState → AlertState × List Str) → Type 0
  IsWatched x f =
      (s : AlertState) (k : Str)
      → (get (f s).0.pending_rogue k
          ≡ clock_step (is_trusted x.errors) (uses k x) x.now (get s.pending_rogue k))
        × (is_rogue k ≡ true
            → contains (f s).1 k ≡ true
            → (uses k x ≡ true)
              × (leb (known_since set x.now k s + set.rogue_grace_sec) x.now ≡ true))

  cleared-clock :
      (now : ℕ) (trusted : Bool) (nodes : List NodeInfo) (s : AlertState) (k : Str)
      → get
          (clear_clocks set now trusted nodes (node_loop set now trusted nodes s)).0.pending_rogue
          k
        ≡ clock_step trusted
            (contains (active_rogue set now trusted nodes) k)
            now
            (get s.pending_rogue k)
  unfolding IsClocked
  cleared-clock now true nodes s k =
      let loop = node_loop set now true nodes s in
      ground (
        arith,
        (node_loop-IsClocked set now true nodes s k).0,
        get-keep_active set now (active_rogue set now true nodes) loop.0.pending_rogue k,
      )
  cleared-clock now false nodes s k = ground (
    arith,
    (node_loop-IsClocked set now false nodes s k).0,
    ap (λ ks. contains ks k) (active_nothing set now nodes),
  )

  use_alerts-IsWatched : (x : Snapshot) → IsWatched x (use_alerts set x.now x.errors x.nodes)
  unfolding use_alerts IsClocked
  use_alerts-IsWatched x s k =
      let trusted = is_trusted x.errors in
      elim (Bool-cases (ltb 0 set.waste_alert || set.rogue_alert)) [
        | inl e ↦ rw e (
          cleared-clock x.now trusted x.nodes s k,
          (node_loop-IsClocked set x.now trusted x.nodes s k).1,
        )
        | inr e ↦
            let off : set.rogue_alert ≡ false = ground arith in
            rw e (ground (arith, off), λ r c. absurd cc)
      ]

  -- The other parts of `process`, before or after, change nothing of it.
  before-IsWatched :
      (x : Snapshot) (g h : AlertState → AlertState × List Str)
      → IsWatched x g
      → IsOther h
      → IsWatched x (λ s. after g (h s))
  unfolding IsOther
  before-IsWatched x g h q r s k =
      let (y, a) = q (h s).0 k in
      let same = ap (λ d. get d k) (r s).0 in
      (
        y ∙ ap (clock_step (is_trusted x.errors) (uses k x) x.now) same,
        λ t c. ground (arith, a t, (r s).1 k t, same, contains-append (h s).1 (g (h s).0).1 k),
      )

  after-IsWatched :
      (x : Snapshot) (f g : AlertState → AlertState × List Str)
      → IsOther f
      → IsWatched x g
      → IsWatched x (λ s. after f (g s))
  unfolding IsOther
  after-IsWatched x f g p q s k =
      let (y, a) = q s k in
      (
        ap (λ d. get d k) (p (g s).0).0 ∙ y,
        λ t c. ground (arith, a t, (p (g s).0).1 k t, contains-append (g s).1 (f (g s).0).1 k),
      )

  step-IsWatched : (x : Snapshot) → IsWatched x (step x)
  unfolding process_alerts
  step-IsWatched x =
      after-IsWatched x (free_alert set x.now x.nodes) _ (free_alert-IsOther set x.now x.nodes) (
        after-IsWatched x (hardware_alerts set x.now x.nodes) _
          (hardware_alerts-IsOther set x.now x.nodes)
          (before-IsWatched x (use_alerts set x.now x.errors x.nodes)
            (pending_alerts set x.now x.errors x.pending) (use_alerts-IsWatched x)
            (pending_alerts-IsOther set x.now x.errors x.pending)))

  unfoldable pub steps : List Snapshot → AlertState → AlertState
  steps [] s = s
  steps (x ∷ xs) s = steps xs (step x s).0

  -- The clock of a key after a history of snapshots.
  unfoldable pub clock : Str → List Snapshot → Option ℕ → Option ℕ
  clock k [] before = before
  clock k (x ∷ xs) before = clock k xs (clock_step (is_trusted x.errors) (uses k x) x.now before)

  clock-steps :
      (k : Str) (xs : List Snapshot) (s : AlertState)
      → get (steps xs s).pending_rogue k ≡ clock k xs (get s.pending_rogue k)
  unfolding steps clock
  clock-steps k [] s = refl
  clock-steps k (x ∷ xs) s =
      clock-steps k xs (step x s).0 ∙ ap (clock k xs) (step-IsWatched x s k).0

  -- A use without an allocation is announced only in a snapshot that is trusted and shows it, and only
  -- if it has been seen for the grace time: since the first of the trusted snapshots that have shown it
  -- without a break.
  pub rogue_alert-after_grace :
      (k : Str) (xs : List Snapshot) (x : Snapshot) (s : AlertState)
      → is_rogue k ≡ true
      → contains (step x (steps xs s)).1 k ≡ true
      → (uses k x ≡ true)
        × (leb (or_default x.now (clock k xs (get s.pending_rogue k)) + set.rogue_grace_sec) x.now
            ≡ true)
  rogue_alert-after_grace k xs x s r c =
      let (used, waited) = (step-IsWatched x (steps xs s) k).1 r c in
      (
        used,
        ap (λ o. leb (or_default x.now o + set.rogue_grace_sec) x.now) (sym (clock-steps k xs s))
            ∙ waited,
      )
