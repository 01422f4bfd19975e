-- ===== src/Alerts/Rogue.antt =====
-- A use of a card without an allocation is announced only after it has lasted the grace time.
use slurm_gpu_tui.Prelude.{
  ℕ, ◌+◌, ◌≡◌, refl, ap, ◌∙◌, arith, Str, Bool, true, false, str_eq, nat_eq, list_beq, some, List,
  [], ◌∷◌, ◌++◌,
}
use slurm_gpu_tui.Prelude.{
  ◌==◌, ==_iff, ◌&&◌, not, if◌then◌else◌, ltb, leb, contains, contains-append, Bool-cases, inl, inr,
}
use slurm_gpu_tui.Prelude.Dict.{get, get_or, put, get-put, or_default}
use slurm_gpu_tui.Prelude.Text.{codes, starts_with, int}
use slurm_gpu_tui.Data.{GpuInfo, NodeInfo, PendingJob}
use slurm_gpu_tui.Notify.{ok_to_send}
use slurm_gpu_tui.Alerts.{
  is_skipped, is_wasted, reaches, free_gpus, AlertSettings, AlertState, send_if, after, card_key,
  pending_alert, pending_loop, pending_alerts, waste_alert, rogue_alert, hardware_alert,
  hardware_cards, hardware_alerts, free_alert,
}

abbrev pub is_rogue : Str → Bool
is_rogue k = starts_with k (codes "rogue")

send_if-pending_rogue :
    (due : Bool) (key : Str) (now gap : ℕ) (s : AlertState)
    → (send_if due key now gap s).0.pending_rogue ≡ s.pending_rogue
unfolding send_if ok_to_send
send_if-pending_rogue due key now gap s = ground arith

contains-send_if :
    (due : Bool) (key : Str) (now gap : ℕ) (s : AlertState) (k : Str)
    → contains (send_if due key now gap s).1 k ≡ true
    → (due ≡ true) × ((key == k) ≡ true)
unfolding send_if ok_to_send
contains-send_if due key now gap s k h = ground arith

-- A step that leaves the clocks alone and announces no rogue use.
unfoldable pub IsOther : (AlertState → AlertState × List Str) → Type 0
IsOther step =
    (s : AlertState)
    → ((step s).0.pending_rogue ≡ s.pending_rogue)
      × ((k : Str) → is_rogue k ≡ true → contains (step s).1 k ≡ false)

pub send_if-IsOther :
    (due : AlertState → Bool) (key : Str) (now gap : ℕ)
    → ((k : Str) → is_rogue k ≡ true → (key == k) ≡ false)
    → IsOther (λ s. send_if (due s) key now gap s)
unfolding IsOther
send_if-IsOther due key now gap h s = (
  send_if-pending_rogue (due s) key now gap s,
  λ k r. elim (Bool-cases (contains (send_if (due s) key now gap s).1 k)) [
    | inl t ↦ absurd (ground (arith, h k r, contains-send_if (due s) key now gap s k t))
    | inr f ↦ f
  ],
)

pub after-IsOther :
    (f g : AlertState → AlertState × List Str)
    → IsOther f
    → IsOther g
    → IsOther (λ s. after f (g s))
unfolding IsOther
after-IsOther f g p q s = (
  (p (g s).0).0 ∙ (q s).0,
  λ k r. ground (arith, contains-append (g s).1 (f (g s).0).1 k, (p (g s).0).1 k r, (q s).1 k r),
)

pub same-IsOther : IsOther (λ s. (s, []))
unfolding IsOther
same-IsOther s = (refl, λ k r. refl)

other_key : (c : ℕ) (x k : Str) → (c == b'r') ≡ false → is_rogue k ≡ true → ((c ∷ x) == k) ≡ false
unfolding starts_with list_beq
other_key c x [] e r = refl
other_key c x (d ∷ k) e r = ground arith

module _ (set : AlertSettings) (now : ℕ) where
  pub pending_loop-IsOther : (pending : List PendingJob) → IsOther (pending_loop set now pending)
  unfolding pending_loop pending_alert
  pending_loop-IsOther [] = same-IsOther
  pending_loop-IsOther (p ∷ pending) =
      after-IsOther (pending_loop set now pending) (pending_alert set now p)
        (pending_loop-IsOther pending)
        (send_if-IsOther
          (λ s.
            not (is_skipped set now p)
            && leb (get_or s.pend_seen p.jobid now + set.pending_alert) now)
          (codes "pend:" ++ p.jobid) now set.nag_realert_sec (λ k. other_key b'p' _ k refl))

  pub pending_alerts-IsOther :
      (errors : Bool) (pending : List PendingJob) → IsOther (pending_alerts set now errors pending)
  unfolding pending_alerts IsOther
  pending_alerts-IsOther errors pending s =
      elim (Bool-cases (ltb 0 set.pending_alert && not errors)) [
        | inl e ↦ rw e (pending_loop-IsOther pending s)
        | inr e ↦ rw e (same-IsOther s)
      ]

  pub hardware_alert-IsOther : (n : NodeInfo) (g : GpuInfo) → IsOther (hardware_alert set now n g)
  unfolding hardware_alert
  hardware_alert-IsOther n g =
      after-IsOther _ _
        (send_if-IsOther (λ s. set.ecc_alert && reaches set now 1 (int g.ecc))
          (card_key (codes "ecc") n g) now set.nag_realert_sec (λ k. other_key b'e' _ k refl))
        (send_if-IsOther
          (λ s. ltb 0 set.temp_alert_c && reaches set now set.temp_alert_c (int g.temp))
          (card_key (codes "temp") n g) now set.nag_realert_sec (λ k. other_key b't' _ k refl))

  pub hardware_cards-IsOther :
      (n : NodeInfo) (gpus : List GpuInfo) → IsOther (hardware_cards set now n gpus)
  unfolding hardware_cards
  hardware_cards-IsOther n [] = same-IsOther
  hardware_cards-IsOther n (g ∷ gpus) =
      after-IsOther (hardware_cards set now n gpus) (hardware_alert set now n g)
        (hardware_cards-IsOther n gpus) (hardware_alert-IsOther n g)

  pub hardware_alerts-IsOther : (nodes : List NodeInfo) → IsOther (hardware_alerts set now nodes)
  unfolding hardware_alerts
  hardware_alerts-IsOther [] = same-IsOther
  hardware_alerts-IsOther (n ∷ nodes) =
      after-IsOther (hardware_alerts set now nodes) (hardware_cards set now n n.gpus)
        (hardware_alerts-IsOther nodes) (hardware_cards-IsOther n n.gpus)

  pub waste_alert-IsOther : (n : NodeInfo) (g : GpuInfo) → IsOther (waste_alert set now n g)
  unfolding waste_alert
  waste_alert-IsOther n g =
      send_if-IsOther (λ s. is_wasted set now g)
        (card_key (codes "waste") n g ++ (codes ":" ++ g.alloc_jobid)) now set.nag_realert_sec
        (λ k. other_key b'w' _ k refl)

  pub free_alert-IsOther : (nodes : List NodeInfo) → IsOther (free_alert set now nodes)
  unfolding free_alert IsOther
  free_alert-IsOther nodes s =
      let sent =
        send_if-IsOther (λ t. t.free_was_below) (codes "free_gpus") now set.debounce_sec
          (λ k. other_key b'f' _ k refl) s in
      elim (Bool-cases (not (ltb 0 set.free_gpus_min))) [
        | inl e ↦ rw e (same-IsOther s)
        | inr e ↦ elim (Bool-cases (leb set.free_gpus_min (free_gpus set now nodes))) [
          | inl f ↦ rw e (rw f sent)
          | inr f ↦ rw e (rw f (refl, λ k r. refl))
        ]
      ]

  abbrev pub known_since : Str → AlertState → ℕ
  known_since k s = or_default now (get s.pending_rogue k)

  -- A step that starts the clocks of the keys, and announces only keys of which the clock has run
  -- for the grace time.
  unfoldable pub IsClocked : List Str → (AlertState → AlertState × List Str) → Type 0
  IsClocked keys step =
      (s : AlertState) (k : Str)
      → (get (step s).0.pending_rogue k
          ≡ (if contains keys k then some (known_since k s) else get s.pending_rogue k))
        × (is_rogue k ≡ true
            → contains (step s).1 k ≡ true
            → (contains keys k ≡ true) × (leb (known_since k s + set.rogue_grace_sec) now ≡ true))

  pub IsOther-IsClocked :
      (step : AlertState → AlertState × List Str) → IsOther step → IsClocked [] step
  unfolding IsOther IsClocked
  IsOther-IsClocked step h s k =
      (ap (λ d. get d k) (h s).0, λ r c. absurd (ground (arith, (h s).1 k r)))

  pub after-IsClocked :
      (ks js : List Str) (f g : AlertState → AlertState × List Str)
      → IsClocked ks f
      → IsClocked js g
      → IsClocked (js ++ ks) (λ s. after f (g s))
  unfolding IsClocked
  after-IsClocked ks js f g p q s k =
      let (x, a) = p (g s).0 k in
      let (y, b) = q s k in
      let both = contains-append js ks k in
      let joined = contains-append (g s).1 (f (g s).0).1 k in
      (ground (arith, x, y, both), λ r c. ground (arith, y, both, joined, a r, b r))

  pub rogue_alert-IsClocked : (key : Str) → IsClocked (key ∷ []) (rogue_alert set now key)
  unfolding IsClocked rogue_alert get_or
  rogue_alert-IsClocked key s k =
      let first = get_or s.pending_rogue key now in
      let due = leb (first + set.rogue_grace_sec) now in
      let s' : AlertState = record s { pending_rogue = put key first s.pending_rogue } in
      (
        ap (λ d. get d k) (send_if-pending_rogue due key now set.nag_realert_sec s')
            ∙ ground (arith, get-put key k first s.pending_rogue, ==_iff key k),
        λ r c.
            ground (arith, contains-send_if due key now set.nag_realert_sec s' k c, ==_iff key k),
      )
