-- ===== src/Alerts.antt =====
-- The alerts of `Notifier.process` in src/sgpu/notify.py on waiting jobs, wasted cards, cards in use
-- without an allocation, hot or faulty cards and free cards. An alert is here its key.
pub mod Rogue
pub mod Patience
pub mod Expiry
pub mod Tests
use slurm_gpu_tui.Prelude.{
  ℕ, suc, ◌+◌, ◌-◌, Str, Bool, true, false, str_eq, Option, none, some, List, [], ◌∷◌, ◌++◌,
}
use slurm_gpu_tui.Prelude.{◌==◌, ◌&&◌, ◌||◌, not, if◌then◌else◌, ltb, leb, any, keep, contains, add}
use slurm_gpu_tui.Prelude.Int.{ℤ, pos, negsuc, pos_part}
use slurm_gpu_tui.Prelude.Dict.{Dict, get, get_or, put}
use slurm_gpu_tui.Prelude.Text.{codes, lower, has_substring, int, join}
use slurm_gpu_tui.Data.{GpuInfo, NodeInfo, PendingJob}
use slurm_gpu_tui.Notify.{ok_to_send}

-- Times are in ticks; 0 turns an alert off. `temp_alert_c` is the least whole degree that alerts.
pub record AlertSettings : Type 0 where
  pub pending_alert : ℕ
  pub waste_alert : ℕ
  pub rogue_alert : Bool
  pub rogue_grace_sec : ℕ
  pub rogue_ignore : List Str
  pub temp_alert_c : ℕ
  pub ecc_alert : Bool
  pub free_gpus_min : ℕ
  pub debounce_sec : ℕ
  pub nag_realert_sec : ℕ

pub record AlertState : Type 0 where
  pub pend_seen : Dict Str ℕ
  pub pending_rogue : Dict Str ℕ
  pub free_was_below : Bool
  pub last_sent : Dict Str ℕ

abbrev quiet_reasons : List Str
quiet_reasons =
    codes "held" ∷ codes "dependency" ∷ codes "begintime" ∷ codes "jobarraytasklimit" ∷ []

unfoldable pub is_quiet : Str → Bool
is_quiet reason = any (λ r. has_substring r (lower reason)) quiet_reasons

-- The state after a debounced alert, with the alert if it is sent.
abbrev pub sent_with : Str → Bool × Dict Str ℕ → AlertState → AlertState × List Str
sent_with key (true, last_sent) s = (record s { last_sent = last_sent }, key ∷ [])
sent_with key (false, last_sent) s = (record s { last_sent = last_sent }, [])

unfoldable pub send_if : Bool → Str → ℕ → ℕ → AlertState → AlertState × List Str
unfolding ok_to_send
send_if due key now gap s =
    if due then sent_with key (ok_to_send key now gap s.last_sent) s else (s, [])

abbrev pub after :
    {A : Type 0} → (AlertState → AlertState × List A) → AlertState × List A → AlertState × List A
after step (s, alerts) = let (s', more) = step s in (s', alerts ++ more)

-- `f"{name}:{index}"` after a prefix
abbrev pub card_key : Str → NodeInfo → GpuInfo → Str
card_key prefix n g = prefix ++ (codes ":" ++ (n.name ++ (codes ":" ++ g.index)))

module _ (set : AlertSettings) (now : ℕ) where
  abbrev pub is_skipped : PendingJob → Bool
  is_skipped p = p.jobid == [] || is_quiet p.reason

  unfoldable pub pending_alert : PendingJob → AlertState → AlertState × List Str
  unfolding is_quiet send_if
  pending_alert p s =
      send_if (not (is_skipped p) && leb (get_or s.pend_seen p.jobid now + set.pending_alert) now)
        (codes "pend:" ++ p.jobid) now set.nag_realert_sec s

  -- `pend_now`: when each of the jobs was first seen to wait.
  unfoldable pub seen_now : List PendingJob → Dict Str ℕ → Dict Str ℕ → Dict Str ℕ
  unfolding is_quiet
  seen_now [] pend_seen pend_now = pend_now
  seen_now (p ∷ pending) pend_seen pend_now =
      seen_now pending pend_seen
        (if is_skipped p then pend_now else put p.jobid (get_or pend_seen p.jobid now) pend_now)

  unfoldable pub pending_loop : List PendingJob → AlertState → AlertState × List Str
  unfolding pending_alert
  pending_loop [] s = (s, [])
  pending_loop (p ∷ pending) s = after (pending_loop pending) (pending_alert p s)

  abbrev pub keep_seen : Dict Str ℕ → AlertState × List Str → AlertState × List Str
  keep_seen seen (s, alerts) = (record s { pend_seen = seen }, alerts)

  unfoldable pub pending_alerts : Bool → List PendingJob → AlertState → AlertState × List Str
  unfolding pending_loop seen_now
  pending_alerts errors pending s =
      if ltb 0 set.pending_alert && not errors
      then keep_seen (seen_now pending s.pend_seen []) (pending_loop pending s)
      else (s, [])

  abbrev pub is_wasted : GpuInfo → Bool
  is_wasted g =
      ltb 0 set.waste_alert
      && (leb set.waste_alert (pos_part g.idle_sec) || leb set.waste_alert (pos_part g.parked_sec))

  unfoldable pub waste_alert : NodeInfo → GpuInfo → AlertState → AlertState × List Str
  unfolding send_if
  waste_alert n g s =
      send_if (is_wasted g) (card_key (codes "waste") n g ++ (codes ":" ++ g.alloc_jobid)) now
        set.nag_realert_sec s

  abbrev is_rogue_user : Str → Bool
  is_rogue_user u = not (u == []) && not (contains set.rogue_ignore u)

  abbrev pub rogue_key : NodeInfo → GpuInfo → Str → Str
  rogue_key n g u = card_key (codes "rogue") n g ++ (codes ":" ++ u)

  -- The keys of the users of a card that Slurm has given to nobody.
  unfoldable pub rogue_keys_of : NodeInfo → GpuInfo → List Str → List Str
  rogue_keys_of n g [] = []
  rogue_keys_of n g (u ∷ users) =
      let rest = rogue_keys_of n g users in if is_rogue_user u then rogue_key n g u ∷ rest else rest

  abbrev pub rogue_keys : Bool → NodeInfo → GpuInfo → List Str
  rogue_keys rogue_ok n g =
      if rogue_ok && not n.stale && g.alloc_jobid == [] && g.alloc_user == []
      then rogue_keys_of n g g.users
      else []

  -- `setdefault` of the clock, and the alert after the grace time.
  unfoldable pub rogue_alert : Str → AlertState → AlertState × List Str
  unfolding send_if
  rogue_alert key s =
      let first = get_or s.pending_rogue key now in
      send_if (leb (first + set.rogue_grace_sec) now) key now set.nag_realert_sec
        (record s { pending_rogue = put key first s.pending_rogue })

  unfoldable pub rogue_alerts : List Str → AlertState → AlertState × List Str
  unfolding rogue_alert
  rogue_alerts [] s = (s, [])
  rogue_alerts (key ∷ more) s = after (rogue_alerts more) (rogue_alert key s)

  unfoldable pub card_loop : Bool → NodeInfo → List GpuInfo → AlertState → AlertState × List Str
  unfolding waste_alert rogue_alerts rogue_keys_of
  card_loop rogue_ok n [] s = (s, [])
  card_loop rogue_ok n (g ∷ gpus) s =
      after (card_loop rogue_ok n gpus)
        (after (rogue_alerts (rogue_keys rogue_ok n g)) (waste_alert n g s))

  unfoldable pub node_loop : Bool → List NodeInfo → AlertState → AlertState × List Str
  unfolding card_loop
  node_loop rogue_ok [] s = (s, [])
  node_loop rogue_ok (n ∷ nodes) s =
      after (node_loop rogue_ok nodes) (card_loop rogue_ok n n.gpus s)

  unfoldable pub active_on : Bool → NodeInfo → List GpuInfo → List Str
  unfolding rogue_keys_of
  active_on rogue_ok n [] = []
  active_on rogue_ok n (g ∷ gpus) = rogue_keys rogue_ok n g ++ active_on rogue_ok n gpus

  -- `active_rogue`
  unfoldable pub active_rogue : Bool → List NodeInfo → List Str
  unfolding active_on
  active_rogue rogue_ok [] = []
  active_rogue rogue_ok (n ∷ nodes) = active_on rogue_ok n n.gpus ++ active_rogue rogue_ok nodes

  -- The clocks of the keys that are still active.
  unfoldable pub keep_active : List Str → Dict Str ℕ → Dict Str ℕ
  keep_active active [] = []
  keep_active active ((k, first) ∷ d) =
      let rest = keep_active active d in if contains active k then (k, first) ∷ rest else rest

  abbrev pub clear_clocks : Bool → List NodeInfo → AlertState × List Str → AlertState × List Str
  clear_clocks rogue_ok nodes (s, alerts) = (
    if rogue_ok
        then record s { pending_rogue = keep_active (active_rogue rogue_ok nodes) s.pending_rogue }
        else s,
    alerts,
  )

  unfoldable pub use_alerts : Bool → List NodeInfo → AlertState → AlertState × List Str
  unfolding node_loop active_rogue keep_active
  use_alerts errors nodes s =
      let rogue_ok = set.rogue_alert && not errors in
      if ltb 0 set.waste_alert || set.rogue_alert
      then clear_clocks rogue_ok nodes (node_loop rogue_ok nodes s)
      else (s, [])

  abbrev pub reaches : ℕ → Option ℤ → Bool
  reaches n (some (pos v)) = leb n v
  reaches n _ = false

  unfoldable pub hardware_alert : NodeInfo → GpuInfo → AlertState → AlertState × List Str
  unfolding send_if int
  hardware_alert n g s =
      after
        (send_if (set.ecc_alert && reaches 1 (int g.ecc)) (card_key (codes "ecc") n g) now
          set.nag_realert_sec)
        (send_if (ltb 0 set.temp_alert_c && reaches set.temp_alert_c (int g.temp))
          (card_key (codes "temp") n g) now set.nag_realert_sec s)

  unfoldable pub hardware_cards : NodeInfo → List GpuInfo → AlertState → AlertState × List Str
  unfolding hardware_alert
  hardware_cards n [] s = (s, [])
  hardware_cards n (g ∷ gpus) s = after (hardware_cards n gpus) (hardware_alert n g s)

  unfoldable pub hardware_alerts : List NodeInfo → AlertState → AlertState × List Str
  unfolding hardware_cards
  hardware_alerts [] s = (s, [])
  hardware_alerts (n ∷ nodes) s = after (hardware_alerts nodes) (hardware_cards n n.gpus s)

  abbrev is_nobody : List Str → Bool
  is_nobody [] = true
  is_nobody (u ∷ us) = false

  -- `_gpu_is_free`
  abbrev pub gpu_is_free : GpuInfo → Bool
  gpu_is_free g = g.alloc_jobid == [] && g.alloc_user == [] && is_nobody g.users

  unfoldable pub count_free : List GpuInfo → ℕ
  count_free [] = 0
  count_free (g ∷ gpus) = (if gpu_is_free g then 1 else 0) + count_free gpus

  unfoldable pub free_gpus : List NodeInfo → ℕ
  unfolding count_free
  free_gpus [] = 0
  free_gpus (n ∷ nodes) = count_free n.gpus + free_gpus nodes

  abbrev pub no_longer_below : AlertState × List Str → AlertState × List Str
  no_longer_below (s, alerts) = (record s { free_was_below = false }, alerts)

  unfoldable pub free_alert : List NodeInfo → AlertState → AlertState × List Str
  unfolding free_gpus send_if
  free_alert nodes s =
      if not (ltb 0 set.free_gpus_min)
      then (s, [])
      else if leb set.free_gpus_min (free_gpus nodes)
      then no_longer_below (send_if s.free_was_below (codes "free_gpus") now set.debounce_sec s)
      else (record s { free_was_below = true }, [])

  -- These parts of `process`, in their order.
  unfoldable pub process_alerts :
      Bool → List PendingJob → List NodeInfo → AlertState → AlertState × List Str
  unfolding pending_alerts use_alerts hardware_alerts free_alert
  process_alerts errors pending nodes s = after (free_alert nodes) (
      after (hardware_alerts nodes)
        (after (use_alerts errors nodes) (pending_alerts errors pending s)))

-- The end of `_save`: slots that are older than any waiting time go.
unfoldable pub drop_expired : ℕ → Dict Str ℕ → Dict Str ℕ
drop_expired cutoff [] = []
drop_expired cutoff ((k, ts) ∷ d) =
    let rest = drop_expired cutoff d in if ltb ts cutoff then rest else (k, ts) ∷ rest
