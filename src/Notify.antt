-- ===== src/Notify.antt =====
-- The alerts on nodes of src/sgpu/notify.py: node health and collection loss in `process`, the
-- debouncing of `_ok_to_send`, the queue of `_post`, and `_apply_rollbacks`.
pub mod Alternation
pub mod Sequence
pub mod Tests
use slurm_gpu_tui.Prelude.{
  ℕ, zero, suc, ◌+◌, ◌-◌, ◌*◌, Str, Bool, true, false, Option, none, some, List, [], ◌∷◌, ◌++◌,
}
use slurm_gpu_tui.Prelude.{
  ◌==◌, str_eq, ◌&&◌, ◌||◌, not, if◌then◌else◌, ltb, leb, nat_beq, any, length,
}
use slurm_gpu_tui.Prelude.Dict.{Dict, get, put, pop, get_or, or_default}
use slurm_gpu_tui.Prelude.Text.{codes, lower, has_substring}
use slurm_gpu_tui.Data.{NodeInfo}

-- A value of `_down` or `_blind`: the time of the alerted start, 0 when up. Older state files
-- have a flag.
pub data Mark : Type 0 where
  flag : Bool → Mark
  since : ℕ → Mark

abbrev pub confirmed_at : ℕ → Option Mark → ℕ
confirmed_at now none = 0
confirmed_at now (some (flag true)) = now
confirmed_at now (some (flag false)) = 0
confirmed_at now (some (since t)) = t

-- `_down` with `_pending_down`, or `_blind` with `_pending_blind`.
pub record Watch : Type 0 where
  pub marks : Dict Str Mark
  pub pending : Dict Str ℕ

-- What one round of a watch posts: the condition has been confirmed, or it has ended after a time.
pub data Event : Type 0 where
  confirmed : Event
  ended : ℕ → Event

-- `_ok_to_send`
abbrev pub is_due : Str → ℕ → ℕ → Dict Str ℕ → Bool
is_due key now gap last_sent = leb (get_or last_sent key 0 + gap) now

unfoldable pub ok_to_send : Str → ℕ → ℕ → Dict Str ℕ → Bool × Dict Str ℕ
ok_to_send key now gap last_sent =
    if is_due key now gap last_sent then (true, put key now last_sent) else (false, last_sent)

-- A round of the watch, with the times of the last alerts and what it posts.
pub record Round : Type 0 where
  pub watch : Watch
  pub last_sent : Dict Str ℕ
  pub event : Option Event

module _ (grace gap now : ℕ) where
  -- The condition holds: alert after the grace time, once, unless the alert is debounced.
  abbrev pub alert_with : Str → ℕ → Watch → Bool × Dict Str ℕ → Round
  alert_with name first w (true, last_sent) = record {
    watch = record w { marks = put name (since first) w.marks };
    last_sent = last_sent;
    event = some confirmed;
  }
  alert_with name first w (false, last_sent) = record {
    watch = w;
    last_sent = last_sent;
    event = none;
  }

  unfoldable pub watch_bad : Str → Str → Watch → Dict Str ℕ → Round
  unfolding ok_to_send
  watch_bad key name w last_sent =
      let first = get_or w.pending name now in
      let waiting = record w { pending = put name first w.pending } in
      if nat_beq (confirmed_at now (get w.marks name)) 0 && leb (first + grace) now
      then alert_with name first waiting (ok_to_send key now gap last_sent)
      else record { watch = waiting; last_sent = last_sent; event = none }

  unfoldable pub watch_good : Str → Watch → Dict Str ℕ → Round
  watch_good name w last_sent =
      let start = confirmed_at now (get w.marks name) in
      record {
        watch = record { marks = put name (since 0) w.marks; pending = pop name w.pending };
        last_sent = last_sent;
        event = if nat_beq start 0 then none else some (ended (now - start));
      }

  unfoldable pub watch_node : Bool → Str → Str → Watch → Dict Str ℕ → Round
  unfolding watch_bad watch_good
  watch_node bad key name w last_sent =
      if bad then watch_bad key name w last_sent else watch_good name w last_sent

unfoldable pub is_out : Str → Bool
is_out state =
    any (λ s. has_substring s (lower state))
      (codes "down" ∷ codes "drain" ∷ codes "fail" ∷ codes "err" ∷ codes "boot" ∷ [])

-- Only a GPU node that Slurm has up can lose its collection.
unfoldable pub is_blind : NodeInfo → Bool
unfolding is_out
is_blind n = n.has_gpu && (n.stale || not (n.error == [])) && not (is_out n.state)

pub data Kind : Type 0 where
  health collection : Kind

pub record Alert : Type 0 where
  pub kind : Kind
  pub name : Str
  pub event : Event

-- An entry of the delivery queue. The key releases the debouncing if the delivery fails.
pub record Post : Type 0 where
  pub alert : Alert
  pub key : Str
  pub enq_ts : ℕ

pub record Notifier : Type 0 where
  pub down : Watch
  pub blind : Watch
  pub last_sent : Dict Str ℕ
  pub queue : List Post
  pub rollbacks : List (Str × ℕ)

pub record Settings : Type 0 where
  pub node_health : Bool
  pub collect_alert : Bool
  pub down_grace_sec : ℕ
  pub collect_grace_sec : ℕ
  pub debounce_sec : ℕ
  pub nag_realert_sec : ℕ
  pub queue_size : ℕ

-- `f"down:{name}"`, `f"blind:{name}"`
abbrev pub key_of : Kind → Str → Str
key_of health name = codes "down:" ++ name
key_of collection name = codes "blind:" ++ name

-- Only the alert that something is wrong has a key.
abbrev post_key : Kind → Str → Event → Str
post_key kind name confirmed = key_of kind name
post_key kind name (ended t) = []

-- `_post`: a full queue drops the alert.
unfoldable pub post : ℕ → Alert → Str → ℕ → List Post → List Post
post queue_size alert key now queue =
    if ltb (length queue) queue_size
    then queue ++ (record { alert = alert; key = key; enq_ts = now } ∷ [])
    else queue

abbrev post_event : ℕ → Kind → Str → ℕ → Option Event → List Post → List Post
post_event queue_size kind name now none queue = queue
post_event queue_size kind name now (some e) queue =
    post queue_size (record { kind = kind; name = name; event = e }) (post_key kind name e) now
      queue

abbrev pub events_of : Str → Kind → Option Event → List Alert
events_of name kind none = []
events_of name kind (some e) = record { kind = kind; name = name; event = e } ∷ []

module _ (set : Settings) (now : ℕ) where
  abbrev pub health_round : NodeInfo → Notifier → Round
  health_round n s =
      watch_node set.down_grace_sec set.debounce_sec now (is_out n.state) (key_of health n.name)
        n.name s.down s.last_sent

  -- A round of the loop over the nodes, with the alerts that it posts.
  unfoldable pub health_node : NodeInfo → Notifier → Notifier × List Alert
  unfolding post watch_node is_out
  health_node n s =
      let r = health_round n s in
      (
        record s {
          down = r.watch;
          last_sent = r.last_sent;
          queue = post_event set.queue_size health n.name now r.event s.queue;
        },
        events_of n.name health r.event,
      )

  unfoldable pub health_nodes : List NodeInfo → Notifier → Notifier × List Alert
  unfolding health_node
  health_nodes [] s = (s, [])
  health_nodes (n ∷ nodes) s =
      let (s', alerts) = health_node n s in
      let (s'', more) = health_nodes nodes s' in (s'', alerts ++ more)

  abbrev pub collect_round : NodeInfo → Notifier → Round
  collect_round n s =
      watch_node set.collect_grace_sec set.nag_realert_sec now (is_blind n)
        (key_of collection n.name) n.name s.blind s.last_sent

  unfoldable pub collect_node : NodeInfo → Notifier → Notifier × List Alert
  unfolding post watch_node is_blind
  collect_node n s =
      let r = collect_round n s in
      (
        record s {
          blind = r.watch;
          last_sent = r.last_sent;
          queue = post_event set.queue_size collection n.name now r.event s.queue;
        },
        events_of n.name collection r.event,
      )

  unfoldable pub collect_nodes : List NodeInfo → Notifier → Notifier × List Alert
  unfolding collect_node
  collect_nodes [] s = (s, [])
  collect_nodes (n ∷ nodes) s =
      let (s', alerts) = collect_node n s in
      let (s'', more) = collect_nodes nodes s' in (s'', alerts ++ more)

  -- `_apply_rollbacks`: the slots of the alerts that were not delivered are free again.
  unfoldable pub roll_back : List (Str × ℕ) → Dict Str ℕ → Dict Str ℕ
  roll_back [] last_sent = last_sent
  roll_back ((key, enq_ts) ∷ more) last_sent =
      roll_back more (if leb (get_or last_sent key 0) enq_ts then pop key last_sent else last_sent)

  unfoldable pub apply_rollbacks : Notifier → Notifier
  unfolding roll_back
  apply_rollbacks s = record s { last_sent = roll_back s.rollbacks s.last_sent; rollbacks = [] }

  -- The part of `process` that watches the nodes.
  unfoldable pub process : List NodeInfo → Notifier → Notifier × List Alert
  unfolding health_nodes collect_nodes apply_rollbacks
  process nodes s =
      let s0 = apply_rollbacks s in
      let (s1, downs) = if set.node_health then health_nodes nodes s0 else (s0, []) in
      let (s2, losses) = if set.collect_alert then collect_nodes nodes s1 else (s1, []) in
      (s2, downs ++ losses)
