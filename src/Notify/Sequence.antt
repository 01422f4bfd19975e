-- ===== src/Notify/Sequence.antt =====
-- Alerts over whole snapshots and over many of them.
use slurm_gpu_tui.Prelude.{
  ℕ, ◌<◌, ◌≡◌, refl, ◌∙◌, sym, arith, Str, Bool, true, false, Option, none, some,
}
use slurm_gpu_tui.Prelude.{
  List, [], ◌∷◌, ◌++◌, ◌==◌, ==_iff, str_eq, ◌&&◌, if◌then◌else◌, All, Bool-cases, Option-cases,
  inl, inr,
}
use slurm_gpu_tui.Prelude.Dict.{get}
use slurm_gpu_tui.Data.{NodeInfo}
use slurm_gpu_tui.Notify.{Watch, Event, Round}
use slurm_gpu_tui.Notify.{Kind, health, collection, Alert, Notifier, Settings, Post}
use slurm_gpu_tui.Notify.{
  key_of, health_round, health_node, health_nodes, collect_round, collect_node, collect_nodes,
  apply_rollbacks, process, events_of, is_out, is_blind,
}
use slurm_gpu_tui.Notify.Alternation.{
  is_open, moved, is_kind, move_if, follow, AllPositive, IsRound, node-IsRound,
}

abbrev pub watch_of : Kind → Notifier → Watch
watch_of health s = s.down
watch_of collection s = s.blind

abbrev pub open_of : Kind → Str → Notifier → Bool
open_of kind k s = is_open (get (watch_of kind s).marks k)

-- A state from which no waiting time starts at zero.
abbrev pub IsTimed : Notifier → Type 0
IsTimed s = AllPositive s.down.pending × AllPositive s.blind.pending

follow-append :
    (kind : Kind) (k : Str) (o : Bool) (xs ys : List Alert) (o' : Bool)
    → follow kind k o xs ≡ some o'
    → follow kind k o (xs ++ ys) ≡ follow kind k o' ys
unfolding follow
follow-append kind k o [] ys o' h = ground arith
follow-append kind k o (a ∷ xs) ys o' h =
    elim (Option-cases (move_if (is_kind a.kind kind && a.name == k) a.event o)) [
      | inl e ↦ cc (rw e at h)
      | inr e ↦ rw e.1 (follow-append kind k e.0 xs ys o' (rw e.1 at h))
    ]

follow-one :
    (kind : Kind) (k : Str) (o : Bool) (a : Alert)
    → follow kind k o (a ∷ []) ≡ move_if (is_kind a.kind kind && a.name == k) a.event o
unfolding follow
follow-one kind k o a =
    elim (Option-cases (move_if (is_kind a.kind kind && a.name == k) a.event o)) [
      | inl e ↦ rw e refl
      | inr e ↦ rw e.1 refl
    ]

is_kind_refl : (kind : Kind) → is_kind kind kind ≡ true
is_kind_refl health = refl
is_kind_refl collection = refl

-- The alerts lead from the state before to the state after, for every node and both kinds.
record IsFollowed (s : Notifier) (r : Notifier × List Alert) : Type 0 where
  follows :
      (kind : Kind) (k : Str) → follow kind k (open_of kind k s) r.1 ≡ some (open_of kind k r.0)
  timed : IsTimed r.0

follow-events :
    (kind : Kind) (k name : Str) (o o' : Bool) (e : Option Event)
    → ((name == k) ≡ true → moved e o ≡ some o')
    → ((name == k) ≡ false → o' ≡ o)
    → follow kind k o (events_of name kind e) ≡ some o'
unfolding follow
follow-events kind k name o o' none here others = elim (Bool-cases (name == k)) [
  | inl e ↦ here e
  | inr e ↦ rw (others e) refl
]
follow-events kind k name o o' (some v) here others =
    follow-one kind k o (record { kind = kind; name = name; event = v })
    ∙ rw (is_kind_refl kind)
        (elim (Bool-cases (name == k)) [ inl e ↦ rw e (here e) | inr e ↦ rw (e, others e) refl ])

follow-other :
    (kind other : Kind) (k name : Str) (o : Bool) (e : Option Event)
    → is_kind other kind ≡ false
    → follow kind k o (events_of name other e) ≡ some o
unfolding follow
follow-other kind other k name o none h = refl
follow-other kind other k name o (some v) h =
    follow-one kind k o (record { kind = other; name = name; event = v }) ∙ rw h refl

round-follows :
    (kind : Kind) (k name : Str) (w : Watch) (r : Round)
    → IsRound name w r
    → follow kind k (is_open (get w.marks k)) (events_of name kind r.event)
      ≡ some (is_open (get r.watch.marks k))
round-follows kind k name w r h =
    follow-events kind k name (is_open (get w.marks k)) (is_open (get r.watch.marks k)) r.event
      (λ e. rw (sym ((==_iff name k).0 e)) h.here) (λ e. h.others k e)

module _ (set : Settings) (now : ℕ) (real : 0 < now) where
  health_node-IsFollowed :
      (n : NodeInfo) (s : Notifier) → IsTimed s → IsFollowed s (health_node set now n s)
  unfolding health_node
  health_node-IsFollowed n s (down, blind) =
      let h =
        node-IsRound set.down_grace_sec set.debounce_sec now real (is_out n.state)
          (key_of health n.name) n.name s.down s.last_sent down in
      record { follows = both h; timed = (h.positive, blind) }
    where
      both :
          IsRound n.name s.down (health_round set now n s)
          → (kind : Kind) (k : Str)
          → follow kind k (open_of kind k s) (health_node set now n s).1
            ≡ some (open_of kind k (health_node set now n s).0)
      both h health k = round-follows health k n.name s.down (health_round set now n s) h
      both h collection k =
          follow-other collection health k n.name (is_open (get s.blind.marks k))
            (health_round set now n s).event refl

  collect_node-IsFollowed :
      (n : NodeInfo) (s : Notifier) → IsTimed s → IsFollowed s (collect_node set now n s)
  unfolding collect_node
  collect_node-IsFollowed n s (down, blind) =
      let h =
        node-IsRound set.collect_grace_sec set.nag_realert_sec now real (is_blind n)
          (key_of collection n.name) n.name s.blind s.last_sent blind in
      record { follows = both h; timed = (down, h.positive) }
    where
      both :
          IsRound n.name s.blind (collect_round set now n s)
          → (kind : Kind) (k : Str)
          → follow kind k (open_of kind k s) (collect_node set now n s).1
            ≡ some (open_of kind k (collect_node set now n s).0)
      both h collection k = round-follows collection k n.name s.blind (collect_round set now n s) h
      both h health k =
          follow-other health collection k n.name (is_open (get s.down.marks k))
            (collect_round set now n s).event refl

  then-IsFollowed :
      (s : Notifier) (r q : Notifier × List Alert)
      → IsFollowed s r
      → IsFollowed r.0 q
      → IsFollowed s (q.0, r.1 ++ q.1)
  then-IsFollowed s r q h g = record {
    follows = λ kind k.
        follow-append kind k (open_of kind k s) r.1 q.1 (open_of kind k r.0) (h.follows kind k)
        ∙ g.follows kind k;
    timed = g.timed;
  }

  none-IsFollowed : (s : Notifier) → IsTimed s → IsFollowed s (s, [])
  none-IsFollowed s h = record { follows = λ kind k. unfold follow in refl; timed = h }

  health_nodes-IsFollowed :
      (nodes : List NodeInfo) (s : Notifier)
      → IsTimed s
      → IsFollowed s (health_nodes set now nodes s)
  unfolding health_nodes
  health_nodes-IsFollowed [] s h = none-IsFollowed s h
  health_nodes-IsFollowed (n ∷ nodes) s h =
      let one = health_node-IsFollowed n s h in
      then-IsFollowed s (health_node set now n s)
        (health_nodes set now nodes (health_node set now n s).0) one
        (health_nodes-IsFollowed nodes (health_node set now n s).0 one.timed)

  collect_nodes-IsFollowed :
      (nodes : List NodeInfo) (s : Notifier)
      → IsTimed s
      → IsFollowed s (collect_nodes set now nodes s)
  unfolding collect_nodes
  collect_nodes-IsFollowed [] s h = none-IsFollowed s h
  collect_nodes-IsFollowed (n ∷ nodes) s h =
      let one = collect_node-IsFollowed n s h in
      then-IsFollowed s (collect_node set now n s)
        (collect_nodes set now nodes (collect_node set now n s).0) one
        (collect_nodes-IsFollowed nodes (collect_node set now n s).0 one.timed)

  apply_rollbacks-IsFollowed :
      (s : Notifier) → IsTimed s → IsFollowed s (apply_rollbacks set now s, [])
  unfolding apply_rollbacks follow
  apply_rollbacks-IsFollowed s h = record { follows = both; timed = h }
    where
      both :
          (kind : Kind) (k : Str)
          → follow kind k (open_of kind k s) [] ≡ some (open_of kind k (apply_rollbacks set now s))
      both health k = refl
      both collection k = refl

  process-IsFollowed :
      (nodes : List NodeInfo) (s : Notifier) → IsTimed s → IsFollowed s (process set now nodes s)
  unfolding process
  process-IsFollowed nodes s h =
      let r0 = apply_rollbacks-IsFollowed s h in
      let s0 = apply_rollbacks set now s in
      let r1 = choose_health s0 r0.timed set.node_health in
      let p1 : Notifier × List Alert =
        if set.node_health then health_nodes set now nodes s0 else (s0, []) in
      let r2 = choose_collect p1.0 r1.timed set.collect_alert in
      let p2 : Notifier × List Alert =
        if set.collect_alert then collect_nodes set now nodes p1.0 else (p1.0, []) in
      then-IsFollowed s (s0, []) (p2.0, p1.1 ++ p2.1) r0 (then-IsFollowed s0 p1 p2 r1 r2)
    where
      choose_health :
          (s0 : Notifier)
          → IsTimed s0
          → (b : Bool) → IsFollowed s0 (if b then health_nodes set now nodes s0 else (s0, []))
      choose_health s0 h true = health_nodes-IsFollowed nodes s0 h
      choose_health s0 h false = none-IsFollowed s0 h

      choose_collect :
          (s0 : Notifier)
          → IsTimed s0
          → (b : Bool) → IsFollowed s0 (if b then collect_nodes set now nodes s0 else (s0, []))
      choose_collect s0 h true = collect_nodes-IsFollowed nodes s0 h
      choose_collect s0 h false = none-IsFollowed s0 h

-- One cycle of the collector: its time, its nodes, the alerts that the delivery gave back before
-- it, and what the delivery left in the queue.
pub record Snapshot : Type 0 where
  pub now : ℕ
  pub nodes : List NodeInfo
  pub failed : List (Str × ℕ)
  pub left : List Post

abbrev pub run : Settings → List Snapshot → Notifier → Notifier × List Alert
run set [] s = (s, [])
run set (c ∷ cycles) s =
    let (s', alerts) =
      process set c.now c.nodes (record s { rollbacks = c.failed; queue = c.left }) in
    let (s'', more) = run set cycles s' in (s'', alerts ++ more)

run-IsFollowed :
    (set : Settings) (cycles : List Snapshot) (s : Notifier)
    → All (λ c. 0 < c.now) cycles
    → IsTimed s
    → IsFollowed s (run set cycles s)
run-IsFollowed set [] s real h = record { follows = λ kind k. unfold follow in refl; timed = h }
run-IsFollowed set (c ∷ cycles) s (p, real) h =
    let s0 = record s { rollbacks = c.failed; queue = c.left } in
    let one = process-IsFollowed set c.now p c.nodes s0 h in
    let q = process set c.now c.nodes s0 in
    again (
      then-IsFollowed set c.now p s0 q (run set cycles q.0) one
        (run-IsFollowed set cycles q.0 real one.timed))
  where
    again :
        {r : Notifier × List Alert}
        → IsFollowed (record s { rollbacks = c.failed; queue = c.left }) r
        → IsFollowed s r
    again g = record { follows = both g; timed = g.timed }
      where
        both :
            {r : Notifier × List Alert}
            → IsFollowed (record s { rollbacks = c.failed; queue = c.left }) r
            → (kind : Kind) (k : Str)
            → follow kind k (open_of kind k s) r.1 ≡ some (open_of kind k r.0)
        both g health k = g.follows health k
        both g collection k = g.follows collection k

-- Over any history of snapshots at positive times, from a state whose waiting times are positive, the
-- alerts of each kind on each node follow the state: trouble is alerted only where none is open, and
-- its end only where it is; and what is open at the end is what the state has. It is so also where
-- the delivery of an alert fails: the mark of the trouble stays, so that its alert is not posted
-- again.
pub alerts_alternate :
    (set : Settings) (cycles : List Snapshot) (s : Notifier) (kind : Kind) (k : Str)
    → All (λ c. 0 < c.now) cycles
    → IsTimed s
    → follow kind k (open_of kind k s) (run set cycles s).1
      ≡ some (open_of kind k (run set cycles s).0)
alerts_alternate set cycles s kind k real h = (run-IsFollowed set cycles s real h).follows kind k
