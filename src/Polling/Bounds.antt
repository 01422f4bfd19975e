-- ===== src/Polling/Bounds.antt =====
-- Bounds of the polls: the interval of each node, and the workers in flight.
use slurm_gpu_tui.Prelude.{ℕ, suc, zero, ◌+◌, ◌^◌, ◌≤◌, ◌<◌, ◌≡◌, refl, arith, Str, Bool, some}
use slurm_gpu_tui.Prelude.{
  List, [], ◌∷◌, ==_iff, str_eq, ◌||◌, contains, count, count-append, length, length-append,
  discard, leb, count-uncontained, count-contained, if◌then◌else◌, true, false, ◌==◌, Bool-cases,
  inl, inr,
}
use slurm_gpu_tui.Prelude.Dict.{Dict, get, get_or, get-put}
use slurm_gpu_tui.Data.{NodeErrorKind}
use slurm_gpu_tui.Polling.{
  PollState, fresh_state, next_state, update_poll_state, interval_hot, interval_down,
}
use slurm_gpu_tui.Polling.{Pollers, Poll, begin_poll, abort_poll, end_poll, prune_node_caches}

-- Five seconds to a minute.
abbrev pub IsPaced : PollState → Type 0
IsPaced s = (interval_hot ≤ s.interval) × (s.interval ≤ interval_down)

abbrev pub AllPaced : Dict Str PollState → Type 0
AllPaced d = (name : Str) (s : PollState) → get d name ≡ some s → IsPaced s

pow_pos : (n : ℕ) → 0 < 2 ^ n
pow_pos zero = omega arith
pow_pos (suc n) = omega (arith, pow_pos n)

-- Whatever a poll says and however often the node has failed, it is polled again no sooner than
-- after five seconds and no later than after a minute.
pub next_state-IsPaced :
    (now : ℕ) (success cold : Bool) (slurm_state : Str) (s : PollState)
    → IsPaced (next_state now success cold slurm_state s)
unfolding next_state
next_state-IsPaced now success cold slurm_state s =
    grind (arith, pow_pos (s.consecutive_failures + 1))

pub update_poll_state-AllPaced :
    (now : ℕ) (name : Str) (success cold : Bool) (slurm_state : Str) (d : Dict Str PollState)
    → AllPaced d
    → AllPaced (update_poll_state now name success cold slurm_state d)
unfolding update_poll_state
update_poll_state-AllPaced now name success cold slurm_state d h k s e =
    let s' = next_state now success cold slurm_state (get_or d name fresh_state) in
    ground (
      arith,
      get-put name k s' d,
      h k s,
      next_state-IsPaced now success cold slurm_state (get_or d name fresh_state),
    )

-- The variables, with the nodes of the submitted polls that have not ended: one entry for each
-- worker.
pub record System : Type 0 where
  pub pollers : Pollers
  pub workers : List Str

abbrev pub submit : Str → Bool × Pollers → List Str → System
submit name (true, s) workers = record { pollers = s; workers = name ∷ workers }
submit name (false, s) workers = record { pollers = s; workers = workers }

-- One worker less for the node.
abbrev pub leave : Str → List Str → List Str
leave name [] = []
leave name (w ∷ ws) = let rest = leave name ws in if name == w then ws else w ∷ rest

-- `_inflight` has the nodes of the workers, each once, and no more than may be pending.
record IsBusy (max_pending : ℕ) (y : System) : Type 0 where
  bounded : length y.pollers.inflight ≤ max_pending
  as_many : length y.workers ≡ length y.pollers.inflight
  same : (name : Str) → count name y.workers ≡ count name y.pollers.inflight
  once : (name : Str) → count name y.pollers.inflight ≤ 1

length-discard : (a : Str) (xs : List Str) → (length (discard a xs) + count a xs) ≡ length xs
length-discard a [] = refl
length-discard a (x ∷ xs) = ground (arith, length-discard a xs, ==_iff a x, ==_iff x a)

count-discard :
    (a b : Str) (xs : List Str) → count b (discard a xs) ≡ (if a == b then 0 else count b xs)
count-discard a b [] = ground arith
count-discard a b (x ∷ xs) =
    ground (arith, count-discard a b xs, ==_iff a x, ==_iff x a, ==_iff a b, ==_iff x b)

length-leave :
    (a : Str) (xs : List Str) → contains xs a ≡ true → (length (leave a xs) + 1) ≡ length xs
length-leave a [] h = absurd cc
length-leave a (x ∷ xs) h = ground (arith, length-leave a xs, ==_iff a x, ==_iff x a)

count-leave :
    (a b : Str) (xs : List Str)
    → contains xs a ≡ true
    → (count b (leave a xs) + (if a == b then 1 else 0)) ≡ count b xs
count-leave a b [] h = absurd cc
count-leave a b (x ∷ xs) h =
    ground (arith, count-leave a b xs, ==_iff a x, ==_iff x a, ==_iff a b, ==_iff x b)

module _ (max_pending prune_after : ℕ) (classify_error : Str → NodeErrorKind) where
  -- The sections that run one at a time, in any order. Only a worker aborts or ends its poll.
  pub data Step : System → System → Type 0 where
    begin :
        (y : System) (name : Str)
        → Step y (submit name (begin_poll max_pending name y.pollers) y.workers)
    abort :
        (y : System) (name : Str)
        → contains y.workers name ≡ true
        → Step y (record { pollers = abort_poll name y.pollers; workers = leave name y.workers })
    end :
        (y : System) (name slurm_state : Str) (has_jobs : Bool) (poll : Poll) (clock now : ℕ)
        → contains y.workers name ≡ true
        → Step y (record {
          pollers = end_poll classify_error name slurm_state has_jobs poll clock now y.pollers;
          workers = leave name y.workers;
        })
    prune :
        (y : System) (live_names : List Str)
        → Step y (record y { pollers = prune_node_caches prune_after live_names y.pollers })

  pub data Reach (y : System) : System → Type 0 where
    here : Reach y y
    next : {z w : System} → Reach y z → Step z w → Reach y w

  begin-IsBusy :
      (name : Str) (y : System)
      → IsBusy max_pending y
      → IsBusy max_pending (submit name (begin_poll max_pending name y.pollers) y.workers)
  unfolding begin_poll
  begin-IsBusy name y h =
      let busy = y.pollers.inflight in
      elim (Bool-cases (contains busy name || leb max_pending (length busy))) [
        | inl e ↦ rw e h
        | inr e ↦ rw e (record {
          bounded = ground (arith, h.bounded, length-append {0} busy (name ∷ []));
          as_many = ground (arith, h.as_many, length-append {0} busy (name ∷ []));
          same = λ k. ground (arith, h.same k, count-append k busy (name ∷ []), ==_iff name k);
          once = λ k. ground (
            arith,
            h.once k,
            count-append k busy (name ∷ []),
            count-uncontained k busy,
            ==_iff name k,
          );
        })
      ]

  leave-IsBusy :
      (name : Str) (y : System) (s : Pollers)
      → contains y.workers name ≡ true
      → s.inflight ≡ discard name y.pollers.inflight
      → IsBusy max_pending y
      → IsBusy max_pending (record { pollers = s; workers = leave name y.workers })
  leave-IsBusy name y s c e h =
      let busy = y.pollers.inflight in
      let present : 1 ≤ count name busy =
        ground (arith, h.same name, count-contained name y.workers) in
      record {
        bounded = rw e (omega (arith, h.bounded, length-discard name busy));
        as_many = rw e (
            omega (
              arith,
              h.as_many,
              length-discard name busy,
              length-leave name y.workers c,
              h.once name,
              present,
            ));
        same = λ k. rw e (
            ground (
              arith,
              h.same k,
              count-leave name k y.workers c,
              count-discard name k busy,
              h.once k,
              ==_iff name k,
            ));
        once = λ k. rw e (ground (arith, h.once k, count-discard name k busy));
      }

  Step-IsBusy : {y z : System} → Step y z → IsBusy max_pending y → IsBusy max_pending z
  unfolding abort_poll end_poll prune_node_caches
  Step-IsBusy (begin y name) h = begin-IsBusy name y h
  Step-IsBusy (abort y name c) h = leave-IsBusy name y _ c refl h
  Step-IsBusy (end y name slurm_state has_jobs poll clock now c) h = leave-IsBusy name y _ c refl h
  Step-IsBusy (prune y live_names) h = record {
    bounded = h.bounded;
    as_many = h.as_many;
    same = h.same;
    once = h.once;
  }

  Reach-IsBusy : {y z : System} → Reach y z → IsBusy max_pending y → IsBusy max_pending z
  Reach-IsBusy here h = h
  Reach-IsBusy (next r st) h = Step-IsBusy st (Reach-IsBusy r h)

  -- From a state without workers, whatever sections run, there are never more than `max_pending`
  -- workers, never two for one node, and `_inflight` has a node exactly while it has a worker.
  pub polls_bounded :
      (s : Pollers) {z : System} (name : Str)
      → s.inflight ≡ []
      → Reach (record { pollers = s; workers = [] }) z
      → (length z.workers ≤ max_pending)
        × (count name z.workers ≤ 1)
        × (contains z.pollers.inflight name ≡ contains z.workers name)
  polls_bounded s {z} name e r =
      let h = Reach-IsBusy r (record {
        bounded = rw e (omega arith);
        as_many = rw e refl;
        same = λ k. rw e refl;
        once = λ k. rw e (omega arith);
      }) in
      (
        omega (arith, h.bounded, h.as_many),
        omega (arith, h.once name, h.same name),
        ground (
          arith,
          h.same name,
          count-contained name z.workers,
          count-uncontained name z.workers,
          count-contained name z.pollers.inflight,
          count-uncontained name z.pollers.inflight,
        ),
      )
