-- ===== src/Notify/Alternation.antt =====
-- The alerts on one node alternate: trouble, end, trouble, end.
use slurm_gpu_tui.Prelude.{
  ℕ, ◌+◌, ◌<◌, ◌≡◌, refl, ap, arith, Str, Bool, true, false, Option, none, some,
}
use slurm_gpu_tui.Prelude.{
  List, [], ◌∷◌, ◌==◌, ==_refl, str_eq, ◌&&◌, not, leb, nat_beq, Bool-cases, Option-cases, inl, inr,
}
use slurm_gpu_tui.Prelude.Dict.{Dict, get, put, pop, get_or, get-put, get-pop}
use slurm_gpu_tui.Notify.{
  Mark, flag, since, confirmed_at, Watch, Event, confirmed, ended, ok_to_send, Round,
}
use slurm_gpu_tui.Notify.{
  alert_with, watch_bad, watch_good, watch_node, Kind, health, collection, Alert,
}

-- Whether the alert on trouble has been posted and its end has not.
abbrev pub is_open : Option Mark → Bool
is_open none = false
is_open (some (flag b)) = b
is_open (some (since t)) = not (nat_beq t 0)

abbrev pub moved : Option Event → Bool → Option Bool
moved none o = some o
moved (some confirmed) false = some true
moved (some confirmed) true = none
moved (some (ended t)) true = some false
moved (some (ended t)) false = none

abbrev pub is_kind : Kind → Kind → Bool
is_kind health health = true
is_kind health collection = false
is_kind collection health = false
is_kind collection collection = true

abbrev pub move_if : Bool → Event → Bool → Option Bool
move_if false e o = some o
move_if true e o = moved (some e) o

abbrev pub chain : Option Bool → (Bool → Option Bool) → Option Bool
chain none f = none
chain (some o) f = f o

-- Goes through alerts, from no trouble or from trouble: `none` where an alert on trouble comes in
-- trouble, or an end comes without it.
unfoldable pub follow : Kind → Str → Bool → List Alert → Option Bool
follow kind k o [] = some o
follow kind k o (a ∷ alerts) =
    chain (move_if (is_kind a.kind kind && a.name == k) a.event o) (λ o'. follow kind k o' alerts)

abbrev pub AllPositive : Dict Str ℕ → Type 0
AllPositive d = (k : Str) (t : ℕ) → get d k ≡ some t → 0 < t

confirmed-open :
    (now : ℕ) (m : Option Mark) → 0 < now → nat_beq (confirmed_at now m) 0 ≡ not (is_open m)
confirmed-open now none h = refl
confirmed-open now (some (flag true)) h = ground arith
confirmed-open now (some (flag false)) h = refl
confirmed-open now (some (since t)) h = ground arith

-- What a round does to the state of a node.
pub record IsRound (name : Str) (w : Watch) (r : Round) : Type 0 where
  pub here : moved r.event (is_open (get w.marks name)) ≡ some (is_open (get r.watch.marks name))
  pub others :
      (k : Str) → (name == k) ≡ false → is_open (get r.watch.marks k) ≡ is_open (get w.marks k)
  pub positive : AllPositive r.watch.pending

module _ (grace gap now : ℕ) (real : 0 < now) where
  get_or-positive : (d : Dict Str ℕ) (k : Str) → AllPositive d → 0 < get_or d k now
  unfolding get_or
  get_or-positive d k h = elim (Option-cases (get d k)) [
    | inl e ↦ rw e real
    | inr e ↦ rw e.1 (h k e.0 e.1)
  ]

  put-AllPositive :
      (k : Str) (v : ℕ) (d : Dict Str ℕ) → 0 < v → AllPositive d → AllPositive (put k v d)
  put-AllPositive k v d p h j t e = ground (arith, get-put k j v d, h j t)

  pop-AllPositive : (k : Str) (d : Dict Str ℕ) → AllPositive d → AllPositive (pop k d)
  pop-AllPositive k d h j t e = ground (arith, get-pop k j d, h j t)

  alert-IsRound :
      (name : Str) (first : ℕ) (w v : Watch) (sent : Bool × Dict Str ℕ)
      → 0 < first
      → v.marks ≡ w.marks
      → is_open (get w.marks name) ≡ false
      → AllPositive v.pending
      → IsRound name w (alert_with grace gap now name first v sent)
  alert-IsRound name first w v (true, last_sent) p same closed h = record {
    here = rw closed (ground (arith, get-put name name (since first) v.marks, ==_refl name, p));
    others = λ k d.
        ground (arith, get-put name k (since first) v.marks, ap (λ m. is_open (get m k)) same);
    positive = h;
  }
  alert-IsRound name first w v (false, last_sent) p same closed h = record {
    here = rw same refl;
    others = λ k d. rw same refl;
    positive = h;
  }

  bad-IsRound :
      (key name : Str) (w : Watch) (last_sent : Dict Str ℕ)
      → AllPositive w.pending
      → IsRound name w (watch_bad grace gap now key name w last_sent)
  unfolding watch_bad
  bad-IsRound key name w last_sent h =
      let first = get_or w.pending name now in
      let p = get_or-positive w.pending name h in
      let v = record w { pending = put name first w.pending } in
      let pos = put-AllPositive name first w.pending p h in
      elim (Bool-cases
        (nat_beq (confirmed_at now (get w.marks name)) 0 && leb (first + grace) now)) [
          | inl e ↦ rw e (
              alert-IsRound name first w v (ok_to_send key now gap last_sent) p refl
                (ground (arith, confirmed-open now (get w.marks name) real)) pos)
          | inr e ↦ rw e (record { here = refl; others = λ k d. refl; positive = pos })
        ]

  good-IsRound :
      (name : Str) (w : Watch) (last_sent : Dict Str ℕ)
      → AllPositive w.pending
      → IsRound name w (watch_good grace gap now name w last_sent)
  unfolding watch_good
  good-IsRound name w last_sent h = record {
    here = ground (
      arith,
      confirmed-open now (get w.marks name) real,
      get-put name name (since 0) w.marks,
      ==_refl name,
    );
    others = λ k d. ground (arith, get-put name k (since 0) w.marks);
    positive = pop-AllPositive name w.pending h;
  }

  pub node-IsRound :
      (bad : Bool) (key name : Str) (w : Watch) (last_sent : Dict Str ℕ)
      → AllPositive w.pending
      → IsRound name w (watch_node grace gap now bad key name w last_sent)
  unfolding watch_node
  node-IsRound true key name w last_sent h = bad-IsRound key name w last_sent h
  node-IsRound false key name w last_sent h = good-IsRound name w last_sent h
