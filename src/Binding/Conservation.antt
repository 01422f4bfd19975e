-- ===== src/Binding/Conservation.antt =====
-- `reconcile_gpu_alloc` neither duplicates nor drops an allocation while a card can take it.
use slurm_gpu_tui.Prelude.{◌+◌, ◌≤◌, ◌≡◌, ◌≢◌, refl, arith, Str, Bool, true, false}
use slurm_gpu_tui.Prelude.{List, [], ◌∷◌, map, ◌==◌, ==_iff, str_eq, ◌⊎◌, inl, inr, Bool-cases}
use slurm_gpu_tui.Prelude.{if◌then◌else◌, contains, count, count-remove, first, any}
use slurm_gpu_tui.Prelude.{Option-cases, first-holds, contains-first, All}
use slurm_gpu_tui.Prelude.Dict.{Dict, values, get_or}
use slurm_gpu_tui.Binding.{Card, Slot, next_or_empty, unbound, bind, take_out, exact_job}
use slurm_gpu_tui.Binding.{confirmed_job, pass, is_free, set_first, is_preferred, assign}
use slurm_gpu_tui.Binding.{place, place_all, reconcile_gpu_alloc}

-- The jobs that the cards are bound to, "" for none.
abbrev pub bound_jobs : List Slot → List Str
bound_jobs = map (λ s. s.jobid)

-- What is taken out of the list and bound is a job of the list, and the card had none before.
record IsSound (P : Slot → Type 0) (choose : List Str → Slot → Str) : Type 0 where
  known :
      (remaining : List Str) (s : Slot)
      → P s
      → choose remaining s ≢ []
      → contains remaining (choose remaining s) ≡ true
  fresh : (remaining : List Str) (s : Slot) → P s → choose remaining s ≢ [] → s.jobid ≡ []

module _ (jobid_user : Dict Str Str) (jid : Str) (real : jid ≢ []) where
  count-bind :
      (j : Str) (remaining : List Str) (s : Slot)
      → (j ≢ [] → contains remaining j ≡ true)
      → (j ≢ [] → s.jobid ≡ [])
      → count jid ((bind jobid_user j s).jobid ∷ []) + count jid (take_out j remaining)
        ≡ count jid (s.jobid ∷ []) + count jid remaining
  unfolding bind take_out
  count-bind j remaining s known fresh = elim (Bool-cases (j == [])) [
    | inl e ↦ ground arith
    | inr e ↦ ground (
      arith,
      ==_iff j [],
      known,
      fresh,
      ==_iff j jid,
      ==_iff s.jobid jid,
      count-remove j jid remaining,
    )
  ]

  count-pass :
      (P : Slot → Type 0) (choose : List Str → Slot → Str) (slots : List Slot)
      (remaining : List Str)
      → IsSound P choose
      → All P slots
      → count jid (bound_jobs (pass jobid_user choose slots remaining).0)
          + count jid (pass jobid_user choose slots remaining).1
        ≡ count jid (bound_jobs slots) + count jid remaining
  unfolding pass
  count-pass P choose [] remaining sound h = refl
  count-pass P choose (s ∷ slots) remaining sound (p, h) = omega (
    arith,
    count-pass P choose slots (take_out (choose remaining s) remaining) sound h,
    count-bind (choose remaining s) remaining s (sound.known remaining s p)
        (sound.fresh remaining s p),
  )

  count-set_first :
      (p : Slot → Bool) (j : Str) (slots : List Slot)
      → ((s : Slot) → p s ≡ true → s.jobid ≡ [])
      → any p slots ≡ true
      → count jid (bound_jobs (set_first p (assign jobid_user j) slots))
        ≡ (if j == jid then 1 else 0) + count jid (bound_jobs slots)
  unfolding set_first
  count-set_first p j [] empty h = cc
  count-set_first p j (s ∷ slots) empty h =
      ground (arith, empty s, count-set_first p j slots empty, ==_iff s.jobid jid)

set_first-none :
    (p : Slot → Bool) (f : Slot → Slot) (slots : List Slot)
    → any p slots ≡ false
    → set_first p f slots ≡ slots
unfolding set_first
set_first-none p f [] h = refl
set_first-none p f (s ∷ slots) h = ground (arith, set_first-none p f slots)

is_free-empty : (s : Slot) → is_free s ≡ true → s.jobid ≡ []
unfolding is_free
is_free-empty s h = ground (arith, ==_iff s.jobid [])

any-preferred :
    (node_alloc : Dict Str Str) (j : Str) (slots : List Slot)
    → any is_free slots ≡ false
    → any (is_preferred node_alloc j) slots ≡ false
any-preferred node_alloc j [] h = refl
any-preferred node_alloc j (s ∷ slots) h = ground (arith, any-preferred node_alloc j slots)

module _ (node_alloc jobid_user : Dict Str Str) where
  place-full :
      (j : Str) (slots : List Slot)
      → any is_free slots ≡ false
      → place node_alloc jobid_user j slots ≡ slots
  unfolding place
  place-full j slots h = rw (any-preferred node_alloc j slots h) (set_first-none is_free _ slots h)

  place_all-full :
      (remaining : List Str) (slots : List Slot)
      → any is_free slots ≡ false
      → place_all node_alloc jobid_user remaining slots ≡ slots
  unfolding place_all
  place_all-full [] slots h = refl
  place_all-full (j ∷ remaining) slots h =
      rw (place-full j slots h) (place_all-full remaining slots h)

  module _ (jid : Str) (real : jid ≢ []) where
    count-place :
        (j : Str) (slots : List Slot)
        → any is_free slots ≡ true
        → count jid (bound_jobs (place node_alloc jobid_user j slots))
          ≡ (if j == jid then 1 else 0) + count jid (bound_jobs slots)
    unfolding place
    count-place j slots h = elim (Bool-cases (any (is_preferred node_alloc j) slots)) [
      | inl e ↦ rw e (
          count-set_first jobid_user jid real (is_preferred node_alloc j) j slots
            (λ s q. is_free-empty s (ground arith)) e)
      | inr e ↦ rw e (count-set_first jobid_user jid real is_free j slots is_free-empty h)
    ]

    count-place_all :
        (remaining : List Str) (slots : List Slot)
        → (count jid (bound_jobs (place_all node_alloc jobid_user remaining slots))
            ≤ count jid (bound_jobs slots) + count jid remaining)
          × ((count jid (bound_jobs (place_all node_alloc jobid_user remaining slots))
                ≡ count jid (bound_jobs slots) + count jid remaining)
              ⊎ (any is_free (place_all node_alloc jobid_user remaining slots) ≡ false))
    unfolding place_all
    count-place_all [] slots = ground arith
    count-place_all (j ∷ remaining) slots = elim (Bool-cases (any is_free slots)) [
      | inl e ↦ ground (
        arith,
        count-place j slots e,
        count-place_all remaining (place node_alloc jobid_user j slots),
      )
      | inr e ↦ rw (place-full j slots e, place_all-full remaining slots e) (omega arith, inr e)
    ]

-- What `next` returns satisfies the test, and stands in the list.
pub next_or_empty-holds :
    (p : Str → Bool) (xs : List Str)
    → next_or_empty p xs ≢ []
    → (p (next_or_empty p xs) ≡ true) × (contains xs (next_or_empty p xs) ≡ true)
next_or_empty-holds p xs h = elim (Option-cases (first p xs)) [
  | inl e ↦ absurd (h (rw (e, next_or_empty)))
  | inr (a, e) ↦ rw (e, next_or_empty) (first-holds p xs a e, contains-first p xs a e)
]

exact_job-IsSound : IsSound (λ s. s.jobid ≡ []) exact_job
unfolding exact_job
exact_job-IsSound = record {
  known = λ remaining s p h. (next_or_empty-holds (contains remaining) s.card.jobids h).0;
  fresh = λ remaining s p h. p;
}

confirmed_job-IsSound : (jobid_user : Dict Str Str) → IsSound (λ s. Unit) (confirmed_job jobid_user)
unfolding confirmed_job
confirmed_job-IsSound jobid_user = record {
  known = λ remaining s p h.
      ground (
        arith,
        next_or_empty-holds (λ j. contains s.card.users (get_or jobid_user j [])) remaining,
      );
  fresh = λ remaining s p h. ground (arith, ==_iff s.jobid []);
}

pub All-unbound : (gpus : List Card) → All (λ s. s.jobid ≡ []) (map unbound gpus)
All-unbound [] = tt
All-unbound (c ∷ gpus) = (refl, All-unbound gpus)

All-any : (slots : List Slot) → All (λ s. Unit {0}) slots
All-any [] = tt
All-any (s ∷ slots) = (tt, All-any slots)

count-unbound :
    (jid : Str) (gpus : List Card) → jid ≢ [] → count jid (bound_jobs (map unbound gpus)) ≡ 0
count-unbound jid [] real = refl
count-unbound jid (c ∷ gpus) real = ground (arith, count-unbound jid gpus, ==_iff [] jid)

module _ (node_alloc jobid_user : Dict Str Str) (gpus : List Card) (jid : Str) where
  count-reconcile :
      jid ≢ []
      → (count jid (bound_jobs (reconcile_gpu_alloc node_alloc jobid_user gpus))
          ≤ count jid (values node_alloc))
        × ((count jid (bound_jobs (reconcile_gpu_alloc node_alloc jobid_user gpus))
              ≡ count jid (values node_alloc))
            ⊎ (any is_free (reconcile_gpu_alloc node_alloc jobid_user gpus) ≡ false))
  unfolding reconcile_gpu_alloc
  count-reconcile real =
      let p0 = pass jobid_user exact_job (map unbound gpus) (values node_alloc) in
      let p1 = pass jobid_user (confirmed_job jobid_user) p0.0 p0.1 in
      ground (
        arith,
        count-unbound jid gpus,
        count-pass jobid_user jid real _ exact_job (map unbound gpus) (values node_alloc)
            exact_job-IsSound (All-unbound gpus),
        count-pass jobid_user jid real _ (confirmed_job jobid_user) p0.0 p0.1
            (confirmed_job-IsSound jobid_user) (All-any p0.0),
        count-place_all node_alloc jobid_user jid real p1.1 p1.0,
      )

  -- A job is bound to no more cards than it has allocations on the node.
  pub reconcile_no_double_booking :
      jid ≢ []
      → count jid (bound_jobs (reconcile_gpu_alloc node_alloc jobid_user gpus))
        ≤ count jid (values node_alloc)
  reconcile_no_double_booking real = (count-reconcile real).0

  -- If a card without processes is left unbound, every allocation of every job is bound to a card.
  pub reconcile_places_all :
      jid ≢ []
      → any is_free (reconcile_gpu_alloc node_alloc jobid_user gpus) ≡ true
      → count jid (bound_jobs (reconcile_gpu_alloc node_alloc jobid_user gpus))
        ≡ count jid (values node_alloc)
  reconcile_places_all real left = ground (arith, count-reconcile real)
