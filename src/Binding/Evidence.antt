-- ===== src/Binding/Evidence.antt =====
-- On what evidence `reconcile_gpu_alloc` binds a card: the passes one by one.
use slurm_gpu_tui.Prelude.{◌≡◌, refl, ap, arith, Str, Bool, true, All}
use slurm_gpu_tui.Prelude.{List, [], ◌∷◌, map, ==_iff, str_eq, ◌⊎◌, inl, inr, Bool-cases}
use slurm_gpu_tui.Prelude.{contains}
use slurm_gpu_tui.Prelude.Dict.{Dict, values, get_or}
use slurm_gpu_tui.Binding.{Card, Slot, next_or_empty, unbound, bind, take_out, exact_job}
use slurm_gpu_tui.Binding.{confirmed_job, no_users, pass, is_free, set_first, assign}
use slurm_gpu_tui.Binding.{place, place_all, reconcile_gpu_alloc}
use slurm_gpu_tui.Binding.Conservation.{next_or_empty-holds, All-unbound}

-- The cards of the slots, in order.
abbrev pub cards : List Slot → List Card
cards = map (λ s. s.card)

module _ (jobid_user : Dict Str Str) where
  card-bind : (j : Str) (s : Slot) → (bind jobid_user j s).card ≡ s.card
  unfolding bind
  card-bind j s = ground arith

  cards-pass :
      (choose : List Str → Slot → Str) (slots : List Slot) (remaining : List Str)
      → cards (pass jobid_user choose slots remaining).0 ≡ cards slots
  unfolding pass
  cards-pass choose [] remaining = refl
  cards-pass choose (s ∷ slots) remaining =
      rw (card-bind (choose remaining s) s, cards-pass choose slots) refl

  cards-set_first :
      (p : Slot → Bool) (j : Str) (slots : List Slot)
      → cards (set_first p (assign jobid_user j) slots) ≡ cards slots
  unfolding set_first
  cards-set_first p j [] = refl
  cards-set_first p j (s ∷ slots) = ground (arith, cards-set_first p j slots)

  cards-place_all :
      (node_alloc : Dict Str Str) (remaining : List Str) (slots : List Slot)
      → cards (place_all node_alloc jobid_user remaining slots) ≡ cards slots
  unfolding place_all place
  cards-place_all node_alloc [] slots = refl
  cards-place_all node_alloc (j ∷ remaining) slots =
      rw (cards-place_all node_alloc remaining) (cards-set_first _ j slots)

cards-unbound : (gpus : List Card) → cards (map unbound gpus) ≡ gpus
cards-unbound [] = refl
cards-unbound (c ∷ gpus) = ap (λ r. c ∷ r) (cards-unbound gpus)

-- There is one entry for each card, in the order of the cards.
pub cards-reconcile :
    (node_alloc jobid_user : Dict Str Str) (gpus : List Card)
    → cards (reconcile_gpu_alloc node_alloc jobid_user gpus) ≡ gpus
unfolding reconcile_gpu_alloc
cards-reconcile node_alloc jobid_user gpus =
    rw (cards-place_all, cards-pass, cards-pass) (cards-unbound gpus)

-- What holds of each slot after the passes, from what each pass does to one slot.
module _ (jobid_user : Dict Str Str) (P Q : Slot → Type 0) where
  pub All-pass :
      (choose : List Str → Slot → Str) (slots : List Slot) (remaining : List Str)
      → ((remaining : List Str) (s : Slot) → P s → Q (bind jobid_user (choose remaining s) s))
      → All P slots
      → All Q (pass jobid_user choose slots remaining).0
  unfolding pass
  All-pass choose [] remaining step h = tt
  All-pass choose (s ∷ slots) remaining step (p, h) =
      (step remaining s p, All-pass choose slots (take_out (choose remaining s) remaining) step h)

module _ (jobid_user : Dict Str Str) (Q : Slot → Type 0) where
  All-set_first :
      (p : Slot → Bool) (j : Str) (slots : List Slot)
      → ((s : Slot) → p s ≡ true → Q s → Q (assign jobid_user j s))
      → All Q slots
      → All Q (set_first p (assign jobid_user j) slots)
  unfolding set_first
  All-set_first p j [] step h = tt
  All-set_first p j (s ∷ slots) step (q, h) = elim (Bool-cases (p s)) [
    | inl e ↦ rw e (step s e q, h)
    | inr e ↦ rw e (q, All-set_first p j slots step h)
  ]

  pub All-place_all :
      (node_alloc : Dict Str Str) (remaining : List Str) (slots : List Slot)
      → ((j : Str) (s : Slot) → is_free s ≡ true → Q s → Q (assign jobid_user j s))
      → All Q slots
      → All Q (place_all node_alloc jobid_user remaining slots)
  unfolding place_all place
  All-place_all node_alloc [] slots step h = h
  All-place_all node_alloc (j ∷ remaining) slots step h =
      All-place_all node_alloc remaining _ step
        (All-set_first _ j slots (λ s p q. step j s (ground arith) q) h)

-- A bound card has the user of its job, and the job is one that its processes name, or the job of
-- one of its users, or no process of a real user runs on the card.
abbrev pub Justified : Dict Str Str → Slot → Type 0
Justified jobid_user s =
    (s.jobid ≡ [])
    ⊎ ((s.user ≡ get_or jobid_user s.jobid [])
        × ((contains s.card.jobids s.jobid ≡ true)
            ⊎ (contains s.card.users s.user ≡ true)
            ⊎ (s.card.users ≡ [])))

no_users-nil : (us : List Str) → no_users us ≡ true → us ≡ []
no_users-nil [] h = refl
no_users-nil (u ∷ us) h = cc

module _ (jobid_user : Dict Str Str) where
  bind_exact-Justified :
      (remaining : List Str) (s : Slot)
      → s.jobid ≡ []
      → Justified jobid_user (bind jobid_user (exact_job remaining s) s)
  unfolding bind exact_job
  bind_exact-Justified remaining s h =
      let j = next_or_empty (contains remaining) s.card.jobids in
      ground (arith, ==_iff j [], next_or_empty-holds (contains remaining) s.card.jobids)

  bind_confirmed-Justified :
      (remaining : List Str) (s : Slot)
      → Justified jobid_user s
      → Justified jobid_user (bind jobid_user (confirmed_job jobid_user remaining s) s)
  unfolding bind confirmed_job
  bind_confirmed-Justified remaining s h =
      let p = λ (j : Str). contains s.card.users (get_or jobid_user j []) in
      ground (arith, ==_iff (next_or_empty p remaining) [], next_or_empty-holds p remaining)

  assign-Justified :
      (j : Str) (s : Slot)
      → is_free s ≡ true
      → Justified jobid_user s
      → Justified jobid_user (assign jobid_user j s)
  unfolding is_free
  assign-Justified j s free h = ground (arith, no_users-nil s.card.users)

-- Every binding rests on evidence: see `Justified`.
pub reconcile-Justified :
    (node_alloc jobid_user : Dict Str Str) (gpus : List Card)
    → All (Justified jobid_user) (reconcile_gpu_alloc node_alloc jobid_user gpus)
unfolding reconcile_gpu_alloc
reconcile-Justified node_alloc jobid_user gpus =
    let p0 = pass jobid_user exact_job (map unbound gpus) (values node_alloc) in
    let p1 = pass jobid_user (confirmed_job jobid_user) p0.0 p0.1 in
    All-place_all jobid_user (Justified jobid_user) node_alloc p1.1 p1.0
      (assign-Justified jobid_user)
      (All-pass jobid_user (Justified jobid_user) (Justified jobid_user) (confirmed_job jobid_user)
        p0.0 p0.1 (bind_confirmed-Justified jobid_user)
        (All-pass jobid_user (λ s. s.jobid ≡ []) (Justified jobid_user) exact_job (map unbound gpus)
          (values node_alloc) (bind_exact-Justified jobid_user) (All-unbound gpus)))
