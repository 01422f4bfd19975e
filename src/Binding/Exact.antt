-- ===== src/Binding/Exact.antt =====
-- The cgroup evidence decides: pass 0 of `reconcile_gpu_alloc`.
use slurm_gpu_tui.Prelude.{ℕ, ◌+◌, ◌≤◌, ◌<◌, ◌≡◌, ◌≢◌, refl, arith, Str, Bool, true, All}
use slurm_gpu_tui.Prelude.{List, [], ◌∷◌, map, ==_iff, list_beq, str_eq, inl, inr}
use slurm_gpu_tui.Prelude.{if◌then◌else◌, contains, count, count-remove, first}
use slurm_gpu_tui.Prelude.{none, Option-cases, contains-first}
use slurm_gpu_tui.Prelude.Dict.{Dict, values}
use slurm_gpu_tui.Binding.{Card, Slot, is_empty, next_or_empty, unbound, bind, take_out, exact_job}
use slurm_gpu_tui.Binding.{confirmed_job, pass, is_free, assign}
use slurm_gpu_tui.Binding.{reconcile_gpu_alloc}
use slurm_gpu_tui.Binding.Evidence.{All-pass, All-place_all}
use slurm_gpu_tui.Binding.Conservation.{next_or_empty-holds}

-- How many cards have processes of the job.
abbrev pub naming : Str → List Card → ℕ
naming j [] = 0
naming j (c ∷ gpus) = (if contains c.jobids j then 1 else 0) + naming j gpus

-- Each card has processes of one job at most, and no job has processes on more cards than it has
-- allocations.
abbrev pub NamesOne : Card → Type 0
NamesOne c = (j k : Str) → contains c.jobids j ≡ true → contains c.jobids k ≡ true → j ≡ k

abbrev pub IsCovered : List Card → List Str → Type 0
IsCovered gpus remaining = (j : Str) → j ≢ [] → naming j gpus ≤ count j remaining

-- A card with processes of a job is bound to that job.
abbrev pub IsExact : Slot → Type 0
IsExact s = (j : Str) → j ≢ [] → contains s.card.jobids j ≡ true → s.jobid ≡ j

is_empty-nil : is_empty [] ≡ true
unfolding list_beq
is_empty-nil = refl

contains_of_count : (j : Str) (xs : List Str) → 0 < count j xs → contains xs j ≡ true
contains_of_count j [] h = elim h [ ]
contains_of_count j (x ∷ xs) h = ground (arith, contains_of_count j xs)

first-found :
    (p : Str → Bool) (j : Str) (xs : List Str)
    → contains xs j ≡ true
    → p j ≡ true
    → first p xs ≢ none
first-found p j [] h t e = cc
first-found p j (x ∷ xs) h t e = ground (arith, first-found p j xs, ==_iff x j)

next_or_empty-found :
    (p : Str → Bool) (j : Str) (xs : List Str)
    → j ≢ []
    → contains xs j ≡ true
    → p j ≡ true
    → ((k : Str) → contains xs k ≡ true → k ≡ j)
    → next_or_empty p xs ≡ j
next_or_empty-found p j xs real h t only = elim (Option-cases (first p xs)) [
  | inl e ↦ absurd (first-found p j xs h t e)
  | inr (a, e) ↦ rw (e, next_or_empty) (only a (contains-first p xs a e))
]

module _ (jobid_user : Dict Str Str) where
  exact_job-eq :
      (remaining : List Str) (c : Card) (j : Str)
      → NamesOne c
      → j ≢ []
      → contains c.jobids j ≡ true
      → contains remaining j ≡ true
      → exact_job remaining (unbound c) ≡ j
  unfolding exact_job
  exact_job-eq remaining c j one real h t =
      next_or_empty-found (contains remaining) j c.jobids real h t (λ k g. one k j g h)

  bind-IsExact :
      (remaining : List Str) (c : Card) (gpus : List Card)
      → NamesOne c
      → IsCovered (c ∷ gpus) remaining
      → IsExact (bind jobid_user (exact_job remaining (unbound c)) (unbound c))
  unfolding bind
  bind-IsExact remaining c gpus one covered j real = ground (
    arith,
    ==_iff (exact_job remaining (unbound c)) [],
    covered j real,
    contains_of_count j remaining,
    exact_job-eq remaining c j one real,
  )

  take_out-IsCovered :
      (remaining : List Str) (c : Card) (gpus : List Card)
      → IsCovered (c ∷ gpus) remaining
      → IsCovered gpus (take_out (exact_job remaining (unbound c)) remaining)
  unfolding take_out exact_job
  take_out-IsCovered remaining c gpus covered k real =
      let j = next_or_empty (contains remaining) c.jobids in
      ground (
        arith,
        ==_iff j [],
        ==_iff j k,
        covered k real,
        count-remove j k remaining,
        next_or_empty-holds (contains remaining) c.jobids,
      )

  pass-IsExact :
      (gpus : List Card) (remaining : List Str)
      → All NamesOne gpus
      → IsCovered gpus remaining
      → All IsExact (pass jobid_user exact_job (map unbound gpus) remaining).0
  unfolding pass
  pass-IsExact [] remaining one covered = tt
  pass-IsExact (c ∷ gpus) remaining (one, ones) covered = (
    bind-IsExact remaining c gpus one covered,
    pass-IsExact gpus _ ones (take_out-IsCovered remaining c gpus covered),
  )

  -- A later pass binds only cards that are not bound yet.
  bind_later-IsExact :
      (remaining : List Str) (s : Slot)
      → IsExact s
      → IsExact (bind jobid_user (confirmed_job jobid_user remaining s) s)
  unfolding bind confirmed_job
  bind_later-IsExact remaining s exact j real =
      ground (arith, ==_iff s.jobid [], exact j real, is_empty-nil)

  assign-IsExact :
      (k : Str) (s : Slot) → is_free s ≡ true → IsExact s → IsExact (assign jobid_user k s)
  unfolding is_free
  assign-IsExact k s free exact j real = ground (arith, ==_iff s.jobid [], exact j real)

-- Where no card has processes of two jobs, and no job has processes on more cards than it has
-- allocations, each card with processes of a job is bound to that job, whatever the indices say.
pub reconcile-IsExact :
    (node_alloc jobid_user : Dict Str Str) (gpus : List Card)
    → All NamesOne gpus
    → IsCovered gpus (values node_alloc)
    → All IsExact (reconcile_gpu_alloc node_alloc jobid_user gpus)
unfolding reconcile_gpu_alloc
reconcile-IsExact node_alloc jobid_user gpus ones covered =
    let p0 = pass jobid_user exact_job (map unbound gpus) (values node_alloc) in
    let p1 = pass jobid_user (confirmed_job jobid_user) p0.0 p0.1 in
    All-place_all jobid_user IsExact node_alloc p1.1 p1.0 (assign-IsExact jobid_user) (
      All-pass jobid_user IsExact IsExact (confirmed_job jobid_user) p0.0 p0.1
        (bind_later-IsExact jobid_user)
        (pass-IsExact jobid_user gpus (values node_alloc) ones covered))
