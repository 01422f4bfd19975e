-- ===== src/Polling/Prune.antt =====
-- What `_prune_node_caches` of src/sgpu/collector.py keeps and drops.
use slurm_gpu_tui.Prelude.{
  ℕ, ◌+◌, ◌≤◌, ◌≡◌, refl, ◌∙◌, arith, Str, Bool, true, false, Option, none, some,
}
use slurm_gpu_tui.Prelude.{
  List, [], ◌∷◌, ==_iff, str_eq, ◌&&◌, if◌then◌else◌, contains, contains-add, count, count-append,
  count-uncontained, count-contained, leb, not,
}
use slurm_gpu_tui.Prelude.Dict.{
  Dict, get, put, pop, get_or, get-put, get-pop, has-pop, NodupKeys, put-NodupKeys, get-none,
}
use slurm_gpu_tui.Polling.{Pollers, tracked, pop_all, unique, count_absent, without, retired_of}
use slurm_gpu_tui.Polling.{prune_node_caches}

get-pop_all :
    {V : Type 0} (names : List Str) (k : Str) (d : Dict Str V)
    → get (pop_all names d) k ≡ (if contains names k then none else get d k)
unfolding pop_all
get-pop_all [] k d = refl
get-pop_all (name ∷ names) k d =
    get-pop_all names k (pop name d) ∙ ground (arith, get-pop name k d, ==_iff name k)

contains-unique : (xs : List Str) (k : Str) → contains (unique xs) k ≡ contains xs k
unfolding unique
contains-unique [] k = refl
contains-unique (x ∷ xs) k = ground (arith, contains-unique xs k, contains-add x k (unique xs))

count-unique : (xs : List Str) (k : Str) → count k (unique xs) ≤ 1
unfolding unique
count-unique [] k = omega arith
count-unique (x ∷ xs) k = ground (
  arith,
  count-unique xs k,
  count-append k (unique xs) (x ∷ []),
  count-uncontained k (unique xs),
  ==_iff x k,
)

contains-without :
    (names xs : List Str) (k : Str)
    → contains (without names xs) k ≡ (contains xs k && not (contains names k))
contains-without names [] k = refl
contains-without names (x ∷ xs) k = ground (arith, contains-without names xs k, ==_iff x k)

count-without : (names xs : List Str) (k : Str) → count k (without names xs) ≤ count k xs
count-without names [] k = omega arith
count-without names (x ∷ xs) k = ground (arith, count-without names xs k)

get-count_absent :
    (names : List Str) (k : Str) (d : Dict Str ℕ)
    → count k names ≤ 1
    → get (count_absent names d) k ≡ (if contains names k then some (get_or d k 0 + 1) else get d k)
unfolding count_absent get_or
get-count_absent [] k d once = refl
get-count_absent (name ∷ names) k d once =
    let d' = put name (get_or d name 0 + 1) d in
    get-count_absent names k d' (ground (arith, once))
    ∙ ground (
      arith,
      once,
      get-put name k (get_or d name 0 + 1) d,
      ==_iff name k,
      count-contained k names,
    )

pop-NodupKeys : {V : Type 0} (k : Str) (d : Dict Str V) → NodupKeys d → NodupKeys (pop k d)
unfolding pop
pop-NodupKeys k [] h = tt
pop-NodupKeys k ((j, v) ∷ d) h = ground (arith, pop-NodupKeys k d, h, has-pop k j d)

pop_all-NodupKeys :
    {V : Type 0} (names : List Str) (d : Dict Str V) → NodupKeys d → NodupKeys (pop_all names d)
unfolding pop_all
pop_all-NodupKeys [] d h = h
pop_all-NodupKeys (name ∷ names) d h = pop_all-NodupKeys names (pop name d) (pop-NodupKeys name d h)

count_absent-NodupKeys :
    (names : List Str) (d : Dict Str ℕ) → NodupKeys d → NodupKeys (count_absent names d)
unfolding count_absent
count_absent-NodupKeys [] d h = h
count_absent-NodupKeys (name ∷ names) d h =
    count_absent-NodupKeys names (put name (get_or d name 0 + 1) d)
      (put-NodupKeys name (get_or d name 0 + 1) d h)

abbrev is_due : ℕ → Option ℕ → Bool
is_due prune_after none = false
is_due prune_after (some n) = leb prune_after n

contains-retired_of :
    (prune_after : ℕ) (k : Str) (d : Dict Str ℕ)
    → NodupKeys d
    → contains (retired_of prune_after d) k ≡ is_due prune_after (get d k)
unfolding retired_of get
contains-retired_of prune_after k [] h = refl
contains-retired_of prune_after k ((j, n) ∷ d) h =
    ground (arith, contains-retired_of prune_after k d, h, get-none k d, ==_iff j k)

module _ (prune_after : ℕ) (live_names : List Str) (s : Pollers) where
  -- The count of a name before the retired ones go.
  absent_count : Str → Option ℕ
  absent_count k =
      get
        (count_absent (without live_names (unique (tracked s)))
          (pop_all live_names s.node_absent_cycles))
        k

  absent_count-eq :
      (k : Str)
      → absent_count k ≡ (
          if contains live_names k
          then none
          else if contains (tracked s) k
          then some (get_or s.node_absent_cycles k 0 + 1)
          else get s.node_absent_cycles k)
  unfolding absent_count get_or
  absent_count-eq k =
      let names = without live_names (unique (tracked s)) in
      get-count_absent names k (pop_all live_names s.node_absent_cycles)
        (omega (arith, count-without live_names (unique (tracked s)) k, count-unique (tracked s) k))
      ∙ ground (
        arith,
        get-pop_all live_names k s.node_absent_cycles,
        contains-without live_names (unique (tracked s)) k,
        contains-unique (tracked s) k,
      )

  result-pruned :
      NodupKeys s.node_absent_cycles
      → (k : Str)
      → get (prune_node_caches prune_after live_names s).node_results k
        ≡ (if is_due prune_after (absent_count k) then none else get s.node_results k)
  unfolding prune_node_caches absent_count
  result-pruned h k =
      let absent =
        count_absent (without live_names (unique (tracked s)))
          (pop_all live_names s.node_absent_cycles) in
      get-pop_all (retired_of prune_after absent) k s.node_results
      ∙ ground (
        arith,
        contains-retired_of prune_after k absent (
            count_absent-NodupKeys (without live_names (unique (tracked s)))
              (pop_all live_names s.node_absent_cycles)
              (pop_all-NodupKeys live_names s.node_absent_cycles h)),
      )

  cycles-pruned :
      NodupKeys s.node_absent_cycles
      → (k : Str)
      → get (prune_node_caches prune_after live_names s).node_absent_cycles k
        ≡ (if is_due prune_after (absent_count k) then none else absent_count k)
  unfolding prune_node_caches absent_count
  cycles-pruned h k =
      let absent =
        count_absent (without live_names (unique (tracked s)))
          (pop_all live_names s.node_absent_cycles) in
      get-pop_all (retired_of prune_after absent) k absent
      ∙ ground (
        arith,
        contains-retired_of prune_after k absent (
            count_absent-NodupKeys (without live_names (unique (tracked s)))
              (pop_all live_names s.node_absent_cycles)
              (pop_all-NodupKeys live_names s.node_absent_cycles h)),
      )

  -- A node of the roster keeps its result, and its count of missed rosters ends.
  pub prune-live :
      NodupKeys s.node_absent_cycles
      → (k : Str) → contains live_names k ≡ true
      → let t = prune_node_caches prune_after live_names s in
        (get t.node_results k ≡ get s.node_results k) × (get t.node_absent_cycles k ≡ none)
  prune-live h k live = (
    result-pruned h k ∙ ground (arith, absent_count-eq k),
    cycles-pruned h k ∙ ground (arith, absent_count-eq k),
  )

  -- A tracked node off the roster keeps its result while it has missed fewer than `prune_after`
  -- rosters; then the result and the count go.
  pub prune-absent :
      NodupKeys s.node_absent_cycles
      → (k : Str) → contains live_names k ≡ false
      → contains (tracked s) k ≡ true
      → let t = prune_node_caches prune_after live_names s in
        let missed = get_or s.node_absent_cycles k 0 + 1 in
        (get t.node_results k ≡ (if leb prune_after missed then none else get s.node_results k))
        × (get t.node_absent_cycles k ≡ (if leb prune_after missed then none else some missed))
  prune-absent h k live known = (
    result-pruned h k ∙ ground (arith, absent_count-eq k),
    cycles-pruned h k ∙ ground (arith, absent_count-eq k),
  )

  -- What has no result gets none by pruning.
  pub prune-none :
      NodupKeys s.node_absent_cycles
      → (k : Str) → get s.node_results k ≡ none
      → get (prune_node_caches prune_after live_names s).node_results k ≡ none
  prune-none h k e = result-pruned h k ∙ ground (arith, e)

  pub prune-NodupKeys :
      NodupKeys s.node_absent_cycles
      → NodupKeys (prune_node_caches prune_after live_names s).node_absent_cycles
  unfolding prune_node_caches
  prune-NodupKeys h =
      let absent =
        count_absent (without live_names (unique (tracked s)))
          (pop_all live_names s.node_absent_cycles) in
      pop_all-NodupKeys (retired_of prune_after absent) absent (
        count_absent-NodupKeys (without live_names (unique (tracked s)))
          (pop_all live_names s.node_absent_cycles)
          (pop_all-NodupKeys live_names s.node_absent_cycles h))
