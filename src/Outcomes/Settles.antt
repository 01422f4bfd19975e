-- ===== src/Outcomes/Settles.antt =====
-- Every finished job is handed over in the end.
use slurm_gpu_tui.Prelude.{
  ℕ, zero, suc, ◌+◌, ◌-◌, ◌*◌, ◌≤◌, ◌≡◌, refl, sym, ap, ◌∙◌, arith, Str, Bool, true, false, str_eq,
  List, [], ◌∷◌, ◌++◌,
}
use slurm_gpu_tui.Prelude.{
  ==_iff, ==_refl, ◌&&◌, not, ltb, length, length-append, take, drop, Bool-cases, inl, inr,
}
use slurm_gpu_tui.Prelude.Dict.{Dict, put, has, NodupKeys}
use mathlib.Core.Path.{subst}
use slurm_gpu_tui.Data.{JobInfo}
use slurm_gpu_tui.Outcomes.{
  Watched, LogSource, OutcomeSettings, Tracker, batches, all_of, batch_size, take_batches,
  finished_jobs, current_jobs, batch_of, offer, enqueue, put_entries, with_deferred, process_jobs,
  is_nil, next_taken, later_taken,
}
use slurm_gpu_tui.Outcomes.Conserved.{
  as_count, has-finished_jobs, accounted, handed, handed-take_batches, accounted-with_deferred,
  put_entries-NodupKeys, current_jobs-NodupKeys,
}

unfoldable lengths : List (List (Str × Watched)) → ℕ
lengths [] = 0
lengths (b ∷ bs) = length b + lengths bs

lengths-drop :
    (m n : ℕ) (bs : List (List (Str × Watched))) → m ≤ n → lengths (drop n bs) ≤ lengths (drop m bs)
unfolding lengths
lengths-drop zero zero bs h = omega arith
lengths-drop zero (suc n) [] h = omega arith
lengths-drop zero (suc n) (b ∷ bs) h = omega (arith, lengths-drop zero n bs (omega arith))
lengths-drop (suc m) zero bs h = absurd (omega arith)
lengths-drop (suc m) (suc n) [] h = omega arith
lengths-drop (suc m) (suc n) (b ∷ bs) h = lengths-drop m n bs (omega arith)

length-drop : {A : Type 0} (n : ℕ) (xs : List A) → length (drop n xs) ≡ length xs - n
length-drop zero xs = omega arith
length-drop (suc n) [] = omega arith
length-drop (suc n) (x ∷ xs) = omega (arith, length-drop n xs)

length-take-drop :
    {A : Type 0} (n : ℕ) (xs : List A) → length (take n xs) + length (drop n xs) ≡ length xs
length-take-drop zero xs = omega arith
length-take-drop (suc n) [] = omega arith
length-take-drop (suc n) (x ∷ xs) = omega (arith, length-take-drop n xs)

-- All batches but the last are full.
lengths-batches :
    (m fuel : ℕ) (xs : List (Str × Watched))
    → lengths (drop m (batches fuel xs)) ≤ length xs - 32 * m
unfolding lengths batches
lengths-batches zero zero xs = omega arith
lengths-batches (suc m) zero xs = omega arith
lengths-batches zero (suc fuel) [] = omega arith
lengths-batches (suc m) (suc fuel) [] = omega arith
lengths-batches zero (suc fuel) (x ∷ xs) = omega (
  arith,
  lengths-batches zero fuel (drop batch_size (x ∷ xs)),
  length-take-drop batch_size (x ∷ xs),
)
lengths-batches (suc m) (suc fuel) (x ∷ xs) =
    omega
      (arith, lengths-batches m fuel (drop batch_size (x ∷ xs)), length-drop batch_size (x ∷ xs))

fits-next :
    (m a : ℕ) (b : List (Str × Watched)) (rest : List (List (Str × Watched)))
    → m ≤ suc a
    → lengths (drop a rest) ≤ lengths (drop m (b ∷ rest))
unfolding lengths
fits-next zero a b rest h = omega (arith, lengths-drop zero a rest (omega arith))
fits-next (suc m) a b rest h = lengths-drop m a rest (omega arith)

drop_all : {A : Type 0} (xs : List A) → drop (length xs) xs ≡ []
drop_all [] = refl
drop_all (x ∷ xs) = drop_all xs

has_nothing : {V : Type 0} (d : Dict Str V) (k : Str) → length d ≤ 0 → has d k ≡ false
unfolding has
has_nothing [] k h = refl
has_nothing (e ∷ d) k h = absurd (omega arith)

module _ (set : OutcomeSettings) where
  offer_room :
      (batch : List (Str × Watched)) (bs : List (List (Str × Watched))) (s : Tracker)
      (deferred : List (Str × Watched)) (m : ℕ)
      → m ≤ set.queue_size - length s.queue
      → let r = offer set batch (s, deferred) in
        length r.1 + lengths (drop (set.queue_size - length r.0.queue) bs)
        ≤ length deferred + lengths (drop m (batch ∷ bs))
  unfolding lengths
  offer_room batch bs s deferred m h =
      let longer = length-append s.queue (batch_of set s.logs batch ∷ []) in
      elim (Bool-cases (ltb (length s.queue) set.queue_size)) [
        | inl e ↦
            let fits =
              fits-next m (set.queue_size - length (s.queue ++ (batch_of set s.logs batch ∷ [])))
                batch bs (omega (arith, longer)) in
            rw e (omega (arith, fits))
        | inr e ↦
            let full : m ≡ 0 = ground arith in
            let rest = lengths-drop zero (set.queue_size - length s.queue) bs (omega arith) in
            rw e (rw full (omega (arith, rest, length-append deferred batch)))
      ]

  -- What does not fit is deferred.
  length-enqueue :
      (taken : List ℕ) (bs : List (List (Str × Watched))) (s : Tracker)
      (deferred : List (Str × Watched))
      → length (enqueue set taken bs (s, deferred)).1
        ≤ length deferred + lengths (drop (set.queue_size - length s.queue) bs)
  unfolding enqueue lengths take_batches
  length-enqueue taken [] s deferred = omega arith
  length-enqueue taken (batch ∷ bs) s deferred =
      let s' = take_batches (next_taken set taken) s in
      let r = offer set batch (s', deferred) in
      let shorter = length-drop (next_taken set taken) s.queue in
      let room =
        offer_room batch bs s' deferred (set.queue_size - length s.queue)
          (omega (arith, shorter)) in
      omega (arith, length-enqueue (later_taken set taken) bs r.0 r.1, room)

  length-gone_put :
      (k : Str) (v : Watched) (current d : Dict Str Watched)
      → length (finished_jobs set current (put k v d)) ≤ suc (length (finished_jobs set current d))
  unfolding finished_jobs put
  length-gone_put k v current [] = ground arith
  length-gone_put k v current ((j, w) ∷ d) =
      ground (arith, length-gone_put k v current d, ==_iff j k)

  length-gone_entries :
      (xs : List (Str × Watched)) (current d : Dict Str Watched)
      → length (finished_jobs set current (put_entries set xs d))
        ≤ length xs + length (finished_jobs set current d)
  unfolding put_entries
  length-gone_entries [] current d = omega arith
  length-gone_entries ((k, v) ∷ xs) current d =
      omega (arith, length-gone_entries xs current (put k v d), length-gone_put k v current d)

  ==_first : (j : Str) (w : Watched) (d : Dict Str Watched) → has ((j, w) ∷ d) j ≡ true
  unfolding has
  ==_first j w d = ground (arith, ==_refl j)

  gone_listed :
      (current d : Dict Str Watched)
      → ((k : Str) → has d k ≡ true → has current k ≡ true)
      → finished_jobs set current d ≡ []
  unfolding finished_jobs has
  gone_listed current [] h = refl
  gone_listed current ((j, w) ∷ d) h =
      ground (arith, h j (==_first j w d), gone_listed current d (λ k t. h k (ground arith)))

  gone_current : (current : Dict Str Watched) → finished_jobs set current current ≡ []
  gone_current current = gone_listed current current (λ k t. t)

  -- How many jobs still have to be handed over.
  abbrev waiting : List JobInfo → Tracker → ℕ
  waiting jobs s = length (finished_jobs set (current_jobs set jobs []) s.jobs)

  -- The worker empties the queue, and a clean snapshot is processed.
  abbrev pub round : List JobInfo → Dict Str LogSource → Tracker → Tracker
  round jobs sources s = process_jobs set false jobs sources [] (take_batches (length s.queue) s)

  unfoldable pub rounds : ℕ → List JobInfo → Dict Str LogSource → Tracker → Tracker
  rounds zero jobs sources s = s
  rounds (suc n) jobs sources s = rounds n jobs sources (round jobs sources s)

  abbrev pub is_on : Bool
  is_on = not (is_nil set.job_done_users && is_nil set.job_fail_users)

  round-with_deferred :
      (jobs : List JobInfo) (sources : Dict Str LogSource) (s : Tracker)
      → is_on ≡ true
      → let s' = take_batches (length s.queue) s in
        let current = current_jobs set jobs [] in
        round jobs sources s
        ≡ with_deferred set current sources
            (enqueue set [] (all_of (finished_jobs set current s'.jobs)) (s', []))
  unfolding process_jobs
  round-with_deferred jobs sources s on = rw on refl

  waiting-with_deferred :
      (jobs : List JobInfo) (sources : Dict Str LogSource) (s : Tracker)
      → s.queue ≡ []
      → let current = current_jobs set jobs [] in
        waiting jobs (
          with_deferred set current sources
            (enqueue set [] (all_of (finished_jobs set current s.jobs)) (s, [])))
        ≤ waiting jobs s - 32 * set.queue_size
  waiting-with_deferred jobs sources s empty =
      let current = current_jobs set jobs [] in
      let gone = finished_jobs set current s.jobs in
      let r = enqueue set [] (all_of gone) (s, []) in
      let none_gone = ap length (gone_current current) in
      let deferred = length-enqueue [] (all_of gone) s [] in
      let short = ap length empty in
      let room : set.queue_size - length s.queue ≡ set.queue_size = omega (arith, short) in
      omega (
        arith,
        length-gone_entries r.1 current current,
        none_gone,
        rw room at deferred,
        lengths-batches set.queue_size (length gone) gone,
      )

  round-waiting :
      (jobs : List JobInfo) (sources : Dict Str LogSource) (s : Tracker)
      → is_on ≡ true
      → waiting jobs (round jobs sources s) ≤ waiting jobs s - 32 * set.queue_size
  unfolding take_batches
  round-waiting jobs sources s on = omega (
    arith,
    ap (waiting jobs) (round-with_deferred jobs sources s on),
    waiting-with_deferred jobs sources (take_batches (length s.queue) s) (drop_all s.queue),
  )

  round-accounted :
      (k : Str) (jobs : List JobInfo) (sources : Dict Str LogSource) (s : Tracker)
      → is_on ≡ true
      → NodupKeys s.jobs
      → has (current_jobs set jobs []) k ≡ false
      → (accounted k (round jobs sources s) ≡ accounted k s) × NodupKeys (round jobs sources s).jobs
  unfolding take_batches
  round-accounted k jobs sources s on h absent =
      let s' = take_batches (length s.queue) s in
      let current = current_jobs set jobs [] in
      let r = enqueue set [] (all_of (finished_jobs set current s'.jobs)) (s', []) in
      let e = round-with_deferred jobs sources s on in
      (
        ap (accounted k) e
            ∙ (accounted-with_deferred set k current sources [] s' h absent
                ∙ ap (λ n. n + as_count (has s.jobs k)) (handed-take_batches k (length s.queue) s)),
        subst (λ t. NodupKeys t.jobs) (sym e)
            (put_entries-NodupKeys set r.1 current (current_jobs-NodupKeys set jobs [] tt)),
      )

  -- If the worker empties the queue before each snapshot, and the snapshots are clean and list the
  -- same jobs, then after enough of them for the jobs that have gone, 32 for each place of the queue
  -- in each snapshot, every job that is not listed has been handed to the worker: it is no longer
  -- remembered, and it has been handed over once more than before if it was remembered.
  pub rounds-handed :
      (n : ℕ) (jobs : List JobInfo) (sources : Dict Str LogSource) (s : Tracker)
      → is_on ≡ true
      → NodupKeys s.jobs
      → length (finished_jobs set (current_jobs set jobs []) s.jobs) ≤ n * (32 * set.queue_size)
      → (k : Str) → has (current_jobs set jobs []) k ≡ false
      → (has (rounds n jobs sources s).jobs k ≡ false)
        × (handed k (rounds n jobs sources s) ≡ handed k s + as_count (has s.jobs k))
  unfolding rounds has
  rounds-handed zero jobs sources s on h few k absent =
      let gone = finished_jobs set (current_jobs set jobs []) s.jobs in
      let forgotten : has s.jobs k ≡ false = ground (
        arith,
        has-finished_jobs set k (current_jobs set jobs []) s.jobs,
        has_nothing gone k (omega arith),
      ) in
      (forgotten, rw forgotten (omega arith))
  rounds-handed (suc n) jobs sources s on h few k absent =
      let (same, h') = round-accounted k jobs sources s on h absent in
      let fewer = round-waiting jobs sources s on in
      let (a, b) =
        rounds-handed n jobs sources (round jobs sources s) on h' (grind (arith, fewer, few)) k
          absent in
      (a, omega (arith, b, same))
