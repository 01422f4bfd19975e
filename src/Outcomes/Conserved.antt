-- ===== src/Outcomes/Conserved.antt =====
-- No finished job is lost or handed over twice.
use slurm_gpu_tui.Prelude.{
  ℕ, zero, suc, ◌+◌, ◌≤◌, ◌≡◌, refl, ◌∙◌, arith, Str, Bool, false, str_eq, List, [], ◌∷◌, ◌++◌,
}
use slurm_gpu_tui.Prelude.{
  ==_iff, ◌&&◌, ◌||◌, not, if◌then◌else◌, length, take, drop, count, All, Bool-cases, inl, inr,
}
use slurm_gpu_tui.Prelude.Dict.{Dict, put, has, has-put, keys, NodupKeys, put-NodupKeys}
use slurm_gpu_tui.Data.{JobInfo}
use slurm_gpu_tui.Outcomes.{
  Watched, LogSource, OutcomeSettings, Batch, Tracker, batches, all_of, batch_size, take_batches,
  finished_jobs, current_jobs, batch_of, offer, enqueue, put_entries, with_deferred, process_jobs,
  next_taken, later_taken, is_watched, remembered, is_nil,
}

-- How often an id stands in a list of jobs, and in the batches of a list.
abbrev pub among : Str → List (Str × Watched) → ℕ
among k xs = count k (keys xs)

unfoldable pub in_batches : Str → List Batch → ℕ
in_batches k [] = 0
in_batches k (b ∷ bs) = among k b.jobs + in_batches k bs

-- How often the job has been handed over.
abbrev pub handed : Str → Tracker → ℕ
handed k s = in_batches k s.taken + in_batches k s.queue

in_batches-append :
    (k : Str) (xs ys : List Batch) → in_batches k (xs ++ ys) ≡ in_batches k xs + in_batches k ys
unfolding in_batches
in_batches-append k [] ys = omega arith
in_batches-append k (x ∷ xs) ys = omega (arith, in_batches-append k xs ys)

in_batches-take-drop :
    (k : Str) (n : ℕ) (xs : List Batch)
    → in_batches k (take n xs) + in_batches k (drop n xs) ≡ in_batches k xs
unfolding in_batches
in_batches-take-drop k zero xs = omega arith
in_batches-take-drop k (suc n) [] = omega arith
in_batches-take-drop k (suc n) (x ∷ xs) = omega (arith, in_batches-take-drop k n xs)

pub handed-take_batches : (k : Str) (n : ℕ) (s : Tracker) → handed k (take_batches n s) ≡ handed k s
unfolding take_batches
handed-take_batches k n s =
    omega (arith, in_batches-append k s.taken (take n s.queue), in_batches-take-drop k n s.queue)

among-append :
    (k : Str) (xs ys : List (Str × Watched)) → among k (xs ++ ys) ≡ among k xs + among k ys
among-append k [] ys = omega arith
among-append k ((j, w) ∷ xs) ys = omega (arith, among-append k xs ys)

among-take-drop :
    (k : Str) (n : ℕ) (xs : List (Str × Watched))
    → among k (take n xs) + among k (drop n xs) ≡ among k xs
among-take-drop k zero xs = omega arith
among-take-drop k (suc n) [] = omega arith
among-take-drop k (suc n) (x ∷ xs) = omega (arith, among-take-drop k n xs)

unfoldable in_lists : Str → List (List (Str × Watched)) → ℕ
in_lists k [] = 0
in_lists k (b ∷ bs) = among k b + in_lists k bs

length-drop : {A : Type 0} (n : ℕ) (xs : List A) → length (drop n xs) ≤ length xs
length-drop zero xs = omega arith
length-drop (suc n) [] = omega arith
length-drop (suc n) (x ∷ xs) = omega (arith, length-drop n xs)

-- As many rounds as there are jobs are enough: the batches hold every job.
in_lists-batches :
    (k : Str) (fuel : ℕ) (xs : List (Str × Watched))
    → length xs ≤ fuel
    → in_lists k (batches fuel xs) ≡ among k xs
unfolding in_lists batches
in_lists-batches k zero [] h = refl
in_lists-batches k zero (x ∷ xs) h = absurd (omega arith)
in_lists-batches k (suc fuel) [] h = refl
in_lists-batches k (suc fuel) (x ∷ xs) h = omega (
  arith,
  in_lists-batches k fuel (drop batch_size (x ∷ xs)) (omega (arith, length-drop 31 xs)),
  among-take-drop k batch_size (x ∷ xs),
)

abbrev pub as_count : Bool → ℕ
as_count b = if b then 1 else 0

-- The job has been handed over, or it is still remembered.
abbrev pub accounted : Str → Tracker → ℕ
accounted k s = handed k s + as_count (has s.jobs k)

module _ (set : OutcomeSettings) where
  handed-offer :
      (k : Str) (batch : List (Str × Watched)) (s : Tracker) (deferred : List (Str × Watched))
      → let r = offer set batch (s, deferred) in
        handed k r.0 + among k r.1 ≡ handed k s + among k deferred + among k batch
  unfolding in_batches
  handed-offer k batch s deferred = ground (
    arith,
    in_batches-append k s.queue (batch_of set s.logs batch ∷ []),
    among-append k deferred batch,
  )

  handed-enqueue :
      (k : Str) (taken : List ℕ) (bs : List (List (Str × Watched))) (s : Tracker)
      (deferred : List (Str × Watched))
      → let r = enqueue set taken bs (s, deferred) in
        handed k r.0 + among k r.1 ≡ handed k s + among k deferred + in_lists k bs
  unfolding enqueue in_lists
  handed-enqueue k taken [] s deferred = omega arith
  handed-enqueue k taken (batch ∷ bs) s deferred =
      let n = next_taken set taken in
      let r = offer set batch (take_batches n s, deferred) in
      omega (
        arith,
        handed-enqueue k (later_taken set taken) bs r.0 r.1,
        handed-offer k batch (take_batches n s) deferred,
        handed-take_batches k n s,
      )

  pub has-put_entries :
      {V : Type 0} (k : Str) (xs : List (Str × V)) (d : Dict Str V)
      → has (put_entries set xs d) k ≡ (has xs k || has d k)
  unfolding put_entries has
  has-put_entries k [] d = refl
  has-put_entries k ((j, v) ∷ xs) d =
      ground (arith, has-put_entries k xs (put j v d), has-put j k v d)

  -- A job has gone if it is remembered and not listed.
  pub has-finished_jobs :
      (k : Str) (current jobs : Dict Str Watched)
      → has (finished_jobs set current jobs) k ≡ (not (has current k) && has jobs k)
  unfolding finished_jobs has
  has-finished_jobs k current [] = ground arith
  has-finished_jobs k current ((j, w) ∷ jobs) =
      ground (arith, has-finished_jobs k current jobs, ==_iff j k)

among-has : (k : Str) (d : Dict Str Watched) → NodupKeys d → among k d ≡ as_count (has d k)
unfolding has
among-has k [] h = refl
among-has k ((j, w) ∷ d) (fresh, h) = ground (arith, among-has k d h, ==_iff j k)

has-among :
    (k : Str) (xs : List (Str × Watched)) → among k xs ≤ 1 → among k xs ≡ as_count (has xs k)
unfolding has
has-among k [] h = refl
has-among k ((j, w) ∷ xs) h = ground (arith, has-among k xs)

module _ (set : OutcomeSettings) where
  among-finished_jobs :
      (k : Str) (current jobs : Dict Str Watched)
      → among k (finished_jobs set current jobs) ≡ (if has current k then 0 else among k jobs)
  unfolding finished_jobs
  among-finished_jobs k current [] = ground arith
  among-finished_jobs k current ((j, w) ∷ jobs) =
      ground (arith, among-finished_jobs k current jobs, ==_iff j k)

  among-offer :
      (k : Str) (batch : List (Str × Watched)) (s : Tracker) (deferred : List (Str × Watched))
      → among k (offer set batch (s, deferred)).1 ≤ among k deferred + among k batch
  among-offer k batch s deferred = ground (arith, among-append k deferred batch)

  among-enqueue :
      (k : Str) (taken : List ℕ) (bs : List (List (Str × Watched))) (s : Tracker)
      (deferred : List (Str × Watched))
      → among k (enqueue set taken bs (s, deferred)).1 ≤ among k deferred + in_lists k bs
  unfolding enqueue in_lists
  among-enqueue k taken [] s deferred = omega arith
  among-enqueue k taken (batch ∷ bs) s deferred =
      let s' = take_batches (next_taken set taken) s in
      let r = offer set batch (s', deferred) in
      omega
        (arith, among-enqueue k (later_taken set taken) bs r.0 r.1, among-offer k batch s' deferred)

  pub put_entries-NodupKeys :
      {V : Type 0} (xs : List (Str × V)) (d : Dict Str V)
      → NodupKeys d
      → NodupKeys (put_entries set xs d)
  unfolding put_entries
  put_entries-NodupKeys [] d h = h
  put_entries-NodupKeys ((k, v) ∷ xs) d h =
      put_entries-NodupKeys xs (put k v d) (put-NodupKeys k v d h)

  pub current_jobs-NodupKeys :
      (jobs : List JobInfo) (d : Dict Str Watched)
      → NodupKeys d
      → NodupKeys (current_jobs set jobs d)
  unfolding current_jobs
  current_jobs-NodupKeys [] d h = h
  current_jobs-NodupKeys (j ∷ jobs) d h = elim (Bool-cases (is_watched set j.user)) [
    | inl e ↦ rw e (
        current_jobs-NodupKeys jobs (put j.jobid (remembered set j) d)
          (put-NodupKeys j.jobid (remembered set j) d h))
    | inr e ↦ rw e (current_jobs-NodupKeys jobs d h)
  ]

  -- A clean round accounts for each job that the snapshot does not list.
  pub accounted-with_deferred :
      (k : Str) (current : Dict Str Watched) (sources : Dict Str LogSource) (taken : List ℕ)
      (s : Tracker)
      → NodupKeys s.jobs
      → has current k ≡ false
      → accounted k (
          with_deferred set current sources
            (enqueue set taken (all_of (finished_jobs set current s.jobs)) (s, [])))
        ≡ accounted k s
  accounted-with_deferred k current sources taken s h absent =
      let gone = finished_jobs set current s.jobs in
      let r = enqueue set taken (all_of gone) (s, []) in
      let whole = in_lists-batches k (length gone) gone (omega arith) in
      let sole = among-finished_jobs k current s.jobs in
      let once = among-has k s.jobs h in
      let few : among k r.1 ≤ 1 =
        ground (arith, among-enqueue k taken (all_of gone) s [], whole, sole, once) in
      ground (
        arith,
        handed-enqueue set k taken (all_of gone) s [],
        whole,
        sole,
        once,
        has-among k r.1 few,
        has-put_entries set k r.1 current,
      )

-- A round of `process_jobs`: the snapshot and what the worker takes meanwhile.
pub record Turn : Type 0 where
  pub errors : Bool
  pub jobs : List JobInfo
  pub sources : Dict Str LogSource
  pub taken : List ℕ

module _ (set : OutcomeSettings) where
  abbrev pub turn : Turn → Tracker → Tracker
  turn c s = process_jobs set c.errors c.jobs c.sources c.taken s

  unfoldable pub run : List Turn → Tracker → Tracker
  run [] s = s
  run (c ∷ cs) s = run cs (turn c s)

  -- The snapshot does not list the job as a watched one.
  abbrev pub IsAbsent : Str → Turn → Type 0
  IsAbsent k c = has (current_jobs set c.jobs []) k ≡ false

  accounted-turn :
      (k : Str) (c : Turn) (s : Tracker)
      → NodupKeys s.jobs
      → IsAbsent k c
      → (accounted k (turn c s) ≡ accounted k s) × NodupKeys (turn c s).jobs
  unfolding process_jobs
  accounted-turn k c s h absent =
      let current = current_jobs set c.jobs [] in
      let r = enqueue set c.taken (all_of (finished_jobs set current s.jobs)) (s, []) in
      elim (Bool-cases
        (not (is_nil set.job_done_users && is_nil set.job_fail_users) && not c.errors)) [
          | inl e ↦ rw e (
            accounted-with_deferred set k current c.sources c.taken s h absent,
            put_entries-NodupKeys set r.1 current (current_jobs-NodupKeys set c.jobs [] tt),
          )
          | inr e ↦
              rw e (elim (Bool-cases c.errors) [ inl f ↦ rw f (refl, h) | inr f ↦ rw f (refl, h) ])
        ]

  -- While no snapshot lists a job, and whether or not the queries fail, the times that it has been
  -- handed to the outcome worker, and one if it is still remembered, add up to the same number: a job
  -- that has gone is never dropped, and never handed over twice.
  pub accounted-run :
      (k : Str) (cs : List Turn) (s : Tracker)
      → NodupKeys s.jobs
      → All (IsAbsent k) cs
      → accounted k (run cs s) ≡ accounted k s
  unfolding run
  accounted-run k [] s h absent = refl
  accounted-run k (c ∷ cs) s h (a, absent) =
      let (same, h') = accounted-turn k c s h a in accounted-run k cs (turn c s) h' absent ∙ same
