-- ===== src/LogShare/Threads/Worker.antt =====
-- What a mirror worker of src/sgpu/collector.py read in its first section still stands when it
-- publishes.
use slurm_gpu_tui.Prelude.{ℕ, ◌+◌, ◌<◌, ◌≡◌, arith, Str, Bool, true, Option, none, some}
use slurm_gpu_tui.Prelude.{List, [], ◌∷◌, str_eq}
use slurm_gpu_tui.Prelude.{inl, inr, Option-cases}
use slurm_gpu_tui.Prelude.Int.{ℤ}
use slurm_gpu_tui.Prelude.Dict.{get, get-put, get-pop}
use slurm_gpu_tui.Data.{JobInfo}
use slurm_gpu_tui.LogShare.{Logs, unpublish_log_stream, holds_token}
use slurm_gpu_tui.LogShare.Seeds.{Seed, take_over, seeds_of, invalid_seeds_of, live_of, invalidate}
use slurm_gpu_tui.LogShare.Seeds.{invalidate_all, plant, plant_all, launch, due_jobs, trusted_of}
use slurm_gpu_tui.LogShare.Mirror.{start_token, start, start_with, finish}
use slurm_gpu_tui.LogShare.Threads.{Chore, unpublish, forget, drop, unmark, unlink, run_chore}
use slurm_gpu_tui.LogShare.Threads.{System, initial, Step, Reach, here, next}
use slurm_gpu_tui.LogShare.Threads.{
  cycle, chore, begin, report, withdraw, publish, confirm, delay, finished,
}
use slurm_gpu_tui.LogShare.Threads.Cleanup.{Step-IsClean, Reach-IsClean, initial-IsClean}
use slurm_gpu_tui.LogShare.Threads.Seeding.{
  SameSeeds, unpublish-seeds, report-seeds, publish-seeds, confirm-seeds, delay-seeds,
}
use slurm_gpu_tui.LogShare.Threads.Ownership.{
  IsOrdered, chores_of-IsOrdered, tail-IsOrdered, IsBound, Recorded, Reach-IsBound,
}

-- Every token in use has been made.
abbrev IsMade : Logs → Type 0
IsMade s = (k : Str) (u : ℕ) → get s.seed_tokens k ≡ some u → u < s.fresh

same-IsMade : (a b : Logs) → SameSeeds a b → IsMade b → IsMade a
same-IsMade a b same h k u e = rw same.0 (h k u (rw same.1 at e))

invalidate_all-IsMade : (ks : List Str) (s : Logs) → IsMade s → IsMade (invalidate_all ks s)
unfolding invalidate_all invalidate
invalidate_all-IsMade [] s h = h
invalidate_all-IsMade (k ∷ ks) s h =
    invalidate_all-IsMade ks (invalidate k s)
      (λ j u e. ground (arith, h j u, get-put k j s.fresh s.seed_tokens))

plant-IsMade : (seed : Seed) (s : Logs) → IsMade s → IsMade (plant seed s)
unfolding plant
plant-IsMade seed s h k u e = ground (arith, h k u, get-put seed.jobid k s.fresh s.seed_tokens)

plant_all-IsMade : (seeds : List Seed) (s : Logs) → IsMade s → IsMade (plant_all seeds s)
unfolding plant_all
plant_all-IsMade [] s h = h
plant_all-IsMade (seed ∷ seeds) s h = plant_all-IsMade seeds (plant seed s) (plant-IsMade seed s h)

launch-IsMade : (n : ℕ) (ks : List Str) (s : Logs) → IsMade s → IsMade (launch n ks s)
unfolding launch
launch-IsMade n [] s h = h
launch-IsMade n (k ∷ ks) s h = launch-IsMade n ks _ h

take_over-IsMade :
    (sec now : ℕ) (jobs : List JobInfo) (s : Logs)
    → IsMade s
    → IsMade (take_over sec jobs now s).logs
unfolding take_over
take_over-IsMade sec now jobs s h =
    let s1 = invalidate_all (invalid_seeds_of jobs) s in
    let s2 = plant_all (seeds_of jobs) s1 in
    let s3 = record s2 { live = live_of jobs } in
    launch-IsMade (now + sec) (due_jobs now (trusted_of (seeds_of jobs)) s3) s3
      (plant_all-IsMade (seeds_of jobs) s1 (invalidate_all-IsMade (invalid_seeds_of jobs) s h))

run_chore-IsMade : (ok : Bool) (c : Chore) (s : Logs) → IsMade s → IsMade (run_chore ok c s)
unfolding run_chore
run_chore-IsMade ok (unpublish jid a u) s h =
    same-IsMade (unpublish_log_stream jid a (some u) ok s) s (unpublish-seeds jid a (some u) ok s) h
run_chore-IsMade ok (forget jid) s h = h
run_chore-IsMade ok (drop jid) s h = λ k u e. ground (arith, h k u, get-pop jid k s.seed_tokens)
run_chore-IsMade ok (unmark jid a) s h = h
run_chore-IsMade ok (unlink jid a) s h = h

start-IsMade : (o : Option ℕ) (jid : Str) (s : Logs) → IsMade s → IsMade (start_with o jid s)
start-IsMade (some t) jid s h = h
start-IsMade none jid s h = λ k u e. ground (arith, h k u, get-put jid k s.fresh s.seed_tokens)

record IsFresh (y : System) : Type 0 where
  made : IsMade y.logs
  ordered : IsOrdered y.chores

same-IsFresh :
    (y : System) (s : Logs) → SameSeeds s y.logs → IsFresh y → IsFresh (record y { logs = s })
same-IsFresh y s same h = record { made = same-IsMade s y.logs same h.made; ordered = h.ordered }

module _ (sec max_sec : ℕ) where
  Step-IsFresh : {y z : System} → Step sec max_sec y z → IsFresh y → IsFresh z
  unfolding start finish
  Step-IsFresh (cycle y jobs now e) h = record {
    made = take_over-IsMade sec now jobs y.logs h.made;
    ordered =
        chores_of-IsOrdered (take_over sec jobs now y.logs).reset_streams
          (take_over sec jobs now y.logs).gone;
  }
  Step-IsFresh (chore y ok c rest e) h = record {
    made = run_chore-IsMade ok c y.logs h.made;
    ordered = tail-IsOrdered c rest (rw e at h.ordered);
  }
  Step-IsFresh (begin y k) h = record {
    made = start-IsMade (get y.logs.seed_tokens k) k y.logs h.made;
    ordered = h.ordered;
  }
  Step-IsFresh (report y k a text u) h = same-IsFresh y _ (report-seeds k a text (some u) y.logs) h
  Step-IsFresh (withdraw y k a u ok) h = same-IsFresh y _ (unpublish-seeds k a (some u) ok y.logs) h
  Step-IsFresh (publish y k a u tail fp) h = same-IsFresh y _ (publish-seeds k a u tail fp y.logs) h
  Step-IsFresh (confirm y k a u) h = same-IsFresh y _ (confirm-seeds k a u y.logs) h
  Step-IsFresh (delay y k u b now) h = same-IsFresh y _ (delay-seeds sec max_sec k u b now y.logs) h
  Step-IsFresh (finished y k) h = record { made = h.made; ordered = h.ordered }

  Reach-IsFresh : {y z : System} → Reach sec max_sec y z → IsFresh y → IsFresh z
  Reach-IsFresh here h = h
  Reach-IsFresh (next r st) h = Step-IsFresh st (Reach-IsFresh r h)

  initial-IsFresh : IsFresh initial
  unfolding get
  initial-IsFresh = record { made = λ k u e. cc; ordered = tt }

  -- What the first section of a worker leaves: its token is made, and the metadata stand.
  start-IsBound :
      (jid : Str) (p : Str × Str) (o : ℤ) (y : System)
      → IsFresh y
      → Recorded jid 0 p o y.logs
      → IsBound jid
          (start_token (get y.logs.seed_tokens jid) y.logs.fresh)
          p
          o
          (record y { logs = start jid y.logs })
  unfolding start
  start-IsBound jid p o y h r = elim (Option-cases (get y.logs.seed_tokens jid)) [
    | inl e ↦ rw e (record { old = omega arith; kept = λ f. inl r; ordered = h.ordered })
    | inr e ↦ rw e.1 (record { old = h.made jid e.0 e.1; kept = λ f. inl r; ordered = h.ordered })
  ]

  -- A worker that began with the paths `p` and the owner `o` of a job may publish in a later state
  -- only if both are still what is recorded for the job, whatever ran in between: if the job is
  -- live and has the worker's token, its paths are `p` and its owner is `o`.
  pub publishes_for_recorded_owner :
      (jid : Str) (p : Str × Str) (o : ℤ) {y z : System}
      → Reach sec max_sec initial y
      → get y.logs.paths jid ≡ some p
      → get y.logs.owner_uids jid ≡ some o
      → Reach sec max_sec (record y { logs = start jid y.logs }) z
      → holds_token z.logs jid (start_token (get y.logs.seed_tokens jid) y.logs.fresh) ≡ true
      → (get z.logs.paths jid ≡ some p) × (get z.logs.owner_uids jid ≡ some o)
  publishes_for_recorded_owner jid p o {y} {z} r hp ho later holds =
      let t = start_token (get y.logs.seed_tokens jid) y.logs.fresh in
      let b = start-IsBound jid p o y (Reach-IsFresh r initial-IsFresh) (hp, ho) in
      let d = Reach-IsBound jid t p o sec max_sec later b in
      let clean = Reach-IsClean sec max_sec later (
        Step-IsClean sec max_sec (begin y jid)
          (Reach-IsClean sec max_sec r (initial-IsClean sec max_sec))) in
      ground (arith, d.kept, clean.dead jid)
