-- ===== src/LogShare/Threads/Ownership.antt =====
-- A worker that still holds its job's token works for the owner and the paths that are recorded.
use slurm_gpu_tui.Prelude.{ℕ, ◌+◌, ◌<◌, ◌≡◌, refl, ap, arith, Str, Bool, true, Option, none, some}
use slurm_gpu_tui.Prelude.{List, [], ◌∷◌, ◌++◌, ==_iff, ==_refl, str_eq}
use slurm_gpu_tui.Prelude.{◌⊎◌, inl}
use slurm_gpu_tui.Prelude.Int.{ℤ}
use slurm_gpu_tui.Prelude.Dict.{get, get-put, get-pop, has-get}
use slurm_gpu_tui.Data.{JobInfo}
use slurm_gpu_tui.LogShare.{Logs}
use slurm_gpu_tui.LogShare.Seeds.{Seed, take_over, seeds_of, invalid_seeds_of, live_of, invalidate}
use slurm_gpu_tui.LogShare.Seeds.{
  invalidate_all, plant, plant_all, launch, due_jobs, trusted_of, Reset,
}
use slurm_gpu_tui.LogShare.Seeds.{uid_beq, same_paths}
use slurm_gpu_tui.LogShare.Mirror.{start, start_with, finish}
use slurm_gpu_tui.LogShare.Threads.{
  Chore, unpublish, forget, drop, unmark, unlink, run_chore, reset_chores, note_unlink,
}
use slurm_gpu_tui.LogShare.Threads.{gone_chores, chores_of, System, Step, Reach, here, next}
use slurm_gpu_tui.LogShare.Threads.{
  cycle, chore, begin, report, withdraw, publish, confirm, delay, finished,
}
use slurm_gpu_tui.LogShare.Threads.{drops}
use slurm_gpu_tui.LogShare.Threads.Seeding.{
  SameSeeds, unpublish-seeds, report-seeds, publish-seeds, confirm-seeds, delay-seeds,
}

-- The paths of a job are forgotten before the job is dropped.
abbrev pub IsOrdered : List Chore → Type 0
IsOrdered [] = Unit
IsOrdered (unpublish jid suffix t ∷ rest) = IsOrdered rest
IsOrdered (forget jid ∷ rest) = (drops jid rest ≡ true) × IsOrdered rest
IsOrdered (drop jid ∷ rest) = IsOrdered rest
IsOrdered (unmark jid suffix ∷ rest) = IsOrdered rest
IsOrdered (unlink jid suffix ∷ rest) = IsOrdered rest

gone_chores-IsOrdered : (jids : List Str) → IsOrdered (gone_chores jids)
unfolding gone_chores
gone_chores-IsOrdered [] = tt
gone_chores-IsOrdered (jid ∷ jids) = (rw ==_refl, gone_chores-IsOrdered jids)

pub chores_of-IsOrdered :
    (rs : List Reset) (jids : List Str) → IsOrdered (reset_chores rs ++ gone_chores jids)
unfolding reset_chores
chores_of-IsOrdered [] jids = gone_chores-IsOrdered jids
chores_of-IsOrdered (r ∷ rs) jids = chores_of-IsOrdered rs jids

pub tail-IsOrdered : (c : Chore) (rest : List Chore) → IsOrdered (c ∷ rest) → IsOrdered rest
tail-IsOrdered (unpublish jid suffix t) rest h = h
tail-IsOrdered (forget jid) rest h = h.1
tail-IsOrdered (drop jid) rest h = h
tail-IsOrdered (unmark jid suffix) rest h = h
tail-IsOrdered (unlink jid suffix) rest h = h

uid_beq-eq : (a b : ℤ) → uid_beq a b ≡ true → a ≡ b
uid_beq-eq a b h = ground arith

same_paths-eq : (p q : Str × Str) → same_paths p q ≡ true → p ≡ q
same_paths-eq p q h = ground (arith, ==_iff p.0 q.0, ==_iff p.1 q.1)

-- The section in which the worker read its token, the paths and the owner.
module _ (jid : Str) (t : ℕ) (p : Str × Str) (o : ℤ) where
  abbrev pub Recorded : Logs → Type 0
  Recorded s = (get s.paths jid ≡ some p) × (get s.owner_uids jid ≡ some o)

  -- No token like it can be made again, and while the job has it the metadata stand.
  abbrev Current : Logs → Type 0
  Current s = (t < s.fresh) × (get s.seed_tokens jid ≡ some t → Recorded s)

  invalidate-Current : (k : Str) (s : Logs) → Current s → Current (invalidate k s)
  unfolding invalidate
  invalidate-Current k s h = (
    omega arith,
    ground (
      arith,
      h,
      get-put k jid s.fresh s.seed_tokens,
      get-pop k jid s.paths,
      get-pop k jid s.owner_uids,
    ),
  )

  invalidate_all-Current : (ks : List Str) (s : Logs) → Current s → Current (invalidate_all ks s)
  unfolding invalidate_all
  invalidate_all-Current [] s h = h
  invalidate_all-Current (k ∷ ks) s h =
      invalidate_all-Current ks (invalidate k s) (invalidate-Current k s h)

  plant-Current : (seed : Seed) (s : Logs) → Current s → Current (plant seed s)
  unfolding plant
  plant-Current seed s h = (
    ground (arith, h),
    λ e. ground (
      arith,
      h,
      get-put seed.jobid jid s.fresh s.seed_tokens,
      get-put seed.jobid jid seed.paths s.paths,
      get-put seed.jobid jid seed.owner_uid s.owner_uids,
      ==_iff seed.jobid jid,
      has-get jid t s.seed_tokens,
      same_paths-eq p seed.paths,
      uid_beq-eq o seed.owner_uid,
    ),
  )

  plant_all-Current : (seeds : List Seed) (s : Logs) → Current s → Current (plant_all seeds s)
  unfolding plant_all
  plant_all-Current [] s h = h
  plant_all-Current (seed ∷ seeds) s h =
      plant_all-Current seeds (plant seed s) (plant-Current seed s h)

  launch-Current : (n : ℕ) (ks : List Str) (s : Logs) → Current s → Current (launch n ks s)
  unfolding launch
  launch-Current n [] s h = h
  launch-Current n (k ∷ ks) s h = launch-Current n ks _ h

  take_over-Current :
      (sec now : ℕ) (jobs : List JobInfo) (s : Logs)
      → Current s
      → Current (take_over sec jobs now s).logs
  unfolding take_over
  take_over-Current sec now jobs s h =
      let s1 = invalidate_all (invalid_seeds_of jobs) s in
      let s2 = plant_all (seeds_of jobs) s1 in
      let s3 = record s2 { live = live_of jobs } in
      launch-Current (now + sec) (due_jobs now (trusted_of (seeds_of jobs)) s3) s3
        (plant_all-Current (seeds_of jobs) s1 (invalidate_all-Current (invalid_seeds_of jobs) s h))

  -- The same, except that the drop of a job that is gone may be under way.
  pub record IsBound (y : System) : Type 0 where
    pub old : t < y.logs.fresh
    pub kept : get y.logs.seed_tokens jid ≡ some t → Recorded y.logs ⊎ (drops jid y.chores ≡ true)
    pub ordered : IsOrdered y.chores

  cycle-IsBound :
      (sec now : ℕ) (jobs : List JobInfo) (y : System)
      → y.chores ≡ []
      → IsBound y
      → IsBound (record y {
        logs = (take_over sec jobs now y.logs).logs;
        chores = chores_of (take_over sec jobs now y.logs);
      })
  cycle-IsBound sec now jobs y e h =
      let c =
        take_over-Current sec now jobs y.logs
          (h.old, λ f. ground (arith, h.kept f, ap (drops jid) e)) in
      record {
        old = c.0;
        kept = λ f. inl (c.1 f);
        ordered =
            chores_of-IsOrdered (take_over sec jobs now y.logs).reset_streams
              (take_over sec jobs now y.logs).gone;
      }

  same-IsBound :
      (y : System) (s : Logs) → SameSeeds s y.logs → IsBound y → IsBound (record y { logs = s })
  same-IsBound y s same h = record {
    old = rw same.0 h.old;
    kept = λ f. rw (same.2, same.3) (h.kept (rw same.1 at f));
    ordered = h.ordered;
  }

  chore-IsBound :
      (y : System) (ok : Bool) (c : Chore) (rest : List Chore)
      → y.chores ≡ c ∷ rest
      → IsBound y
      → IsBound
          (record { logs = run_chore ok c y.logs; chores = rest; stuck = note_unlink ok c y.stuck })
  unfolding run_chore
  chore-IsBound y ok c rest e h =
      go c e (tail-IsOrdered c rest (rw e at h.ordered)) (rw e at h.ordered)
    where
      go :
          (c : Chore)
          → y.chores ≡ c ∷ rest
          → IsOrdered rest
          → IsOrdered (c ∷ rest)
          → IsBound (record {
            logs = run_chore ok c y.logs;
            chores = rest;
            stuck = note_unlink ok c y.stuck;
          })
      go (unpublish j a u) f r q =
          let same = unpublish-seeds j a (some u) ok y.logs in
          record {
            old = rw same.0 h.old;
            kept = λ g.
                rw (same.2, same.3) (ground (arith, h.kept (rw same.1 at g), ap (drops jid) f));
            ordered = r;
          }
      go (forget j) f r q = record {
        old = h.old;
        kept = λ g.
            ground (arith, h.kept g, ap (drops jid) f, q, ==_iff j jid, get-pop j jid y.logs.paths);
        ordered = r;
      }
      go (drop j) f r q = record {
        old = h.old;
        kept = λ g. ground (
          arith,
          h.kept,
          ap (drops jid) f,
          ==_iff j jid,
          get-pop j jid y.logs.seed_tokens,
          get-pop j jid y.logs.owner_uids,
        );
        ordered = r;
      }
      go (unmark j a) f r q = record {
        old = h.old;
        kept = λ g. ground (arith, h.kept g, ap (drops jid) f);
        ordered = r;
      }
      go (unlink j a) f r q = record {
        old = h.old;
        kept = λ g. ground (arith, h.kept g, ap (drops jid) f);
        ordered = r;
      }

  begin-IsBound : (y : System) (k : Str) → IsBound y → IsBound (record y { logs = start k y.logs })
  unfolding start
  begin-IsBound y k h = go (get y.logs.seed_tokens k)
    where
      go : (u : Option ℕ) → IsBound (record y { logs = start_with u k y.logs })
      go (some u) = h
      go none = record {
        old = omega (arith, h.old);
        kept = λ f. ground (arith, h.old, h.kept, get-put k jid y.logs.fresh y.logs.seed_tokens);
        ordered = h.ordered;
      }

  module _ (sec max_sec : ℕ) where
    Step-IsBound : {y z : System} → Step sec max_sec y z → IsBound y → IsBound z
    unfolding finish
    Step-IsBound (cycle y jobs now e) h = cycle-IsBound sec now jobs y e h
    Step-IsBound (chore y ok c rest e) h = chore-IsBound y ok c rest e h
    Step-IsBound (begin y k) h = begin-IsBound y k h
    Step-IsBound (report y k a text u) h =
        same-IsBound y _ (report-seeds k a text (some u) y.logs) h
    Step-IsBound (withdraw y k a u ok) h =
        same-IsBound y _ (unpublish-seeds k a (some u) ok y.logs) h
    Step-IsBound (publish y k a u tail fp) h =
        same-IsBound y _ (publish-seeds k a u tail fp y.logs) h
    Step-IsBound (confirm y k a u) h = same-IsBound y _ (confirm-seeds k a u y.logs) h
    Step-IsBound (delay y k u b now) h =
        same-IsBound y _ (delay-seeds sec max_sec k u b now y.logs) h
    Step-IsBound (finished y k) h = same-IsBound y _ (refl, refl, refl, refl) h

    pub Reach-IsBound : {y z : System} → Reach sec max_sec y z → IsBound y → IsBound z
    Reach-IsBound here h = h
    Reach-IsBound (next r st) h = Step-IsBound st (Reach-IsBound r h)
