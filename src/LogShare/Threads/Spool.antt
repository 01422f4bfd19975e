-- ===== src/LogShare/Threads/Spool.antt =====
-- What the sections of src/sgpu/collector.py do to the published streams, the files and the live set.
use slurm_gpu_tui.Prelude.{ℕ, ◌+◌, ◌≡◌, refl, ◌∙◌, ap, arith, Str, Bool, true, false}
use slurm_gpu_tui.Prelude.{List, [], ◌∷◌, ◌++◌, ==_iff, str_eq, ◌||◌, ◌&&◌, not, contains, any}
use slurm_gpu_tui.Prelude.{contains-append, keep}
use slurm_gpu_tui.Data.{JobInfo}
use slurm_gpu_tui.LogShare.{Suffix, suffix_eq, Dst, dst_eq, Logs}
use slurm_gpu_tui.LogShare.Seeds.{
  Seed, Cycle, take_over, seeds_of, invalid_seeds_of, live_of, invalidate,
}
use slurm_gpu_tui.LogShare.Seeds.{
  invalidate_all, plant, plant_all, known_jobs, gone_jobs, launch, Reset, due_jobs, trusted_of,
}
use slurm_gpu_tui.LogShare.Threads.{Chore, reset_chores}
use slurm_gpu_tui.LogShare.Threads.{gone_chores, chores_of}
use slurm_gpu_tui.LogShare.Threads.{is_drop, is_unlink, drops, unlinks}

-- The part of the state that the invariant reads.
abbrev pub SameSpool : Logs → Logs → Type 0
SameSpool s t = (s.published ≡ t.published) × (s.files ≡ t.files) × (s.live ≡ t.live)

pub SameSpool-trans : (s t u : Logs) → SameSpool s t → SameSpool t u → SameSpool s u
SameSpool-trans s t u h k = (h.0 ∙ k.0, h.1 ∙ k.1, h.2 ∙ k.2)

pub invalidate_all-spool : (jids : List Str) (s : Logs) → SameSpool (invalidate_all jids s) s
unfolding invalidate_all
invalidate_all-spool [] s = (refl, refl, refl)
invalidate_all-spool (jid ∷ jids) s =
    let ih = invalidate_all-spool jids (invalidate jid s) in unfold invalidate in ih

pub plant_all-spool : (seeds : List Seed) (s : Logs) → SameSpool (plant_all seeds s) s
unfolding plant_all
plant_all-spool [] s = (refl, refl, refl)
plant_all-spool (seed ∷ seeds) s =
    let ih = plant_all-spool seeds (plant seed s) in unfold plant in ih

pub launch-spool : (t : ℕ) (jids : List Str) (s : Logs) → SameSpool (launch t jids s) s
unfolding launch
launch-spool t [] s = (refl, refl, refl)
launch-spool t (jid ∷ jids) s = launch-spool t jids _

pub any-append : (p : Chore → Bool) (xs ys : List Chore) → any p (xs ++ ys) ≡ (any p xs || any p ys)
any-append p [] ys = refl
any-append p (x ∷ xs) ys = ground (arith, any-append p xs ys)

pub drops-reset : (k : Str) (rs : List Reset) → drops k (reset_chores rs) ≡ false
unfolding reset_chores
drops-reset k [] = refl
drops-reset k (r ∷ rs) = drops-reset k rs

pub unlinks-reset : (d : Dst) (rs : List Reset) → unlinks d (reset_chores rs) ≡ false
unfolding reset_chores
unlinks-reset d [] = refl
unlinks-reset d (r ∷ rs) = unlinks-reset d rs

pub drops-gone : (k : Str) (jids : List Str) → drops k (gone_chores jids) ≡ contains jids k
unfolding gone_chores
drops-gone k [] = refl
drops-gone k (jid ∷ jids) = ground (arith, drops-gone k jids)

pub unlinks-gone :
    (k : Str) (suffix : Suffix) (jids : List Str)
    → unlinks (k, suffix) (gone_chores jids) ≡ contains jids k
unfolding gone_chores
unlinks-gone k suffix [] = refl
unlinks-gone k suffix (jid ∷ jids) = ground (arith, unlinks-gone k suffix jids)

-- Exactly the jobs that are gone are dropped, and their files unlinked.
pub drops-chores : (k : Str) (c : Cycle) → drops k (chores_of c) ≡ contains c.gone k
drops-chores k c =
    any-append (is_drop k) (reset_chores c.reset_streams) (gone_chores c.gone)
    ∙ rw (drops-reset k c.reset_streams, drops-gone k c.gone)

pub unlinks-chores :
    (k : Str) (suffix : Suffix) (c : Cycle) → unlinks (k, suffix) (chores_of c) ≡ contains c.gone k
unlinks-chores k suffix c =
    any-append (is_unlink (k, suffix)) (reset_chores c.reset_streams) (gone_chores c.gone)
    ∙ rw (unlinks-reset (k, suffix) c.reset_streams, unlinks-gone k suffix c.gone)

pub contains-keep :
    (p : Str → Bool) (k : Str) (xs : List Str) → contains (keep p xs) k ≡ (contains xs k && p k)
contains-keep p k [] = refl
contains-keep p k (x ∷ xs) = ground (arith, contains-keep p k xs, ==_iff x k)

module _ (mirror_sec : ℕ) (jobs : List JobInfo) (now : ℕ) (s : Logs) where
  pub take_over-spool :
      ((take_over mirror_sec jobs now s).logs.published ≡ s.published)
      × ((take_over mirror_sec jobs now s).logs.files ≡ s.files)
      × ((take_over mirror_sec jobs now s).logs.live ≡ live_of jobs)
  unfolding take_over
  take_over-spool =
      let s1 = invalidate_all (invalid_seeds_of jobs) s in
      let s2 = plant_all (seeds_of jobs) s1 in
      let a = invalidate_all-spool (invalid_seeds_of jobs) s in
      let b = plant_all-spool (seeds_of jobs) s1 in
      let s3 = record s2 { live = live_of jobs } in
      let c = launch-spool (now + mirror_sec) (due_jobs now (trusted_of (seeds_of jobs)) s3) s3 in
      (c.0 ∙ b.0 ∙ a.0, c.1 ∙ b.1 ∙ a.1, c.2)

  pub take_over-gone :
      (k : Str)
      → (contains (take_over mirror_sec jobs now s).gone k ≡ true
          → contains (live_of jobs) k ≡ false)
        × (contains s.live k ≡ true
            → contains (live_of jobs) k ≡ false
            → contains (take_over mirror_sec jobs now s).gone k ≡ true)
  unfolding take_over gone_jobs known_jobs
  take_over-gone k =
      let s1 = invalidate_all (invalid_seeds_of jobs) s in
      let s2 = plant_all (seeds_of jobs) s1 in
      let a = invalidate_all-spool (invalid_seeds_of jobs) s in
      let b = plant_all-spool (seeds_of jobs) s1 in
      let same : s2.live ≡ s.live = b.2 ∙ a.2 in
      let live = live_of jobs in
      (
        (λ h. ground (arith, contains-keep (λ jid. not (contains live jid)) k (known_jobs s2))),
        (λ h l.
            rw
              (
                contains-keep (λ jid. not (contains live jid)) k,
                contains-append,
                contains-append,
                contains-append,
                contains-append,
                contains-append,
              )
              (ground (arith, ap (λ d. contains d k) same))),
      )
