-- ===== src/LogShare/Seeds.antt =====
-- `_share_logs` of src/sgpu/collector.py: the section that takes over the metadata of a cycle.
use slurm_gpu_tui.Prelude.{
  ℕ, suc, ◌+◌, Str, Bool, true, false, Option, none, some, List, [], ◌∷◌, ◌++◌,
}
use slurm_gpu_tui.Prelude.{
  ◌==◌, str_eq, ◌&&◌, ◌||◌, not, if◌then◌else◌, contains, add, keep, leb, map,
}
use slurm_gpu_tui.Prelude.Int.{ℤ, pos, negsuc}
use slurm_gpu_tui.Prelude.Dict.{Dict, get, put, pop, get_or, has, keys}
use slurm_gpu_tui.Prelude.Text.{codes}
use slurm_gpu_tui.Data.{JobInfo}
use slurm_gpu_tui.Queue.Fields.{valid_slurm_job_id}
use slurm_gpu_tui.LogShare.{Suffix, out, err, Logs, or_empty, suffix_eq}

pub record Seed : Type 0 where
  pub jobid : Str
  pub paths : Str × Str
  pub owner_uid : ℤ
  pub merged : Bool

abbrev pub seed_with : JobInfo → Option (Str × Str) → ℤ → Option Seed
seed_with j none uid = none
seed_with j (some p) (negsuc n) = none
seed_with j (some p) (pos n) =
    some (record { jobid = j.jobid; paths = p; owner_uid = pos n; merged = j.log_stderr_merged })

-- A row of the queue with a validated owner and path record is a seed.
unfoldable pub seeds_of : List JobInfo → List Seed
unfolding valid_slurm_job_id
seeds_of [] = []
seeds_of (j ∷ jobs) =
    let rest = seeds_of jobs in
    if valid_slurm_job_id j.jobid
    then elim (seed_with j j.log_paths j.uid) [ none ↦ rest | some seed ↦ seed ∷ rest ]
    else rest

unfoldable pub invalid_seeds_of : List JobInfo → List Str
unfolding valid_slurm_job_id
invalid_seeds_of [] = []
invalid_seeds_of (j ∷ jobs) =
    let rest = invalid_seeds_of jobs in
    if valid_slurm_job_id j.jobid
    then elim (seed_with j j.log_paths j.uid) [ none ↦ j.jobid ∷ rest | some seed ↦ rest ]
    else rest

unfoldable pub live_of : List JobInfo → List Str
unfolding valid_slurm_job_id
live_of [] = []
live_of (j ∷ jobs) =
    let rest = live_of jobs in if valid_slurm_job_id j.jobid then j.jobid ∷ rest else rest

abbrev pub unavailable : Str
unavailable = codes "metadata-unavailable"

-- A stream whose mirror has to go, with the token under which it goes.
pub record Reset : Type 0 where
  pub jobid : Str
  pub suffix : Suffix
  pub token : ℕ

abbrev resets : Str → ℕ → List Reset
resets jid t =
    record { jobid = jid; suffix = out; token = t }
    ∷ record { jobid = jid; suffix = err; token = t }
    ∷ []

-- One round of the loop over `invalid_seeds`.
unfoldable pub invalidate : Str → Logs → Logs
invalidate jid s = record s {
  unchanged = pop jid s.unchanged;
  seed_tokens = put jid s.fresh s.seed_tokens;
  paths = pop jid s.paths;
  owner_uids = pop jid s.owner_uids;
  next_check = pop jid s.next_check;
  status = put jid ((out, unavailable) ∷ (err, unavailable) ∷ []) s.status;
  fresh = suc s.fresh;
}

unfoldable pub invalidate_all : List Str → Logs → Logs
unfolding invalidate
invalidate_all [] s = s
invalidate_all (jid ∷ jids) s = invalidate_all jids (invalidate jid s)

abbrev pub uid_beq : ℤ → ℤ → Bool
uid_beq (pos a) (pos b) = slurm_gpu_tui.Prelude.nat_beq a b
uid_beq (negsuc a) (negsuc b) = slurm_gpu_tui.Prelude.nat_beq a b
uid_beq (pos a) (negsuc b) = false
uid_beq (negsuc a) (pos b) = false

abbrev pub same_paths : Str × Str → Str × Str → Bool
same_paths (a, b) (c, d) = a == c && b == d

abbrev pub same_owner : Option ℤ → ℤ → Bool
same_owner none u = false
same_owner (some v) u = uid_beq v u

-- `seed_changed`: there were paths, and they or the owner differ.
abbrev pub seed_changed : Option (Str × Str) → Option ℤ → Seed → Bool
seed_changed none owner seed = false
seed_changed (some p) owner seed =
    not (same_paths p seed.paths) || not (same_owner owner seed.owner_uid)

abbrev pub changes : Seed → Logs → Bool
changes seed s = seed_changed (get s.paths seed.jobid) (get s.owner_uids seed.jobid) seed

abbrev stream_status : Bool → Suffix → Str → Dict Suffix Str → Dict Suffix Str
stream_status missing suffix text d = if missing then put suffix text d else d

-- The tokens, the status and the metadata after one round of the loop over `seeds`.
abbrev pub fresh_token : Seed → Logs → Bool
fresh_token seed s = changes seed s || not (has s.seed_tokens seed.jobid)

unfoldable pub statuses_after : Seed → Dict Suffix Str → Dict Suffix Str
statuses_after seed d =
    stream_status (seed.paths.1 == []) err
      (if seed.merged then codes "merged" else codes "not-configured")
      (stream_status (seed.paths.0 == []) out (codes "not-configured") d)

unfoldable pub plant : Seed → Logs → Logs
unfolding statuses_after
plant seed s = record s {
  unchanged = if changes seed s then pop seed.jobid s.unchanged else s.unchanged;
  seed_tokens = if fresh_token seed s then put seed.jobid s.fresh s.seed_tokens else s.seed_tokens;
  fresh = if fresh_token seed s then suc s.fresh else s.fresh;
  paths = put seed.jobid seed.paths s.paths;
  owner_uids = put seed.jobid seed.owner_uid s.owner_uids;
  status =
      put seed.jobid
        (statuses_after seed (if changes seed s then [] else or_empty (get s.status seed.jobid)))
        s.status;
}

unfoldable pub plant_all : List Seed → Logs → Logs
unfolding plant
plant_all [] s = s
plant_all (seed ∷ seeds) s = plant_all seeds (plant seed s)

-- The streams to reset, from both loops.
unfoldable pub invalid_resets : List Str → Logs → List Reset
unfolding invalidate
invalid_resets [] s = []
invalid_resets (jid ∷ jids) s = resets jid s.fresh ++ invalid_resets jids (invalidate jid s)

unfoldable pub seed_resets : List Seed → Logs → List Reset
unfolding plant
seed_resets [] s = []
seed_resets (seed ∷ seeds) s =
    (if changes seed s then resets seed.jobid s.fresh else []) ++ seed_resets seeds (plant seed s)

-- The jobs that some variable names.
unfoldable pub known_jobs : Logs → List Str
known_jobs s =
    keys s.paths
    ++ (keys s.owner_uids ++ (keys s.published ++ (keys s.status ++ (keys s.next_check ++ s.live))))

unfoldable pub gone_jobs : List Str → Logs → List Str
unfolding known_jobs
gone_jobs live s = keep (λ jid. not (contains live jid)) (known_jobs s)

-- The seeded jobs, each once, that are due and have no worker.
unfoldable pub trusted_of : List Seed → List Str
trusted_of [] = []
trusted_of (seed ∷ seeds) = add seed.jobid (trusted_of seeds)

unfoldable pub due_jobs : ℕ → List Str → Logs → List Str
due_jobs now trusted s =
    keep (λ jid. not (contains s.inflight jid) && leb (get_or s.next_check jid 0) now) trusted

unfoldable pub launch : ℕ → List Str → Logs → Logs
launch next [] s = s
launch next (jid ∷ jids) s =
    launch next jids
      (record s { inflight = add jid s.inflight; next_check = put jid next s.next_check })

-- The whole section: the state that it leaves, and what the code after it works through.
pub record Cycle : Type 0 where
  pub logs : Logs
  pub reset_streams : List Reset
  pub gone : List Str
  pub todo : List Str

module _ (mirror_sec : ℕ) where
  unfoldable pub take_over : List JobInfo → ℕ → Logs → Cycle
  unfolding seeds_of invalid_seeds_of live_of invalidate_all plant_all invalid_resets seed_resets
      gone_jobs trusted_of due_jobs launch
  take_over jobs now s =
      let seeds = seeds_of jobs in
      let invalid = invalid_seeds_of jobs in
      let live = live_of jobs in
      let s1 = invalidate_all invalid s in
      let s2 = plant_all seeds s1 in
      let s3 = record s2 { live = live } in
      let todo = due_jobs now (trusted_of seeds) s3 in
      record {
        logs = launch (now + mirror_sec) todo s3;
        reset_streams = invalid_resets invalid s ++ seed_resets seeds s1;
        gone = gone_jobs live s2;
        todo = todo;
      }
