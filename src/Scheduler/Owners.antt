-- ===== src/Scheduler/Owners.antt =====
-- The seeds of log sharing and the scheduler query that they come from.
use slurm_gpu_tui.Prelude.{
  ℕ, Str, str_eq, nat_eq, Option, none, some, ◌⊎◌, inl, inr, List, [], ◌∷◌, ◌≡◌, ◌≢◌, refl, sym, ap,
  ◌∙◌, arith, Option-cases, Bool-cases, ◌==◌, ==_iff, map, All, All-map,
}
use slurm_gpu_tui.Prelude.Int.{pos}
use slurm_gpu_tui.Prelude.Dict.{get, get_or, or_default}
use slurm_gpu_tui.Prelude.Text.{splitlines}
use slurm_gpu_tui.Data.{JobInfo, PendingJob}
use slurm_gpu_tui.Queue.Fields.{valid_slurm_job_id}
use slurm_gpu_tui.LogShare.Seeds.{Seed, seeds_of}
use slurm_gpu_tui.Records.{Json}
use slurm_gpu_tui.Legacy.{candidates_of}
use slurm_gpu_tui.Legacy.Jobs.{Parsed, Allocated, parse_legacy_jobs}
use slurm_gpu_tui.Legacy.Safety.{IsVouched, parse_legacy_jobs-IsVouched}
use slurm_gpu_tui.Scheduler.{
  Answer, answered, failed, Answers, Backend, Outcome, collect_queue_snapshot, legacy_outcome,
  legacy_scheduler_jobs, collect_scheduler_jobs, legacy_text,
}
use slurm_gpu_tui.Scheduler.Basic.{join_job, no_paths, Memory, sample_of, collect_basic}
use slurm_gpu_tui.Scheduler.Closed.{collect_scheduler_jobs-IsClosed}

-- A seed with the uid and the paths that the query recorded of its job.
abbrev pub IsRecorded : Outcome → Seed → Type 0
IsRecorded o s =
    (uid : ℕ) × (get o.uids s.jobid ≡ some uid)
    × (s.owner_uid ≡ pos uid)
    × (s.paths ≡ (
      (get_or o.metadata s.jobid no_paths).stdout_path,
      (get_or o.metadata s.jobid no_paths).stderr_path,
    ))

seeds_of-IsRecorded :
    (o : Outcome) (jobs : List JobInfo) → All (IsRecorded o) (seeds_of (map (join_job o) jobs))
unfolding seeds_of join_job
seeds_of-IsRecorded o [] = tt
seeds_of-IsRecorded o (job ∷ jobs) =
    let rest = seeds_of-IsRecorded o jobs in
    elim (Bool-cases (valid_slurm_job_id job.jobid)) [
      | inr t ↦ rw t rest
      | inl t ↦ elim (Option-cases (get o.uids job.jobid)) [
        | inl e ↦ rw t (rw e rest)
        | inr (uid, e) ↦ rw t (rw e ((uid, e, refl, refl), rest))
      ]
    ]

-- The query gave no owner, or it is the answer of the legacy parser between the two rosters.
pub record IsParsed (a : Answers) (o : Outcome) : Type 0 where
  pub text : Str
  pub printed : a.legacy ≡ answered text
  pub parsed : Parsed
  pub settled : Allocated
  pub parses :
      parse_legacy_jobs
        (collect_queue_snapshot a.queue).anchors
        (collect_queue_snapshot a.queue_after).anchors
        text
      ≡ some (parsed, settled)
  pub uids : o.uids ≡ parsed.owner_uids
  pub metadata : o.metadata ≡ parsed.metadata

legacy_outcome-IsParsed :
    (a : Answers) (jobs : List JobInfo) (pending : List PendingJob) (reason text : Str)
    (r : Option (Parsed × Allocated))
    → a.legacy ≡ answered text
    → parse_legacy_jobs
        (collect_queue_snapshot a.queue).anchors
        (collect_queue_snapshot a.queue_after).anchors
        text
      ≡ r
    → ((legacy_outcome jobs pending reason r).uids ≡ [])
      ⊎ IsParsed a (legacy_outcome jobs pending reason r)
legacy_outcome-IsParsed a jobs pending reason text none e f = inl refl
legacy_outcome-IsParsed a jobs pending reason text (some (p, al)) e f = inr (record {
  text = text;
  printed = e;
  parsed = p;
  settled = al;
  parses = f;
  uids = refl;
  metadata = refl;
})

legacy_scheduler_jobs-IsParsed :
    (a : Answers) (answer : Answer) (jobs : List JobInfo) (pending : List PendingJob) (reason : Str)
    → a.legacy ≡ answer
    → let o =
        legacy_scheduler_jobs answer a.queue_after jobs pending
          (collect_queue_snapshot a.queue).anchors
          reason in
      (o.uids ≡ []) ⊎ IsParsed a o
unfolding legacy_scheduler_jobs
legacy_scheduler_jobs-IsParsed a (failed out) jobs pending reason e = inl refl
legacy_scheduler_jobs-IsParsed a (answered out) jobs pending reason e =
    elim (Bool-cases ((collect_queue_snapshot a.queue_after).error == [])) [
      | inr t ↦ rw t (inl refl)
      | inl t ↦ rw t (legacy_outcome-IsParsed a jobs pending reason out _ e refl)
    ]

-- A seed whose owner and paths are those of a vouched record.
pub record IsAuthorized (a : Answers) (s : Seed) : Type 0 where
  pub text : Str
  pub printed : a.legacy ≡ answered text
  pub parsed : Parsed
  pub uid : ℕ
  pub owner : s.owner_uid ≡ pos uid
  pub vouched :
      IsVouched
        (collect_queue_snapshot a.queue).anchors
        (collect_queue_snapshot a.queue_after).anchors
        (candidates_of (splitlines text))
        parsed
        s.jobid
        uid
  pub paths : s.paths ≡ (vouched.grant.log_spec.stdout_path, vouched.grant.log_spec.stderr_path)

recorded-IsAuthorized :
    (a : Answers) (o : Outcome) (s : Seed) → IsParsed a o → IsRecorded o s → IsAuthorized a s
unfolding get_or get
recorded-IsAuthorized a o s h (uid, known, owner, paths) =
    let v =
      parse_legacy_jobs-IsVouched (collect_queue_snapshot a.queue).anchors
        (collect_queue_snapshot a.queue_after).anchors h.text h.parsed h.settled h.parses s.jobid
        uid (ap (λ d. get d s.jobid) (sym h.uids) ∙ known) in
    record {
      text = h.text;
      printed = h.printed;
      parsed = h.parsed;
      uid = uid;
      owner = owner;
      vouched = v;
      paths =
          paths
          ∙ ap (λ m. ((or_default no_paths m).stdout_path, (or_default no_paths m).stderr_path))
              (ap (λ d. get d s.jobid) h.metadata ∙ v.metadata_of_grant);
    }

no_owner : (o : Outcome) (s : Seed) → o.uids ≡ [] → ¬ IsRecorded o s
unfolding get
no_owner o s e (uid, known, owner, paths) = ground (arith, ap (λ d. get d s.jobid) e)

none_recorded : (o : Outcome) (xs : List Seed) → o.uids ≡ [] → All (IsRecorded o) xs → xs ≡ []
none_recorded o [] e h = refl
none_recorded o (s ∷ xs) e (r, h) = absurd (no_owner o s e r)

authorized :
    (a : Answers) (o : Outcome) (s : Seed)
    → (o.uids ≡ []) ⊎ IsParsed a o
    → IsRecorded o s
    → IsAuthorized a s
authorized a o s (inl e) r = absurd (no_owner o s e r)
authorized a o s (inr h) r = recorded-IsAuthorized a o s h r

query-IsParsed :
    (local_time : ℕ → Option Str) (loads : Str → Str ⊎ Json) (a : Answers) (b : Backend)
    → b.backend ≡ legacy_text
    → let o = (collect_scheduler_jobs local_time loads a b).1 in (o.uids ≡ []) ⊎ IsParsed a o
unfolding collect_scheduler_jobs
query-IsParsed local_time loads a b e =
    let q = collect_queue_snapshot a.queue in
    let known = (==_iff b.backend legacy_text).1 e in
    elim (Bool-cases (q.error == [])) [
      | inr t ↦ rw t (inl refl)
      | inl t ↦ rw t (rw known (legacy_scheduler_jobs-IsParsed a a.legacy q.jobs q.pending _ refl))
    ]

module _ (local_time : ℕ → Option Str) (loads : Str → Str ⊎ Json) (mem_refresh_sec : ℕ) where
  -- Where the scheduler query of a cycle ends in an error, the cycle's jobs are no seeds of log
  -- sharing, and no card and no user is taken from it.
  pub collect_basic-no_seeds :
      (started_at now : ℕ) (nodes_answer : Answer) (answers : Answers) (mem_answer : Answer)
      (m : Memory)
      → (collect_scheduler_jobs local_time loads answers m.backend).1.error ≢ []
      → let s =
          (collect_basic local_time loads mem_refresh_sec started_at now nodes_answer answers
            mem_answer m).1 in
        (seeds_of s.jobs ≡ []) × (s.alloc ≡ []) × (s.users ≡ [])
  unfolding collect_basic sample_of
  collect_basic-no_seeds started_at now nodes_answer answers mem_answer m ne =
      let o = (collect_scheduler_jobs local_time loads answers m.backend).1 in
      elim (collect_scheduler_jobs-IsClosed local_time loads answers m.backend) [
        | inl e ↦ absurd (ne e)
        | inr (uids, users, metadata, details, alloc, backend, error) ↦ (
          none_recorded o (seeds_of (map (join_job o) o.jobs)) uids (seeds_of-IsRecorded o o.jobs),
          alloc,
          users,
        )
      ]

  -- With the text backend, each seed of log sharing has the owner and the paths of a record that the
  -- rosters before and after it vouch for.
  pub collect_basic-IsAuthorized :
      (started_at now : ℕ) (nodes_answer : Answer) (answers : Answers) (mem_answer : Answer)
      (m : Memory)
      → m.backend.backend ≡ legacy_text
      → All (IsAuthorized answers) (
          seeds_of
            (collect_basic local_time loads mem_refresh_sec started_at now nodes_answer answers
              mem_answer m).1.jobs)
  unfolding collect_basic sample_of
  collect_basic-IsAuthorized started_at now nodes_answer answers mem_answer m e =
      let o = (collect_scheduler_jobs local_time loads answers m.backend).1 in
      All-map (seeds_of (map (join_job o) o.jobs))
        (λ s r. authorized answers o s (query-IsParsed local_time loads answers m.backend e) r)
        (seeds_of-IsRecorded o o.jobs)
