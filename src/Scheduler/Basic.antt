-- ===== src/Scheduler/Basic.antt =====
-- `collect_basic` of src/sgpu/common.py: the nodes, the queue and the owners of one cycle.
use slurm_gpu_tui.Prelude.{
  ℕ, ◌-◌, Str, Bool, true, false, str_eq, nat_eq, Option, none, some, ◌⊎◌, List, [], ◌∷◌, ◌++◌,
}
use slurm_gpu_tui.Prelude.{◌==◌, ◌&&◌, not, if◌then◌else◌, ltb, map, keep}
use slurm_gpu_tui.Prelude.Int.{ℤ, pos, negsuc}
use slurm_gpu_tui.Prelude.Dict.{Dict, get, get_or, put, or_default}
use slurm_gpu_tui.Prelude.Text.{codes, split, splitlines, join, is_space, is_digit}
use slurm_gpu_tui.Data.{JobInfo, PendingJob}
use slurm_gpu_tui.Queue.Fields.{span, after_prefix}
use slurm_gpu_tui.NodeJobs.{assign_node_jobs}
use slurm_gpu_tui.Roster.{RawNode, collect_nodes_basic}
use slurm_gpu_tui.Sampler.{Sample}
use slurm_gpu_tui.Records.{Json}
use slurm_gpu_tui.Records.Detail.{LogMetadata, published_detail_field}
use slurm_gpu_tui.Scheduler.{
  Answer, answered, failed, Answers, Backend, Outcome, collect_scheduler_jobs,
}

abbrev nonempty : Str → Option Str
nonempty [] = none
nonempty (c ∷ s) = some (c ∷ s)

abbrev run_after : (ℕ → Bool) → Option Str → Option Str
run_after p none = none
run_after p (some rest) = nonempty (span p rest).0

abbrev or_search : Option Str → Option Str → Option Str
or_search none o = o
or_search (some s) o = some s

-- `re.search(prefix + "(class+)", line)`: the run of characters after the first prefix that has one.
unfoldable pub search_field : (ℕ → Bool) → Str → Str → Option Str
unfolding span after_prefix
search_field p prefix [] = none
search_field p prefix (c ∷ s) =
    or_search (run_after p (after_prefix prefix (c ∷ s))) (search_field p prefix s)

abbrev put_mem : Option Str → Option Str → Dict Str Str → Dict Str Str
put_mem (some name) (some mem) d = put name mem d
put_mem _ _ d = d

unfoldable pub mem_of_lines : List Str → Dict Str Str → Dict Str Str
unfolding search_field
mem_of_lines [] d = d
mem_of_lines (line ∷ lines) d = mem_of_lines lines (
    put_mem (search_field (λ c. not (is_space c)) (codes "NodeName=") line)
      (search_field is_digit (codes "AllocMem=") line) d)

-- `collect_mem_alloc`: the memory of the nodes and an error.
unfoldable pub collect_mem_alloc : Answer → Dict Str Str × Str
unfolding mem_of_lines splitlines
collect_mem_alloc (failed out) = ([], codes "scontrol node failed: " ++ out)
collect_mem_alloc (answered out) = (mem_of_lines (splitlines out) [], [])

-- `_mem_snapshot` and `_mem_snapshot_at`
pub record MemSnapshot : Type 0 where
  pub values : Dict Str Str
  pub taken_at : ℕ

abbrev is_recent : ℕ → ℕ → Option MemSnapshot → Bool
is_recent refresh now none = false
is_recent refresh now (some m) = ltb 0 refresh && ltb (now - m.taken_at) refresh

abbrev cached : Option MemSnapshot → Dict Str Str
cached none = []
cached (some m) = m.values

abbrev remember : ℕ → Dict Str Str × Str → Option MemSnapshot → Option MemSnapshot
remember now (values, error) m =
    if error == [] then some (record { values = values; taken_at = now }) else m

-- `_collect_mem_snapshot`: the answer is used only when the last one is too old.
unfoldable pub collect_mem_snapshot :
    ℕ → ℕ → Answer → Option MemSnapshot → Option MemSnapshot × (Dict Str Str × Str)
unfolding collect_mem_alloc
collect_mem_snapshot refresh now answer m =
    if is_recent refresh now m
    then (m, (cached m, []))
    else (remember now (collect_mem_alloc answer) m, collect_mem_alloc answer)

abbrev pub uid_or_none : Option ℕ → ℤ
uid_or_none none = negsuc 0
uid_or_none (some uid) = pos uid

abbrev pub no_paths : LogMetadata
no_paths = record { stdout_path = []; stderr_path = []; merged = false }

-- A user that the backend names replaces the queue's.
abbrev trusted : Str → Str → Str
trusted user named = if named == [] then user else named

unfoldable pub join_job : Outcome → JobInfo → JobInfo
unfolding published_detail_field get get_or
join_job o job =
    let detail = get_or o.details job.jobid [] in
    let spec = get_or o.metadata job.jobid no_paths in
    record job {
      detail = detail;
      jobname = published_detail_field detail (codes "JobName");
      user = trusted job.user (get_or o.users job.jobid []);
      uid = uid_or_none (get o.uids job.jobid);
      qos = published_detail_field detail (codes "QOS");
      log_paths = some (spec.stdout_path, spec.stderr_path);
      log_stderr_merged = spec.merged;
    }

abbrev first_part : List Str → Str
first_part [] = []
first_part (s ∷ parts) = s

-- `d.get(jobid, d.get(jobid.split("_", 1)[0], ""))`
unfoldable pub or_parent : Dict Str Str → Str → Str
unfolding get split
or_parent d jobid = or_default (get_or d (first_part (split b'_' jobid)) []) (get d jobid)

abbrev or_text : Str → Str → Str
or_text s t = if s == [] then t else s

unfoldable pub join_pending : Outcome → PendingJob → PendingJob
unfolding published_detail_field or_parent
join_pending o job =
    let detail = or_parent o.details job.jobid in
    record job {
      detail = detail;
      jobname = published_detail_field detail (codes "JobName");
      submit_time = or_text (published_detail_field detail (codes "SubmitTime")) job.submit_time;
      eligible_time = published_detail_field detail (codes "EligibleTime");
      dependency = published_detail_field detail (codes "Dependency");
      qos = published_detail_field detail (codes "QOS");
      user = trusted job.user (or_parent o.users job.jobid);
    }

abbrev with_mem : Dict Str Str → RawNode → RawNode
with_mem mem n = record n { mem_alloc = get_or mem n.name [] }

abbrev pub sinfo : Answer → List RawNode × Str
sinfo (answered out) = collect_nodes_basic true out
sinfo (failed out) = collect_nodes_basic false out

abbrev is_text : Str → Bool
is_text s = not (s == [])

-- The sample of a cycle that began at `started_at`. Its status has no age before it is read.
unfoldable pub sample_of : ℕ → List RawNode × Str → Outcome → Dict Str Str × Str → Sample
unfolding join_job join_pending
sample_of started_at (nodes, e1) o (mem, e5) =
    let jobs = map (join_job o) o.jobs in
    record {
      nodes = map (with_mem mem) nodes;
      jobs = jobs;
      pending = map (join_pending o) o.pending;
      node_jobs = assign_node_jobs jobs;
      alloc = o.alloc;
      users = o.users;
      status = record {
        job_backend = o.status.job_backend;
        observed_at = started_at;
        age_sec = pos 0;
        error = o.status.error;
      };
      error = join (codes " | ") (keep is_text (e1 ∷ o.error ∷ e5 ∷ []));
    }

-- What the module remembers from cycle to cycle.
pub record Memory : Type 0 where
  pub backend : Backend
  pub mem : Option MemSnapshot

module _ (local_time : ℕ → Option Str) (loads : Str → Str ⊎ Json) (mem_refresh_sec : ℕ) where
  -- `collect_basic`, at the wall clock `started_at` and the monotonic time `now`.
  unfoldable pub collect_basic : ℕ → ℕ → Answer → Answers → Answer → Memory → Memory × Sample
  unfolding collect_nodes_basic collect_scheduler_jobs collect_mem_snapshot sample_of
  collect_basic started_at now nodes_answer answers mem_answer m =
      let (backend, outcome) = collect_scheduler_jobs local_time loads answers m.backend in
      let (mem, values) = collect_mem_snapshot mem_refresh_sec now mem_answer m.mem in
      (
        record { backend = backend; mem = mem },
        sample_of started_at (sinfo nodes_answer) outcome values,
      )
