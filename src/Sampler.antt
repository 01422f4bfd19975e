-- ===== src/Sampler.antt =====
-- `SchedulerSampler.read` of src/sgpu/collector.py: the scheduler's snapshots as the collect loop
-- sees them. What a background query gives comes from outside.
pub mod Stale
pub mod Tests
use slurm_gpu_tui.Prelude.{
  ℕ, ◌+◌, ◌-◌, Str, Bool, true, false, Option, none, some, List, [], ◌∷◌, ◌++◌,
}
use slurm_gpu_tui.Prelude.{◌==◌, str_eq, ◌&&◌, ◌||◌, not, if◌then◌else◌, ltb, leb, map}
use slurm_gpu_tui.Prelude.Int.{ℤ, pos, negsuc}
use slurm_gpu_tui.Prelude.Dict.{Dict}
use slurm_gpu_tui.Prelude.Text.{codes}
use slurm_gpu_tui.Data.{JobInfo, PendingJob, second}
use slurm_gpu_tui.NodeJobs.{assign_node_jobs}
use slurm_gpu_tui.Roster.{RawNode}

pub record Status : Type 0 where
  pub job_backend : Str
  pub observed_at : ℕ
  pub age_sec : ℤ
  pub error : Str

-- What `collect_basic` gives.
pub record Sample : Type 0 where
  pub nodes : List RawNode
  pub jobs : List JobInfo
  pub pending : List PendingJob
  pub node_jobs : Dict Str (List JobInfo)
  pub alloc : Dict Str (Dict Str Str)
  pub users : Dict Str Str
  pub status : Status
  pub error : Str

-- The query in flight: still running, done, or failed with an exception.
pub data Query : Type 0 where
  running : Query
  done : Sample → Query
  crashed : Str → Query

pub record Sampler : Type 0 where
  pub future : Option Query
  pub snapshot : Option Sample
  pub next_poll : ℕ
  pub error : Str

-- A new sample replaces the last one unless it has an error.
abbrev accept : Sample → Option Sample → Option Sample
accept result none = some result
accept result (some old) = if result.error == [] then some result else some old

module _ (scheduler_sec scheduler_max_age : ℕ) where
  abbrev finish_with : ℕ → Option Query → Sampler → Sampler
  finish_with now none s = s
  finish_with now (some running) s = s
  finish_with now (some (done result)) s = record s {
    future = none;
    next_poll = now + scheduler_sec;
    error = result.error;
    snapshot = accept result s.snapshot;
  }
  finish_with now (some (crashed exc)) s = record s {
    future = none;
    next_poll = now + scheduler_sec;
    error = codes "scheduler collect failed: " ++ exc;
  }

  unfoldable pub finish_query : ℕ → Sampler → Sampler
  finish_query now s = finish_with now s.future s

  abbrev submit_with : ℕ → Option Query → Sampler → Sampler
  submit_with now none s = if leb s.next_poll now then record s { future = some running } else s
  submit_with now (some q) s = s

  unfoldable pub submit_query : ℕ → Sampler → Sampler
  submit_query now s = submit_with now s.future s

  abbrev or_text : Str → Str → Str
  or_text s t = if s == [] then t else s

  abbrev pub initializing : Str → Sample
  initializing err =
      let error = or_text err (codes "scheduler initializing") in
      record {
        nodes = [];
        jobs = [];
        pending = [];
        node_jobs = [];
        alloc = [];
        users = [];
        status = record {
          job_backend = codes "unavailable";
          observed_at = 0;
          age_sec = negsuc (second - 1);
          error = error;
        };
        error = error;
      }

  -- `replace` makes new objects, which lack the log paths that were set on the old ones.
  abbrev pub disowned : JobInfo → JobInfo
  disowned job = record job {
    uid = negsuc 0;
    detail = [];
    log_paths = none;
    log_stderr_merged = false;
  }

  abbrev undetailed : PendingJob → PendingJob
  undetailed p = record p { detail = [] }

  -- The sample as it may still be used: without owners, allocations and details once it is stale.
  unfoldable pub usable : ℕ → Str → Sample → Sample
  usable clock err r =
      let age = clock - r.status.observed_at in
      let status = record r.status { age_sec = pos age } in
      let error = or_text err (codes "scheduler snapshot stale") in
      let jobs = map disowned r.jobs in
      if not (err == []) || ltb scheduler_max_age age
      then record {
        nodes = r.nodes;
        jobs = jobs;
        pending = map undetailed r.pending;
        node_jobs = assign_node_jobs jobs;
        alloc = [];
        users = [];
        status = record status { job_backend = codes "unavailable"; error = error };
        error = error;
      }
      else record r { status = status }

  abbrev pub view_of : ℕ → Str → Option Sample → Sample
  view_of clock err none = initializing err
  view_of clock err (some r) = usable clock err r

  -- `read`, at the monotonic time `now` and the wall clock `clock`.
  unfoldable pub read : ℕ → ℕ → Sampler → Sampler × Sample
  unfolding finish_query submit_query usable
  read now clock s =
      let s' = submit_query now (finish_query now s) in (s', view_of clock s'.error s'.snapshot)
