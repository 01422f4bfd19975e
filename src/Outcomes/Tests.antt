-- ===== src/Outcomes/Tests.antt =====
-- A job that ends, while the outcome queue is full and after it has been emptied.
use slurm_gpu_tui.Prelude.Text.{split}
use slurm_gpu_tui.Prelude.Dict.{get}
use slurm_gpu_tui.Prelude.Dict.{get_or}
use slurm_gpu_tui.Prelude.Text.{starts_with}
use slurm_gpu_tui.Prelude.{list_beq}
use slurm_gpu_tui.Prelude.Dict.{put}
use slurm_gpu_tui.Prelude.{
  ◌+◌, ◌*◌, ◌≤◌, Str, Bool, true, false, str_eq, nat_eq, Option, none, some, [], ◌∷◌, ◌≡◌, refl,
  leb→le, All, length, map,
}
use slurm_gpu_tui.Prelude.Int.{pos}
use slurm_gpu_tui.Prelude.Dict.{has}
use slurm_gpu_tui.Prelude.Text.{codes}
use slurm_gpu_tui.Scheduler.{answered}
use slurm_gpu_tui.Outcomes.{
  Watched, OutcomeSettings, Batch, Tracker, finished_jobs, current_jobs, process_jobs,
}
use slurm_gpu_tui.Outcomes.Finished.{Message, drain_batch}
use slurm_gpu_tui.Outcomes.Conserved.{
  handed, as_count, accounted, Turn, run, IsAbsent, accounted-run,
}
use slurm_gpu_tui.Outcomes.Settles.{rounds, rounds-handed}

abbrev set : OutcomeSettings
set = record {
  job_done_users = [];
  job_fail_users = codes "*" ∷ [];
  dm_users = (codes "alice", codes "U1") ∷ [];
  queue_size = 1;
}

abbrev watched : Watched
watched = record { jobname = codes "train"; user = codes "alice"; elapsed = codes "1:00" }

abbrev batch : Batch
batch = record {
  jobs = (codes "7", watched) ∷ [];
  state_ids = codes "7" ∷ [];
  targets = set.dm_users;
  done_users = [];
  sources = (codes "7", record { owner_uid = pos 1000; paths = (codes "/o", []) }) ∷ [];
}

abbrev tracker : Tracker
tracker = record { jobs = (codes "7", watched) ∷ []; logs = []; queue = batch ∷ []; taken = [] }

abbrev cycle_full : Turn
cycle_full = record { errors = false; jobs = []; sources = []; taken = [] }

full_run : has (process_jobs set false [] [] [] tracker).jobs (codes "7") ≡ true
unfolding has process_jobs put list_beq
full_run = refl

taken_run : has (process_jobs set false [] [] (1 ∷ []) tracker).jobs (codes "7") ≡ false
unfolding has process_jobs
taken_run = refl

abbrev seen : Message → Bool × Option Str × Str
seen m = (m.failure, m.member, m.tail)

drain_run :
    map seen (
      drain_batch
        (λ path uid. some (codes "a\nb"))
        (answered (codes "7.batch|COMPLETED\n7|FAILED by 1"))
        batch)
    ≡ (true, none, []) ∷ (true, some (codes "U1"), codes "a\nb") ∷ []
unfolding drain_batch starts_with get_or get split list_beq has put
drain_run = refl

absent : All (IsAbsent set (codes "7")) (cycle_full ∷ cycle_full ∷ [])
unfolding has current_jobs
absent = (refl, (refl, tt))

accounted-run_example :
    accounted (codes "7") (run set (cycle_full ∷ cycle_full ∷ []) tracker)
    ≡ accounted (codes "7") tracker
unfolding has
accounted-run_example =
    accounted-run set (codes "7") (cycle_full ∷ cycle_full ∷ []) tracker (refl, tt) absent

few : length (finished_jobs set (current_jobs set [] []) tracker.jobs) ≤ 1 * (32 * 1)
unfolding finished_jobs has current_jobs
few = leb→le (length (finished_jobs set (current_jobs set [] []) tracker.jobs)) (1 * (32 * 1)) refl

unlisted : has (current_jobs set [] []) (codes "7") ≡ false
unfolding has current_jobs
unlisted = refl

rounds-handed_example :
    (has (rounds set 1 [] [] tracker).jobs (codes "7") ≡ false)
    × (handed (codes "7") (rounds set 1 [] [] tracker)
        ≡ handed (codes "7") tracker + as_count (has tracker.jobs (codes "7")))
unfolding has
rounds-handed_example = rounds-handed set 1 [] [] tracker refl (refl, tt) few (codes "7") unlisted
