-- ===== src/Scheduler/Tests.antt =====
-- A cycle with the text backend, one with the JSON backend that fails, and the switch between them.
use slurm_gpu_tui.Prelude.Words.{rstrip}
use slurm_gpu_tui.Legacy.Fields.{job_record_ids}
use slurm_gpu_tui.Prelude.Dict.{put}
use slurm_gpu_tui.Prelude.Dict.{has}
use slurm_gpu_tui.Nodelist.{products}
use slurm_gpu_tui.Prelude.Text.{join}
use slurm_gpu_tui.Prelude.{list_beq}
use slurm_gpu_tui.Prelude.{
  ℕ, Str, str_eq, nat_eq, Option, none, ◌⊎◌, inl, [], ◌∷◌, ◌≡◌, ◌≢◌, refl, arith, map, All,
}
use slurm_gpu_tui.Prelude.Text.{codes}
use slurm_gpu_tui.LogShare.Seeds.{seeds_of}
use slurm_gpu_tui.Records.{Json}
use slurm_gpu_tui.Scheduler.{
  answered, failed, Answers, Backend, collect_queue_snapshot, collect_gpu_alloc,
  collect_scheduler_jobs, legacy_text,
}
use slurm_gpu_tui.Scheduler.Basic.{Memory, collect_basic}
use slurm_gpu_tui.Scheduler.Closed.{IsClosed, collect_scheduler_jobs-IsClosed}
use slurm_gpu_tui.Scheduler.Owners.{
  IsAuthorized, collect_basic-no_seeds, collect_basic-IsAuthorized,
}
use slurm_gpu_tui.Scheduler.Fallback.{IsSwitch, collect_scheduler_jobs-IsSwitch}

abbrev local_time : ℕ → Option Str
local_time n = none

abbrev loads : Str → Str ⊎ Json
loads text = inl (codes "Expecting value")

abbrev queue_text : Str
queue_text = codes "RUNNING|7|alice|1000|gpu|1:00|n1|gpu:1|2:00|8|4G|None|1|N/A"

abbrev record_text : Str
record_text = codes "JobId=7 UserId=alice(1000) JobState=RUNNING NodeList=n1 StdOut=/h/o"

abbrev answers : Answers
answers = record {
  queue = answered queue_text;
  json = failed (codes "scontrol: unrecognized option '--json'");
  legacy = answered record_text;
  queue_after = answered queue_text;
}

abbrev first_cycle : Backend
first_cycle = record { backend = codes "auto"; reason = [] }

abbrev broken : Answers
broken = record answers { json = failed (codes "timed out") }

abbrev memory : Backend → Memory
memory b = record { backend = b; mem = none }

abbrev text_backend : Backend
text_backend = record { backend = legacy_text; reason = [] }

switch_run : (collect_scheduler_jobs local_time loads answers first_cycle).0.backend ≡ legacy_text
unfolding collect_scheduler_jobs list_beq join
switch_run = refl

seeds_run :
    map
      (λ s. s.paths)
      (seeds_of
        (collect_basic local_time loads 0 5 9
          (failed [])
          answers
          (failed [])
          (memory text_backend)).1.jobs)
    ≡ (codes "/h/o", []) ∷ []
unfolding seeds_of collect_basic list_beq products has put job_record_ids rstrip join
seeds_run = refl

closed_error :
    (collect_scheduler_jobs local_time loads broken first_cycle).1.error
    ≡ codes "scontrol JSON failed: timed out"
unfolding collect_scheduler_jobs list_beq join
closed_error = refl

is_broken :
    (collect_scheduler_jobs local_time loads broken (memory first_cycle).backend).1.error ≢ []
is_broken e = ground (arith, closed_error)

collect_scheduler_jobs-IsClosed_example :
    IsClosed (collect_scheduler_jobs local_time loads broken first_cycle).1
collect_scheduler_jobs-IsClosed_example =
    collect_scheduler_jobs-IsClosed local_time loads broken first_cycle

collect_basic-no_seeds_example :
    let s =
      (collect_basic local_time loads 0 5 9
        (failed [])
        broken
        (failed [])
        (memory first_cycle)).1 in
    (seeds_of s.jobs ≡ []) × (s.alloc ≡ []) × (s.users ≡ [])
collect_basic-no_seeds_example =
    collect_basic-no_seeds local_time loads 0 5 9 (failed []) broken (failed [])
      (memory first_cycle) is_broken

collect_basic-IsAuthorized_example : All (IsAuthorized answers) (
    seeds_of
      (collect_basic local_time loads 0 5 9
        (failed [])
        answers
        (failed [])
        (memory text_backend)).1.jobs)
collect_basic-IsAuthorized_example =
    collect_basic-IsAuthorized local_time loads 0 5 9 (failed []) answers (failed [])
      (memory text_backend) refl

collect_scheduler_jobs-IsSwitch_example :
    let b' = (collect_scheduler_jobs local_time loads answers first_cycle).0 in
    (b' ≡ first_cycle)
    ⊎ (((collect_queue_snapshot answers.queue).error ≡ [])
        × (first_cycle.backend ≢ legacy_text)
        × IsSwitch (collect_gpu_alloc local_time loads answers.json).1 b')
collect_scheduler_jobs-IsSwitch_example =
    collect_scheduler_jobs-IsSwitch local_time loads answers first_cycle
