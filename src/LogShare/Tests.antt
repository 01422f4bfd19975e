-- ===== src/LogShare/Tests.antt =====
-- A job that is seeded, mirrored and gone.
use slurm_gpu_tui.Prelude.{Option, ℕ, ◌≡◌, refl, sym, Str, true, false, some, none}
use slurm_gpu_tui.Prelude.{List, [], ◌∷◌, ◌⊎◌, contains, str_eq, list_beq}
use slurm_gpu_tui.Prelude.Int.{ℤ, pos}
use slurm_gpu_tui.Prelude.Dict.{get, put, pop, has, get_or}
use slurm_gpu_tui.Prelude.Text.{codes}
use slurm_gpu_tui.Data.{JobInfo, no_job}
use slurm_gpu_tui.LogShare.{Fingerprint, suffix_eq, dst_eq, Dst, out, Logs, publish_tail}
use slurm_gpu_tui.LogShare.Seeds.{take_over}
use slurm_gpu_tui.LogShare.Mirror.{Reading, mirror_one_job_log, start, start_token}
use slurm_gpu_tui.LogShare.Threads.{
  System, initial, Step, Reach, here, next, run_chore, chores_of, reset_chores, gone_chores,
}
use slurm_gpu_tui.LogShare.Threads.{Chore, note_unlink, cycle, chore, begin, publish}
use slurm_gpu_tui.LogShare.Threads.Cleanup.{no_stale_mirror}
use slurm_gpu_tui.Queue.Fields.{valid_slurm_job_id}
use slurm_gpu_tui.LogShare.Tails.{mirrored_owned, mirror_one_job_log-tail}
use slurm_gpu_tui.LogShare.Threads.Worker.{publishes_for_recorded_owner}

abbrev jid : Str
jid = codes "9"

abbrev paths : Str × Str
paths = (codes "/home/a/o", codes "/home/a/e")

abbrev seeded : JobInfo
seeded = record no_job { jobid = jid; uid = pos 1000; log_paths = some paths }

abbrev sec : ℕ
sec = 10

abbrev after_cycle : System
after_cycle = record {
  logs = (take_over sec (seeded ∷ []) 1 initial.logs).logs;
  chores = chores_of (take_over sec (seeded ∷ []) 1 initial.logs);
  stuck = [];
}

first_cycle : Step sec 60 initial after_cycle
first_cycle = cycle initial (seeded ∷ []) 1 refl

-- The chores of a cycle, one after the other, where each unlink succeeds.
abbrev run_chores : List Chore → Logs → Logs
run_chores [] s = s
run_chores (c ∷ cs) s = run_chores cs (run_chore true c s)

abbrev run_unlinks : List Chore → List Dst → List Dst
run_unlinks [] d = d
run_unlinks (c ∷ cs) d = run_unlinks cs (note_unlink true c d)

abbrev drained : System → System
drained y = record {
  logs = run_chores y.chores y.logs;
  chores = [];
  stuck = run_unlinks y.chores y.stuck;
}

drain :
    (cs : List Chore) {x : System} (y : System)
    → y.chores ≡ cs
    → Reach sec 60 x y
    → Reach sec 60 x
        (record { logs = run_chores cs y.logs; chores = []; stuck = run_unlinks cs y.stuck })
drain [] y e r = rw (sym e) r
drain (c ∷ cs) y e r = drain cs _ refl (next r (chore y true c cs e))

abbrev seeded_state : System
seeded_state = drained after_cycle

seeded_state-Reach : Reach sec 60 initial seeded_state
seeded_state-Reach = drain after_cycle.chores after_cycle refl (next here first_cycle)

abbrev started : System
started = record seeded_state { logs = start jid seeded_state.logs }

abbrev token : ℕ
token = start_token (get seeded_state.logs.seed_tokens jid) seeded_state.logs.fresh

abbrev mirrored : System
mirrored = record started { logs = publish_tail jid out token (codes "hi") (3 ∷ []) started.logs }

mirrored-Reach : Reach sec 60 started mirrored
mirrored-Reach = next here (publish started jid out token (codes "hi") (3 ∷ []))

publishes_for_recorded_owner_example :
    (get mirrored.logs.paths jid ≡ some paths)
    × (get mirrored.logs.owner_uids jid ≡ some (pos 1000))
unfolding run_chore take_over list_beq get put pop has publish_tail start reset_chores gone_chores
    get_or
publishes_for_recorded_owner_example =
    publishes_for_recorded_owner sec 60 jid paths (pos 1000) seeded_state-Reach refl refl
      mirrored-Reach refl

-- The job leaves the queue.
abbrev emptied : System
emptied = record {
  logs = (take_over sec [] 5 mirrored.logs).logs;
  chores = chores_of (take_over sec [] 5 mirrored.logs);
  stuck = mirrored.stuck;
}

emptied-Reach : Reach sec 60 initial (drained emptied)
unfolding start
emptied-Reach = drain emptied.chores emptied refl (
    next
      (next (next seeded_state-Reach (begin seeded_state jid))
        (publish started jid out token (codes "hi") (3 ∷ [])))
      (cycle mirrored [] 5 refl))

was_mirrored : has mirrored.logs.files (jid, out) ≡ true
unfolding run_chore take_over list_beq get put pop has publish_tail start reset_chores gone_chores
    get_or
was_mirrored = refl

no_stale_mirror_example :
    (get (drained emptied).logs.published jid ≡ none)
    × ((has (drained emptied).logs.files (jid, out) ≡ false)
        ⊎ (contains (drained emptied).stuck (jid, out) ≡ true))
unfolding take_over list_beq reset_chores gone_chores publish_tail start get put get_or has
    run_chore
no_stale_mirror_example = no_stale_mirror sec 60 jid out emptied-Reach refl refl

-- A source that always has the same tail.
abbrev source : Str → ℤ → Option Fingerprint → Reading
source src uid known = record {
  tail = some (codes "hi");
  fingerprint = some (3 ∷ []);
  status = codes "mirrored";
}

mirror_one_job_log-tail_example :
    get (mirror_one_job_log source (λ j a. true) sec 60 jid 20 seeded_state.logs).files (jid, out)
    ≡ mirrored_owned source
        (λ j a. true)
        sec
        60
        jid
        out
        (get seeded_state.logs.owner_uids jid)
        (get seeded_state.logs.paths jid)
        seeded_state.logs
unfolding valid_slurm_job_id list_beq
mirror_one_job_log-tail_example =
    mirror_one_job_log-tail source (λ j a. true) sec 60 jid 20 out seeded_state.logs refl

mirror_run :
    get (mirror_one_job_log source (λ j a. true) sec 60 jid 20 seeded_state.logs).files (jid, out)
    ≡ some (codes "hi")
unfolding mirror_one_job_log run_chore take_over list_beq get put pop has reset_chores gone_chores
    get_or valid_slurm_job_id
mirror_run = refl
