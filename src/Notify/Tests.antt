-- ===== src/Notify/Tests.antt =====
-- A node that goes down, stays down past the grace time, and comes back.
use slurm_gpu_tui.Prelude.{ℕ, ◌≡◌, refl, arith, true, some}
use slurm_gpu_tui.Prelude.{List, [], ◌∷◌, str_eq, list_beq}
use slurm_gpu_tui.Prelude.Dict.{get, put, pop, get_or}
use slurm_gpu_tui.Prelude.Text.{codes, lower, has_substring}
use slurm_gpu_tui.Data.{NodeInfo, no_node}
use slurm_gpu_tui.Notify.{confirmed, ended, health, Notifier, Settings, process}
use slurm_gpu_tui.Notify.Alternation.{follow}
use slurm_gpu_tui.Notify.Sequence.{open_of, IsTimed, Snapshot, run, alerts_alternate}

abbrev settings : Settings
settings = record {
  node_health = true;
  collect_alert = true;
  down_grace_sec = 60;
  collect_grace_sec = 60;
  debounce_sec = 1800;
  nag_realert_sec = 1800;
  queue_size = 200;
}

abbrev down_node : NodeInfo
down_node = record no_node { name = codes "n1"; state = codes "down*" }

abbrev up_node : NodeInfo
up_node = record no_node { name = codes "n1"; state = codes "idle" }

abbrev cycle_at : ℕ → NodeInfo → Snapshot
cycle_at t n = record { now = t; nodes = n ∷ []; failed = []; left = [] }

abbrev history : List Snapshot
history = cycle_at 5000 down_node ∷ cycle_at 5070 down_node ∷ cycle_at 5100 up_node ∷ []

abbrev nothing_open : Notifier
nothing_open = record {
  down = record { marks = []; pending = [] };
  blind = record { marks = []; pending = [] };
  last_sent = [];
  queue = [];
  rollbacks = [];
}

nothing_open-IsTimed : IsTimed nothing_open
unfolding get
nothing_open-IsTimed = (λ k t e. cc, λ k t e. cc)

alerts_alternate_example :
    follow health
      (codes "n1")
      (open_of health (codes "n1") nothing_open)
      (run settings history nothing_open).1
    ≡ some (open_of health (codes "n1") (run settings history nothing_open).0)
alerts_alternate_example =
    alerts_alternate settings history nothing_open health (codes "n1")
      (omega arith, (omega arith, (omega arith, tt))) nothing_open-IsTimed

alerts_run :
    (run settings history nothing_open).1
    ≡ record { kind = health; name = codes "n1"; event = confirmed }
      ∷ record { kind = health; name = codes "n1"; event = ended 100 }
      ∷ []
unfolding process get put pop get_or list_beq lower has_substring
alerts_run = refl
