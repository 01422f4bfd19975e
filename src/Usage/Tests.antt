-- ===== src/Usage/Tests.antt =====
-- A day with one busy card and one idle card, and a job over midnight.
use slurm_gpu_tui.Prelude.{ℕ, ◌+◌, ◌-◌, ◌*◌, ◌/◌, ◌<◌, ◌≡◌, refl, arith, Str, false, none, some}
use slurm_gpu_tui.Prelude.{List, [], ◌∷◌, str_eq, list_beq, map}
use slurm_gpu_tui.Prelude.Dict.{get, get_or}
use slurm_gpu_tui.Prelude.Text.{codes, show, split, number}
use slurm_gpu_tui.Queue.Fields.{span, after_prefix}
use slurm_gpu_tui.Data.{GpuInfo, NodeInfo, no_gpu, no_node, second}
use slurm_gpu_tui.Usage.{Usage, Ledger, accumulate_usage}
use slurm_gpu_tui.Usage.Balance.{IsBalanced, accumulate_usage-IsBalanced}
use slurm_gpu_tui.Usage.Bounds.{IsSane, accumulate_usage-IsSane}
use slurm_gpu_tui.Usage.Sacct.{day_end, segments, job_segments, gpu_count_from_tres}
use slurm_gpu_tui.Usage.Days.{lasting, job_segments-total, segments-stuck}

abbrev busy_card : GpuInfo
busy_card = record no_gpu { alloc_user = codes "ann"; util = codes "97" }

abbrev idle_card : GpuInfo
idle_card = record no_gpu { users = codes "bob" ∷ []; util = codes "0" }

abbrev node : NodeInfo
node = record no_node { name = codes "n1"; gpus = busy_card ∷ idle_card ∷ no_gpu ∷ [] }

abbrev no_usage : Usage
no_usage = record { days = []; meta = []; telemetry = []; sacct_days = []; sacct_ts = none }

abbrev ledger : Ledger
ledger = record {
  usage = no_usage;
  last_usage_ts = some 100;
  usage_dirty = false;
  usage_last_save = 0;
  usage_file = none;
  sacct_inflight = false;
  sacct_last_attempt = 0;
  sacct_failures = 0;
}

abbrev today : Str
today = codes "2025-03-02"

abbrev cutoff : Str
cutoff = codes "2025-02-01"

no_usage-IsBalanced : IsBalanced no_usage
unfolding get get_or
no_usage-IsBalanced k = refl

no_usage-IsSane : IsSane no_usage
unfolding get get_or
no_usage-IsSane day user a e = cc

accumulate_usage-IsBalanced_example :
    IsBalanced (accumulate_usage 600 today cutoff (node ∷ []) 103 ledger).usage
accumulate_usage-IsBalanced_example =
    accumulate_usage-IsBalanced 600 today cutoff (node ∷ []) 103 ledger no_usage-IsBalanced

accumulate_usage-IsSane_example :
    IsSane (accumulate_usage 600 today cutoff (node ∷ []) 103 ledger).usage
accumulate_usage-IsSane_example =
    accumulate_usage-IsSane 600 today cutoff (node ∷ []) 103 ledger no_usage-IsSane

-- A clock without changes of its offset, and days named by their number.
abbrev day : ℕ
day = 86_400 * second

abbrev midnight : ℕ → ℕ
midnight t = (t / day) * day

abbrev day_key : ℕ → Str
day_key t = show (t / day)

midnight-ahead : (t : ℕ) → t < day_end midnight day_key t
midnight-ahead t = omega arith

job_segments-total_example :
    (segs : List (Str × ℕ)) × (job_segments midnight day_key 86_399_000_000 86_402_000_000
      ≡ some segs)
    × (lasting segs ≡ 86_402_000_000 - 86_399_000_000)
job_segments-total_example =
    job_segments-total midnight day_key midnight-ahead 86_399_000_000 86_402_000_000

-- A day of 25 hours: its last hour has the same midnight as the rest.
abbrev long_midnight : ℕ → ℕ
long_midnight t = 0

segments-stuck_example : segments long_midnight day_key 1000 day (day + 5) ≡ none
segments-stuck_example = segments-stuck long_midnight day_key 1000 day (day + 5) refl (omega arith)

tres_run :
    map gpu_count_from_tres
      (codes "cpu=4,gres/gpu=2,gres/gpu:a=1" ∷ codes "gres/gpu:a=1,gres/gpu:b=3" ∷ [])
    ≡ 2 ∷ 4 ∷ []
unfolding gpu_count_from_tres list_beq split after_prefix span number
tres_run = refl
