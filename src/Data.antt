-- ===== src/Data.antt =====
-- The data classes of src/sgpu/common.py. Times are whole numbers of ticks since an epoch.
use slurm_gpu_tui.Prelude.{ℕ, Bool, true, false, Str, List, [], Option}
use slurm_gpu_tui.Prelude.Int.{ℤ, pos, negsuc}
use slurm_gpu_tui.Prelude.Dict.{Dict}

-- One second, in ticks.
abbrev pub second : ℕ
second = 1_000_000

pub data NodeErrorKind : Type 0 where
  no_error ssh_timeout ssh_unreachable ssh_auth nvidia_smi_missing nvidia_smi_failed : NodeErrorKind
  parse_error slurm_down stale_cached unknown : NodeErrorKind

pub record GpuInfo : Type 0 where
  pub index : Str
  pub minor : Str
  pub uuid : Str
  pub pci_bus : Str
  pub slot : Str
  pub serial : Str
  pub name : Str
  pub util : Str
  pub mem_used : Str
  pub mem_total : Str
  pub temp : Str
  pub power : Str
  pub power_cap : Str
  pub ecc : Str
  pub sm_clock : Str
  pub mem_clock : Str
  pub clock_reasons : Str
  pub recovery_action : Str
  pub health_observed_at : ℕ
  pub pids : List Str
  pub users : List Str
  pub pid_mem : Dict Str Str
  pub pid_jobid : Dict Str Str
  pub alloc_jobid : Str
  pub alloc_user : Str
  pub idle_sec : ℤ
  pub parked_sec : ℤ

abbrev pub no_gpu : GpuInfo
no_gpu = record {
  index = [];
  minor = [];
  uuid = [];
  pci_bus = [];
  slot = [];
  serial = [];
  name = [];
  util = [];
  mem_used = [];
  mem_total = [];
  temp = [];
  power = [];
  power_cap = [];
  ecc = [];
  sm_clock = [];
  mem_clock = [];
  clock_reasons = [];
  recovery_action = [];
  health_observed_at = 0;
  pids = [];
  users = [];
  pid_mem = [];
  pid_jobid = [];
  alloc_jobid = [];
  alloc_user = [];
  idle_sec = pos 0;
  parked_sec = pos 0;
}

-- `telemetry` holds one bounded sample for each node; `log_paths` and `log_stderr_merged` are the
-- attributes that `collect_basic` sets beside the declared fields.
pub record JobInfo : Type 0 where
  pub jobid : Str
  pub user : Str
  pub partition : Str
  pub jobname : Str
  pub elapsed : Str
  pub node : Str
  pub gpu_count : ℕ
  pub cpu_count : ℤ
  pub gres_raw : Str
  pub time_limit : Str
  pub mem : Str
  pub script : Str
  pub log_out : Str
  pub log_err : Str
  pub detail : Str
  pub log_status : Dict Str Str
  pub uid : ℤ
  pub qos : Str
  pub telemetry : Dict Str (Dict Str ℕ)
  pub log_paths : Option (Str × Str)
  pub log_stderr_merged : Bool

abbrev pub no_job : JobInfo
no_job = record {
  jobid = [];
  user = [];
  partition = [];
  jobname = [];
  elapsed = [];
  node = [];
  gpu_count = 0;
  cpu_count = pos 0;
  gres_raw = [];
  time_limit = [];
  mem = [];
  script = [];
  log_out = [];
  log_err = [];
  detail = [];
  log_status = [];
  uid = negsuc 0;
  qos = [];
  telemetry = [];
  log_paths = Option.none;
  log_stderr_merged = false;
}

pub record PendingJob : Type 0 where
  pub jobid : Str
  pub user : Str
  pub partition : Str
  pub jobname : Str
  pub time_limit : Str
  pub gpu_count : ℕ
  pub reason : Str
  pub priority : Str
  pub start_time : Str
  pub detail : Str
  pub submit_time : Str
  pub eligible_time : Str
  pub dependency : Str
  pub qos : Str
  pub cpu_count : ℕ
  pub mem : Str

pub record NodeMemInfo : Type 0 where
  pub total : Str
  pub used : Str
  pub avail : Str
  pub pressure : Dict Str Str

pub record NodeInfo : Type 0 where
  pub name : Str
  pub state : Str
  pub partition : Str
  pub source : Str
  pub has_gpu : Bool
  pub cpus : Str
  pub cpu_alloc : Str
  pub cpu_load : Str
  pub mem_total : Str
  pub mem_free : Str
  pub mem_alloc : Str
  pub cpu_power : Str
  pub ram_power : Str
  pub sys_power : Str
  pub gres : Str
  pub gpus : List GpuInfo
  pub jobs : List JobInfo
  pub error : Str
  pub mem_used : Str
  pub mem_avail : Str
  pub stale : Bool
  pub error_kind : Str
  pub observed_at : ℕ
  pub data_age_sec : ℤ
  pub scheduler_age_sec : ℤ
  pub scheduler_mem_total : Str
  pub scheduler_available : Bool
  pub cpu_util : Str
  pub pressure : Dict Str Str
  pub telemetry_observed_at : ℕ
  pub jobs_truncated : Bool

abbrev pub no_node : NodeInfo
no_node = record {
  name = [];
  state = [];
  partition = [];
  source = [];
  has_gpu = true;
  cpus = [];
  cpu_alloc = [];
  cpu_load = [];
  mem_total = [];
  mem_free = [];
  mem_alloc = [];
  cpu_power = [];
  ram_power = [];
  sys_power = [];
  gres = [];
  gpus = [];
  jobs = [];
  error = [];
  mem_used = [];
  mem_avail = [];
  stale = false;
  error_kind = [];
  observed_at = 0;
  data_age_sec = negsuc 999_999;
  scheduler_age_sec = negsuc 999_999;
  scheduler_mem_total = [];
  scheduler_available = true;
  cpu_util = [];
  pressure = [];
  telemetry_observed_at = 0;
  jobs_truncated = false;
}
