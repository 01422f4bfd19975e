-- ===== src/Roster.antt =====
-- The nodes of a snapshot: the rows of `sinfo` in `collect_nodes_basic`, and `build_nodes`, of
-- src/sgpu/common.py. The clock comes from outside.
pub mod Names
pub mod Tests
use slurm_gpu_tui.Prelude.{
  ℕ, ◌+◌, ◌-◌, ◌*◌, Str, Bool, true, false, Option, none, some, List, [], ◌∷◌, ◌++◌,
}
use slurm_gpu_tui.Prelude.{
  ◌==◌, str_eq, ◌&&◌, ◌||◌, not, if◌then◌else◌, ltb, leb, nat_beq, contains, any, map,
}
use slurm_gpu_tui.Prelude.Int.{ℤ, pos, negsuc}
use slurm_gpu_tui.Prelude.Dict.{Dict, get, get_or, or_default}
use slurm_gpu_tui.Prelude.Text.{codes, strip, split, splitlines, lower, has_substring}
use slurm_gpu_tui.Data.{
  NodeErrorKind, no_error, ssh_timeout, ssh_unreachable, ssh_auth, nvidia_smi_missing,
  nvidia_smi_failed, parse_error, slurm_down, stale_cached, unknown,
}
use slurm_gpu_tui.Data.{GpuInfo, NodeMemInfo, NodeInfo, JobInfo, no_node}

-- A row of the roster. Only the cluster's own query knows `mem_alloc`.
pub record RawNode : Type 0 where
  pub name : Str
  pub state : Str
  pub cpus : Str
  pub cpu_load : Str
  pub mem_total : Str
  pub mem_free : Str
  pub gres : Str
  pub has_gpu : Bool
  pub cpu_alloc : Str
  pub partition : Str
  pub mem_alloc : Str

-- `s.rstrip("*")`
abbrev cons_unless_star : ℕ → Str → Str
cons_unless_star c [] = if nat_beq c b'*' then [] else c ∷ []
cons_unless_star c (d ∷ s) = c ∷ d ∷ s

unfoldable pub rstrip_stars : Str → Str
rstrip_stars [] = []
rstrip_stars (c ∷ s) = cons_unless_star c (rstrip_stars s)

-- The first of at least four parts.
abbrev allocated : List Str → Str
allocated (a ∷ b ∷ c ∷ d ∷ more) = a
allocated _ = []

unfoldable pub raw_of : List Str → Option RawNode
unfolding rstrip_stars
raw_of (p0 ∷ p1 ∷ p2 ∷ p3 ∷ p4 ∷ p5 ∷ p6 ∷ p7 ∷ p8 ∷ more) = some (record {
  name = strip p0;
  state = strip p1;
  cpus = strip p2;
  cpu_load = strip p3;
  mem_total = strip p4;
  mem_free = strip p5;
  gres = strip p6;
  has_gpu = has_substring (codes "gpu") (lower (strip p6));
  cpu_alloc = allocated (split b'/' (strip p7));
  partition = rstrip_stars (strip p8);
  mem_alloc = [];
})
raw_of _ = none

-- A node stands once in the answer for each of its partitions.
unfoldable pub with_partition : Str → RawNode → RawNode
with_partition partition r =
    if partition == [] || contains (split b',' r.partition) partition then r else record r {
      partition = if r.partition == [] then partition else r.partition ++ (b',' ∷ partition);
    }

-- The row joins the row of its name, or follows the others.
unfoldable pub add_row : RawNode → List RawNode → List RawNode
unfolding with_partition
add_row r [] = r ∷ []
add_row r (q ∷ rows) =
    let rest = add_row r rows in
    if q.name == r.name then with_partition r.partition q ∷ rows else q ∷ rest

abbrev pub add_some : Option RawNode → List RawNode → List RawNode
add_some none rows = rows
add_some (some r) rows = add_row r rows

unfoldable pub rows_of_lines : List Str → List RawNode → List RawNode
unfolding raw_of add_row
rows_of_lines [] rows = rows
rows_of_lines (line ∷ lines) rows = rows_of_lines lines (add_some (raw_of (split b'|' line)) rows)

-- `collect_nodes_basic`, given what `sinfo` answers: the rows and an error.
unfoldable pub collect_nodes_basic : Bool → Str → List RawNode × Str
unfolding rows_of_lines
collect_nodes_basic ok out =
    if ok then (rows_of_lines (splitlines out) [], []) else ([], codes "sinfo failed: " ++ out)

pub record NodeSshResult : Type 0 where
  pub gpus : List GpuInfo
  pub mem : NodeMemInfo
  pub error : Str
  pub error_kind : NodeErrorKind

-- `NodeErrorKind`'s values.
abbrev pub value_of : NodeErrorKind → Str
value_of no_error = codes "ok"
value_of ssh_timeout = codes "ssh_timeout"
value_of ssh_unreachable = codes "ssh_unreachable"
value_of ssh_auth = codes "ssh_auth"
value_of nvidia_smi_missing = codes "nvidia_smi_missing"
value_of nvidia_smi_failed = codes "nvidia_smi_failed"
value_of parse_error = codes "parse_error"
value_of slurm_down = codes "slurm_down"
value_of stale_cached = codes "stale_cached"
value_of unknown = codes "unknown"

abbrev no_result : NodeSshResult
no_result = record {
  gpus = [];
  mem = record { total = []; used = []; avail = []; pressure = [] };
  error = [];
  error_kind = no_error;
}

abbrev kind_of : Option NodeSshResult → Str
kind_of none = []
kind_of (some r) = value_of r.error_kind

abbrev is_some {ℓ} : {A : Type ℓ} → Option A → Bool
is_some none = false
is_some (some a) = true

-- `age_sec` and `job_backend` of the scheduler's status, where they are given.
module _ (age_sec : ℤ) (job_backend : Option Str) (scheduler_error : Str) (now : ℕ) where
  abbrev names_unavailable : Option Str → Bool
  names_unavailable none = false
  names_unavailable (some b) = b == codes "unavailable"

  unfoldable pub build_node :
      Dict Str (List JobInfo) → Dict Str NodeSshResult → List Str → RawNode → NodeInfo
  build_node node_jobs ssh_results stale_nodes n =
      let found = get ssh_results n.name in
      let r = or_default no_result found in
      let stale = contains stale_nodes n.name in
      let fresh = is_some found && not stale && (r.error == []) in
      record no_node {
        name = n.name;
        state = n.state;
        partition = n.partition;
        source = if stale then codes "stale" else codes "ssh";
        has_gpu = n.has_gpu;
        cpus = n.cpus;
        cpu_alloc = n.cpu_alloc;
        cpu_load = n.cpu_load;
        mem_total = n.mem_total;
        mem_free = n.mem_free;
        mem_alloc = n.mem_alloc;
        gres = n.gres;
        gpus = r.gpus;
        jobs = get_or node_jobs n.name [];
        error = r.error;
        mem_used = r.mem.used;
        mem_avail = r.mem.avail;
        stale = stale;
        error_kind = kind_of found;
        observed_at = if fresh then now else 0;
        data_age_sec = if fresh then pos 0 else negsuc 999_999;
        scheduler_age_sec = age_sec;
        scheduler_available = (scheduler_error == []) && not (names_unavailable job_backend);
        scheduler_mem_total = n.mem_total;
        pressure = if stale then [] else r.mem.pressure;
        telemetry_observed_at = if fresh then now else 0;
      }

  unfoldable pub build_nodes :
      List RawNode → Dict Str (List JobInfo) → Dict Str NodeSshResult → List Str → List NodeInfo
  unfolding build_node
  build_nodes nodes_raw node_jobs ssh_results stale_nodes =
      map (build_node node_jobs ssh_results stale_nodes) nodes_raw
