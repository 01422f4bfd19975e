-- ===== src/Payload.antt =====
-- What a node reports: `parse_node_payload`, `shorten_gpu_name` and `_classify_error` of
-- src/sgpu/common.py. The pressures of the last section are left out.
pub mod Attribution
pub mod Tests
use slurm_gpu_tui.Prelude.{
  ℕ, zero, suc, nat_eq, Str, Bool, true, false, str_eq, Option, none, some, List, [], ◌∷◌, ◌++◌,
}
use slurm_gpu_tui.Prelude.{◌==◌, ◌&&◌, ◌||◌, not, if◌then◌else◌, contains, map, nat_beq}
use slurm_gpu_tui.Prelude.Dict.{Dict, get, get_or, put, or_default}
use slurm_gpu_tui.Prelude.Text.{
  codes, strip, split, splitlines, lower, isdigit, partition, starts_with, has_substring,
}
use slurm_gpu_tui.Prelude.Words.{words}
use slurm_gpu_tui.Prelude.Substrings.{split_text, replace_text}
use slurm_gpu_tui.Records.{distinct_ids}
use slurm_gpu_tui.Data.{
  GpuInfo, no_gpu, NodeMemInfo, NodeErrorKind, ssh_timeout, ssh_unreachable, ssh_auth,
  nvidia_smi_missing, nvidia_smi_failed, unknown,
}

unfoldable pub shorten_gpu_name : Str → Str
unfolding replace_text strip
shorten_gpu_name name = strip (
    replace_text (codes "RTX PRO 6000 Blackwell") (codes "RTX PRO 6000") (
      replace_text (codes " PCIe") [] (
        replace_text (codes " Max-Q") [] (
          replace_text (codes " Workstation Edition") [] (
            replace_text (codes " Generation") []
              (replace_text (codes "GeForce ") [] (replace_text (codes "NVIDIA ") [] name)))))))

abbrev names_timeout : Option Str → Bool
names_timeout none = false
names_timeout (some type_name) = has_substring (codes "Timeout") type_name

-- `_classify_error`, with the name of the exception's type.
unfoldable pub classify_error : Str → Option Str → NodeErrorKind
unfolding lower has_substring
classify_error error_str exc =
    let s = lower error_str in
    if names_timeout exc || has_substring (codes "timed out") s || has_substring (codes "timeout") s
    then ssh_timeout
    else if has_substring (codes "connection refused") s
        || has_substring (codes "no route to host") s
        || has_substring (codes "network is unreachable") s
    then ssh_unreachable
    else if has_substring (codes "permission denied") s || has_substring (codes "publickey") s
    then ssh_auth
    else if has_substring (codes "command not found") s && has_substring (codes "nvidia") s
    then nvidia_smi_missing
    else if has_substring (codes "nvidia-smi") s
        && (has_substring (codes "failed") s || has_substring (codes "error") s)
    then nvidia_smi_failed
    else unknown

abbrev pub nth_or_empty : List Str → ℕ → Str
nth_or_empty [] n = []
nth_or_empty (x ∷ xs) zero = x
nth_or_empty (x ∷ xs) (suc n) = nth_or_empty xs n

-- The bus id without its domain, in lower case.
abbrev bus_tail : Str → Str
bus_tail bus = lower (partition b':' bus).2

abbrev has_colon : Str → Bool
has_colon bus = contains bus b':'

-- A line "bus value".
abbrev put_bus : List Str → Dict Str Str → Dict Str Str
put_bus (bus ∷ value ∷ []) d = if has_colon bus then put (bus_tail bus) value d else d
put_bus _ d = d

unfoldable pub bus_values : List Str → Dict Str Str → Dict Str Str
unfolding words lower partition
bus_values [] d = d
bus_values (line ∷ lines) d = bus_values lines (put_bus (words line) d)

abbrev mem_of : List Str → NodeMemInfo
mem_of (total ∷ used ∷ avail ∷ more) = record {
  total = total;
  used = used;
  avail = avail;
  pressure = [];
}
mem_of _ = record { total = []; used = []; avail = []; pressure = [] }

-- The processes of the cards, and the memory of the processes.
pub record Pmon : Type 0 where
  pub gpu_pids : Dict Str (List Str)
  pub pid_fb : Dict Str Str

abbrev no_value : Str
no_value = b'-' ∷ []

abbrev put_fb : Str → List Str → Dict Str Str → Dict Str Str
put_fb pid (kind ∷ fb ∷ more) d = if fb == no_value || fb == [] then d else put pid fb d
put_fb pid _ d = d

abbrev put_process : List Str → Pmon → Pmon
put_process (gpu ∷ pid ∷ more) p = if pid == no_value then p else record {
  gpu_pids = put gpu (get_or p.gpu_pids gpu [] ++ (pid ∷ [])) p.gpu_pids;
  pid_fb = put_fb pid more p.pid_fb;
}
put_process _ p = p

unfoldable pub pmon_of : List Str → Pmon → Pmon
unfolding words strip starts_with
pmon_of [] p = p
pmon_of (line ∷ lines) p =
    pmon_of lines (if starts_with (strip line) (codes "#") then p else put_process (words line) p)

abbrev put_owner : List Str → Dict Str Str → Dict Str Str
put_owner (pid ∷ user ∷ more) d = put pid user d
put_owner _ d = d

unfoldable pub owners_of : List Str → Dict Str Str → Dict Str Str
unfolding words
owners_of [] d = d
owners_of (line ∷ lines) d = owners_of lines (put_owner (words line) d)

abbrev pub put_job : List Str → Dict Str Str → Dict Str Str
put_job (pid ∷ jobid ∷ []) d = if isdigit jobid then put pid jobid d else d
put_job _ d = d

unfoldable pub pid_jobs_of : List Str → Dict Str Str → Dict Str Str
unfolding words isdigit
pid_jobs_of [] d = d
pid_jobs_of (line ∷ lines) d = pid_jobs_of lines (put_job (words line) d)

abbrev pub known_onto : Option Str → List Str → List Str
known_onto none users = users
known_onto (some u) users = u ∷ users

-- `[d[k] for k in ks if k in d]`
unfoldable pub known_values : Dict Str Str → List Str → List Str
unfolding get
known_values d [] = []
known_values d (k ∷ ks) = known_onto (get d k) (known_values d ks)

abbrev pub put_known : Str → Option Str → Dict Str Str → Dict Str Str
put_known k none d = d
put_known k (some v) d = put k v d

-- `{k: d[k] for k in ks if k in d}`, after `acc`
unfoldable pub restricted : Dict Str Str → List Str → Dict Str Str → Dict Str Str
unfolding get
restricted d [] acc = acc
restricted d (k ∷ ks) acc = restricted d ks (put_known k (get d k) acc)

pub record Tables : Type 0 where
  pub pmon : Pmon
  pub pid_to_user : Dict Str Str
  pub pid_jobid_all : Dict Str Str
  pub bus_to_minor : Dict Str Str
  pub bus_to_slot : Dict Str Str

abbrev bus_value : Str → Dict Str Str → Str
bus_value bus d = if has_colon bus then get_or d (bus_tail bus) [] else []

-- The row of a card, with the fields after the ninth where it has them.
unfoldable pub gpu_of : Tables → List Str → Option GpuInfo
unfolding shorten_gpu_name distinct_ids known_values restricted lower partition
gpu_of t (p0 ∷ p1 ∷ p2 ∷ p3 ∷ p4 ∷ p5 ∷ p6 ∷ p7 ∷ p8 ∷ more) =
    let pids = get_or t.pmon.gpu_pids p0 [] in
    let pci_bus = nth_or_empty more 0 in
    some (record no_gpu {
      index = p0;
      minor = bus_value pci_bus t.bus_to_minor;
      uuid = p1;
      pci_bus = pci_bus;
      slot = bus_value pci_bus t.bus_to_slot;
      serial = nth_or_empty more 2;
      name = shorten_gpu_name p2;
      util = p3;
      mem_used = p4;
      mem_total = p5;
      temp = p6;
      power = p7;
      power_cap = p8;
      ecc = nth_or_empty more 1;
      sm_clock = nth_or_empty more 3;
      mem_clock = nth_or_empty more 4;
      pids = pids;
      users = distinct_ids [] (known_values t.pid_to_user pids);
      pid_mem = restricted t.pmon.pid_fb pids [];
      pid_jobid = restricted t.pid_jobid_all pids [];
    })
gpu_of t _ = none

abbrev pub gpu_onto : Option GpuInfo → List GpuInfo → List GpuInfo
gpu_onto none gpus = gpus
gpu_onto (some g) gpus = g ∷ gpus

unfoldable pub gpus_of : Tables → List Str → List GpuInfo
unfolding gpu_of
gpus_of t [] = []
gpus_of t (line ∷ lines) = gpu_onto (gpu_of t (map strip (split b',' line))) (gpus_of t lines)

-- The lines of a section, which may be missing.
abbrev pub section_lines : List Str → ℕ → List Str
section_lines sections n = splitlines (strip (nth_or_empty sections n))

unfoldable pub tables_of : List Str → Tables
unfolding pmon_of owners_of pid_jobs_of bus_values splitlines strip
tables_of sections = record {
  pmon = pmon_of (section_lines sections 1) (record { gpu_pids = []; pid_fb = [] });
  pid_to_user = owners_of (section_lines sections 3) [];
  pid_jobid_all = pid_jobs_of (section_lines sections 5) [];
  bus_to_minor = bus_values (section_lines sections 4) [];
  bus_to_slot = bus_values (section_lines sections 6) [];
}

unfoldable pub parse_node_payload : Str → List GpuInfo × NodeMemInfo
unfolding split_text tables_of gpus_of words splitlines strip
parse_node_payload text =
    let sections = split_text (codes "---SEP---") text in
    (
      gpus_of (tables_of sections) (section_lines sections 0),
      mem_of (words (strip (nth_or_empty sections 2))),
    )
