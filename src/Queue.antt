-- ===== src/Queue.antt =====
-- The rows of `squeue`: `_parse_queue_output` and what it calls, of src/sgpu/common.py.
pub mod Fields
pub mod Anchors
pub mod Safety
pub mod Tests
use slurm_gpu_tui.Prelude.{ℕ, suc, ◌+◌, ◌-◌, ◌^◌, Str, Bool, true, false, str_eq, nat_eq}
use slurm_gpu_tui.Prelude.{Option, none, some, List, [], ◌∷◌, ◌++◌, ◌&&◌, ◌||◌, not, ◌==◌}
use slurm_gpu_tui.Prelude.{ltb, leb, nat_beq, if◌then◌else◌, length}
use slurm_gpu_tui.Prelude.Int.{ℤ, pos}
use slurm_gpu_tui.Prelude.Dict.{Dict, get, put, has}
use slurm_gpu_tui.Prelude.Text.{codes, strip, split, upper, isdigit, number, splitlines, int}
use slurm_gpu_tui.Data.{JobInfo, no_job, PendingJob}
use slurm_gpu_tui.Nodelist.Strict.{strict_expand_nodes}
use slurm_gpu_tui.Queue.Fields.{valid_slurm_job_id, is_queue_user, gpu_count_from_gres}

pub record QueueAnchor : Type 0 where
  pub user : Str
  pub uid : ℕ
  pub state : Str
  pub nodes : List Str

-- A line's fields. The last one is there in rows of 15 fields.
pub record Row : Type 0 where
  pub state : Str
  pub jobid : Str
  pub user : Str
  pub uid_text : Str
  pub partition : Str
  pub elapsed : Str
  pub node : Str
  pub gres : Str
  pub time_limit : Str
  pub cpus : Str
  pub mem : Str
  pub reason : Str
  pub priority : Str
  pub start_time : Str
  pub submit_time : Option Str

-- `p = line.split("|")`, kept if it has 14 or 15 fields.
unfoldable pub row_of : List Str → Option Row
row_of (a ∷ b ∷ c ∷ d ∷ e ∷ f ∷ g ∷ h ∷ i ∷ j ∷ k ∷ l ∷ m ∷ n ∷ []) = some (record {
  state = a;
  jobid = b;
  user = c;
  uid_text = d;
  partition = e;
  elapsed = f;
  node = g;
  gres = h;
  time_limit = i;
  cpus = j;
  mem = k;
  reason = l;
  priority = m;
  start_time = n;
  submit_time = none;
})
row_of (a ∷ b ∷ c ∷ d ∷ e ∷ f ∷ g ∷ h ∷ i ∷ j ∷ k ∷ l ∷ m ∷ n ∷ o ∷ []) = some (record {
  state = a;
  jobid = b;
  user = c;
  uid_text = d;
  partition = e;
  elapsed = f;
  node = g;
  gres = h;
  time_limit = i;
  cpus = j;
  mem = k;
  reason = l;
  priority = m;
  start_time = n;
  submit_time = some o;
})
row_of _ = none

abbrev pub running : Str
running = codes "RUNNING"

abbrev pub pending : Str
pending = codes "PENDING"

abbrev pub completing : Str
completing = codes "COMPLETING"

abbrev is_nil {ℓ} : {A : Type ℓ} → List A → Bool
is_nil [] = true
is_nil (x ∷ xs) = false

abbrev when {ℓ} : {A : Type ℓ} → Bool → Option A → Option A
when true o = o
when false o = none

-- The nodes of the row's placement, if they are acceptable for its state.
unfoldable pub placement : Str → Str → Option (List Str)
unfolding strict_expand_nodes strip
placement state node =
    if state == pending then some [] else elim (strict_expand_nodes (strip node)) [
      | none ↦ none
      | some nodes ↦ when (not (is_nil nodes)) (some nodes)
    ]

-- The tests at the head of the loop: `none` is `continue`.
unfoldable pub identity : Row → Option (Str × QueueAnchor)
unfolding placement upper strip valid_slurm_job_id is_queue_user isdigit number
identity r =
    let state = upper (strip r.state) in
    let jobid = strip r.jobid in
    let user = strip r.user in
    let uid_text = strip r.uid_text in
    when
      ((state == running || state == pending || state == completing)
        && valid_slurm_job_id jobid
        && is_queue_user user
        && isdigit uid_text
        && not (ltb (2 ^ 32 - 1) (number uid_text)))
      (elim (placement state r.node) [
        | none ↦ none
        | some nodes ↦
            some
              (jobid, record { user = user; uid = number uid_text; state = state; nodes = nodes })
      ])

unfoldable pub running_job : Str → QueueAnchor → Row → JobInfo
unfolding gpu_count_from_gres int strip
running_job jobid anchor r = record no_job {
  jobid = jobid;
  user = anchor.user;
  uid = pos anchor.uid;
  partition = strip r.partition;
  elapsed = strip r.elapsed;
  node = strip r.node;
  gpu_count = gpu_count_from_gres (strip r.gres);
  cpu_count = elim (int (strip r.cpus)) [ none ↦ pos 0 | some n ↦ n ];
  gres_raw = strip r.gres;
  time_limit = strip r.time_limit;
  mem = strip r.mem;
}

unfoldable pub pending_job : Str → QueueAnchor → Row → PendingJob
unfolding gpu_count_from_gres strip isdigit number
pending_job jobid anchor r = record {
  jobid = jobid;
  user = anchor.user;
  partition = strip r.partition;
  jobname = [];
  time_limit = strip r.time_limit;
  gpu_count = gpu_count_from_gres (strip r.gres);
  reason = strip r.reason;
  priority = strip r.priority;
  start_time = strip r.start_time;
  detail = [];
  submit_time = elim r.submit_time [ none ↦ [] | some t ↦ strip t ];
  eligible_time = [];
  dependency = [];
  qos = [];
  cpu_count = if isdigit (strip r.cpus) && ltb (length r.cpus) 12 then number (strip r.cpus) else 0;
  mem = strip r.mem;
}

-- What the loop has gathered.
pub record Gathered : Type 0 where
  pub anchors_seen : Dict Str (List QueueAnchor)
  pub job_rows : List (Str × JobInfo)
  pub pending_rows : List (Str × PendingJob)

abbrev pub nothing : Gathered
nothing = record { anchors_seen = []; job_rows = []; pending_rows = [] }

abbrev pub or_nil {ℓ} : {A : Type ℓ} → Option (List A) → List A
or_nil none = []
or_nil (some xs) = xs

-- `anchors_seen[jobid].append(anchor)`, on a `defaultdict(list)`
unfoldable pub see : Str → QueueAnchor → Dict Str (List QueueAnchor) → Dict Str (List QueueAnchor)
see jobid anchor d = put jobid (or_nil (get d jobid) ++ (anchor ∷ [])) d

-- The row of a running or pending job is kept, the anchor of every accepted row is.
unfoldable pub gather_claim : Str → QueueAnchor → Row → Gathered → Gathered
unfolding see running_job pending_job
gather_claim jobid anchor r g =
    let seen = see jobid anchor g.anchors_seen in
    if anchor.state == running
    then record g {
      anchors_seen = seen;
      job_rows = g.job_rows ++ ((jobid, running_job jobid anchor r) ∷ []);
    }
    else if anchor.state == pending
    then record g {
      anchors_seen = seen;
      pending_rows = g.pending_rows ++ ((jobid, pending_job jobid anchor r) ∷ []);
    }
    else record g { anchors_seen = seen }

-- `continue` leaves what was gathered.
abbrev pub gather_identified : Option (Str × QueueAnchor) → Row → Gathered → Gathered
gather_identified none r g = g
gather_identified (some (jobid, anchor)) r g = gather_claim jobid anchor r g

abbrev pub gather_row : Option Row → Gathered → Gathered
gather_row none g = g
gather_row (some r) g = gather_identified (identity r) r g

unfoldable pub gather : List Str → Gathered → Gathered
unfolding gather_claim identity row_of split
gather [] g = g
gather (line ∷ lines) g = gather lines (gather_row (row_of (split b'|' line)) g)

-- `{jobid: values[0] for jobid, values in anchors_seen.items() if len(values) == 1}`
unfoldable pub sole_anchors : Dict Str (List QueueAnchor) → Dict Str QueueAnchor
sole_anchors [] = []
sole_anchors ((jobid, a ∷ []) ∷ d) = (jobid, a) ∷ sole_anchors d
sole_anchors ((jobid, _) ∷ d) = sole_anchors d

unfoldable pub anchored {ℓ} : {A : Type ℓ} → Dict Str QueueAnchor → List (Str × A) → List A
anchored anchors [] = []
anchored anchors ((jobid, job) ∷ rows) =
    let rest = anchored anchors rows in if has anchors jobid then job ∷ rest else rest

pub record Queue : Type 0 where
  pub jobs : List JobInfo
  pub pending_jobs : List PendingJob
  pub anchors : Dict Str QueueAnchor

unfoldable pub parse_queue_output : Str → Queue
unfolding gather sole_anchors anchored splitlines
parse_queue_output out =
    let g = gather (splitlines out) nothing in
    let anchors = sole_anchors g.anchors_seen in
    record {
      jobs = anchored anchors g.job_rows;
      pending_jobs = anchored anchors g.pending_rows;
      anchors = anchors;
    }
