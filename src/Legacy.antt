-- ===== src/Legacy.antt =====
-- `_parse_legacy_jobs` of src/sgpu/common.py: which records of the text output of `scontrol` are
-- believed, between two rosters of the queue.
pub mod Fields
pub mod Gpus
pub mod Jobs
pub mod Safety
pub mod Claims
pub mod Cards
pub mod Acceptance
pub mod Tests
use slurm_gpu_tui.Prelude.{
  ℕ, suc, zero, ◌+◌, ◌-◌, ◌*◌, Str, Bool, true, false, str_eq, nat_eq, list_beq, Option, none, some,
  List, [], ◌∷◌, ◌++◌,
}
use slurm_gpu_tui.Prelude.{
  ◌&&◌, ◌||◌, not, ◌==◌, ltb, leb, nat_beq, if◌then◌else◌, length, all, any, take, map, contains,
  count, add, keep,
}
use slurm_gpu_tui.Prelude.Dict.{Dict, get, put, has, or_default}
use slurm_gpu_tui.Prelude.Text.{codes, join, splitlines}
use slurm_gpu_tui.Prelude.Words.{squeezed}
use slurm_gpu_tui.Queue.{QueueAnchor, running, completing}
use slurm_gpu_tui.Queue.Fields.{valid_slurm_job_id}
use slurm_gpu_tui.Records.{public_text, distinct_ids}
use slurm_gpu_tui.Records.Detail.{LogMetadata, spec_of, detail_max_chars}
use slurm_gpu_tui.Nodelist.Strict.{◌>>=◌, strict_expand_nodes}
use slurm_gpu_tui.Legacy.Fields.{
  legacy_field_items, values_of, legacy_one, legacy_safe_path, job_record_ids, owner_match,
}
use slurm_gpu_tui.Legacy.Gpus.{GpuClaim, legacy_gpu_claims}

abbrev pub public_fields : List Str
public_fields =
    codes "JobId"
    ∷ codes "ArrayJobId"
    ∷ codes "ArrayTaskId"
    ∷ codes "JobName"
    ∷ codes "UserId"
    ∷ codes "Priority"
    ∷ codes "Nice"
    ∷ codes "Account"
    ∷ codes "QOS"
    ∷ codes "JobState"
    ∷ codes "Reason"
    ∷ codes "Dependency"
    ∷ codes "Requeue"
    ∷ codes "Restarts"
    ∷ codes "BatchFlag"
    ∷ codes "ExitCode"
    ∷ codes "RunTime"
    ∷ codes "TimeLimit"
    ∷ codes "TimeMin"
    ∷ codes "SubmitTime"
    ∷ codes "EligibleTime"
    ∷ codes "AccrueTime"
    ∷ codes "StartTime"
    ∷ codes "EndTime"
    ∷ codes "Deadline"
    ∷ codes "SuspendTime"
    ∷ codes "SecsPreSuspend"
    ∷ codes "LastSchedEval"
    ∷ codes "Scheduler"
    ∷ codes "Partition"
    ∷ codes "ReqNodeList"
    ∷ codes "ExcNodeList"
    ∷ codes "NodeList"
    ∷ codes "BatchHost"
    ∷ codes "NumNodes"
    ∷ codes "NumCPUs"
    ∷ codes "NumTasks"
    ∷ codes "CPUs/Task"
    ∷ codes "ReqB:S:C:T"
    ∷ codes "ReqTRES"
    ∷ codes "AllocTRES"
    ∷ codes "Socks/Node"
    ∷ codes "NtasksPerN:B:S:C"
    ∷ codes "CoreSpec"
    ∷ codes "MinCPUsNode"
    ∷ codes "MinMemoryNode"
    ∷ codes "MinTmpDiskNode"
    ∷ codes "Features"
    ∷ codes "DelayBoot"
    ∷ codes "OverSubscribe"
    ∷ codes "Contiguous"
    ∷ codes "Licenses"
    ∷ codes "Network"
    ∷ codes "Power"
    ∷ codes "TresPerNode"
    ∷ codes "TresPerTask"
    ∷ codes "TresPerSocket"
    ∷ codes "TresPerJob"
    ∷ []

-- The identity and path fields that are not among the public ones.
abbrev private_fields : List Str
private_fields =
    codes "HetJobId" ∷ codes "HetJobOffset" ∷ codes "WorkDir" ∷ codes "StdOut" ∷ codes "StdErr" ∷ []

abbrev is_shown : Str × Str → Bool
is_shown (key, value) =
    contains public_fields key && not (value == []) && not (value == codes "(null)")

unfoldable pub legacy_public_detail : List (Str × Str) → Str
unfolding squeezed
legacy_public_detail items =
    take detail_max_chars
      (join (10 ∷ []) (map (λ e. e.0 ++ (b'=' ∷ public_text e.1)) (keep is_shown items)))

-- A record with the ids that it claims, each once.
pub record Candidate : Type 0 where
  pub line : Str
  pub ids : List Str

abbrev pub candidate_ids : Str → List Str
candidate_ids line = distinct_ids [] (keep valid_slurm_job_id (job_record_ids line))

abbrev candidate_onto : Str → List Str → List Candidate → List Candidate
candidate_onto line [] rest = rest
candidate_onto line (i ∷ ids) rest = record { line = line; ids = i ∷ ids } ∷ rest

unfoldable pub candidates_of : List Str → List Candidate
unfolding distinct_ids
candidates_of [] = []
candidates_of (line ∷ lines) = candidate_onto line (candidate_ids line) (candidates_of lines)

-- `claim_counts[jobid]`
unfoldable pub claim_count : Str → List Candidate → ℕ
claim_count k [] = 0
claim_count k (c ∷ cs) = count k c.ids + claim_count k cs

abbrev pub same_anchor : QueueAnchor → QueueAnchor → Bool
same_anchor a b =
    a.user == b.user && nat_beq a.uid b.uid && a.state == b.state && list_beq a.nodes b.nodes

abbrev both_anchor : Option QueueAnchor → Option QueueAnchor → Option QueueAnchor
both_anchor none b = none
both_anchor (some a) none = none
both_anchor (some a) (some b) = if same_anchor a b then some a else none

-- `stable.get(jobid)`
unfoldable pub stable_anchor :
    Dict Str QueueAnchor → Dict Str QueueAnchor → Str → Option QueueAnchor
stable_anchor before after k = both_anchor (get before k) (get after k)

abbrev anchor_onto : Option QueueAnchor → List QueueAnchor → List QueueAnchor
anchor_onto none rest = rest
anchor_onto (some a) rest = a ∷ rest

unfoldable pub stable_anchors :
    Dict Str QueueAnchor → Dict Str QueueAnchor → List Str → List QueueAnchor
unfolding stable_anchor
stable_anchors before after [] = []
stable_anchors before after (k ∷ ks) =
    anchor_onto (stable_anchor before after k) (stable_anchors before after ks)

-- The anchor of a record: there is one, and they are all the same.
abbrev pub one_anchor : List QueueAnchor → Option QueueAnchor
one_anchor [] = none
one_anchor (a ∷ others) = if all (λ b. same_anchor b a) others then some a else none

abbrev max_line_chars : ℕ
max_line_chars = 128 * 1024

abbrev pub max_output_chars : ℕ
max_output_chars = 32 * 1024 * 1024

abbrev repeats : List (Str × Str) → Str → Bool
repeats items name = ltb 1 (length (values_of name items))

abbrev is_active : Str → Bool
is_active state = state == running || state == completing

abbrev pub guard : {A : Type 0} → Bool → Option A → Option A
guard true o = o
guard false o = none

-- What an accepted record says. `claims` is `none` where its GPUs are not believed.
pub record Grant : Type 0 where
  pub anchor : QueueAnchor
  pub detail : Str
  pub log_spec : LogMetadata
  pub claims : Option (List GpuClaim)

-- The paths of a record.
unfoldable pub log_spec_of : List (Str × Str) → Option LogMetadata
unfolding legacy_one legacy_safe_path
log_spec_of items = legacy_one items (codes "WorkDir") false >>= λ workdir_value.
    legacy_one items (codes "StdOut") false >>= λ stdout_value.
    legacy_one items (codes "StdErr") false >>= λ stderr_value.
    legacy_safe_path workdir_value [] >>= λ workdir.
    legacy_safe_path stdout_value workdir >>= λ out.
    legacy_safe_path stderr_value workdir >>= λ err. some (spec_of out err)

abbrev pub agrees_with : QueueAnchor → Str → List Str → Str × ℕ → Bool
agrees_with anchor state nodes (user, uid) =
    user == anchor.user
    && nat_beq uid anchor.uid
    && state == anchor.state
    && list_beq nodes anchor.nodes

abbrev first_or_empty : List Str → Str
first_or_empty [] = []
first_or_empty (x ∷ xs) = x

-- What the checks read of a record.
pub record Screened : Type 0 where
  pub raw_jobid : Str
  pub state : Str
  pub log_spec : LogMetadata

-- The record against its anchor.
unfoldable pub screened_of : Candidate → QueueAnchor → Option Screened
unfolding legacy_field_items legacy_one owner_match log_spec_of
screened_of c anchor =
    let items = legacy_field_items c.line in
    guard
      (not (
        ltb max_line_chars (length c.line)
        || any (λ ch. ltb ch 32 && not (nat_beq ch 9)) c.line
        || any (repeats items) (private_fields ++ public_fields)))
      (legacy_one items (codes "JobId") true >>= λ raw_jobid.
        legacy_one items (codes "UserId") true >>= λ text_owner.
        legacy_one items (codes "JobState") true >>= λ state.
        legacy_one items (codes "NodeList") false >>= λ node_expr.
        guard (raw_jobid == first_or_empty c.ids) (
          owner_match text_owner >>= λ owner. strict_expand_nodes node_expr >>= λ nodes.
          guard (agrees_with anchor state nodes owner) (
            log_spec_of items >>= λ spec.
            some (record { raw_jobid = raw_jobid; state = state; log_spec = spec }))))

unfoldable pub grant_of : Candidate → QueueAnchor → Option Grant
unfolding screened_of legacy_field_items legacy_public_detail legacy_gpu_claims
grant_of c anchor = screened_of c anchor >>= λ r. some (record {
  anchor = anchor;
  detail = legacy_public_detail (legacy_field_items c.line);
  log_spec = r.log_spec;
  claims = if is_active r.state then legacy_gpu_claims c.line anchor.nodes r.raw_jobid else some [];
})

pub data Verdict : Type 0 where
  ignored refused : Verdict
  granted : Grant → Verdict

abbrev pub refuse_none : Option Grant → Verdict
refuse_none none = refused
refuse_none (some g) = granted g

module _ (before after : Dict Str QueueAnchor) where
  unfoldable pub judge : List Candidate → Candidate → Verdict
  unfolding grant_of stable_anchors claim_count
  judge candidates c =
      if not (any (λ k. has before k || has after k) c.ids)
      then ignored
      else if any (λ k. not (nat_beq (claim_count k candidates) 1)) c.ids
      then refused
      else refuse_none
          (one_anchor (stable_anchors before after c.ids) >>= λ anchor. grant_of c anchor)
