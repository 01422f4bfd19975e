-- ===== src/Records/Detail.antt =====
-- The public detail of a job: `_public_json_job_detail`, `_published_detail_field` and
-- `_json_job_log_spec` of src/sgpu/common.py.
use slurm_gpu_tui.Prelude.{ℕ, ◌*◌, Str, Bool, str_eq, Option, none, some, List, [], ◌∷◌, ◌++◌}
use slurm_gpu_tui.Prelude.{◌==◌, ◌&&◌, ◌||◌, not, if◌then◌else◌, take, drop, length}
use slurm_gpu_tui.Prelude.Int.{ℤ}
use slurm_gpu_tui.Prelude.Text.{codes, join, splitlines, starts_with}
use slurm_gpu_tui.Prelude.Paths.{isabs, join_path, normpath}
use slurm_gpu_tui.Records.{
  Fields, lookup, json_number, number_or_zero, is_positive, show_ℤ, public_json_scalar,
  json_wrapped_scalar, json_timestamp, json_duration_minutes, string_or_empty,
}

abbrev pub detail_max_chars : ℕ
detail_max_chars = 16 * 1024

-- The lines of a detail: a field with an empty value has none.
unfoldable pub lines_of : List (Str × Str) → List Str
lines_of [] = []
lines_of ((key, value) ∷ fields) =
    let rest = lines_of fields in if value == [] then rest else (key ++ (b'=' ∷ value)) ∷ rest

abbrev pub rendered : List (Str × Str) → Str
rendered fields = take detail_max_chars (join (10 ∷ []) (lines_of fields))

abbrev pub user_id_of : Str → Option ℤ → Str
user_id_of user none = user
user_id_of user (some uid) = if user == [] then [] else user ++ (b'(' ∷ (show_ℤ uid ++ codes ")"))

abbrev pub or_text : Str → Str → Str
or_text s t = if s == [] then t else s

abbrev pub first_id : List Str → Str
first_id [] = []
first_id (x ∷ xs) = x

module _ (local_time : ℕ → Option Str) where
  abbrev array_fields : Fields → List (Str × Str)
  array_fields r =
      let array_id = number_or_zero (json_number (lookup r (codes "array_job_id"))) in
      (codes "ArrayJobId", if is_positive array_id then show_ℤ array_id else [])
      ∷ (
        codes "ArrayTaskId",
        if is_positive array_id
            then or_text (json_wrapped_scalar (lookup r (codes "array_task_id")))
                (public_json_scalar (lookup r (codes "array_task_string")))
            else [],
      )
      ∷ []

  abbrev plain : Str → Str → Fields → Str × Str
  plain key name r = (key, public_json_scalar (lookup r name))

  abbrev wrapped : Str → Str → Fields → Str × Str
  wrapped key name r = (key, json_wrapped_scalar (lookup r name))

  abbrev stamped : Str → Str → Fields → Str × Str
  stamped key name r = (key, json_timestamp local_time (lookup r name))

  -- `fields_out`
  unfoldable pub fields_out : Fields → List Str → List (Str × Str)
  unfolding lookup json_number public_json_scalar json_wrapped_scalar json_timestamp
      json_duration_minutes show_ℤ
  fields_out r ids =
      ((codes "JobId", first_id ids) ∷ array_fields r)
      ++ (plain (codes "JobName") (codes "name") r
          ∷ (
            codes "UserId",
            user_id_of (public_json_scalar (lookup r (codes "user_name")))
                (json_number (lookup r (codes "user_id"))),
          )
          ∷ wrapped (codes "Priority") (codes "priority") r
          ∷ plain (codes "Nice") (codes "nice") r
          ∷ plain (codes "Account") (codes "account") r
          ∷ plain (codes "QOS") (codes "qos") r
          ∷ plain (codes "JobState") (codes "job_state") r
          ∷ plain (codes "Reason") (codes "state_reason") r
          ∷ plain (codes "Dependency") (codes "dependency") r
          ∷ plain (codes "Requeue") (codes "requeue") r
          ∷ plain (codes "Restarts") (codes "restart_cnt") r
          ∷ plain (codes "BatchFlag") (codes "batch_flag") r
          ∷ (codes "TimeLimit", json_duration_minutes (lookup r (codes "time_limit")))
          ∷ stamped (codes "SubmitTime") (codes "submit_time") r
          ∷ stamped (codes "EligibleTime") (codes "eligible_time") r
          ∷ stamped (codes "StartTime") (codes "start_time") r
          ∷ stamped (codes "EndTime") (codes "end_time") r
          ∷ stamped (codes "Deadline") (codes "deadline") r
          ∷ stamped (codes "SuspendTime") (codes "suspend_time") r
          ∷ stamped (codes "LastSchedEval") (codes "last_sched_evaluation") r
          ∷ plain (codes "Partition") (codes "partition") r
          ∷ plain (codes "ReqNodeList") (codes "required_nodes") r
          ∷ plain (codes "ExcNodeList") (codes "excluded_nodes") r
          ∷ plain (codes "NodeList") (codes "nodes") r
          ∷ plain (codes "BatchHost") (codes "batch_host") r
          ∷ wrapped (codes "NumNodes") (codes "node_count") r
          ∷ wrapped (codes "NumCPUs") (codes "cpus") r
          ∷ wrapped (codes "NumTasks") (codes "tasks") r
          ∷ wrapped (codes "CPUs/Task") (codes "cpus_per_task") r
          ∷ plain (codes "ReqTRES") (codes "tres_req_str") r
          ∷ plain (codes "AllocTRES") (codes "tres_alloc_str") r
          ∷ wrapped (codes "MinCPUsNode") (codes "minimum_cpus_per_node") r
          ∷ wrapped (codes "MinMemoryNode") (codes "memory_per_node") r
          ∷ wrapped (codes "MinTmpDiskNode") (codes "minimum_tmp_disk_per_node") r
          ∷ plain (codes "Features") (codes "features") r
          ∷ plain (codes "OverSubscribe") (codes "oversubscribe") r
          ∷ plain (codes "Contiguous") (codes "contiguous") r
          ∷ plain (codes "Licenses") (codes "licenses") r
          ∷ plain (codes "Network") (codes "network") r
          ∷ plain (codes "TresPerNode") (codes "tres_per_node") r
          ∷ plain (codes "TresPerTask") (codes "tres_per_task") r
          ∷ plain (codes "TresPerSocket") (codes "tres_per_socket") r
          ∷ plain (codes "TresPerJob") (codes "tres_per_job") r
          ∷ [])

  -- `_public_json_job_detail`
  unfoldable pub public_json_job_detail : Fields → List Str → Str
  unfolding fields_out lines_of
  public_json_job_detail r [] = []
  public_json_job_detail r (jobid ∷ ids) = rendered (fields_out r (jobid ∷ ids))

-- `next((line[len(prefix):] for line in lines if line.startswith(prefix)), "")`
unfoldable pub first_field : Str → List Str → Str
unfolding starts_with
first_field prefix [] = []
first_field prefix (line ∷ lines) =
    let rest = first_field prefix lines in
    if starts_with line prefix then drop (length prefix) line else rest

-- `_published_detail_field`
unfoldable pub published_detail_field : Str → Str → Str
unfolding first_field splitlines
published_detail_field detail name = first_field (name ++ codes "=") (splitlines detail)

-- Out path, err path, and whether both are one file.
pub record LogMetadata : Type 0 where
  pub stdout_path : Str
  pub stderr_path : Str
  pub merged : Bool

abbrev pub spec_of : Str → Str → LogMetadata
spec_of out err =
    let merged = not (out == []) && not (err == []) && out == err in
    record { stdout_path = out; stderr_path = if merged then [] else err; merged = merged }

abbrev path_of : Str → Str → Str
path_of workdir value =
    if value == [] || value == codes "(null)"
    then []
    else normpath
        (if not (isabs value) && not (workdir == []) then join_path workdir value else value)

-- `_json_job_log_spec`
unfoldable pub json_job_log_spec : Fields → LogMetadata
unfolding lookup normpath join_path
json_job_log_spec r =
    let workdir = string_or_empty (lookup r (codes "current_working_directory")) in
    spec_of (path_of workdir (string_or_empty (lookup r (codes "standard_output"))))
      (path_of workdir (string_or_empty (lookup r (codes "standard_error"))))
