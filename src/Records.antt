-- ===== src/Records.antt =====
-- A job record of `scontrol --json`, as `json.loads` gives it, and the readers of its scalars:
-- `_json_number` and what follows it, of src/sgpu/common.py.
pub mod Detail
pub mod Jobs
pub mod Rendered
pub mod Scalars
pub mod Last
pub mod Tests
use slurm_gpu_tui.Prelude.{
  ℕ, suc, zero, ◌+◌, ◌-◌, ◌*◌, ◌/◌, ◌%◌, Str, Bool, true, false, str_eq, nat_eq, Option, none, some,
  List, [], ◌∷◌, ◌++◌,
}
use slurm_gpu_tui.Prelude.{
  ◌==◌, ◌&&◌, ◌||◌, not, if◌then◌else◌, ltb, nat_beq, take, keep, contains, length,
}
use slurm_gpu_tui.Prelude.Int.{ℤ, pos, negsuc}
use slurm_gpu_tui.Prelude.Dict.{or_default}
use slurm_gpu_tui.Prelude.Text.{codes, show, zfill, join}
use slurm_gpu_tui.Prelude.Words.{squeezed}
use slurm_gpu_tui.Queue.Fields.{valid_slurm_job_id}

-- A float is here by the text that Python prints it with.
mutual
  pub data Json : Type 0 where
    null : Json
    boolean : Bool → Json
    integer : ℤ → Json
    real : Str → Json
    string : Str → Json
    array : Jsons → Json
    object : Fields → Json

  pub data Jsons : Type 0 where
    no_items : Jsons
    item : Json → Jsons → Jsons

  pub data Fields : Type 0 where
    no_fields : Fields
    field : Str → Json → Fields → Fields

-- `record.get(name)`
unfoldable pub lookup : Fields → Str → Json
lookup no_fields name = null
lookup (field key value rest) name =
    let found = lookup rest name in if key == name then value else found

abbrev as_integer : Json → Option ℤ
as_integer (integer n) = some n
as_integer _ = none

-- `_json_number`
unfoldable pub json_number : Json → Option ℤ
unfolding lookup
json_number (integer n) = some n
json_number (object fs) = as_integer (lookup fs (codes "number"))
json_number _ = none

abbrev pub number_or_zero : Option ℤ → ℤ
number_or_zero none = pos 0
number_or_zero (some n) = n

unfoldable pub show_ℤ : ℤ → Str
unfolding show
show_ℤ (pos n) = show n
show_ℤ (negsuc n) = b'-' ∷ show (suc n)

abbrev pub is_positive : ℤ → Bool
is_positive (pos n) = ltb 0 n
is_positive (negsuc n) = false

abbrev pub is_true : Json → Bool
is_true (boolean b) = b
is_true _ = false

abbrev pub is_false : Json → Bool
is_false (boolean b) = not b
is_false _ = false

-- `isinstance(v, dict) and v.get(key) is True`
abbrev pub flag_is_true : Str → Json → Bool
flag_is_true key (object fs) = is_true (lookup fs key)
flag_is_true key _ = false

abbrev pub string_or_empty : Json → Str
string_or_empty (string s) = s
string_or_empty _ = []

abbrev range_alias : ℤ → Str → List Str
range_alias array_id task_string =
    let candidate = show_ℤ array_id ++ (codes "_[" ++ (task_string ++ codes "]")) in
    if valid_slurm_job_id candidate then candidate ∷ [] else []

abbrev task_alias : ℤ → Bool → Option ℤ → Str → List Str
task_alias array_id true (some n) task_string = (show_ℤ array_id ++ (b'_' ∷ show_ℤ n)) ∷ []
task_alias array_id is_set number task_string =
    if task_string == [] then [] else range_alias array_id task_string

abbrev array_ids : Fields → List Str
array_ids r =
    let array_id = number_or_zero (json_number (lookup r (codes "array_job_id"))) in
    let task_id = lookup r (codes "array_task_id") in
    if is_positive array_id
    then task_alias array_id (flag_is_true (codes "set") task_id) (json_number task_id)
        (string_or_empty (lookup r (codes "array_task_string")))
    else []

abbrev het_ids : ℤ → Option ℤ → List Str
het_ids het_id none = []
het_ids het_id (some offset) =
    if is_positive het_id then (show_ℤ het_id ++ (b'+' ∷ show_ℤ offset)) ∷ [] else []

-- `list(dict.fromkeys(ids))`, after `seen`
unfoldable pub distinct_ids : List Str → List Str → List Str
distinct_ids seen [] = []
distinct_ids seen (x ∷ xs) =
    let rest = distinct_ids (x ∷ seen) xs in if contains seen x then rest else x ∷ rest

abbrev pub ids_from : Option ℤ → Fields → List Str
ids_from none r = []
ids_from (some job_id) r =
    if is_positive job_id
    then distinct_ids [] (
        show_ℤ job_id
        ∷ (array_ids r
            ++ het_ids (number_or_zero (json_number (lookup r (codes "het_job_id"))))
                (json_number (lookup r (codes "het_job_offset")))))
    else []

-- `_json_job_ids`
unfoldable pub json_job_ids : Fields → List Str
unfolding json_number lookup show_ℤ distinct_ids
json_job_ids r = ids_from (json_number (lookup r (codes "job_id"))) r

-- The end of `_public_json_scalar`.
abbrev pub public_text : Str → Str
public_text text = take 4096 (squeezed text)

abbrev onto_parts : Str → List Str → List Str
onto_parts part parts = if part == [] then parts else part ∷ parts

unfoldable mutual
  unfolding squeezed

  -- `_public_json_scalar`
  pub public_json_scalar : Json → Str
  public_json_scalar null = []
  public_json_scalar (boolean b) = public_text (if b then codes "Yes" else codes "No")
  public_json_scalar (integer n) = public_text (show_ℤ n)
  public_json_scalar (real text) = public_text text
  public_json_scalar (string s) = public_text s
  public_json_scalar (array items) = public_text (join (codes ",") (public_parts items))
  public_json_scalar (object fs) = []

  pub public_parts : Jsons → List Str
  public_parts no_items = []
  public_parts (item v rest) = onto_parts (public_json_scalar v) (public_parts rest)

-- `_json_wrapped_scalar`
unfoldable pub json_wrapped_scalar : Json → Str
unfolding public_json_scalar
json_wrapped_scalar (object fs) =
    if is_true (lookup fs (codes "infinite"))
    then codes "UNLIMITED"
    else if is_false (lookup fs (codes "set"))
    then []
    else public_json_scalar (lookup fs (codes "number"))
json_wrapped_scalar v = public_json_scalar v

abbrev pub stamp_of : (ℕ → Option Str) → Option ℤ → Str
stamp_of local_time (some (pos (suc n))) = or_default [] (local_time (suc n))
stamp_of local_time _ = []

-- `_json_timestamp`. `local_time` is `strftime` of `localtime`, `none` where one of them fails.
unfoldable pub json_timestamp : (ℕ → Option Str) → Json → Str
unfolding json_number
json_timestamp local_time (object fs) =
    if is_false (lookup fs (codes "set")) then [] else stamp_of local_time (json_number (object fs))
json_timestamp local_time _ = []

abbrev pub two_digits : ℕ → Str
two_digits n = zfill 2 (show n)

abbrev pub days_prefix : ℕ → Str
days_prefix zero = []
days_prefix (suc d) = show (suc d) ++ codes "-"

abbrev pub clock_text : ℕ → Str
clock_text seconds =
    let rest = seconds % 86400 in
    days_prefix (seconds / 86400)
    ++ (two_digits (rest / 3600)
        ++ (b':' ∷ (two_digits (rest % 3600 / 60) ++ (b':' ∷ two_digits (rest % 3600 % 60)))))

abbrev pub minutes_text : Option ℤ → Str
minutes_text (some (pos minutes)) = clock_text (minutes * 60)
minutes_text _ = []

-- `_json_duration_minutes`
unfoldable pub json_duration_minutes : Json → Str
unfolding json_number show
json_duration_minutes v =
    if flag_is_true (codes "infinite") v then codes "UNLIMITED" else minutes_text (json_number v)
