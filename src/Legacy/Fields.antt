-- ===== src/Legacy/Fields.antt =====
-- The fields of an `scontrol -o` record: the regular expressions and the checks that
-- `_parse_legacy_jobs` of src/sgpu/common.py uses.
use slurm_gpu_tui.Prelude.{
  ℕ, Str, Bool, true, str_eq, nat_eq, Option, none, some, List, [], ◌∷◌, ◌++◌,
}
use slurm_gpu_tui.Prelude.{◌&&◌, ◌||◌, not, ◌==◌, ltb, leb, nat_beq, if◌then◌else◌, length, any}
use slurm_gpu_tui.Prelude.Dict.{or_default}
use slurm_gpu_tui.Prelude.Text.{codes, is_digit, is_space, is_alnum, isdigit, number}
use slurm_gpu_tui.Prelude.Words.{rstrip}
use slurm_gpu_tui.Prelude.Paths.{isabs, join_path, normpath}
use slurm_gpu_tui.Queue.Fields.{span, after_prefix, is_user_char}
use slurm_gpu_tui.Nodelist.Strict.{◌>>=◌}

abbrev pub is_blank : ℕ → Bool
is_blank c = nat_beq c 32 || nat_beq c 9

-- A word and the blanks before it. The first word may have none.
abbrev blank_onto : ℕ → List (Str × Str) → List (Str × Str)
blank_onto c [] = (c ∷ [], []) ∷ []
blank_onto c ((b, w) ∷ ws) = (c ∷ b, w) ∷ ws

abbrev char_onto : ℕ → List (Str × Str) → List (Str × Str)
char_onto c [] = ([], c ∷ []) ∷ []
char_onto c (([], w) ∷ ws) = ([], c ∷ w) ∷ ws
char_onto c ((d ∷ b, w) ∷ ws) = ([], c ∷ []) ∷ (d ∷ b, w) ∷ ws

unfoldable pub blank_words : Str → List (Str × Str)
blank_words [] = []
blank_words (c ∷ s) =
    let rest = blank_words s in if is_blank c then blank_onto c rest else char_onto c rest

abbrev is_alpha : ℕ → Bool
is_alpha c = (leb b'a' c && leb c b'z') || (leb b'A' c && leb c b'Z')

-- `[A-Za-z0-9_/:.-]`
abbrev is_key_char : ℕ → Bool
is_key_char c =
    is_alnum c
    || nat_beq c b'_'
    || nat_beq c b'/'
    || nat_beq c b':'
    || nat_beq c b'.'
    || nat_beq c b'-'

abbrev at_equals : Str × Str → Option (Str × Str)
at_equals (key, []) = none
at_equals (key, c ∷ value) = if nat_beq c b'=' then some (key, value) else none

-- `_LEGACY_FIELD_RE` at the start of a word: the key, and the rest of the word.
unfoldable pub field_start : Str → Option (Str × Str)
unfolding span
field_start [] = none
field_start (c ∷ w) = if is_alpha c then at_equals (span is_key_char (c ∷ w)) else none

-- The text before the first field, and the fields with their values.
abbrev field_onto : Str → Str → Option (Str × Str) → Str × List (Str × Str) → Str × List (Str × Str)
field_onto b w none (text, items) = (b ++ (w ++ text), items)
field_onto b w (some (key, value)) (text, items) = ([], (key, rstrip (value ++ text)) ∷ items)

unfoldable pub fields_of_words : List (Str × Str) → Str × List (Str × Str)
unfolding field_start
fields_of_words [] = ([], [])
fields_of_words ((b, w) ∷ ws) = field_onto b w (field_start w) (fields_of_words ws)

unfoldable pub legacy_field_items : Str → List (Str × Str)
unfolding blank_words fields_of_words
legacy_field_items line = (fields_of_words (blank_words line)).1

-- The values of a field, in order.
unfoldable pub values_of : Str → List (Str × Str) → List Str
values_of name [] = []
values_of name ((key, value) ∷ items) =
    let rest = values_of name items in if key == name then value ∷ rest else rest

-- `_legacy_one`: a field stands at most once, and once where it is required.
abbrev one_of : Bool → List Str → Option Str
one_of required [] = if required then none else some []
one_of required (v ∷ []) = some v
one_of required (v ∷ w ∷ vs) = none

unfoldable pub legacy_one : List (Str × Str) → Str → Bool → Option Str
unfolding values_of
legacy_one items name required = one_of required (values_of name items)

abbrev safe_normal : Str → Option Str
safe_normal path =
    let p = normpath path in if not (isabs p) || ltb 4096 (length p) then none else some p

-- `_legacy_safe_path`: `none` for an ambiguous path.
unfoldable pub legacy_safe_path : Str → Str → Option Str
unfolding normpath join_path
legacy_safe_path value workdir =
    if value == [] || value == codes "(null)"
    then some []
    else if ltb 4096 (length value) || any (λ ch. is_space ch || ltb ch 32) value
    then none
    else if isabs value
    then safe_normal value
    else if workdir == []
    then none
    else safe_normal (join_path workdir value)

-- `JobId=(\d+)\b` at the start of a line, with the rest.
abbrev is_word_char : ℕ → Bool
is_word_char c = is_alnum c || nat_beq c b'_'

abbrev ends_word : Str → Bool
ends_word [] = true
ends_word (c ∷ s) = not (is_word_char c)

abbrev digits_first : Option Str → Option (Str × Str)
digits_first none = none
digits_first (some s) =
    let (digits, rest) = span is_digit s in if digits == [] then none else some (digits, rest)

abbrev bounded : Option (Str × Str) → Option (Str × Str)
bounded none = none
bounded (some (digits, rest)) = if ends_word rest then some (digits, rest) else none

unfoldable pub job_id_start : Str → Option (Str × Str)
unfolding span after_prefix
job_id_start line = bounded (digits_first (after_prefix (codes "JobId=") line))

-- White space, then the prefix.
abbrev spaced_prefix : Str → Str → Option Str
spaced_prefix p s =
    let (blanks, rest) = span is_space s in if blanks == [] then none else after_prefix p rest

abbrev display_task : Str → Str
display_task task = if isdigit task then task else b'[' ∷ (task ++ (b']' ∷ []))

abbrev array_alias : Str → List Str
array_alias rest = or_default [] (
    digits_first (spaced_prefix (codes "ArrayJobId=") rest) >>= λ a.
    spaced_prefix (codes "ArrayTaskId=") a.1 >>= λ t.
    let task = (span (λ c. not (is_space c)) t).0 in
    if task == [] then none else some ((a.0 ++ (b'_' ∷ display_task task)) ∷ []))

abbrev het_alias : Str → List Str
het_alias rest = or_default [] (
    digits_first (spaced_prefix (codes "HetJobId=") rest) >>= λ a.
    digits_first (spaced_prefix (codes "HetJobOffset=") a.1) >>= λ o.
    some ((a.0 ++ (b'+' ∷ o.0)) ∷ []))

abbrev ids_after : Option (Str × Str) → List Str
ids_after none = []
ids_after (some (digits, rest)) = digits ∷ (array_alias rest ++ het_alias rest)

-- `_job_record_ids`
unfoldable pub job_record_ids : Str → List Str
unfolding job_id_start span after_prefix isdigit
job_record_ids line = ids_after (job_id_start line)

-- `([A-Za-z0-9_.@-]{1,256})\(([0-9]{1,10})\)`, all of the text
abbrev owner_uid_of : Str → Str → Option (Str × ℕ)
owner_uid_of name rest =
    let (digits, close) = span is_digit rest in
    if leb 1 (length digits) && leb (length digits) 10 && close == b')' ∷ []
    then some (name, number digits)
    else none

abbrev owner_from : Str × Str → Option (Str × ℕ)
owner_from (name, []) = none
owner_from (name, c ∷ rest) =
    if leb 1 (length name) && leb (length name) 256 && nat_beq c b'('
    then owner_uid_of name rest
    else none

unfoldable pub owner_match : Str → Option (Str × ℕ)
unfolding span number
owner_match text = owner_from (span is_user_char text)
