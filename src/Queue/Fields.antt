-- ===== src/Queue/Fields.antt =====
-- The fields of a queue row: job ids, user names, and the GPU count of a GRES value.
use slurm_gpu_tui.Prelude.{ℕ, Str, Bool, true, false, str_eq, nat_eq, ◌≡◌, refl, list_beq}
use slurm_gpu_tui.Prelude.{Option, none, some, List, [], ◌∷◌, ◌&&◌, ◌||◌, not, ◌==◌, sum, map}
use slurm_gpu_tui.Prelude.{leb, nat_beq, if◌then◌else◌, length, all}
use slurm_gpu_tui.Prelude.Text.{codes, is_digit, is_alnum, number, split}

-- The longest run of characters that satisfy the test, and the rest.
unfoldable pub span : (ℕ → Bool) → Str → Str × Str
span p [] = ([], [])
span p (c ∷ s) = let rest = span p s in if p c then (c ∷ rest.0, rest.1) else ([], c ∷ s)

abbrev pub nonempty : Str → Bool
nonempty [] = false
nonempty (c ∷ s) = true

-- `\[[0-9,:%-]+\]` after the opening bracket.
abbrev is_range_char : ℕ → Bool
is_range_char c = is_digit c || nat_beq c b',' || nat_beq c b':' || nat_beq c b'%' || nat_beq c b'-'

abbrev closes : Str × Str → Bool
closes (run, rest) = nonempty run && rest == b']' ∷ []

-- What may follow the digits of `_SLURM_JOB_ID_RE`: nothing, a task, a range of tasks, or a
-- component of a heterogeneous job.
unfoldable pub is_job_suffix : Str → Bool
unfolding span
is_job_suffix [] = true
is_job_suffix (c ∷ s) =
    if nat_beq c b'_'
    then (nonempty s && all is_digit s) || bracketed s
    else nat_beq c b'+' && nonempty s && all is_digit s
  where
    bracketed : Str → Bool
    bracketed [] = false
    bracketed (d ∷ t) = nat_beq d b'[' && closes (span is_range_char t)

unfoldable pub valid_slurm_job_id : Str → Bool
unfolding span is_job_suffix
valid_slurm_job_id value =
    leb (length value) 8192
    && nonempty (span is_digit value).0
    && is_job_suffix (span is_digit value).1

abbrev pub is_user_char : ℕ → Bool
is_user_char c = is_alnum c || nat_beq c b'_' || nat_beq c b'.' || nat_beq c b'@' || nat_beq c b'-'

-- `_QUEUE_USER_RE.fullmatch(user)`
unfoldable pub is_queue_user : Str → Bool
is_queue_user user = leb 1 (length user) && leb (length user) 256 && all is_user_char user

-- The rest after a prefix.
unfoldable pub after_prefix : Str → Str → Option Str
after_prefix [] s = some s
after_prefix (c ∷ p) [] = none
after_prefix (c ∷ p) (d ∷ s) = if nat_beq c d then after_prefix p s else none

-- `:(\d+)(?=\(|,|$)` in a piece that holds no comma.
abbrev ends_count : Str → Bool
ends_count [] = true
ends_count (c ∷ s) = nat_beq c b'('

unfoldable pub count_field : Str → Option ℕ
unfolding span
count_field [] = none
count_field (c ∷ s) =
    if nat_beq c b':' && nonempty (span is_digit s).0 && ends_count (span is_digit s).1
    then some (number (span is_digit s).0)
    else none

abbrev is_type_char : ℕ → Bool
is_type_char c = not (nat_beq c b':' || nat_beq c b',' || nat_beq c b'(' || nat_beq c b')')

-- `(?::[^:,()]+)?` is tried before the count stands alone.
unfoldable pub typed_count : Str → Option ℕ
unfolding span count_field
typed_count [] = none
typed_count (c ∷ s) =
    if nat_beq c b':' && nonempty (span is_type_char s).0
    then count_field (span is_type_char s).1
    else none

abbrev or_else : Option ℕ → Option ℕ → Option ℕ
or_else (some n) o = some n
or_else none o = o

abbrev or_same : Str → Option Str → Str
or_same s none = s
or_same s (some t) = t

unfoldable pub gres_piece : Str → ℕ
unfolding after_prefix typed_count count_field
gres_piece piece =
    elim (after_prefix (codes "gpu") (or_same piece (after_prefix (codes "gres/") piece))) [
      | none ↦ 0
      | some rest ↦ elim (or_else (typed_count rest) (count_field rest)) [ none ↦ 0 | some n ↦ n ]
    ]

-- `_gpu_count_from_gres`. A match starts at the text's start or at a comma and holds no further
-- comma, so the matches are those of the pieces.
unfoldable pub gpu_count_from_gres : Str → ℕ
unfolding gres_piece split number
gpu_count_from_gres gres = sum (map gres_piece (split b',' gres))

abbrev gres_cases : List (Str × ℕ)
gres_cases =
    (codes "gpu:2", 2)
    ∷ (codes "gpu:h100:1,gpu:a6000:2", 3)
    ∷ (codes "gres/gpu:4(S:0-1)", 4)
    ∷ (codes "gpu", 0)
    ∷ (codes "xgpu:3", 0)
    ∷ []

gpu_count_tests : map (λ c. gpu_count_from_gres c.0) gres_cases ≡ map (λ c. c.1) gres_cases
unfolding gpu_count_from_gres
gpu_count_tests = refl

job_id_tests :
    map valid_slurm_job_id (
      codes "12"
      ∷ codes "12_3"
      ∷ codes "12_[0-9%2]"
      ∷ codes "12+1"
      ∷ codes "12_"
      ∷ codes "x"
      ∷ codes ""
      ∷ [])
    ≡ true ∷ true ∷ true ∷ true ∷ false ∷ false ∷ false ∷ []
unfolding valid_slurm_job_id list_beq
job_id_tests = refl
