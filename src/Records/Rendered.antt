-- ===== src/Records/Rendered.antt =====
-- A field of a detail is read back as it was written.
use slurm_gpu_tui.Prelude.{ℕ, suc, ◌≤◌, Str, Bool, true, str_eq, List, [], ◌∷◌, ◌++◌}
use slurm_gpu_tui.Prelude.{
  ◌≡◌, refl, ap, ◌∙◌, arith, ==_iff, list_beq, nat_beq, all, All, length, length-append, zero, take,
  drop, ◌==◌, ◌&&◌, not, if◌then◌else◌,
}
use slurm_gpu_tui.Prelude.Text.{is_break, join, splitlines, starts_with}
use slurm_gpu_tui.Prelude.Breaks.{breakless, IsLine, splitlines-join, all-append}
use slurm_gpu_tui.Records.Detail.{
  detail_max_chars, lines_of, rendered, first_field, published_detail_field,
}

-- A key without an equals sign or a break, and a value without a break.
abbrev pub no_equals : Str → Bool
no_equals = all (λ c. not (nat_beq c b'='))

abbrev pub is_plain : Str × Str → Bool
is_plain (key, value) = no_equals key && breakless key && breakless value

-- The value of the first field of that name that is not empty.
unfoldable pub field_value : Str → List (Str × Str) → Str
field_value name [] = []
field_value name ((key, value) ∷ rows) =
    let rest = field_value name rows in if key == name && not (value == []) then value else rest

starts_with-key :
    (key name value : Str)
    → no_equals key ≡ true
    → no_equals name ≡ true
    → starts_with (key ++ (b'=' ∷ value)) (name ++ (b'=' ∷ [])) ≡ (key == name)
unfolding starts_with list_beq
starts_with-key [] [] value h g = refl
starts_with-key [] (c ∷ name) value h g = ground arith
starts_with-key (c ∷ key) [] value h g = ground arith
starts_with-key (c ∷ key) (d ∷ name) value h g = ground (arith, starts_with-key key name value)

drop-key : (name value : Str) → drop (length (name ++ (b'=' ∷ []))) (name ++ (b'=' ∷ value)) ≡ value
drop-key [] value = refl
drop-key (c ∷ name) value = drop-key name value

first_field-lines_of :
    (name : Str) (rows : List (Str × Str))
    → no_equals name ≡ true
    → all is_plain rows ≡ true
    → first_field (name ++ (b'=' ∷ [])) (lines_of rows) ≡ field_value name rows
unfolding first_field lines_of field_value
first_field-lines_of name [] g h = refl
first_field-lines_of name ((key, value) ∷ rows) g h = ground (
  arith,
  first_field-lines_of name rows g,
  starts_with-key key name value,
  drop-key name value,
  ==_iff key name,
)

lines_of-IsLine : (rows : List (Str × Str)) → all is_plain rows ≡ true → All IsLine (lines_of rows)
unfolding lines_of
lines_of-IsLine [] h = tt
lines_of-IsLine ((key, value) ∷ rows) h = ground (
  arith,
  lines_of-IsLine rows,
  all-append (λ c. not (is_break c)) key (b'=' ∷ value),
  length-append key (b'=' ∷ value),
)

take-all : (n : ℕ) (s : Str) → length s ≤ n → take n s ≡ s
take-all zero [] h = refl
take-all zero (c ∷ s) h = absurd (omega arith)
take-all (suc n) [] h = refl
take-all (suc n) (c ∷ s) h = ap (λ t. c ∷ t) (take-all n s (omega arith))

-- A field of a detail that fits is read back as it was written, whatever the other fields hold.
pub published_detail_field-rendered :
    (name : Str) (rows : List (Str × Str))
    → no_equals name ≡ true
    → all is_plain rows ≡ true
    → length (join (10 ∷ []) (lines_of rows)) ≤ detail_max_chars
    → published_detail_field (rendered rows) name ≡ field_value name rows
unfolding published_detail_field
published_detail_field-rendered name rows g h fits =
    ap (λ s. first_field (name ++ (b'=' ∷ [])) (splitlines s))
      (take-all detail_max_chars (join (10 ∷ []) (lines_of rows)) fits)
    ∙ (ap (first_field (name ++ (b'=' ∷ [])))
          (splitlines-join (lines_of rows) (lines_of-IsLine rows h))
        ∙ first_field-lines_of name rows g h)
