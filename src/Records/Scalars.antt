-- ===== src/Records/Scalars.antt =====
-- No public value of a record holds a line break.
use slurm_gpu_tui.Prelude.{
  ℕ, zero, suc, ◌*◌, ◌/◌, ◌%◌, ◌≤◌, Str, Bool, true, str_eq, nat_eq, Option, none, some, List, [],
  ◌∷◌, ◌++◌,
}
use slurm_gpu_tui.Prelude.{◌≡◌, ◌≢◌, refl, ◌∙◌, arith, all, length, not, if◌then◌else◌}
use slurm_gpu_tui.Prelude.Int.{ℤ, pos, negsuc}
use slurm_gpu_tui.Prelude.Dict.{or_default}
use slurm_gpu_tui.Prelude.Text.{codes, is_break, join, show}
use slurm_gpu_tui.Prelude.Words.{squeezed}
use slurm_gpu_tui.Prelude.Breaks.{
  breakless, all-append, all-take, breakless-squeezed, breakless-show, breakless-zfill,
}
use slurm_gpu_tui.Records.{
  Json, ids_from, distinct_ids, Fields, null, boolean, public_parts, two_digits, days_prefix,
  minutes_text, stamp_of, integer, real, string, array, object, lookup, json_number, json_job_ids,
  public_json_scalar, public_text, json_wrapped_scalar, json_timestamp, json_duration_minutes,
  clock_text, show_ℤ,
}
use slurm_gpu_tui.Records.Detail.{
  or_text, rendered, first_id, user_id_of, detail_max_chars, fields_out, lines_of,
  public_json_job_detail, published_detail_field,
}
use slurm_gpu_tui.Records.Rendered.{
  is_plain, no_equals, field_value, published_detail_field-rendered,
}

breakless-public_text : (s : Str) → breakless (public_text s) ≡ true
breakless-public_text s = all-take (λ c. not (is_break c)) 4096 (squeezed s) (breakless-squeezed s)

breakless-public_json_scalar : (v : Json) → breakless (public_json_scalar v) ≡ true
unfolding public_json_scalar
breakless-public_json_scalar null = refl
breakless-public_json_scalar (boolean b) =
    breakless-public_text (if b then codes "Yes" else codes "No")
breakless-public_json_scalar (integer n) = breakless-public_text (show_ℤ n)
breakless-public_json_scalar (real s) = breakless-public_text s
breakless-public_json_scalar (string s) = breakless-public_text s
breakless-public_json_scalar (array items) =
    breakless-public_text (join (codes ",") (public_parts items))
breakless-public_json_scalar (object fs) = refl

breakless-json_wrapped_scalar : (v : Json) → breakless (json_wrapped_scalar v) ≡ true
unfolding json_wrapped_scalar
breakless-json_wrapped_scalar null = breakless-public_json_scalar null
breakless-json_wrapped_scalar (boolean b) = breakless-public_json_scalar (boolean b)
breakless-json_wrapped_scalar (integer n) = breakless-public_json_scalar (integer n)
breakless-json_wrapped_scalar (real s) = breakless-public_json_scalar (real s)
breakless-json_wrapped_scalar (string s) = breakless-public_json_scalar (string s)
breakless-json_wrapped_scalar (array items) = breakless-public_json_scalar (array items)
breakless-json_wrapped_scalar (object fs) =
    ground (arith, breakless-public_json_scalar (lookup fs (codes "number")))

breakless-show_ℤ : (n : ℤ) → breakless (show_ℤ n) ≡ true
unfolding show_ℤ
breakless-show_ℤ (pos n) = breakless-show n
breakless-show_ℤ (negsuc n) = breakless-show (suc n)

breakless-append : (s t : Str) → breakless s ≡ true → breakless t ≡ true → breakless (s ++ t) ≡ true
breakless-append s t h g = ground (arith, all-append (λ c. not (is_break c)) s t)

breakless-two_digits : (n : ℕ) → breakless (two_digits n) ≡ true
breakless-two_digits n = breakless-zfill 2 (show n) (breakless-show n)

breakless-days_prefix : (n : ℕ) → breakless (days_prefix n) ≡ true
breakless-days_prefix zero = refl
breakless-days_prefix (suc n) =
    breakless-append (show (suc n)) (codes "-") (breakless-show (suc n)) refl

breakless-clock_text : (n : ℕ) → breakless (clock_text n) ≡ true
breakless-clock_text n =
    let rest = n % 86400 in
    let minutes = two_digits (rest % 3600 / 60) in
    let seconds = two_digits (rest % 3600 % 60) in
    breakless-append (days_prefix (n / 86400))
      (two_digits (rest / 3600) ++ (b':' ∷ (minutes ++ (b':' ∷ seconds))))
      (breakless-days_prefix (n / 86400))
      (breakless-append (two_digits (rest / 3600)) (b':' ∷ (minutes ++ (b':' ∷ seconds)))
        (breakless-two_digits (rest / 3600))
        (breakless-append minutes (b':' ∷ seconds) (breakless-two_digits (rest % 3600 / 60))
          (breakless-two_digits (rest % 3600 % 60))))

breakless-minutes_text : (o : Option ℤ) → breakless (minutes_text o) ≡ true
breakless-minutes_text none = refl
breakless-minutes_text (some (pos n)) = breakless-clock_text (n * 60)
breakless-minutes_text (some (negsuc n)) = refl

breakless-json_duration_minutes : (v : Json) → breakless (json_duration_minutes v) ≡ true
unfolding json_duration_minutes
breakless-json_duration_minutes v = ground (arith, breakless-minutes_text (json_number v))

breakless-user_id_of :
    (user : Str) (o : Option ℤ) → breakless user ≡ true → breakless (user_id_of user o) ≡ true
breakless-user_id_of user none h = h
breakless-user_id_of user (some uid) h = ground (
  arith,
  breakless-append user (b'(' ∷ (show_ℤ uid ++ codes ")")) h,
  breakless-append (show_ℤ uid) (codes ")") (breakless-show_ℤ uid) refl,
)

module _ (local_time : ℕ → Option Str)
    (stamps : (n : ℕ) (s : Str) → local_time n ≡ some s → breakless s ≡ true) where
  breakless-stamp_of : (o : Option ℤ) → breakless (stamp_of local_time o) ≡ true
  breakless-stamp_of none = refl
  breakless-stamp_of (some (pos zero)) = refl
  breakless-stamp_of (some (pos (suc n))) = known (local_time (suc n)) refl
    where
      known : (o : Option Str) → local_time (suc n) ≡ o → breakless (or_default [] o) ≡ true
      known none e = refl
      known (some s) e = stamps (suc n) s e
  breakless-stamp_of (some (negsuc n)) = refl

  breakless-json_timestamp : (v : Json) → breakless (json_timestamp local_time v) ≡ true
  unfolding json_timestamp
  breakless-json_timestamp (object fs) =
      ground (arith, breakless-stamp_of (json_number (object fs)))
  breakless-json_timestamp null = refl
  breakless-json_timestamp (boolean b) = refl
  breakless-json_timestamp (integer n) = refl
  breakless-json_timestamp (real s) = refl
  breakless-json_timestamp (string s) = refl
  breakless-json_timestamp (array items) = refl

  breakless-array_task :
      (b : Bool) (v w : Json)
      → breakless (if b then or_text (json_wrapped_scalar v) (public_json_scalar w) else []) ≡ true
  breakless-array_task b v w =
      ground (arith, breakless-json_wrapped_scalar v, breakless-public_json_scalar w)

  breakless-if : (b : Bool) (s : Str) → breakless s ≡ true → breakless (if b then s else []) ≡ true
  breakless-if b s h = ground arith

  breakless-public_user :
      (v : Json) (o : Option ℤ) → breakless (user_id_of (public_json_scalar v) o) ≡ true
  breakless-public_user v o =
      breakless-user_id_of (public_json_scalar v) o (breakless-public_json_scalar v)

  breakless-array_id : (b : Bool) (n : ℤ) → breakless (if b then show_ℤ n else []) ≡ true
  breakless-array_id b n = breakless-if b (show_ℤ n) (breakless-show_ℤ n)

  is_plain-fields_out :
      (r : Fields) (ids : List Str)
      → breakless (first_id ids) ≡ true
      → all is_plain (fields_out local_time r ids) ≡ true
  unfolding fields_out
  is_plain-fields_out r ids h = simp (
    breakless-public_json_scalar, breakless-json_wrapped_scalar, breakless-json_timestamp,
    breakless-json_duration_minutes, breakless-public_user, breakless-array_id,
    breakless-array_task, h,
  )

-- The first id is the number of the record.
breakless-first_id : (r : Fields) → breakless (first_id (json_job_ids r)) ≡ true
unfolding json_job_ids distinct_ids
breakless-first_id r = of_number (json_number (lookup r (codes "job_id")))
  where
    of_number : (o : Option ℤ) → breakless (first_id (ids_from o r)) ≡ true
    of_number none = refl
    of_number (some n) = ground (arith, breakless-show_ℤ n)

-- A field of a structured record's public detail is read back as the record has it, whatever a
-- submitter wrote into the other fields, provided that the detail is not cut off, that the local
-- time prints without line breaks, and that the name asked for holds no equals sign.
pub published_detail_field-public_json_job_detail :
    (local_time : ℕ → Option Str)
    → ((n : ℕ) (s : Str) → local_time n ≡ some s → breakless s ≡ true)
    → (r : Fields) (name : Str) → json_job_ids r ≢ []
    → no_equals name ≡ true
    → length (join (codes "\n") (lines_of (fields_out local_time r (json_job_ids r))))
      ≤ detail_max_chars
    → published_detail_field (public_json_job_detail local_time r (json_job_ids r)) name
      ≡ field_value name (fields_out local_time r (json_job_ids r))
unfolding public_json_job_detail
published_detail_field-public_json_job_detail local_time stamps r name ne g fits =
    detail_of (json_job_ids r) ne
    ∙ published_detail_field-rendered name (fields_out local_time r (json_job_ids r)) g
        (is_plain-fields_out local_time stamps r (json_job_ids r) (breakless-first_id r)) fits
  where
    detail_of :
        (ids : List Str)
        → ids ≢ []
        → published_detail_field (public_json_job_detail local_time r ids) name
          ≡ published_detail_field (rendered (fields_out local_time r ids)) name
    detail_of [] h = absurd (h refl)
    detail_of (x ∷ ids) h = refl
