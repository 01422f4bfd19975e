-- ===== src/Nodelist/Spaces.antt =====
-- White space: where `strip` changes nothing.
use slurm_gpu_tui.Prelude.{ℕ, ◌≡◌, refl, ◌∙◌, arith, Str, Bool, true, [], ◌∷◌, ◌++◌, not, ◌&&◌, all}
use slurm_gpu_tui.Prelude.Text.{strip, lstrip, is_space}
use mathlib.Core.List.{reverse, reverse-append, reverse-reverse}

abbrev pub no_spaces : Str → Bool
no_spaces = all (λ c. not (is_space c))

pub all-append : (p : ℕ → Bool) (s t : Str) → all p (s ++ t) ≡ (all p s && all p t)
all-append p [] t = refl
all-append p (c ∷ s) t = ground (arith, all-append p s t)

all-reverse : (p : ℕ → Bool) (s : Str) → all p (reverse s) ≡ all p s
all-reverse p [] = refl
all-reverse p (c ∷ s) =
    rw (reverse-append (c ∷ []) s)
      (ground (arith, all-append p (reverse s) (c ∷ []), all-reverse p s))

lstrip-no_spaces : (s : Str) → no_spaces s ≡ true → lstrip s ≡ s
unfolding lstrip
lstrip-no_spaces [] h = refl
lstrip-no_spaces (c ∷ s) h = ground arith

-- A string without white space is stripped already.
pub strip-no_spaces : (s : Str) → no_spaces s ≡ true → strip s ≡ s
unfolding strip
strip-no_spaces s h =
    rw
      (
        lstrip-no_spaces s h,
        lstrip-no_spaces (reverse s) (all-reverse (λ c. not (is_space c)) s ∙ h),
      )
      (reverse-reverse s)
