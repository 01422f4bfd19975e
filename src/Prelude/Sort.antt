-- ===== src/Prelude/Sort.antt =====
-- Python's `sorted` on a list of strings, which are ordered by their code points.
use Prim.Native.Nat.{◌+◌}
use mathlib.Core.Path.{◌≡◌, refl}
use mathlib.Core.Bool.{Bool, true, false, ◌&&◌, ◌||◌}
use mathlib.Core.List.{List, [], ◌∷◌}
use native.Mathlib.Omega.{arith}
use slurm_gpu_tui.Prelude.Tests.{ltb, nat_beq, if◌then◌else◌}
use slurm_gpu_tui.Prelude.Equality.{Str, Comparable}
use slurm_gpu_tui.Prelude.Lists.{count, length}

unfoldable pub str_leb : Str → Str → Bool
str_leb [] t = true
str_leb (c ∷ s) [] = false
str_leb (c ∷ s) (d ∷ t) = ltb c d || (nat_beq c d && str_leb s t)

-- A stable insertion sort: `le x y` says that `x` may stand before `y`.
module _ {ℓ} {A : Type ℓ} (le : A → A → Bool) where
  unfoldable pub insert : A → List A → List A
  insert x [] = x ∷ []
  insert x (y ∷ ys) = let rest = insert x ys in if le x y then x ∷ (y ∷ ys) else y ∷ rest

  unfoldable pub sort : List A → List A
  unfolding insert
  sort [] = []
  sort (x ∷ xs) = insert x (sort xs)

  pub length-insert : (x : A) (xs : List A) → length (insert x xs) ≡ length xs + 1
  unfolding insert
  length-insert x [] = omega arith
  length-insert x (y ∷ ys) = ground (arith, length-insert x ys)

  pub length-sort : (xs : List A) → length (sort xs) ≡ length xs
  unfolding sort
  length-sort [] = refl
  length-sort (x ∷ xs) = omega (arith, length-insert x (sort xs), length-sort xs)

module _ {ℓ} {A : Type ℓ} ⦃e : Comparable A⦄ (le : A → A → Bool) (a : A) where
  pub count-insert : (x : A) (xs : List A) → count a (insert le x xs) ≡ count a (x ∷ xs)
  unfolding insert
  count-insert x [] = refl
  count-insert x (y ∷ ys) = ground (arith, count-insert x ys)

  -- Sorting changes neither the elements nor how often they stand.
  pub count-sort : (xs : List A) → count a (sort le xs) ≡ count a xs
  unfolding sort
  count-sort [] = refl
  count-sort (x ∷ xs) = omega (arith, count-insert x (sort le xs), count-sort xs)
