-- ===== src/Prelude/Dict.antt =====
-- Python's `dict`: an association list in insertion order.
use slurm_gpu_tui.Prelude.Tests.{if◌then◌else◌}
use slurm_gpu_tui.Prelude.Equality.{Comparable, ◌==◌, ==_iff}
use mathlib.Core.Path.{◌≡◌, refl}
use mathlib.Core.Bool.{Bool, true, false, ◌||◌}
use mathlib.Core.Option.{Option, none, some}
use mathlib.Core.List.{List, [], ◌∷◌, map}
use native.Mathlib.Omega.{arith}

abbrev pub Dict {ℓ κ} : Type ℓ → Type κ → Type (ℓ ⊔ κ)
Dict K V = List (K × V)

module _ {ℓ κ} {K : Type ℓ} {V : Type κ} where
  abbrev pub keys : Dict K V → List K
  keys = map (λ e. e.0)

  abbrev pub values : Dict K V → List V
  values = map (λ e. e.1)

abbrev pub or_default {ℓ} : {V : Type ℓ} → V → Option V → V
or_default v none = v
or_default v (some w) = w

module _ {ℓ κ} {K : Type ℓ} ⦃e : Comparable K⦄ {V : Type κ} where
  unfoldable pub get : Dict K V → K → Option V
  get [] k = none
  get ((j, v) ∷ d) k = if j == k then some v else get d k

  -- `d[k] = v`
  unfoldable pub put : K → V → Dict K V → Dict K V
  put k v [] = (k, v) ∷ []
  put k v ((j, w) ∷ d) = let rest = put k v d in if j == k then (j, v) ∷ d else (j, w) ∷ rest

  -- `d.pop(k, None)`
  unfoldable pub pop : K → Dict K V → Dict K V
  pop k [] = []
  pop k ((j, w) ∷ d) = let rest = pop k d in if j == k then rest else (j, w) ∷ rest

  -- `d.get(k, default)`
  unfoldable pub get_or : Dict K V → K → V → V
  get_or d k v = or_default v (get d k)

  -- `k in d`
  unfoldable pub has : Dict K V → K → Bool
  has [] k = false
  has ((j, v) ∷ d) k = j == k || has d k

  pub get-put :
      (k j : K) (v : V) (d : Dict K V) → get (put k v d) j ≡ (if k == j then some v else get d j)
  unfolding get put
  get-put k j v [] = refl
  get-put k j v ((i, w) ∷ d) = ground (arith, get-put k j v d, ==_iff k j, ==_iff i k, ==_iff i j)

  pub get-pop : (k j : K) (d : Dict K V) → get (pop k d) j ≡ (if k == j then none else get d j)
  unfolding get pop
  get-pop k j [] = ground arith
  get-pop k j ((i, w) ∷ d) = ground (arith, get-pop k j d, ==_iff k j, ==_iff i k, ==_iff i j)

  pub has-put : (k j : K) (v : V) (d : Dict K V) → has (put k v d) j ≡ (k == j || has d j)
  unfolding has put
  has-put k j v [] = refl
  has-put k j v ((i, w) ∷ d) = ground (arith, has-put k j v d, ==_iff k j, ==_iff i k, ==_iff i j)

  pub has-pop : (k j : K) (d : Dict K V) → has (pop k d) j ≡ (if k == j then false else has d j)
  unfolding has pop
  has-pop k j [] = ground arith
  has-pop k j ((i, w) ∷ d) = ground (arith, has-pop k j d, ==_iff k j, ==_iff i k, ==_iff i j)

-- A Python dict holds each key once.
module _ {ℓ κ} {K : Type ℓ} ⦃e : Comparable K⦄ {V : Type κ} where
  abbrev pub NodupKeys : Dict K V → Type 0
  NodupKeys [] = Unit
  NodupKeys ((k, v) ∷ d) = (has d k ≡ false) × NodupKeys d

  pub put-NodupKeys : (k : K) (v : V) (d : Dict K V) → NodupKeys d → NodupKeys (put k v d)
  unfolding put has
  put-NodupKeys k v [] h = (refl, tt)
  put-NodupKeys k v ((j, w) ∷ d) (fresh, h) =
      ground (arith, put-NodupKeys k v d h, has-put k j v d, ==_iff j k, ==_iff k j)

  pub get-none : (k : K) (d : Dict K V) → has d k ≡ false → get d k ≡ none
  unfolding get has
  get-none k [] h = refl
  get-none k ((j, v) ∷ d) h = ground (arith, get-none k d)

  pub has-get : (k : K) (v : V) (d : Dict K V) → get d k ≡ some v → has d k ≡ true
  unfolding get has
  has-get k v [] h = cc
  has-get k v ((j, w) ∷ d) h = ground (arith, has-get k v d)

pub ruleset dict_laws = (get-put, get-pop, has-put, has-pop)
