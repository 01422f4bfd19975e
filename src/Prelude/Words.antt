-- ===== src/Prelude/Words.antt =====
-- Python's `str.split()`, `rstrip`, `count` and the other runs of characters.
use Prim.Native.Nat.{ℕ, ◌+◌}
use mathlib.Core.Bool.{Bool, true, false}
use mathlib.Core.List.{List, [], ◌∷◌}
use slurm_gpu_tui.Prelude.Tests.{if◌then◌else◌}
use slurm_gpu_tui.Prelude.Equality.{Str, str_eq}
use slurm_gpu_tui.Prelude.Text.{is_space, starts_with, join}

-- A character before a text whose first run is `w`, which is empty where the text begins with a
-- separator or ends.
abbrev pub grown : Bool → ℕ → List Str → List Str
grown true c ws = [] ∷ ws
grown false c [] = (c ∷ []) ∷ []
grown false c (w ∷ ws) = (c ∷ w) ∷ ws

unfoldable pub runs : (ℕ → Bool) → Str → List Str
runs p [] = [] ∷ []
runs p (c ∷ s) = grown (p c) c (runs p s)

unfoldable pub nonempty_runs : List Str → List Str
nonempty_runs [] = []
nonempty_runs ([] ∷ ws) = nonempty_runs ws
nonempty_runs ((c ∷ w) ∷ ws) = (c ∷ w) ∷ nonempty_runs ws

-- `s.split()`
unfoldable pub words : Str → List Str
unfolding runs nonempty_runs
words s = nonempty_runs (runs is_space s)

-- `" ".join(s.split())`
unfoldable pub squeezed : Str → Str
unfolding words
squeezed s = join (32 ∷ []) (words s)

abbrev cons_unless_space : ℕ → Str → Str
cons_unless_space c [] = if is_space c then [] else c ∷ []
cons_unless_space c (d ∷ s) = c ∷ (d ∷ s)

-- `s.rstrip()`
unfoldable pub rstrip : Str → Str
rstrip [] = []
rstrip (c ∷ s) = cons_unless_space c (rstrip s)

-- `s.count(p)`, for a `p` that does not overlap itself
unfoldable pub occurrences : Str → Str → ℕ
occurrences p [] = 0
occurrences p (c ∷ s) = (if starts_with (c ∷ s) p then 1 else 0) + occurrences p s
