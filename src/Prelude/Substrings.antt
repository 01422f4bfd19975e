-- ===== src/Prelude/Substrings.antt =====
-- Python's `s.split(sep)` and `s.replace(old, new)` for a text of at least one character.
use Prim.Native.Nat.{ℕ, zero, suc, ◌-◌}
use mathlib.Core.List.{List, [], ◌∷◌, ◌++◌}
use slurm_gpu_tui.Prelude.Tests.{if◌then◌else◌}
use slurm_gpu_tui.Prelude.Equality.{Str}
use slurm_gpu_tui.Prelude.Lists.{length}
use slurm_gpu_tui.Prelude.Text.{starts_with, cons_first}

-- `skip` characters still belong to the separator that was found.
unfoldable pub pieces_from : ℕ → Str → Str → List Str
pieces_from skip sep [] = [] ∷ []
pieces_from (suc skip) sep (c ∷ s) = pieces_from skip sep s
pieces_from zero sep (c ∷ s) =
    let found = starts_with (c ∷ s) sep in
    let rest = pieces_from (if found then length sep - 1 else 0) sep s in
    if found then [] ∷ rest else cons_first c rest

unfoldable pub split_text : Str → Str → List Str
unfolding pieces_from
split_text sep s = pieces_from 0 sep s

unfoldable pub replaced_from : ℕ → Str → Str → Str → Str
replaced_from skip old new [] = []
replaced_from (suc skip) old new (c ∷ s) = replaced_from skip old new s
replaced_from zero old new (c ∷ s) =
    let found = starts_with (c ∷ s) old in
    let rest = replaced_from (if found then length old - 1 else 0) old new s in
    if found then new ++ rest else c ∷ rest

unfoldable pub replace_text : Str → Str → Str → Str
unfolding replaced_from
replace_text old new s = replaced_from 0 old new s
