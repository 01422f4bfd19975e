-- ===== src/Nodelist.antt =====
-- Slurm node lists: `_split_top_level`, `_expand_range_spec`, `expand_nodelist` and `_expand_idx`
-- of src/sgpu/common.py.
pub mod Tokens
mod Spaces
pub mod Bounds
pub mod Tests
pub mod Literal
pub mod Strict
use slurm_gpu_tui.Prelude.{ℕ, zero, suc, ◌+◌, ◌-◌, ◌*◌, max, Str, Bool, true, false, str_eq}
use slurm_gpu_tui.Prelude.{Option, none, some, List, [], ◌∷◌, ◌++◌, ◌&&◌, ◌||◌, not, map, ◌==◌}
use slurm_gpu_tui.Prelude.{ltb, leb, nat_beq, if◌then◌else◌, length, keep, contains}
use slurm_gpu_tui.Prelude.Text.{codes, strip, split, partition, isdigit, number, show, zfill, upper}
use Tokens.{Token, spec, literal, skipped, tokens}

abbrev pub max_expansion : ℕ
max_expansion = 100_000

-- The loop of `_split_top_level` from a character on. `depth = max(0, depth - 1)` is the
-- subtraction that stops at 0.
abbrev pub depth_after : ℕ → ℕ → ℕ
depth_after ch depth =
    if nat_beq ch b'[' then depth + 1 else if nat_beq ch b']' then depth - 1 else depth

unfoldable pub split_loop : Str → ℕ → Str → List Str
split_loop [] depth cur = cur ∷ []
split_loop (ch ∷ s) depth cur =
    let d = depth_after ch depth in
    let flush = nat_beq ch b',' && nat_beq d 0 in
    let rest = split_loop s d (if flush then [] else cur ++ (ch ∷ [])) in
    if flush then cur ∷ rest else rest

abbrev pub nonempty : Str → Bool
nonempty s = not (s == [])

unfoldable pub split_top_level : Str → List Str
unfolding split_loop strip
split_top_level expr = keep nonempty (map strip (split_loop expr 0 []))

-- `str(i).zfill(width) for i in range(lo, lo + n)`
unfoldable pub padded : ℕ → ℕ → ℕ → List Str
unfolding zfill show
padded width lo zero = []
padded width lo (suc n) = zfill width (show lo) ∷ padded width (lo + 1) n

-- One part of a range, stripped already.
unfoldable pub expand_part : Str → List Str
unfolding partition isdigit number padded
expand_part r =
    let p = partition b'-' r in
    if p.1
      && isdigit p.0
      && isdigit p.2
      && leb (number p.0) (number p.2)
      && ltb (number p.2 - number p.0) max_expansion
    then padded (length p.0) (number p.0) (number p.2 - number p.0 + 1)
    else r ∷ []

unfoldable pub expand_parts : List Str → List Str
unfolding expand_part
expand_parts [] = []
expand_parts (r ∷ rs) = (if r == [] then [] else expand_part r) ++ expand_parts rs

unfoldable pub expand_range_spec : Str → List Str
unfolding expand_parts split strip
expand_range_spec s = expand_parts (map strip (split b',' s))

-- `"".join(combo) for combo in product(*groups)`: the last group varies fastest.
unfoldable pub prefixed : List Str → List Str → List Str
prefixed [] tails = []
prefixed (x ∷ xs) tails = map (λ t. x ++ t) tails ++ prefixed xs tails

unfoldable pub products : List (List Str) → List Str
unfolding prefixed
products [] = [] ∷ []
products (g ∷ gs) = prefixed g (products gs)

-- A character that no token covers is passed over.
unfoldable pub token_groups : List Token → List (List Str)
unfolding expand_range_spec
token_groups [] = []
token_groups (literal l ∷ ts) = (l ∷ []) ∷ token_groups ts
token_groups (spec s ∷ ts) = expand_range_spec s ∷ token_groups ts
token_groups (skipped ∷ ts) = token_groups ts

unfoldable pub group_total : List (List Str) → ℕ
group_total [] = 1
group_total (g ∷ gs) = max 1 (length g) * group_total gs

abbrev no_groups : List (List Str) → Bool
no_groups [] = true
no_groups (g ∷ gs) = false

unfoldable pub expand_name : Str → List Str
unfolding token_groups tokens group_total products
expand_name name =
    let groups = token_groups (tokens name) in
    if no_groups groups
    then []
    else if ltb max_expansion (group_total groups)
    then name ∷ []
    else products groups

unfoldable pub expand_names : List Str → List Str
unfolding expand_name
expand_names [] = []
expand_names (name ∷ names) = expand_name name ++ expand_names names

unfoldable pub expand_nodelist : Str → List Str
unfolding expand_names split_top_level
expand_nodelist expr = expand_names (split_top_level expr)

-- `_expand_idx`: GPU indices, with no padding and no bound.
unfoldable pub numbered : ℕ → ℕ → List Str
unfolding show
numbered lo zero = []
numbered lo (suc n) = show lo ∷ numbered (lo + 1) n

unfoldable pub expand_idx_part : Str → List Str
unfolding partition isdigit number numbered upper
expand_idx_part r =
    let p = partition b'-' r in
    if r == [] || upper r == codes "N/A"
    then []
    else if p.1 && isdigit p.0 && isdigit p.2 && leb (number p.0) (number p.2)
    then numbered (number p.0) (number p.2 - number p.0 + 1)
    else r ∷ []

unfoldable pub expand_idx_parts : List Str → List Str
unfolding expand_idx_part strip
expand_idx_parts [] = []
expand_idx_parts (r ∷ rs) = expand_idx_part (strip r) ++ expand_idx_parts rs

unfoldable pub expand_idx : Str → List Str
unfolding expand_idx_parts split
expand_idx s = expand_idx_parts (split b',' s)
