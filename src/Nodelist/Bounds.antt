-- ===== src/Nodelist/Bounds.antt =====
-- How many hosts an expansion gives.
use slurm_gpu_tui.Prelude.{ℕ, ◌*◌, ◌≤◌, ◌≡◌, Str, List, [], ◌∷◌, ◌++◌, map, arith, ap}
use slurm_gpu_tui.Prelude.{length, length-append, length-map}
use slurm_gpu_tui.Nodelist.{
  prefixed, products, group_total, token_groups, expand_name, max_expansion,
}
use slurm_gpu_tui.Nodelist.{expand_names, expand_nodelist, split_top_level}
use slurm_gpu_tui.Nodelist.Tokens.{tokens}

-- The product of the groups' lengths.
abbrev pub combinations : List (List Str) → ℕ
combinations [] = 1
combinations (g ∷ gs) = length g * combinations gs

length-prefixed : (xs tails : List Str) → length (prefixed xs tails) ≡ length xs * length tails
unfolding prefixed
length-prefixed [] tails = omega arith
length-prefixed (x ∷ xs) tails = omega (
  arith,
  length-append {0} (map (λ t. x ++ t) tails) (prefixed xs tails),
  length-map {0, 0} (λ (t : Str). x ++ t) tails,
  length-prefixed xs tails,
)

pub length-products : (gs : List (List Str)) → length (products gs) ≡ combinations gs
unfolding products
length-products [] = omega arith
length-products (g ∷ gs) =
    omega (arith, length-prefixed g (products gs), ap (λ n. length g * n) (length-products gs))

combinations-le-total : (gs : List (List Str)) → combinations gs ≤ group_total gs
unfolding group_total
combinations-le-total [] = omega arith
combinations-le-total (g ∷ gs) = grind (arith, combinations-le-total gs)

-- A name gives at most `max_expansion` hosts, whatever its ranges say.
pub length-expand_name : (name : Str) → length (expand_name name) ≤ max_expansion
unfolding expand_name
length-expand_name name = ground (
  arith,
  length-products (token_groups (tokens name)),
  combinations-le-total (token_groups (tokens name)),
)

length-expand_names :
    (names : List Str) → length (expand_names names) ≤ length names * max_expansion
unfolding expand_names
length-expand_names [] = omega arith
length-expand_names (name ∷ names) = omega (
  arith,
  length-append {0} (expand_name name) (expand_names names),
  length-expand_name name,
  length-expand_names names,
)

-- A node list of `n` names gives at most `n` times `max_expansion` hosts.
pub length-expand_nodelist :
    (expr : Str) → length (expand_nodelist expr) ≤ length (split_top_level expr) * max_expansion
unfolding expand_nodelist
length-expand_nodelist expr = length-expand_names (split_top_level expr)
