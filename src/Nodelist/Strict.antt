-- ===== src/Nodelist/Strict.antt =====
-- The bounded expansion that rejects odd spellings: `_strict_range_values` and
-- `_strict_expand_nodes` of src/sgpu/common.py. `none` is the source's `None`.
pub mod Bounds
pub mod Agreement
use slurm_gpu_tui.Prelude.{ℕ, zero, suc, ◌+◌, ◌-◌, ◌*◌, Str, Bool, true, false, str_eq, nat_eq}
use slurm_gpu_tui.Prelude.{Option, none, some, List, [], ◌∷◌, ◌++◌, ◌&&◌, ◌||◌, not, ◌==◌}
use slurm_gpu_tui.Prelude.{ltb, leb, nat_beq, if◌then◌else◌, length, all, any, contains}
use slurm_gpu_tui.Prelude.Text.{codes, split, partition, isdigit, number, is_alnum}
use slurm_gpu_tui.Nodelist.{padded, products, split_top_level}
use slurm_gpu_tui.Prelude.Sort.{sort, str_leb}
use slurm_gpu_tui.Nodelist.Tokens.{Token, spec, literal, skipped, tokens}

abbrev pub legacy_max_nodes : ℕ
legacy_max_nodes = 4096

infixl 5 ◌>>=◌
abbrev pub ◌>>=◌ {ℓ κ} : {A : Type ℓ} {B : Type κ} → Option A → (A → Option B) → Option B
none >>= f = none
some a >>= f = f a

-- The values of one part, with room for `room` more.
unfoldable pub strict_part : Str → ℕ → Option (List Str)
unfolding partition isdigit number
strict_part part room =
    let p = partition b'-' part in
    if part == [] || not (isdigit p.0)
    then none
    else if not p.1
    then some (p.0 ∷ [])
    else if not (isdigit p.2)
        || ltb (number p.2) (number p.0)
        || ltb room (number p.2 - number p.0 + 1)
    then none
    else some (padded (length p.0) (number p.0) (number p.2 - number p.0 + 1))

unfoldable pub strict_parts : List Str → ℕ → List Str → Option (List Str)
unfolding strict_part
strict_parts [] limit values = some values
strict_parts (part ∷ parts) limit values = strict_part part (limit - length values) >>= λ more.
    let all_values = values ++ more in
    let rest = strict_parts parts limit all_values in
    if ltb limit (length all_values) then none else rest

unfoldable pub strict_range_values : Str → ℕ → Option (List Str)
unfolding strict_parts split
strict_range_values s limit = strict_parts (split b',' s) limit []

-- `[A-Za-z0-9_.-]`
abbrev pub is_name_char : ℕ → Bool
is_name_char c = is_alnum c || nat_beq c b'_' || nat_beq c b'.' || nat_beq c b'-'

abbrev is_nil {ℓ} : {A : Type ℓ} → List A → Bool
is_nil [] = true
is_nil (x ∷ xs) = false

abbrev guard_some {ℓ} : {A : Type ℓ} → Bool → Option A → Option A
guard_some true o = o
guard_some false o = none

abbrev not_nil : Option (List Str) → Option (List Str)
not_nil none = none
not_nil (some []) = none
not_nil (some (v ∷ vs)) = some (v ∷ vs)

unfoldable pub strict_group : Token → Option (List Str)
unfolding strict_range_values
strict_group skipped = none
strict_group (literal l) = guard_some (not (l == []) && all is_name_char l) (some (l ∷ []))
strict_group (spec s) = not_nil (strict_range_values s legacy_max_nodes)

unfoldable pub strict_groups : List Token → Option (List (List Str))
unfolding strict_group
strict_groups [] = some []
strict_groups (t ∷ ts) = strict_group t >>= λ g. strict_groups ts >>= λ gs. some (g ∷ gs)

-- The running product of the groups' sizes never passes the room that is left.
unfoldable pub fits : ℕ → List (List Str) → ℕ → Bool
fits total [] room = true
fits total (g ∷ gs) room =
    let rest = fits (total * length g) gs room in
    if ltb room (total * length g) then false else rest

unfoldable pub strict_name : Str → ℕ → Option (List Str)
unfolding strict_groups fits tokens
strict_name name room = strict_groups (tokens name) >>= λ groups.
    guard_some (not (is_nil groups) && fits 1 groups room) (some (products groups))

unfoldable pub strict_names : List Str → List Str → Option (List Str)
unfolding strict_name
strict_names [] hosts = some hosts
strict_names (name ∷ names) hosts = strict_name name (legacy_max_nodes - length hosts) >>= λ more.
    strict_names names (hosts ++ more)

-- `_NODE_NAME_RE.fullmatch(host)`
unfoldable pub is_node_name : Str → Bool
is_node_name host = leb 1 (length host) && leb (length host) 255 && all is_name_char host

-- `len(set(hosts)) == len(hosts)`
unfoldable pub all_distinct : List Str → Bool
all_distinct [] = true
all_distinct (h ∷ hs) = not (contains hs h) && all_distinct hs

unfoldable pub checked : List Str → Option (List Str)
unfolding is_node_name all_distinct
checked hosts =
    guard_some (not (is_nil hosts) && all_distinct hosts && all is_node_name hosts)
      (some (sort str_leb hosts))

unfoldable pub strict_expand_nodes : Str → Option (List Str)
unfolding strict_names checked sort str_leb split_top_level
strict_expand_nodes expr =
    if expr == [] || expr == codes "(null)" || expr == codes "N/A"
    then some []
    else if ltb 8192 (length expr) || any (λ ch. ltb ch 32) expr
    then none
    else strict_names (split_top_level expr) [] >>= checked
