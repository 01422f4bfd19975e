-- ===== src/Prelude/Paths.antt =====
-- `isabs`, `join` and `normpath` of Python's `posixpath`.
use mathlib.Core.Bool.{Bool, false, not, ◌&&◌, ◌||◌}
use mathlib.Core.List.{List, [], ◌∷◌, ◌++◌, reverse}
use slurm_gpu_tui.Prelude.Tests.{nat_beq, if◌then◌else◌}
use slurm_gpu_tui.Prelude.Equality.{Str, str_eq, ◌==◌}
use slurm_gpu_tui.Prelude.Text.{codes, split, join, starts_with}

abbrev pub isabs : Str → Bool
isabs [] = false
isabs (c ∷ s) = nat_beq c b'/'

abbrev ends_in_slash : Str → Bool
ends_in_slash [] = false
ends_in_slash (c ∷ []) = nat_beq c b'/'
ends_in_slash (c ∷ d ∷ s) = ends_in_slash (d ∷ s)

unfoldable pub join_path : Str → Str → Str
join_path a b =
    if isabs b then b else if a == [] || ends_in_slash a then a ++ b else a ++ (b'/' ∷ b)

abbrev up : Str
up = b'.' ∷ b'.' ∷ []

-- One component, on the components so far with the last one first.
abbrev push_comp : Bool → Str → List Str → List Str
push_comp rooted comp [] = if comp == up && rooted then [] else comp ∷ []
push_comp rooted comp (last ∷ comps) =
    if comp == up && not (last == up) then comps else comp ∷ last ∷ comps

norm_comps : Bool → List Str → List Str → List Str
norm_comps rooted [] comps = comps
norm_comps rooted (comp ∷ rest) comps =
    norm_comps rooted rest
      (if comp == [] || comp == b'.' ∷ [] then comps else push_comp rooted comp comps)

-- Two leading slashes stay, three or more are one.
abbrev root_of : Str → Str
root_of path =
    if not (starts_with path (codes "/"))
    then []
    else if starts_with path (codes "//") && not (starts_with path (codes "///"))
    then codes "//"
    else codes "/"

abbrev dot_if_empty : Str → Str
dot_if_empty [] = b'.' ∷ []
dot_if_empty (c ∷ s) = c ∷ s

unfoldable pub normpath : Str → Str
unfolding norm_comps
normpath path =
    dot_if_empty
      (root_of path ++ join (codes "/") (reverse (norm_comps (isabs path) (split b'/' path) [])))
