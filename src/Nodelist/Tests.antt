-- ===== src/Nodelist/Tests.antt =====
-- Runs of the two expansions of a node list.
use slurm_gpu_tui.Prelude.{◌≡◌, ◌≢◌, ◌≤◌, refl, Str, some}
use slurm_gpu_tui.Prelude.{List, [], ◌∷◌, str_eq, list_beq, ne_of_test, count, length}
use slurm_gpu_tui.Prelude.Text.{codes, join}
use slurm_gpu_tui.Nodelist.{padded, products, max_expansion, expand_name, expand_nodelist}
use slurm_gpu_tui.Nodelist.Bounds.{length-expand_name}
use slurm_gpu_tui.Nodelist.Literal.{IsPlain, expand_nodelist-join}
use slurm_gpu_tui.Nodelist.Strict.{strict_expand_nodes}
use slurm_gpu_tui.Nodelist.Strict.Bounds.{IsRoster, strict_expand_nodes-IsRoster}
use slurm_gpu_tui.Nodelist.Strict.Agreement.{strict-agrees}

abbrev range : Str
range = codes "gpu[08-10],n1"

abbrev hosts : List Str
hosts = codes "gpu08" ∷ codes "gpu09" ∷ codes "gpu10" ∷ codes "n1" ∷ []

lenient_run : expand_nodelist range ≡ hosts
unfolding expand_nodelist list_beq
lenient_run = refl

strict_run : strict_expand_nodes range ≡ some hosts
unfolding strict_expand_nodes list_beq padded products
strict_run = refl

length-expand_name_example : length (expand_name (codes "n[1-999999]")) ≤ max_expansion
length-expand_name_example = length-expand_name (codes "n[1-999999]")

a-IsPlain : IsPlain (codes "gpu1")
unfolding list_beq
a-IsPlain = (ne_of_test (codes "gpu1") [] refl, refl)

b-IsPlain : IsPlain (codes "n-2.x")
unfolding list_beq
b-IsPlain = (ne_of_test (codes "n-2.x") [] refl, refl)

expand_nodelist-join_example :
    expand_nodelist (join (b',' ∷ []) (codes "gpu1" ∷ codes "n-2.x" ∷ []))
    ≡ codes "gpu1" ∷ codes "n-2.x" ∷ []
expand_nodelist-join_example =
    expand_nodelist-join (codes "gpu1") (codes "n-2.x" ∷ []) (a-IsPlain, (b-IsPlain, tt))

strict_expand_nodes-IsRoster_example : IsRoster hosts
strict_expand_nodes-IsRoster_example = strict_expand_nodes-IsRoster range hosts strict_run

hosts-some : hosts ≢ []
unfolding list_beq
hosts-some = λ e. cc

strict-agrees_example : count (codes "gpu09") hosts ≡ count (codes "gpu09") (expand_nodelist range)
strict-agrees_example = strict-agrees range hosts (codes "gpu09") strict_run hosts-some
