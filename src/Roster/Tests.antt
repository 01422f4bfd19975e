-- ===== src/Roster/Tests.antt =====
-- A node that is listed for two partitions.
use slurm_gpu_tui.Prelude.{◌≤◌, ◌≡◌, refl, Str, true, none, [], ◌∷◌, str_eq, list_beq, count, map}
use slurm_gpu_tui.Prelude.Int.{pos}
use slurm_gpu_tui.Prelude.Text.{codes, strip, split, splitlines, lower, has_substring}
use slurm_gpu_tui.Roster.{collect_nodes_basic, build_nodes}
use slurm_gpu_tui.Roster.Names.{snapshot-once}

abbrev answer : Str
answer = codes "n1|idle|8|0.1|100|50|gpu:2|2/6/0/8|a*\nn1|idle|8|0.1|100|50|gpu:2|2/6/0/8|b\n"

partitions_run : map (λ r. r.partition) (collect_nodes_basic true answer).0 ≡ codes "a,b" ∷ []
unfolding collect_nodes_basic list_beq splitlines split strip lower has_substring
partitions_run = refl

snapshot-once_example :
    count (codes "n1") (
      map
        (λ n. n.name)
        (build_nodes (pos 0) none [] 9 (collect_nodes_basic true answer).0 [] [] []))
    ≤ 1
snapshot-once_example = snapshot-once (pos 0) none [] 9 true answer [] [] [] (codes "n1")
