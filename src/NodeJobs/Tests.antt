-- ===== src/NodeJobs/Tests.antt =====
-- A job of seven CPUs on two nodes.
use slurm_gpu_tui.Prelude.{◌≡◌, ◌≢◌, refl, [], ◌∷◌, str_eq, list_beq}
use slurm_gpu_tui.Prelude.Int.{pos, ◌+ℤ◌, sum_ℤ}
use slurm_gpu_tui.Prelude.Dict.{get}
use slurm_gpu_tui.Prelude.Text.{codes}
use slurm_gpu_tui.Data.{JobInfo, no_job}
use slurm_gpu_tui.Nodelist.{padded, products}
use slurm_gpu_tui.NodeJobs.{job_nodes, entries, or_nil, assign_node_jobs}
use slurm_gpu_tui.NodeJobs.Shares.{cpus_of, at_node, all_entries, sum-entries, get-assign_node_jobs}

abbrev wide : JobInfo
wide = record no_job { jobid = codes "5"; node = codes "n[1-2]"; cpu_count = pos 7 }

wide_run : cpus_of (entries wide) ≡ pos 4 ∷ pos 3 ∷ []
unfolding entries list_beq padded products ◌+ℤ◌
wide_run = refl

wide-placed : job_nodes wide ≢ []
unfolding job_nodes list_beq padded products
wide-placed = λ e. cc

sum-entries_example : sum_ℤ (cpus_of (entries wide)) ≡ pos 7
sum-entries_example = sum-entries wide wide-placed

get-assign_node_jobs_example :
    or_nil (get (assign_node_jobs (wide ∷ [])) (codes "n2"))
    ≡ at_node (codes "n2") (all_entries (wide ∷ []))
get-assign_node_jobs_example = get-assign_node_jobs (wide ∷ []) (codes "n2")
