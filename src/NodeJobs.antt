-- ===== src/NodeJobs.antt =====
-- The jobs of each node: `assign_node_jobs` of src/sgpu/common.py.
pub mod Shares
pub mod Tests
use slurm_gpu_tui.Prelude.{
  ℕ, zero, suc, ◌+◌, Str, Bool, true, false, List, [], ◌∷◌, ◌++◌, str_eq, ◌==◌,
}
use slurm_gpu_tui.Prelude.{ltb, if◌then◌else◌, length, Option, none, some}
use slurm_gpu_tui.Prelude.Int.{ℤ, pos, ◌+ℤ◌, floor_div, floor_mod}
use slurm_gpu_tui.Prelude.Dict.{Dict, get, put}
use slurm_gpu_tui.Data.{JobInfo}
use slurm_gpu_tui.Nodelist.{expand_nodelist}

-- `expand_nodelist(j.node) or ([j.node] if j.node else [])`
abbrev or_else : List Str → List Str → List Str
or_else [] ys = ys
or_else (x ∷ xs) ys = x ∷ xs

unfoldable pub job_nodes : JobInfo → List Str
unfolding expand_nodelist
job_nodes j = or_else (expand_nodelist j.node) (if j.node == [] then [] else j.node ∷ [])

-- `base + (1 if i < rem else 0)`, with `base, rem = divmod(cpus, n)`
unfoldable pub share : ℤ → ℕ → ℕ → ℤ
share cpus n i = floor_div cpus n +ℤ pos (if ltb i (floor_mod cpus n) then 1 else 0)

-- `replace` makes new objects, which lack the log paths that were set on the old one.
unfoldable pub shares_from : JobInfo → ℕ → ℕ → List Str → List (Str × JobInfo)
unfolding share
shares_from j n i [] = []
shares_from j n i (node ∷ nodes) =
    (
      node,
      record j { cpu_count = share j.cpu_count n i; log_paths = none; log_stderr_merged = false },
    )
    ∷ shares_from j n (i + 1) nodes

-- The entries that one job adds, in order: the job itself on one node, its shares on several.
abbrev entries_on : JobInfo → List Str → List (Str × JobInfo)
entries_on j [] = []
entries_on j (node ∷ []) = (node, j) ∷ []
entries_on j (node ∷ other ∷ nodes) =
    shares_from j (length (node ∷ other ∷ nodes)) 0 (node ∷ other ∷ nodes)

unfoldable pub entries : JobInfo → List (Str × JobInfo)
unfolding job_nodes shares_from
entries j = entries_on j (job_nodes j)

abbrev pub or_nil : Option (List JobInfo) → List JobInfo
or_nil none = []
or_nil (some js) = js

-- `node_jobs.setdefault(node, []).append(job)` for each entry
unfoldable pub add_entries :
    List (Str × JobInfo) → Dict Str (List JobInfo) → Dict Str (List JobInfo)
add_entries [] d = d
add_entries ((node, j) ∷ es) d = add_entries es (put node (or_nil (get d node) ++ (j ∷ [])) d)

unfoldable pub assign_from : List JobInfo → Dict Str (List JobInfo) → Dict Str (List JobInfo)
unfolding add_entries entries
assign_from [] d = d
assign_from (j ∷ jobs) d = assign_from jobs (add_entries (entries j) d)

unfoldable pub assign_node_jobs : List JobInfo → Dict Str (List JobInfo)
unfolding assign_from
assign_node_jobs jobs = assign_from jobs []
