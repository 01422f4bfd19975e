-- ===== src/Polling/Absence.antt =====
-- How long `_prune_node_caches` of src/sgpu/collector.py keeps the result of a node that is off the
-- rosters.
use slurm_gpu_tui.Prelude.{ℕ, ◌<◌, ◌≡◌, Str, none, some}
use slurm_gpu_tui.Prelude.{List, [], ◌∷◌, str_eq, if◌then◌else◌, leb}
use slurm_gpu_tui.Prelude.Dict.{Dict, get, get_or, NodupKeys}
use slurm_gpu_tui.Polling.{Pollers, Result, prune_node_caches}

module _ (prune_after : ℕ) where
  -- The prunings of successive rosters.
  abbrev pub prune_all : List (List Str) → Pollers → Pollers
  prune_all [] s = s
  prune_all (live_names ∷ rosters) s =
      prune_all rosters (prune_node_caches prune_after live_names s)

  -- The node has missed `m` rosters since it was last on one, and has the result that is due.
  record IsMissing (k : Str) (r : Result) (m : ℕ) (s : Pollers) : Type 0 where
    distinct : NodupKeys s.node_absent_cycles
    due : get s.node_results k ≡ (if leb prune_after m then none else some r)
    counted : m < prune_after → get_or s.node_absent_cycles k 0 ≡ m
