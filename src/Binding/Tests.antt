-- ===== src/Binding/Tests.antt =====
-- Runs of the allocation binding on a node with two cards.
use slurm_gpu_tui.Prelude.{◌≡◌, ◌≢◌, ◌≤◌, refl, arith, Str, All}
use slurm_gpu_tui.Prelude.{[], ◌∷◌, ==_iff, str_eq, list_beq, ne_of_test, count}
use slurm_gpu_tui.Prelude.Dict.{Dict, values}
use slurm_gpu_tui.Prelude.Text.{codes}
use slurm_gpu_tui.Binding.{Card, reconcile_gpu_alloc}
use slurm_gpu_tui.Binding.Conservation.{
  bound_jobs, reconcile_no_double_booking, reconcile_places_all,
}
use slurm_gpu_tui.Binding.Evidence.{cards, Justified, cards-reconcile, reconcile-Justified}
use slurm_gpu_tui.Binding.Exact.{NamesOne, IsCovered, IsExact, reconcile-IsExact}

-- The scheduler says card 0, the processes run on card 1.
abbrev job : Str
job = codes "7"

abbrev node_alloc : Dict Str Str
node_alloc = (codes "0", job) ∷ []

abbrev users : Dict Str Str
users = (job, codes "ann") ∷ []

abbrev quiet : Card
quiet = record { users = []; key = codes "0"; jobids = [] }

abbrev busy : Card
busy = record { users = codes "ann" ∷ []; key = codes "1"; jobids = job ∷ [] }

job-real : job ≢ []
unfolding list_beq
job-real = ne_of_test job [] refl

reconcile_no_double_booking_example :
    count job (bound_jobs (reconcile_gpu_alloc node_alloc users (quiet ∷ busy ∷ [])))
    ≤ count job (values node_alloc)
reconcile_no_double_booking_example =
    reconcile_no_double_booking node_alloc users (quiet ∷ busy ∷ []) job job-real

reconcile_places_all_example :
    count job (bound_jobs (reconcile_gpu_alloc node_alloc users (quiet ∷ busy ∷ [])))
    ≡ count job (values node_alloc)
unfolding reconcile_gpu_alloc list_beq
reconcile_places_all_example =
    reconcile_places_all node_alloc users (quiet ∷ busy ∷ []) job job-real refl

cards-reconcile_example :
    cards (reconcile_gpu_alloc node_alloc users (quiet ∷ busy ∷ [])) ≡ quiet ∷ busy ∷ []
cards-reconcile_example = cards-reconcile node_alloc users (quiet ∷ busy ∷ [])

reconcile-Justified_example :
    All (Justified users) (reconcile_gpu_alloc node_alloc users (quiet ∷ busy ∷ []))
reconcile-Justified_example = reconcile-Justified node_alloc users (quiet ∷ busy ∷ [])

quiet-NamesOne : NamesOne quiet
quiet-NamesOne j k h l = cc

busy-NamesOne : NamesOne busy
busy-NamesOne j k h l = ground (arith, ==_iff job j, ==_iff job k)

both-IsCovered : IsCovered (quiet ∷ busy ∷ []) (values node_alloc)
both-IsCovered j real = ground (arith)

reconcile-IsExact_example : All IsExact (reconcile_gpu_alloc node_alloc users (quiet ∷ busy ∷ []))
reconcile-IsExact_example =
    reconcile-IsExact node_alloc users (quiet ∷ busy ∷ []) (quiet-NamesOne, (busy-NamesOne, tt))
      both-IsCovered

-- The evidence wins over the index.
binds_by_evidence :
    bound_jobs (reconcile_gpu_alloc node_alloc users (quiet ∷ busy ∷ [])) ≡ [] ∷ job ∷ []
unfolding reconcile_gpu_alloc list_beq
binds_by_evidence = refl
