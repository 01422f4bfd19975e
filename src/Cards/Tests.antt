-- ===== src/Cards/Tests.antt =====
-- A free card, and a clock over three samples.
use slurm_gpu_tui.Prelude.{
  ℕ, ◌*◌, ◌≡◌, ◌≢◌, refl, Str, true, false, none, [], ◌∷◌, str_eq, list_beq,
}
use slurm_gpu_tui.Prelude.Dict.{get}
use slurm_gpu_tui.Prelude.Float.{float}
use slurm_gpu_tui.Prelude.Text.{codes, has_substring, lower, strip, partition, number}
use slurm_gpu_tui.Data.{GpuInfo, NodeInfo, no_gpu, no_node, second}
use slurm_gpu_tui.Cards.{
  free, real_users, classify_gpu, class_in, node_schedulable, gpu_health_status, tick,
  seconds_since,
}
use slurm_gpu_tui.Cards.Free.{class_in-free}
use slurm_gpu_tui.Cards.Elapsed.{ticks, ticks-elapsed}

abbrev card : GpuInfo
card = record no_gpu { util = codes "0"; mem_used = codes "10"; mem_total = codes "1000" }

abbrev node : NodeInfo
node = record no_node { state = codes "idle"; gpus = card ∷ [] }

card-free : class_in 60 9 [] node card ≡ free
unfolding class_in classify_gpu node_schedulable gpu_health_status float list_beq has_substring
    lower strip partition number
card-free = refl

class_in-free_example :
    (node.stale ≡ false)
    × (node_schedulable node ≡ true)
    × ((gpu_health_status 60 9 card).1 ≢ 2)
    × (card.alloc_jobid ≡ [])
    × (real_users [] card ≡ [])
class_in-free_example = class_in-free 60 9 [] node card card-free

no_entry : get {V = Str × ℕ} [] (codes "n1:0") ≡ none
unfolding get
no_entry = refl

ticks-elapsed_example :
    (tick true
      (codes "n1:0")
      (codes "5")
      (90 * second)
      (ticks (codes "n1:0") (codes "5") (30 * second ∷ 60 * second ∷ []) [])).0
    ≡ seconds_since (30 * second) (90 * second)
ticks-elapsed_example =
    ticks-elapsed (codes "n1:0") (codes "5") (30 * second) (90 * second) (60 * second ∷ []) []
      no_entry
