-- ===== src/Queue/Tests.antt =====
-- Runs of the queue parser on a running job, a pending one, and one that two rows claim.
use slurm_gpu_tui.Prelude.{◌≡◌, refl, Str, All, [], ◌∷◌, str_eq, list_beq, map}
use slurm_gpu_tui.Prelude.Dict.{get, put, has}
use slurm_gpu_tui.Prelude.Text.{codes, splitlines}
use slurm_gpu_tui.Nodelist.{padded, products}
use slurm_gpu_tui.Queue.{parse_queue_output}
use slurm_gpu_tui.Queue.Anchors.{sole, claims, accepted, get-anchors}
use slurm_gpu_tui.Queue.Safety.{IsOwned, jobs-IsOwned}

abbrev queue_text : Str
queue_text =
    codes
      "RUNNING|12|ann|1001|gpu|1:00|n[1-2]|gpu:2|2:00|8|4G|None|1|N/A\nPENDING|13|bob|1002|gpu|0:00||gpu:1|2:00|4|4G|Priority|1|N/A\nPENDING|14|bob|1002|gpu|0:00||gpu:1|2:00|4|4G|a|1|N/A\nPENDING|14|eve|1003|gpu|0:00||gpu:1|2:00|4|4G|b|1|N/A\n"

running_run : map (λ j. j.jobid) (parse_queue_output queue_text).jobs ≡ codes "12" ∷ []
unfolding parse_queue_output list_beq padded products has put get
running_run = refl

pending_run : map (λ j. j.jobid) (parse_queue_output queue_text).pending_jobs ≡ codes "13" ∷ []
unfolding parse_queue_output list_beq padded products has put get
pending_run = refl

get-anchors_example :
    get (parse_queue_output queue_text).anchors (codes "12")
    ≡ sole (claims (codes "12") (accepted (splitlines queue_text)))
get-anchors_example = get-anchors queue_text (codes "12")

jobs-IsOwned_example :
    All (IsOwned (parse_queue_output queue_text).anchors) (parse_queue_output queue_text).jobs
jobs-IsOwned_example = jobs-IsOwned queue_text
