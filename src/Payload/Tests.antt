-- ===== src/Payload/Tests.antt =====
-- A node with one card, two processes of one user, and a job.
use slurm_gpu_tui.Prelude.Dict.{put}
use slurm_gpu_tui.Prelude.Dict.{get_or}
use slurm_gpu_tui.Prelude.Text.{split}
use slurm_gpu_tui.Prelude.{Str, str_eq, nat_eq, list_beq, [], ◌∷◌, ◌≡◌, refl, map, All, none, some}
use slurm_gpu_tui.Prelude.Text.{codes}
use slurm_gpu_tui.Prelude.Substrings.{split_text}
use slurm_gpu_tui.Data.{ssh_timeout, nvidia_smi_missing}
use slurm_gpu_tui.Payload.{parse_node_payload, tables_of, classify_error}
use slurm_gpu_tui.Payload.Attribution.{IsAttributed, parse_node_payload-IsAttributed}

abbrev answer : Str
answer =
    codes
      "0, GPU-1, NVIDIA H100 PCIe, 10, 5, 80, 40, 100, 350, 00000000:06:00.0, 0, [N/A]\n---SEP---\n# gpu pid\n0 11 C 500\n0 12 C -\n1 - -\n---SEP---\n100 40 60\n---SEP---\n11 ann\n12 ann\n---SEP---\n0000:06:00.0 2\n---SEP---\n11 7\n12 x\n---SEP---\n"

users_run : map (λ g. g.users) (parse_node_payload answer).0 ≡ (codes "ann" ∷ []) ∷ []
unfolding parse_node_payload split get_or list_beq put
users_run = refl

jobs_run :
    map (λ g. g.pid_jobid) (parse_node_payload answer).0 ≡ ((codes "11", codes "7") ∷ []) ∷ []
unfolding parse_node_payload split get_or list_beq put
jobs_run = refl

names_run : map (λ g. g.name) (parse_node_payload answer).0 ≡ codes "H100" ∷ []
unfolding parse_node_payload split
names_run = refl

minor_run : map (λ g. g.minor) (parse_node_payload answer).0 ≡ codes "2" ∷ []
unfolding parse_node_payload split get_or put list_beq
minor_run = refl

error_run : classify_error (codes "bash: nvidia-smi: command not found") none ≡ nvidia_smi_missing
unfolding classify_error
error_run = refl

timeout_run : classify_error [] (some (codes "TimeoutExpired")) ≡ ssh_timeout
unfolding classify_error
timeout_run = refl

parse_node_payload-IsAttributed_example :
    All
      (IsAttributed (tables_of (split_text (codes "---SEP---") answer)))
      (parse_node_payload answer).0
parse_node_payload-IsAttributed_example = parse_node_payload-IsAttributed answer
