-- ===== src/Polling/Tests.antt =====
-- Two nodes, of which one leaves the roster.
use slurm_gpu_tui.Prelude.{◌≤◌, ◌≡◌, refl, Str, false, none, some}
use slurm_gpu_tui.Prelude.{[], ◌∷◌, str_eq, list_beq, count, length, contains}
use slurm_gpu_tui.Prelude.Dict.{get}
use slurm_gpu_tui.Prelude.Text.{codes}
use slurm_gpu_tui.Data.{NodeErrorKind, no_error, unknown}
use slurm_gpu_tui.Polling.{Pollers, Result, update_poll_state, begin_poll}
use slurm_gpu_tui.Polling.Bounds.{
  AllPaced, update_poll_state-AllPaced, System, submit, Reach, here, next, begin, polls_bounded,
}

abbrev n1 : Str
n1 = codes "n1"

abbrev n2 : Str
n2 = codes "n2"

abbrev classify : Str → NodeErrorKind
classify s = unknown

abbrev result : Result
result = record {
  gpus = [];
  mem = none;
  error = [];
  error_kind = no_error;
  stale = false;
  observed_at = some 1;
}

abbrev pollers : Pollers
pollers = record {
  node_results = (n1, result) ∷ (n2, result) ∷ [];
  node_poll_state = [];
  inflight = [];
  agent_payload_cache = [];
  untrusted_payloads = [];
  untrusted_warned = [];
  node_absent_cycles = (n2, 1) ∷ [];
}

no_states-AllPaced : AllPaced []
unfolding get
no_states-AllPaced name s e = cc

update_poll_state-AllPaced_example : AllPaced (update_poll_state 7 n1 false false (codes "idle") [])
update_poll_state-AllPaced_example =
    update_poll_state-AllPaced 7 n1 false false (codes "idle") [] no_states-AllPaced

abbrev idle : System
idle = record { pollers = pollers; workers = [] }

-- A second poll of a node is refused while the first runs.
abbrev twice : System
twice =
    let y = submit n1 (begin_poll 5 n1 pollers) [] in
    submit n1 (begin_poll 5 n1 y.pollers) y.workers

two_polls : Reach 5 2 classify idle twice
two_polls = next (next here (begin idle n1)) (begin (submit n1 (begin_poll 5 n1 pollers) []) n1)

polls_bounded_example :
    (length twice.workers ≤ 5)
    × (count n1 twice.workers ≤ 1)
    × (contains twice.pollers.inflight n1 ≡ contains twice.workers n1)
polls_bounded_example = polls_bounded 5 2 classify pollers n1 refl two_polls

one_worker : twice.workers ≡ n1 ∷ []
unfolding begin_poll list_beq
one_worker = refl
