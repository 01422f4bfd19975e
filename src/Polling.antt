-- ===== src/Polling.antt =====
-- When a node is polled: `_should_poll_node`, `_update_poll_state`, `_poll_node_bg` and
-- `_prune_node_caches` of src/sgpu/collector.py.
pub mod Bounds
pub mod Prune
pub mod Absence
pub mod Tests
use slurm_gpu_tui.Prelude.{
  ℕ, suc, ◌+◌, ◌-◌, ◌*◌, ◌^◌, Str, Bool, true, false, Option, none, some, List, [], ◌∷◌, ◌++◌,
}
use slurm_gpu_tui.Prelude.{
  ◌==◌, str_eq, ◌&&◌, ◌||◌, not, if◌then◌else◌, ltb, leb, min, map, keep, all, add, contains,
  discard, length,
}
use slurm_gpu_tui.Prelude.Dict.{Dict, get, put, pop, get_or, has, keys, or_default}
use slurm_gpu_tui.Prelude.Text.{codes, lower, has_substring}
use slurm_gpu_tui.Data.{GpuInfo, NodeMemInfo, NodeErrorKind, no_error, stale_cached, second}

-- Seconds, in ticks.
abbrev pub interval_hot : ℕ
interval_hot = 5 * second

abbrev pub interval_cold : ℕ
interval_cold = 20 * second

abbrev pub interval_down : ℕ
interval_down = 60 * second

-- An entry of `_node_poll_state`.
pub record PollState : Type 0 where
  pub last_poll : ℕ
  pub interval : ℕ
  pub consecutive_failures : ℕ
  pub last_ok : ℕ

abbrev pub fresh_state : PollState
fresh_state = record {
  last_poll = 0;
  interval = interval_hot;
  consecutive_failures = 0;
  last_ok = 0;
}

unfoldable pub should_poll_node : ℕ → Str → Dict Str PollState → Bool
should_poll_node now name states =
    let state = get_or states name fresh_state in leb (state.last_poll + state.interval) now

abbrev is_out : Str → Bool
is_out s = has_substring (codes "down") s || has_substring (codes "drain") s

-- The entry after a poll.
unfoldable pub next_state : ℕ → Bool → Bool → Str → PollState → PollState
next_state now success node_is_cold slurm_state state =
    let polled = record state { last_poll = now } in
    if is_out (lower slurm_state)
    then record polled { interval = interval_down }
    else if not success
    then record polled {
      consecutive_failures = state.consecutive_failures + 1;
      interval = min interval_down (interval_hot * 2 ^ (state.consecutive_failures + 1));
    }
    else record polled {
      consecutive_failures = 0;
      last_ok = now;
      interval = if node_is_cold then interval_cold else interval_hot;
    }

unfoldable pub update_poll_state :
    ℕ → Str → Bool → Bool → Str → Dict Str PollState → Dict Str PollState
unfolding next_state
update_poll_state now name success node_is_cold slurm_state states =
    put name (next_state now success node_is_cold slurm_state (get_or states name fresh_state))
      states

-- An entry of `_node_results`, and what a poll gives.
pub record Result : Type 0 where
  pub gpus : List GpuInfo
  pub mem : Option NodeMemInfo
  pub error : Str
  pub error_kind : NodeErrorKind
  pub stale : Bool
  pub observed_at : Option ℕ

pub record Poll : Type 0 where
  pub gpus : List GpuInfo
  pub mem : NodeMemInfo
  pub err : Str

-- The collector's variables that a poll and the pruning change.
pub record Pollers : Type 0 where
  pub node_results : Dict Str Result
  pub node_poll_state : Dict Str PollState
  pub inflight : List Str
  pub agent_payload_cache : List Str
  pub untrusted_payloads : List Str
  pub untrusted_warned : List Str
  pub node_absent_cycles : Dict Str ℕ

module _ (max_pending : ℕ) where
  -- The first section of `_poll_node_bg`: whether a poll starts.
  unfoldable pub begin_poll : Str → Pollers → Bool × Pollers
  begin_poll name s =
      if contains s.inflight name || leb max_pending (length s.inflight)
      then (false, s)
      else (true, record s { inflight = add name s.inflight })

-- The poll could not be submitted.
unfoldable pub abort_poll : Str → Pollers → Pollers
abort_poll name s = record s { inflight = discard name s.inflight }

abbrev is_idle_util : Str → Bool
is_idle_util u = contains (codes "0" ∷ [] ∷ codes "N/A" ∷ []) u

module _ (classify_error : Str → NodeErrorKind) where
  -- The result that is kept: the last good one turns stale where the poll fails.
  abbrev pub result_after : Poll → ℕ → Option Result → Result
  result_after poll now prev =
      let failed : Result = record {
        gpus = [];
        mem = none;
        error = poll.err;
        error_kind = classify_error poll.err;
        stale = false;
        observed_at = none;
      } in
      if poll.err == []
      then record {
        gpus = poll.gpus;
        mem = some poll.mem;
        error = [];
        error_kind = no_error;
        stale = false;
        observed_at = some now;
      }
      else elim prev [
        | none ↦ failed
        | some r ↦
            if r.error == [] then record r { stale = true; error_kind = stale_cached } else failed
      ]

  -- The section that ends a poll. `clock` is the wall clock, `now` the monotonic one.
  unfoldable pub end_poll : Str → Str → Bool → Poll → ℕ → ℕ → Pollers → Pollers
  unfolding update_poll_state
  end_poll name slurm_state has_jobs poll clock now s =
      let success = poll.err == [] in
      let cold = success && all (λ g. is_idle_util g.util) poll.gpus && not has_jobs in
      record s {
        node_results = put name (result_after poll clock (get s.node_results name)) s.node_results;
        node_poll_state = update_poll_state now name success cold slurm_state s.node_poll_state;
        inflight = discard name s.inflight;
      }

-- `_prune_node_caches`.
unfoldable pub tracked : Pollers → List Str
tracked s =
    keys s.node_results
    ++ keys s.node_poll_state
    ++ s.inflight
    ++ s.agent_payload_cache
    ++ s.untrusted_payloads
    ++ s.untrusted_warned
    ++ keys s.node_absent_cycles

unfoldable pub pop_all {ℓ} : {V : Type ℓ} → List Str → Dict Str V → Dict Str V
pop_all [] d = d
pop_all (name ∷ names) d = pop_all names (pop name d)

unfoldable pub unique : List Str → List Str
unique [] = []
unique (x ∷ xs) = add x (unique xs)

unfoldable pub count_absent : List Str → Dict Str ℕ → Dict Str ℕ
count_absent [] d = d
count_absent (name ∷ names) d = count_absent names (put name (get_or d name 0 + 1) d)

abbrev pub without : List Str → List Str → List Str
without names = keep (λ name. not (contains names name))

module _ (prune_after : ℕ) where
  unfoldable pub retired_of : Dict Str ℕ → List Str
  retired_of d = keys (keep (λ e. leb prune_after e.1) d)

  unfoldable pub prune_node_caches : List Str → Pollers → Pollers
  unfolding tracked pop_all unique count_absent retired_of
  prune_node_caches live_names s =
      let absent =
        count_absent (without live_names (unique (tracked s)))
          (pop_all live_names s.node_absent_cycles) in
      let retired = retired_of absent in
      record s {
        node_results = pop_all retired s.node_results;
        node_poll_state = pop_all retired s.node_poll_state;
        agent_payload_cache = without retired s.agent_payload_cache;
        untrusted_payloads = without retired s.untrusted_payloads;
        untrusted_warned = without retired s.untrusted_warned;
        node_absent_cycles = pop_all retired absent;
      }
