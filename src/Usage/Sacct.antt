-- ===== src/Usage/Sacct.antt =====
-- `_sacct_backfill` and `_maybe_backfill_sacct` of src/sgpu/collector.py. What `sacct` answers, the
-- local midnights and dates, and the reading of a time stamp come from outside.
use slurm_gpu_tui.Prelude.{
  ℕ, zero, suc, ◌+◌, ◌-◌, ◌*◌, Str, Bool, true, false, Option, none, some, List, [], ◌∷◌,
}
use slurm_gpu_tui.Prelude.{◌==◌, str_eq, ◌||◌, not, if◌then◌else◌, ltb, leb, nat_beq, map, sum, min}
use slurm_gpu_tui.Prelude.Dict.{Dict, put, get_or, or_default}
use slurm_gpu_tui.Prelude.Text.{codes, split, splitlines, number, is_digit}
use slurm_gpu_tui.Data.{second}
use slurm_gpu_tui.Queue.Fields.{span, after_prefix}
use slurm_gpu_tui.Usage.{Ledger, is_kept}

-- The digits after `gres/gpu=` at the start of a piece, with the rest of the piece.
abbrev leading_number : Option Str → Option ℕ
leading_number none = none
leading_number (some s) =
    let digits = (span is_digit s).0 in if digits == [] then none else some (number digits)

unfoldable pub plain_count : Str → Option ℕ
plain_count piece = leading_number (after_prefix (codes "gres/gpu=") piece)

-- `gres/gpu:[^=,]+=(\d+)`
abbrev typed_from : Option Str → ℕ
typed_from none = 0
typed_from (some s) =
    let (type, rest) = span (λ c. not (nat_beq c b'=')) s in
    if type == [] then 0 else or_default 0 (leading_number (after_prefix (codes "=") rest))

unfoldable pub typed_tres : Str → ℕ
typed_tres piece = typed_from (after_prefix (codes "gres/gpu:") piece)

abbrev first_some : List (Option ℕ) → Option ℕ
first_some [] = none
first_some (none ∷ os) = first_some os
first_some (some n ∷ os) = some n

unfoldable pub gpu_count_from_tres : Str → ℕ
unfolding plain_count typed_tres
gpu_count_from_tres tres =
    let pieces = split b',' tres in
    or_default (sum (map typed_tres pieces)) (first_some (map plain_count pieces))

module _ (midnight : ℕ → ℕ) (day_key : ℕ → Str) where
  abbrev pub day_end : ℕ → ℕ
  day_end t = midnight t + 86_400 * second

  abbrev pub cons_some {ℓ} : {A : Type ℓ} → A → Option (List A) → Option (List A)
  cons_some a none = none
  cons_some a (some xs) = some (a ∷ xs)

  -- The loop that splits `[cur, t1)` at the ends of the days: `none` if the fuel ends before it.
  unfoldable pub segments : ℕ → ℕ → ℕ → Option (List (Str × ℕ))
  segments zero cur t1 = none
  segments (suc fuel) cur t1 =
      let rest = segments fuel (day_end cur) t1 in
      if ltb cur t1 then cons_some (day_key cur, min t1 (day_end cur) - cur) rest else some []

  -- Every round goes on by one tick at least where the loop ends.
  abbrev pub job_segments : ℕ → ℕ → Option (List (Str × ℕ))
  job_segments t0 t1 = segments (suc (t1 - t0)) t0 t1

  unfoldable pub credit :
      Str → Str → ℕ → List (Str × ℕ) → Dict Str (Dict Str ℕ) → Dict Str (Dict Str ℕ)
  credit cutoff user ngpu [] days = days
  credit cutoff user ngpu ((key, seg) ∷ segs) days =
      let bucket = get_or days key [] in
      credit cutoff user ngpu segs (
        if is_kept cutoff key
        then put key (put user (get_or bucket user 0 + ngpu * seg) bucket) days
        else days)

  module _ (read_time : Str → Option ℕ) (cutoff : Str) (now : ℕ) where
    abbrev absent : Str → Bool
    absent s = s == [] || s == codes "Unknown" || s == codes "None" || s == codes "N/A"

    unfoldable pub parse_sacct_time : Str → Option ℕ
    parse_sacct_time s = if absent s then none else read_time s

    -- `_parse_sacct_time(s_end) or now`
    abbrev end_or_now : Option ℕ → ℕ
    end_or_now none = now
    end_or_now (some zero) = now
    end_or_now (some (suc t)) = suc t

    abbrev credit_segments :
        Str → ℕ → Option (List (Str × ℕ)) → Dict Str (Dict Str ℕ) → Option (Dict Str (Dict Str ℕ))
    credit_segments user ngpu none days = none
    credit_segments user ngpu (some segs) days = some (credit cutoff user ngpu segs days)

    abbrev pub credit_job :
        Str → ℕ → Option ℕ → ℕ → Dict Str (Dict Str ℕ) → Option (Dict Str (Dict Str ℕ))
    credit_job user ngpu none t1 days = some days
    credit_job user ngpu (some t0) t1 days =
        if leb t1 t0 then some days else credit_segments user ngpu (job_segments t0 t1) days

    -- One line of the answer: four fields.
    abbrev row_of_sacct : List Str → Dict Str (Dict Str ℕ) → Option (Dict Str (Dict Str ℕ))
    row_of_sacct (user ∷ tres ∷ s_start ∷ s_end ∷ []) days =
        if user == [] || leb (gpu_count_from_tres tres) 0
        then some days
        else credit_job user (gpu_count_from_tres tres) (parse_sacct_time s_start)
            (min (end_or_now (parse_sacct_time s_end)) now) days
    row_of_sacct _ days = some days

    unfoldable pub rows_of_sacct : List Str → Dict Str (Dict Str ℕ) → Option (Dict Str (Dict Str ℕ))
    rows_of_sacct [] days = some days
    rows_of_sacct (line ∷ lines) days = elim (row_of_sacct (split b'|' line) days) [
      | none ↦ none
      | some days' ↦ rows_of_sacct lines days'
    ]

    abbrev take_days : Option (Dict Str (Dict Str ℕ)) → Ledger → Option (Bool × Ledger)
    take_days none l = none
    take_days (some days) l = some (
      true,
      record l {
        usage = record l.usage { sacct_days = days; sacct_ts = some now };
        usage_dirty = true;
        sacct_failures = 0;
      },
    )

    -- `none`: the loop over the days of a job does not end.
    unfoldable pub sacct_backfill : Bool → Str → Ledger → Option (Bool × Ledger)
    unfolding rows_of_sacct
    sacct_backfill ok out l =
        if ok
        then take_days (rows_of_sacct (splitlines out) []) l
        else some (false, record l { sacct_failures = l.sacct_failures + 1 })

-- Whether a worker starts. `backfill_sec` is `SACCT_BACKFILL_SEC`, in ticks.
abbrev pub max_failures : ℕ
max_failures = 3

unfoldable pub maybe_backfill_sacct : ℕ → ℕ → Ledger → Bool × Ledger
maybe_backfill_sacct backfill_sec now l =
    if nat_beq backfill_sec 0
      || l.sacct_inflight
      || leb max_failures l.sacct_failures
      || ltb now (or_default 0 l.usage.sacct_ts + backfill_sec)
      || ltb now (l.sacct_last_attempt + min backfill_sec (900 * second))
    then (false, l)
    else (true, record l { sacct_last_attempt = now; sacct_inflight = true })
