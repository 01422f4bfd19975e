-- ===== src/LogShare/Mirror.antt =====
-- `_mirror_one_job_log` of src/sgpu/collector.py, run without interruption. What the file system
-- answers comes from outside.
use slurm_gpu_tui.Prelude.{ℕ, suc, ◌+◌, ◌*◌, ◌^◌, Str, Bool, true, false, Option, none, some, []}
use slurm_gpu_tui.Prelude.{◌==◌, str_eq, ◌&&◌, if◌then◌else◌, discard, min}
use slurm_gpu_tui.Prelude.Int.{ℤ, pos, negsuc}
use slurm_gpu_tui.Prelude.Dict.{get, put, get_or, has}
use slurm_gpu_tui.Prelude.Text.{codes}
use slurm_gpu_tui.Queue.Fields.{valid_slurm_job_id}
use slurm_gpu_tui.LogShare.{
  Suffix, out, err, suffix_eq, dst_eq, Fingerprint, Logs, or_empty, holds_token,
}
use slurm_gpu_tui.LogShare.{set_log_status, unpublish_log_stream, publish_tail, keep_tail}
use slurm_gpu_tui.LogShare.Seeds.{unavailable}

-- The answer of `_read_log_source`: the new tail if there is one, the fingerprint if the source was
-- safe to read, and the status.
pub record Reading : Type 0 where
  pub tail : Option Str
  pub fingerprint : Option Fingerprint
  pub status : Str

-- `fp is not None and fp == known and data is None`
abbrev same_fingerprint : Option Fingerprint → Option Fingerprint → Bool
same_fingerprint (some f) (some k) = f == k
same_fingerprint _ _ = false

abbrev pub is_unread : Reading → Option Fingerprint → Bool
is_unread r known = elim r.tail [ none ↦ same_fingerprint r.fingerprint known | some d ↦ false ]

-- What the worker does with an answer.
abbrev pub settle : Str → Suffix → ℕ → Bool → Option Fingerprint → Option Str → Logs → Logs
settle jid suffix token unlinked none tail s =
    unpublish_log_stream jid suffix (some token) unlinked s
settle jid suffix token unlinked (some fp) (some tail) s = publish_tail jid suffix token tail fp s
settle jid suffix token unlinked (some fp) none s =
    if has s.files (jid, suffix) then keep_tail jid suffix token s else s

-- `prior if suffix == "err" and prior == "merged" else "not-configured"`
abbrev pub configured_status : Suffix → Option Str → Str
configured_status err (some t) = if t == codes "merged" then t else codes "not-configured"
configured_status _ _ = codes "not-configured"

-- The first section: the worker takes the job's token, or makes one.
abbrev pub start_token : Option ℕ → ℕ → ℕ
start_token (some t) fresh = t
start_token none fresh = fresh

abbrev pub start_with : Option ℕ → Str → Logs → Logs
start_with (some t) jid s = s
start_with none jid s = record s {
  seed_tokens = put jid s.fresh s.seed_tokens;
  fresh = suc s.fresh;
}

unfoldable pub start : Str → Logs → Logs
start jid s = start_with (get s.seed_tokens jid) jid s

-- The `finally` clause.
unfoldable pub finish : Str → Logs → Logs
finish jid s = record s { inflight = discard jid s.inflight }

module _ (mirror_sec mirror_max_sec : ℕ) where
  -- The next check comes later while nothing changes, up to the maximum.
  unfoldable pub reschedule : Str → ℕ → Bool → ℕ → Logs → Logs
  reschedule jid token unchanged now s =
      let count = if unchanged then min 6 (1 + get_or s.unchanged jid 0) else 0 in
      if holds_token s jid token
      then record s {
        unchanged = put jid count s.unchanged;
        next_check = put jid (now + min mirror_max_sec (mirror_sec * 2 ^ count)) s.next_check;
      }
      else s

-- What the file system answers: the reading of a source, and whether a mirror can be unlinked.
module _ (read_log_source : Str → ℤ → Option Fingerprint → Reading)
    (can_unlink : Str → Suffix → Bool) where
  -- `known`: the fingerprint, if the mirror is still there.
  unfoldable pub known_fingerprint : Str → Suffix → Logs → Option Fingerprint
  known_fingerprint jid suffix s =
      if has s.files (jid, suffix) then get s.fingerprint (jid, suffix) else none

  -- One round of the loop over the two streams, with the flag `unchanged`.
  unfoldable pub mirror_stream : Str → ℕ → ℤ → Str → Suffix → Bool × Logs → Bool × Logs
  unfolding known_fingerprint set_log_status unpublish_log_stream publish_tail keep_tail
  mirror_stream jid token owner_uid src suffix (unchanged, s) =
      let known = known_fingerprint jid suffix s in
      let r = read_log_source src owner_uid known in
      if src == []
      then (
        unchanged,
        set_log_status jid suffix
            (configured_status suffix (get (or_empty (get s.status jid)) suffix)) (some token) s,
      )
      else (
        unchanged && is_unread r known,
        settle jid suffix token (can_unlink jid suffix) r.fingerprint r.tail
            (set_log_status jid suffix r.status (some token) s),
      )

  module _ (mirror_sec mirror_max_sec : ℕ) where
    unfoldable pub mirror_streams : Str → ℕ → ℤ → Str × Str → ℕ → Logs → Logs
    unfolding mirror_stream reschedule
    mirror_streams jid token owner_uid (src_out, src_err) now s =
        let r =
          mirror_stream jid token owner_uid src_err err
            (mirror_stream jid token owner_uid src_out out (true, s)) in
        reschedule mirror_sec mirror_max_sec jid token r.0 now r.1

    abbrev pub both_statuses : Str → Str → ℕ → Logs → Logs
    both_statuses jid text token s =
        set_log_status jid err text (some token) (set_log_status jid out text (some token) s)

    -- The checks before the loop: the owner is known and not negative, and there are paths.
    abbrev pub mirror_owned : Str → ℕ → Option ℤ → Option (Str × Str) → ℕ → Logs → Logs
    mirror_owned jid token none paths now s = both_statuses jid (codes "untrusted-owner") token s
    mirror_owned jid token (some (negsuc n)) paths now s =
        both_statuses jid (codes "untrusted-owner") token s
    mirror_owned jid token (some (pos n)) none now s = both_statuses jid unavailable token s
    mirror_owned jid token (some (pos n)) (some paths) now s =
        mirror_streams jid token (pos n) paths now s

    unfoldable pub mirror_one_job_log : Str → ℕ → Logs → Logs
    unfolding start finish mirror_streams valid_slurm_job_id
    mirror_one_job_log jid now s = finish jid (
        if valid_slurm_job_id jid
        then mirror_owned jid (start_token (get s.seed_tokens jid) s.fresh) (get s.owner_uids jid)
            (get s.paths jid) now (start jid s)
        else s)
