-- ===== src/LogShare.antt =====
-- The shared job logs: the state of src/sgpu/collector.py behind `_log_lock`, and the sections that
-- run under that lock. A section is atomic; those of the collect loop and of the mirror workers
-- interleave.
pub mod Seeds
pub mod Mirror
pub mod Tails
pub mod Threads
pub mod Tests
use slurm_gpu_tui.Prelude.{
  ℕ, ◌+◌, ◌*◌, ◌^◌, Str, Bool, true, false, Option, none, some, List, [], ◌∷◌,
}
use slurm_gpu_tui.Prelude.{
  ◌==◌, Comparable, nat_beq, nat_eq, nat_beq_iff, str_eq, list_beq, list_beq_iff, ◌&&◌, ◌||◌, not,
}
use slurm_gpu_tui.Prelude.{if◌then◌else◌, contains, discard, min, leb, ◌≡◌, ◌↔◌, refl, arith}
use slurm_gpu_tui.Prelude.Int.{ℤ}
use slurm_gpu_tui.Prelude.Dict.{Dict, get, put, pop, get_or}
use slurm_gpu_tui.Prelude.Text.{codes}

-- The two streams of a job, "out" and "err".
pub data Suffix : Type 0 where
  out err : Suffix

abbrev pub suffix_beq : Suffix → Suffix → Bool
suffix_beq out out = true
suffix_beq err err = true
suffix_beq out err = false
suffix_beq err out = false

pub suffix_beq_iff : (a b : Suffix) → (suffix_beq a b ≡ true) ↔ (a ≡ b)
suffix_beq_iff a b = ground arith

instance abbrev pub suffix_eq : Comparable Suffix
suffix_eq = record { test = suffix_beq; test_iff = suffix_beq_iff }

-- A file of the spool, `<jobid>.<suffix>`, by its two parts.
abbrev pub Dst : Type 0
Dst = Str × Suffix

abbrev pub dst_beq : Dst → Dst → Bool
dst_beq (j, a) (k, b) = list_beq j k && suffix_beq a b

pub dst_beq_iff : (a b : Dst) → (dst_beq a b ≡ true) ↔ (a ≡ b)
dst_beq_iff (j, a) (k, b) = ground (arith, list_beq_iff j k, suffix_beq_iff a b)

instance abbrev pub dst_eq : Comparable Dst
dst_eq = record { test = dst_beq; test_iff = dst_beq_iff }

-- The tuple of numbers that tells whether a source has changed.
abbrev pub Fingerprint : Type 0
Fingerprint = List ℕ

-- The module's variables, the files of the spool, and the supply of fresh `object()` tokens.
pub record Logs : Type 0 where
  pub paths : Dict Str (Str × Str)
  pub owner_uids : Dict Str ℤ
  pub fingerprint : Dict Dst Fingerprint
  pub published : Dict Str (Dict Suffix Dst)
  pub status : Dict Str (Dict Suffix Str)
  pub seed_tokens : Dict Str ℕ
  pub next_check : Dict Str ℕ
  pub unchanged : Dict Str ℕ
  pub live : List Str
  pub inflight : List Str
  pub files : Dict Dst Str
  pub fresh : ℕ

abbrev pub or_empty {ℓ} : {A : Type ℓ} → Option (List A) → List A
or_empty none = []
or_empty (some d) = d

-- `_log_seed_tokens.get(jid) is token`
abbrev pub is_token : Option ℕ → ℕ → Bool
is_token none t = false
is_token (some u) t = nat_beq u t

abbrev pub holds_token : Logs → Str → ℕ → Bool
holds_token s jid t = contains s.live jid && is_token (get s.seed_tokens jid) t

abbrev pub permits : Logs → Str → Option ℕ → Bool
permits s jid none = true
permits s jid (some t) = is_token (get s.seed_tokens jid) t

-- `_set_log_status`
unfoldable pub set_log_status : Str → Suffix → Str → Option ℕ → Logs → Logs
set_log_status jid suffix text token s =
    if contains s.live jid && permits s jid token
    then record s { status = put jid (put suffix text (or_empty (get s.status jid))) s.status }
    else s

-- The spool file of a stream. The callers have checked the job id.
abbrev pub without_stream :
    Suffix
    → Option (Dict Suffix Dst)
    → Str
    → Dict Str (Dict Suffix Dst)
    → Dict Str (Dict Suffix Dst)
without_stream suffix none jid d = d
without_stream suffix (some streams) jid d = elim (pop suffix streams) [
  | [] ↦ pop jid d
  | x ∷ xs ↦ put jid (x ∷ xs) d
]

-- The unlink of a mirror, whose error is ignored.
abbrev pub unlink_file : Dst → Bool → Dict Dst Str → Dict Dst Str
unlink_file d unlinked files = if unlinked then pop d files else files

-- `_unpublish_log_stream`, with whether the unlink succeeds.
unfoldable pub unpublish_log_stream : Str → Suffix → Option ℕ → Bool → Logs → Logs
unpublish_log_stream jid suffix token unlinked s =
    if permits s jid token
    then record s {
      published = without_stream suffix (get s.published jid) jid s.published;
      fingerprint = pop (jid, suffix) s.fingerprint;
      files = unlink_file (jid, suffix) unlinked s.files;
    }
    else s

abbrev pub publish_stream : Str → Suffix → Dict Str (Dict Suffix Dst) → Dict Str (Dict Suffix Dst)
publish_stream jid suffix d = put jid (put suffix (jid, suffix) (or_empty (get d jid))) d

-- The write of a mirrored tail, if the job is live and the worker's token is the job's.
unfoldable pub publish_tail : Str → Suffix → ℕ → Str → Fingerprint → Logs → Logs
publish_tail jid suffix token tail fp s =
    if holds_token s jid token
    then record s {
      files = put (jid, suffix) tail s.files;
      fingerprint = put (jid, suffix) fp s.fingerprint;
      published = publish_stream jid suffix s.published;
    }
    else s

-- An unchanged source whose mirror is there: only the entry is published.
unfoldable pub keep_tail : Str → Suffix → ℕ → Logs → Logs
keep_tail jid suffix token s =
    if holds_token s jid token
    then record s { published = publish_stream jid suffix s.published }
    else s

-- `_drop_log_spool`: the section that forgets the job, and for each stream the section that forgets
-- the fingerprint and the unlink after it, which runs without the lock.
unfoldable pub drop_job : Str → Logs → Logs
drop_job jid s = record s {
  published = pop jid s.published;
  next_check = pop jid s.next_check;
  unchanged = pop jid s.unchanged;
  owner_uids = pop jid s.owner_uids;
  status = pop jid s.status;
  seed_tokens = pop jid s.seed_tokens;
  live = discard jid s.live;
}

unfoldable pub forget_fingerprint : Str → Suffix → Logs → Logs
forget_fingerprint jid suffix s = record s { fingerprint = pop (jid, suffix) s.fingerprint }

unfoldable pub unlink_stream : Str → Suffix → Bool → Logs → Logs
unlink_stream jid suffix unlinked s = record s {
  files = unlink_file (jid, suffix) unlinked s.files;
}

unfoldable pub forget_paths : Str → Logs → Logs
forget_paths jid s = record s { paths = pop jid s.paths }
