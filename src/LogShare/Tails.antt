-- ===== src/LogShare/Tails.antt =====
-- What `_mirror_one_job_log` of src/sgpu/collector.py leaves in the spool, run without interruption.
use slurm_gpu_tui.Prelude.{
  ℕ, ◌≡◌, refl, ap, ◌∙◌, arith, Str, Bool, true, false, Option, none, some, [],
}
use slurm_gpu_tui.Prelude.{
  ◌==◌, str_eq, nat_eq, if◌then◌else◌, contains, Bool-cases, inl, inr, ==_refl,
}
use slurm_gpu_tui.Prelude.Int.{ℤ, pos, negsuc}
use slurm_gpu_tui.Prelude.Dict.{get, get-put, get-pop, has-put, has-pop}
use slurm_gpu_tui.Prelude.Text.{codes}
use slurm_gpu_tui.Queue.Fields.{valid_slurm_job_id}
use slurm_gpu_tui.LogShare.{
  Suffix, out, err, suffix_eq, dst_eq, dst_beq, dst_beq_iff, Fingerprint, Logs, or_empty, is_token,
  holds_token, set_log_status, unpublish_log_stream, publish_tail, keep_tail,
}
use slurm_gpu_tui.LogShare.Seeds.{unavailable}
use slurm_gpu_tui.LogShare.Mirror.{
  Reading, start, start_with, start_token, finish, reschedule, known_fingerprint, mirror_stream,
  mirror_streams, mirror_owned, mirror_one_job_log, settle, configured_status, both_statuses,
}

-- The mirror of a stream after the answer for its source: gone where the source was not safe to
-- read, if it can be unlinked; the new tail, if there is one and the job is live.
abbrev pub tail_after : Bool → Bool → Option Fingerprint → Option Str → Option Str → Option Str
tail_after live unlinked none tail before = if unlinked then none else before
tail_after live unlinked (some fp) (some tail) before = if live then some tail else before
tail_after live unlinked (some fp) none before = before

abbrev pub source_of : Suffix → Str × Str → Str
source_of out (src_out, src_err) = src_out
source_of err (src_out, src_err) = src_err

-- What the sections of a worker leave alone.
abbrev Keeps : Logs → Logs → Type 0
Keeps t s = (t.live ≡ s.live) × (t.seed_tokens ≡ s.seed_tokens)

abbrev SameFiles : Logs → Logs → Type 0
SameFiles t s = (t.files ≡ s.files) × (t.fingerprint ≡ s.fingerprint) × Keeps t s

report-SameFiles :
    (jid : Str) (a : Suffix) (text : Str) (o : Option ℕ) (s : Logs)
    → SameFiles (set_log_status jid a text o s) s
unfolding set_log_status
report-SameFiles jid a text o s = ground arith

delay-files :
    (sec max_sec : ℕ) (jid : Str) (t : ℕ) (u : Bool) (now : ℕ) (s : Logs)
    → (reschedule sec max_sec jid t u now s).files ≡ s.files
unfolding reschedule
delay-files sec max_sec jid t u now s = elim (Bool-cases (holds_token s jid t)) [
  | inl e ↦ rw e refl
  | inr e ↦ rw e refl
]

settle-Keeps :
    (jid : Str) (a : Suffix) (t : ℕ) (u : Bool) (fp : Option Fingerprint) (tail : Option Str)
    (s : Logs)
    → Keeps (settle jid a t u fp tail s) s
unfolding unpublish_log_stream publish_tail keep_tail
settle-Keeps jid a t u none tail s = ground arith
settle-Keeps jid a t u (some fp) (some tail) s = elim (Bool-cases (holds_token s jid t)) [
  | inl e ↦ rw e (refl, refl)
  | inr e ↦ rw e (refl, refl)
]
settle-Keeps jid a t u (some fp) none s = ground arith

-- The worker has the job's token.
abbrev Holds : Str → ℕ → Logs → Type 0
Holds jid t s = is_token (get s.seed_tokens jid) t ≡ true

settle-tail :
    (jid : Str) (a : Suffix) (t : ℕ) (u : Bool) (fp : Option Fingerprint) (tail : Option Str)
    (s : Logs)
    → Holds jid t s
    → get (settle jid a t u fp tail s).files (jid, a)
      ≡ tail_after (contains s.live jid) u fp tail (get s.files (jid, a))
unfolding unpublish_log_stream publish_tail keep_tail
settle-tail jid a t u none tail s h =
    rw h (ground (arith, get-pop (jid, a) (jid, a) s.files, dst_beq_iff (jid, a) (jid, a)))
settle-tail jid a t u (some fp) (some tail) s h = elim (Bool-cases (contains s.live jid)) [
  | inl e ↦
      rw (e, h)
        (ground (arith, get-put (jid, a) (jid, a) tail s.files, dst_beq_iff (jid, a) (jid, a)))
  | inr e ↦ rw e refl
]
settle-tail jid a t u (some fp) none s h = ground arith

module _ (read_log_source : Str → ℤ → Option Fingerprint → Reading)
    (can_unlink : Str → Suffix → Bool) where
  abbrev known : Str → Suffix → Logs → Option Fingerprint
  known = known_fingerprint read_log_source can_unlink

  -- The other stream of the job, with what is known of it.
  abbrev SameStream : Str → Suffix → Logs → Logs → Type 0
  SameStream jid b t s =
      (get t.files (jid, b) ≡ get s.files (jid, b)) × (known jid b t ≡ known jid b s)

  settle-SameStream :
      (jid : Str) (a b : Suffix) (t : ℕ) (u : Bool) (fp : Option Fingerprint) (tail : Option Str)
      (s : Logs)
      → dst_beq (jid, a) (jid, b) ≡ false
      → SameStream jid b (settle jid a t u fp tail s) s
  unfolding unpublish_log_stream publish_tail keep_tail known_fingerprint
  settle-SameStream jid a b t u none tail s f = (
    ground (arith, get-pop (jid, a) (jid, b) s.files, f),
    ground (arith, has-pop (jid, a) (jid, b) s.files, get-pop (jid, a) (jid, b) s.fingerprint, f),
  )
  settle-SameStream jid a b t u (some fp) (some tail) s f =
      elim (Bool-cases (holds_token s jid t)) [
        | inl e ↦ rw e (
          ground (arith, get-put (jid, a) (jid, b) tail s.files, f),
          ground (
            arith,
            has-put (jid, a) (jid, b) tail s.files,
            get-put (jid, a) (jid, b) fp s.fingerprint,
            f,
          ),
        )
        | inr e ↦ rw e (refl, refl)
      ]
  settle-SameStream jid a b t u (some fp) none s f = (ground arith, ground arith)

  -- The mirror of a stream after its round of the loop.
  abbrev pub mirrored_tail : Str → Suffix → ℤ → Str → Logs → Option Str
  mirrored_tail jid a uid src s =
      let r = read_log_source src uid (known jid a s) in
      let before = get s.files (jid, a) in
      if src == []
      then before
      else tail_after (contains s.live jid) (can_unlink jid a) r.fingerprint r.tail before

  record IsRound (jid : Str) (a : Suffix) (uid : ℤ) (src : Str) (s t : Logs) : Type 0 where
    kept : Keeps t s
    tail : get t.files (jid, a) ≡ mirrored_tail jid a uid src s
    other : (b : Suffix) → dst_beq (jid, a) (jid, b) ≡ false → SameStream jid b t s

  same-SameStream : (jid : Str) (b : Suffix) (t s : Logs) → SameFiles t s → SameStream jid b t s
  unfolding known_fingerprint
  same-SameStream jid b t s h = (rw h.0 refl, rw (h.0, h.1) refl)

  stream-IsRound :
      (jid : Str) (t : ℕ) (uid : ℤ) (src : Str) (a : Suffix) (u : Bool) (s : Logs)
      → Holds jid t s
      → IsRound jid a uid src s (mirror_stream read_log_source can_unlink jid t uid src a (u, s)).1
  unfolding mirror_stream
  stream-IsRound jid t uid src a u s h = elim (Bool-cases (src == [])) [
    | inl e ↦
        let text = configured_status a (get (or_empty (get s.status jid)) a) in
        let same = report-SameFiles jid a text (some t) s in
        rw e (record {
          kept = same.2;
          tail = rw (e, same.0) refl;
          other = λ b f. same-SameStream jid b (set_log_status jid a text (some t) s) s same;
        })
    | inr e ↦
        let r = read_log_source src uid (known jid a s) in
        let s' = set_log_status jid a r.status (some t) s in
        let same = report-SameFiles jid a r.status (some t) s in
        let kept = settle-Keeps jid a t (can_unlink jid a) r.fingerprint r.tail s' in
        let held : Holds jid t s' = rw same.2.1 h in
        rw e (record {
          kept = (kept.0 ∙ same.2.0, kept.1 ∙ same.2.1);
          tail =
              settle-tail jid a t (can_unlink jid a) r.fingerprint r.tail s' held
              ∙ rw (e, same.0, same.2.0) refl;
          other = λ b f.
              let one = settle-SameStream jid a b t (can_unlink jid a) r.fingerprint r.tail s' f in
              let two = same-SameStream jid b s' s same in (one.0 ∙ two.0, one.1 ∙ two.1);
        })
  ]

  module _ (mirror_sec mirror_max_sec : ℕ) where
    -- The mirror of a stream after a run of the worker: the recorded owner must be known and not
    -- negative, and the paths must be recorded.
    abbrev pub mirrored_owned : Str → Suffix → Option ℤ → Option (Str × Str) → Logs → Option Str
    mirrored_owned jid a (some (pos n)) (some paths) s =
        mirrored_tail jid a (pos n) (source_of a paths) s
    mirrored_owned jid a _ _ s = get s.files (jid, a)

    streams-tail :
        (jid : Str) (t : ℕ) (uid : ℤ) (paths : Str × Str) (now : ℕ) (a : Suffix) (s : Logs)
        → Holds jid t s
        → get
            (mirror_streams read_log_source can_unlink mirror_sec mirror_max_sec jid t uid paths now
              s).files
            (jid, a)
          ≡ mirrored_tail jid a uid (source_of a paths) s
    unfolding mirror_streams
    streams-tail jid t uid (src_out, src_err) now a s h =
        let r1 = mirror_stream read_log_source can_unlink jid t uid src_out out (true, s) in
        let r2 = mirror_stream read_log_source can_unlink jid t uid src_err err r1 in
        let one = stream-IsRound jid t uid src_out out true s h in
        let two = stream-IsRound jid t uid src_err err r1.0 r1.1 (rw one.kept.1 h) in
        ap (λ d. get d (jid, a)) (delay-files mirror_sec mirror_max_sec jid t r2.0 now r2.1)
        ∙ go a r1.1 r2.1 one two
      where
        go :
            (a : Suffix) (s1 s2 : Logs)
            → IsRound jid out uid src_out s s1
            → IsRound jid err uid src_err s1 s2
            → get s2.files (jid, a) ≡ mirrored_tail jid a uid (source_of a (src_out, src_err)) s
        go out s1 s2 one two =
            (two.other out (ground (arith, dst_beq_iff (jid, err) (jid, out)))).0 ∙ one.tail
        go err s1 s2 one two =
            let same = one.other err (ground (arith, dst_beq_iff (jid, out) (jid, err))) in
            two.tail ∙ rw (same.0, same.1, one.kept.0) refl

    both-files :
        (jid text : Str) (t : ℕ) (s : Logs)
        → (both_statuses read_log_source can_unlink mirror_sec mirror_max_sec jid text t s).files
          ≡ s.files
    both-files jid text t s =
        (report-SameFiles jid err text (some t) (set_log_status jid out text (some t) s)).0
        ∙ (report-SameFiles jid out text (some t) s).0

    owned-tail :
        (jid : Str) (t : ℕ) (owner : Option ℤ) (paths : Option (Str × Str)) (now : ℕ) (a : Suffix)
        (s : Logs)
        → Holds jid t s
        → get
            (mirror_owned read_log_source can_unlink mirror_sec mirror_max_sec jid t owner paths now
              s).files
            (jid, a)
          ≡ mirrored_owned jid a owner paths s
    owned-tail jid t none paths now a s h =
        ap (λ d. get d (jid, a)) (both-files jid (codes "untrusted-owner") t s)
    owned-tail jid t (some (negsuc n)) paths now a s h =
        ap (λ d. get d (jid, a)) (both-files jid (codes "untrusted-owner") t s)
    owned-tail jid t (some (pos n)) none now a s h =
        ap (λ d. get d (jid, a)) (both-files jid unavailable t s)
    owned-tail jid t (some (pos n)) (some paths) now a s h =
        streams-tail jid t (pos n) paths now a s h

    start-Holds :
        (o : Option ℕ) (jid : Str) (s : Logs)
        → get s.seed_tokens jid ≡ o
        → Holds jid (start_token o s.fresh) (start_with o jid s)
    start-Holds none jid s e = rw get-put (ground (arith, ==_refl jid))
    start-Holds (some t) jid s e = rw e (ground arith)

    start-tail :
        (o : Option ℕ) (jid : Str) (a : Suffix) (owner : Option ℤ) (paths : Option (Str × Str))
        (s : Logs)
        → mirrored_owned jid a owner paths (start_with o jid s) ≡ mirrored_owned jid a owner paths s
    unfolding known_fingerprint
    start-tail none jid a none paths s = refl
    start-tail none jid a (some (negsuc n)) paths s = refl
    start-tail none jid a (some (pos n)) none s = refl
    start-tail none jid a (some (pos n)) (some p) s = refl
    start-tail (some t) jid a owner paths s = refl

    -- After an uninterrupted run of the worker of a valid job, the mirror of each stream is what the
    -- source at the recorded path, read for the recorded owner, makes of it: gone where it was not
    -- safe to read and the unlink succeeds, the new tail where there is one and the job is live, and
    -- what it was otherwise, as where the owner or the paths are not recorded.
    pub mirror_one_job_log-tail :
        (jid : Str) (now : ℕ) (a : Suffix) (s : Logs)
        → valid_slurm_job_id jid ≡ true
        → get
            (mirror_one_job_log read_log_source can_unlink mirror_sec mirror_max_sec jid now
              s).files
            (jid, a)
          ≡ mirrored_owned jid a (get s.owner_uids jid) (get s.paths jid) s
    unfolding mirror_one_job_log start finish
    mirror_one_job_log-tail jid now a s v =
        let o = get s.seed_tokens jid in
        rw v (
          owned-tail jid (start_token o s.fresh) (get s.owner_uids jid) (get s.paths jid) now a
            (start_with o jid s) (start-Holds o jid s refl)
          ∙ start-tail o jid a (get s.owner_uids jid) (get s.paths jid) s)
