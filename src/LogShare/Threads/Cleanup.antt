-- ===== src/LogShare/Threads/Cleanup.antt =====
-- The mirrors of jobs that have left the queue go, whatever the workers do.
use slurm_gpu_tui.Prelude.{ℕ, ◌≡◌, refl, ap, arith, Str, Bool, true, false, none, some}
use slurm_gpu_tui.Prelude.{List, [], ◌∷◌, ==_iff, str_eq, contains}
use slurm_gpu_tui.Prelude.{contains-discard, contains-add, ◌⊎◌, inl, inr, Bool-cases}
use slurm_gpu_tui.Prelude.Dict.{get, has, get-put, get-pop, has-put, has-pop}
use slurm_gpu_tui.Data.{JobInfo}
use slurm_gpu_tui.LogShare.{Suffix, suffix_eq, dst_eq, dst_beq_iff, Fingerprint, Logs}
use slurm_gpu_tui.LogShare.{unpublish_log_stream, publish_tail, keep_tail}
use slurm_gpu_tui.LogShare.{holds_token}
use slurm_gpu_tui.LogShare.Seeds.{take_over}
use slurm_gpu_tui.LogShare.Mirror.{start, finish}
use slurm_gpu_tui.LogShare.Threads.{
  Chore, unpublish, forget, drop, unmark, unlink, run_chore, note_unlink,
}
use slurm_gpu_tui.LogShare.Threads.{chores_of, System, initial, Step, Reach, here, next}
use slurm_gpu_tui.LogShare.Threads.{
  cycle, chore, begin, report, withdraw, publish, confirm, delay, finished,
}
use slurm_gpu_tui.LogShare.Threads.{drops, unlinks}
use slurm_gpu_tui.LogShare.Threads.Spool.{
  SameSpool, drops-chores, unlinks-chores, take_over-spool, take_over-gone,
}
use slurm_gpu_tui.LogShare.Threads.Sections.{
  unpublish-spool, start-spool, report-spool, delay-spool,
}

-- A job out of the live set has no published stream unless its drop is still to come, and no file
-- unless its removal is still to come or has failed; and only jobs out of the live set are dropped.
pub record IsClean (y : System) : Type 0 where
  pub unpublished :
      (k : Str)
      → contains y.logs.live k ≡ false
      → (get y.logs.published k ≡ none) ⊎ (drops k y.chores ≡ true)
  pub removed :
      (k : Str) (suffix : Suffix)
      → contains y.logs.live k ≡ false
      → (has y.logs.files (k, suffix) ≡ false)
        ⊎ ((unlinks (k, suffix) y.chores ≡ true) ⊎ (contains y.stuck (k, suffix) ≡ true))
  pub dead : (k : Str) → drops k y.chores ≡ true → contains y.logs.live k ≡ false

cycle-IsClean :
    (mirror_sec : ℕ) (y : System) (jobs : List JobInfo) (now : ℕ)
    → y.chores ≡ []
    → IsClean y
    → IsClean (record y {
      logs = (take_over mirror_sec jobs now y.logs).logs;
      chores = chores_of (take_over mirror_sec jobs now y.logs);
    })
cycle-IsClean mirror_sec y jobs now e h =
    let c = take_over mirror_sec jobs now y.logs in
    let same = take_over-spool mirror_sec jobs now y.logs in
    record {
      unpublished = λ k l.
          rw (drops-chores k c, same.0)
            (ground (
              arith,
              h.unpublished k,
              take_over-gone mirror_sec jobs now y.logs k,
              ap (λ d. contains d k) same.2,
              ap (drops k) e,
            ));
      removed = λ k suffix l.
          rw (unlinks-chores k suffix c, same.1)
            (ground (
              arith,
              h.removed k suffix,
              take_over-gone mirror_sec jobs now y.logs k,
              ap (λ d. contains d k) same.2,
              ap (unlinks (k, suffix)) e,
            ));
      dead = λ k d.
          rw same.2 ((take_over-gone mirror_sec jobs now y.logs k).0 (rw (drops-chores k c) at d));
    }

chore-IsClean :
    (y : System) (ok : Bool) (c : Chore) (rest : List Chore)
    → y.chores ≡ c ∷ rest
    → IsClean y
    → IsClean
        (record { logs = run_chore ok c y.logs; chores = rest; stuck = note_unlink ok c y.stuck })
unfolding run_chore
chore-IsClean y ok (unpublish j a t) rest e h = record {
  unpublished = λ k l. ground (
    arith,
    unpublish-spool j k a a (some t) ok y.logs,
    h.unpublished k,
    ap (drops k) e,
    ap (λ d. contains d k) (unpublish-spool j k a a (some t) ok y.logs).2,
  );
  removed = λ k b l. ground (
    arith,
    unpublish-spool j k a b (some t) ok y.logs,
    h.removed k b,
    ap (unlinks (k, b)) e,
    ap (λ d. contains d k) (unpublish-spool j k a b (some t) ok y.logs).2,
  );
  dead = λ k d. ground (
    arith,
    h.dead k,
    ap (drops k) e,
    ap (λ d. contains d k) (unpublish-spool j k a a (some t) ok y.logs).2,
  );
}
chore-IsClean y ok (forget j) rest e h = record {
  unpublished = λ k l. ground (arith, h.unpublished k, ap (drops k) e);
  removed = λ k b l. ground (arith, h.removed k b, ap (unlinks (k, b)) e);
  dead = λ k d. ground (arith, h.dead k, ap (drops k) e);
}
chore-IsClean y ok (drop j) rest e h = record {
  unpublished = λ k l. ground (
    arith,
    h.unpublished k,
    h.dead k,
    ap (drops k) e,
    get-pop j k y.logs.published,
    contains-discard j k y.logs.live,
  );
  removed = λ k b l. ground (
    arith,
    h.removed k b,
    h.dead k,
    ap (drops k) e,
    ap (unlinks (k, b)) e,
    contains-discard j k y.logs.live,
    ==_iff j k,
  );
  dead = λ k d. ground (arith, h.dead k, ap (drops k) e, contains-discard j k y.logs.live);
}
chore-IsClean y ok (unmark j a) rest e h = record {
  unpublished = λ k l. ground (arith, h.unpublished k, ap (drops k) e);
  removed = λ k b l. ground (arith, h.removed k b, ap (unlinks (k, b)) e);
  dead = λ k d. ground (arith, h.dead k, ap (drops k) e);
}
chore-IsClean y ok (unlink j a) rest e h = record {
  unpublished = λ k l. ground (arith, h.unpublished k, ap (drops k) e);
  removed = λ k b l. ground (
    arith,
    h.removed k b,
    ap (unlinks (k, b)) e,
    has-pop (j, a) (k, b) y.logs.files,
    contains-discard (j, a) (k, b) y.stuck,
    contains-add (j, a) (k, b) y.stuck,
    dst_beq_iff (j, a) (k, b),
  );
  dead = λ k d. ground (arith, h.dead k, ap (drops k) e);
}

-- A worker's section that touches neither the mirrors nor the live set.
same-IsClean :
    (y : System) (t : Logs) → SameSpool t y.logs → IsClean y → IsClean (record y { logs = t })
same-IsClean y t same h = record {
  unpublished = λ k l. rw same.0 (h.unpublished k (rw same.2 at l));
  removed = λ k b l. rw same.1 (h.removed k b (rw same.2 at l));
  dead = λ k d. rw same.2 (h.dead k d);
}

publish-IsClean :
    (y : System) (j : Str) (a : Suffix) (t : ℕ) (tail : Str) (fp : Fingerprint)
    → IsClean y
    → IsClean (record y { logs = publish_tail j a t tail fp y.logs })
unfolding publish_tail
publish-IsClean y j a t tail fp h = elim (Bool-cases (holds_token y.logs j t)) [
  | inr e ↦ rw e h
  | inl e ↦ rw e (record {
    unpublished = λ k l. rw get-put (ground (arith, h.unpublished k, ==_iff j k));
    removed = λ k b l. rw has-put (ground (arith, h.removed k b, ==_iff j k));
    dead = h.dead;
  })
]

confirm-IsClean :
    (y : System) (j : Str) (a : Suffix) (t : ℕ)
    → IsClean y
    → IsClean (record y { logs = keep_tail j a t y.logs })
unfolding keep_tail
confirm-IsClean y j a t h = elim (Bool-cases (holds_token y.logs j t)) [
  | inr e ↦ rw e h
  | inl e ↦ rw e (record {
    unpublished = λ k l. rw get-put (ground (arith, h.unpublished k, ==_iff j k));
    removed = h.removed;
    dead = h.dead;
  })
]

withdraw-IsClean :
    (y : System) (j : Str) (a : Suffix) (t : ℕ) (ok : Bool)
    → IsClean y
    → IsClean (record y { logs = unpublish_log_stream j a (some t) ok y.logs })
withdraw-IsClean y j a t ok h = record {
  unpublished = λ k l. ground (
    arith,
    unpublish-spool j k a a (some t) ok y.logs,
    h.unpublished k,
    ap (λ d. contains d k) (unpublish-spool j k a a (some t) ok y.logs).2,
  );
  removed = λ k b l. ground (
    arith,
    unpublish-spool j k a b (some t) ok y.logs,
    h.removed k b,
    ap (λ d. contains d k) (unpublish-spool j k a b (some t) ok y.logs).2,
  );
  dead = λ k d. rw (unpublish-spool j k a a (some t) ok y.logs).2 (h.dead k d);
}

module _ (mirror_sec mirror_max_sec : ℕ) where
  pub Step-IsClean : {y z : System} → Step mirror_sec mirror_max_sec y z → IsClean y → IsClean z
  unfolding start finish
  Step-IsClean (cycle y jobs now e) h = cycle-IsClean mirror_sec y jobs now e h
  Step-IsClean (chore y ok c rest e) h = chore-IsClean y ok c rest e h
  Step-IsClean (begin y jid) h =
      same-IsClean y _ (start-spool (get y.logs.seed_tokens jid) jid y.logs) h
  Step-IsClean (report y jid a text t) h =
      same-IsClean y _ (report-spool jid a text (some t) y.logs) h
  Step-IsClean (withdraw y jid a t ok) h = withdraw-IsClean y jid a t ok h
  Step-IsClean (publish y jid a t tail fp) h = publish-IsClean y jid a t tail fp h
  Step-IsClean (confirm y jid a t) h = confirm-IsClean y jid a t h
  Step-IsClean (delay y jid t u now) h =
      same-IsClean y _ (delay-spool mirror_sec mirror_max_sec jid t u now y.logs) h
  Step-IsClean (finished y jid) h = same-IsClean y _ (refl, refl, refl) h

  pub Reach-IsClean : {y z : System} → Reach mirror_sec mirror_max_sec y z → IsClean y → IsClean z
  Reach-IsClean here h = h
  Reach-IsClean (next r st) h = Step-IsClean st (Reach-IsClean r h)

  pub initial-IsClean : IsClean initial
  unfolding get has
  initial-IsClean = record {
    unpublished = λ k l. inl refl;
    removed = λ k a l. inl refl;
    dead = λ k d. cc;
  }

  -- Between two cycles, whatever the workers have done, a job that is out of the live set has no
  -- published stream, and no file of it is in the spool but where the last unlink of that file after
  -- the end of its job has failed.
  pub no_stale_mirror :
      {y : System} (k : Str) (suffix : Suffix)
      → Reach mirror_sec mirror_max_sec initial y
      → y.chores ≡ []
      → contains y.logs.live k ≡ false
      → (get y.logs.published k ≡ none)
        × ((has y.logs.files (k, suffix) ≡ false) ⊎ (contains y.stuck (k, suffix) ≡ true))
  no_stale_mirror k suffix r e l =
      let h = Reach-IsClean r initial-IsClean in
      (
        ground (arith, h.unpublished k l, ap (drops k) e),
        ground (arith, h.removed k suffix l, ap (unlinks (k, suffix)) e),
      )
