-- ===== src/LogShare/Threads.antt =====
-- The collect loop and the mirror workers as interleaved sections. The loop runs the sections that
-- `_share_logs` leaves it one by one, and begins a new cycle when none is left. A worker may run any
-- of its sections at any time, with any token. Each unlink may succeed or fail.
pub mod Cleanup
pub mod Ownership
pub mod Seeding
pub mod Sections
pub mod Spool
pub mod Worker
use slurm_gpu_tui.Prelude.{
  ℕ, suc, ◌<◌, ◌≡◌, ◌≢◌, refl, arith, Str, Bool, true, false, Option, none, some,
}
use slurm_gpu_tui.Prelude.{
  List, [], ◌∷◌, ◌++◌, ◌==◌, ==_iff, str_eq, ◌||◌, not, if◌then◌else◌, contains, any, add, discard,
}
use slurm_gpu_tui.Prelude.Dict.{get}
use slurm_gpu_tui.Data.{JobInfo}
use slurm_gpu_tui.LogShare.{Suffix, out, err, suffix_eq, Dst, dst_eq, Fingerprint, Logs}
use slurm_gpu_tui.LogShare.{set_log_status, unpublish_log_stream, publish_tail, keep_tail, drop_job}
use slurm_gpu_tui.LogShare.{unlink_stream, forget_paths, forget_fingerprint}
use slurm_gpu_tui.LogShare.Seeds.{Reset, Cycle, take_over}
use slurm_gpu_tui.LogShare.Mirror.{start, finish, reschedule}

-- What the collect loop has still to do after the section of `_share_logs`.
pub data Chore : Type 0 where
  unpublish : Str → Suffix → ℕ → Chore
  forget : Str → Chore
  drop : Str → Chore
  unmark : Str → Suffix → Chore
  unlink : Str → Suffix → Chore

-- The flag says whether an unlink in the chore succeeds.
unfoldable pub run_chore : Bool → Chore → Logs → Logs
unfolding unpublish_log_stream forget_paths drop_job forget_fingerprint unlink_stream
run_chore ok (unpublish jid suffix t) s = unpublish_log_stream jid suffix (some t) ok s
run_chore ok (forget jid) s = forget_paths jid s
run_chore ok (drop jid) s = drop_job jid s
run_chore ok (unmark jid suffix) s = forget_fingerprint jid suffix s
run_chore ok (unlink jid suffix) s = unlink_stream jid suffix ok s

unfoldable pub reset_chores : List Reset → List Chore
reset_chores [] = []
reset_chores (r ∷ rs) = unpublish r.jobid r.suffix r.token ∷ reset_chores rs

unfoldable pub gone_chores : List Str → List Chore
gone_chores [] = []
gone_chores (jid ∷ jids) =
    forget jid
    ∷ drop jid
    ∷ unmark jid out
    ∷ unlink jid out
    ∷ unmark jid err
    ∷ unlink jid err
    ∷ gone_chores jids

abbrev pub chores_of : Cycle → List Chore
chores_of c = reset_chores c.reset_streams ++ gone_chores c.gone

-- `stuck`: the files whose last unlink after the end of their job has failed.
pub record System : Type 0 where
  pub logs : Logs
  pub chores : List Chore
  pub stuck : List Dst

abbrev pub note_unlink : Bool → Chore → List Dst → List Dst
note_unlink ok (unpublish jid suffix t) stuck = stuck
note_unlink ok (forget jid) stuck = stuck
note_unlink ok (drop jid) stuck = stuck
note_unlink ok (unmark jid suffix) stuck = stuck
note_unlink ok (unlink jid suffix) stuck =
    if ok then discard (jid, suffix) stuck else add (jid, suffix) stuck

abbrev pub initial : System
initial = record {
  logs = record {
    paths = [];
    owner_uids = [];
    fingerprint = [];
    published = [];
    status = [];
    seed_tokens = [];
    next_check = [];
    unchanged = [];
    live = [];
    inflight = [];
    files = [];
    fresh = 0;
  };
  chores = [];
  stuck = [];
}

module _ (mirror_sec mirror_max_sec : ℕ) where
  pub data Step : System → System → Type 0 where
    cycle :
        (y : System) (jobs : List JobInfo) (now : ℕ)
        → y.chores ≡ []
        → Step y (record y {
          logs = (take_over mirror_sec jobs now y.logs).logs;
          chores = chores_of (take_over mirror_sec jobs now y.logs);
        })
    chore :
        (y : System) (ok : Bool) (c : Chore) (rest : List Chore)
        → y.chores ≡ c ∷ rest
        → Step y (record {
          logs = run_chore ok c y.logs;
          chores = rest;
          stuck = note_unlink ok c y.stuck;
        })
    begin : (y : System) (jid : Str) → Step y (record y { logs = start jid y.logs })
    report :
        (y : System) (jid : Str) (suffix : Suffix) (text : Str) (t : ℕ)
        → Step y (record y { logs = set_log_status jid suffix text (some t) y.logs })
    withdraw :
        (y : System) (jid : Str) (suffix : Suffix) (t : ℕ) (ok : Bool)
        → Step y (record y { logs = unpublish_log_stream jid suffix (some t) ok y.logs })
    publish :
        (y : System) (jid : Str) (suffix : Suffix) (t : ℕ) (tail : Str) (fp : Fingerprint)
        → Step y (record y { logs = publish_tail jid suffix t tail fp y.logs })
    confirm :
        (y : System) (jid : Str) (suffix : Suffix) (t : ℕ)
        → Step y (record y { logs = keep_tail jid suffix t y.logs })
    delay :
        (y : System) (jid : Str) (t : ℕ) (unchanged : Bool) (now : ℕ)
        → Step y
            (record y { logs = reschedule mirror_sec mirror_max_sec jid t unchanged now y.logs })
    finished : (y : System) (jid : Str) → Step y (record y { logs = finish jid y.logs })

  pub data Reach (y : System) : System → Type 0 where
    here : Reach y y
    next : {z w : System} → Reach y z → Step z w → Reach y w

-- Which jobs the remaining chores drop, and which files they unlink.
abbrev pub is_drop : Str → Chore → Bool
is_drop k (unpublish jid suffix t) = false
is_drop k (forget jid) = false
is_drop k (drop jid) = jid == k
is_drop k (unmark jid suffix) = false
is_drop k (unlink jid suffix) = false

abbrev pub is_unlink : Dst → Chore → Bool
is_unlink d (unpublish jid suffix t) = false
is_unlink d (forget jid) = false
is_unlink d (drop jid) = false
is_unlink d (unmark jid suffix) = false
is_unlink d (unlink jid suffix) = (jid, suffix) == d

abbrev pub drops : Str → List Chore → Bool
drops k = any (is_drop k)

abbrev pub unlinks : Dst → List Chore → Bool
unlinks d = any (is_unlink d)
