-- ===== src/Alerts/Tests.antt =====
-- A card that a user holds without an allocation for the grace time.
use slurm_gpu_tui.Prelude.Text.{starts_with}
use slurm_gpu_tui.Prelude.Dict.{put}
use slurm_gpu_tui.Prelude.Dict.{get_or}
use slurm_gpu_tui.Prelude.{list_beq}
use slurm_gpu_tui.Alerts.{process_alerts}
use slurm_gpu_tui.Prelude.{
  ℕ, ◌+◌, Str, true, false, str_eq, nat_eq, List, [], ◌∷◌, ◌≡◌, refl, leb, contains,
}
use slurm_gpu_tui.Prelude.Dict.{get, or_default}
use slurm_gpu_tui.Prelude.Text.{codes}
use slurm_gpu_tui.Data.{NodeInfo, no_gpu, no_node}
use slurm_gpu_tui.Alerts.{AlertSettings, AlertState}
use slurm_gpu_tui.Alerts.Rogue.{is_rogue}
use slurm_gpu_tui.Alerts.Patience.{Snapshot, uses, step, steps, clock, rogue_alert-after_grace}

abbrev set : AlertSettings
set = record {
  pending_alert = 0;
  waste_alert = 0;
  rogue_alert = true;
  rogue_grace_sec = 300;
  rogue_ignore = codes "root" ∷ [];
  temp_alert_c = 0;
  ecc_alert = false;
  free_gpus_min = 0;
  debounce_sec = 1800;
  nag_realert_sec = 21600;
}

abbrev node : NodeInfo
node = record no_node {
  name = codes "n1";
  gpus = record no_gpu { index = codes "0"; users = codes "root" ∷ codes "eve" ∷ [] } ∷ [];
}

abbrev at : ℕ → Snapshot
at now = record { now = now; errors = false; pending = []; nodes = node ∷ [] }

abbrev history : List Snapshot
history = at 100000 ∷ record (at 100200) { errors = true } ∷ []

abbrev fresh : AlertState
fresh = record { pend_seen = []; pending_rogue = []; free_was_below = true; last_sent = [] }

abbrev key : Str
key = codes "rogue:n1:0:eve"

early_run : (step set (at 100299) (steps set history fresh)).1 ≡ []
unfolding process_alerts list_beq get_or get steps put
early_run = refl

late_run : (step set (at 100300) (steps set history fresh)).1 ≡ key ∷ []
unfolding process_alerts list_beq get_or get steps put
late_run = refl

announced : contains (step set (at 100300) (steps set history fresh)).1 key ≡ true
unfolding process_alerts list_beq get_or get steps put
announced = refl

named : is_rogue key ≡ true
unfolding starts_with
named = refl

rogue_alert-after_grace_example :
    (uses set key (at 100300) ≡ true)
    × (leb (or_default 100300 (clock set key history (get fresh.pending_rogue key)) + 300) 100300
        ≡ true)
rogue_alert-after_grace_example =
    rogue_alert-after_grace set key history (at 100300) fresh named announced
