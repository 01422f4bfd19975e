-- ===== src/UsageView/Tests.antt =====
-- A day that only the sampling knows and one that only sacct knows.
use slurm_gpu_tui.Prelude.Dict.{put}
use slurm_gpu_tui.Prelude.Dict.{get}
use slurm_gpu_tui.Prelude.Dict.{get_or}
use slurm_gpu_tui.Prelude.{list_beq}
use slurm_gpu_tui.Prelude.{Str, Bool, true, str_eq, nat_eq, some, [], ◌∷◌, ◌≡◌, refl, map}
use slurm_gpu_tui.Prelude.Text.{codes}
use slurm_gpu_tui.UsageView.{UsageFile, merge_usage_window}
use slurm_gpu_tui.UsageView.Balance.{IsBalanced, merge_usage_window-IsBalanced}

abbrev raw : UsageFile
raw = record {
  days =
      (
        codes "2026-01-01",
        (codes "ann", record { alloc = 10; busy = 4; waste = 1; observed_alloc = some 8 }) ∷ [],
      )
      ∷ [];
  sacct_days =
      (codes "2026-01-01", (codes "ann", 12) ∷ (codes "bob", 5) ∷ [])
      ∷ (codes "2026-01-02", (codes "ann", 3) ∷ [])
      ∷ [];
}

abbrev keep_all : Str → Bool
keep_all day = true

users_run : map (λ e. e.1.alloc) (merge_usage_window raw keep_all).users ≡ 15 ∷ 5 ∷ []
unfolding merge_usage_window list_beq get_or get put
users_run = refl

days_run : map (λ e. e.1.alloc) (merge_usage_window raw keep_all).daily ≡ 17 ∷ 3 ∷ []
unfolding merge_usage_window list_beq get_or get put
days_run = refl

merge_usage_window-IsBalanced_example : IsBalanced (merge_usage_window raw keep_all)
merge_usage_window-IsBalanced_example = merge_usage_window-IsBalanced raw keep_all
