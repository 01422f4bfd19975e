-- ===== src/Sampler/Stale.antt =====
-- What a stale or failed scheduler leaves the rest of the collector with.
use slurm_gpu_tui.Prelude.{str_eq}
use slurm_gpu_tui.Sampler.{Sampler}
