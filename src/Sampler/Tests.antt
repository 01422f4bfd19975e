-- ===== src/Sampler/Tests.antt =====
-- A query that fails after one that succeeded.
use slurm_gpu_tui.Prelude.{some, [], ◌∷◌, str_eq}
use slurm_gpu_tui.Prelude.Int.{pos}
use slurm_gpu_tui.Prelude.Text.{codes}
use slurm_gpu_tui.Data.{JobInfo, no_job}
use slurm_gpu_tui.Sampler.{Sample, Sampler, crashed}

abbrev job : JobInfo
job = record no_job { jobid = codes "5"; uid = pos 1000; log_paths = some (codes "/o", codes "/e") }

abbrev sample : Sample
sample = record {
  nodes = [];
  jobs = job ∷ [];
  pending = [];
  node_jobs = [];
  alloc = [];
  users = [];
  status = record { job_backend = codes "json"; observed_at = 100; age_sec = pos 0; error = [] };
  error = [];
}

abbrev sampler : Sampler
sampler = record {
  future = some (crashed (codes "x"));
  snapshot = some sample;
  next_poll = 0;
  error = [];
}
