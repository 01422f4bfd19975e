-- ===== src/Lib.antt =====
-- slurm_gpu_tui: a model of the collector side of `sgpu`, which watches the GPUs of a Slurm
-- cluster.
--
-- The collector asks Slurm for the queue, the nodes and the jobs' owners, binds the allocations
-- of each node to its cards, splits the CPUs of the jobs over their nodes, mirrors the tails of
-- the jobs' logs into a spool that every user can read, keeps accounts of GPU hours, decides
-- when to poll each node, and alerts on nodes in trouble and on jobs that end. What the
-- scheduler says passes through the sampler first: once it is stale, no job has an owner any
-- more, so that no log is shared. The files follow these parts:
--   Prelude        tests, equality, lists, integers, association lists, text, sorting
--   Data           the data classes of src/sgpu/common.py
--   Nodelist       `expand_nodelist`, `_expand_idx` and, in Nodelist/Strict, the bounded
--                  `_strict_expand_nodes` that the queue parser uses
--   Queue          `_parse_queue_output`, with its field checks in Queue/Fields
--   NodeJobs       `assign_node_jobs`
--   Records        a job record of `scontrol --json`: its scalars, ids and public detail, and, in
--                  Records/Jobs, `parse_job_json`
--   Legacy         `_parse_legacy_jobs`, the text output of `scontrol` between two rosters of the
--                  queue, with its fields in Legacy/Fields, its GPUs in Legacy/Gpus and the loops
--                  in Legacy/Jobs; Legacy/Acceptance is about the ids that are not rejected
--   Scheduler      `_collect_scheduler_jobs`, which chooses between the two; Scheduler/Basic is
--                  `collect_basic`, the sample that the sampler keeps
--   Binding        `reconcile_gpu_alloc` and `apply_gpu_alloc`
--   LogShare       the log spool of src/sgpu/collector.py: the shared variables and the sections
--                  under `_log_lock`; LogShare/Seeds is the section of `_share_logs`,
--                  LogShare/Mirror is `_mirror_one_job_log`, LogShare/Tails what a run of it
--                  leaves, LogShare/Threads the interleaving of the sections
--   Usage          the GPU-hour accounts of src/sgpu/collector.py; Usage/Sacct is `_sacct_backfill`
--   UsageView      `merge_usage_window` of src/sgpu/usage.py
--   Polling        the poll intervals, the background polls and `_prune_node_caches`
--   Notify         the node alerts of `Notifier.process` in src/sgpu/notify.py
--   Outcomes       the end of watched jobs in `Notifier.process`, and what the outcome worker posts
--   Alerts         the alerts of `Notifier.process` on waiting jobs and on cards
--   Payload        `parse_node_payload`, `shorten_gpu_name` and `_classify_error`
--   Roster         `collect_nodes_basic` and `build_nodes`
--   Sampler        `SchedulerSampler.read`
--   Cards          `classify_gpu`, `gpu_health_status` and `node_gpu_classes` of src/sgpu/cells.py,
--                  and `_track_waste` of src/sgpu/collector.py
--
-- Conventions. A string is a list of code points, and a character class is its ASCII part. A
-- dict is an association list in insertion order, a set is a list whose order is not used. A
-- time is a whole number of ticks. An `object()` token is a number that has not been used
-- before. A spool path is the pair of the job id and the suffix that it is made of. A float is
-- an exact decimal, read without exponents. Every loop of the source is structural recursion
-- over the same sequence, except the loop of `_sacct_backfill` over the days of a job, which has
-- one round of fuel for each tick of the job and one more: it goes on by a tick at least in each
-- round, where it goes on.
--
-- Outside the model: running commands (ssh, squeue, scontrol, nvidia-smi; what they answer is a
-- parameter), `json.loads` (a parameter), exceptions other than those that the code names, the
-- file system (what `_read_log_source` answers and whether an unlink succeeds are parameters),
-- account lookup (`resolve_user` is a parameter), the local calendar (midnights, dates and the
-- reading of time stamps are parameters), threads other than as interleaved sections, the
-- terminal interface and the command line.
pub mod Prelude
pub mod Data
pub mod Nodelist
pub mod Queue
pub mod NodeJobs
pub mod Binding
pub mod LogShare
pub mod Usage
pub mod UsageView
pub mod Polling
pub mod Notify
pub mod Outcomes
pub mod Alerts
pub mod Payload
pub mod Roster
pub mod Sampler
pub mod Scheduler
pub mod Cards
pub mod Records
pub mod Legacy
