-- ===== src/NodeJobs/Shares.antt =====
-- A job's CPUs are split over its nodes without loss.
use slurm_gpu_tui.Prelude.{ℕ, suc, ◌+◌, ◌*◌, ◌<◌, ◌≡◌, ◌≢◌, refl, ◌∙◌, arith, Str, min}
use slurm_gpu_tui.Prelude.{List, [], ◌∷◌, ◌++◌, str_eq, ◌==◌, ==_iff, map}
use slurm_gpu_tui.Prelude.{ltb, if◌then◌else◌, length}
use slurm_gpu_tui.Prelude.Int.{ℤ, pos, negsuc, ◌+ℤ◌, pos_part, neg_part, floor_div, floor_mod}
use slurm_gpu_tui.Prelude.Int.{sum_ℤ, +ℤ_parts, eq_of_parts}
use slurm_gpu_tui.Prelude.Dict.{Dict, get, put, get-put}
use slurm_gpu_tui.Data.{JobInfo}
use slurm_gpu_tui.NodeJobs.{job_nodes, share, shares_from, entries_on, entries, or_nil, add_entries}
use slurm_gpu_tui.NodeJobs.{assign_from, assign_node_jobs}
use mathlib.Core.List.{append-nil, append_assoc}

-- The CPU counts of the entries.
abbrev pub cpus_of : List (Str × JobInfo) → List ℤ
cpus_of = map (λ e. e.1.cpu_count)

-- The sum of `m` shares from the `i`th on, by its positive and its negative part.
sum-shares :
    (j : JobInfo) (n i : ℕ) (nodes : List Str)
    → let s = sum_ℤ (cpus_of (shares_from j n i nodes)) in
      let base = floor_div j.cpu_count n in
      let rem = floor_mod j.cpu_count n in
      pos_part s + length nodes * neg_part base + min rem i
      ≡ neg_part s + length nodes * pos_part base + min rem (i + length nodes)
unfolding shares_from share
sum-shares j n i [] = omega arith
sum-shares j n i (node ∷ nodes) =
    let base = floor_div j.cpu_count n in
    let one : ℕ = if ltb i (floor_mod j.cpu_count n) then 1 else 0 in
    ground (
      arith,
      sum-shares j n (i + 1) nodes,
      +ℤ_parts base (pos one),
      +ℤ_parts (base +ℤ pos one) (sum_ℤ (cpus_of (shares_from j n (i + 1) nodes))),
    )

whole :
    (j : JobInfo) (nodes : List Str) (n : ℕ)
    → length nodes ≡ n
    → 0 < n
    → sum_ℤ (cpus_of (shares_from j n 0 nodes)) ≡ j.cpu_count
whole j nodes n e h = eq_of_parts _ _ (parts j.cpu_count refl)
  where
    parts :
        (c : ℤ)
        → j.cpu_count ≡ c
        → let s = sum_ℤ (cpus_of (shares_from j n 0 nodes)) in
          pos_part s + neg_part j.cpu_count ≡ pos_part j.cpu_count + neg_part s
    parts (pos c) f = rw f (omega (arith, rw (e, f) at (sum-shares j n 0 nodes)))
    parts (negsuc c) f = rw f (omega (arith, rw (e, f) at (sum-shares j n 0 nodes)))

-- A job on several nodes is split without loss: its shares add up to its CPU count. On one node
-- the job keeps its count.
pub sum-entries : (j : JobInfo) → job_nodes j ≢ [] → sum_ℤ (cpus_of (entries j)) ≡ j.cpu_count
unfolding entries
sum-entries j h = split (job_nodes j) h
  where
    split : (nodes : List Str) → nodes ≢ [] → sum_ℤ (cpus_of (entries_on j nodes)) ≡ j.cpu_count
    split [] h = absurd (h refl)
    split (node ∷ []) h = eq_of_parts _ _ (omega (arith, +ℤ_parts j.cpu_count (pos 0)))
    split (node ∷ other ∷ nodes) h =
        whole j (node ∷ other ∷ nodes) (suc (suc (length nodes))) (omega arith) (omega arith)

-- The jobs that the entries list for one node.
pub at_node : Str → List (Str × JobInfo) → List JobInfo
at_node k [] = []
at_node k ((node, j) ∷ es) = let rest = at_node k es in if node == k then j ∷ rest else rest

-- The entries of all jobs, in order.
pub all_entries : List JobInfo → List (Str × JobInfo)
all_entries [] = []
all_entries (j ∷ jobs) = entries j ++ all_entries jobs

module _ (k : Str) where
  at_node-append :
      (xs ys : List (Str × JobInfo)) → at_node k (xs ++ ys) ≡ at_node k xs ++ at_node k ys
  unfolding at_node
  at_node-append [] ys = refl
  at_node-append ((node, j) ∷ xs) ys = ground (arith, at_node-append xs ys)

  get-add_entries :
      (es : List (Str × JobInfo)) (d : Dict Str (List JobInfo))
      → or_nil (get (add_entries es d) k) ≡ or_nil (get d k) ++ at_node k es
  unfolding add_entries at_node
  get-add_entries [] d = rw append-nil
  get-add_entries ((node, j) ∷ es) d =
      get-add_entries es (put node (or_nil (get d node) ++ (j ∷ [])) d)
      ∙ rw get-put (
          ground (arith, ==_iff node k, append_assoc (or_nil (get d node)) (j ∷ []) (at_node k es)))

  get-assign_from :
      (jobs : List JobInfo) (d : Dict Str (List JobInfo))
      → or_nil (get (assign_from jobs d) k) ≡ or_nil (get d k) ++ at_node k (all_entries jobs)
  unfolding assign_from all_entries
  get-assign_from [] d = unfold at_node in rw append-nil
  get-assign_from (j ∷ jobs) d =
      get-assign_from jobs (add_entries (entries j) d)
      ∙ rw (get-add_entries (entries j) d, at_node-append (entries j) (all_entries jobs))
          (append_assoc (or_nil (get d k)) (at_node k (entries j)) (at_node k (all_entries jobs)))

-- A node's jobs are those that list it, in the order of the queue.
pub get-assign_node_jobs :
    (jobs : List JobInfo) (k : Str)
    → or_nil (get (assign_node_jobs jobs) k) ≡ at_node k (all_entries jobs)
unfolding assign_node_jobs
get-assign_node_jobs jobs k = get-assign_from k jobs [] ∙ unfold get in refl
