-- ===== src/Roster/Names.antt =====
-- Each node stands once in a snapshot, with the jobs that list it.
use slurm_gpu_tui.Prelude.{
  ℕ, ◌+◌, ◌≤◌, ◌≡◌, refl, arith, Str, Bool, true, false, Option, none, some, List, [], ◌∷◌,
}
use slurm_gpu_tui.Prelude.{
  ◌==◌, ==_iff, str_eq, if◌then◌else◌, contains, count, map, count-uncontained, ap,
}
use slurm_gpu_tui.Prelude.Int.{ℤ}
use slurm_gpu_tui.Prelude.Text.{split, splitlines}
use slurm_gpu_tui.Prelude.Dict.{Dict}
use slurm_gpu_tui.Data.{JobInfo}
use slurm_gpu_tui.Roster.{
  RawNode, raw_of, with_partition, add_row, add_some, rows_of_lines, collect_nodes_basic,
}
use slurm_gpu_tui.Roster.{NodeSshResult, build_node, build_nodes}

abbrev pub names : List RawNode → List Str
names = map (λ r. r.name)

name-with_partition : (p : Str) (r : RawNode) → (with_partition p r).name ≡ r.name
unfolding with_partition
name-with_partition p r = ground arith

contains-add_row :
    (r : RawNode) (rows : List RawNode) (k : Str)
    → count k (names (add_row r rows)) ≡ (
        if contains (names rows) r.name
        then count k (names rows)
        else count k (names rows) + (if r.name == k then 1 else 0))
unfolding add_row
contains-add_row r [] k = ground arith
contains-add_row r (q ∷ rows) k =
    ground (arith, contains-add_row r rows k, name-with_partition r.partition q)

Once : List Str → Type 0
Once xs = (k : Str) → count k xs ≤ 1

add_row-Once :
    (r : RawNode) (rows : List RawNode) → Once (names rows) → Once (names (add_row r rows))
unfolding Once
add_row-Once r rows h k =
    ground
      (arith, contains-add_row r rows k, h k, ==_iff r.name k, count-uncontained k (names rows))

rows_of_lines-Once :
    (lines : List Str) (rows : List RawNode)
    → Once (names rows)
    → Once (names (rows_of_lines lines rows))
unfolding rows_of_lines
rows_of_lines-Once [] rows h = h
rows_of_lines-Once (line ∷ lines) rows h =
    rows_of_lines-Once lines (add_some (raw_of (split b'|' line)) rows)
      (added (raw_of (split b'|' line)))
  where
    added : (o : Option RawNode) → Once (names (add_some o rows))
    added none = h
    added (some r) = add_row-Once r rows h

collect-Once : (ok : Bool) (out : Str) → Once (names (collect_nodes_basic ok out).0)
unfolding collect_nodes_basic Once
collect-Once true out k = rows_of_lines-Once (splitlines out) [] (λ j. omega arith) k
collect-Once false out k = omega arith

module _ (age_sec : ℤ) (backend : Option Str) (error : Str) (now : ℕ) where
  names-build_nodes :
      (rows : List RawNode) (node_jobs : Dict Str (List JobInfo)) (results : Dict Str NodeSshResult)
      (stale_nodes : List Str)
      → map (λ n. n.name) (build_nodes age_sec backend error now rows node_jobs results stale_nodes)
        ≡ names rows
  unfolding build_nodes build_node
  names-build_nodes [] node_jobs results stale_nodes = refl
  names-build_nodes (r ∷ rows) node_jobs results stale_nodes =
      ap (λ ns. r.name ∷ ns) (names-build_nodes rows node_jobs results stale_nodes)

  -- However often `sinfo` repeats a node, the snapshot that is built from its answer has the node
  -- at most once.
  pub snapshot-once :
      (ok : Bool) (out : Str) (node_jobs : Dict Str (List JobInfo))
      (results : Dict Str NodeSshResult) (stale_nodes : List Str) (k : Str)
      → count k (
          map
            (λ n. n.name)
            (build_nodes age_sec backend error now
              (collect_nodes_basic ok out).0
              node_jobs
              results
              stale_nodes))
        ≤ 1
  unfolding Once
  snapshot-once ok out node_jobs results stale_nodes k =
      rw (names-build_nodes (collect_nodes_basic ok out).0 node_jobs results stale_nodes)
        (collect-Once ok out k)
