-- ===== src/Legacy/Gpus.antt =====
-- The GPUs that an `scontrol -o` record names: `_strict_gpu_indices` and `_legacy_gpu_claims` of
-- src/sgpu/common.py.
use slurm_gpu_tui.Prelude.{
  ℕ, suc, zero, ◌-◌, Str, Bool, true, false, str_eq, nat_eq, Option, none, some, List, [], ◌∷◌,
  ◌++◌,
}
use slurm_gpu_tui.Prelude.{
  ◌&&◌, ◌||◌, not, ◌==◌, ltb, nat_beq, if◌then◌else◌, length, all, any, map, contains,
}
use slurm_gpu_tui.Prelude.Text.{codes, number, show, upper}
use slurm_gpu_tui.Prelude.Words.{words, occurrences}
use slurm_gpu_tui.Queue.Fields.{span, after_prefix}
use slurm_gpu_tui.Nodelist.Strict.{◌>>=◌, strict_range_values, strict_expand_nodes}

abbrev pub max_gpu_indices : ℕ
max_gpu_indices = 1024

abbrev pub max_gpu_index : ℕ
max_gpu_index = 65_535

-- `(?::[^,()]*)?`
abbrev skip_type : Str → Str
skip_type [] = []
skip_type (c ∷ s) =
    if nat_beq c b':'
    then (span (λ d. not (nat_beq d b',' || nat_beq d b'(' || nat_beq d b')')) s).1
    else c ∷ s

-- `([^)]+)\)`: what is in the parentheses, and the text after them.
abbrev up_to_paren : Str × Str → Option (Str × Str)
up_to_paren (group, []) = none
up_to_paren (group, c ∷ rest) = if group == [] then none else some (group, rest)

-- `gpu(?::[^,()]*)?\(IDX:([^)]+)\)` at the start of a text.
unfoldable pub idx_group : Str → Option (Str × Str)
unfolding span after_prefix
idx_group s = after_prefix (codes "gpu") s >>= λ t.
    after_prefix (codes "(IDX:") (skip_type t) >>= λ u.
    up_to_paren (span (λ c. not (nat_beq c b')')) u)

abbrev group_onto : Option (Str × Str) → List Str → List Str
group_onto none groups = groups
group_onto (some (group, rest)) groups = group ∷ groups

-- How much of the text a match has used up.
abbrev used : Option (Str × Str) → Str → ℕ
used none s = 0
used (some (group, rest)) s = length s - length rest

abbrev group_after : ℕ → ℕ → Str → Option (Str × Str)
group_after c zero s = if nat_beq c b',' then idx_group s else none
group_after c (suc skip) s = none

-- The matches after a comma, where `skip` characters belong to the last match.
unfoldable pub groups_from : ℕ → Str → List Str
unfolding idx_group
groups_from skip [] = []
groups_from skip (c ∷ s) =
    let m = group_after c skip s in
    group_onto m (groups_from (if nat_beq skip 0 then used m s else skip - 1) s)

-- `re.findall(r"(?:^|,)gpu(?::[^,()]*)?\(IDX:([^)]+)\)", gres)`
unfoldable pub idx_groups : Str → List Str
unfolding groups_from
idx_groups gres = group_onto (idx_group gres) (groups_from (used (idx_group gres) gres) gres)

abbrev checked_indices : List Str → Option (List Str)
checked_indices values =
    if any (λ v. ltb max_gpu_index (number v)) values
    then none
    else some (map (λ v. show (number v)) values)

unfoldable pub indices_of_groups : List Str → List Str → Option (List Str)
unfolding upper
indices_of_groups [] indices = some indices
indices_of_groups (group ∷ groups) indices =
    if upper group == codes "N/A"
    then indices_of_groups groups indices
    else (strict_range_values group (max_gpu_indices - length indices) >>= λ values.
        checked_indices values >>= λ more. indices_of_groups groups (indices ++ more))

unfoldable pub strict_gpu_indices : Str → Option (List Str)
unfolding idx_groups indices_of_groups
strict_gpu_indices gres =
    let groups = idx_groups gres in
    if nat_beq (occurrences (codes "IDX:") gres) (length groups)
    then indices_of_groups groups []
    else none

-- A segment: the node list and the GRES of four words in a row.
abbrev some_rest : Str → Str → Option Str
some_rest p w = after_prefix p w >>= λ rest. if rest == [] then none else some rest

abbrev segment_at : Str → List Str → Option (Str × Str)
segment_at w (c ∷ m ∷ g ∷ ws) = some_rest (codes "Nodes=") w >>= λ nodes.
    some_rest (codes "CPU_IDs=") c >>= λ cpus.
    some_rest (codes "Mem=") m >>= λ mem. some_rest (codes "GRES=") g >>= λ gres. some (nodes, gres)
segment_at w _ = none

abbrev segment_after : ℕ → Str → List Str → Option (Str × Str)
segment_after zero w ws = segment_at w ws
segment_after (suc skip) w ws = none

abbrev segment_onto : Option (Str × Str) → List (Str × Str) → List (Str × Str)
segment_onto none segs = segs
segment_onto (some seg) segs = seg ∷ segs

abbrev next_skip : ℕ → Option (Str × Str) → ℕ
next_skip zero none = 0
next_skip zero (some seg) = 3
next_skip (suc skip) m = skip

-- `re.finditer(r"(?:^|\s)Nodes=(\S+)\s+CPU_IDs=\S+\s+Mem=\S+\s+GRES=(\S+)", line)`, where `skip`
-- words belong to the last match.
unfoldable pub segments_from : ℕ → List Str → List (Str × Str)
unfolding after_prefix
segments_from skip [] = []
segments_from skip (w ∷ ws) =
    let m = segment_after skip w ws in segment_onto m (segments_from (next_skip skip m) ws)

unfoldable pub segments_of : Str → List (Str × Str)
unfolding segments_from
segments_of line = segments_from 0 (words line)

-- A GPU that a record claims, with the job id that claims it.
pub record GpuClaim : Type 0 where
  pub node : Str
  pub index : Str
  pub jobid : Str

unfoldable pub claims_on : Str → Str → List Str → List GpuClaim
claims_on jobid node [] = []
claims_on jobid node (i ∷ indices) =
    record { node = node; index = i; jobid = jobid } ∷ claims_on jobid node indices

unfoldable pub claims_of_nodes : Str → List Str → List Str → List GpuClaim
unfolding claims_on
claims_of_nodes jobid [] indices = []
claims_of_nodes jobid (node ∷ nodes) indices =
    claims_on jobid node indices ++ claims_of_nodes jobid nodes indices

abbrev subset : List Str → List Str → Bool
subset xs ys = all (contains ys) xs

abbrev guard : {A : Type 0} → Bool → Option A → Option A
guard true o = o
guard false o = none

-- The claims of the segments, after `seen_nodes` and `claims`; the segments must cover the nodes.
unfoldable pub claims_of_segments :
    List Str → Str → List (Str × Str) → List Str → List GpuClaim → Option (List GpuClaim)
unfolding strict_gpu_indices claims_of_nodes
claims_of_segments expected jobid [] seen_nodes claims =
    guard (subset expected seen_nodes) (some claims)
claims_of_segments expected jobid ((nodes_text, gres) ∷ segs) seen_nodes claims =
    strict_expand_nodes nodes_text >>= λ nodes. strict_gpu_indices gres >>= λ indices.
    guard (subset nodes expected && not (any (contains seen_nodes) nodes)) (
      claims_of_segments expected jobid segs (seen_nodes ++ nodes)
        (claims ++ claims_of_nodes jobid nodes indices))

unfoldable pub legacy_gpu_claims : Str → List Str → Str → Option (List GpuClaim)
unfolding segments_of claims_of_segments
legacy_gpu_claims line anchor_nodes raw_jobid = elim (segments_of line) [
  | [] ↦ some []
  | seg ∷ segs ↦ claims_of_segments anchor_nodes raw_jobid (seg ∷ segs) [] []
]
