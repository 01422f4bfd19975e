-- ===== src/Nodelist/Strict/Bounds.antt =====
-- What `_strict_expand_nodes` lets through.
use slurm_gpu_tui.Prelude.{ℕ, ◌-◌, ◌*◌, ◌≤◌, ◌<◌, ◌≡◌, ◌≢◌, refl, arith, Str, Bool, true, false}
use slurm_gpu_tui.Prelude.{some, List, [], ◌∷◌, ◌++◌, ◌==◌, ==_iff, str_eq, ◌||◌}
use slurm_gpu_tui.Prelude.{Option-cases, ltb, length, all, any, contains, count, length-append}
use slurm_gpu_tui.Prelude.{Bool-cases, inl, inr}
use slurm_gpu_tui.Prelude.Text.{codes}
use slurm_gpu_tui.Prelude.Sort.{str_leb, length-sort, count-sort}
use slurm_gpu_tui.Nodelist.{split_top_level}
use slurm_gpu_tui.Nodelist.Bounds.{combinations, length-products}
use slurm_gpu_tui.Nodelist.Tokens.{tokens}
use slurm_gpu_tui.Nodelist.Strict.{strict_groups, fits, strict_name, strict_names, is_node_name}
use slurm_gpu_tui.Nodelist.Strict.{all_distinct, checked, strict_expand_nodes, legacy_max_nodes}

fits-le :
    (total room : ℕ) (gs : List (List Str))
    → total ≤ room
    → fits total gs room ≡ true
    → total * combinations gs ≤ room
unfolding fits
fits-le total room [] h f = omega arith
fits-le total room (g ∷ gs) h f = ground (arith, fits-le (total * length g) room gs)

pub fits-cons-le :
    (room : ℕ) (gs : List (List Str)) → gs ≢ [] → fits 1 gs room ≡ true → combinations gs ≤ room
unfolding fits
fits-cons-le room [] h f = absurd (h refl)
fits-cons-le room (g ∷ gs) h f = ground (arith, fits-le (1 * length g) room gs)

length-strict_name :
    (name : Str) (room : ℕ) (more : List Str)
    → strict_name name room ≡ some more
    → length more ≤ room
unfolding strict_name
length-strict_name name room more h = elim (Option-cases (strict_groups (tokens name))) [
  | inl e ↦ cc (rw e at h)
  | inr (gs, e) ↦ ground (arith, rw e at h, fits-cons-le room gs, length-products gs)
]

length-strict_names :
    (names hosts all_hosts : List Str)
    → strict_names names hosts ≡ some all_hosts
    → length hosts ≤ legacy_max_nodes
    → length all_hosts ≤ legacy_max_nodes
unfolding strict_names
length-strict_names [] hosts all_hosts h l = ground arith
length-strict_names (name ∷ names) hosts all_hosts h l =
    elim (Option-cases (strict_name name (legacy_max_nodes - length hosts))) [
      | inl e ↦ cc (rw e at h)
      | inr (more, e) ↦
          let fit = length-strict_name name (legacy_max_nodes - length hosts) more e in
          let grown = length-append {0} hosts more in
          length-strict_names names (hosts ++ more) all_hosts (rw e at h) (omega arith)
    ]

count-distinct : (hs : List Str) (host : Str) → all_distinct hs ≡ true → count host hs ≤ 1
unfolding all_distinct
count-distinct [] host h = omega arith
count-distinct (x ∷ hs) host h =
    ground (arith, count-distinct hs host, ==_iff x host, contains-count hs x)
  where
    contains-count : (hs : List Str) (x : Str) → contains hs x ≡ false → count x hs ≡ 0
    contains-count [] x h = refl
    contains-count (y ∷ hs) x h = ground (arith, contains-count hs x)

contains-count_pos :
    (xs : List Str) (x : Str)
    → (contains xs x ≡ true → 0 < count x xs) × (0 < count x xs → contains xs x ≡ true)
contains-count_pos [] x = ((λ h. cc), (λ h. elim h [ ]))
contains-count_pos (y ∷ xs) x = ground (arith, contains-count_pos xs x)

all-contains :
    (p : Str → Bool) (xs : List Str) (x : Str) → all p xs ≡ true → contains xs x ≡ true → p x ≡ true
all-contains p [] x h c = cc
all-contains p (y ∷ xs) x h c = ground (arith, all-contains p xs x, ==_iff y x)

-- What is known of a list that passed the checks.
pub record IsRoster (hosts : List Str) : Type 0 where
  pub bounded : length hosts ≤ legacy_max_nodes
  pub once : (host : Str) → count host hosts ≤ 1
  pub named : (host : Str) → contains hosts host ≡ true → is_node_name host ≡ true

checked-IsRoster :
    (found hosts : List Str)
    → checked found ≡ some hosts
    → length found ≤ legacy_max_nodes
    → IsRoster hosts
unfolding checked
checked-IsRoster [] hosts h l = cc
checked-IsRoster (f ∷ found) hosts h l =
    let found' = f ∷ found in
    record {
      bounded = ground (arith, length-sort {0} str_leb found');
      once = λ host. ground (arith, count-sort {0} str_leb host found', count-distinct found' host);
      named = λ host c. ground (
        arith,
        count-sort {0} str_leb host found',
        contains-count_pos hosts host,
        contains-count_pos found' host,
        all-contains is_node_name found' host,
      );
    }

-- An accepted node list is a roster: at most 4096 hosts, none of them twice, each a plain name.
pub strict_expand_nodes-IsRoster :
    (expr : Str) (hosts : List Str) → strict_expand_nodes expr ≡ some hosts → IsRoster hosts
unfolding strict_expand_nodes
strict_expand_nodes-IsRoster expr hosts h =
    elim (Bool-cases (expr == [] || expr == codes "(null)" || expr == codes "N/A")) [
      | inl e ↦ empty_roster (rw e at h)
      | inr e ↦ elim (Bool-cases (ltb 8192 (length expr) || any (λ ch. ltb ch 32) expr)) [
        | inl f ↦ cc (rw (e, f) at h)
        | inr f ↦ elim (Option-cases (strict_names (split_top_level expr) [])) [
          | inl g ↦ cc (rw (e, f, g) at h)
          | inr (found, g) ↦
              checked-IsRoster found hosts (rw (e, f, g) at h)
                (length-strict_names (split_top_level expr) [] found g (omega arith))
        ]
      ]
    ]
  where
    empty_roster : some [] ≡ some hosts → IsRoster hosts
    empty_roster h = record {
      bounded = ground arith;
      once = λ host. ground arith;
      named = λ host c. ground arith;
    }
