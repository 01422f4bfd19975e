-- ===== src/Nodelist/Strict/Agreement.antt =====
-- The strict expansion refines the lenient one: where it accepts, both give the same hosts.
use slurm_gpu_tui.Prelude.{ℕ, ◌-◌, ◌*◌, ◌≤◌, ◌≡◌, ◌≢◌, refl, ◌∙◌, arith, ap, Str}
use slurm_gpu_tui.Prelude.{true, false, some, List, [], ◌∷◌, ◌++◌, not, ◌||◌, map}
use slurm_gpu_tui.Prelude.{◌==◌, ==_iff, str_eq, Option-cases, ltb}
use slurm_gpu_tui.Prelude.{max, length, all, any, count, Bool-cases, inl, inr}
use slurm_gpu_tui.Prelude.Text.{codes, strip, split, partition, isdigit, is_digit, is_space}
use slurm_gpu_tui.Prelude.Sort.{str_leb, count-sort}
use slurm_gpu_tui.Nodelist.{split_top_level, expand_part, expand_parts, max_expansion}
use slurm_gpu_tui.Nodelist.{expand_range_spec, token_groups, group_total, expand_name, expand_names}
use slurm_gpu_tui.Nodelist.{expand_nodelist}
use slurm_gpu_tui.Nodelist.Bounds.{combinations}
use slurm_gpu_tui.Nodelist.Strict.Bounds.{fits-cons-le}
use slurm_gpu_tui.Nodelist.Spaces.{no_spaces, all-append, strip-no_spaces}
use slurm_gpu_tui.Nodelist.Tokens.{Token, spec, literal, skipped, tokens}
use slurm_gpu_tui.Nodelist.Strict.{strict_part, strict_parts, strict_range_values, strict_group}
use slurm_gpu_tui.Nodelist.Strict.{strict_groups, strict_name, strict_names, checked}
use slurm_gpu_tui.Nodelist.Strict.{strict_expand_nodes, legacy_max_nodes}
use mathlib.Core.List.{append-nil, append_assoc}

digits-no_spaces : (s : Str) → all is_digit s ≡ true → no_spaces s ≡ true
digits-no_spaces [] h = refl
digits-no_spaces (c ∷ s) h = ground (arith, digits-no_spaces s)

isdigit-no_spaces : (s : Str) → isdigit s ≡ true → no_spaces s ≡ true
unfolding isdigit
isdigit-no_spaces [] h = cc
isdigit-no_spaces (c ∷ s) h = digits-no_spaces (c ∷ s) h

-- A partition that found its separator joins to the string, and one that did not is the string.
partition-joined :
    (sep : ℕ) (s : Str)
    → (partition sep s).1 ≡ true
    → s ≡ (partition sep s).0 ++ (sep ∷ (partition sep s).2)
unfolding partition
partition-joined sep [] h = cc
partition-joined sep (c ∷ s) h = ground (arith, partition-joined sep s)

partition-alone : (sep : ℕ) (s : Str) → (partition sep s).1 ≡ false → s ≡ (partition sep s).0
unfolding partition
partition-alone sep [] h = refl
partition-alone sep (c ∷ s) h = ground (arith, partition-alone sep s)

no_spaces-part :
    (part : Str)
    → isdigit (partition b'-' part).0 ≡ true
    → ((partition b'-' part).1 ≡ true → isdigit (partition b'-' part).2 ≡ true)
    → no_spaces part ≡ true
no_spaces-part part h k = elim (Bool-cases (partition b'-' part).1) [
  | inl e ↦
      let p = partition b'-' part in
      let joined : no_spaces part ≡ no_spaces (p.0 ++ (b'-' ∷ p.2)) =
        ap no_spaces (partition-joined b'-' part e) in
      joined
      ∙ ground (
        arith,
        all-append (λ c. not (is_space c)) p.0 (b'-' ∷ p.2),
        isdigit-no_spaces p.0,
        isdigit-no_spaces p.2,
      )
  | inr e ↦
      let alone : no_spaces part ≡ no_spaces (partition b'-' part).0 =
        ap no_spaces (partition-alone b'-' part e) in
      alone ∙ isdigit-no_spaces (partition b'-' part).0 h
]

-- A part that the strict reading accepts, with room below the lenient bound, is read alike.
strict_part-strip :
    (part : Str) (room : ℕ) (values : List Str)
    → strict_part part room ≡ some values
    → (part ≢ []) × (strip part ≡ part)
unfolding strict_part
strict_part-strip part room values h = (
  ground (arith, ==_iff part []),
  strip-no_spaces part (no_spaces-part part (ground arith) (λ e. ground arith)),
)

strict_part-expand :
    (part : Str) (room : ℕ) (values : List Str)
    → room ≤ max_expansion
    → strict_part part room ≡ some values
    → expand_part part ≡ values
unfolding strict_part expand_part
strict_part-expand part room values l h = ground (arith, partition-alone b'-' part)

strict_parts-expand :
    (parts : List Str) (limit : ℕ) (values all_values : List Str)
    → limit ≤ max_expansion
    → strict_parts parts limit values ≡ some all_values
    → all_values ≡ values ++ expand_parts (map strip parts)
unfolding strict_parts expand_parts
strict_parts-expand [] limit values all_values l h = rw append-nil (ground arith)
strict_parts-expand (part ∷ parts) limit values all_values l h =
    elim (Option-cases (strict_part part (limit - length values))) [
      | inl e ↦ cc (rw e at h)
      | inr (more, e) ↦ elim (Bool-cases (ltb limit (length (values ++ more)))) [
        | inl f ↦ cc (rw (e, f) at h)
        | inr f ↦
            let sp = strict_part-strip part (limit - length values) more e in
            let same = strict_part-expand part (limit - length values) more (omega arith) e in
            let rest =
              strict_parts-expand parts limit (values ++ more) all_values l (rw (e, f) at h) in
            rest
            ∙ append_assoc values more (expand_parts (map strip parts))
            ∙ ground (arith, ==_iff part [])
      ]
    ]

-- A group that the strict reading accepts is the lenient group of the same token, and not empty.
strict_group-agrees :
    (t : Token) (ts : List Token) (g : List Str)
    → strict_group t ≡ some g
    → (token_groups (t ∷ ts) ≡ g ∷ token_groups ts) × (1 ≤ length g)
unfolding strict_group token_groups
strict_group-agrees skipped ts g h = cc
strict_group-agrees (literal l) ts g h = ground arith
strict_group-agrees (spec s) ts g h = elim (Option-cases (strict_range_values s legacy_max_nodes)) [
  | inl e ↦ cc (rw e at h)
  | inr ([], e) ↦ cc (rw e at h)
  | inr (v ∷ vs, e) ↦
      let same : v ∷ vs ≡ expand_range_spec s =
        unfold strict_range_values expand_range_spec in
        strict_parts-expand (split b',' s) legacy_max_nodes [] (v ∷ vs) (omega arith) e in
      ground (arith, rw e at h)
]

strict_groups-agree :
    (ts : List Token) (gs : List (List Str))
    → strict_groups ts ≡ some gs
    → (token_groups ts ≡ gs) × (group_total gs ≡ combinations gs)
unfolding strict_groups group_total
strict_groups-agree [] gs h = unfold token_groups in ground arith
strict_groups-agree (t ∷ ts) gs h = elim (Option-cases (strict_group t)) [
  | inl e ↦ cc (rw e at h)
  | inr (g, e) ↦ elim (Option-cases (strict_groups ts)) [
    | inl f ↦ cc (rw (e, f) at h)
    | inr (more, f) ↦
        let (head, size) = strict_group-agrees t ts g e in
        let (tail, total) = strict_groups-agree ts more f in
        let whole : g ∷ more ≡ gs = ground (arith, rw (e, f) at h) in
        (
          head ∙ ap (λ r. g ∷ r) tail ∙ whole,
          rw (← whole) (
              omega (
                arith,
                ap (λ n. length g * n) total,
                max_eq (length g) size,
                ap (λ n. n * group_total more) (max_eq (length g) size),
              )),
        )
  ]
]
  where
    max_eq : (n : ℕ) → 1 ≤ n → max 1 n ≡ n
    max_eq n h = omega arith

strict_name-agrees :
    (name : Str) (room : ℕ) (more : List Str)
    → room ≤ max_expansion
    → strict_name name room ≡ some more
    → expand_name name ≡ more
unfolding strict_name expand_name
strict_name-agrees name room more l h = elim (Option-cases (strict_groups (tokens name))) [
  | inl e ↦ cc (rw e at h)
  | inr ([], e) ↦ cc (rw e at h)
  | inr (g ∷ gs, e) ↦
      let (same, total) = strict_groups-agree (tokens name) (g ∷ gs) e in
      rw same (ground (arith, rw e at h, total, fits-cons-le room (g ∷ gs)))
]

strict_names-agree :
    (names hosts all_hosts : List Str)
    → strict_names names hosts ≡ some all_hosts
    → all_hosts ≡ hosts ++ expand_names names
unfolding strict_names expand_names
strict_names-agree [] hosts all_hosts h = rw append-nil (ground arith)
strict_names-agree (name ∷ names) hosts all_hosts h =
    elim (Option-cases (strict_name name (legacy_max_nodes - length hosts))) [
      | inl e ↦ cc (rw e at h)
      | inr (more, e) ↦
          let same =
            strict_name-agrees name (legacy_max_nodes - length hosts) more (omega arith) e in
          strict_names-agree names (hosts ++ more) all_hosts (rw e at h)
          ∙ append_assoc hosts more (expand_names names)
          ∙ rw same
    ]

-- Where the strict expansion accepts a node list with hosts, it gives the hosts of the lenient
-- expansion, each as often, in another order.
pub strict-agrees :
    (expr : Str) (hosts : List Str) (host : Str)
    → strict_expand_nodes expr ≡ some hosts
    → hosts ≢ []
    → count host hosts ≡ count host (expand_nodelist expr)
unfolding strict_expand_nodes expand_nodelist
strict-agrees expr hosts host h some_host =
    elim (Bool-cases (expr == [] || expr == codes "(null)" || expr == codes "N/A")) [
      | inl e ↦ absurd (some_host (ground (arith, rw e at h)))
      | inr e ↦ elim (Bool-cases (ltb 8192 (length expr) || any (λ ch. ltb ch 32) expr)) [
        | inl f ↦ cc (rw (e, f) at h)
        | inr f ↦ elim (Option-cases (strict_names (split_top_level expr) [])) [
          | inl g ↦ cc (rw (e, f, g) at h)
          | inr (found, g) ↦
              rw (← strict_names-agree (split_top_level expr) [] found g)
                (checked-count found (rw (e, f, g) at h))
        ]
      ]
    ]
  where
    checked-count :
        (found : List Str) → checked found ≡ some hosts → count host hosts ≡ count host found
    checked-count found c = unfold checked in ground (arith, count-sort {0} str_leb host found)
