-- ===== src/Payload/Attribution.antt =====
-- Whose processes run on a card, and for which jobs.
use slurm_gpu_tui.Prelude.{
  ◌≤◌, ◌≡◌, refl, sym, ap, ◌∙◌, arith, Str, Bool, true, false, str_eq, Option, none, some, List, [],
  ◌∷◌,
}
use slurm_gpu_tui.Prelude.{
  ◌==◌, ==_iff, ==_refl, ◌&&◌, ◌||◌, not, if◌then◌else◌, contains, count, any, map, All, Bool-cases,
  inl, inr,
}
use slurm_gpu_tui.Prelude.Dict.{Dict, get, get_or, get-put}
use slurm_gpu_tui.Prelude.Text.{codes, isdigit, split, strip}
use slurm_gpu_tui.Prelude.Words.{words}
use slurm_gpu_tui.Prelude.Substrings.{split_text}
use slurm_gpu_tui.Records.{distinct_ids}
use slurm_gpu_tui.Data.{GpuInfo}
use slurm_gpu_tui.Payload.{
  Tables, known_values, known_onto, restricted, put_known, pid_jobs_of, put_job, gpu_of, gpu_onto,
  gpus_of, tables_of, section_lines, parse_node_payload,
}

contains-distinct_ids :
    (seen xs : List Str) (u : Str)
    → contains (distinct_ids seen xs) u ≡ (contains xs u && not (contains seen u))
unfolding distinct_ids
contains-distinct_ids seen [] u = refl
contains-distinct_ids seen (x ∷ xs) u =
    ground (arith, contains-distinct_ids (x ∷ seen) xs u, ==_iff x u)

count-distinct_ids :
    (seen xs : List Str) (u : Str)
    → count u (distinct_ids seen xs) ≤ (if contains seen u then 0 else 1)
unfolding distinct_ids
count-distinct_ids seen [] u = ground arith
count-distinct_ids seen (x ∷ xs) u = ground (arith, count-distinct_ids (x ∷ seen) xs u, ==_iff x u)

-- The process belongs to the user.
abbrev pub is_of : Str → Option Str → Bool
is_of u none = false
is_of u (some v) = v == u

contains-known_values :
    (d : Dict Str Str) (ks : List Str) (u : Str)
    → contains (known_values d ks) u ≡ any (λ k. is_of u (get d k)) ks
unfolding known_values
contains-known_values d [] u = refl
contains-known_values d (k ∷ ks) u = one (get d k) (contains-known_values d ks u)
  where
    one :
        (o : Option Str)
        → contains (known_values d ks) u ≡ any (λ j. is_of u (get d j)) ks
        → contains (known_onto o (known_values d ks)) u
          ≡ (is_of u o || any (λ j. is_of u (get d j)) ks)
    one none h = h
    one (some v) h = ap (λ b. v == u || b) h

-- A restricted table has what the table has, at its keys.
abbrev IsFrom : Dict Str Str → List Str → Dict Str Str → Type 0
IsFrom d pids r =
    (pid v : Str) → get r pid ≡ some v → (contains pids pid ≡ true) × (get d pid ≡ some v)

restricted-IsFrom :
    (d : Dict Str Str) (pids ks : List Str) (acc : Dict Str Str)
    → ((k : Str) → contains ks k ≡ true → contains pids k ≡ true)
    → IsFrom d pids acc
    → IsFrom d pids (restricted d ks acc)
unfolding restricted
restricted-IsFrom d pids [] acc within h = h
restricted-IsFrom d pids (k ∷ ks) acc within h =
    restricted-IsFrom d pids ks (put_known k (get d k) acc) (λ j m. within j (ground arith))
      (one (get d k) refl)
  where
    one : (o : Option Str) → get d k ≡ o → IsFrom d pids (put_known k o acc)
    one none e = h
    one (some w) e = λ pid v m. elim (Bool-cases (k == pid)) [
      | inl t ↦
          let same : k ≡ pid = (==_iff k pid).0 t in
          let value : some w ≡ some v = ground (arith, get-put k pid w acc) in
          (
            ap (contains pids) (sym same) ∙ within k (ground (arith, ==_refl k)),
            ap (get d) (sym same) ∙ (e ∙ value),
          )
      | inr f ↦ h pid v (sym (ground (arith, get-put k pid w acc)) ∙ m)
    ]

AllNumeric : Dict Str Str → Type 0
AllNumeric d = (pid v : Str) → get d pid ≡ some v → isdigit v ≡ true

put_job-AllNumeric : (ws : List Str) (d : Dict Str Str) → AllNumeric d → AllNumeric (put_job ws d)
unfolding AllNumeric
put_job-AllNumeric [] d h = h
put_job-AllNumeric (a ∷ []) d h = h
put_job-AllNumeric (pid ∷ jobid ∷ []) d h = λ k v m. elim (Bool-cases (isdigit jobid)) [
  | inl e ↦ ground (arith, rw e at m, get-put pid k jobid d, ==_iff pid k, h k v)
  | inr e ↦ h k v (rw e at m)
]
put_job-AllNumeric (a ∷ b ∷ c ∷ ws) d h = h

pid_jobs_of-AllNumeric :
    (lines : List Str) (d : Dict Str Str) → AllNumeric d → AllNumeric (pid_jobs_of lines d)
unfolding pid_jobs_of
pid_jobs_of-AllNumeric [] d h = h
pid_jobs_of-AllNumeric (line ∷ lines) d h =
    pid_jobs_of-AllNumeric lines (put_job (words line) d) (put_job-AllNumeric (words line) d h)

-- What a card's row takes from the tables: the processes that the process table has under the
-- card's index, and what the other tables have of them.
pub record IsAttributed (t : Tables) (g : GpuInfo) : Type 0 where
  pub processes : g.pids ≡ get_or t.pmon.gpu_pids g.index []
  pub memory :
      (pid fb : Str)
      → get g.pid_mem pid ≡ some fb
      → (contains g.pids pid ≡ true) × (get t.pmon.pid_fb pid ≡ some fb)
  pub users : (u : Str) → contains g.users u ≡ any (λ pid. is_of u (get t.pid_to_user pid)) g.pids
  pub once : (u : Str) → count u g.users ≤ 1
  pub jobs :
      (pid jobid : Str)
      → get g.pid_jobid pid ≡ some jobid
      → (contains g.pids pid ≡ true)
        × (get t.pid_jobid_all pid ≡ some jobid)
        × (isdigit jobid ≡ true)

AllSome : {A : Type 0} → (A → Type 0) → Option A → Type 0
AllSome P none = Unit
AllSome P (some a) = P a

card-IsAttributed :
    (t : Tables) (g : GpuInfo) (pids : List Str)
    → AllNumeric t.pid_jobid_all
    → g.pids ≡ pids
    → g.pids ≡ get_or t.pmon.gpu_pids g.index []
    → g.pid_mem ≡ restricted t.pmon.pid_fb pids []
    → g.users ≡ distinct_ids [] (known_values t.pid_to_user pids)
    → g.pid_jobid ≡ restricted t.pid_jobid_all pids []
    → IsAttributed t g
unfolding AllNumeric get
card-IsAttributed t g pids h e own m f r = record {
  processes = own;
  memory = λ pid fb n.
      let (within, known) =
        restricted-IsFrom t.pmon.pid_fb pids pids [] (λ k c. c) (λ k v n. absurd cc) pid fb
          (sym (ap (λ d. get d pid) m) ∙ n) in
      (ap (λ ps. contains ps pid) e ∙ within, known);
  users = λ u.
      ap (λ us. contains us u) f
      ∙ ground (
        arith,
        contains-distinct_ids [] (known_values t.pid_to_user pids) u,
        contains-known_values t.pid_to_user pids u,
        ap (any (λ pid. is_of u (get t.pid_to_user pid))) e,
      );
  once = λ u.
      ground (arith, count-distinct_ids [] (known_values t.pid_to_user pids) u, ap (count u) f);
  jobs = λ pid jobid m.
      let (within, known) =
        restricted-IsFrom t.pid_jobid_all pids pids [] (λ k c. c) (λ k v n. absurd cc) pid jobid
          (sym (ap (λ d. get d pid) r) ∙ m) in
      (ap (λ ps. contains ps pid) e ∙ within, known, h pid jobid known);
}

gpu_of-IsAttributed :
    (t : Tables) (row : List Str)
    → AllNumeric t.pid_jobid_all
    → AllSome (IsAttributed t) (gpu_of t row)
unfolding gpu_of AllSome
gpu_of-IsAttributed t (p0 ∷ p1 ∷ p2 ∷ p3 ∷ p4 ∷ p5 ∷ p6 ∷ p7 ∷ p8 ∷ more) h =
    card-IsAttributed t _ (get_or t.pmon.gpu_pids p0 []) h refl refl refl refl refl
gpu_of-IsAttributed t _ h = tt

gpu_onto-All :
    (P : GpuInfo → Type 0) (o : Option GpuInfo) (gpus : List GpuInfo)
    → AllSome P o
    → All P gpus
    → All P (gpu_onto o gpus)
unfolding AllSome
gpu_onto-All P none gpus h hs = hs
gpu_onto-All P (some g) gpus h hs = (h, hs)

gpus_of-IsAttributed :
    (t : Tables) (lines : List Str)
    → AllNumeric t.pid_jobid_all
    → All (IsAttributed t) (gpus_of t lines)
unfolding gpus_of
gpus_of-IsAttributed t [] h = tt
gpus_of-IsAttributed t (line ∷ lines) h =
    let row = map strip (split b',' line) in
    gpu_onto-All (IsAttributed t) (gpu_of t row) (gpus_of t lines) (gpu_of-IsAttributed t row h)
      (gpus_of-IsAttributed t lines h)

-- A card of a node's answer has the processes that the process table lists under the card's index.
-- It has a user exactly if one of them is the user's, and each user once; and it has memory and a
-- job only for one of them, as the node's tables give them for that process, the job by a number.
pub parse_node_payload-IsAttributed :
    (text : Str)
    → All
        (IsAttributed (tables_of (split_text (codes "---SEP---") text)))
        (parse_node_payload text).0
unfolding parse_node_payload tables_of AllNumeric get
parse_node_payload-IsAttributed text =
    let sections = split_text (codes "---SEP---") text in
    gpus_of-IsAttributed (tables_of sections) (section_lines sections 0)
      (pid_jobs_of-AllNumeric (section_lines sections 5) [] (λ pid v m. absurd cc))
