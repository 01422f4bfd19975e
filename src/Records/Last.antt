-- ===== src/Records/Last.antt =====
-- What `parse_job_json` records of an id or of a card: what the last record says that says anything.
use slurm_gpu_tui.Prelude.{ℕ, Str, Bool, false, str_eq, nat_eq, Option, none, some, List, [], ◌∷◌}
use slurm_gpu_tui.Prelude.{
  ◌≡◌, refl, sym, ap, ◌∙◌, arith, ◌⊎◌, inl, inr, Bool-cases, ◌==◌, ◌&&◌, ◌||◌, contains,
  if◌then◌else◌, nat_beq, length,
}
use slurm_gpu_tui.Prelude.Int.{ℤ, pos, negsuc}
use slurm_gpu_tui.Prelude.Dict.{Dict, get, get_or}
use slurm_gpu_tui.Prelude.Text.{codes}
use slurm_gpu_tui.Legacy.Jobs.{CardKey, card_eq, place_card}
use slurm_gpu_tui.Legacy.Safety.{get-put_all}
use slurm_gpu_tui.Legacy.Cards.{card_holder, card_holder-place_card}
use slurm_gpu_tui.Records.{
  Json, Jsons, Fields, null, boolean, integer, real, string, array, object, no_items, item, lookup,
  json_number, json_job_ids,
}
use slurm_gpu_tui.Records.Detail.{LogMetadata, json_job_log_spec}
use slurm_gpu_tui.Records.Jobs.{
  Jobs, no_jobs, put_uid, is_running, node_names, gpu_indices, allocate, allocate_all, count_items,
  with_cards, identified, add_ids, add_records, parse_job_json,
}

abbrev pub or_before : {V : Type 0} → Option V → Option V → Option V
or_before none o = o
or_before (some v) o = some v

-- The answer of the last record that has one.
unfoldable pub last_of : {V : Type 0} → (Fields → Option V) → Jsons → Option V
last_of f no_items = none
last_of f (item (object r) rest) = or_before (last_of f rest) (f r)
last_of f (item v rest) = last_of f rest

abbrev pub uid_in : Option ℤ → Option ℕ
uid_in (some (pos n)) = some n
uid_in _ = none

abbrev pub when_named : {V : Type 0} → Str → List Str → Option V → Option V
when_named k ids o = if contains ids k then o else none

unfoldable pub uid_said : Str → Fields → Option ℕ
uid_said k r = when_named k (json_job_ids r) (uid_in (json_number (lookup r (codes "user_id"))))

unfoldable pub paths_said : Str → Fields → Option LogMetadata
paths_said k r = when_named k (json_job_ids r) (some (json_job_log_spec r))

-- A pair of a node and its GRES detail has the card.
unfoldable pub covers : List Str → Jsons → CardKey → Bool
covers (n ∷ ns) (item gres rest) card =
    (n == card.0 && contains (gpu_indices gres) card.1) || covers ns rest card
covers ns details card = false

abbrev covered_in : Json → List Str → CardKey → Bool
covered_in (array details) nodes card =
    nat_beq (length nodes) (count_items details) && covers nodes details card
covered_in _ nodes card = false

abbrev job_with : Bool → List Str → Option Str
job_with claimed [] = none
job_with claimed (jobid ∷ ids) = if claimed then some jobid else none

-- The job of a record in a running state, with as many GRES details as nodes, that has the card.
unfoldable pub card_said : CardKey → Fields → Option Str
card_said card r =
    job_with
      (is_running (lookup r (codes "job_state"))
        && covered_in (lookup r (codes "gres_detail")) (node_names r) card)
      (json_job_ids r)

card_holder-allocate :
    (node : Str) (indices : List Str) (j : Str) (alloc : Dict Str (Dict Str Str)) (card : CardKey)
    → card_holder card (allocate node indices j alloc)
      ≡ (if node == card.0 && contains indices card.1 then some j else card_holder card alloc)
unfolding allocate
card_holder-allocate node [] j alloc card = ground arith
card_holder-allocate node (i ∷ indices) j alloc card = ground (
  arith,
  card_holder-allocate node indices j (place_card (node, i) j alloc) card,
  card_holder-place_card (node, i) card j alloc,
)

card_holder-allocate_all :
    (nodes : List Str) (details : Jsons) (j : Str) (alloc : Dict Str (Dict Str Str))
    (card : CardKey)
    → card_holder card (allocate_all nodes details j alloc)
      ≡ (if covers nodes details card then some j else card_holder card alloc)
unfolding allocate_all covers
card_holder-allocate_all [] details j alloc card = refl
card_holder-allocate_all (n ∷ ns) no_items j alloc card = refl
card_holder-allocate_all (n ∷ ns) (item g rest) j alloc card = ground (
  arith,
  card_holder-allocate_all ns rest j (allocate n (gpu_indices g) j alloc) card,
  card_holder-allocate n (gpu_indices g) j alloc card,
)

card_holder-with_cards :
    (nodes : List Str) (details : Json) (j : Str) (jobs : Jobs) (card : CardKey)
    → card_holder card (with_cards nodes details j jobs).alloc
      ≡ (if covered_in details nodes card then some j else card_holder card jobs.alloc)
card_holder-with_cards nodes (array details) j jobs card =
    ground (arith, card_holder-allocate_all nodes details j jobs.alloc card)
card_holder-with_cards nodes null j jobs card = refl
card_holder-with_cards nodes (boolean b) j jobs card = refl
card_holder-with_cards nodes (integer n) j jobs card = refl
card_holder-with_cards nodes (real s) j jobs card = refl
card_holder-with_cards nodes (string s) j jobs card = refl
card_holder-with_cards nodes (object fs) j jobs card = refl

-- The tables that the cards of a record leave alone.
with_cards-owner_uids :
    (nodes : List Str) (details : Json) (j : Str) (jobs : Jobs)
    → ((with_cards nodes details j jobs).owner_uids ≡ jobs.owner_uids)
      × ((with_cards nodes details j jobs).metadata ≡ jobs.metadata)
with_cards-owner_uids nodes (array details) j jobs = (ground arith, ground arith)
with_cards-owner_uids nodes null j jobs = (refl, refl)
with_cards-owner_uids nodes (boolean b) j jobs = (refl, refl)
with_cards-owner_uids nodes (integer n) j jobs = (refl, refl)
with_cards-owner_uids nodes (real s) j jobs = (refl, refl)
with_cards-owner_uids nodes (string s) j jobs = (refl, refl)
with_cards-owner_uids nodes (object fs) j jobs = (refl, refl)

get-put_uid :
    (ids : List Str) (o : Option ℤ) (d : Dict Str ℕ) (k : Str)
    → get (put_uid ids o d) k ≡ or_before (when_named k ids (uid_in o)) (get d k)
get-put_uid ids none d k = ground arith
get-put_uid ids (some (pos n)) d k = ground (arith, get-put_all ids n d k)
get-put_uid ids (some (negsuc n)) d k = ground arith

or_before_assoc :
    {V : Type 0} (a b c : Option V) → or_before (or_before a b) c ≡ or_before a (or_before b c)
or_before_assoc none b c = refl
or_before_assoc (some v) b c = refl

module _ (local_time : ℕ → Option Str) where
  add_ids-said :
      (r : Fields) (ids : List Str) (jobs : Jobs) (k : Str) (card : CardKey)
      → json_job_ids r ≡ ids
      → (get (add_ids local_time r ids jobs).owner_uids k
          ≡ or_before (uid_said k r) (get jobs.owner_uids k))
        × (get (add_ids local_time r ids jobs).metadata k
            ≡ or_before (paths_said k r) (get jobs.metadata k))
        × (card_holder card (add_ids local_time r ids jobs).alloc
            ≡ or_before (card_said card r) (card_holder card jobs.alloc))
  unfolding uid_said paths_said card_said
  add_ids-said r [] jobs k card e = (ground arith, ground arith, ground arith)
  add_ids-said r (j ∷ ids) jobs k card e =
      let known = identified local_time r (j ∷ ids) jobs in
      let nodes = node_names r in
      let details = lookup r (codes "gres_detail") in
      let uid =
        get-put_uid (j ∷ ids) (json_number (lookup r (codes "user_id"))) jobs.owner_uids k in
      let spec = get-put_all (j ∷ ids) (json_job_log_spec r) jobs.metadata k in
      elim (Bool-cases (is_running (lookup r (codes "job_state")))) [
        | inl t ↦ rw t (
            rw e (
              ap (λ d. get d k) (with_cards-owner_uids nodes details j known).0 ∙ uid,
              ap (λ d. get d k) (with_cards-owner_uids nodes details j known).1
                  ∙ ground (arith, spec),
              ground (arith, card_holder-with_cards nodes details j known card),
            ))
        | inr t ↦ rw t (rw e (uid, ground (arith, spec), ground arith))
      ]

  add_records-said :
      (records : Jsons) (jobs : Jobs) (k : Str) (card : CardKey)
      → (get (add_records local_time records jobs).owner_uids k
          ≡ or_before (last_of (uid_said k) records) (get jobs.owner_uids k))
        × (get (add_records local_time records jobs).metadata k
            ≡ or_before (last_of (paths_said k) records) (get jobs.metadata k))
        × (card_holder card (add_records local_time records jobs).alloc
            ≡ or_before (last_of (card_said card) records) (card_holder card jobs.alloc))
  unfolding add_records last_of
  add_records-said no_items jobs k card = (refl, refl, refl)
  add_records-said (item (object r) rest) jobs k card =
      let next = add_ids local_time r (json_job_ids r) jobs in
      let (a, b, c) = add_ids-said r (json_job_ids r) jobs k card refl in
      let (x, y, z) = add_records-said rest next k card in
      (
        x
            ∙ (ap (or_before (last_of (uid_said k) rest)) a
                ∙ sym (
                    or_before_assoc (last_of (uid_said k) rest) (uid_said k r)
                      (get jobs.owner_uids k))),
        y
            ∙ (ap (or_before (last_of (paths_said k) rest)) b
                ∙ sym (
                    or_before_assoc (last_of (paths_said k) rest) (paths_said k r)
                      (get jobs.metadata k))),
        z
            ∙ (ap (or_before (last_of (card_said card) rest)) c
                ∙ sym (
                    or_before_assoc (last_of (card_said card) rest) (card_said card r)
                      (card_holder card jobs.alloc))),
      )
  add_records-said (item null rest) jobs k card = add_records-said rest jobs k card
  add_records-said (item (boolean b) rest) jobs k card = add_records-said rest jobs k card
  add_records-said (item (integer n) rest) jobs k card = add_records-said rest jobs k card
  add_records-said (item (real s) rest) jobs k card = add_records-said rest jobs k card
  add_records-said (item (string s) rest) jobs k card = add_records-said rest jobs k card
  add_records-said (item (array vs) rest) jobs k card = add_records-said rest jobs k card

  -- The owner and the paths of an id, and the job of a card, are those of the last record that says
  -- one: a record that names the id, or a running one with as many GRES details as nodes.
  pub parse_job_json-last_of :
      (loads : Str → Str ⊎ Json) (text : Str) (payload : Fields) (records : Jsons)
      → loads text ≡ inr (object payload)
      → lookup payload (codes "jobs") ≡ array records
      → (jobs : Jobs) → parse_job_json local_time loads text ≡ inr jobs
      → (k : Str) (card : CardKey)
      → (get jobs.owner_uids k ≡ last_of (uid_said k) records)
        × (get jobs.metadata k ≡ last_of (paths_said k) records)
        × (card_holder card jobs.alloc ≡ last_of (card_said card) records)
  unfolding parse_job_json get get_or
  parse_job_json-last_of loads text payload records e f jobs h k card =
      let h' = rw f at (rw e at h) in
      let result : add_records local_time records no_jobs ≡ jobs = ground arith in
      let (x, y, z) = add_records-said records no_jobs k card in
      (
        ap (λ j. get j.owner_uids k) (sym result)
            ∙ (x ∙ or_before_none (last_of (uid_said k) records)),
        ap (λ j. get j.metadata k) (sym result)
            ∙ (y ∙ or_before_none (last_of (paths_said k) records)),
        ap (λ j. card_holder card j.alloc) (sym result)
            ∙ (z ∙ or_before_none (last_of (card_said card) records)),
      )
    where
      or_before_none : {V : Type 0} (o : Option V) → or_before o none ≡ o
      or_before_none none = refl
      or_before_none (some v) = refl
