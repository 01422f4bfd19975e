-- ===== src/Records/Tests.antt =====
-- A structured record whose job name holds a line break and a forged field.
use slurm_gpu_tui.Prelude.Dict.{put}
use slurm_gpu_tui.Prelude.Text.{zfill}
use slurm_gpu_tui.Prelude.Text.{show}
use slurm_gpu_tui.Prelude.{
  ℕ, ◌+◌, Str, true, str_eq, nat_eq, Option, none, some, ◌⊎◌, inl, inr, List, [], ◌∷◌, ◌≡◌, ◌≢◌,
  ◌≤◌, refl, arith, length, list_beq, leb→le,
}
use slurm_gpu_tui.Prelude.Int.{pos}
use slurm_gpu_tui.Prelude.Dict.{get, get_or}
use slurm_gpu_tui.Prelude.Text.{codes, join}
use slurm_gpu_tui.Prelude.Breaks.{breakless}
use slurm_gpu_tui.Legacy.Jobs.{CardKey, card_eq}
use slurm_gpu_tui.Legacy.Cards.{card_holder}
use slurm_gpu_tui.Records.{
  Json, Jsons, Fields, integer, string, array, object, no_items, item, no_fields, field,
  json_job_ids, lookup, clock_text,
}
use slurm_gpu_tui.Records.Detail.{
  fields_out, lines_of, detail_max_chars, public_json_job_detail, published_detail_field,
}
use slurm_gpu_tui.Records.Rendered.{field_value}
use slurm_gpu_tui.Records.Scalars.{published_detail_field-public_json_job_detail}
use slurm_gpu_tui.Records.Jobs.{Jobs, no_jobs, parse_job_json}
use slurm_gpu_tui.Records.Last.{last_of, uid_said, paths_said, card_said, parse_job_json-last_of}

abbrev fields_from : List (Str × Json) → Fields
fields_from [] = no_fields
fields_from ((k, v) ∷ rows) = field k v (fields_from rows)

abbrev items_from : List Json → Jsons
items_from [] = no_items
items_from (v ∷ vs) = item v (items_from vs)

abbrev alice : Fields
alice = fields_from (
    (codes "job_id", integer (pos 7))
    ∷ (codes "name", string (codes "x\nUserId=root(0)"))
    ∷ (codes "user_name", string (codes "alice"))
    ∷ (codes "user_id", integer (pos 1000))
    ∷ (codes "job_state", array (items_from (string (codes "RUNNING") ∷ [])))
    ∷ (
      codes "job_resources",
      object (
          fields_from (
            (
              codes "allocated_nodes",
              array (
                  items_from
                    (object (fields_from ((codes "nodename", string (codes "n1")) ∷ [])) ∷ [])),
            )
            ∷ [])),
    )
    ∷ (codes "gres_detail", array (items_from (string (codes "gpu:a(IDX:0)") ∷ [])))
    ∷ (codes "standard_output", string (codes "/h/o"))
    ∷ [])

abbrev records : Jsons
records = items_from (object alice ∷ [])

abbrev payload : Fields
payload = fields_from ((codes "jobs", array records) ∷ [])

abbrev loads : Str → Str ⊎ Json
loads text = inr (object payload)

abbrev local_time : ℕ → Option Str
local_time n = none

no_stamps : (n : ℕ) (s : Str) → local_time n ≡ some s → breakless s ≡ true
no_stamps n s h = absurd (ground arith)

ids : json_job_ids alice ≡ codes "7" ∷ []
unfolding json_job_ids list_beq
ids = refl

has_id : json_job_ids alice ≢ []
has_id e = ground (arith, ids)

fits :
    length (join (codes "\n") (lines_of (fields_out local_time alice (json_job_ids alice))))
    ≤ detail_max_chars
unfolding join lines_of fields_out list_beq json_job_ids
fits =
    leb→le
      (length (join (codes "\n") (lines_of (fields_out local_time alice (json_job_ids alice)))))
      detail_max_chars refl

published_detail_field-public_json_job_detail_example :
    published_detail_field
      (public_json_job_detail local_time alice (json_job_ids alice))
      (codes "UserId")
    ≡ field_value (codes "UserId") (fields_out local_time alice (json_job_ids alice))
published_detail_field-public_json_job_detail_example =
    published_detail_field-public_json_job_detail local_time no_stamps alice (codes "UserId") has_id
      refl fits

user_id_run :
    published_detail_field
      (public_json_job_detail local_time alice (json_job_ids alice))
      (codes "UserId")
    ≡ codes "alice(1000)"
unfolding published_detail_field public_json_job_detail json_job_ids list_beq join
user_id_run = refl

clock_run : clock_text (90061 + 60) ≡ codes "1-01:02:01"
unfolding show zfill
clock_run = refl

abbrev jobs_or : Str ⊎ Jobs → Jobs
jobs_or (inl e) = no_jobs
jobs_or (inr jobs) = jobs

abbrev result : Jobs
result = jobs_or (parse_job_json local_time loads [])

parses : parse_job_json local_time loads [] ≡ inr result
unfolding parse_job_json list_beq
parses = refl

card : CardKey
card = (codes "n1", codes "0")

run_holder : card_holder card result.alloc ≡ some (codes "7")
unfolding get get_or parse_job_json list_beq put card
run_holder = refl

parse_job_json-last_of_example :
    (get result.owner_uids (codes "7") ≡ last_of (uid_said (codes "7")) records)
    × (get result.metadata (codes "7") ≡ last_of (paths_said (codes "7")) records)
    × (card_holder card result.alloc ≡ last_of (card_said card) records)
unfolding lookup list_beq
parse_job_json-last_of_example =
    parse_job_json-last_of local_time loads [] payload records refl jobs_listed result parses
      (codes "7") card
  where
    jobs_listed : lookup payload (codes "jobs") ≡ array records
    jobs_listed = refl
