-- ===== src/Legacy/Tests.antt =====
-- Runs of the legacy parser.
use slurm_gpu_tui.Prelude.{Str, true, false, str_eq, nat_eq, some, [], ◌∷◌, ◌++◌, ◌≡◌, refl}
use slurm_gpu_tui.Prelude.{list_beq, contains, map}
use slurm_gpu_tui.Prelude.Dict.{Dict, get, get_or, put, has, or_default}
use slurm_gpu_tui.Prelude.Text.{codes, splitlines, starts_with, join}
use slurm_gpu_tui.Prelude.Words.{rstrip, occurrences}
use slurm_gpu_tui.Nodelist.{padded, products}
use slurm_gpu_tui.Nodelist.Strict.{strict_expand_nodes}
use slurm_gpu_tui.Queue.Fields.{valid_slurm_job_id}
use slurm_gpu_tui.Records.Jobs.{put_all}
use slurm_gpu_tui.Queue.{QueueAnchor}
use slurm_gpu_tui.Legacy.{candidates_of}
use slurm_gpu_tui.Legacy.Fields.{job_record_ids}
use slurm_gpu_tui.Legacy.Jobs.{
  CardKey, nothing, Parsed, Allocated, card_eq, claim_cards, add_all, reject_all, settle_cards,
  parse_legacy_jobs,
}
use slurm_gpu_tui.Legacy.Acceptance.{IsAccepted, parse_legacy_jobs-IsAccepted}
use slurm_gpu_tui.Legacy.Cards.{
  card_holder, claims_of_card, sole, rivals, in_claims, parse_legacy_jobs-sole_claim,
}

abbrev alice : QueueAnchor
alice = record {
  user = codes "alice";
  uid = 1000;
  state = codes "RUNNING";
  nodes = codes "n1" ∷ [];
}

abbrev bob : QueueAnchor
bob = record { user = codes "bob"; uid = 1001; state = codes "RUNNING"; nodes = codes "n1" ∷ [] }

abbrev roster : Dict Str QueueAnchor
roster = (codes "7", alice) ∷ (codes "8", bob) ∷ []

abbrev alice_text : Str
alice_text =
    codes
      "JobId=7 UserId=alice(1000) JobState=RUNNING NodeList=n1 WorkDir=/h StdOut=o/../p StdErr=/h/p\tNodes=n1 CPU_IDs=0 Mem=1 GRES=gpu:a(IDX:0-1)"

-- Bob's record claims one of the cards too, and its job name holds a line break and a record.
abbrev both_text : Str
both_text =
    alice_text
    ++ (10
        ∷ codes
            "JobId=8 UserId=bob(1001) JobState=RUNNING NodeList=n1 Nodes=n1 CPU_IDs=1 Mem=1 GRES=gpu:a(IDX:1)\nJobId=9 UserId=eve(1) JobState=RUNNING NodeList=n1")

abbrev empty : Parsed × Allocated
empty = (nothing, record { alloc = []; rejected = [] })

result : Str → Parsed × Allocated
result text = or_default empty (parse_legacy_jobs roster roster text)

card : CardKey
card = (codes "n1", codes "1")

run_alice : (result alice_text).0.owner_uids ≡ (codes "7", 1000) ∷ []
unfolding parse_legacy_jobs splitlines job_record_ids list_beq valid_slurm_job_id has get get_or put
    rstrip strict_expand_nodes products padded starts_with join occurrences put_all claim_cards
    add_all reject_all settle_cards result
run_alice = refl

run_both : (result both_text).1.rejected ≡ codes "7" ∷ codes "8" ∷ []
unfolding parse_legacy_jobs splitlines job_record_ids list_beq valid_slurm_job_id has get get_or put
    rstrip strict_expand_nodes products padded starts_with join occurrences put_all claim_cards
    add_all reject_all settle_cards result
run_both = refl

run_owners : (result both_text).0.owner_uids ≡ (codes "7", 1000) ∷ (codes "8", 1001) ∷ []
unfolding parse_legacy_jobs splitlines job_record_ids list_beq valid_slurm_job_id has get get_or put
    rstrip strict_expand_nodes products padded starts_with join occurrences put_all claim_cards
    add_all reject_all settle_cards result
run_owners = refl

run_paths : map (λ e. e.1.stdout_path) (result alice_text).0.metadata ≡ codes "/h/p" ∷ []
unfolding parse_legacy_jobs splitlines job_record_ids list_beq valid_slurm_job_id has get get_or put
    rstrip strict_expand_nodes products padded starts_with join occurrences put_all claim_cards
    add_all reject_all settle_cards result
run_paths = refl

twice : Str
twice = alice_text ++ (10 ∷ alice_text)

run_twice : (result twice).0.owner_uids ≡ []
unfolding parse_legacy_jobs splitlines job_record_ids list_beq valid_slurm_job_id has get get_or put
    rstrip strict_expand_nodes products padded starts_with join occurrences put_all claim_cards
    add_all reject_all settle_cards result twice
run_twice = refl

parses_alice : parse_legacy_jobs roster roster alice_text ≡ some (result alice_text)
unfolding parse_legacy_jobs splitlines job_record_ids list_beq valid_slurm_job_id has get get_or put
    rstrip strict_expand_nodes products padded starts_with join occurrences put_all claim_cards
    add_all reject_all settle_cards result
parses_alice = refl

owned : get (result alice_text).0.owner_uids (codes "7") ≡ some 1000
unfolding parse_legacy_jobs splitlines job_record_ids list_beq valid_slurm_job_id has get get_or put
    rstrip strict_expand_nodes products padded starts_with join occurrences put_all claim_cards
    add_all reject_all settle_cards result
owned = refl

believed : contains (result alice_text).1.rejected (codes "7") ≡ false
unfolding parse_legacy_jobs splitlines job_record_ids list_beq valid_slurm_job_id has get get_or put
    rstrip strict_expand_nodes products padded starts_with join occurrences put_all claim_cards
    add_all reject_all settle_cards result
believed = refl

run_card : card_holder card (result alice_text).1.alloc ≡ some (codes "7")
unfolding parse_legacy_jobs splitlines job_record_ids list_beq valid_slurm_job_id has get get_or put
    rstrip strict_expand_nodes products padded starts_with join occurrences put_all claim_cards
    add_all reject_all settle_cards result card
run_card = refl

parse_legacy_jobs-IsAccepted_example :
    IsAccepted roster roster
      (candidates_of (splitlines alice_text))
      (result alice_text).0
      (result alice_text).1
      (codes "7")
      1000
parse_legacy_jobs-IsAccepted_example =
    parse_legacy_jobs-IsAccepted roster roster alice_text (result alice_text).0
      (result alice_text).1 parses_alice (codes "7") 1000 owned believed

parses : parse_legacy_jobs roster roster both_text ≡ some (result both_text)
unfolding parse_legacy_jobs splitlines job_record_ids list_beq valid_slurm_job_id has get get_or put
    rstrip strict_expand_nodes products padded starts_with join occurrences put_all claim_cards
    add_all reject_all settle_cards result
parses = refl

parse_legacy_jobs-sole_claim_example :
    (card_holder card (result both_text).1.alloc
      ≡ sole (
          claims_of_card roster roster
            (candidates_of (splitlines both_text))
            card
            (candidates_of (splitlines both_text))))
    × ((k : Str)
        → in_claims k (
            rivals (
              claims_of_card roster roster
                (candidates_of (splitlines both_text))
                card
                (candidates_of (splitlines both_text))))
          ≡ true
        → contains (result both_text).1.rejected k ≡ true)
parse_legacy_jobs-sole_claim_example =
    parse_legacy_jobs-sole_claim roster roster both_text (result both_text).0 (result both_text).1
      parses card
