-- ===== src/Legacy/Jobs.antt =====
-- The loops of `_parse_legacy_jobs` of src/sgpu/common.py: what the accepted records add, and which
-- claims of cards stand.
use slurm_gpu_tui.Prelude.{
  ℕ, nat_eq, Str, Bool, true, str_eq, Comparable, Option, none, some, List, [], ◌∷◌, ◌++◌, ◌&&◌,
}
use slurm_gpu_tui.Prelude.{list_beq, list_beq_iff, ◌≡◌, ◌↔◌, arith, add, ltb, length, if◌then◌else◌}
use slurm_gpu_tui.Prelude.Dict.{Dict, put, get_or}
use slurm_gpu_tui.Prelude.Text.{splitlines}
use slurm_gpu_tui.Queue.{QueueAnchor}
use slurm_gpu_tui.Records.Detail.{LogMetadata}
use slurm_gpu_tui.Records.Jobs.{put_all}
use slurm_gpu_tui.Legacy.{
  Candidate, candidates_of, Grant, Verdict, judge, ignored, refused, granted, max_output_chars,
}
use slurm_gpu_tui.Legacy.Gpus.{GpuClaim}

-- A card: its node and its index.
abbrev pub CardKey : Type 0
CardKey = Str × Str

abbrev pub card_beq : CardKey → CardKey → Bool
card_beq (n, i) (m, j) = list_beq n m && list_beq i j

pub card_beq_iff : (a b : CardKey) → (card_beq a b ≡ true) ↔ (a ≡ b)
card_beq_iff (n, i) (m, j) = ground (arith, list_beq_iff n m, list_beq_iff i j)

instance abbrev pub card_eq : Comparable CardKey
card_eq = record { test = card_beq; test_iff = card_beq_iff }

-- A claim of a card, with the ids of its record.
pub record CardClaim : Type 0 where
  pub jobid : Str
  pub ids : List Str

pub record Parsed : Type 0 where
  pub users : Dict Str Str
  pub owner_uids : Dict Str ℕ
  pub details : Dict Str Str
  pub metadata : Dict Str LogMetadata
  pub rejected : List Str
  pub gpu_claims : Dict CardKey (List CardClaim)

abbrev pub nothing : Parsed
nothing = record {
  users = [];
  owner_uids = [];
  details = [];
  metadata = [];
  rejected = [];
  gpu_claims = [];
}

-- `rejected.update(ids)`
unfoldable pub add_all : List Str → List Str → List Str
add_all [] set = set
add_all (x ∷ xs) set = add_all xs (add x set)

-- `gpu_claims[(node, index)].append((allocation_jobid, ids))`
abbrev pub claim_card :
    List Str → GpuClaim → Dict CardKey (List CardClaim) → Dict CardKey (List CardClaim)
claim_card ids c d =
    put (c.node, c.index)
      (get_or d (c.node, c.index) [] ++ (record { jobid = c.jobid; ids = ids } ∷ [])) d

unfoldable pub claim_cards :
    List Str → List GpuClaim → Dict CardKey (List CardClaim) → Dict CardKey (List CardClaim)
claim_cards ids [] d = d
claim_cards ids (c ∷ cs) d = claim_cards ids cs (claim_card ids c d)

abbrev pub reject : List Str → Parsed → Parsed
reject ids p = record p { rejected = add_all ids p.rejected }

abbrev pub with_claims : List Str → Option (List GpuClaim) → Parsed → Parsed
with_claims ids none p = reject ids p
with_claims ids (some cs) p = record p { gpu_claims = claim_cards ids cs p.gpu_claims }

abbrev pub recorded : List Str → Grant → Parsed → Parsed
recorded ids g p = record p {
  users = put_all ids g.anchor.user p.users;
  owner_uids = put_all ids g.anchor.uid p.owner_uids;
  details = put_all ids g.detail p.details;
  metadata = put_all ids g.log_spec p.metadata;
}

unfoldable pub admit : List Str → Grant → Parsed → Parsed
admit ids g p = with_claims ids g.claims (recorded ids g p)

abbrev pub act : List Str → Verdict → Parsed → Parsed
act ids ignored p = p
act ids refused p = reject ids p
act ids (granted g) p = admit ids g p

-- `alloc.setdefault(node, {})[index] = jobid`
abbrev pub place_card : CardKey → Str → Dict Str (Dict Str Str) → Dict Str (Dict Str Str)
place_card (node, index) jobid alloc = put node (put index jobid (get_or alloc node [])) alloc

unfoldable pub reject_all : List CardClaim → List Str → List Str
unfolding add_all
reject_all [] rejected = rejected
reject_all (c ∷ cs) rejected = reject_all cs (add_all c.ids rejected)

pub record Allocated : Type 0 where
  pub alloc : Dict Str (Dict Str Str)
  pub rejected : List Str

abbrev pub settle_card : CardKey → List CardClaim → Allocated → Allocated
settle_card card (c ∷ []) a = record a { alloc = place_card card c.jobid a.alloc }
settle_card card [] a = a
settle_card card (c ∷ d ∷ cs) a = record a { rejected = reject_all (c ∷ d ∷ cs) a.rejected }

unfoldable pub settle_cards : Dict CardKey (List CardClaim) → Allocated → Allocated
settle_cards [] a = a
settle_cards ((card, claims) ∷ d) a = settle_cards d (settle_card card claims a)

module _ (before after : Dict Str QueueAnchor) where
  -- The loop over the candidates that are left, out of all of them.
  unfoldable pub judge_all : List Candidate → List Candidate → Parsed → Parsed
  unfolding judge admit
  judge_all full [] p = p
  judge_all full (c ∷ cs) p = judge_all full cs (act c.ids (judge before after full c) p)

  unfoldable pub parse_legacy_jobs : Str → Option (Parsed × Allocated)
  unfolding judge_all candidates_of settle_cards
  parse_legacy_jobs text =
      let full = candidates_of (splitlines text) in
      let p = judge_all full full nothing in
      if ltb max_output_chars (length text)
      then none
      else some (p, settle_cards p.gpu_claims (record { alloc = []; rejected = p.rejected }))
