-- ===== src/Legacy/Cards.antt =====
-- Which claims of cards stand after a cycle's records.
use slurm_gpu_tui.Prelude.{
  Str, Bool, true, false, str_eq, nat_eq, Option, none, some, List, [], ◌∷◌, ◌++◌, ◌==◌, ◌||◌,
}
use slurm_gpu_tui.Prelude.{
  ◌≡◌, refl, sym, ap, ◌∙◌, arith, ==_iff, contains, contains-add, add, if◌then◌else◌, list_beq_iff,
}
use slurm_gpu_tui.Prelude.Dict.{
  Dict, or_default, get, get_or, put, get-put, get-none, NodupKeys, put-NodupKeys,
}
use slurm_gpu_tui.Prelude.Text.{splitlines}
use slurm_gpu_tui.Queue.{QueueAnchor}
use slurm_gpu_tui.Legacy.{Candidate, candidates_of, Verdict, judge, ignored, refused, granted}
use slurm_gpu_tui.Legacy.Gpus.{GpuClaim}
use slurm_gpu_tui.Legacy.Jobs.{
  CardKey, card_eq, CardClaim, Parsed, Allocated, nothing, add_all, reject_all, claim_cards,
  recorded, with_claims, admit, act, place_card, settle_card, settle_cards, judge_all,
  parse_legacy_jobs,
}
use slurm_gpu_tui.Legacy.Claims.{verdict_claims, append_assoc, append_nil, get_or-act}

-- The job that has the card.
abbrev pub card_holder : CardKey → Dict Str (Dict Str Str) → Option Str
card_holder (node, index) alloc = get (get_or alloc node []) index

pub card_holder-place_card :
    (c d : CardKey) (j : Str) (alloc : Dict Str (Dict Str Str))
    → card_holder d (place_card c j alloc) ≡ (if c == d then some j else card_holder d alloc)
unfolding get_or
card_holder-place_card (n, i) (m, k) j alloc = ground (
  arith,
  get-put n m (put i j (get_or alloc n [])) alloc,
  get-put i k j (get_or alloc n []),
  list_beq_iff n m,
  list_beq_iff i k,
)

-- What the claims of a card make of its holder.
abbrev sole_claim : Option Str → Option (List CardClaim) → Option Str
sole_claim o (some (c ∷ [])) = some c.jobid
sole_claim o _ = o

card_holder-settle_card :
    (c d : CardKey) (claims : List CardClaim) (a : Allocated)
    → card_holder d (settle_card c claims a).alloc
      ≡ (if c == d then sole_claim (card_holder d a.alloc) (some claims) else card_holder d a.alloc)
card_holder-settle_card c d [] a = ground arith
card_holder-settle_card c d (x ∷ []) a = card_holder-place_card c d x.jobid a.alloc
card_holder-settle_card c d (x ∷ y ∷ cs) a = ground arith

card_holder-settle_cards :
    (d : Dict CardKey (List CardClaim)) (a : Allocated) (card : CardKey)
    → NodupKeys d
    → card_holder card (settle_cards d a).alloc ≡ sole_claim (card_holder card a.alloc) (get d card)
unfolding settle_cards get
card_holder-settle_cards [] a card h = refl
card_holder-settle_cards ((c, claims) ∷ d) a card (fresh, h) = ground (
  arith,
  card_holder-settle_cards d (settle_card c claims a) card h,
  card_holder-settle_card c card claims a,
  get-none card d,
  ==_iff c card,
)

-- Everything stays rejected.
pub contains-add_all :
    (xs set : List Str) (k : Str) → contains (add_all xs set) k ≡ (contains xs k || contains set k)
unfolding add_all
contains-add_all [] set k = refl
contains-add_all (x ∷ xs) set k =
    ground (arith, contains-add_all xs (add x set) k, contains-add x k set)

-- The id is in a claim's record.
abbrev pub in_claims : Str → List CardClaim → Bool
in_claims k [] = false
in_claims k (c ∷ cs) = contains c.ids k || in_claims k cs

contains-reject_all :
    (cs : List CardClaim) (set : List Str) (k : Str)
    → contains (reject_all cs set) k ≡ (in_claims k cs || contains set k)
unfolding reject_all
contains-reject_all [] set k = refl
contains-reject_all (c ∷ cs) set k =
    ground (arith, contains-reject_all cs (add_all c.ids set) k, contains-add_all c.ids set k)

abbrev contended : Option (List CardClaim) → List CardClaim
contended (some (c ∷ d ∷ cs)) = c ∷ d ∷ cs
contended _ = []

rejected-settle_card :
    (c : CardKey) (claims : List CardClaim) (a : Allocated) (k : Str)
    → contains (settle_card c claims a).rejected k
      ≡ (in_claims k (contended (some claims)) || contains a.rejected k)
rejected-settle_card c [] a k = refl
rejected-settle_card c (x ∷ []) a k = refl
rejected-settle_card c (x ∷ y ∷ cs) a k = contains-reject_all (x ∷ y ∷ cs) a.rejected k

rejected-settle_cards :
    (d : Dict CardKey (List CardClaim)) (a : Allocated) (card : CardKey) (k : Str)
    → (contains a.rejected k || in_claims k (contended (get d card))) ≡ true
    → contains (settle_cards d a).rejected k ≡ true
unfolding settle_cards get
rejected-settle_cards [] a card k h = ground arith
rejected-settle_cards ((c, claims) ∷ d) a card k h =
    rejected-settle_cards d (settle_card c claims a) card k
      (ground (arith, rejected-settle_card c claims a k, ==_iff c card))

-- The dict of claims holds each card once.
claim_cards-NodupKeys :
    (ids : List Str) (cs : List GpuClaim) (d : Dict CardKey (List CardClaim))
    → NodupKeys d
    → NodupKeys (claim_cards ids cs d)
unfolding claim_cards
claim_cards-NodupKeys ids [] d h = h
claim_cards-NodupKeys ids (c ∷ cs) d h = claim_cards-NodupKeys ids cs _ (
    put-NodupKeys (c.node, c.index)
      (get_or d (c.node, c.index) [] ++ (record { jobid = c.jobid; ids = ids } ∷ [])) d h)

act-NodupKeys :
    (ids : List Str) (v : Verdict) (p : Parsed)
    → NodupKeys p.gpu_claims
    → NodupKeys (act ids v p).gpu_claims
unfolding admit
act-NodupKeys ids ignored p h = h
act-NodupKeys ids refused p h = h
act-NodupKeys ids (granted g) p h =
    elim g.claims as (λ o. NodupKeys (with_claims ids o (recorded ids g p)).gpu_claims) [
      | none ↦ h
      | some cs ↦ claim_cards-NodupKeys ids cs p.gpu_claims h
    ]

-- The same on the list of the claims.
abbrev pub sole : List CardClaim → Option Str
sole (c ∷ []) = some c.jobid
sole _ = none

abbrev pub rivals : List CardClaim → List CardClaim
rivals (c ∷ d ∷ cs) = c ∷ d ∷ cs
rivals _ = []

sole-sole_claim : (o : Option (List CardClaim)) → sole_claim none o ≡ sole (or_default [] o)
sole-sole_claim none = refl
sole-sole_claim (some []) = refl
sole-sole_claim (some (c ∷ [])) = refl
sole-sole_claim (some (c ∷ d ∷ cs)) = refl

rivals-contended : (o : Option (List CardClaim)) → rivals (or_default [] o) ≡ contended o
rivals-contended none = refl
rivals-contended (some []) = refl
rivals-contended (some (c ∷ [])) = refl
rivals-contended (some (c ∷ d ∷ cs)) = refl

abbrev start : Parsed → Allocated
start q = record { alloc = []; rejected = q.rejected }

module _ (before after : Dict Str QueueAnchor) where
  judge_all-NodupKeys :
      (full cs : List Candidate) (p : Parsed)
      → NodupKeys p.gpu_claims
      → NodupKeys (judge_all before after full cs p).gpu_claims
  unfolding judge_all
  judge_all-NodupKeys full [] p h = h
  judge_all-NodupKeys full (c ∷ cs) p h =
      judge_all-NodupKeys full cs (act c.ids (judge before after full c) p)
        (act-NodupKeys c.ids (judge before after full c) p h)

  -- The claims of a card in the records that are granted, in their order.
  abbrev pub claims_of_card : List Candidate → CardKey → List Candidate → List CardClaim
  claims_of_card full card [] = []
  claims_of_card full card (c ∷ cs) =
      verdict_claims card c.ids (judge before after full c) ++ claims_of_card full card cs

  get_or-judge_all :
      (full cs : List Candidate) (p : Parsed) (card : CardKey)
      → get_or (judge_all before after full cs p).gpu_claims card []
        ≡ (get_or p.gpu_claims card [] ++ claims_of_card full card cs)
  unfolding judge_all
  get_or-judge_all full [] p card = sym (append_nil (get_or p.gpu_claims card []))
  get_or-judge_all full (c ∷ cs) p card =
      get_or-judge_all full cs (act c.ids (judge before after full c) p) card
      ∙ (ap (λ l. l ++ claims_of_card full card cs)
            (get_or-act card c.ids (judge before after full c) p)
          ∙ append_assoc (get_or p.gpu_claims card [])
              (verdict_claims card c.ids (judge before after full c)) (claims_of_card full card cs))

  -- A card goes to the one job that the granted records claim it for, and to none where they claim
  -- it for no job or more than once; then every id of the records that claim it is rejected.
  pub parse_legacy_jobs-sole_claim :
      (text : Str) (p : Parsed) (a : Allocated)
      → parse_legacy_jobs before after text ≡ some (p, a)
      → (card : CardKey)
      → let full = candidates_of (splitlines text) in
        (card_holder card a.alloc ≡ sole (claims_of_card full card full))
        × ((k : Str)
            → in_claims k (rivals (claims_of_card full card full)) ≡ true
            → contains a.rejected k ≡ true)
  unfolding parse_legacy_jobs get get_or
  parse_legacy_jobs-sole_claim text p a e card =
      let full = candidates_of (splitlines text) in
      let q = judge_all before after full full nothing in
      let settled : settle_cards q.gpu_claims (start q) ≡ a = ground arith in
      let h : NodupKeys q.gpu_claims = judge_all-NodupKeys full full nothing tt in
      let claims : get_or q.gpu_claims card [] ≡ claims_of_card full card full =
        get_or-judge_all full full nothing card in
      (
        sym (ap (λ x. card_holder card x.alloc) settled)
            ∙ (card_holder-settle_cards q.gpu_claims (start q) card h
                ∙ (sole-sole_claim (get q.gpu_claims card) ∙ ap sole claims)),
        λ k m.
            sym (ap (λ x. contains x.rejected k) settled)
            ∙ rejected-settle_cards q.gpu_claims (start q) card k (
                ground (
                  arith,
                  rivals-contended (get q.gpu_claims card),
                  ap (λ l. in_claims k (rivals l)) claims,
                  m,
                )),
      )

  -- What is rejected with the records stays rejected.
  pub kept-rejected :
      (text : Str) (p : Parsed) (a : Allocated)
      → parse_legacy_jobs before after text ≡ some (p, a)
      → let full = candidates_of (splitlines text) in
        (k : Str)
        → contains (judge_all before after full full nothing).rejected k ≡ true
        → contains a.rejected k ≡ true
  unfolding parse_legacy_jobs
  kept-rejected text p a e k m =
      let full = candidates_of (splitlines text) in
      let q = judge_all before after full full nothing in
      let settled : settle_cards q.gpu_claims (start q) ≡ a = ground arith in
      sym (ap (λ x. contains x.rejected k) settled)
      ∙ rejected-settle_cards q.gpu_claims (start q) ([], []) k (ground (arith, m))
