-- ===== src/Legacy/Claims.antt =====
-- Which claims of cards the judged records of a cycle add up to.
use slurm_gpu_tui.Prelude.{Str, Bool, true, false, str_eq, nat_eq, none, some, List, [], ◌∷◌, ◌++◌}
use slurm_gpu_tui.Prelude.{◌≡◌, refl, sym, ap, ◌∙◌, if◌then◌else◌, Bool-cases, inl, inr}
use slurm_gpu_tui.Prelude.Dict.{Dict, or_default, get, get_or, get-put}
use slurm_gpu_tui.Legacy.{Verdict, ignored, refused, granted}
use slurm_gpu_tui.Legacy.Gpus.{GpuClaim}
use slurm_gpu_tui.Legacy.Jobs.{
  CardKey, card_eq, card_beq, card_beq_iff, claim_card, CardClaim, Parsed, claim_cards, recorded,
  with_claims, admit, act,
}

-- The claims of a card among those of a record.
abbrev pub claims_at : CardKey → List Str → List GpuClaim → List CardClaim
claims_at card ids [] = []
claims_at card ids (c ∷ cs) =
    let rest = claims_at card ids cs in
    if card_beq (c.node, c.index) card then record { jobid = c.jobid; ids = ids } ∷ rest else rest

abbrev pub verdict_claims : CardKey → List Str → Verdict → List CardClaim
verdict_claims card ids ignored = []
verdict_claims card ids refused = []
verdict_claims card ids (granted g) = claims_at card ids (or_default [] g.claims)

pub append_assoc : (xs ys zs : List CardClaim) → ((xs ++ ys) ++ zs) ≡ (xs ++ (ys ++ zs))
append_assoc [] ys zs = refl
append_assoc (x ∷ xs) ys zs = ap (λ l. x ∷ l) (append_assoc xs ys zs)

pub append_nil : (xs : List CardClaim) → (xs ++ []) ≡ xs
append_nil [] = refl
append_nil (x ∷ xs) = ap (λ l. x ∷ l) (append_nil xs)

get_or-claim_card :
    (card : CardKey) (ids : List Str) (c : GpuClaim) (d : Dict CardKey (List CardClaim))
    → get_or (claim_card ids c d) card [] ≡ (get_or d card [] ++ claims_at card ids (c ∷ []))
unfolding get_or
get_or-claim_card card ids c d =
    let key : CardKey = (c.node, c.index) in
    let claims = or_default [] (get d key) ++ (record { jobid = c.jobid; ids = ids } ∷ []) in
    elim (Bool-cases (card_beq key card)) [
      | inl e ↦
          rw (get-put key card claims d, e)
            (ap (λ x. or_default [] (get d x) ++ (record { jobid = c.jobid; ids = ids } ∷ []))
              ((card_beq_iff key card).0 e))
      | inr e ↦ rw (get-put key card claims d, e) (sym (append_nil (or_default [] (get d card))))
    ]

get_or-claim_cards :
    (card : CardKey) (ids : List Str) (cs : List GpuClaim) (d : Dict CardKey (List CardClaim))
    → get_or (claim_cards ids cs d) card [] ≡ (get_or d card [] ++ claims_at card ids cs)
unfolding claim_cards
get_or-claim_cards card ids [] d = sym (append_nil (get_or d card []))
get_or-claim_cards card ids (c ∷ cs) d =
    get_or-claim_cards card ids cs (claim_card ids c d)
    ∙ (ap (λ l. l ++ claims_at card ids cs) (get_or-claim_card card ids c d)
        ∙ (append_assoc (get_or d card []) (claims_at card ids (c ∷ [])) (claims_at card ids cs)
            ∙ ap (λ l. get_or d card [] ++ l) (one (card_beq (c.node, c.index) card))))
  where
    one :
        (b : Bool)
        → let x : CardClaim = record { jobid = c.jobid; ids = ids } in
          ((if b then x ∷ [] else []) ++ claims_at card ids cs)
          ≡ (if b then x ∷ claims_at card ids cs else claims_at card ids cs)
    one true = refl
    one false = refl

pub get_or-act :
    (card : CardKey) (ids : List Str) (v : Verdict) (p : Parsed)
    → get_or (act ids v p).gpu_claims card []
      ≡ (get_or p.gpu_claims card [] ++ verdict_claims card ids v)
unfolding admit
get_or-act card ids ignored p = sym (append_nil (get_or p.gpu_claims card []))
get_or-act card ids refused p = sym (append_nil (get_or p.gpu_claims card []))
get_or-act card ids (granted g) p =
    elim g.claims
      as (λ o.
        get_or (with_claims ids o (recorded ids g p)).gpu_claims card []
        ≡ (get_or p.gpu_claims card [] ++ claims_at card ids (or_default [] o))) [
          | none ↦ sym (append_nil (get_or p.gpu_claims card []))
          | some cs ↦ get_or-claim_cards card ids cs p.gpu_claims
        ]
