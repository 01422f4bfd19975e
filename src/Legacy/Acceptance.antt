-- ===== src/Legacy/Acceptance.antt =====
-- Which records of `scontrol` are believed to the end: none of the checks has rejected them.
use slurm_gpu_tui.Prelude.{ℕ, Str, true, false, str_eq, nat_eq, none, some, List, [], ◌∷◌, ◌++◌}
use slurm_gpu_tui.Prelude.{
  ◌≡◌, refl, ap, ◌∙◌, arith, ◌⊎◌, inl, inr, Bool-cases, Option-cases, contains,
}
use slurm_gpu_tui.Prelude.Dict.{Dict, get}
use slurm_gpu_tui.Prelude.Text.{splitlines}
use slurm_gpu_tui.Queue.{QueueAnchor}
use slurm_gpu_tui.Legacy.{
  Candidate, candidates_of, Grant, Verdict, judge, ignored, refused, granted,
}
use slurm_gpu_tui.Legacy.Gpus.{GpuClaim}
use slurm_gpu_tui.Legacy.Jobs.{
  CardKey, CardClaim, card_beq, card_beq_iff, Parsed, Allocated, nothing, recorded, with_claims,
  admit, act, judge_all, parse_legacy_jobs,
}
use slurm_gpu_tui.Legacy.Safety.{In, IsVouched, parse_legacy_jobs-IsVouched}
use slurm_gpu_tui.Legacy.Claims.{claims_at, verdict_claims}
use slurm_gpu_tui.Legacy.Cards.{
  card_holder, in_claims, sole, rivals, claims_of_card, contains-add_all,
  parse_legacy_jobs-sole_claim, kept-rejected,
}

-- The record that speaks for an id, with its claims of cards: they are believed, and each of the
-- cards went to the job that the claim names.
pub record IsAccepted (before after : Dict Str QueueAnchor) (full : List Candidate) (p : Parsed)
    (a : Allocated) (k : Str) (uid : ℕ) : Type 0 where
  pub vouched : IsVouched before after full p k uid
  pub claims : List GpuClaim
  pub believed : vouched.grant.claims ≡ some claims
  pub uncontested :
      (c : GpuClaim) → In c claims → card_holder (c.node, c.index) a.alloc ≡ some c.jobid

-- Rejected ids stay rejected while records are judged.
act-keeps :
    (ids : List Str) (v : Verdict) (p : Parsed) (k : Str)
    → contains p.rejected k ≡ true
    → contains (act ids v p).rejected k ≡ true
unfolding admit
act-keeps ids ignored p k h = h
act-keeps ids refused p k h = ground (arith, contains-add_all ids p.rejected k)
act-keeps ids (granted g) p k h =
    elim g.claims as (λ o. contains (with_claims ids o (recorded ids g p)).rejected k ≡ true) [
      | none ↦ ground (arith, contains-add_all ids p.rejected k)
      | some cs ↦ h
    ]

act-disbelieved :
    (ids : List Str) (g : Grant) (p : Parsed) (k : Str)
    → g.claims ≡ none
    → contains ids k ≡ true
    → contains (act ids (granted g) p).rejected k ≡ true
unfolding admit
act-disbelieved ids g p k e m = rw e (ground (arith, contains-add_all ids p.rejected k))

In-append : {A : Type 0} (x : A) (xs ys : List A) → In x xs ⊎ In x ys → In x (xs ++ ys)
In-append x [] ys (inl m) = absurd m
In-append x [] ys (inr m) = m
In-append x (z ∷ xs) ys (inl (inl e)) = inl e
In-append x (z ∷ xs) ys (inl (inr m)) = inr (In-append x xs ys (inl m))
In-append x (z ∷ xs) ys (inr m) = inr (In-append x xs ys (inr m))

In-claims_at :
    (card : CardKey) (ids : List Str) (c : GpuClaim) (cs : List GpuClaim)
    → card_beq (c.node, c.index) card ≡ true
    → In c cs
    → In {A = CardClaim} (record { jobid = c.jobid; ids = ids }) (claims_at card ids cs)
In-claims_at card ids c [] e m = absurd m
In-claims_at card ids c (d ∷ cs) e (inl same) =
    let hit : card_beq (d.node, d.index) card ≡ true =
      ap (λ x. card_beq (x.node, x.index) card) same ∙ e in
    rw hit (inl (ap (λ x. record { jobid = x.jobid; ids = ids }) same))
In-claims_at card ids c (d ∷ cs) e (inr m) = elim (Bool-cases (card_beq (d.node, d.index) card)) [
  | inl t ↦ rw t (inr (In-claims_at card ids c cs e m))
  | inr t ↦ rw t (In-claims_at card ids c cs e m)
]

In-in_claims :
    (c : CardClaim) (cs : List CardClaim) (k : Str)
    → In c cs
    → contains c.ids k ≡ true
    → in_claims k cs ≡ true
In-in_claims c [] k m h = absurd m
In-in_claims c (d ∷ cs) k (inl e) h = ground (arith, ap (λ x. contains x.ids k) e)
In-in_claims c (d ∷ cs) k (inr m) h = ground (arith, In-in_claims c cs k m h)

-- A claim without rivals is the only one.
sole-In :
    (c : CardClaim) (cs : List CardClaim) (k : Str)
    → In c cs
    → contains c.ids k ≡ true
    → in_claims k (rivals cs) ≡ false
    → sole cs ≡ some c.jobid
sole-In c [] k m h f = absurd m
sole-In c (d ∷ []) k (inl e) h f = ap (λ x. some x.jobid) e
sole-In c (d ∷ []) k (inr m) h f = absurd m
sole-In c (d ∷ e ∷ cs) k m h f = absurd (ground (arith, In-in_claims c (d ∷ e ∷ cs) k m h))

module _ (before after : Dict Str QueueAnchor) where
  judge_all-keeps :
      (full cs : List Candidate) (p : Parsed) (k : Str)
      → contains p.rejected k ≡ true
      → contains (judge_all before after full cs p).rejected k ≡ true
  unfolding judge_all
  judge_all-keeps full [] p k h = h
  judge_all-keeps full (c ∷ cs) p k h =
      judge_all-keeps full cs (act c.ids (judge before after full c) p) k
        (act-keeps c.ids (judge before after full c) p k h)

  judge_all-disbelieved :
      (full cs : List Candidate) (p : Parsed) (k : Str) (c : Candidate) (g : Grant)
      → In c cs
      → judge before after full c ≡ granted g
      → g.claims ≡ none
      → contains c.ids k ≡ true
      → contains (judge_all before after full cs p).rejected k ≡ true
  unfolding judge_all
  judge_all-disbelieved full [] p k c g m j e h = absurd m
  judge_all-disbelieved full (d ∷ cs) p k c g (inl same) j e h =
      let v : judge before after full d ≡ granted g = ap (judge before after full) same ∙ j in
      judge_all-keeps full cs (act d.ids (judge before after full d) p) k
        (rw v (act-disbelieved d.ids g p k e (ap (λ x. contains x.ids k) same ∙ h)))
  judge_all-disbelieved full (d ∷ cs) p k c g (inr m) j e h =
      judge_all-disbelieved full cs (act d.ids (judge before after full d) p) k c g m j e h

  In-claims_of_card :
      (full cs : List Candidate) (c : Candidate) (g : Grant) (claims : List GpuClaim) (x : GpuClaim)
      → In c cs
      → judge before after full c ≡ granted g
      → g.claims ≡ some claims
      → In x claims
      → In {A = CardClaim}
          (record { jobid = x.jobid; ids = c.ids })
          (claims_of_card before after full (x.node, x.index) cs)
  In-claims_of_card full [] c g claims x m j e n = absurd m
  In-claims_of_card full (d ∷ cs) c g claims x (inl same) j e n =
      let card : CardKey = (x.node, x.index) in
      let v : judge before after full d ≡ granted g = ap (judge before after full) same ∙ j in
      In-append {A = CardClaim} (record { jobid = x.jobid; ids = c.ids })
        (verdict_claims card d.ids (judge before after full d))
        (claims_of_card before after full card cs)
        (inl (
          rw (v, e, ap (λ y. y.ids) same)
            (In-claims_at card c.ids x claims ((card_beq_iff card card).1 refl) n)))
  In-claims_of_card full (d ∷ cs) c g claims x (inr m) j e n =
      let card : CardKey = (x.node, x.index) in
      In-append {A = CardClaim} (record { jobid = x.jobid; ids = c.ids })
        (verdict_claims card d.ids (judge before after full d))
        (claims_of_card before after full card cs)
        (inr (In-claims_of_card full cs c g claims x m j e n))

  -- Where an id has an owner and has not been rejected, one record says so: the id stands in that
  -- record only, one of the record's ids has the same anchor in the rosters before and after, the
  -- record's fields agree with that anchor, the owner is the anchor's, and the record's claims of
  -- cards are believed, each card having gone to the job that the claim names.
  pub parse_legacy_jobs-IsAccepted :
      (text : Str) (p : Parsed) (a : Allocated)
      → parse_legacy_jobs before after text ≡ some (p, a)
      → (k : Str) (uid : ℕ) → get p.owner_uids k ≡ some uid
      → contains a.rejected k ≡ false
      → IsAccepted before after (candidates_of (splitlines text)) p a k uid
  parse_legacy_jobs-IsAccepted text p a e k uid m f =
      let full = candidates_of (splitlines text) in
      let v = parse_legacy_jobs-IsVouched before after text p a e k uid m in
      elim (Option-cases v.grant.claims) [
        | inl t ↦ absurd (
            ground (
              arith,
              kept-rejected before after text p a e k (
                  judge_all-disbelieved full full nothing k v.candidate v.grant v.listed v.judged t
                    v.names_it),
            ))
        | inr (claims, t) ↦ record {
          vouched = v;
          claims = claims;
          believed = t;
          uncontested = λ c n.
              let card : CardKey = (c.node, c.index) in
              let own : CardClaim = record { jobid = c.jobid; ids = v.candidate.ids } in
              let (holder, rejects) = parse_legacy_jobs-sole_claim before after text p a e card in
              holder
              ∙ sole-In own (claims_of_card before after full card full) k
                  (In-claims_of_card full full v.candidate v.grant claims c v.listed v.judged t n)
                  v.names_it (ground (arith, rejects k));
        }
      ]
