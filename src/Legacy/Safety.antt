-- ===== src/Legacy/Safety.antt =====
-- Whom a record of `scontrol` can speak for, and which cards it can take.
use slurm_gpu_tui.Prelude.{
  ℕ, Str, true, false, str_eq, nat_eq, Option, none, some, List, [], ◌∷◌, not,
}
use slurm_gpu_tui.Prelude.{
  ◌≡◌, refl, sym, ap, ◌∙◌, arith, ◌⊎◌, inl, inr, ==_iff, ==_refl, Bool-cases, Option-cases,
  contains, any, if◌then◌else◌, All, All-map, nat_beq,
}
use slurm_gpu_tui.Prelude.Dict.{Dict, get, put, get-put}
use slurm_gpu_tui.Prelude.Text.{splitlines}
use slurm_gpu_tui.Records.Jobs.{put_all}
use slurm_gpu_tui.Queue.{QueueAnchor}
use slurm_gpu_tui.Records.Detail.{LogMetadata}
use slurm_gpu_tui.Legacy.{
  Candidate, candidates_of, claim_count, stable_anchor, stable_anchors, one_anchor, grant_of, Grant,
  Verdict, judge, ignored, refused, granted, screened_of,
}
use slurm_gpu_tui.Legacy.Gpus.{GpuClaim}
use slurm_gpu_tui.Legacy.Jobs.{
  Parsed, Allocated, recorded, nothing, admit, act, with_claims, judge_all, parse_legacy_jobs,
}

-- The element is in the list.
abbrev pub In : {A : Type 0} → A → List A → Type 0
In a [] = ⊥
In a (b ∷ bs) = (b ≡ a) ⊎ In a bs

pub get-put_all :
    {V : Type 0} (ks : List Str) (v : V) (d : Dict Str V) (k : Str)
    → get (put_all ks v d) k ≡ (if contains ks k then some v else get d k)
unfolding put_all
get-put_all [] v d k = refl
get-put_all (j ∷ ks) v d k = ground (arith, get-put_all ks v (put j v d) k, get-put j k v d)

-- A stable anchor for one of the ids.
witness-stable_anchors :
    (before after : Dict Str QueueAnchor) (ks : List Str) (a : QueueAnchor)
    → one_anchor (stable_anchors before after ks) ≡ some a
    → (j : Str) × (contains ks j ≡ true) × (stable_anchor before after j ≡ some a)
unfolding stable_anchors
witness-stable_anchors before after [] a h = absurd cc
witness-stable_anchors before after (k ∷ ks) a h =
    elim (Option-cases (stable_anchor before after k)) [
      | inl e ↦
          let (j, m, w) = witness-stable_anchors before after ks a (rw e at h) in
          (j, ground arith, w)
      | inr (b, e) ↦ (
        k,
        ground (arith, ==_refl k),
        e ∙ first_anchor b (stable_anchors before after ks) a (rw e at h),
      )
    ]
  where
    first_anchor :
        (b : QueueAnchor) (bs : List QueueAnchor) (c : QueueAnchor)
        → one_anchor (b ∷ bs) ≡ some c
        → some b ≡ some c
    first_anchor b bs c h = ground arith

-- The candidate that speaks for `k`, and what it says.
pub record IsVouched (before after : Dict Str QueueAnchor) (full : List Candidate) (p : Parsed)
    (k : Str) (uid : ℕ) : Type 0 where
  pub candidate : Candidate
  pub listed : In candidate full
  pub names_it : contains candidate.ids k ≡ true
  pub alone : claim_count k full ≡ 1
  pub grant : Grant
  pub judged : judge before after full candidate ≡ granted grant
  pub granted_by : grant_of candidate grant.anchor ≡ some grant
  pub witnessed :
      (j : Str) × (contains candidate.ids j ≡ true)
      × (stable_anchor before after j ≡ some grant.anchor)
  pub uid_of_anchor : uid ≡ grant.anchor.uid
  pub user_of_anchor : get p.users k ≡ some grant.anchor.user
  pub detail_of_grant : get p.details k ≡ some grant.detail
  pub metadata_of_grant : get p.metadata k ≡ some grant.log_spec

grant_of-anchor :
    (c : Candidate) (a : QueueAnchor) (g : Grant) → grant_of c a ≡ some g → g.anchor ≡ a
unfolding grant_of
grant_of-anchor c a g h = elim (Option-cases (screened_of c a)) [
  | inl e ↦ absurd (ground (arith, rw e at h))
  | inr (r, e) ↦ ground (arith, rw e at h)
]

no_other_claim :
    (full : List Candidate) (ids : List Str) (k : Str)
    → any (λ j. not (nat_beq (claim_count j full) 1)) ids ≡ false
    → contains ids k ≡ true
    → claim_count k full ≡ 1
no_other_claim full [] k h m = absurd cc
no_other_claim full (j ∷ ids) k h m = ground (arith, no_other_claim full ids k, ==_iff j k)

module _ (before after : Dict Str QueueAnchor) where
  -- What a granted candidate has passed.
  record IsPassed (full : List Candidate) (c : Candidate) (g : Grant) : Type 0 where
    alone : (k : Str) → contains c.ids k ≡ true → claim_count k full ≡ 1
    judged : judge before after full c ≡ granted g
    granted_by : grant_of c g.anchor ≡ some g
    witnessed :
        (j : Str) × (contains c.ids j ≡ true) × (stable_anchor before after j ≡ some g.anchor)

  granted-IsPassed :
      (full : List Candidate) (c : Candidate) (g : Grant)
      → judge before after full c ≡ granted g
      → IsPassed full c g
  unfolding judge
  granted-IsPassed full c g h =
      elim (Option-cases (one_anchor (stable_anchors before after c.ids))) [
        | inl e ↦ absurd (ground (arith, rw e at h))
        | inr (a, e) ↦ elim (Option-cases (grant_of c a)) [
          | inl e' ↦ absurd (ground (arith, rw e at h))
          | inr (f, e') ↦
              let h' : granted f ≡ granted g = ground (arith, rw e at h) in
              let eq : f ≡ g = ground arith in
              let anchor_eq : a ≡ g.anchor =
                sym (grant_of-anchor c a f e') ∙ ap (λ x. x.anchor) eq in
              record {
                alone = λ k m. no_other_claim full c.ids k (ground (arith, rw e at h)) m;
                judged = h;
                granted_by = ap (grant_of c) (sym anchor_eq) ∙ (e' ∙ ap some eq);
                witnessed =
                    let (j, m, w) = witness-stable_anchors before after c.ids a e in
                    (j, m, w ∙ ap some anchor_eq);
              }
        ]
      ]

  IsSound : List Candidate → Parsed → Type 0
  IsSound full p =
      (k : Str) (uid : ℕ) → get p.owner_uids k ≡ some uid → IsVouched before after full p k uid

  -- The tables that say whom an id belongs to.
  Tables : Parsed → Dict Str Str × Dict Str ℕ × Dict Str Str × Dict Str LogMetadata
  Tables p = (p.users, p.owner_uids, p.details, p.metadata)

  with_claims-Tables :
      (ids : List Str) (o : Option (List GpuClaim)) (p : Parsed)
      → Tables (with_claims ids o p) ≡ Tables p
  unfolding Tables
  with_claims-Tables ids none p = refl
  with_claims-Tables ids (some cs) p = refl

  IsSound-same :
      (full : List Candidate) (p q : Parsed) → Tables p ≡ Tables q → IsSound full p → IsSound full q
  unfolding IsSound Tables
  IsSound-same full p q e h k uid m =
      let v = h k uid (ap (λ t. get t.1 k) e ∙ m) in
      record {
        candidate = v.candidate;
        listed = v.listed;
        names_it = v.names_it;
        alone = v.alone;
        grant = v.grant;
        judged = v.judged;
        granted_by = v.granted_by;
        witnessed = v.witnessed;
        uid_of_anchor = v.uid_of_anchor;
        user_of_anchor = sym (ap (λ t. get t.0 k) e) ∙ v.user_of_anchor;
        detail_of_grant = sym (ap (λ t. get t.2 k) e) ∙ v.detail_of_grant;
        metadata_of_grant = sym (ap (λ t. get t.3 k) e) ∙ v.metadata_of_grant;
      }

  recorded-IsSound :
      (full : List Candidate) (c : Candidate) (g : Grant) (p : Parsed)
      → In c full
      → IsPassed full c g
      → IsSound full p
      → IsSound full (recorded c.ids g p)
  unfolding IsSound
  recorded-IsSound full c g p m q h k uid e = elim (Bool-cases (contains c.ids k)) [
    | inl t ↦
        let known : some g.anchor.uid ≡ some uid =
          ground (arith, get-put_all c.ids g.anchor.uid p.owner_uids k) in
        record {
          candidate = c;
          listed = m;
          names_it = t;
          alone = q.alone k t;
          grant = g;
          judged = q.judged;
          granted_by = q.granted_by;
          witnessed = q.witnessed;
          uid_of_anchor = ground arith;
          user_of_anchor = ground (arith, get-put_all c.ids g.anchor.user p.users k);
          detail_of_grant = ground (arith, get-put_all c.ids g.detail p.details k);
          metadata_of_grant = ground (arith, get-put_all c.ids g.log_spec p.metadata k);
        }
    | inr t ↦
        let v = h k uid (ground (arith, get-put_all c.ids g.anchor.uid p.owner_uids k)) in
        record {
          candidate = v.candidate;
          listed = v.listed;
          names_it = v.names_it;
          alone = v.alone;
          grant = v.grant;
          judged = v.judged;
          granted_by = v.granted_by;
          witnessed = v.witnessed;
          uid_of_anchor = v.uid_of_anchor;
          user_of_anchor =
              ground (arith, get-put_all c.ids g.anchor.user p.users k, v.user_of_anchor);
          detail_of_grant =
              ground (arith, get-put_all c.ids g.detail p.details k, v.detail_of_grant);
          metadata_of_grant =
              ground (arith, get-put_all c.ids g.log_spec p.metadata k, v.metadata_of_grant);
        }
  ]

  act-IsSound :
      (full : List Candidate) (c : Candidate) (v : Verdict) (p : Parsed)
      → In c full
      → judge before after full c ≡ v
      → IsSound full p
      → IsSound full (act c.ids v p)
  unfolding admit Tables
  act-IsSound full c ignored p m e h = h
  act-IsSound full c refused p m e h = IsSound-same full p (act c.ids refused p) tables h
    where
      tables : Tables p ≡ Tables (act c.ids refused p)
      tables = refl
  act-IsSound full c (granted g) p m e h =
      IsSound-same full (recorded c.ids g p) (act c.ids (granted g) p)
        (sym (with_claims-Tables c.ids g.claims (recorded c.ids g p)))
        (recorded-IsSound full c g p m (granted-IsPassed full c g e) h)

  judge_all-IsSound :
      (full cs : List Candidate) (p : Parsed)
      → All (λ c. In c full) cs
      → IsSound full p
      → IsSound full (judge_all before after full cs p)
  unfolding judge_all
  judge_all-IsSound full [] p ms h = h
  judge_all-IsSound full (c ∷ cs) p (m, ms) h =
      judge_all-IsSound full cs (act c.ids (judge before after full c) p) ms
        (act-IsSound full c (judge before after full c) p m refl h)

  nothing-IsSound : (full : List Candidate) → IsSound full nothing
  unfolding IsSound get
  nothing-IsSound full k uid m = absurd cc

pub All-listed : {A : Type 0} (xs : List A) → All (λ x. In x xs) xs
All-listed [] = tt
All-listed (x ∷ xs) = (inl refl, All-map xs (λ y m. inr m) (All-listed xs))

-- Where an owner is recorded of an id, rejected later or not, the id stands in one record only, one of
-- that record's ids has the same anchor in the rosters before and after, the record's fields agree
-- with that anchor, and the owner is the anchor's.
pub parse_legacy_jobs-IsVouched :
    (before after : Dict Str QueueAnchor) (text : Str) (p : Parsed) (a : Allocated)
    → parse_legacy_jobs before after text ≡ some (p, a)
    → (k : Str) (uid : ℕ) → get p.owner_uids k ≡ some uid
    → IsVouched before after (candidates_of (splitlines text)) p k uid
unfolding parse_legacy_jobs IsSound
parse_legacy_jobs-IsVouched before after text p a e =
    let full = candidates_of (splitlines text) in
    let result : judge_all before after full full nothing ≡ p = ground arith in
    IsSound-same before after full (judge_all before after full full nothing) p
      (ap (Tables before after) result)
      (judge_all-IsSound before after full full nothing (All-listed full)
        (nothing-IsSound before after full))
