-- ===== src/Queue/Safety.antt =====
-- Every running job that is returned has one owner and one placement, those of its anchor.
use slurm_gpu_tui.Prelude.{◌<◌, ◌^◌, ◌≡◌, ◌≢◌, refl, ◌∙◌, sym, ap, arith, Str, true, str_eq}
use slurm_gpu_tui.Prelude.{Option, none, some, List, [], ◌∷◌, ◌==◌, ==_iff, ==_refl}
use slurm_gpu_tui.Prelude.{Option-cases, Bool-cases, ◌⊎◌, inl, inr, All}
use slurm_gpu_tui.Prelude.{list_beq, ne_of_test}
use slurm_gpu_tui.Prelude.Int.{pos}
use slurm_gpu_tui.Prelude.Dict.{Dict, get, has}
use slurm_gpu_tui.Prelude.Text.{split, splitlines, strip, upper}
use slurm_gpu_tui.Data.{JobInfo}
use slurm_gpu_tui.Nodelist.Strict.{strict_expand_nodes}
use slurm_gpu_tui.Queue.{
  QueueAnchor, Row, row_of, running, pending, placement, identity, running_job,
}
use slurm_gpu_tui.Queue.{nothing, gather, anchored, sole_anchors, parse_queue_output}
use slurm_gpu_tui.Queue.Fields.{valid_slurm_job_id}
use slurm_gpu_tui.Queue.Anchors.{
  Claim, accepted, claims, running_rows, cons_claim, claims_of_row, sole,
}
use slurm_gpu_tui.Queue.Anchors.{gather-running, get-anchors}

-- What the tests of the loop leave of a row.
pub record IsGenuine (c : Claim) : Type 0 where
  pub valid : valid_slurm_job_id c.jobid ≡ true
  pub uid_fits : c.anchor.uid < 2 ^ 32
  pub placed :
      (c.anchor.state ≡ pending)
      ⊎ ((strict_expand_nodes (strip c.row.node) ≡ some c.anchor.nodes) × (c.anchor.nodes ≢ []))

placement-IsGenuine :
    (state node : Str) (nodes : List Str)
    → placement state node ≡ some nodes
    → (state ≡ pending) ⊎ ((strict_expand_nodes (strip node) ≡ some nodes) × (nodes ≢ []))
unfolding placement
placement-IsGenuine state node nodes h = ground (arith, ==_iff state pending)

identity-IsGenuine :
    (r : Row) (jobid : Str) (a : QueueAnchor)
    → identity r ≡ some (jobid, a)
    → IsGenuine (record { jobid = jobid; anchor = a; row = r })
unfolding identity
identity-IsGenuine r jobid a h = elim (Option-cases (placement (upper (strip r.state)) r.node)) [
  | inl e ↦ absurd (ground (arith, rw e at h))
  | inr (nodes, e) ↦
      let p = placement-IsGenuine (upper (strip r.state)) r.node nodes e in
      let h' = rw e at h in
      record { valid = ground arith; uid_fits = ground arith; placed = ground arith }
]

All-row :
    (o : Option (Str × QueueAnchor)) (r : Row) (rest : List Claim)
    → identity r ≡ o
    → All IsGenuine rest
    → All IsGenuine (cons_claim r o rest)
All-row none r rest e h = h
All-row (some (jobid, a)) r rest e h = (identity-IsGenuine r jobid a e, h)

All-line :
    (o : Option Row) (rest : List Claim) → All IsGenuine rest → All IsGenuine (claims_of_row o rest)
All-line none rest h = h
All-line (some r) rest h = All-row (identity r) r rest refl h

accepted-IsGenuine : (lines : List Str) → All IsGenuine (accepted lines)
unfolding accepted
accepted-IsGenuine [] = tt
accepted-IsGenuine (line ∷ lines) =
    All-line (row_of (split b'|' line)) (accepted lines) (accepted-IsGenuine lines)

-- The row's claim is among those of its id.
In : QueueAnchor → List QueueAnchor → Type 0
In a [] = ⊥
In a (b ∷ bs) = (b ≡ a) ⊎ In a bs

IsListed : List Claim → Claim → Type 0
IsListed full c = In c.anchor (claims c.jobid full)

IsListed-onto :
    (full cs : List Claim)
    → ((k : Str) (a : QueueAnchor) → In a (claims k cs) → In a (claims k full))
    → All (IsListed full) cs
unfolding In IsListed claims
IsListed-onto full [] keep = tt
IsListed-onto full (c ∷ cs) keep = (
  keep c.jobid c.anchor (rw ==_refl (inl refl)),
  IsListed-onto full cs λ k a m. keep k a (later k a m),
)
  where
    later : (k : Str) (a : QueueAnchor) → In a (claims k cs) → In a (claims k (c ∷ cs))
    later k a m = elim (Bool-cases (c.jobid == k)) [ inl e ↦ rw e (inr m) | inr e ↦ rw e m ]

accepted-IsListed : (cs : List Claim) → All (IsListed cs) cs
accepted-IsListed cs = IsListed-onto cs cs (λ k a m. m)

In-sole : (a b : QueueAnchor) (xs : List QueueAnchor) → In a xs → sole xs ≡ some b → a ≡ b
unfolding In
In-sole a b [] m h = elim m [ ]
In-sole a b (x ∷ []) (inl e) h = sym e ∙ cc
In-sole a b (x ∷ []) (inr m) h = elim m [ ]
In-sole a b (x ∷ y ∷ xs) m h = cc

-- A job has an anchor, from which it takes its owner, and its nodes are those of the strict
-- expansion of its node list.
pub record IsOwned (anchors : Dict Str QueueAnchor) (job : JobInfo) : Type 0 where
  pub anchor : QueueAnchor
  pub known : get anchors job.jobid ≡ some anchor
  pub valid : valid_slurm_job_id job.jobid ≡ true
  pub user : job.user ≡ anchor.user
  pub uid : job.uid ≡ pos anchor.uid
  pub uid_fits : anchor.uid < 2 ^ 32
  pub state : anchor.state ≡ running
  pub placed : strict_expand_nodes job.node ≡ some anchor.nodes
  pub somewhere : anchor.nodes ≢ []

has-some : (anchors : Dict Str QueueAnchor) (k : Str) → has anchors k ≡ true → get anchors k ≢ none
unfolding has get
has-some [] k h e = cc
has-some ((j, a) ∷ d) k h e = ground (arith, has-some d k)

running-not-pending : running ≢ pending
unfolding list_beq
running-not-pending = ne_of_test running pending refl

claim-IsOwned :
    (anchors : Dict Str QueueAnchor) (full : List Claim) (c : Claim)
    → ((k : Str) → get anchors k ≡ sole (claims k full))
    → IsGenuine c
    → IsListed full c
    → c.anchor.state ≡ running
    → has anchors c.jobid ≡ true
    → IsOwned anchors (running_job c.jobid c.anchor c.row)
unfolding running_job IsListed
claim-IsOwned anchors full c known g listed run h = elim (Option-cases (get anchors c.jobid)) [
  | inl e ↦ absurd (has-some anchors c.jobid h e)
  | inr (b, e) ↦
      let same : c.anchor ≡ b =
        In-sole c.anchor b (claims c.jobid full) listed (sym (known c.jobid) ∙ e) in
      record {
        anchor = c.anchor;
        known = e ∙ ap some (sym same);
        valid = g.valid;
        user = refl;
        uid = refl;
        uid_fits = g.uid_fits;
        state = run;
        placed = elim g.placed [ inl p ↦ absurd (running-not-pending (sym run ∙ p)) | inr p ↦ p.0 ];
        somewhere = elim g.placed [
          | inl p ↦ absurd (running-not-pending (sym run ∙ p))
          | inr p ↦ p.1
        ];
      }
]

anchored-IsOwned :
    (anchors : Dict Str QueueAnchor) (full cs : List Claim)
    → ((k : Str) → get anchors k ≡ sole (claims k full))
    → All IsGenuine cs
    → All (IsListed full) cs
    → All (IsOwned anchors) (anchored anchors (running_rows cs))
unfolding anchored running_rows
anchored-IsOwned anchors full [] known gs ls = tt
anchored-IsOwned anchors full (c ∷ cs) known (g, gs) (l, ls) =
    elim (Bool-cases (c.anchor.state == running)) [
      | inl e ↦ elim (Bool-cases (has anchors c.jobid)) [
        | inl f ↦
            rw (e, f)
              (
                claim-IsOwned anchors full c known g l ((==_iff c.anchor.state running).0 e) f,
                anchored-IsOwned anchors full cs known gs ls,
              )
        | inr f ↦ rw (e, f) (anchored-IsOwned anchors full cs known gs ls)
      ]
      | inr e ↦ rw e (anchored-IsOwned anchors full cs known gs ls)
    ]

-- Every running job in the result is owned: see `IsOwned`.
pub jobs-IsOwned :
    (out : Str) → All (IsOwned (parse_queue_output out).anchors) (parse_queue_output out).jobs
unfolding parse_queue_output
jobs-IsOwned out =
    let full = accepted (splitlines out) in
    let g = gather (splitlines out) nothing in
    rw (gather-running (splitlines out) nothing) (
      anchored-IsOwned (sole_anchors g.anchors_seen) full full (get-anchors out)
        (accepted-IsGenuine (splitlines out)) (accepted-IsListed full))
