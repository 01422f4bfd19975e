-- ===== src/Queue/Anchors.antt =====
-- An id has an anchor exactly when one accepted row claims it: what the loop of
-- `_parse_queue_output` gathers, against the list of the accepted rows.
use slurm_gpu_tui.Prelude.{◌≡◌, refl, ◌∙◌, sym, ap, arith, Str, false, str_eq}
use slurm_gpu_tui.Prelude.{Option, none, some, List, [], ◌∷◌, ◌++◌, ◌==◌, ==_iff, if◌then◌else◌}
use slurm_gpu_tui.Prelude.{nat_eq}
use slurm_gpu_tui.Prelude.Dict.{Dict, get, has, get-put, NodupKeys, put-NodupKeys, get-none}
use slurm_gpu_tui.Prelude.Text.{split, splitlines}
use slurm_gpu_tui.Data.{JobInfo}
use slurm_gpu_tui.Queue.{
  QueueAnchor, Row, row_of, running, identity, running_job, Gathered, nothing,
}
use slurm_gpu_tui.Queue.{
  or_nil, see, gather_claim, gather_identified, gather_row, gather, sole_anchors,
  parse_queue_output,
}
use mathlib.Core.List.{append-nil, append_assoc}

-- A row that passed the tests, with the id and the anchor that it claims.
pub record Claim : Type 0 where
  pub jobid : Str
  pub anchor : QueueAnchor
  pub row : Row

abbrev pub cons_claim : Row → Option (Str × QueueAnchor) → List Claim → List Claim
cons_claim r none rest = rest
cons_claim r (some (jobid, anchor)) rest = record { jobid = jobid; anchor = anchor; row = r } ∷ rest

abbrev pub claims_of_row : Option Row → List Claim → List Claim
claims_of_row none rest = rest
claims_of_row (some r) rest = cons_claim r (identity r) rest

unfoldable pub accepted : List Str → List Claim
accepted [] = []
accepted (line ∷ lines) = claims_of_row (row_of (split b'|' line)) (accepted lines)

-- The anchors that the rows claim for one id.
unfoldable pub claims : Str → List Claim → List QueueAnchor
claims k [] = []
claims k (c ∷ cs) = let rest = claims k cs in if c.jobid == k then c.anchor ∷ rest else rest

-- The rows of running jobs.
unfoldable pub running_rows : List Claim → List (Str × JobInfo)
running_rows [] = []
running_rows (c ∷ cs) =
    let rest = running_rows cs in
    if c.anchor.state == running then (c.jobid, running_job c.jobid c.anchor c.row) ∷ rest else rest

get-see :
    (jobid k : Str) (a : QueueAnchor) (d : Dict Str (List QueueAnchor))
    → or_nil (get (see jobid a d) k) ≡ or_nil (get d k) ++ (if jobid == k then a ∷ [] else [])
unfolding see
get-see jobid k a d = rw get-put (ground (arith, ==_iff jobid k, append-nil (or_nil (get d k))))

-- One accepted row.
gather_claim-anchors_seen :
    (jobid : Str) (a : QueueAnchor) (r : Row) (g : Gathered)
    → (gather_claim jobid a r g).anchors_seen ≡ see jobid a g.anchors_seen
unfolding gather_claim
gather_claim-anchors_seen jobid a r g = ground arith

gather_claim-job_rows :
    (jobid : Str) (a : QueueAnchor) (r : Row) (g : Gathered)
    → (gather_claim jobid a r g).job_rows
      ≡ g.job_rows ++ (if a.state == running then (jobid, running_job jobid a r) ∷ [] else [])
unfolding gather_claim
gather_claim-job_rows jobid a r g = ground (arith, append-nil g.job_rows)

-- The loop, id by id. A line is a row or not, and a row is identified or not.
module _ (k : Str) where
  claims-row :
      (o : Option (Str × QueueAnchor)) (r : Row) (g : Gathered) (rest : List Claim)
      → or_nil (get (gather_identified o r g).anchors_seen k) ++ claims k rest
        ≡ or_nil (get g.anchors_seen k) ++ claims k (cons_claim r o rest)
  unfolding claims
  claims-row none r g rest = refl
  claims-row (some (jobid, a)) r g rest =
      rw (gather_claim-anchors_seen, get-see)
        (append_assoc (or_nil (get g.anchors_seen k)) (if jobid == k then a ∷ [] else [])
            (claims k rest)
          ∙ ground arith)

  claims-line :
      (o : Option Row) (g : Gathered) (rest : List Claim)
      → or_nil (get (gather_row o g).anchors_seen k) ++ claims k rest
        ≡ or_nil (get g.anchors_seen k) ++ claims k (claims_of_row o rest)
  claims-line none g rest = refl
  claims-line (some r) g rest = claims-row (identity r) r g rest

  gather-claims :
      (lines : List Str) (g : Gathered)
      → or_nil (get (gather lines g).anchors_seen k)
        ≡ or_nil (get g.anchors_seen k) ++ claims k (accepted lines)
  unfolding gather accepted
  gather-claims [] g = unfold claims in sym (append-nil (or_nil (get g.anchors_seen k)))
  gather-claims (line ∷ lines) g =
      gather-claims lines (gather_row (row_of (split b'|' line)) g)
      ∙ claims-line (row_of (split b'|' line)) g (accepted lines)

running-row :
    (o : Option (Str × QueueAnchor)) (r : Row) (g : Gathered) (rest : List Claim)
    → (gather_identified o r g).job_rows ++ running_rows rest
      ≡ g.job_rows ++ running_rows (cons_claim r o rest)
unfolding running_rows
running-row none r g rest = refl
running-row (some (jobid, a)) r g rest = rw gather_claim-job_rows (
    append_assoc g.job_rows (if a.state == running then (jobid, running_job jobid a r) ∷ [] else [])
      (running_rows rest)
    ∙ ground arith)

running-line :
    (o : Option Row) (g : Gathered) (rest : List Claim)
    → (gather_row o g).job_rows ++ running_rows rest
      ≡ g.job_rows ++ running_rows (claims_of_row o rest)
running-line none g rest = refl
running-line (some r) g rest = running-row (identity r) r g rest

pub gather-running :
    (lines : List Str) (g : Gathered)
    → (gather lines g).job_rows ≡ g.job_rows ++ running_rows (accepted lines)
unfolding gather accepted
gather-running [] g = unfold running_rows in sym (append-nil g.job_rows)
gather-running (line ∷ lines) g =
    gather-running lines (gather_row (row_of (split b'|' line)) g)
    ∙ running-line (row_of (split b'|' line)) g (accepted lines)

NodupKeys-row :
    (o : Option (Str × QueueAnchor)) (r : Row) (g : Gathered)
    → NodupKeys g.anchors_seen
    → NodupKeys (gather_identified o r g).anchors_seen
NodupKeys-row none r g h = h
NodupKeys-row (some (jobid, a)) r g h = rw gather_claim-anchors_seen (
    unfold see in
    put-NodupKeys jobid (or_nil (get g.anchors_seen jobid) ++ (a ∷ [])) g.anchors_seen h)

NodupKeys-line :
    (o : Option Row) (g : Gathered)
    → NodupKeys g.anchors_seen
    → NodupKeys (gather_row o g).anchors_seen
NodupKeys-line none g h = h
NodupKeys-line (some r) g h = NodupKeys-row (identity r) r g h

gather-NodupKeys :
    (lines : List Str) (g : Gathered)
    → NodupKeys g.anchors_seen
    → NodupKeys (gather lines g).anchors_seen
unfolding gather
gather-NodupKeys [] g h = h
gather-NodupKeys (line ∷ lines) g h =
    gather-NodupKeys lines (gather_row (row_of (split b'|' line)) g)
      (NodupKeys-line (row_of (split b'|' line)) g h)

abbrev pub sole : List QueueAnchor → Option QueueAnchor
sole [] = none
sole (a ∷ []) = some a
sole (a ∷ b ∷ more) = none

sole-or_nil :
    (k : Str) (d : Dict Str (List QueueAnchor)) → has d k ≡ false → sole (or_nil (get d k)) ≡ none
sole-or_nil k d h = rw (get-none k d h)

get-sole_anchors :
    (k : Str) (d : Dict Str (List QueueAnchor))
    → NodupKeys d
    → get (sole_anchors d) k ≡ sole (or_nil (get d k))
unfolding sole_anchors get
get-sole_anchors k [] h = refl
get-sole_anchors k ((j, []) ∷ d) (fresh, h) =
    ground (arith, get-sole_anchors k d h, ==_iff j k, sole-or_nil k d)
get-sole_anchors k ((j, a ∷ []) ∷ d) (fresh, h) = ground (arith, get-sole_anchors k d h)
get-sole_anchors k ((j, a ∷ b ∷ more) ∷ d) (fresh, h) =
    ground (arith, get-sole_anchors k d h, ==_iff j k, sole-or_nil k d)

-- The anchor of an id is the one that its accepted rows claim, if they are exactly one; with no
-- row, or with two or more, the id has no anchor.
pub get-anchors :
    (out k : Str)
    → get (parse_queue_output out).anchors k ≡ sole (claims k (accepted (splitlines out)))
unfolding parse_queue_output
get-anchors out k =
    get-sole_anchors k (gather (splitlines out) nothing).anchors_seen
      (gather-NodupKeys (splitlines out) nothing tt)
    ∙ ap sole (gather-claims k (splitlines out) nothing ∙ unfold get in refl)
