-- ===== src/Graph/Lifecycle.antt =====
-- What may become of the table of versions: the specification that the commands of
-- internal/artifactgraph/app/service.go implement.
pub mod Invariants
pub mod History
use specforge.Prelude.{
  ℕ, ◌+◌, ◌≡◌, ◌≢◌, String, Bool, true, List, [], ◌∷◌, ◌++◌, Option, none, some,
}
use specforge.Fsm.{Transition, lookup}
use specforge.Artifact.Version.{
  Version, ApprovalEvidence, canonical_envelope, evidence_valid, status_draft, status_user_review,
  status_approved, status_superseded,
}
use specforge.Artifact.Lifecycle.{machine, event_approve}
use specforge.Graph.Store.{key_of, find_version, count_approved}
use specforge.Graph.Store.Rows.{Replaced, SameRow}

-- What the content hash covers, and the recorded hash.
abbrev pub SameBody : Version → Version → Type 0
SameBody v w = (canonical_envelope w ≡ canonical_envelope v) × (w.content_hash ≡ v.content_hash)

abbrev pub SameApproval : Version → Version → Type 0
SameApproval v w =
    (w.approved_by ≡ v.approved_by)
    × (w.approved_at ≡ v.approved_at)
    × (w.approval_comment ≡ v.approval_comment)
    × (w.approval_evidence ≡ v.approval_evidence)
    × (w.sealed_at ≡ v.sealed_at)

-- Who approved, and the evidence of it.
pub record IsEvidenced (v : Version) : Type 0 where
  pub approver : String
  pub evidence : ApprovalEvidence
  pub by : v.approved_by ≡ some approver
  pub kept : v.approval_evidence ≡ some evidence
  pub legal : evidence_valid evidence ≡ true

-- A change of a row that approves nothing: the edit of a draft, a move of the lifecycle by another
-- event than the approval, or the end of an approved version.
pub data Change (v w : Version) : Type 0 where
  edited : v.status ≡ status_draft → w.status ≡ status_draft → SameApproval v w → Change v w
  moved :
      (event : String) (t : Transition Version)
      → lookup machine v.status event ≡ some t
      → event ≢ event_approve
      → w.status ≡ t.to
      → SameBody v w
      → SameApproval v w
      → Change v w
  superseded :
      v.status ≡ status_approved
      → w.status ≡ status_superseded
      → SameBody v w
      → SameApproval v w
      → Change v w

-- One write to the table, which counts the row's number up. A version becomes approved out of
-- review, with an approver and well-formed evidence, keeps its body, and only does where its artifact
-- has no approved version.
pub data Step (rows : List Version) : List Version → Type 0 where
  added :
      (w : Version)
      → w.status ≡ status_draft
      → find_version (key_of w) w.version rows ≡ none
      → Step rows (rows ++ w ∷ [])
  changed :
      (v w : Version) {rows' : List Version}
      → find_version (key_of v) v.version rows ≡ some v
      → SameRow v w
      → w.created_by ≡ v.created_by
      → w.version_no ≡ v.version_no + 1
      → Change v w
      → Replaced v w rows rows'
      → Step rows rows'
  approved :
      (v w : Version) {rows' : List Version}
      → find_version (key_of v) v.version rows ≡ some v
      → SameRow v w
      → w.created_by ≡ v.created_by
      → w.version_no ≡ v.version_no + 1
      → v.status ≡ status_user_review
      → w.status ≡ status_approved
      → canonical_envelope w ≡ canonical_envelope v
      → IsEvidenced w
      → count_approved (key_of v) rows ≡ 0
      → Replaced v w rows rows'
      → Step rows rows'

pub data Steps (rows : List Version) : List Version → Type 0 where
  here : Steps rows rows
  next : {rows' rows'' : List Version} → Steps rows rows' → Step rows' rows'' → Steps rows rows''
