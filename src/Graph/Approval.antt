-- ===== src/Graph/Approval.antt =====
-- internal/artifactgraph/app/service.go: `Approve`. What it does before its transaction, the checks
-- and the stored evidence, is `prepare`; the transaction is `seal`. Between the two, others commit.
pub mod Refinement
pub mod Sealed
pub mod Admission
pub mod Evidence
use Prim.Native.String.{◌++◌}
use specforge.Prelude.{
  ℕ, ◌+◌, String, Bool, true, false, ◌==◌, not, Option, none, some, List, Result, ok, err, ◌>>=◌,
  ◌>>◌, fail_if, check, eqb, if◌then◌else◌,
}
use specforge.Errors.{Error, platform, wrapped, conflict, precondition, internal}
use specforge.Types.{artifact_prd}
use specforge.Fsm.{Outcome}
use specforge.Authz.Principal.{Principal, Policy}
use specforge.Artifact.Version.{
  Version, ApprovalEvidence, GateDecisionRef, status_user_review, status_approved,
  status_superseded,
}
use specforge.Artifact.Lifecycle.{event_approve}
use specforge.Artifact.Operations.{Codec, content_of_bytes, seal_approval}
use specforge.Graph.Store.{Artifact, Key, Refusals, get_version, approved_version, update_version}
use specforge.Graph.Service.{
  Env, State, Reads, Surroundings, EvidenceDocument, GateSubject, fire_as, emit, publish, commit,
  wrapped_as,
}
use specforge.Graph.Commands.{counted, set_status}

pub record ApproveInput : Type 0 where
  pub key : Key
  pub version : ℕ
  pub comment : String

-- A write to an object store: where it fails, the stores are as they were.
abbrev pub stored {ℓ κ} :
    {O : Type 0} {A : Type ℓ} {B : Type κ}
    → O
    → Result Error A
    → (A → O × Result Error B)
    → O × Result Error B
stored o (ok a) k = k a
stored o (err e) k = (o, err e)

module _ (pol : Policy) (lib : Codec) {X O : Type 0} (world : Surroundings X O) where
  evidence_document :
      Env → ApproveInput → Principal → Version → List GateDecisionRef → String → EvidenceDocument
  evidence_document env c actor v gates content_ref = record {
    evidence_id = "EVD-" ++ env.fresh 2;
    key = c.key;
    artifact_type = v.type;
    version = c.version;
    content_hash = v.content_hash;
    content_ref = content_ref;
    approver = actor.id;
    approver_display = actor.display;
    approver_auth_time = actor.auth_time;
    approver_amr = actor.amr;
    approval_comment = c.comment;
    approved_at = env.now;
    gate_decisions = gates;
    previous_version = v.previous_version;
    change_summary = v.change_summary;
    generator = v.generator;
  }

  evidence_for :
      Env
      → Principal
      → List GateDecisionRef
      → String
      → O × String
      → O × Result Error ApprovalEvidence
  evidence_for env actor gates digest (o, storage_ref) = (
    o,
    ok (record {
      evidence_id = "EVD-" ++ env.fresh 2;
      digest = digest;
      media_type = "application/vnd.specforge.approval+json";
      storage_ref = storage_ref;
      gate_decisions = gates;
      policy_set_version = "";
      approver_auth_time = actor.auth_time;
      approver_token_id = "";
    }),
  )

  store_evidence :
      Env
      → ApproveInput
      → Principal
      → Version
      → List GateDecisionRef
      → String
      → O
      → O × Result Error ApprovalEvidence
  unfolding evidence_document evidence_for
  store_evidence env c actor v gates content_ref o =
      stored o
        (wrapped_as "artifact.evidence_encode_failed" "artifactgraph.Approve"
          (world.canonicalize_evidence (evidence_document env c actor v gates content_ref)))
        λ (bytes : String).
          let digest = content_of_bytes lib bytes in
          stored o
            (world.put_evidence o (world.evidence_key c.key.tenant_id c.key.project_id digest)
              bytes)
            (evidence_for env actor gates digest)

  store_content :
      Env
      → ApproveInput
      → Principal
      → Version
      → List GateDecisionRef
      → O
      → O × Result Error ApprovalEvidence
  unfolding store_evidence
  store_content env c actor v gates o =
      stored o
        (wrapped_as "artifact.canonicalize_failed" "artifactgraph.Approve"
          (world.canonicalize_json v.content))
        λ (canonical : String).
          let key =
            world.content_key c.key.tenant_id c.key.project_id (content_of_bytes lib canonical) in
          stored o (world.put_content o key canonical) (store_evidence env c actor v gates key)

  -- The checks: a version in review, governance, and the firing with its access decision.
  admitted :
      Env → List Version → ApproveInput → Principal → Result Error (Version × List GateDecisionRef)
  admitted env rows c actor = do
    v ← get_version lib rows c.key c.version
    fail_if (not (v.status == status_user_review))
        (platform precondition "artifact.not_in_review" "artifactgraph.Approve")
    gates ←
        world.evaluate_gates
          (record { key = c.key; artifact_type = v.type; version = c.version; actor = actor.id })
    out ← fire_as pol env.now actor rows c.key v event_approve
    ok (v, gates)

  unfoldable pub prepare :
      Env → List Version → ApproveInput → Principal → O → O × Result Error ApprovalEvidence
  unfolding admitted store_content
  prepare env rows c actor o =
      stored o (admitted env rows c actor)
        λ (a : Version × List GateDecisionRef). store_content env c actor a.0 a.1 o

module _ (db : Refusals) (lib : Codec) {X O : Type 0} (world : Surroundings X O) where
  abbrev Done : Type 0
  Done = Result Error (State X × Version)

  -- `if prior != nil && prior.Version != in.Version { ... }`
  pub supersede_prior :
      Env → Principal → ℕ → List Version → X → Option Version → Result Error (List Version × X)
  unfolding emit
  supersede_prior env actor n rows x none = ok (rows, x)
  supersede_prior env actor n rows x (some prior) =
      if eqb prior.version n
      then ok (rows, x)
      else (update_version db env.now rows (record prior { status = status_superseded })
          >>= λ (rows' : List Version).
              emit lib world env 1 actor (record prior { status = status_superseded })
                "artifact.superseded" x
              >>= λ (x' : X). ok (rows', x'))

  abbrev approval_event : Version → String
  approval_event v = if v.type == artifact_prd then "prd.approved" else "artifact.approved"

  -- From the update of the sealed version on.
  finish :
      Env
      → Reads
      → State X
      → ApproveInput
      → Principal
      → List Version × X
      → Version × Option Error
      → Done
  unfolding set_status publish commit
  finish env seen s c actor (rows, x) (w, e) = do
    check e
    versions ← update_version db env.now rows w
    artifacts ←
        set_status db env seen s c.key
          λ a. record a { status = status_approved; current_version = c.version }
    commit artifacts versions (counted w) (do
      rest ← world.bump_graph_version x c.key.tenant_id c.key.project_id
      publish lib world env actor w "artifact.approve" "WARNING" (approval_event w) rest)

  unfoldable pub seal : Env → Reads → State X → ApproveInput → Principal → ApprovalEvidence → Done
  unfolding supersede_prior finish
  seal env seen s c actor evidence = do
    v ← get_version lib seen.versions c.key c.version
    fail_if (not (v.status == status_user_review))
        (platform conflict "artifact.not_in_review" "artifactgraph.Approve")
    moved ←
        supersede_prior env actor c.version s.versions s.rest (approved_version seen.prior c.key)
    finish env seen s c actor moved (seal_approval lib v actor.id c.comment evidence env.now)

module _ (pol : Policy) (db : Refusals) (lib : Codec) {X O : Type 0}
    (world : Surroundings X O) where
  unfoldable pub after_prepare :
      Env
      → Reads
      → State X
      → ApproveInput
      → Principal
      → O × Result Error ApprovalEvidence
      → O × Result Error (State X × Version)
  unfolding seal
  after_prepare env seen s c actor (o, r) =
      (o, r >>= λ (evidence : ApprovalEvidence). seal db lib world env seen s c actor evidence)

  -- `Approve`: its checks read the rows `read`, its transaction reads `seen` and changes `s`.
  unfoldable pub approve :
      Env
      → (read : List Version) → Reads
      → State X
      → ApproveInput
      → Principal
      → O
      → O × Result Error (State X × Version)
  unfolding prepare after_prepare
  approve env read seen s c actor o =
      after_prepare env seen s c actor (prepare pol lib world env read c actor o)
