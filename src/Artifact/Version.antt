-- ===== src/Artifact/Version.antt =====
-- internal/artifactgraph/domain/artifact.go: an artifact's versions, their provenance and evidence,
-- and the projection that the content hash covers. A payload is the text of its bytes, a time is in
-- nanoseconds with 0 for the zero time, a version number is never negative.
pub mod Laws
pub mod Provenance
use Prim.Native.String.{len}
use specforge.Prelude.{
  ℕ, ◌+◌, ◌-◌, ◌*◌, String, Bool, true, false, ◌==◌, ◌&&◌, ◌||◌, not, List, [], ◌∷◌, ◌++◌, Option,
  none, some, Result, ok, err, ◌>>=◌, ◌>>◌, fail_if, check, eqb, ltb, leb, if◌then◌else◌, is_none,
  is_empty, mem,
}
use specforge.Text.{trim_space}
use specforge.Errors.{Error, platform, invalid}
use specforge.Types.{
  artifact_type_valid, generator_kind_valid, generated_by_inference, generated_by_analyzer,
}
use specforge.Types.Identifiers.{artifact_id_valid, content_hash_valid}

abbrev pub status_draft : String
status_draft = "DRAFT"

abbrev pub status_ai_review : String
status_ai_review = "AI_REVIEW"

abbrev pub status_user_review : String
status_user_review = "USER_REVIEW"

abbrev pub status_changes_requested : String
status_changes_requested = "CHANGES_REQUESTED"

abbrev pub status_approved : String
status_approved = "APPROVED"

abbrev pub status_frozen : String
status_frozen = "FROZEN"

abbrev pub status_superseded : String
status_superseded = "SUPERSEDED"

abbrev pub status_abandoned : String
status_abandoned = "ABANDONED"

abbrev pub sealed_states : List String
sealed_states = status_approved ∷ status_frozen ∷ status_superseded ∷ status_abandoned ∷ []

unfoldable pub is_sealed : String → Bool
is_sealed s = mem s sealed_states

pub record ArtifactRef : Type 0 where
  pub artifact_id : String
  pub version : ℕ

pub record Generator : Type 0 where
  pub kind : String
  pub analyzer : String
  pub analyzer_version : String
  pub prompt_version : String
  pub model : String
  pub provider : String
  -- The bits of a float64 that nothing reads.
  pub temperature : ℕ
  pub guardrail_chain_version : String
  pub inference_id : String
  pub input_artifacts : List ArtifactRef
  pub source_system : String
  pub source_ref : String

abbrev missing_if : Bool → String → List String
missing_if true s = s ∷ []
missing_if false s = []

-- What a model-produced version must record and does not.
unfoldable pub missing_provenance : Generator → List String
missing_provenance g =
    missing_if (g.prompt_version == "") "prompt_version"
    ++ (missing_if (g.model == "") "model"
        ++ (missing_if (g.provider == "") "provider"
            ++ missing_if (g.guardrail_chain_version == "") "guardrail_chain_version"))

abbrev pub bad : String → String → Error
bad code op = platform invalid code op

unfoldable pub validate_generator : Generator → Option Error
unfolding missing_provenance
validate_generator g =
    if not (generator_kind_valid g.kind)
    then some (bad "artifact.generator_kind_invalid" "artifact.Generator.Validate")
    else if g.kind == generated_by_inference && not (is_empty (missing_provenance g))
    then some (bad "artifact.generator_incomplete" "artifact.Generator.Validate")
    else if g.kind == generated_by_analyzer && g.analyzer == ""
    then some (bad "artifact.generator_incomplete" "artifact.Generator.Validate")
    else none

pub record GateDecisionRef : Type 0 where
  pub gate : String
  pub decision : String
  pub case_id : String

pub record ApprovalEvidence : Type 0 where
  pub evidence_id : String
  pub digest : String
  pub media_type : String
  pub storage_ref : String
  pub gate_decisions : List GateDecisionRef
  pub policy_set_version : String
  pub approver_auth_time : ℕ
  pub approver_token_id : String

unfoldable pub evidence_valid : ApprovalEvidence → Bool
evidence_valid e =
    not (e.evidence_id == "") && content_hash_valid e.digest && not (e.storage_ref == "")

pub record Version : Type 0 where
  pub tenant_id : String
  pub project_id : String
  pub artifact_id : String
  pub version : ℕ
  pub type : String
  pub status : String
  pub content_schema : String
  pub content : String
  pub content_ref : String
  pub content_hash : String
  pub parent_artifact : Option ArtifactRef
  pub source_artifact : Option ArtifactRef
  pub previous_version : Option ℕ
  pub change_summary : String
  pub generator : Generator
  pub created_by : String
  pub created_at : ℕ
  pub updated_at : ℕ
  pub approved_by : Option String
  pub approved_at : Option ℕ
  pub approval_comment : String
  pub approval_evidence : Option ApprovalEvidence
  pub sealed_at : Option ℕ
  pub version_no : ℕ

abbrev pub inline_content_limit : ℕ
inline_content_limit = 256 * 1024

-- What the content hash covers. The rendering of the time of creation is part of canonicalizing.
pub record CanonicalEnvelope : Type 0 where
  pub schema : String
  pub artifact_id : String
  pub artifact_type : String
  pub version : ℕ
  pub tenant_id : String
  pub project_id : String
  pub content_schema : String
  pub content : String
  pub content_ref : String
  pub parent_artifact : Option ArtifactRef
  pub source_artifact : Option ArtifactRef
  pub previous_version : Option ℕ
  pub change_summary : String
  pub created_by : String
  pub created_at : ℕ
  pub generator : Generator

unfoldable pub canonical_envelope : Version → CanonicalEnvelope
canonical_envelope v = record {
  schema = "specforge.artifact.v1";
  artifact_id = v.artifact_id;
  artifact_type = v.type;
  version = v.version;
  tenant_id = v.tenant_id;
  project_id = v.project_id;
  content_schema = v.content_schema;
  content = v.content;
  content_ref = v.content_ref;
  parent_artifact = v.parent_artifact;
  source_artifact = v.source_artifact;
  previous_version = v.previous_version;
  change_summary = v.change_summary;
  created_by = v.created_by;
  created_at = v.created_at;
  generator = v.generator;
}

abbrev pub op_validate : String → Error
op_validate code = bad code "artifact.Validate"

-- `(v.Version == 1) != (v.PreviousVersion == nil)`
abbrev pub chain_mismatch : ℕ → Option ℕ → Bool
chain_mismatch v previous = if eqb v 1 then not (is_none previous) else is_none previous

abbrev pub chain_gap : ℕ → Option ℕ → Bool
chain_gap v none = false
chain_gap v (some p) = not (eqb p (v - 1))

abbrev pub evidence_missing : Option ApprovalEvidence → Bool
evidence_missing none = true
evidence_missing (some e) = not (evidence_valid e)

pub validate_approval : Version → Result Error (Unit {0})
validate_approval v =
    if v.status == status_approved
    then (do
      fail_if (is_none v.approved_by || is_none v.approved_at)
          (op_validate "artifact.approval_incomplete")
      fail_if (trim_space v.approval_comment == "")
          (op_validate "artifact.approval_comment_required")
      fail_if (evidence_missing v.approval_evidence)
          (op_validate "artifact.approval_evidence_required"))
    else ok tt

unfoldable pub validate : Version → Result Error (Unit {0})
unfolding validate_approval
validate v = do
  fail_if (v.tenant_id == "" || v.project_id == "") (op_validate "artifact.scope_required")
  fail_if (not (artifact_id_valid v.artifact_id)) (op_validate "artifact.id_invalid")
  fail_if (not (artifact_type_valid v.type)) (op_validate "artifact.type_invalid")
  fail_if (ltb v.version 1) (op_validate "artifact.version_invalid")
  fail_if (chain_mismatch v.version v.previous_version) (op_validate "artifact.chain_invalid")
  fail_if (chain_gap v.version v.previous_version) (op_validate "artifact.chain_gap")
  fail_if (v.content_schema == "") (op_validate "artifact.content_schema_required")
  fail_if (eqb (len v.content) 0 && v.content_ref == "") (op_validate "artifact.content_required")
  fail_if (ltb inline_content_limit (len v.content)) (op_validate "artifact.content_too_large")
  check (validate_generator v.generator)
  validate_approval v
