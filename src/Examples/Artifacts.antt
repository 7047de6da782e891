-- ===== src/Examples/Artifacts.antt =====
-- Concrete versions, their histories and approvals.
use Prim.Native.String.{◌++◌}
use specforge.Prelude.{
  ◌≡◌, ◌≢◌, ◌↔◌, refl, String, true, none, some, ok, List, [], ◌∷◌, any, if◌then◌else◌, length,
  ◌==◌,
}
use specforge.Errors.{Error, platform, forbidden}
use specforge.Types.{generated_by_user, generated_by_inference}
use specforge.Fsm.{fire, PermissionChecker, Outcome}
use specforge.Fsm
use specforge.Errors
use specforge.Artifact
use specforge.Text
use specforge.Types
use specforge.Types.Identifiers
use specforge.Artifact.Version
use specforge.Artifact.Version.{
  Version, Generator, ApprovalEvidence, CanonicalEnvelope, validate, validate_generator,
  evidence_valid, canonical_envelope, is_sealed,
}
use specforge.Artifact.Version.Laws.{validate-IsValid, IsValid}
use specforge.Artifact.Lifecycle.{machine}
use specforge.Artifact.Lifecycle
use specforge.Artifact.Lifecycle.Laws.{
  Call, status_of, grants_approval, released_needs_approval, fire_sealed, fire_approved,
}
use specforge.Artifact.Operations.{
  Codec, new_version, revise, seal_approval, set_content, compute_hash, verify,
}
use specforge.Artifact.Operations.Laws.{new_version_ok}
use specforge.Artifact.Operations.Sealing.{seal_approval_ok, IsSealedBy}
use specforge.Artifact.Operations.Editing.{
  set_content_cases, IsEdit, revise_all, revise_all-IsHistory, IsHistory, Revision,
}

abbrev pub digest : String
digest = "0123456789abcdef0123456789abcdef0123456789abcdef0123456789abcdef"

-- A stand-in for the libraries: every document is valid, and the digest tells contents apart by
-- their text.
abbrev pub lib : Codec
lib = record {
  json_valid = λ s. true;
  canonicalize = λ (e : CanonicalEnvelope). ok e.content;
  sha256_hex = λ s. s ++ digest;
}

abbrev pub by_hand : Generator
by_hand = record {
  kind = "USER";
  analyzer = "";
  analyzer_version = "";
  prompt_version = "";
  model = "";
  provider = "";
  temperature = 0;
  guardrail_chain_version = "";
  inference_id = "";
  input_artifacts = [];
  source_system = "";
  source_ref = "";
}

abbrev by_model : Generator
by_model = record by_hand {
  kind = "INFERENCE";
  prompt_version = "p1";
  model = "m";
  provider = "simulator";
  guardrail_chain_version = "GRC-strict@v2";
}

abbrev pub draft : Version
draft = record {
  tenant_id = "t1";
  project_id = "p1";
  artifact_id = "SPEC-AUTH-001";
  version = 1;
  type = "SPECIFICATION";
  status = "DRAFT";
  content_schema = "specforge.spec.v1";
  content = "{}";
  content_ref = "";
  content_hash = "";
  parent_artifact = none;
  source_artifact = none;
  previous_version = none;
  change_summary = "";
  generator = by_hand;
  created_by = "alice";
  created_at = 5000;
  updated_at = 5000;
  approved_by = none;
  approved_at = none;
  approval_comment = "";
  approval_evidence = none;
  sealed_at = none;
  version_no = 1;
}

abbrev pub stored : Version
stored = record draft {
  content_hash = "sha256:{}0123456789abcdef0123456789abcdef0123456789abcdef0123456789abcdef";
}

abbrev pub proof : ApprovalEvidence
proof = record {
  evidence_id = "EVD-1";
  digest = "sha256:0123456789abcdef0123456789abcdef0123456789abcdef0123456789abcdef";
  media_type = "application/json";
  storage_ref = "evidence/01";
  gate_decisions = [];
  policy_set_version = "";
  approver_auth_time = 0;
  approver_token_id = "";
}

new_version_ok_example :
    (stored.version ≡ 1)
    × (stored.previous_version ≡ none)
    × (stored.status ≡ "DRAFT")
    × IsValid stored
    × (verify lib stored ≡ none)
unfolding new_version validate Types.artifact_type_valid Types.generator_kind_valid
    validate_generator Identifiers.artifact_id_valid Types.default_content_schema compute_hash
    canonical_envelope
new_version_ok_example =
    new_version_ok lib 5000 "t1" "p1" "SPEC-AUTH-001" "SPECIFICATION" "" "" by_hand "alice" stored
      refl

abbrev pub approved : Version
approved = record stored {
  status = "APPROVED";
  approved_by = some "bob";
  approved_at = some 9000;
  approval_comment = "checked";
  approval_evidence = some proof;
  sealed_at = some 9000;
  updated_at = 9000;
}

validate-IsValid_example : (validate approved ≡ ok tt) ↔ IsValid approved
validate-IsValid_example = validate-IsValid approved

seal_approval_ok_example :
    IsSealedBy lib (record stored { status = "USER_REVIEW" }) "bob" "checked" proof 9000 approved
unfolding seal_approval validate Types.artifact_type_valid Types.generator_kind_valid
    validate_generator Identifiers.artifact_id_valid Identifiers.content_hash_valid evidence_valid
    compute_hash canonical_envelope Text.trim_space
seal_approval_ok_example =
    seal_approval_ok lib (record stored { status = "USER_REVIEW" }) "bob" "checked" proof 9000
      approved refl

set_content_cases_example :
    (stored.status ≢ "DRAFT"
      → set_content lib 7000 stored "[]" ≡ (
        stored,
        some (platform Errors.conflict "artifact.sealed_immutable" "artifact.SetContent"),
      ))
    × ((w : Version) → set_content lib 7000 stored "[]" ≡ (w, none) → IsEdit lib 7000 stored "[]" w)
set_content_cases_example = set_content_cases lib 7000 stored "[]"

abbrev revisions : List (Revision lib)
revisions =
    record { now = 6000; summary = "wording"; by = "alice"; generator = by_hand }
    ∷ record { now = 7000; summary = "scope"; by = "carol"; generator = by_hand }
    ∷ []

abbrev second : Version
second = record stored {
  version = 2;
  previous_version = some 1;
  change_summary = "wording";
  created_at = 6000;
  updated_at = 6000;
}

abbrev third : Version
third = record second {
  version = 3;
  previous_version = some 2;
  change_summary = "scope";
  created_by = "carol";
  created_at = 7000;
  updated_at = 7000;
}

revise_all-IsHistory_example :
    IsHistory lib stored (second ∷ third ∷ []) × (length (second ∷ third ∷ []) ≡ length revisions)
unfolding revise_all revise validate Types.artifact_type_valid Types.generator_kind_valid
    validate_generator Identifiers.artifact_id_valid compute_hash canonical_envelope Text.trim_space
revise_all-IsHistory_example = revise_all-IsHistory lib stored revisions (second ∷ third ∷ []) refl

-- A checker that grants one permission.
abbrev only : String → PermissionChecker
only p =
    some (λ q. if q == p then none else some (platform forbidden "authz.denied" "authz.Require"))

abbrev calls : List Call
calls =
    record { event = "approve"; subject = draft; check = only "artifact:approve" }
    ∷ record { event = "submit_for_review"; subject = draft; check = only "artifact:submit" }
    ∷ record { event = "approve"; subject = draft; check = only "artifact:approve" }
    ∷ []

released_needs_approval_example : any grants_approval calls ≡ true
unfolding status_of fire Lifecycle.machine Fsm.accepted Lifecycle.require_content
    Lifecycle.require_schema
released_needs_approval_example = released_needs_approval calls refl

fire_sealed_example : is_sealed "FROZEN" ≡ true
unfolding fire Lifecycle.machine Fsm.accepted is_sealed
fire_sealed_example =
    fire_sealed "APPROVED" "freeze" draft draft (only "artifact:freeze")
      (record {
        from = "APPROVED";
        to = "FROZEN";
        event = "freeze";
        emit_event = "artifact.frozen";
        audit_action = "artifact.freeze";
        permission = "artifact:freeze";
      })
      refl refl

fire_approved_example :
    ("USER_REVIEW" ≡ Artifact.Version.status_user_review)
    × ("approve" ≡ Lifecycle.event_approve)
    × (Fsm.check_permission (only "artifact:approve") "artifact:approve" ≡ none)
    × (Lifecycle.require_content draft ≡ none)
    × (Lifecycle.require_schema draft ≡ none)
unfolding fire Lifecycle.machine Fsm.accepted Lifecycle.require_content Lifecycle.require_schema
fire_approved_example =
    fire_approved "USER_REVIEW" "approve" draft draft (only "artifact:approve")
      (record {
        from = "USER_REVIEW";
        to = "APPROVED";
        event = "approve";
        emit_event = "artifact.approved";
        audit_action = "artifact.approve";
        permission = "artifact:approve";
      })
      refl refl
