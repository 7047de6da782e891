-- ===== src/Examples/Versions.antt =====
-- A store of versions, and the requests that change it.
use specforge.Prelude.{
  ℕ, ◌+◌, ◌≡◌, ◌≢◌, refl, String, true, none, some, Result, ok, err, List, [], ◌∷◌, arith,
}
use specforge.Errors.{Error}
use specforge.Authz.Principal.{Principal, Policy, default_policy, kind_system}
use specforge.Authz.Permissions.{artifact_approve, artifact_edit, artifact_read, artifact_create}
use specforge.Authz.Sets.{new_set}
use specforge.Authz.Evaluator.Laws.{IsSegregated}
use specforge.Artifact.Version.{Version, ApprovalEvidence, is_sealed, status_user_review}
use specforge.Outbox
use specforge.Outbox.{Correlation}
use specforge.Graph.Store
use specforge.Graph.Service
use specforge.Artifact.Version
use specforge.Artifact.Operations
use specforge.Artifact.Lifecycle
use specforge.Fsm
use specforge.Text
use specforge.Types
use specforge.Types.Identifiers
use specforge.Authz.Permissions
use specforge.Authz.Evaluator
use specforge.Authz.Sets
use specforge.Authz.Principal
use specforge.Authz.Rules
use specforge.Graph.Store.Approvals
use specforge.Graph.Store.Writes.{IsSnapshot-refl}
use specforge.Graph.Lifecycle.{Steps, SameBody, SameApproval}
use specforge.Graph.Store.{Artifact, Key, Refusals, find_version, get_artifact}
use specforge.Graph.Service.{Env, State, Reads, Surroundings, EvidenceDocument, resource_of}
use specforge.Graph.Commands.{revise_artifact}
use specforge.Graph.Approval.{ApproveInput, approve}
use specforge.Graph.Approval.Evidence.{IsStoredFor, Records, approve_evidenced}
use specforge.Graph.Governance.{Ages, Operation, moving, approving, revising, apply, apply_all}
use specforge.Graph.Governance.Guarantees.{
  IsGoverned, apply_all-IsGoverned, sealed_forever, apply-Steps,
}
use specforge.Graph.Governance.Segregation.{approve_segregated}
use specforge.Graph.Governance.Revising.{revise_artifact-blocked}
use specforge.Examples.Artifacts.{lib, stored, approved, proof}
use specforge.Examples.Access.{approver}

-- A database that refuses nothing but duplicate keys and stale rows.
abbrev db : Refusals
db = record {
  create_artifact = λ rows a. none;
  update_artifact = λ rows a. none;
  create_version = λ rows v. none;
  update_version = λ rows v. none;
}

-- Counters stand for the tables of the other modules, lists of keys for the object stores.
abbrev world : Surroundings ℕ (List String)
world = record {
  bump_graph_version = λ x t p. ok (x + 1);
  append_audit = λ x r. ok (x + 1);
  append_event = λ x e. ok (x + 1);
  next_artifact_sequence = λ rows t p s. ok 1;
  three_digits = λ n. "001";
  evaluate_gates = λ g. ok [];
  canonicalize_json = λ s. ok s;
  canonicalize_evidence = λ (d : EvidenceDocument). ok "";
  render_payload = λ t v. ok "{}";
  content_key = λ t p h. h;
  evidence_key = λ t p h. h;
  put_content = λ o k b. ok (k ∷ o);
  put_evidence = λ o k b. ok (k ∷ o, k);
}

abbrev env : Env
env = record {
  now = 6300000000000;
  fresh = λ n. "f";
  correlation = record {
    trace_id = "";
    span_id = "";
    request_id = "";
    causation_id = "";
    idempotency_key = "";
  };
}

abbrev key : Key
key = record { tenant_id = "t1"; project_id = "p1"; artifact_id = "SPEC-AUTH-001" }

abbrev row : Artifact
row = record {
  tenant_id = "t1";
  project_id = "p1";
  id = "SPEC-AUTH-001";
  type = "SPECIFICATION";
  title = "Login";
  current_version = 1;
  status = "USER_REVIEW";
  labels = [];
  created_by = "alice";
  created_at = 5000;
  updated_at = 5000;
  version = 1;
}

abbrev alice : Principal
alice = record approver {
  id = "alice";
  permissions = new_set (artifact_edit ∷ artifact_create ∷ []);
}

abbrev reviewed : State ℕ
reviewed = record {
  artifacts = row ∷ [];
  versions = record stored { status = "USER_REVIEW" } ∷ [];
  rest = 0;
}

abbrev request : ApproveInput
request = record { key = key; version = 1; comment = "checked" }

abbrev at_once : Ages
at_once = record { versions = 0; prior = 0; authors = 0; artifacts = 0 }

-- What the queries of a request at the first state see.
abbrev seen : Reads
seen = record {
  versions = reviewed.versions;
  prior = reviewed.versions;
  authors = reviewed.versions;
  artifacts = reviewed.artifacts;
}

-- The second approval reads what the first has changed since.
abbrev requests : List (Operation ℕ)
requests =
    approving env reviewed.versions at_once request approver
    ∷ approving env reviewed.versions (record at_once { versions = 1; prior = 1 }) request approver
    ∷ revising env at_once key "second round" alice
    ∷ moving env at_once key 2 "submit_for_review" alice
    ∷ moving env (record at_once { authors = 3 }) key 1 "freeze" approver
    ∷ []

abbrev state_of : State ℕ → Result Error (State ℕ × Version) → State ℕ
state_of s (ok (s', w)) = s'
state_of s (err e) = s

abbrev version_of : Version → Result Error (State ℕ × Version) → Version
version_of v (ok (s', w)) = w
version_of v (err e) = v

reviewed-IsGoverned : IsGoverned reviewed.versions
unfolding Store.find_version Store.count_approved
reviewed-IsGoverned = record {
  keyed = (refl, tt);
  single = λ k. ground arith;
  evidenced = (λ h. cc h, tt);
}

apply_all-IsGoverned_example :
    IsGoverned (apply_all default_policy db lib world reviewed [] [] requests).0.versions
apply_all-IsGoverned_example =
    apply_all-IsGoverned default_policy db lib world reviewed [] requests reviewed-IsGoverned

apply-Steps_example :
    Steps reviewed.versions
      (apply default_policy db lib world reviewed (reviewed ∷ []) [] (
        approving env reviewed.versions
          (record at_once { versions = 1 })
          request
          approver)).0.versions
apply-Steps_example =
    apply-Steps default_policy db lib world reviewed (reviewed ∷ []) reviewed-IsGoverned
      ((reviewed-IsGoverned.keyed, IsSnapshot-refl reviewed.versions), tt) []
      (approving env reviewed.versions (record at_once { versions = 1 }) request approver)

abbrev released : State ℕ
released = record reviewed { versions = approved ∷ [] }

released-IsGoverned : IsGoverned released.versions
unfolding Store.find_version Store.count_approved Version.evidence_valid
    Identifiers.content_hash_valid
released-IsGoverned = record {
  keyed = (refl, tt);
  single = λ k. omega (arith, Approvals.approval_of-le k approved);
  evidenced = (
    λ h. record { approver = "bob"; evidence = proof; by = refl; kept = refl; legal = refl },
    tt,
  );
}

abbrev attempt : List String × Result Error (State ℕ × Version)
attempt =
    approve default_policy db lib world env reviewed.versions seen reviewed request approver []

-- Bob approves what Alice wrote.
approve_segregated_example :
    (v : Version) × (find_version key 1 reviewed.versions ≡ some v)
    × (v.status ≡ status_user_review)
    × IsSegregated default_policy env.now approver artifact_approve
        (resource_of reviewed.versions key v)
unfolding approve Store.get_version Operations.verify Operations.compute_hash
    Version.canonical_envelope Service.fire_as Fsm.fire Lifecycle.machine Fsm.accepted
    Permissions.parse_permission Evaluator.require Evaluator.authorize Sets.has
    Evaluator.effective_permissions Principal.is_machine new_set Evaluator.evaluate_rules
    Rules.sod1_applies Operations.seal_approval Version.validate Types.artifact_type_valid
    Types.generator_kind_valid Version.validate_generator Identifiers.artifact_id_valid
    Identifiers.content_hash_valid Version.evidence_valid Text.trim_space Rules.sod1_evaluate
    Rules.sod2_applies Rules.sod3_applies Rules.sod4_applies Rules.sod6_applies
    Rules.is_approval_permission Rules.approval_permissions Rules.sod6_evaluate
    Rules.step_up_applies Rules.requires_step_up Rules.step_up_evaluate Principal.has_mfa
    Rules.prd_approver_applies Lifecycle.require_content Lifecycle.require_schema
    Store.approved_version Store.update_version Evaluator.scoped_permissions Sets.add Text.to_lower
    Fsm.check_permission Store.contributors Store.get_artifact Store.update_artifact
    Types.default_content_schema Outbox.new_envelope Store.written
approve_segregated_example =
    approve_segregated default_policy db lib world env reviewed.versions seen reviewed
      (state_of reviewed attempt.1) request approver [] attempt.0 (version_of stored attempt.1)
      (λ h. cc h) refl

approve_evidenced_example :
    (v : Version) × (e : ApprovalEvidence) × (find_version key 1 reviewed.versions ≡ some v)
    × (Operations.verify lib v ≡ none)
    × IsStoredFor lib world env request approver v attempt.0 e
    × Records lib world env request approver e (version_of stored attempt.1)
unfolding approve Store.get_version Operations.verify Operations.compute_hash
    Version.canonical_envelope Service.fire_as Fsm.fire Lifecycle.machine Fsm.accepted
    Permissions.parse_permission Evaluator.require Evaluator.authorize Sets.has
    Evaluator.effective_permissions Principal.is_machine new_set Evaluator.evaluate_rules
    Rules.sod1_applies Operations.seal_approval Version.validate Types.artifact_type_valid
    Types.generator_kind_valid Version.validate_generator Identifiers.artifact_id_valid
    Identifiers.content_hash_valid Version.evidence_valid Text.trim_space Rules.sod1_evaluate
    Rules.sod2_applies Rules.sod3_applies Rules.sod4_applies Rules.sod6_applies
    Rules.is_approval_permission Rules.approval_permissions Rules.sod6_evaluate
    Rules.step_up_applies Rules.requires_step_up Rules.step_up_evaluate Principal.has_mfa
    Rules.prd_approver_applies Lifecycle.require_content Lifecycle.require_schema
    Store.approved_version Store.update_version Evaluator.scoped_permissions Sets.add Text.to_lower
    Fsm.check_permission Store.contributors Store.get_artifact Store.update_artifact
    Types.default_content_schema Outbox.new_envelope Store.written
approve_evidenced_example =
    approve_evidenced default_policy db lib world env reviewed.versions seen reviewed
      (state_of reviewed attempt.1) request approver [] attempt.0 (version_of stored attempt.1) refl

sealed_forever_example :
    (w : Version) × (find_version key 1
        (apply_all default_policy db lib world released [] [] requests).0.versions
      ≡ some w)
    × (is_sealed w.status ≡ true)
    × SameBody approved w
    × SameApproval approved w
unfolding Store.find_version is_sealed
sealed_forever_example =
    sealed_forever default_policy db lib world released [] requests key 1 approved
      released-IsGoverned refl refl

-- The first version is approved while a second is being written.
abbrev overtaken : State ℕ
overtaken = record reviewed {
  versions = approved ∷ record stored { version = 2; previous_version = some 1 } ∷ [];
}

revise_artifact-blocked_example :
    revise_artifact default_policy db lib world env seen overtaken key "more" alice
    ≢ ok (overtaken, stored)
unfolding Store.get_artifact Store.find_version
revise_artifact-blocked_example =
    revise_artifact-blocked default_policy db lib world env seen overtaken key "more" alice row
      (record stored { version = 2; previous_version = some 1 }) overtaken stored refl refl
