-- ===== src/Graph/Service.antt =====
-- internal/artifactgraph/app/service.go: the use cases that change artifacts. Each query opens a
-- read-only transaction of its own, also within a transaction that writes: what a use case reads is
-- some committed state, which others may have changed when it writes (`Reads`). An error drops the
-- state that the transaction wrote. The objects stored before it are kept. The attributes of audit
-- records are left out, and an event's payload is rendered by the surroundings: no decision reads
-- them.
use specforge.Prelude.{
  ℕ, String, ◌==◌, Option, none, some, List, [], Result, ok, err, ◌>>=◌, if◌then◌else◌,
  ok-injective, sym, ap, ◌≡◌,
}
use specforge.Errors.{Error, platform, internal}
use specforge.Fsm.{Outcome, PermissionChecker, fire}
use specforge.Fsm.Firing.{Passed, fire-Passed}
use specforge.Authz.Permissions.{parse_permission}
use specforge.Authz.Principal.{Principal, Resource, Policy, kind_system}
use specforge.Authz.Evaluator.{require}
use specforge.Artifact.Version.{Version, Generator, GateDecisionRef}
use specforge.Artifact.Lifecycle.{machine}
use specforge.Artifact.Operations.{Codec}
use specforge.Audit.Record.{Record, Actor, or_else}
use specforge.Outbox.{Envelope, Correlation, new_envelope}
use specforge.Graph.Store.{Artifact, Key, contributors}

-- The document that is stored as evidence of an approval.
pub record EvidenceDocument : Type 0 where
  pub evidence_id : String
  pub key : Key
  pub artifact_type : String
  pub version : ℕ
  pub content_hash : String
  pub content_ref : String
  pub approver : String
  pub approver_display : String
  pub approver_auth_time : ℕ
  pub approver_amr : List String
  pub approval_comment : String
  pub approved_at : ℕ
  pub gate_decisions : List GateDecisionRef
  pub previous_version : Option ℕ
  pub change_summary : String
  pub generator : Generator

pub record GateSubject : Type 0 where
  pub key : Key
  pub artifact_type : String
  pub version : ℕ
  pub actor : String

-- What the use cases call: `X` is the state of the other modules' tables, `O` that of the object
-- stores.
pub record Surroundings (X O : Type 0) : Type 0 where
  pub bump_graph_version : X → String → String → Result Error X
  pub append_audit : X → Record → Result Error X
  pub append_event : X → Envelope → Result Error X
  pub next_artifact_sequence : List Artifact → String → String → String → Result Error ℕ
  -- `fmt.Sprintf("%03d", n)`
  pub three_digits : ℕ → String
  pub evaluate_gates : GateSubject → Result Error (List GateDecisionRef)
  pub canonicalize_json : String → Result Error String
  pub canonicalize_evidence : EvidenceDocument → Result Error String
  pub render_payload : String → Version → Result Error String
  pub content_key : String → String → String → String
  pub evidence_key : String → String → String → String
  pub put_content : O → String → String → Result Error O
  pub put_evidence : O → String → String → Result Error (O × String)

-- What one request reads of its context: the clock, and fresh identifiers.
pub record Env : Type 0 where
  pub now : ℕ
  pub fresh : ℕ → String
  pub correlation : Correlation

pub record State (X : Type 0) : Type 0 where
  pub artifacts : List Artifact
  pub versions : List Version
  pub rest : X

-- The committed tables that the queries of one use case see: `GetVersion`, `ApprovedVersion`,
-- `Contributors` and `GetArtifact`.
pub record Reads : Type 0 where
  pub versions : List Version
  pub prior : List Version
  pub authors : List Version
  pub artifacts : List Artifact

-- `errors.Wrap` as an internal error.
abbrev pub wrapped_as {ℓ} : {A : Type ℓ} → String → String → Result Error A → Result Error A
wrapped_as code op (ok a) = ok a
wrapped_as code op (err e) = err (platform internal code op)

-- What a transaction commits, and the version that the command returns.
module _ {X : Type 0} where
  unfoldable pub commit :
      List Artifact → List Version → Version → Result Error X → Result Error (State X × Version)
  commit artifacts versions v (ok rest) =
      ok (record { artifacts = artifacts; versions = versions; rest = rest }, v)
  commit artifacts versions v (err e) = err e

  pub commit_ok :
      (artifacts : List Artifact) (versions : List Version) (v : Version) (r : Result Error X)
      (s : State X) (w : Version)
      → commit artifacts versions v r ≡ ok (s, w)
      → (s.artifacts ≡ artifacts) × (s.versions ≡ versions) × (w ≡ v)
  unfolding commit
  commit_ok artifacts versions v (err e) s w h = cc
  commit_ok artifacts versions v (ok rest) s w h =
      let done =
        ok-injective {A = State X × Version}
          (record { artifacts = artifacts; versions = versions; rest = rest }, v) (s, w) h in
      (
        sym (ap (λ (p : State X × Version). p.0.artifacts) done),
        sym (ap (λ (p : State X × Version). p.0.versions) done),
        sym (ap (λ (p : State X × Version). p.1) done),
      )

unfoldable pub audit_actor : Principal → Actor
audit_actor p = record {
  kind = p.kind;
  principal_id = p.id;
  display = p.display;
  subject = p.subject;
  issuer = p.issuer;
  on_behalf_of = or_else p.on_behalf_of "";
  break_glass = p.break_glass;
  ip_hash = "";
  user_agent = "";
}

-- The record that `appendAudit` builds by `auditdomain.New`.
unfoldable pub audit_record : ℕ → Principal → Version → String → String → Record
unfolding audit_actor
audit_record now actor v action severity = record {
  id = "";
  tenant_id = v.tenant_id;
  project_id = some v.project_id;
  sequence = 0;
  action = action;
  outcome = "SUCCESS";
  severity = severity;
  actor = audit_actor actor;
  target = record {
    type = "Artifact";
    id = v.artifact_id;
    version = v.version;
    project_id = v.project_id;
    content_hash = v.content_hash;
  };
  attributes = some [];
  request_id = "";
  trace_id = "";
  occurred_at = now;
  prev_hash = "";
  record_hash = "";
}

abbrev blank_resource : Resource
blank_resource = record {
  type = "artifact";
  id = "";
  tenant_id = "";
  project_id = "";
  created_by = "";
  contributors = [];
  requested_by = "";
  artifact_type = "";
  attributes = [];
}

-- The resource that an approval is checked against.
unfoldable pub resource_of : List Version → Key → Version → Resource
resource_of rows k v = record {
  type = "artifact";
  id = v.artifact_id;
  tenant_id = v.tenant_id;
  project_id = k.project_id;
  created_by = v.created_by;
  contributors = contributors rows k;
  requested_by = "";
  artifact_type = v.type;
  attributes = [];
}

module _ (pol : Policy) where
  unfoldable pub permission_check : ℕ → Principal → Resource → String → Option Error
  permission_check now actor res p = elim (parse_permission p) [
    | none ↦ some (platform internal "authz.unknown_permission" "artifactgraph.fire")
    | some q ↦ require pol now actor q res
  ]

  unfoldable pub checker : ℕ → Principal → Resource → PermissionChecker
  unfolding permission_check
  checker now actor res =
      if actor.kind == kind_system then none else some (permission_check now actor res)

  -- `fire`; no transition of the lifecycle has effects.
  unfoldable pub fire_as :
      ℕ → Principal → List Version → Key → Version → String → Result Error Outcome
  unfolding checker resource_of
  fire_as now actor rows k v event =
      (fire machine v.status event v (
        checker now actor (
          resource_of rows (record k { tenant_id = v.tenant_id; artifact_id = v.artifact_id })
            v))).0

  -- The checker of a firing, which grants the system everything.
  abbrev pub checker_for : ℕ → Principal → List Version → Key → Version → PermissionChecker
  checker_for now actor rows k v =
      checker now actor
        (resource_of rows (record k { tenant_id = v.tenant_id; artifact_id = v.artifact_id }) v)

  -- A firing that succeeds has passed the table's permission and guards.
  pub fire_as_ok :
      (now : ℕ) (actor : Principal) (rows : List Version) (k : Key) (v : Version) (event : String)
      (out : Outcome)
      → fire_as now actor rows k v event ≡ ok out
      → (x : Version) × Passed machine v.status event v (checker_for now actor rows k v) out x
  unfolding fire_as checker resource_of
  fire_as_ok now actor rows k v event out h =
      let fired : Result Error Outcome × Version =
        fire machine v.status event v (checker_for now actor rows k v) in
      (
        fired.1,
        (fire-Passed machine v.status event v (checker_for now actor rows k v) out fired.1).0
            (ap (λ (r : Result Error Outcome). (r, fired.1)) h),
      )

module _ (lib : Codec) {X O : Type 0} (world : Surroundings X O) where
  unfoldable pub emit : Env → ℕ → Principal → Version → String → X → Result Error X
  emit env i actor v event_type x =
      wrapped_as "artifact.event_failed" "artifactgraph.emit" (
        new_envelope lib.sha256_hex env.now (env.fresh i) event_type v.tenant_id (some v.project_id)
          (record { type = "Artifact"; id = v.artifact_id; version = v.version })
          (record {
            kind = actor.kind;
            principal_id = actor.id;
            display = actor.display;
            on_behalf_of = "";
          })
          env.correlation (world.render_payload event_type v))
      >>= λ (e : Envelope). world.append_event x e

  -- The audit record and the event of a change to a version.
  unfoldable pub publish : Env → Principal → Version → String → String → String → X → Result Error X
  unfolding emit audit_record
  publish env actor v action severity event_type x =
      world.append_audit x (audit_record env.now actor v action severity) >>= λ (x' : X).
      emit env 0 actor v event_type x'
