-- ===== src/Graph/Commands.antt =====
-- internal/artifactgraph/app/service.go: `Create`, `UpdateDraft`, `Transition`, `Approve` and
-- `Revise`. A command takes what its queries see and the state that its transaction
-- changes; it returns the state that the transaction commits, and the version.
pub mod Refinement
use Prim.Native.String.{◌++◌}
use specforge.Prelude.{
  ℕ, ◌+◌, String, Bool, true, false, ◌==◌, ◌||◌, ◌&&◌, not, Option, none, some, List, [], ◌∷◌,
  Result, ok, err, ◌>>=◌, ◌>>◌, fail_if, check, eqb, ltb, if◌then◌else◌, is_none,
}
use specforge.Errors.{Error, platform, wrapped, invalid, conflict, precondition, internal}
use specforge.Types.{artifact_type_valid, prefix, artifact_prd, generated_by_user}
use specforge.Types.Identifiers.{artifact_id_valid}
use specforge.Fsm.{Outcome}
use specforge.Authz.Permissions.{artifact_create, artifact_edit}
use specforge.Authz.Principal.{Principal, Resource, Policy}
use specforge.Authz.Evaluator.{require}
use specforge.Artifact.Version.{
  Version, Generator, ArtifactRef, ApprovalEvidence, GateDecisionRef, status_draft,
  status_user_review, status_approved, status_superseded,
}
use specforge.Artifact.Lifecycle.{event_approve}
use specforge.Artifact.Operations.{
  Codec, compute_hash, content_of_bytes, new_version, revise, seal_approval, set_content, sealed,
}
use specforge.Graph.Store.{
  Artifact, Key, Refusals, key_of, get_version, approved_version, contributors, create_version,
  update_version, get_artifact, create_artifact, update_artifact,
}
use specforge.Graph.Service.{
  Env, State, Reads, Surroundings, EvidenceDocument, fire_as, emit, publish, commit,
}

-- The resource of a check that needs no contributors.
abbrev pub plain_resource : Key → (id created_by artifact_type : String) → Resource
plain_resource k id created_by artifact_type = record {
  type = "artifact";
  id = id;
  tenant_id = k.tenant_id;
  project_id = k.project_id;
  created_by = created_by;
  contributors = [];
  requested_by = "";
  artifact_type = artifact_type;
  attributes = [];
}

pub record CreateInput : Type 0 where
  -- The identifier in it is empty where one is to be allocated.
  pub key : Key
  pub area : String
  pub type : String
  pub title : String
  pub content_schema : String
  pub content : String
  pub generator : Generator
  pub labels : List (String × String)
  pub parent : Option ArtifactRef
  pub source : Option ArtifactRef

abbrev pub by_hand : Generator → Generator
by_hand g = if g.kind == "" then record g { kind = generated_by_user } else g

-- `domain.Generator{Kind: types.GeneratedByUser}`
abbrev pub user_generator : Generator
user_generator = record {
  kind = generated_by_user;
  analyzer = "";
  analyzer_version = "";
  prompt_version = "";
  model = "";
  provider = "";
  temperature = 0;
  guardrail_chain_version = "";
  inference_id = "";
  input_artifacts = [];
  source_system = "";
  source_ref = "";
}

-- `if h, herr := v.ComputeHash(); herr == nil { v.ContentHash = h }`
rehashed : Version → Result Error String → Version
rehashed v (ok h) = record v { content_hash = h }
rehashed v (err e) = v

-- The version as the caller holds it after its update.
abbrev pub counted : Version → Version
counted v = record v { version_no = v.version_no + 1 }

abbrev pub moved_to : Env → Version → Outcome → Version
moved_to env v out = record v { status = out.to; updated_at = env.now }

pub new_artifact : Env → CreateInput → String → Principal → Artifact
new_artifact env c id actor = record {
  tenant_id = c.key.tenant_id;
  project_id = c.key.project_id;
  id = id;
  type = c.type;
  title = c.title;
  current_version = 1;
  status = status_draft;
  labels = c.labels;
  created_by = actor.id;
  created_at = env.now;
  updated_at = env.now;
  version = 1;
}

module _ (db : Refusals) {X : Type 0} where
  -- The write of a changed artifact row.
  unfoldable pub set_status :
      Env → Reads → State X → Key → (Artifact → Artifact) → Result Error (List Artifact)
  set_status env seen s k change = get_artifact seen.artifacts k >>= λ (a : Artifact).
      update_artifact db env.now s.artifacts (change a)

-- The version that `Create` stores: the constructor's, with parent and source, hashed again.
pub first_version : Codec → CreateInput → Version → Version
unfolding rehashed
first_version lib c v =
    let v' = record v { parent_artifact = c.parent; source_artifact = c.source } in
    rehashed v' (compute_hash lib v')

module _ (pol : Policy) (db : Refusals) (lib : Codec) {X O : Type 0}
    (world : Surroundings X O) where
  abbrev Done : Type 0
  Done = Result Error (State X × Version)

  allocate_id : List Artifact → CreateInput → Result Error String
  allocate_id rows c =
      let p = if c.area == "" then prefix c.type else prefix c.type ++ "-" ++ c.area in
      world.next_artifact_sequence rows c.key.tenant_id c.key.project_id p >>= λ (n : ℕ).
      ok (p ++ "-" ++ world.three_digits n)

  id_for : List Artifact → CreateInput → Result Error String
  unfolding allocate_id
  id_for rows c = if c.key.artifact_id == "" then allocate_id rows c else ok c.key.artifact_id

  create_with : Env → State X → CreateInput → Principal → String → Done
  unfolding new_artifact first_version publish commit
  create_with env s c actor id = do
    fail_if (not (artifact_id_valid id))
        (platform invalid "artifact.id_invalid" "artifactgraph.Create")
    v ←
        new_version lib env.now c.key.tenant_id c.key.project_id id c.type c.content_schema
          c.content (by_hand c.generator) actor.id
    artifacts ← create_artifact db s.artifacts (new_artifact env c id actor)
    versions ← create_version db s.versions (first_version lib c v)
    commit artifacts versions (first_version lib c v) (do
      rest ← world.bump_graph_version s.rest c.key.tenant_id c.key.project_id
      publish lib world env actor (first_version lib c v) "artifact.create" "NOTICE"
          "artifact.created" rest)

  unfoldable pub create : Env → State X → CreateInput → Principal → Done
  unfolding create_with id_for
  create env s c actor = do
    check (require pol env.now actor artifact_create (plain_resource c.key "" "" c.type))
    fail_if (not (artifact_type_valid c.type))
        (platform invalid "artifact.type_invalid" "artifactgraph.Create")
    id ← id_for s.artifacts c
    create_with env s c actor id

  edit_draft : Env → State X → Version → Version × Option Error → Principal → Done
  unfolding publish commit
  edit_draft env s v (w, e) actor = do
    check e
    versions ← update_version db env.now s.versions w
    commit s.artifacts versions (counted w)
        (publish lib world env actor w "artifact.edit" "INFO" "artifact.updated" s.rest)

  unfoldable pub update_draft : Env → Reads → State X → Key → ℕ → String → ℕ → Principal → Done
  unfolding edit_draft
  update_draft env seen s k version content expected actor = do
    v ← get_version lib seen.versions k version
    check (
        require pol env.now actor artifact_edit
          (plain_resource k k.artifact_id v.created_by v.type))
    fail_if (sealed v) (platform conflict "artifact.sealed_immutable" "artifactgraph.UpdateDraft")
    fail_if (ltb 0 expected && not (eqb v.version_no expected))
        (platform conflict "concurrency.stale_version" "artifactgraph.UpdateDraft")
    edit_draft env s v (set_content lib env.now v content) actor

  move_to : Env → Reads → State X → Key → Principal → Version → Outcome → Done
  unfolding set_status publish commit
  move_to env seen s k actor v out = do
    versions ← update_version db env.now s.versions (moved_to env v out)
    artifacts ← set_status db env seen s k (λ a. record a { status = out.to })
    commit artifacts versions (counted (moved_to env v out)) (
        publish lib world env actor (moved_to env v out) out.audit_action "NOTICE" out.emit_event
          s.rest)

  unfoldable pub transition : Env → Reads → State X → Key → ℕ → String → Principal → Done
  unfolding move_to fire_as
  transition env seen s k version event actor = do
    fail_if (event == event_approve)
        (platform invalid "artifact.use_approve" "artifactgraph.Transition")
    v ← get_version lib seen.versions k version
    out ← fire_as pol env.now actor seen.authors k v event
    move_to env seen s k actor v out

  unfoldable pub revise_artifact : Env → Reads → State X → Key → String → Principal → Done
  unfolding set_status publish commit
  revise_artifact env seen s k summary actor = do
    a ← get_artifact seen.artifacts k
    check (
        require pol env.now actor artifact_edit
          (plain_resource k k.artifact_id a.created_by a.type))
    latest ← get_version lib seen.versions k a.current_version
    v ← revise lib env.now latest summary actor.id user_generator
    versions ← create_version db s.versions v
    artifacts ←
        update_artifact db env.now s.artifacts
          (record a { current_version = v.version; status = status_draft })
    commit artifacts versions v (do
      rest ← world.bump_graph_version s.rest k.tenant_id k.project_id
      publish lib world env actor v "artifact.revise" "NOTICE" "artifact.version.created" rest)
