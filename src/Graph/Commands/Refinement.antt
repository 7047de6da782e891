-- ===== src/Graph/Commands/Refinement.antt =====
-- The commands of internal/artifactgraph/app/service.go, but for the approval, as steps of the
-- table of versions.
use mathlib.Core.Path.{subst}
use specforge.Prelude.{
  ℕ, ◌≡◌, ◌≢◌, refl, sym, ap, ◌∙◌, String, ◌==◌, ◌&&◌, Option, none, some, List, Result, ok, err,
  >>=_ok, check_ok, fail_if_ok, ==→ne, not, ltb, eqb,
}
use specforge.Types.Identifiers.{artifact_id_valid}
use specforge.Errors.{Error}
use specforge.Fsm.{Outcome}
use specforge.Authz.Principal.{Principal, Policy}
use specforge.Authz.Permissions.{artifact_create, artifact_edit}
use specforge.Authz.Evaluator.{require}
use specforge.Types.{artifact_type_valid}
use specforge.Artifact.Version.{Version, canonical_envelope, status_draft}
use specforge.Artifact.Lifecycle.{event_approve}
use specforge.Artifact.Operations.{Codec, sealed, new_version, revise, set_content, compute_hash}
use specforge.Artifact.Operations.Laws.{new_version_ok, revise_ok}
use specforge.Artifact.Operations.Editing.{set_content_cases}
use specforge.Graph.Store.{
  create_artifact, Key, Refusals, key_of, find_version, get_version, get_artifact, create_version,
  update_version, update_artifact, written,
}
use specforge.Graph.Store.Rows.{SameRow}
use specforge.Graph.Store.Writes.{
  IsSnapshot, get_version_ok, update_version_ok, update_version_fresh, create_version_ok,
}
use specforge.Graph.Service.{Env, State, Reads, Surroundings, fire_as, fire_as_ok, commit_ok}
use specforge.Graph.Lifecycle.{Change, edited, moved, Step, added, changed}
use specforge.Graph.Commands.{
  CreateInput, create, create_with, by_hand, new_artifact, first_version, update_draft, edit_draft,
  transition, move_to, rehashed, revise_artifact, user_generator, plain_resource, id_for, counted,
  moved_to, set_status,
}

rehashed-status : (v : Version) (r : Result Error String) → (rehashed v r).status ≡ v.status
unfolding rehashed
rehashed-status v (ok h) = refl
rehashed-status v (err e) = refl

first_version-status :
    (lib : Codec) (c : CreateInput) (v : Version) → (first_version lib c v).status ≡ v.status
unfolding first_version
first_version-status lib c v =
    let v' : Version = record v { parent_artifact = c.parent; source_artifact = c.source } in
    rehashed-status v' (compute_hash lib v')

module _ (db : Refusals) where
  -- An insertion of a draft is a step.
  added_step :
      (rows rows' : List Version) (w : Version)
      → w.status ≡ status_draft
      → create_version db rows w ≡ ok rows'
      → Step rows rows'
  added_step rows rows' w d h =
      let (free, same) = create_version_ok db rows w rows' h in
      subst (Step rows) (sym same) (added w d free)

module _ (db : Refusals) (lib : Codec) (now : ℕ) (seen rows : List Version)
    (snap : IsSnapshot seen rows) where
  -- The update of an edited version is a step.
  edited_step :
      (v : Version) (content : String) (w : Version) (rows' : List Version)
      → find_version (key_of v) v.version seen ≡ some v
      → set_content lib now v content ≡ (w, none)
      → update_version db now rows w ≡ ok rows'
      → Step rows rows'
  unfolding written
  edited_step v content w rows' f edit h =
      let (draft, _, same, _) = (set_content_cases lib now v content).1 w edit in
      let place : SameRow v w = (ap key_of same, ap (λ (x : Version). x.version) same) in
      let number = ap (λ (x : Version). x.version_no) same in
      let stands = update_version_fresh db now seen rows v w rows' snap f place number h in
      changed v (written now v w) stands (refl, refl) refl refl
        (edited draft (ap (λ (x : Version). x.status) same ∙ draft) (
          ap (λ (x : Version). x.approved_by) same,
          ap (λ (x : Version). x.approved_at) same,
          ap (λ (x : Version). x.approval_comment) same,
          ap (λ (x : Version). x.approval_evidence) same,
          ap (λ (x : Version). x.sealed_at) same,
        ))
        (update_version_ok db now v w rows rows' place stands h)

-- A firing by another event than the approval is a move of the table of states.
module _ (pol : Policy) (env : Env) (actor : Principal) where
  moved_change :
      (rows : List Version) (k : Key) (v : Version) (event : String) (out : Outcome)
      → event ≢ event_approve
      → fire_as pol env.now actor rows k v event ≡ ok out
      → Change v (written env.now v (moved_to env v out))
  unfolding written canonical_envelope
  moved_change rows k v event out n h =
      let (x, p) = fire_as_ok pol env.now actor rows k v event out h in
      moved event p.move p.found n (ap (λ (o : Outcome). o.to) p.result) (refl, refl)
        (refl, refl, refl, refl, refl)

module _ (pol : Policy) (db : Refusals) (lib : Codec) {X O : Type 0} (world : Surroundings X O)
    (env : Env) (s s' : State X) (actor : Principal) (w : Version) where
  create_with-Step :
      (c : CreateInput) (id : String)
      → create_with pol db lib world env s c actor id ≡ ok (s', w)
      → Step s.versions s'.versions
  unfolding create_with
  create_with-Step c id h =
      let (_, h1) = fail_if_ok (not (artifact_id_valid id)) _ _ (s', w) h in
      let (v, made, h2) =
        >>=_ok
          (new_version lib env.now c.key.tenant_id c.key.project_id id c.type c.content_schema
            c.content (by_hand c.generator) actor.id)
          _ (s', w) h1 in
      let (artifacts, _, h3) =
        >>=_ok (create_artifact db s.artifacts (new_artifact env c id actor)) _ (s', w) h2 in
      let (versions, inserted, h4) =
        >>=_ok (create_version db s.versions (first_version lib c v)) _ (s', w) h3 in
      let (_, same, _) = commit_ok artifacts versions (first_version lib c v) _ s' w h4 in
      let (_, _, draft, _, _) =
        new_version_ok lib env.now c.key.tenant_id c.key.project_id id c.type c.content_schema
          c.content (by_hand c.generator) actor.id v made in
      rw same (
        added_step db s.versions versions (first_version lib c v)
          (first_version-status lib c v ∙ draft) inserted)

  pub create-Step :
      (c : CreateInput)
      → create pol db lib world env s c actor ≡ ok (s', w)
      → Step s.versions s'.versions
  unfolding create
  create-Step c h =
      let (_, h1) =
        check_ok (require pol env.now actor artifact_create (plain_resource c.key "" "" c.type)) _
          (s', w) h in
      let (_, h2) = fail_if_ok (not (artifact_type_valid c.type)) _ _ (s', w) h1 in
      let (id, _, h3) = >>=_ok (id_for pol db lib world s.artifacts c) _ (s', w) h2 in
      create_with-Step c id h3

module _ (pol : Policy) (db : Refusals) (lib : Codec) {X O : Type 0} (world : Surroundings X O)
    (env : Env) (seen : Reads) (s s' : State X) (actor : Principal) (w : Version)
    (snap : IsSnapshot seen.versions s.versions) where
  edit_draft-Step :
      (v : Version) (content : String) (r : Version × Option Error)
      → find_version (key_of v) v.version seen.versions ≡ some v
      → set_content lib env.now v content ≡ r
      → edit_draft pol db lib world env s v r actor ≡ ok (s', w)
      → Step s.versions s'.versions
  unfolding edit_draft
  edit_draft-Step v content (x, e) f edit h =
      let (fine, h1) = check_ok e _ (s', w) h in
      let (versions, updated, h2) = >>=_ok (update_version db env.now s.versions x) _ (s', w) h1 in
      let (_, same, _) = commit_ok s.artifacts versions (counted x) _ s' w h2 in
      rw same (
        edited_step db lib env.now seen.versions s.versions snap v content x versions f
          (edit ∙ ap (λ (o : Option Error). (x, o)) fine) updated)

  pub update_draft-Step :
      (k : Key) (version : ℕ) (content : String) (expected : ℕ)
      → update_draft pol db lib world env seen s k version content expected actor ≡ ok (s', w)
      → Step s.versions s'.versions
  unfolding update_draft
  update_draft-Step k version content expected h =
      let (v, read, h1) = >>=_ok (get_version lib seen.versions k version) _ (s', w) h in
      let (_, h2) =
        check_ok
          (require pol env.now actor artifact_edit
            (plain_resource k k.artifact_id v.created_by v.type))
          _ (s', w) h1 in
      let (_, h3) = fail_if_ok (sealed v) _ _ (s', w) h2 in
      let (_, h4) = fail_if_ok (ltb 0 expected && not (eqb v.version_no expected)) _ _ (s', w) h3 in
      edit_draft-Step v content (set_content lib env.now v content)
        (get_version_ok lib seen.versions k version v read).1 refl h4

  move_to-Step :
      (k : Key) (v : Version) (event : String) (out : Outcome)
      → event ≢ event_approve
      → find_version (key_of v) v.version seen.versions ≡ some v
      → fire_as pol env.now actor seen.authors k v event ≡ ok out
      → move_to pol db lib world env seen s k actor v out ≡ ok (s', w)
      → Step s.versions s'.versions
  unfolding move_to
  move_to-Step k v event out n f fired h =
      let (versions, updated, h1) =
        >>=_ok (update_version db env.now s.versions (moved_to env v out)) _ (s', w) h in
      let (artifacts, _, h2) =
        >>=_ok (set_status db env seen s k (λ a. record a { status = out.to })) _ (s', w) h1 in
      let (_, same, _) = commit_ok artifacts versions (counted (moved_to env v out)) _ s' w h2 in
      let place : SameRow v (moved_to env v out) = (refl, refl) in
      let stands =
        update_version_fresh db env.now seen.versions s.versions v (moved_to env v out) versions
          snap f place refl updated in
      rw same (
        changed v (written env.now v (moved_to env v out)) stands (unfold written in (refl, refl))
          (unfold written in refl) (unfold written in refl)
          (moved_change pol env actor seen.authors k v event out n fired)
          (update_version_ok db env.now v (moved_to env v out) s.versions versions place stands
            updated))

  pub transition-Step :
      (k : Key) (version : ℕ) (event : String)
      → transition pol db lib world env seen s k version event actor ≡ ok (s', w)
      → Step s.versions s'.versions
  unfolding transition
  transition-Step k version event h =
      let (other, h1) = fail_if_ok (event == event_approve) _ _ (s', w) h in
      let (v, read, h2) = >>=_ok (get_version lib seen.versions k version) _ (s', w) h1 in
      let (out, fired, h3) =
        >>=_ok (fire_as pol env.now actor seen.authors k v event) _ (s', w) h2 in
      move_to-Step k v event out (==→ne event event_approve other)
        (get_version_ok lib seen.versions k version v read).1 fired h3

  pub revise_artifact-Step :
      (k : Key) (summary : String)
      → revise_artifact pol db lib world env seen s k summary actor ≡ ok (s', w)
      → Step s.versions s'.versions
  unfolding revise_artifact
  revise_artifact-Step k summary h =
      let (a, _, h1) = >>=_ok (get_artifact seen.artifacts k) _ (s', w) h in
      let (_, h2) =
        check_ok
          (require pol env.now actor artifact_edit
            (plain_resource k k.artifact_id a.created_by a.type))
          _ (s', w) h1 in
      let (latest, _, h3) =
        >>=_ok (get_version lib seen.versions k a.current_version) _ (s', w) h2 in
      let (v, made, h4) =
        >>=_ok (revise lib env.now latest summary actor.id user_generator) _ (s', w) h3 in
      let (versions, inserted, h5) = >>=_ok (create_version db s.versions v) _ (s', w) h4 in
      let (artifacts, _, h6) =
        >>=_ok
          (update_artifact db env.now s.artifacts
            (record a { current_version = v.version; status = status_draft }))
          _ (s', w) h5 in
      let (_, same, _) = commit_ok artifacts versions v _ s' w h6 in
      let (_, _, draft, _, _, _, _, _) =
        revise_ok lib env.now latest summary actor.id user_generator v made in
      rw same (added_step db s.versions versions v draft inserted)
