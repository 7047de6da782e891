-- ===== src/Graph/Governance/Segregation.antt =====
-- Who may approve, through `Approve` of internal/artifactgraph/app/service.go: the access decision
-- that its checks reach, and the version that its transaction seals.
use mathlib.Core.Path.{subst}
use specforge.Prelude.{
  ℕ, ◌≡◌, ◌≢◌, ap, true, ◌==◌, none, some, List, Result, ok, >>=_ok, All, eq→==, arith, ne→==,
}
use specforge.Errors.{Error}
use specforge.Authz.Permissions.{artifact_approve, parse_permission}
use specforge.Authz.Principal.{Principal, Policy, kind_system}
use specforge.Authz.Evaluator.Laws.{IsSegregated, allowed-IsSegregated, require_status}
use specforge.Graph.Store.Rows.{row_key, find_version-row}
use specforge.Fsm.{Transition, Outcome, check_permission}
use specforge.Artifact.Version.{Version, status_user_review}
use specforge.Artifact.Lifecycle.{event_approve, definition}
use specforge.Artifact.Lifecycle.Laws.{lookup-machine}
use specforge.Artifact.Operations.{Codec}
use specforge.Graph.Store.{Key, Refusals, find_version}
use specforge.Graph.Store.Writes.{get_version_ok}
use specforge.Graph.Service.{
  Env, State, Reads, Surroundings, fire_as, fire_as_ok, checker, checker_for, permission_check,
  resource_of,
}
use specforge.Graph.Approval.{ApproveInput, prepare, approve, after_prepare, seal}
use specforge.Graph.Approval.Admission.{prepare_ok}

module _ (pol : Policy) where
  -- The decision behind a firing that asks for the permission to approve.
  segregated_firing :
      (now : ℕ) (actor : Principal) (rows : List Version) (k : Key) (v : Version)
      → actor.kind ≢ kind_system
      → check_permission (checker_for pol now actor rows k v) "artifact:approve" ≡ none
      → IsSegregated pol now actor artifact_approve
          (resource_of rows (record k { tenant_id = v.tenant_id; artifact_id = v.artifact_id }) v)
  unfolding check_permission checker permission_check parse_permission
  segregated_firing now actor rows k v n h =
      let res =
        resource_of rows (record k { tenant_id = v.tenant_id; artifact_id = v.artifact_id }) v in
      allowed-IsSegregated pol now actor artifact_approve res (
        (require_status pol now actor artifact_approve res).0.0
          (rw (ne→== actor.kind kind_system n) at h))

  abbrev AsksApproval : Transition Version → Type 0
  AsksApproval t = (t.event == event_approve) ≡ true → t.permission ≡ "artifact:approve"

  definition-AsksApproval : All AsksApproval definition.transitions
  definition-AsksApproval = ground arith

  -- The approval of the lifecycle asks for the permission to approve.
  approve_permission :
      (now : ℕ) (actor : Principal) (rows : List Version) (k : Key) (v : Version) (out : Outcome)
      → fire_as pol now actor rows k v event_approve ≡ ok out
      → check_permission (checker_for pol now actor rows k v) "artifact:approve" ≡ none
  approve_permission now actor rows k v out h =
      let (x, p) = fire_as_ok pol now actor rows k v event_approve out h in
      let m =
        lookup-machine AsksApproval definition-AsksApproval v.status event_approve p.move p.found in
      rw (m.6 (eq→== p.move.event event_approve m.3)) at p.permitted

module _ (pol : Policy) (db : Refusals) (lib : Codec) {X O : Type 0}
    (world : Surroundings X O) where
  -- An approval that succeeds, by anyone but the system, was of a version that the checks read in
  -- review, and respects the segregation of duties for the permission to approve it: its author and
  -- the contributors are those that the checks read.
  pub approve_segregated :
      (env : Env) (read : List Version) (seen : Reads) (s s' : State X) (c : ApproveInput)
      (actor : Principal) (o o' : O) (w : Version)
      → actor.kind ≢ kind_system
      → approve pol db lib world env read seen s c actor o ≡ (o', ok (s', w))
      → (v : Version) × (find_version c.key c.version read ≡ some v)
        × (v.status ≡ status_user_review)
        × IsSegregated pol env.now actor artifact_approve (resource_of read c.key v)
  unfolding approve after_prepare
  approve_segregated env read seen s s' c actor o o' w n h =
      let prepared = prepare pol lib world env read c actor o in
      let (evidence, ready, _) =
        >>=_ok prepared.1 (λ e. seal db lib world env seen s c actor e) (s', w)
          (ap (λ (p : O × Result Error (State X × Version)). p.1) h) in
      let (v, out, read_ok, reviewed, fired) =
        prepare_ok pol lib world env read c actor o evidence ready in
      let (found, _, _) = get_version_ok lib read c.key c.version v read_ok in
      let (k, _) = row_key c.key c.version v (find_version-row c.key c.version read v found) in
      let same_key : record c.key { tenant_id = v.tenant_id; artifact_id = v.artifact_id } ≡ c.key =
        ground (arith, k) in
      (
        v,
        found,
        reviewed,
        subst (λ x. IsSegregated pol env.now actor artifact_approve (resource_of read x v)) same_key
            (segregated_firing pol env.now actor read c.key v n
              (approve_permission pol env.now actor read c.key v out fired)),
      )
