-- ===== src/Graph/Approval/Admission.antt =====
-- The checks of `Approve` of internal/artifactgraph/app/service.go.
use specforge.Prelude.{◌≡◌, refl, ◌==◌, not, List, Result, ok, err, >>=_ok, fail_if_ok}
use specforge.Errors.{Error}
use specforge.Fsm.{Outcome}
use specforge.Authz.Principal.{Principal, Policy}
use specforge.Artifact.Version.{Version, ApprovalEvidence, GateDecisionRef, status_user_review}
use specforge.Artifact.Lifecycle.{event_approve}
use specforge.Artifact.Operations.{Codec}
use specforge.Graph.Store.{get_version}
use specforge.Graph.Service.{Env, Surroundings, fire_as}
use specforge.Graph.Approval.{ApproveInput, admitted, prepare, stored}
use specforge.Graph.Approval.Sealed.{in_review}

stored_ok {ℓ} :
    {O : Type 0} {A B : Type ℓ} (o : O) (r : Result Error A) (k : A → O × Result Error B) (b : B)
    → (stored o r k).1 ≡ ok b
    → (a : A) × (r ≡ ok a)
stored_ok o (ok a) k b h = (a, refl)
stored_ok o (err e) k b h = cc

module _ (pol : Policy) (lib : Codec) {X O : Type 0} (world : Surroundings X O) (env : Env)
    (rows : List Version) (c : ApproveInput) (actor : Principal) where
  admitted_ok :
      (a : Version × List GateDecisionRef)
      → admitted pol lib world env rows c actor ≡ ok a
      → (v : Version) × (out : Outcome) × (get_version lib rows c.key c.version ≡ ok v)
        × (v.status ≡ status_user_review)
        × (fire_as pol env.now actor rows c.key v event_approve ≡ ok out)
  unfolding admitted
  admitted_ok a h =
      let (v, read, h1) = >>=_ok (get_version lib rows c.key c.version) _ a h in
      let (reviewed, h2) = fail_if_ok (not (v.status == status_user_review)) _ _ a h1 in
      let (gates, _, h3) =
        >>=_ok
          (world.evaluate_gates
            (record { key = c.key; artifact_type = v.type; version = c.version; actor = actor.id }))
          _ a h2 in
      let (out, fired, h4) = >>=_ok (fire_as pol env.now actor rows c.key v event_approve) _ a h3 in
      (v, out, read, in_review v reviewed, fired)

  -- Evidence is stored only of a version in review whose approval the lifecycle admits.
  pub prepare_ok :
      (o : O) (evidence : ApprovalEvidence)
      → (prepare pol lib world env rows c actor o).1 ≡ ok evidence
      → (v : Version) × (out : Outcome) × (get_version lib rows c.key c.version ≡ ok v)
        × (v.status ≡ status_user_review)
        × (fire_as pol env.now actor rows c.key v event_approve ≡ ok out)
  unfolding prepare
  prepare_ok o evidence h =
      let (a, admission) = stored_ok o (admitted pol lib world env rows c actor) _ evidence h in
      admitted_ok a admission
