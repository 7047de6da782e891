-- ===== src/Graph/Approval/Sealed.antt =====
-- What the transaction of `Approve` of internal/artifactgraph/app/service.go commits.
use mathlib.Core.Path.{subst}
use specforge.Prelude.{
  ℕ, ◌≡◌, ◌≤◌, refl, ap, ◌∙◌, some, arith, String, ◌==◌, not, Option, List, ok, >>=_ok, check_ok,
  fail_if_ok, false, ==→eq, Bool-cases, inl, inr,
}
use specforge.Errors.{Error}
use specforge.Authz.Principal.{Principal}
use specforge.Artifact.Version.{
  Version, ApprovalEvidence, CanonicalEnvelope, canonical_envelope, status_user_review,
  status_approved,
}
use specforge.Artifact.Version.Laws.{HasEvidence, evidence_valid_iff}
use specforge.Artifact.Operations.{Codec, seal_approval}
use specforge.Artifact.Operations.Sealing.{IsSealedBy, seal_approval_ok}
use specforge.Graph.Store.{
  Key, Refusals, key_of, find_version, get_version, approved_version, update_version, written,
  approval_of, count_approved,
}
use specforge.Graph.Store.Rows.{SameRow, Replaced, of_artifact_self}
use specforge.Graph.Store.Keys.{IsKeyed}
use specforge.Graph.Store.Approvals.{count_approved-Replaced}
use specforge.Graph.Store.Writes.{
  IsSnapshot, IsSnapshot-trans, get_version_ok, update_version_ok, update_version_fresh,
  update_version_single, canonical_envelope-written,
}
use specforge.Graph.Service.{Env, State, Reads, Surroundings, commit_ok}
use specforge.Graph.Commands.{counted, set_status}
use specforge.Graph.Lifecycle.{IsEvidenced, approved, Step, Steps, next}
use specforge.Graph.Lifecycle.Invariants.{not_counted}
use specforge.Graph.Lifecycle.History.{Steps-IsSnapshot}
use specforge.Graph.Approval.{ApproveInput, seal, finish, supersede_prior}
use specforge.Graph.Approval.Refinement.{supersede_prior-Steps}

module _ (lib : Codec) (v : Version) (approver comment : String) (evidence : ApprovalEvidence)
    (at : ℕ) (w : Version) (s : IsSealedBy lib v approver comment evidence at w) where
  sealed_place : SameRow v w
  unfolding canonical_envelope
  sealed_place = (
    ap
        (λ (e : CanonicalEnvelope).
          let k : Key = record {
            tenant_id = e.tenant_id;
            project_id = e.project_id;
            artifact_id = e.artifact_id;
          } in
          k)
        s.envelope,
    ap (λ (e : CanonicalEnvelope). e.version) s.envelope,
  )

  -- The sealed row names its approver and holds the evidence.
  sealed-IsEvidenced : (now : ℕ) → IsEvidenced (written now v w)
  unfolding written
  sealed-IsEvidenced now = record {
    approver = approver;
    evidence = evidence;
    by = s.approver_kept;
    kept = s.evidence_kept;
    legal =
        (evidence_valid_iff evidence).1
          (subst HasEvidence s.evidence_kept (s.valid.approved s.approved).evidence);
  }

  sealed_key : key_of w ≡ key_of v
  sealed_key = sealed_place.0

  -- The index leaves no room for another approved version.
  vacant :
      (now : ℕ) (rows rows' : List Version)
      → v.status ≡ status_user_review
      → Replaced v (written now v w) rows rows'
      → count_approved (key_of w) rows' ≤ 1
      → count_approved (key_of v) rows ≡ 0
  unfolding written
  vacant now rows rows' u p few =
      let one : approval_of (key_of v) (written now v w) ≡ 1 =
        rw (of_artifact_self v, s.approved) refl in
      let zero = not_counted (key_of v) v (rw u refl) in
      let few' = subst (λ k. count_approved k rows' ≤ 1) sealed_key few in
      omega (arith, count_approved-Replaced (key_of v) v (written now v w) p, one, zero, few')

  -- A sealing that is written approves the row that was read in review.
  sealed_step :
      (db : Refusals) (now : ℕ) (seen rows rows' : List Version)
      → v.status ≡ status_user_review
      → IsSnapshot seen rows
      → find_version (key_of v) v.version seen ≡ some v
      → update_version db now rows w ≡ ok rows'
      → Step rows rows'
  unfolding written
  sealed_step db now seen rows rows' u snap f h =
      let stands = update_version_fresh db now seen rows v w rows' snap f sealed_place s.number h in
      let replaced = update_version_ok db now v w rows rows' sealed_place stands h in
      let few = update_version_single db now w rows rows' h (rw s.approved refl) in
      approved v (written now v w) stands (refl, refl) refl refl u s.approved
        (canonical_envelope-written now v w s.envelope) (sealed-IsEvidenced now)
        (vacant now rows rows' u replaced few) replaced

pub in_review :
    (v : Version) → not (v.status == status_user_review) ≡ false → v.status ≡ status_user_review
in_review v h = elim (Bool-cases (v.status == status_user_review)) [
  | inl e ↦ ==→eq v.status status_user_review e
  | inr e ↦ cc (rw e at h)
]

module _ (db : Refusals) (lib : Codec) {X O : Type 0} (world : Surroundings X O) (env : Env)
    (seen : Reads) (s s' : State X) (c : ApproveInput) (actor : Principal)
    (evidence : ApprovalEvidence) (w : Version) (snap : IsSnapshot seen.versions s.versions) where
  finish-Steps :
      (v : Version) (moved : List Version × X) (r : Version × Option Error)
      → v.status ≡ status_user_review
      → find_version (key_of v) v.version seen.versions ≡ some v
      → Steps s.versions moved.0
      → seal_approval lib v actor.id c.comment evidence env.now ≡ r
      → finish db lib world env seen s c actor moved r ≡ ok (s', w)
      → Steps s.versions s'.versions
  unfolding finish
  finish-Steps v (rows, x) (z, e) u f before made h =
      let (fine, h1) = check_ok e _ (s', w) h in
      let (versions, updated, h2) = >>=_ok (update_version db env.now rows z) _ (s', w) h1 in
      let (artifacts, _, h3) =
        >>=_ok
          (set_status db env seen s c.key
            (λ a. record a { status = status_approved; current_version = c.version }))
          _ (s', w) h2 in
      let (_, same, _) = commit_ok artifacts versions (counted z) _ s' w h3 in
      let later =
        IsSnapshot-trans seen.versions s.versions rows snap
          (Steps-IsSnapshot s.versions rows before) in
      rw same (
        next before (
          sealed_step lib v actor.id c.comment evidence env.now z
            (seal_approval_ok lib v actor.id c.comment evidence env.now z
              (made ∙ ap (λ (o : Option Error). (z, o)) fine))
            db env.now seen.versions rows versions u later f updated))

  -- The rows that a committed approval leaves.
  pub seal-Steps :
      IsKeyed seen.prior
      → IsSnapshot seen.prior s.versions
      → seal db lib world env seen s c actor evidence ≡ ok (s', w)
      → Steps s.versions s'.versions
  unfolding seal approved_version
  seal-Steps keyed snap' h =
      let (v, read, h1) = >>=_ok (get_version lib seen.versions c.key c.version) _ (s', w) h in
      let (reviewed, h2) = fail_if_ok (not (v.status == status_user_review)) _ _ (s', w) h1 in
      let (moved, prior, h3) =
        >>=_ok
          (supersede_prior db lib world env actor c.version s.versions s.rest
            (approved_version seen.prior c.key))
          _ (s', w) h2 in
      let (_, stands, _) = get_version_ok lib seen.versions c.key c.version v read in
      finish-Steps v moved (seal_approval lib v actor.id c.comment evidence env.now)
        (in_review v reviewed) stands
        (supersede_prior-Steps db c.key seen.prior s.versions keyed snap' lib world env actor
          c.version s.rest (approved_version seen.prior c.key) moved refl prior)
        refl h3
