-- ===== src/Graph/Approval/Evidence.antt =====
-- The evidence that `Approve` of internal/artifactgraph/app/service.go stores and records.
use specforge.Prelude.{
  ◌≡◌, refl, sym, ap, ◌∙◌, String, ◌==◌, not, Option, none, some, List, Result, ok, err, >>=_ok,
  check_ok, fail_if_ok, ok-injective,
}
use mathlib.Core.Path.{subst}
use specforge.Errors.{Error}
use specforge.Authz.Principal.{Principal, Policy}
use specforge.Artifact.Version.{
  Version, ApprovalEvidence, GateDecisionRef, status_user_review, status_approved,
}
use specforge.Artifact.Lifecycle.{event_approve}
use specforge.Artifact.Operations.{Codec, content_of_bytes, seal_approval, verify}
use specforge.Artifact.Operations.Sealing.{seal_approval_ok}
use specforge.Graph.Store.{Refusals, find_version, get_version, approved_version, update_version}
use specforge.Graph.Store.Writes.{get_version_ok}
use specforge.Graph.Service.{
  Env, State, Reads, Surroundings, EvidenceDocument, wrapped_as, commit_ok, fire_as,
}
use specforge.Graph.Commands.{counted, set_status}
use specforge.Graph.Approval.{
  ApproveInput, approve, prepare, after_prepare, admitted, stored, store_content, store_evidence,
  evidence_document, evidence_for, seal, finish, supersede_prior,
}

stored_through {ℓ κ} :
    {O : Type 0} {A : Type ℓ} {B : Type κ} (o o' : O) (r : Result Error A)
    (k : A → O × Result Error B) (b : B)
    → stored o r k ≡ (o', ok b)
    → (a : A) × (r ≡ ok a) × (k a ≡ (o', ok b))
stored_through o o' (ok a) k b h = (a, refl, h)
stored_through o o' (err e) k b h = cc (ap (λ (p : _ × Result Error _). p.1) h)

wrapped_as_ok {ℓ} :
    {A : Type ℓ} (code op : String) (r : Result Error A) (a : A)
    → wrapped_as code op r ≡ ok a
    → r ≡ ok a
wrapped_as_ok code op (ok x) a h = h
wrapped_as_ok code op (err e) a h = cc

module _ (lib : Codec) {X O : Type 0} (world : Surroundings X O) (env : Env) (c : ApproveInput)
    (actor : Principal) where
  -- The document is about the version `v`, its content, and the approval.
  pub record Describes (v : Version) (doc : EvidenceDocument) : Type 0 where
    pub key : doc.key ≡ c.key
    pub number : doc.version ≡ c.version
    pub type : doc.artifact_type ≡ v.type
    pub content : doc.content_hash ≡ v.content_hash
    pub summary : doc.change_summary ≡ v.change_summary
    pub generator : doc.generator ≡ v.generator
    pub approver : doc.approver ≡ actor.id
    pub comment : doc.approval_comment ≡ c.comment
    pub instant : doc.approved_at ≡ env.now

  -- The evidence `e` is the digest and the place of a stored document about `v`.
  pub record IsStoredFor (v : Version) (o' : O) (e : ApprovalEvidence) : Type 0 where
    pub document : EvidenceDocument
    pub about : Describes v document
    pub named : document.evidence_id ≡ e.evidence_id
    pub bytes : String
    pub rendered : world.canonicalize_evidence document ≡ ok bytes
    pub digest : e.digest ≡ content_of_bytes lib bytes
    pub before : O
    pub put :
        world.put_evidence before
          (world.evidence_key c.key.tenant_id c.key.project_id (content_of_bytes lib bytes))
          bytes
        ≡ ok (o', e.storage_ref)

  module _ (pol : Policy) where
    store_evidence_ok :
        (v : Version) (gates : List GateDecisionRef) (ref : String) (o o' : O)
        (e : ApprovalEvidence)
        → store_evidence pol lib world env c actor v gates ref o ≡ (o', ok e)
        → IsStoredFor v o' e
    unfolding store_evidence evidence_document evidence_for
    store_evidence_ok v gates ref o o' e h =
        let doc = evidence_document pol lib world env c actor v gates ref in
        let (bytes, wrapped, h1) = stored_through o o' _ _ e h in
        let rendered = wrapped_as_ok _ _ (world.canonicalize_evidence doc) bytes wrapped in
        let ((o1, place), put, h2) = stored_through o o' _ _ e h1 in
        let same : o1 ≡ o' = ap (λ (p : O × Result Error ApprovalEvidence). p.0) h2 in
        let made = ok-injective _ e (ap (λ (p : O × Result Error ApprovalEvidence). p.1) h2) in
        let at : place ≡ e.storage_ref = ap (λ (x : ApprovalEvidence). x.storage_ref) made in
        record {
          document = doc;
          about = record {
            key = refl;
            number = refl;
            type = refl;
            content = refl;
            summary = refl;
            generator = refl;
            approver = refl;
            comment = refl;
            instant = refl;
          };
          named = ap (λ (x : ApprovalEvidence). x.evidence_id) made;
          bytes = bytes;
          rendered = rendered;
          digest = sym (ap (λ (x : ApprovalEvidence). x.digest) made);
          before = o;
          put = put ∙ ap (λ x. ok (x, place)) same ∙ ap (λ x. ok (o', x)) at;
        }

    store_content_ok :
        (v : Version) (gates : List GateDecisionRef) (o o' : O) (e : ApprovalEvidence)
        → store_content pol lib world env c actor v gates o ≡ (o', ok e)
        → IsStoredFor v o' e
    unfolding store_content
    store_content_ok v gates o o' e h =
        let (canonical, _, h1) =
          stored_through o o'
            (wrapped_as "artifact.canonicalize_failed" "artifactgraph.Approve"
              (world.canonicalize_json v.content))
            _ e h in
        let place =
          world.content_key c.key.tenant_id c.key.project_id (content_of_bytes lib canonical) in
        let (o1, _, h2) = stored_through o o' (world.put_content o place canonical) _ e h1 in
        store_evidence_ok v gates place o1 o' e h2

    -- What the checks leave: evidence of the version that they read.
    prepare_evidence :
        (read : List Version) (o o' : O) (e : ApprovalEvidence)
        → prepare pol lib world env read c actor o ≡ (o', ok e)
        → (v : Version) × (get_version lib read c.key c.version ≡ ok v) × IsStoredFor v o' e
    unfolding prepare admitted
    prepare_evidence read o o' e h =
        let (a, admission, h1) =
          stored_through o o' (admitted pol lib world env read c actor) _ e h in
        let (v, seen, h2) = >>=_ok (get_version lib read c.key c.version) _ a admission in
        let (_, h3) = fail_if_ok (not (v.status == status_user_review)) _ _ a h2 in
        let (gates, _, h4) =
          >>=_ok
            (world.evaluate_gates (record {
              key = c.key;
              artifact_type = v.type;
              version = c.version;
              actor = actor.id;
            }))
            _ a h3 in
        let (out, _, h5) = >>=_ok (fire_as pol env.now actor read c.key v event_approve) _ a h4 in
        let same : v ≡ a.0 =
          ap (λ (p : Version × List GateDecisionRef). p.0)
            (ok-injective {A = Version × List GateDecisionRef} (v, gates) a h5) in
        (v, seen, subst (λ x. IsStoredFor x o' e) (sym same) (store_content_ok a.0 a.1 o o' e h1))

  -- What the sealed version records.
  abbrev pub Records : ApprovalEvidence → Version → Type 0
  Records e w =
      (w.status ≡ status_approved)
      × (w.approved_by ≡ some actor.id)
      × (w.approval_comment ≡ c.comment)
      × (w.approval_evidence ≡ some e)

  module _ (db : Refusals) (seen : Reads) (s s' : State X) (w : Version)
      (e : ApprovalEvidence) where
    finish-Records :
        (v : Version) (moved : List Version × X) (r : Version × Option Error)
        → seal_approval lib v actor.id c.comment e env.now ≡ r
        → finish db lib world env seen s c actor moved r ≡ ok (s', w)
        → Records e w
    unfolding finish
    finish-Records v (rows, x) (z, o) made h =
        let (fine, h1) = check_ok o _ (s', w) h in
        let (versions, _, h2) = >>=_ok (update_version db env.now rows z) _ (s', w) h1 in
        let (artifacts, _, h3) =
          >>=_ok
            (set_status db env seen s c.key
              (λ a. record a { status = status_approved; current_version = c.version }))
            _ (s', w) h2 in
        let (_, _, same) = commit_ok artifacts versions (counted z) _ s' w h3 in
        let sealed =
          seal_approval_ok lib v actor.id c.comment e env.now z
            (made ∙ ap (λ (o : Option Error). (z, o)) fine) in
        subst (Records e) (sym same)
          (sealed.approved, sealed.approver_kept, sealed.comment_kept, sealed.evidence_kept)

    seal-Records : seal db lib world env seen s c actor e ≡ ok (s', w) → Records e w
    unfolding seal approved_version
    seal-Records h =
        let (v, _, h1) = >>=_ok (get_version lib seen.versions c.key c.version) _ (s', w) h in
        let (_, h2) = fail_if_ok (not (v.status == status_user_review)) _ _ (s', w) h1 in
        let (moved, _, h3) =
          >>=_ok
            (supersede_prior db lib world env actor c.version s.versions s.rest
              (approved_version seen.prior c.key))
            _ (s', w) h2 in
        finish-Records v moved (seal_approval lib v actor.id c.comment e env.now) refl h3

module _ (pol : Policy) (db : Refusals) (lib : Codec) {X O : Type 0}
    (world : Surroundings X O) where
  -- An approval that succeeds returns an approved version that records the approver, the comment and
  -- evidence. The evidence is the digest and the place of a document that the last write to the
  -- object stores put there; the document names the approver, the comment, the time, and the version
  -- that the checks read, which verified, with its type, content hash, summary and provenance.
  pub approve_evidenced :
      (env : Env) (read : List Version) (seen : Reads) (s s' : State X) (c : ApproveInput)
      (actor : Principal) (o o' : O) (w : Version)
      → approve pol db lib world env read seen s c actor o ≡ (o', ok (s', w))
      → (v : Version) × (e : ApprovalEvidence) × (find_version c.key c.version read ≡ some v)
        × (verify lib v ≡ none)
        × IsStoredFor lib world env c actor v o' e
        × Records lib world env c actor e w
  unfolding approve after_prepare
  approve_evidenced env read seen s s' c actor o o' w h =
      let prepared = prepare pol lib world env read c actor o in
      let (e, ready, sealing) =
        >>=_ok prepared.1 (λ e. seal db lib world env seen s c actor e) (s', w)
          (ap (λ (p : O × Result Error (State X × Version)). p.1) h) in
      let left : prepared.0 ≡ o' = ap (λ (p : O × Result Error (State X × Version)). p.0) h in
      let made : prepared ≡ (o', ok e) =
        ap (λ r. (prepared.0, r)) ready ∙ ap (λ x. (x, ok e)) left in
      let (v, got, kept) = prepare_evidence lib world env c actor pol read o o' e made in
      let (found, _, whole) = get_version_ok lib read c.key c.version v got in
      (v, e, found, whole, kept, seal-Records lib world env c actor db seen s s' w e sealing)
