-- ===== src/Artifact/Version/Laws.antt =====
-- What `Validate` of internal/artifactgraph/domain/artifact.go establishes.
use Prim.Native.String.{len}
use specforge.Prelude.{
  ℕ, ◌+◌, ◌≤◌, ◌↔◌, refl, ==→eq, ==→ne, ne→==, ◌≡◌, ◌≢◌, ◌⊎◌, inl, inr, true, false, ◌==◌, ◌&&◌,
  ◌||◌, not, String, Option, none, some, ok, fail_if_ok, fail_if_last, check_ok, eqb, ltb, arith,
  eq→==, Bool-cases, is_none,
}
use specforge.Text.{trim_space}
use specforge.Types.{artifact_type_valid}
use specforge.Types.Identifiers.{artifact_id_valid, content_hash_valid}
use specforge.Artifact.Version.Provenance.{
  HasProvenance, validate_generator-HasProvenance, provenance-passes,
}
use specforge.Artifact.Version.{
  Version, ApprovalEvidence, validate, validate_approval, validate_generator, evidence_valid,
  inline_content_limit, op_validate, chain_mismatch, chain_gap, evidence_missing, status_approved,
}

-- The predecessor of version n is version n - 1, and version 1 has none.
abbrev pub IsChained : ℕ → Option ℕ → Type 0
IsChained v none = v ≡ 1
IsChained v (some p) = (v ≡ p + 1) × (1 ≤ p)

-- Evidence that can be found again and compared.
abbrev pub IsResolvable : ApprovalEvidence → Type 0
IsResolvable e = (e.evidence_id ≢ "") × (content_hash_valid e.digest ≡ true) × (e.storage_ref ≢ "")

abbrev pub HasEvidence : Option ApprovalEvidence → Type 0
HasEvidence none = ⊥
HasEvidence (some e) = IsResolvable e

abbrev pub IsPresent {ℓ} : {A : Type ℓ} → Option A → Type 0
IsPresent none = ⊥
IsPresent (some a) = Unit {0}

pub record IsApproved (v : Version) : Type 0 where
  pub approver : IsPresent v.approved_by
  pub instant : IsPresent v.approved_at
  pub comment : trim_space v.approval_comment ≢ ""
  pub evidence : HasEvidence v.approval_evidence

pub record IsValid (v : Version) : Type 0 where
  pub scoped : (v.tenant_id ≢ "") × (v.project_id ≢ "")
  pub identified : artifact_id_valid v.artifact_id ≡ true
  pub typed : artifact_type_valid v.type ≡ true
  pub chained : IsChained v.version v.previous_version
  pub schema : v.content_schema ≢ ""
  pub payload : (len v.content ≢ 0) ⊎ (v.content_ref ≢ "")
  pub inline : len v.content ≤ inline_content_limit
  pub provenance : HasProvenance v.generator
  pub approved : v.status ≡ status_approved → IsApproved v

chain-IsChained :
    (v : ℕ) (previous : Option ℕ)
    → ltb v 1 ≡ false
    → chain_mismatch v previous ≡ false
    → chain_gap v previous ≡ false
    → IsChained v previous
chain-IsChained v none h m g = ground arith
chain-IsChained v (some p) h m g = ground arith

chained_tests :
    (v : ℕ) (previous : Option ℕ)
    → IsChained v previous
    → (ltb v 1 ≡ false) × (chain_mismatch v previous ≡ false) × (chain_gap v previous ≡ false)
chained_tests v none c = (ground arith, ground arith, refl)
chained_tests v (some p) c = (ground arith, ground arith, ground arith)

-- A test that all of a few texts are there.
or_blank : (a b : String) → ((a == "" || b == "") ≡ false) ↔ ((a ≢ "") × (b ≢ ""))
or_blank a b = elim (Bool-cases (a == "")) [
  | inl e ↦ (λ h. cc (rw e at h), λ n. absurd (n.0 (==→eq a "" e)))
  | inr e ↦ (λ h. (==→ne a "" e, ==→ne b "" (rw e at h)), λ n. rw e (ne→== b "" n.1))
]

pub evidence_valid_iff : (e : ApprovalEvidence) → (evidence_valid e ≡ true) ↔ IsResolvable e
unfolding evidence_valid
evidence_valid_iff e = elim (Bool-cases (e.evidence_id == "")) [
  | inl a ↦ (λ h. cc (rw a at h), λ r. absurd (r.0 (==→eq e.evidence_id "" a)))
  | inr a ↦ elim (Bool-cases (e.storage_ref == "")) [
    | inl b ↦ (λ h. ground (arith, a, b, h), λ r. absurd (r.2 (==→eq e.storage_ref "" b)))
    | inr b ↦ (
      λ h. (==→ne e.evidence_id "" a, ground (arith, a, b, h), ==→ne e.storage_ref "" b),
      λ r. rw (a, b, r.1) refl,
    )
  ]
]

evidence_missing_iff : (e : Option ApprovalEvidence) → (evidence_missing e ≡ false) ↔ HasEvidence e
evidence_missing_iff none = (λ h. cc h, λ h. absurd h)
evidence_missing_iff (some e) =
    (λ h. (evidence_valid_iff e).0 (ground (arith, h)), λ r. rw ((evidence_valid_iff e).1 r) refl)

present_iff {ℓ κ} :
    {A : Type ℓ} {B : Type κ} (a : Option A) (b : Option B)
    → ((is_none a || is_none b) ≡ false) ↔ (IsPresent a × IsPresent b)
present_iff none b = (λ h. cc h, λ p. absurd p.0)
present_iff (some a) none = (λ h. cc h, λ p. absurd p.1)
present_iff (some a) (some b) = (λ h. (tt, tt), λ p. refl)

approval_of :
    (v : Version) → validate_approval v ≡ ok tt → v.status ≡ status_approved → IsApproved v
unfolding validate_approval
approval_of v h s =
    let h1 = rw (eq→== v.status status_approved s) at h in
    let (named, h2) =
      fail_if_ok (is_none v.approved_by || is_none v.approved_at)
        (op_validate "artifact.approval_incomplete") _ tt h1 in
    let (comment, h3) =
      fail_if_ok (trim_space v.approval_comment == "")
        (op_validate "artifact.approval_comment_required") _ tt h2 in
    let (by, instant) = (present_iff v.approved_by v.approved_at).0 named in
    record {
      approver = by;
      instant = instant;
      comment = ==→ne (trim_space v.approval_comment) "" comment;
      evidence = (evidence_missing_iff v.approval_evidence).0 (
          fail_if_last (evidence_missing v.approval_evidence)
            (op_validate "artifact.approval_evidence_required") h3);
    }

approval-passes :
    (v : Version) → (v.status ≡ status_approved → IsApproved v) → validate_approval v ≡ ok tt
unfolding validate_approval
approval-passes v a = elim (Bool-cases (v.status == status_approved)) [
  | inr e ↦ rw e refl
  | inl e ↦
      let c = a (==→eq v.status status_approved e) in
      rw
        (
          e,
          (present_iff v.approved_by v.approved_at).1 (c.approver, c.instant),
          ne→== (trim_space v.approval_comment) "" c.comment,
          (evidence_missing_iff v.approval_evidence).1 c.evidence,
        )
        refl
]

payload_of :
    (v : Version)
    → (eqb (len v.content) 0 && v.content_ref == "") ≡ false
    → (len v.content ≢ 0) ⊎ (v.content_ref ≢ "")
payload_of v h = elim (Bool-cases (v.content_ref == "")) [
  | inr e ↦ inr (==→ne v.content_ref "" e)
  | inl e ↦ inl (λ n. cc (rw (n, e) at h))
]

payload_passes :
    (v : Version)
    → (len v.content ≢ 0) ⊎ (v.content_ref ≢ "")
    → (eqb (len v.content) 0 && v.content_ref == "") ≡ false
payload_passes v (inr n) = rw (ne→== v.content_ref "" n) (ground arith)
payload_passes v (inl n) = elim (Bool-cases (eqb (len v.content) 0)) [
  | inr e ↦ rw e refl
  | inl e ↦ absurd (n (ground (arith, e)))
]

validated : (v : Version) → validate v ≡ ok tt → IsValid v
unfolding validate
validated v h0 =
    let (scope, h1) =
      fail_if_ok (v.tenant_id == "" || v.project_id == "") (op_validate "artifact.scope_required") _
        tt h0 in
    let (id, h2) =
      fail_if_ok (not (artifact_id_valid v.artifact_id)) (op_validate "artifact.id_invalid") _ tt
        h1 in
    let (type, h3) =
      fail_if_ok (not (artifact_type_valid v.type)) (op_validate "artifact.type_invalid") _ tt h2 in
    let (first, h4) =
      fail_if_ok (ltb v.version 1) (op_validate "artifact.version_invalid") _ tt h3 in
    let (match_, h5) =
      fail_if_ok (chain_mismatch v.version v.previous_version)
        (op_validate "artifact.chain_invalid") _ tt h4 in
    let (gap, h6) =
      fail_if_ok (chain_gap v.version v.previous_version) (op_validate "artifact.chain_gap") _ tt
        h5 in
    let (schema, h7) =
      fail_if_ok (v.content_schema == "") (op_validate "artifact.content_schema_required") _ tt
        h6 in
    let (payload, h8) =
      fail_if_ok (eqb (len v.content) 0 && v.content_ref == "")
        (op_validate "artifact.content_required") _ tt h7 in
    let (size, h9) =
      fail_if_ok (ltb inline_content_limit (len v.content))
        (op_validate "artifact.content_too_large") _ tt h8 in
    let (generated, h10) = check_ok (validate_generator v.generator) _ tt h9 in
    record {
      scoped = (or_blank v.tenant_id v.project_id).0 scope;
      identified = ground (arith, id);
      typed = ground (arith, type);
      chained = chain-IsChained v.version v.previous_version first match_ gap;
      schema = ==→ne v.content_schema "" schema;
      payload = payload_of v payload;
      inline = ground (arith, size);
      provenance = validate_generator-HasProvenance v.generator generated;
      approved = approval_of v h10;
    }

valid-passes : (v : Version) → IsValid v → validate v ≡ ok tt
unfolding validate
valid-passes v p =
    let (first, match_, gap) = chained_tests v.version v.previous_version p.chained in
    let size : ltb inline_content_limit (len v.content) ≡ false =
      let l = p.inline in ground (arith, l) in
    rw
      (
        (or_blank v.tenant_id v.project_id).1 p.scoped,
        p.identified,
        p.typed,
        first,
        match_,
        gap,
        ne→== v.content_schema "" p.schema,
        payload_passes v p.payload,
        size,
        provenance-passes v.generator p.provenance,
      )
      (approval-passes v p.approved)

-- A version passes validation exactly when it has a tenant, a project, a well-formed identifier and
-- a known type; its predecessor is the version before it, and version 1 has none; it has a schema,
-- content or a reference to it, and inline content within the limit; its provenance is of a known
-- kind, names the prompt, the model, the provider and the guardrail chain if it is a model's, and
-- the analyzer if it is an analyzer's; and if it is approved it has an approver, an instant, a
-- comment that is not blank, and evidence with an identifier, a well-formed digest and a reference.
pub validate-IsValid : (v : Version) → (validate v ≡ ok tt) ↔ IsValid v
validate-IsValid v = (validated v, valid-passes v)
