-- ===== src/Artifact/Operations/Sealing.antt =====
-- `SealApproval` of internal/artifactgraph/domain/artifact.go.
use specforge.Prelude.{
  ℕ, ◌≡◌, ◌≢◌, refl, ap, ◌∙◌, String, false, ◌==◌, ◌&&◌, not, Option, none, some, Result, ok, err,
  Bool-cases, inl, inr, ==→eq, ne→==, eqb,
}
use mathlib.Core.Path.{subst}
use specforge.Text.{trim_space}
use specforge.Errors.{Error}
use specforge.Artifact.Version.{
  Version, ApprovalEvidence, canonical_envelope, validate, evidence_valid, status_approved,
}
use specforge.Artifact.Version.Laws.{IsValid, validate-IsValid}
use specforge.Artifact.Operations.{
  Codec, compute_hash, verify, seal_approval, approved_of, finish_seal, normalize_time, error_of,
}
use specforge.Artifact.Operations.Laws.{verify-with_hash}

module _ (lib : Codec) (v : Version) (approver comment : String) (evidence : ApprovalEvidence) where
  -- The approval fields are outside of what the hash covers.
  pub canonical_envelope-approved_of :
      (now : ℕ)
      → canonical_envelope (approved_of v approver comment evidence now) ≡ canonical_envelope v
  unfolding canonical_envelope approved_of
  canonical_envelope-approved_of now = refl

  canonical_envelope-with_hash :
      (w : Version) (h : String)
      → canonical_envelope (record w { content_hash = h }) ≡ canonical_envelope w
  unfolding canonical_envelope
  canonical_envelope-with_hash w h = refl

  -- What a successful sealing leaves.
  pub record IsSealedBy (at : ℕ) (w : Version) : Type 0 where
    pub approved : w.status ≡ status_approved
    pub approver_kept : w.approved_by ≡ some approver
    pub instant : w.approved_at ≡ some (normalize_time at)
    pub comment_kept : w.approval_comment ≡ comment
    pub sealing : w.sealed_at ≡ some (normalize_time at)
    pub evidence_kept : w.approval_evidence ≡ some evidence
    pub number : w.version_no ≡ v.version_no
    pub envelope : canonical_envelope w ≡ canonical_envelope v
    pub hash : v.content_hash ≢ "" → w.content_hash ≡ v.content_hash
    pub valid : IsValid w
    pub verified : verify lib w ≡ none

  error_of-none : (r : Result Error (Unit {0})) → error_of r ≡ none → r ≡ ok tt
  error_of-none (ok u) h = refl
  error_of-none (err e) h = cc

  stable_hash :
      (after : String)
      → (not (v.content_hash == "") && not (after == v.content_hash)) ≡ false
      → v.content_hash ≢ ""
      → after ≡ v.content_hash
  stable_hash after s n = elim (Bool-cases (after == v.content_hash)) [
    | inl e ↦ ==→eq after v.content_hash e
    | inr e ↦ cc (rw (ne→== v.content_hash "" n, e) at s)
  ]

  finish_seal_ok :
      (at : ℕ) (w : Version) (r : Result Error String)
      → compute_hash lib (approved_of v approver comment evidence (normalize_time at)) ≡ r
      → finish_seal lib v.content_hash
          (approved_of v approver comment evidence (normalize_time at))
          r
        ≡ (w, none)
      → IsSealedBy at w
  unfolding finish_seal
  finish_seal_ok at w (err e) c h = cc
  finish_seal_ok at w (ok after) c h =
      let a : Version = approved_of v approver comment evidence (normalize_time at) in
      let w' : Version = record a { content_hash = after } in
      elim (Bool-cases (not (v.content_hash == "") && not (after == v.content_hash))) [
        | inl unstable ↦ cc (rw unstable at h)
        | inr stable ↦
            let done = rw stable at h in
            subst (IsSealedBy at) (ap (λ (x : Version × Option Error). x.0) done) (record {
              approved = unfold approved_of in refl;
              approver_kept = unfold approved_of in refl;
              instant = unfold approved_of in refl;
              comment_kept = unfold approved_of in refl;
              sealing = unfold approved_of in refl;
              evidence_kept = unfold approved_of in refl;
              number = unfold approved_of in refl;
              envelope =
                  canonical_envelope-with_hash a after
                  ∙ canonical_envelope-approved_of (normalize_time at);
              hash = λ n. stable_hash after stable n;
              valid =
                  (validate-IsValid w').0
                    (error_of-none (validate w') (ap (λ (x : Version × Option Error). x.1) done));
              verified = verify-with_hash lib a after c;
            })
      ]

  -- A sealing that succeeds leaves an approved version with the approver, the comment and the
  -- evidence that were given, approved and sealed at the given time in whole microseconds, over the
  -- very envelope that came in: a hash that was recorded is kept, and the version is valid and
  -- verifies.
  pub seal_approval_ok :
      (at : ℕ) (w : Version)
      → seal_approval lib v approver comment evidence at ≡ (w, none)
      → IsSealedBy at w
  unfolding seal_approval
  seal_approval_ok at w h = elim (Bool-cases (trim_space comment == "")) [
    | inl blank ↦ cc (rw blank at h)
    | inr said ↦ elim (Bool-cases (evidence_valid evidence)) [
      | inr weak ↦ cc (rw (said, weak) at h)
      | inl strong ↦ elim (Bool-cases (eqb (normalize_time at) 0)) [
        | inl never ↦ cc (rw (said, strong, never) at h)
        | inr instant ↦
            finish_seal_ok at w
              (compute_hash lib (approved_of v approver comment evidence (normalize_time at))) refl
              (rw (said, strong, instant) at h)
      ]
    ]
  ]
