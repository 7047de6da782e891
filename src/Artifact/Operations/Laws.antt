-- ===== src/Artifact/Operations/Laws.antt =====
-- Hashing, editing, revising and sealing of internal/artifactgraph/domain/artifact.go.
use mathlib.Core.Path.{subst}
use specforge.Prelude.{
  ℕ, ◌+◌, ◌≡◌, refl, ap, ◌∙◌, String, ◌==◌, not, none, some, Result, ok, err, fail_if_ok, >>=_ok,
  ok-injective, eq→==,
}
use specforge.Text.{trim_space}
use specforge.Errors.{Error}
use specforge.Artifact.Version.{Version, Generator, canonical_envelope, validate, status_draft}
use specforge.Artifact.Version.Laws.{IsValid, validate-IsValid}
use specforge.Artifact.Operations.{
  Codec, compute_hash, verify, seal_new, new_version, draft_of, revise, next_of, hashed,
}

-- Neither the recorded hash nor its validity depends on the hash that is recorded.
pub validate-with_hash :
    (v : Version) (h : String) → validate (record v { content_hash = h }) ≡ validate v
unfolding validate
validate-with_hash v h = refl

module _ (lib : Codec) where
  pub compute_hash-with_hash :
      (v : Version) (h : String)
      → compute_hash lib (record v { content_hash = h }) ≡ compute_hash lib v
  unfolding compute_hash canonical_envelope
  compute_hash-with_hash v h = refl

  -- The hash of a version is the hash of its envelope alone.
  pub compute_hash-envelope :
      (v w : Version)
      → canonical_envelope v ≡ canonical_envelope w
      → compute_hash lib v ≡ compute_hash lib w
  unfolding compute_hash
  compute_hash-envelope v w h = rw (h, compute_hash) refl

  verify_of :
      (v : Version) (h : String)
      → compute_hash lib v ≡ ok h
      → h ≡ v.content_hash
      → verify lib v ≡ none
  unfolding verify
  verify_of v h c e = rw (c, eq→== h v.content_hash e) refl

  -- What storing the computed hash gives: a version that verifies.
  pub verify-with_hash :
      (v : Version) (h : String)
      → compute_hash lib v ≡ ok h
      → verify lib (record v { content_hash = h }) ≡ none
  verify-with_hash v h c =
      verify_of (record v { content_hash = h }) h (compute_hash-with_hash v h ∙ c) refl

  abbrev IsHashed : Version → Version → Type 0
  IsHashed v w =
      (w ≡ record v { content_hash = w.content_hash }) × IsValid w × (verify lib w ≡ none)

  hashed_ok :
      (op : String) (v w : Version) (r : Result Error String)
      → validate v ≡ ok tt
      → compute_hash lib v ≡ r
      → hashed lib op v r ≡ ok w
      → IsHashed v w
  hashed_ok op v w (err e) valid c h = cc
  hashed_ok op v w (ok d) valid c h =
      let w' : Version = record v { content_hash = d } in
      subst (IsHashed v) (ok-injective w' w h)
        (refl, (validate-IsValid w').0 (validate-with_hash v d ∙ valid), verify-with_hash v d c)

  -- A version that validates and hashes comes back with its hash stored, valid and verifiable.
  seal_new_ok : (op : String) (v w : Version) → seal_new lib op v ≡ ok w → IsHashed v w
  unfolding seal_new
  seal_new_ok op v w h =
      let (u, valid, h1) = >>=_ok (validate v) (λ _. hashed lib op v (compute_hash lib v)) w h in
      hashed_ok op v w (compute_hash lib v) valid refl h1

  -- The first version of an artifact is a draft numbered 1 with no predecessor; it is valid and its
  -- content verifies against its recorded hash.
  pub new_version_ok :
      (now : ℕ) (tenant_id project_id artifact_id type content_schema content : String)
      (gen : Generator) (by : String) (v : Version)
      → new_version lib now tenant_id project_id artifact_id type content_schema content gen by
        ≡ ok v
      → (v.version ≡ 1)
        × (v.previous_version ≡ none)
        × (v.status ≡ status_draft)
        × IsValid v
        × (verify lib v ≡ none)
  unfolding new_version
  new_version_ok now tenant_id project_id artifact_id type content_schema content gen by v h =
      let start : Version =
        draft_of now tenant_id project_id artifact_id type content_schema content gen by in
      let (json, h1) = fail_if_ok (not (lib.json_valid start.content)) _ _ v h in
      let (same, valid, verified) = seal_new_ok "artifact.NewVersion" start v h1 in
      (
        ap (λ (x : Version). x.version) same,
        ap (λ (x : Version). x.previous_version) same,
        ap (λ (x : Version). x.status) same,
        valid,
        verified,
      )

  -- A revision is the next draft: numbered one more than its predecessor, which it names, with the
  -- same payload, valid, and verifying against its recorded hash, with no approval carried over.
  pub revise_ok :
      (now : ℕ) (v : Version) (summary by : String) (gen : Generator) (w : Version)
      → revise lib now v summary by gen ≡ ok w
      → (w.version ≡ v.version + 1)
        × (w.previous_version ≡ some v.version)
        × (w.status ≡ status_draft)
        × (w.content ≡ v.content)
        × (w.content_ref ≡ v.content_ref)
        × (w.approval_evidence ≡ none)
        × IsValid w
        × (verify lib w ≡ none)
  unfolding revise
  revise_ok now v summary by gen w h =
      let next : Version = next_of now v summary by gen in
      let (said, h1) = fail_if_ok (trim_space summary == "") _ _ w h in
      let (same, valid, verified) = seal_new_ok "artifact.Revise" next w h1 in
      (
        ap (λ (x : Version). x.version) same,
        ap (λ (x : Version). x.previous_version) same,
        ap (λ (x : Version). x.status) same,
        ap (λ (x : Version). x.content) same,
        ap (λ (x : Version). x.content_ref) same,
        ap (λ (x : Version). x.approval_evidence) same,
        valid,
        verified,
      )

  -- A revision is of the same artifact, with its type and schema.
  pub revise_same_artifact :
      (now : ℕ) (v : Version) (summary by : String) (gen : Generator) (w : Version)
      → revise lib now v summary by gen ≡ ok w
      → (w.tenant_id ≡ v.tenant_id)
        × (w.project_id ≡ v.project_id)
        × (w.artifact_id ≡ v.artifact_id)
        × (w.type ≡ v.type)
        × (w.content_schema ≡ v.content_schema)
  unfolding revise
  revise_same_artifact now v summary by gen w h =
      let next : Version = next_of now v summary by gen in
      let (said, h1) = fail_if_ok (trim_space summary == "") _ _ w h in
      let (same, _, _) = seal_new_ok "artifact.Revise" next w h1 in
      (
        ap (λ (x : Version). x.tenant_id) same,
        ap (λ (x : Version). x.project_id) same,
        ap (λ (x : Version). x.artifact_id) same,
        ap (λ (x : Version). x.type) same,
        ap (λ (x : Version). x.content_schema) same,
      )
