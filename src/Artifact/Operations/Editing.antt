-- ===== src/Artifact/Operations/Editing.antt =====
-- `SetContent` and chains of `Revise` of internal/artifactgraph/domain/artifact.go.
use mathlib.Core.Path.{subst}
use specforge.Prelude.{
  ℕ, suc, ◌+◌, ◌≡◌, ◌≢◌, refl, ap, String, true, ◌==◌, Option, none, some, Result, ok, err, List,
  [], ◌∷◌, Bool-cases, inl, inr, ==→eq, ne→==, ok-injective, ◌>>=◌, >>=_ok, length,
}
use specforge.Errors.{Error, platform, conflict}
use specforge.Artifact.Version.{Version, Generator, status_draft}
use specforge.Artifact.Version.Laws.{IsValid}
use specforge.Artifact.Operations.{
  Codec, compute_hash, verify, set_content, mutable, rehash, revise,
}
use specforge.Artifact.Operations.Laws.{verify-with_hash, revise_ok, revise_same_artifact}

module _ (lib : Codec) where
  abbrev edited : ℕ → Version → String → Version
  edited now v content = record v { content = content; updated_at = now }

  -- An edit that succeeds was of a draft, and of a valid document; it changes the payload, the time
  -- of update and the recorded hash, and nothing else, and the version verifies.
  abbrev pub IsEdit : ℕ → Version → String → Version → Type 0
  IsEdit now v content w =
      (v.status ≡ status_draft)
      × (lib.json_valid content ≡ true)
      × (w ≡ record v { content = content; updated_at = now; content_hash = w.content_hash })
      × (verify lib w ≡ none)

  rehash_ok :
      (op : String) (v w : Version) (r : Result Error String)
      → compute_hash lib v ≡ r
      → rehash lib op v r ≡ (w, none)
      → (w ≡ record v { content_hash = w.content_hash }) × (verify lib w ≡ none)
  rehash_ok op v w (err e) c h = cc
  rehash_ok op v w (ok d) c h =
      subst
        (λ (x : Version). (x ≡ record v { content_hash = x.content_hash }) × (verify lib x ≡ none))
        (ap (λ (x : Version × Option Error). x.0) h) (refl, verify-with_hash lib v d c)

  -- An edit of a version that is not a draft is refused as a conflict and changes nothing; one that
  -- succeeds was of a draft and a valid document, changes the payload, the time of update and the
  -- recorded hash only, and leaves a version that verifies.
  pub set_content_cases :
      (now : ℕ) (v : Version) (content : String)
      → (v.status ≢ status_draft
          → set_content lib now v content
            ≡ (v, some (platform conflict "artifact.sealed_immutable" "artifact.SetContent")))
        × ((w : Version) → set_content lib now v content ≡ (w, none) → IsEdit now v content w)
  unfolding set_content mutable
  set_content_cases now v content = (
    λ n. rw (ne→== v.status status_draft n) refl,
    λ w h. elim (Bool-cases (v.status == status_draft)) [
      | inr shut ↦ cc (rw shut at h)
      | inl draft ↦ elim (Bool-cases (lib.json_valid content)) [
        | inr bad ↦ cc (rw (draft, bad) at h)
        | inl json ↦
            let (same, verified) =
              rehash_ok "artifact.SetContent" (edited now v content) w
                (compute_hash lib (edited now v content)) refl (rw (draft, json) at h) in
            (==→eq v.status status_draft draft, json, same, verified)
      ]
    ],
  )

  -- One call of `Revise`.
  pub record Revision : Type 0 where
    pub now : ℕ
    pub summary : String
    pub by : String
    pub generator : Generator

  -- The history that revisions build, each of the version before it.
  unfoldable pub revise_all : Version → List Revision → Result Error (List Version)
  revise_all v [] = ok []
  revise_all v (r ∷ rs) = do
    w ← revise lib r.now v r.summary r.by r.generator
    rest ← revise_all w rs
    ok (w ∷ rest)

  -- The artifact, what it is and what it says.
  pub record SameContent (v w : Version) : Type 0 where
    pub tenant : w.tenant_id ≡ v.tenant_id
    pub project : w.project_id ≡ v.project_id
    pub artifact : w.artifact_id ≡ v.artifact_id
    pub type : w.type ≡ v.type
    pub schema : w.content_schema ≡ v.content_schema
    pub content : w.content ≡ v.content
    pub reference : w.content_ref ≡ v.content_ref

  -- A draft that follows the version before it without a gap, with its identity and content and no
  -- evidence of approval, valid and verifying.
  pub record IsRevision (v w : Version) : Type 0 where
    pub number : w.version ≡ v.version + 1
    pub previous : w.previous_version ≡ some v.version
    pub draft : w.status ≡ status_draft
    pub same : SameContent v w
    pub unapproved : w.approval_evidence ≡ none
    pub valid : IsValid w
    pub verified : verify lib w ≡ none

  abbrev pub IsHistory : Version → List Version → Type 0
  IsHistory v [] = Unit {0}
  IsHistory v (w ∷ ws) = IsRevision v w × IsHistory w ws

  revise-IsRevision :
      (v w : Version) (r : Revision)
      → revise lib r.now v r.summary r.by r.generator ≡ ok w
      → IsRevision v w
  revise-IsRevision v w r h =
      let (number, previous, status, content, reference, evidence, valid, verified) =
        revise_ok lib r.now v r.summary r.by r.generator w h in
      let (tenant, project, artifact, type, schema) =
        revise_same_artifact lib r.now v r.summary r.by r.generator w h in
      record {
        number = number;
        previous = previous;
        draft = status;
        same = record {
          tenant = tenant;
          project = project;
          artifact = artifact;
          type = type;
          schema = schema;
          content = content;
          reference = reference;
        };
        unapproved = evidence;
        valid = valid;
        verified = verified;
      }

  -- Any run of revisions that succeeds gives one version for each revision, numbered without a gap:
  -- each is a valid draft with no evidence of approval that names its predecessor, keeps its tenant,
  -- project, identifier, type, schema and content, and verifies against its recorded hash.
  pub revise_all-IsHistory :
      (v : Version) (rs : List Revision) (ws : List Version)
      → revise_all v rs ≡ ok ws
      → IsHistory v ws × (length ws ≡ length rs)
  unfolding revise_all
  revise_all-IsHistory v [] [] h = (tt, refl)
  revise_all-IsHistory v [] (w ∷ ws) h = cc
  revise_all-IsHistory v (r ∷ rs) ws h =
      let (w, first, h1) =
        >>=_ok (revise lib r.now v r.summary r.by r.generator)
          (λ w. do rest ← revise_all w rs; ok (w ∷ rest)) ws h in
      let (rest, others, h2) = >>=_ok (revise_all w rs) (λ rest. ok (w ∷ rest)) ws h1 in
      let (chain, size) = revise_all-IsHistory w rs rest others in
      subst (λ l. IsHistory v l × (length l ≡ length (r ∷ rs))) (ok-injective (w ∷ rest) ws h2)
        ((revise-IsRevision v w r first, chain), ap suc size)
