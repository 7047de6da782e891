-- ===== src/Artifact/Operations.antt =====
-- internal/artifactgraph/domain/artifact.go and internal/platform/hash/hash.go: hashing, verifying,
-- editing, revising and sealing a version. A method that mutates the version returns it, changed as
-- far as it got, beside the error. `now` is what `types.Now()` reads.
pub mod Laws
pub mod Sealing
pub mod Editing
use Prim.Native.String.{len, ◌++◌}
use specforge.Prelude.{
  ℕ, suc, ◌+◌, ◌-◌, ◌%◌, String, Bool, true, false, ◌==◌, ◌&&◌, ◌||◌, not, Option, none, some,
  Result, ok, err, ◌>>=◌, ◌>>◌, fail_if, eqb, if◌then◌else◌,
}
use specforge.Text.{trim_space}
use specforge.Types.{default_content_schema}
use specforge.Errors.{Error, platform, wrapped, internal, conflict, tampered}
use specforge.Artifact.Version.{
  Version, Generator, ApprovalEvidence, CanonicalEnvelope, canonical_envelope, validate,
  evidence_valid, bad, is_sealed, status_draft, status_approved,
}

-- What the program takes from the libraries: the validity test of encoding/json, the canonical
-- bytes of an envelope, or the error of producing them, and the digest of SHA-256 in hexadecimal.
pub record Codec : Type 0 where
  pub json_valid : String → Bool
  pub canonicalize : CanonicalEnvelope → Result Error String
  pub sha256_hex : String → String

-- `types.NormalizeTime`: whole microseconds.
abbrev pub normalize_time : ℕ → ℕ
normalize_time t = t - t % 1000

unfoldable pub sealed : Version → Bool
sealed v = is_sealed v.status

unfoldable pub mutable : Version → Bool
mutable v = v.status == status_draft

abbrev pub hash_failed : String → Error
hash_failed op = platform internal "artifact.hash_failed" op

unfoldable pub draft_of :
    ℕ
    → (tenant_id project_id artifact_id type content_schema content : String) → Generator
    → String
    → Version
draft_of now tenant_id project_id artifact_id type content_schema content gen by = record {
  tenant_id = tenant_id;
  project_id = project_id;
  artifact_id = artifact_id;
  version = 1;
  type = type;
  status = status_draft;
  content_schema = if content_schema == "" then default_content_schema type else content_schema;
  content = if eqb (len content) 0 then "{}" else content;
  content_ref = "";
  content_hash = "";
  parent_artifact = none;
  source_artifact = none;
  previous_version = none;
  change_summary = "";
  generator = gen;
  created_by = by;
  created_at = now;
  updated_at = now;
  approved_by = none;
  approved_at = none;
  approval_comment = "";
  approval_evidence = none;
  sealed_at = none;
  version_no = 1;
}

unfoldable pub next_of : ℕ → Version → String → String → Generator → Version
next_of now v change_summary by gen = record v {
  version = v.version + 1;
  status = status_draft;
  content_hash = "";
  previous_version = some v.version;
  change_summary = change_summary;
  generator = gen;
  created_by = by;
  created_at = now;
  updated_at = now;
  approved_by = none;
  approved_at = none;
  approval_comment = "";
  approval_evidence = none;
  sealed_at = none;
  version_no = 1;
}

unfoldable pub approved_of : Version → String → String → ApprovalEvidence → ℕ → Version
approved_of v approver comment evidence now = record v {
  status = status_approved;
  approved_by = some approver;
  approved_at = some now;
  approval_comment = comment;
  approval_evidence = some evidence;
  sealed_at = some now;
  updated_at = now;
}

abbrev pub error_of : Result Error (Unit {0}) → Option Error
error_of (ok u) = none
error_of (err e) = some e

module _ (lib : Codec) where
  -- `hash.ContentOfBytes`
  unfoldable pub content_of_bytes : String → String
  content_of_bytes canonical = "sha256:" ++ lib.sha256_hex canonical

  -- `hash.Content` of the envelope.
  unfoldable pub compute_hash : Version → Result Error String
  unfolding content_of_bytes
  compute_hash v = elim (lib.canonicalize (canonical_envelope v)) [
    | ok canonical ↦ ok (content_of_bytes canonical)
    | err e ↦ err (wrapped e)
  ]

  abbrev verify_hash : Version → Result Error String → Option Error
  verify_hash v (err e) = some (hash_failed "artifact.Verify")
  verify_hash v (ok got) =
      if got == v.content_hash
      then none
      else some (platform tampered "artifact.integrity_violation" "artifact.Verify")

  unfoldable pub verify : Version → Option Error
  verify v = verify_hash v (compute_hash v)

  abbrev pub rehash : String → Version → Result Error String → Version × Option Error
  rehash op v (err e) = (v, some (hash_failed op))
  rehash op v (ok h) = (record v { content_hash = h }, none)

  unfoldable pub set_content : ℕ → Version → String → Version × Option Error
  set_content now v content =
      if not (mutable v)
      then (v, some (platform conflict "artifact.sealed_immutable" "artifact.SetContent"))
      else if not (lib.json_valid content)
      then (v, some (bad "artifact.content_invalid" "artifact.SetContent"))
      else let edited = record v { content = content; updated_at = now } in
        rehash "artifact.SetContent" edited (compute_hash edited)

  -- The end of `NewVersion` and of `Revise`: validate, hash, and store the hash.
  abbrev pub hashed : String → Version → Result Error String → Result Error Version
  hashed op v (err e) = err (hash_failed op)
  hashed op v (ok h) = ok (record v { content_hash = h })

  pub seal_new : String → Version → Result Error Version
  seal_new op v = do validate v; hashed op v (compute_hash v)

  unfoldable pub new_version :
      ℕ
      → (tenant_id project_id artifact_id type content_schema content : String) → Generator
      → String
      → Result Error Version
  unfolding seal_new draft_of
  new_version now tenant_id project_id artifact_id type content_schema content gen by =
      let v = draft_of now tenant_id project_id artifact_id type content_schema content gen by in
      (do
        fail_if (not (lib.json_valid v.content))
            (bad "artifact.content_invalid" "artifact.NewVersion")
        seal_new "artifact.NewVersion" v)

  unfoldable pub revise : ℕ → Version → String → String → Generator → Result Error Version
  unfolding seal_new next_of
  revise now v change_summary by gen = do
    fail_if (trim_space change_summary == "")
        (bad "artifact.change_summary_required" "artifact.Revise")
    seal_new "artifact.Revise" (next_of now v change_summary by gen)

  -- From `v.ComputeHash()` on; `before` is the hash that the version came with.
  pub finish_seal : String → Version → Result Error String → Version × Option Error
  finish_seal before v (err e) = (v, some (hash_failed "artifact.SealApproval"))
  finish_seal before v (ok after) =
      if not (before == "") && not (after == before)
      then (v, some (platform internal "artifact.hash_unstable" "artifact.SealApproval"))
      else let v' = record v { content_hash = after } in (v', error_of (validate v'))

  unfoldable pub seal_approval :
      Version → String → String → ApprovalEvidence → ℕ → Version × Option Error
  unfolding finish_seal approved_of
  seal_approval v approver comment evidence at =
      if trim_space comment == ""
      then (v, some (bad "artifact.approval_comment_required" "artifact.SealApproval"))
      else if not (evidence_valid evidence)
      then (v, some (bad "artifact.approval_evidence_required" "artifact.SealApproval"))
      else if eqb (normalize_time at) 0
      then (v, some (bad "artifact.approval_time_required" "artifact.SealApproval"))
      else let v' = approved_of v approver comment evidence (normalize_time at) in
        finish_seal v.content_hash v' (compute_hash v')
