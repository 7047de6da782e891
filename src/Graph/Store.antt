-- ===== src/Graph/Store.antt =====
-- internal/artifactgraph/infra/postgres.go: the tables of artifacts and of their versions, as lists
-- of rows. A write replaces the first row that its WHERE clause matches; the primary keys make it
-- the only one. Of the schema in migrations/0002_artifact_graph.sql the primary keys and the partial
-- unique index are modelled; what else the database may refuse of a write (checks, triggers, a lost
-- connection) is an oracle. Reading decodes what writing encoded, the JSON columns are not modelled,
-- and a read does not fail. The database's clock is the caller's.
pub mod Rows
pub mod Keys
pub mod Approvals
pub mod Writes
use text.Mathlib.Text.{starts_with}
use Prim.Native.String.{[], ◌∷◌}
use specforge.Prelude.{
  ℕ, ◌+◌, String, Bool, true, false, ◌==◌, ◌||◌, ◌&&◌, Option, none, some, List, ◌++◌, Result, ok,
  err, eqb, ltb, if◌then◌else◌, is_none, unless_failed, check, ◌>>=◌, ◌>>◌,
}
use specforge.Errors.{Error, platform, conflict, invalid, forbidden, unavailable, not_found}
use specforge.Fsm.{add_key}
use specforge.Artifact.Version.{Version, status_approved}
use specforge.Artifact.Operations.{Codec, verify}

-- `Artifact` of internal/artifactgraph/domain/artifact.go.
pub record Artifact : Type 0 where
  pub tenant_id : String
  pub project_id : String
  pub id : String
  pub type : String
  pub title : String
  pub current_version : ℕ
  pub status : String
  pub labels : List (String × String)
  pub created_by : String
  pub created_at : ℕ
  pub updated_at : ℕ
  pub version : ℕ

-- What names an artifact in every query.
pub record Key : Type 0 where
  pub tenant_id : String
  pub project_id : String
  pub artifact_id : String

-- What the driver reports of a statement that failed.
pub record Failure : Type 0 where
  pub constraint : Option String
  pub check_violation : Bool
  pub unique_violation : Bool
  pub rls_violation : Bool

-- What the database refuses beyond the keys: the oracle is asked before each write.
pub record Refusals : Type 0 where
  pub create_artifact : List Artifact → Artifact → Option Failure
  pub update_artifact : List Artifact → Artifact → Option Failure
  pub create_version : List Version → Version → Option Failure
  pub update_version : List Version → Version → Option Failure

-- `strings.Contains`
contains : String → String → Bool
contains [] part = starts_with [] part
contains (c ∷ s) part = starts_with (c ∷ s) part || contains s part

-- The switch over the name of the constraint; `none` where no case matches.
constraint_error : String → Option String → Option Error
unfolding contains
constraint_error op none = none
constraint_error op (some c) =
    if contains c "one_approved_per_artifact"
    then some (platform conflict "artifact.already_approved" op)
    else if contains c "approved_requires_evidence"
    then some (platform invalid "artifact.approval_evidence_required" op)
    else if contains c "chain_"
    then some (platform invalid "artifact.chain_invalid" op)
    else if contains c "content_inline_size"
    then some (platform invalid "artifact.content_too_large" op)
    else none

unfoldable pub translate_version_error : String → Failure → Error
unfolding constraint_error
translate_version_error op f = elim (constraint_error op f.constraint) [
  | some e ↦ e
  | none ↦
      if f.check_violation
      then platform conflict "artifact.sealed_immutable" op
      else if f.unique_violation
      then platform conflict "artifact.version_exists" op
      else if f.rls_violation
      then platform forbidden "authz.tenant_mismatch" op
      else platform unavailable "artifact.write_failed" op
]

abbrev pub of_artifact : Key → Version → Bool
of_artifact k v =
    v.tenant_id == k.tenant_id && v.project_id == k.project_id && v.artifact_id == k.artifact_id

abbrev pub key_of : Version → Key
key_of v = record {
  tenant_id = v.tenant_id;
  project_id = v.project_id;
  artifact_id = v.artifact_id;
}

-- The primary key of a row.
abbrev pub is_row : Key → ℕ → Version → Bool
is_row k n v = of_artifact k v && eqb v.version n

unfoldable pub find_version : Key → ℕ → List Version → Option Version
find_version k n List.[] = none
find_version k n (List.◌∷◌ v vs) = if is_row k n v then some v else find_version k n vs

verified : Codec → Version → Result Error Version
verified lib v = do check (verify lib v); ok v

found_version : Codec → Option Version → Result Error Version
unfolding verified
found_version lib none =
    err (platform not_found "artifact.version_not_found" "artifactgraph.GetVersion")
found_version lib (some v) = verified lib v

-- `GetVersion`, which verifies the content hash of what it read.
unfoldable pub get_version : Codec → List Version → Key → ℕ → Result Error Version
unfolding found_version find_version
get_version lib rows k n = found_version lib (find_version k n rows)

abbrev pub is_approved : Version → Bool
is_approved v = v.status == status_approved

unfoldable pub find_approved : Key → List Version → Option Version
find_approved k List.[] = none
find_approved k (List.◌∷◌ v vs) =
    if of_artifact k v && is_approved v then some v else find_approved k vs

-- `ApprovedVersion`; its error for no row, of the kind not found, is `none`.
unfoldable pub approved_version : List Version → Key → Option Version
unfolding find_approved
approved_version rows k = find_approved k rows

-- `Contributors`: the distinct authors, in the order of their first row.
contributors_from : List String → Key → List Version → List String
contributors_from acc k List.[] = acc
contributors_from acc k (List.◌∷◌ v vs) =
    contributors_from (if of_artifact k v then add_key acc v.created_by else acc) k vs

unfoldable pub contributors : List Version → Key → List String
unfolding contributors_from
contributors rows k = contributors_from List.[] k rows

-- The row after `UpdateVersion` wrote `v` over it.
unfoldable pub written : ℕ → Version → Version → Version
written now r v = record r {
  status = v.status;
  content = v.content;
  content_hash = v.content_hash;
  change_summary = v.change_summary;
  generator = v.generator;
  updated_at = now;
  approved_by = v.approved_by;
  approved_at = v.approved_at;
  approval_comment = v.approval_comment;
  approval_evidence = v.approval_evidence;
  sealed_at = v.sealed_at;
  version_no = r.version_no + 1;
}

-- 1 for an approved version of the artifact, 0 for any other row.
abbrev pub approval_of : Key → Version → ℕ
approval_of k v = if of_artifact k v && is_approved v then 1 else 0

-- How many versions of an artifact are approved.
unfoldable pub count_approved : Key → List Version → ℕ
count_approved k List.[] = 0
count_approved k (List.◌∷◌ v rows) = approval_of k v + count_approved k rows

-- The violation of `one_approved_per_artifact`.
abbrev index_violation : Failure
index_violation = record {
  constraint = some "one_approved_per_artifact";
  check_violation = false;
  unique_violation = true;
  rls_violation = false;
}

-- The partial unique index, once `v` is written: no artifact has two approved rows.
unfoldable pub indexed : String → Version → List Version → Result Error (List Version)
unfolding translate_version_error count_approved
indexed op v rows =
    if is_approved v && ltb 1 (count_approved (key_of v) rows)
    then err (translate_version_error op index_violation)
    else ok rows

prepend : Version → Option (List Version) → Option (List Version)
prepend r (some rs) = some (List.◌∷◌ r rs)
prepend r none = none

-- `UPDATE artifact_versions ...`; `none` where no row was affected.
unfoldable pub update_row : ℕ → Version → List Version → Option (List Version)
unfolding prepend
update_row now v List.[] = none
update_row now v (List.◌∷◌ r rs) =
    let rest = prepend r (update_row now v rs) in
    if is_row (key_of v) v.version r
    then (if eqb r.version_no v.version_no then some (List.◌∷◌ (written now r v) rs) else none)
    else rest

abbrev pub stale : String → Error
stale op = platform conflict "concurrency.stale_version" op

updated_rows : Option (List Version) → Result Error (List Version)
updated_rows (some rs) = ok rs
updated_rows none = err (stale "artifactgraph.UpdateVersion")

module _ (db : Refusals) where
  unfoldable pub create_version : List Version → Version → Result Error (List Version)
  unfolding find_version indexed
  create_version rows v =
      unless_failed (db.create_version rows v)
        (translate_version_error "artifactgraph.CreateVersion")
        ((if is_none (find_version (key_of v) v.version rows)
            then ok (rows ++ List.◌∷◌ v List.[])
            else err (platform conflict "artifact.version_exists" "artifactgraph.CreateVersion"))
          >>= indexed "artifactgraph.CreateVersion" v)

  unfoldable pub update_version : ℕ → List Version → Version → Result Error (List Version)
  unfolding update_row updated_rows indexed
  update_version now rows v =
      unless_failed (db.update_version rows v)
        (translate_version_error "artifactgraph.UpdateVersion")
        (updated_rows (update_row now v rows) >>= indexed "artifactgraph.UpdateVersion" v)

abbrev pub is_artifact : Key → Artifact → Bool
is_artifact k a =
    a.tenant_id == k.tenant_id && a.project_id == k.project_id && a.id == k.artifact_id

abbrev pub artifact_key : Artifact → Key
artifact_key a = record { tenant_id = a.tenant_id; project_id = a.project_id; artifact_id = a.id }

unfoldable pub find_artifact : Key → List Artifact → Option Artifact
find_artifact k List.[] = none
find_artifact k (List.◌∷◌ a as') = if is_artifact k a then some a else find_artifact k as'

found_artifact : Option Artifact → Result Error Artifact
found_artifact (some a) = ok a
found_artifact none = err (platform not_found "artifact.not_found" "artifactgraph.GetArtifact")

unfoldable pub get_artifact : List Artifact → Key → Result Error Artifact
unfolding find_artifact found_artifact
get_artifact rows k = found_artifact (find_artifact k rows)

write_artifact : ℕ → Artifact → Artifact → Artifact
write_artifact now r a = record r {
  title = a.title;
  current_version = a.current_version;
  status = a.status;
  labels = a.labels;
  updated_at = now;
  version = r.version + 1;
}

prepend_artifact : Artifact → Result Error (List Artifact) → Result Error (List Artifact)
prepend_artifact r (ok rs) = ok (List.◌∷◌ r rs)
prepend_artifact r (err e) = err e

update_artifact_row : ℕ → Artifact → List Artifact → Result Error (List Artifact)
unfolding write_artifact prepend_artifact
update_artifact_row now a List.[] = err (stale "artifactgraph.UpdateArtifact")
update_artifact_row now a (List.◌∷◌ r rs) =
    let rest = prepend_artifact r (update_artifact_row now a rs) in
    if is_artifact (artifact_key a) r
    then (if eqb r.version a.version
        then ok (List.◌∷◌ (write_artifact now r a) rs)
        else err (stale "artifactgraph.UpdateArtifact"))
    else rest

module _ (db : Refusals) where
  unfoldable pub create_artifact : List Artifact → Artifact → Result Error (List Artifact)
  unfolding find_artifact
  create_artifact rows a =
      unless_failed (db.create_artifact rows a)
        (λ f.
          if f.unique_violation
          then platform conflict "artifact.id_taken" "artifactgraph.CreateArtifact"
          else platform unavailable "artifact.create_failed" "artifactgraph.CreateArtifact")
        (if is_none (find_artifact (artifact_key a) rows)
          then ok (rows ++ List.◌∷◌ a List.[])
          else err (platform conflict "artifact.id_taken" "artifactgraph.CreateArtifact"))

  unfoldable pub update_artifact : ℕ → List Artifact → Artifact → Result Error (List Artifact)
  unfolding update_artifact_row
  update_artifact now rows a =
      unless_failed (db.update_artifact rows a)
        (λ f. platform unavailable "artifact.update_failed" "artifactgraph.UpdateArtifact")
        (update_artifact_row now a rows)
