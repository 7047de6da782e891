-- ===== src/Graph/Approval/Refinement.antt =====
-- The transaction of `Approve` of internal/artifactgraph/app/service.go as steps of the table of
-- versions: the end of the version that was approved before.
use mathlib.Core.Path.{subst}
use specforge.Prelude.{
  ℕ, ◌≡◌, refl, ap, Option, none, some, List, ok, >>=_ok, ok-injective, ==→eq, Bool-cases, inl, inr,
  eqb, &&_true,
}
use specforge.Authz.Principal.{Principal}
use specforge.Artifact.Version.{Version, canonical_envelope, status_approved, status_superseded}
use specforge.Artifact.Operations.{Codec}
use specforge.Graph.Store.{
  Key, Refusals, of_artifact, is_approved, find_approved, update_version, written,
}
use specforge.Graph.Store.Rows.{SameRow}
use specforge.Graph.Store.Keys.{IsKeyed}
use specforge.Graph.Store.Approvals.{find_approved-approved, find_approved-keyed}
use specforge.Graph.Store.Writes.{IsSnapshot, update_version_ok, update_version_fresh}
use specforge.Graph.Service.{Env, Surroundings, emit}
use specforge.Graph.Lifecycle.{superseded, changed, Steps, here, next}
use specforge.Graph.Approval.{supersede_prior}

module _ (db : Refusals) (k : Key) (seen rows : List Version) (keyed : IsKeyed seen)
    (snap : IsSnapshot seen rows) where
  -- The row that is ended is the one that was read as approved.
  superseded-Steps :
      (now : ℕ) (p : Version) (rows' : List Version)
      → find_approved k seen ≡ some p
      → update_version db now rows (record p { status = status_superseded }) ≡ ok rows'
      → Steps rows rows'
  unfolding written canonical_envelope
  superseded-Steps now p rows' a h =
      let w : Version = record p { status = status_superseded } in
      let place : SameRow p w = (refl, refl) in
      let (ours, approved_before) =
        &&_true (of_artifact k p) (is_approved p) (find_approved-approved k seen p a) in
      let stands =
        update_version_fresh db now seen rows p w rows' snap (find_approved-keyed k seen p keyed a)
          place refl h in
      next here (
        changed p (written now p w) stands (refl, refl) refl refl
          (superseded (==→eq p.status status_approved approved_before) refl (refl, refl)
            (refl, refl, refl, refl, refl))
          (update_version_ok db now p w rows rows' place stands h))

  module _ (lib : Codec) {X O : Type 0} (world : Surroundings X O) (env : Env) (actor : Principal)
      (n : ℕ) where
    -- What is written before the sealing.
    pub supersede_prior-Steps :
        (x : X) (o : Option Version) (moved : List Version × X)
        → find_approved k seen ≡ o
        → supersede_prior db lib world env actor n rows x o ≡ ok moved
        → Steps rows moved.0
    unfolding supersede_prior
    supersede_prior-Steps x none moved a h =
        subst (Steps rows)
          (ap (λ (p : List Version × X). p.0)
            (ok-injective {A = List Version × X} (rows, x) moved h))
          here
    supersede_prior-Steps x (some p) moved a h = elim (Bool-cases (eqb p.version n)) [
      | inl same ↦
          subst (Steps rows)
            (ap (λ (p : List Version × X). p.0)
              (ok-injective {A = List Version × X} (rows, x) moved (rw same at h)))
            here
      | inr other ↦
          let w : Version = record p { status = status_superseded } in
          let (rows1, updated, h1) =
            >>=_ok (update_version db env.now rows w) _ moved (rw other at h) in
          let (x1, _, h2) =
            >>=_ok (emit lib world env 1 actor w "artifact.superseded" x) _ moved h1 in
          subst (Steps rows)
            (ap (λ (p : List Version × X). p.0)
              (ok-injective {A = List Version × X} (rows1, x1) moved h2))
            (superseded-Steps env.now p rows1 a updated)
    ]
