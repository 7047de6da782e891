-- ===== src/Graph/Store/Writes.antt =====
-- The statements of internal/artifactgraph/infra/postgres.go that succeed.
use mathlib.Core.Path.{subst}
use specforge.Prelude.{
  ℕ, ◌≡◌, refl, sym, ap, true, false, Option, none, some, List, [], ◌∷◌, ◌++◌, ok, ok-injective,
  is_none, arith, check_ok, unless_failed_ok, then_ok, ◌≤◌, ◌<◌, ◌⊎◌, inl, inr, ◌∙◌, Bool-cases,
  ◌&&◌, ltb, String, >>=_ok, if◌then◌else◌,
}
use specforge.Artifact.Version.{Version, canonical_envelope}
use specforge.Artifact.Operations.{Codec, verify}
use specforge.Graph.Store.{
  Key, Refusals, key_of, find_version, verified, found_version, get_version, update_row,
  updated_rows, create_version, update_version, written, indexed, is_approved, count_approved,
}
use specforge.Graph.Store.Rows.{
  Replaced, SameRow, update_row-Replaced, update_row-number, find_version_self,
}

module _ (lib : Codec) where
  found_version_ok :
      (o : Option Version) (v : Version)
      → found_version lib o ≡ ok v
      → (o ≡ some v) × (verify lib v ≡ none)
  unfolding found_version verified
  found_version_ok none v h = cc
  found_version_ok (some r) v h =
      let (whole, done) = check_ok (verify lib r) (ok r) v h in
      let same = ok-injective r v done in
      (ap some same, subst (λ x. verify lib x ≡ none) same whole)

  -- A version that was read stands in the table under its key, and verifies.
  pub get_version_ok :
      (rows : List Version) (k : Key) (n : ℕ) (v : Version)
      → get_version lib rows k n ≡ ok v
      → (find_version k n rows ≡ some v)
        × (find_version (key_of v) v.version rows ≡ some v)
        × (verify lib v ≡ none)
  unfolding get_version
  get_version_ok rows k n v h =
      let (found, whole) = found_version_ok (find_version k n rows) v h in
      (found, find_version_self k n rows v found, whole)

updated_rows_ok :
    (o : Option (List Version)) (rows : List Version) → updated_rows o ≡ ok rows → o ≡ some rows
unfolding updated_rows
updated_rows_ok none rows h = cc
updated_rows_ok (some r) rows h = ap some (ok-injective r rows h)

none_of {ℓ} : {A : Type ℓ} (o : Option A) → is_none o ≡ true → o ≡ none
none_of none h = refl
none_of (some a) h = cc

indexed_ok :
    (op : String) (v : Version) (rows rows' : List Version)
    → indexed op v rows ≡ ok rows'
    → (rows ≡ rows') × (is_approved v ≡ true → count_approved (key_of v) rows' ≤ 1)
unfolding indexed
indexed_ok op v rows rows' h =
    elim (Bool-cases (is_approved v && ltb 1 (count_approved (key_of v) rows))) [
      | inl e ↦ cc (rw e at h)
      | inr e ↦
          let same = ok-injective rows rows' (rw e at h) in
          (
            same,
            λ a.
                let few : ltb 1 (count_approved (key_of v) rows) ≡ false = rw a at e in
                subst (λ x. count_approved (key_of v) x ≤ 1) same (ground (arith, few)),
          )
    ]

-- The rows of a table are still there in a later one: unchanged, or with a higher number.
abbrev pub IsSnapshot : List Version → List Version → Type 0
IsSnapshot seen rows =
    (k : Key) (n : ℕ) (v : Version)
    → find_version k n seen ≡ some v
    → (w : Version) × (find_version k n rows ≡ some w) × ((v ≡ w) ⊎ (v.version_no < w.version_no))

pub IsSnapshot-refl : (rows : List Version) → IsSnapshot rows rows
IsSnapshot-refl rows k n v f = (v, f, inl refl)

pub IsSnapshot-trans : (a b c : List Version) → IsSnapshot a b → IsSnapshot b c → IsSnapshot a c
IsSnapshot-trans a b c h g k n v f =
    let (w, found, first) = h k n v f in
    let (x, at, second) = g k n w found in
    (
      x,
      at,
      elim first [
        | inl e ↦ subst (λ y. (y ≡ x) ⊎ (y.version_no < x.version_no)) (sym e) second
        | inr lt ↦ elim second [
          | inl e ↦ inr (subst (λ y. v.version_no < y.version_no) e lt)
          | inr lt' ↦ inr (omega (arith, lt, lt'))
        ]
      ],
    )

module _ (db : Refusals) where
  updated_ok :
      (now : ℕ) (w : Version) (rows rows' : List Version)
      → update_version db now rows w ≡ ok rows'
      → (update_row now w rows ≡ some rows')
        × (is_approved w ≡ true → count_approved (key_of w) rows' ≤ 1)
  unfolding update_version
  updated_ok now w rows rows' h =
      let (accepted, h1) = unless_failed_ok (db.update_version rows w) _ _ rows' h in
      let (tail, done, h2) = >>=_ok (updated_rows (update_row now w rows)) _ rows' h1 in
      let (same, few) = indexed_ok "artifactgraph.UpdateVersion" w tail rows' h2 in
      (updated_rows_ok (update_row now w rows) tail done ∙ ap some same, few)

  -- An update that succeeds writes over the very row that the caller had read, however long ago.
  pub update_version_fresh :
      (now : ℕ) (seen rows : List Version) (v w : Version) (rows' : List Version)
      → IsSnapshot seen rows
      → find_version (key_of v) v.version seen ≡ some v
      → SameRow v w
      → w.version_no ≡ v.version_no
      → update_version db now rows w ≡ ok rows'
      → find_version (key_of v) v.version rows ≡ some v
  update_version_fresh now seen rows v w rows' snap f s n h =
      let (r, found, alt) = snap (key_of v) v.version v f in
      let found' : find_version (key_of w) w.version rows ≡ some r =
        ap (λ k. find_version k w.version rows) s.0
        ∙ ap (λ x. find_version (key_of v) x rows) s.1
        ∙ found in
      let number = update_row-number now w r rows rows' found' (updated_ok now w rows rows' h).0 in
      elim alt [ inl e ↦ found ∙ ap some (sym e) | inr lt ↦ absurd (omega (arith, lt, number, n)) ]

  -- An update to an approved version that succeeds leaves one approved version of the artifact.
  pub update_version_single :
      (now : ℕ) (w : Version) (rows rows' : List Version)
      → update_version db now rows w ≡ ok rows'
      → is_approved w ≡ true
      → count_approved (key_of w) rows' ≤ 1
  update_version_single now w rows rows' h = (updated_ok now w rows rows' h).1

  -- An update that succeeds replaced the row.
  pub update_version_ok :
      (now : ℕ) (v w : Version) (rows rows' : List Version)
      → SameRow v w
      → find_version (key_of v) v.version rows ≡ some v
      → update_version db now rows w ≡ ok rows'
      → Replaced v (written now v w) rows rows'
  update_version_ok now v w rows rows' s f h =
      update_row-Replaced now v w rows rows' s.0 s.1 f (updated_ok now w rows rows' h).0

  -- An insertion that succeeds was of a new key, and added the row.
  pub create_version_ok :
      (rows : List Version) (w : Version) (rows' : List Version)
      → create_version db rows w ≡ ok rows'
      → (find_version (key_of w) w.version rows ≡ none) × (rows' ≡ rows ++ w ∷ [])
  unfolding create_version
  create_version_ok rows w rows' h =
      let (accepted, h1) = unless_failed_ok (db.create_version rows w) _ _ rows' h in
      let (added, inserted, h2) =
        >>=_ok (if is_none (find_version (key_of w) w.version rows) then ok (rows ++ w ∷ []) else _)
          _ rows' h1 in
      let (same, _) = indexed_ok "artifactgraph.CreateVersion" w added rows' h2 in
      let (free, done) =
        then_ok (is_none (find_version (key_of w) w.version rows)) (ok (rows ++ w ∷ [])) _ added
          inserted in
      (
        none_of (find_version (key_of w) w.version rows) free,
        sym (ok-injective (rows ++ w ∷ []) added done ∙ same),
      )

-- Where the version written has the body of the row, the row keeps it.
pub canonical_envelope-written :
    (now : ℕ) (v w : Version)
    → canonical_envelope w ≡ canonical_envelope v
    → canonical_envelope (written now v w) ≡ canonical_envelope v
unfolding canonical_envelope written
canonical_envelope-written now v w h = ground arith
