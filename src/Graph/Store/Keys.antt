-- ===== src/Graph/Store/Keys.antt =====
-- The primary key of the table of versions of internal/artifactgraph/infra/postgres.go.
use specforge.Prelude.{
  ℕ, ◌≡◌, refl, sym, ap, ◌∙◌, false, ◌&&◌, none, some, List, [], ◌∷◌, ◌++◌, eqb, if◌then◌else◌,
  Bool-cases, inl, inr,
}
use specforge.Artifact.Version.{Version}
use specforge.Graph.Store.{Key, key_of, is_row, of_artifact, find_version}
use specforge.Graph.Store.Rows.{Replaced, at_head, further, SameRow, same_test, row_self, row_key}

-- No two rows have one key.
abbrev pub IsKeyed : List Version → Type 0
IsKeyed [] = Unit
IsKeyed (r ∷ rows) = (find_version (key_of r) r.version rows ≡ none) × IsKeyed rows

-- A row keeps its key when it is replaced.
pub same_place : (k : Key) (n : ℕ) (v w : Version) → SameRow v w → is_row k n w ≡ is_row k n v
same_place k n v w s =
    ap
      (λ (x : Key).
        of_artifact k (record v {
          tenant_id = x.tenant_id;
          project_id = x.project_id;
          artifact_id = x.artifact_id;
        })
        && eqb w.version n)
      s.0
    ∙ ap (λ x. of_artifact k v && eqb x n) s.1

find_none-Replaced :
    (k : Key) (n : ℕ) (v w : Version) {rows rows' : List Version}
    → SameRow v w
    → Replaced v w rows rows'
    → find_version k n rows ≡ none
    → find_version k n rows' ≡ none
unfolding find_version
find_none-Replaced k n v w s (at_head rows) h = elim (Bool-cases (is_row k n v)) [
  | inl e ↦ cc (rw e at h)
  | inr e ↦ rw (same_place k n v w s ∙ e) (rw e at h)
]
find_none-Replaced k n v w s (further r {rows} {rows'} d p) h = elim (Bool-cases (is_row k n r)) [
  | inl e ↦ cc (rw e at h)
  | inr e ↦ rw e (find_none-Replaced k n v w s p (rw e at h))
]

-- The row that was replaced is found under its key.
pub find_version-Replaced :
    (v w : Version) {rows rows' : List Version}
    → SameRow v w
    → Replaced v w rows rows'
    → find_version (key_of v) v.version rows' ≡ some w
unfolding find_version
find_version-Replaced v w s (at_head rows) =
    rw (same_place (key_of v) v.version v w s ∙ row_self v) refl
find_version-Replaced v w s (further r d p) = rw d (find_version-Replaced v w s p)

pub find_version-other :
    (k : Key) (n : ℕ) (v w : Version) {rows rows' : List Version}
    → SameRow v w
    → is_row k n v ≡ false
    → Replaced v w rows rows'
    → find_version k n rows' ≡ find_version k n rows
unfolding find_version
find_version-other k n v w s e (at_head rows) = rw (same_place k n v w s ∙ e, e) refl
find_version-other k n v w s e (further r d p) =
    ap (λ x. if is_row k n r then some r else x) (find_version-other k n v w s e p)

pub IsKeyed-Replaced :
    (v w : Version) {rows rows' : List Version}
    → SameRow v w
    → Replaced v w rows rows'
    → IsKeyed rows
    → IsKeyed rows'
IsKeyed-Replaced v w s (at_head rows) h = (cc (s.0, s.1, h.0), h.1)
IsKeyed-Replaced v w s (further r d p) h =
    (find_none-Replaced (key_of r) r.version v w s p h.0, IsKeyed-Replaced v w s p h.1)

find_none-append :
    (k : Key) (n : ℕ) (w : Version) (rows : List Version)
    → find_version k n rows ≡ none
    → is_row k n w ≡ false
    → find_version k n (rows ++ w ∷ []) ≡ none
unfolding find_version
find_none-append k n w [] h e = rw e refl
find_none-append k n w (r ∷ rows) h e = elim (Bool-cases (is_row k n r)) [
  | inl t ↦ cc (rw t at h)
  | inr t ↦ rw t (find_none-append k n w rows (rw t at h) e)
]

-- Being the row of another is symmetric.
not_row_of :
    (r w : Version) → is_row (key_of w) w.version r ≡ false → is_row (key_of r) r.version w ≡ false
not_row_of r w h = elim (Bool-cases (is_row (key_of r) r.version w)) [
  | inr e ↦ e
  | inl e ↦
      let (k, n) = row_key (key_of r) r.version w e in
      cc (sym (same_test r w r k n) ∙ h, row_self r)
]

pub IsKeyed-append :
    (w : Version) (rows : List Version)
    → find_version (key_of w) w.version rows ≡ none
    → IsKeyed rows
    → IsKeyed (rows ++ w ∷ [])
unfolding find_version
IsKeyed-append w [] h k = (refl, tt)
IsKeyed-append w (r ∷ rows) h k = elim (Bool-cases (is_row (key_of w) w.version r)) [
  | inl e ↦ cc (rw e at h)
  | inr e ↦ (
    find_none-append (key_of r) r.version w rows k.0 (not_row_of r w e),
    IsKeyed-append w rows (rw e at h) k.1,
  )
]
