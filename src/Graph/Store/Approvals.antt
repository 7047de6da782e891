-- ===== src/Graph/Store/Approvals.antt =====
-- The approved rows among the versions of internal/artifactgraph/infra/postgres.go.
use specforge.Prelude.{
  ◌+◌, ◌≤◌, ◌≡◌, refl, true, ◌&&◌, none, some, List, [], ◌∷◌, ◌++◌, arith, Bool-cases, inl, inr,
  some-injective,
}
use mathlib.Core.Path.{subst}
use specforge.Artifact.Version.{Version}
use specforge.Graph.Store.{
  Key, key_of, is_row, of_artifact, is_approved, find_version, find_approved, approval_of,
  count_approved,
}
use specforge.Graph.Store.Rows.{Replaced, at_head, further, row_self, row_key}
use specforge.Graph.Store.Keys.{IsKeyed}

pub approval_of-le : (k : Key) (v : Version) → approval_of k v ≤ 1
approval_of-le k v = ground arith

-- No artifact has two approved versions.
abbrev pub IsSingle : List Version → Type 0
IsSingle rows = (k : Key) → count_approved k rows ≤ 1

pub count_approved-append :
    (k : Key) (rows : List Version) (w : Version)
    → count_approved k (rows ++ w ∷ []) ≡ count_approved k rows + approval_of k w
unfolding count_approved
count_approved-append k [] w = omega arith
count_approved-append k (r ∷ rows) w = omega (arith, count_approved-append k rows w)

pub count_approved-Replaced :
    (k : Key) (v w : Version) {rows rows' : List Version}
    → Replaced v w rows rows'
    → count_approved k rows' + approval_of k v ≡ count_approved k rows + approval_of k w
unfolding count_approved
count_approved-Replaced k v w (at_head rows) = omega arith
count_approved-Replaced k v w (further r d p) = omega (arith, count_approved-Replaced k v w p)

-- Where the search finds no approved version there is none.
pub count_approved-none :
    (k : Key) (rows : List Version) → find_approved k rows ≡ none → count_approved k rows ≡ 0
unfolding find_approved count_approved
count_approved-none k [] h = refl
count_approved-none k (r ∷ rows) h = elim (Bool-cases (of_artifact k r && is_approved r)) [
  | inl e ↦ cc (rw e at h)
  | inr e ↦ rw e (omega (arith, count_approved-none k rows (rw e at h)))
]

pub find_approved-approved :
    (k : Key) (rows : List Version) (v : Version)
    → find_approved k rows ≡ some v
    → (of_artifact k v && is_approved v) ≡ true
unfolding find_approved
find_approved-approved k [] v h = cc
find_approved-approved k (r ∷ rows) v h = elim (Bool-cases (of_artifact k r && is_approved r)) [
  | inl e ↦
      subst (λ x. (of_artifact k x && is_approved x) ≡ true) (some-injective r v (rw e at h)) e
  | inr e ↦ find_approved-approved k rows v (rw e at h)
]

-- The approved version that is found is the row under its key.
pub find_approved-keyed :
    (k : Key) (rows : List Version) (v : Version)
    → IsKeyed rows
    → find_approved k rows ≡ some v
    → find_version (key_of v) v.version rows ≡ some v
unfolding find_approved find_version
find_approved-keyed k [] v d h = cc
find_approved-keyed k (r ∷ rows) v d h = elim (Bool-cases (of_artifact k r && is_approved r)) [
  | inl e ↦
      subst (λ x. find_version (key_of x) x.version (r ∷ rows) ≡ some x)
        (some-injective r v (rw e at h)) (rw (row_self r) refl)
  | inr e ↦
      let found = find_approved-keyed k rows v d.1 (rw e at h) in
      elim (Bool-cases (is_row (key_of v) v.version r)) [
        | inr other ↦ rw other found
        | inl same ↦ let (k', n) = row_key (key_of v) v.version r same in cc (k', n, d.0, found)
      ]
]
