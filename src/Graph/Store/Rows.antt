-- ===== src/Graph/Store/Rows.antt =====
-- The table of versions of internal/artifactgraph/infra/postgres.go: how rows are found and
-- replaced.
use specforge.Prelude.{
  ℕ, ◌≡◌, refl, sym, ap, ◌∙◌, Bool, true, false, Option, none, some, List, [], ◌∷◌, arith, eqb,
  if◌then◌else◌, Bool-cases, inl, inr, eq_iff, eq_refl, some-injective,
}
use mathlib.Core.Path.{subst}
use specforge.Artifact.Version.{Version}
use specforge.Graph.Store.{
  Key, key_of, is_row, of_artifact, find_version, written, update_row, prepend,
}

pub artifact_key : (k : Key) (v : Version) → of_artifact k v ≡ true → key_of v ≡ k
artifact_key k v h = ground (
  arith,
  eq_iff v.tenant_id k.tenant_id,
  eq_iff v.project_id k.project_id,
  eq_iff v.artifact_id k.artifact_id,
)

pub row_key :
    (k : Key) (n : ℕ) (v : Version) → is_row k n v ≡ true → (key_of v ≡ k) × (v.version ≡ n)
row_key k n v h = ground (
  arith,
  eq_iff v.tenant_id k.tenant_id,
  eq_iff v.project_id k.project_id,
  eq_iff v.artifact_id k.artifact_id,
)

pub of_artifact_self : (v : Version) → of_artifact (key_of v) v ≡ true
of_artifact_self v = rw (eq_refl v.tenant_id, eq_refl v.project_id, eq_refl v.artifact_id) refl

pub row_self : (v : Version) → is_row (key_of v) v.version v ≡ true
row_self v = rw (of_artifact_self v) (ground arith)

-- The row `v`, the first with its key, has become `w`.
pub data Replaced (v w : Version) : List Version → List Version → Type 0 where
  at_head : (rows : List Version) → Replaced v w (v ∷ rows) (w ∷ rows)
  further :
      (r : Version) {rows rows' : List Version}
      → is_row (key_of v) v.version r ≡ false
      → Replaced v w rows rows'
      → Replaced v w (r ∷ rows) (r ∷ rows')

pub find_version-row :
    (k : Key) (n : ℕ) (rows : List Version) (v : Version)
    → find_version k n rows ≡ some v
    → is_row k n v ≡ true
unfolding find_version
find_version-row k n [] v h = cc
find_version-row k n (r ∷ rows) v h = elim (Bool-cases (is_row k n r)) [
  | inl e ↦ subst (λ x. is_row k n x ≡ true) (some-injective r v (rw e at h)) e
  | inr e ↦ find_version-row k n rows v (rw e at h)
]

-- A row that is found under some key is found under its own.
pub find_version_self :
    (k : Key) (n : ℕ) (rows : List Version) (v : Version)
    → find_version k n rows ≡ some v
    → find_version (key_of v) v.version rows ≡ some v
find_version_self k n rows v h =
    let (same_key, same_number) = row_key k n v (find_version-row k n rows v h) in
    cc (same_key, same_number, h)

abbrev pub SameRow : Version → Version → Type 0
SameRow v w = (key_of w ≡ key_of v) × (w.version ≡ v.version)

pub same_test :
    (v w r : Version)
    → key_of w ≡ key_of v
    → w.version ≡ v.version
    → is_row (key_of w) w.version r ≡ is_row (key_of v) v.version r
same_test v w r k n = ap (λ x. is_row x w.version r) k ∙ ap (λ x. is_row (key_of v) x r) n

prepend-some :
    (r : Version) (o : Option (List Version)) (rows : List Version)
    → prepend r o ≡ some rows
    → (tail : List Version) × (o ≡ some tail) × (rows ≡ r ∷ tail)
unfolding prepend
prepend-some r none rows h = cc
prepend-some r (some tail) rows h = (tail, refl, sym (some-injective (r ∷ tail) rows h))

if_some {ℓ} : {A : Type ℓ} (b : Bool) (x y : A) → (if b then some x else none) ≡ some y → x ≡ y
if_some true x y h = some-injective x y h
if_some false x y h = cc

pub update_row-Replaced :
    (now : ℕ) (v w : Version) (rows rows' : List Version)
    → key_of w ≡ key_of v
    → w.version ≡ v.version
    → find_version (key_of v) v.version rows ≡ some v
    → update_row now w rows ≡ some rows'
    → Replaced v (written now v w) rows rows'
unfolding find_version update_row
update_row-Replaced now v w [] rows' k n f u = cc
update_row-Replaced now v w (r ∷ rows) rows' k n f u =
    elim (Bool-cases (is_row (key_of v) v.version r)) [
      | inl e ↦
          let same = some-injective r v (rw e at f) in
          let shape =
            if_some (eqb r.version_no w.version_no) (written now r w ∷ rows) rows'
              (rw (same_test v w r k n ∙ e) at u) in
          subst (λ x. Replaced v (written now v w) (r ∷ rows) x) shape
            (subst (λ x. Replaced v (written now v w) (x ∷ rows) (written now x w ∷ rows))
              (sym same) (at_head rows))
      | inr e ↦
          let (tail, rest, shape) =
            prepend-some r (update_row now w rows) rows' (rw (same_test v w r k n ∙ e) at u) in
          subst (λ x. Replaced v (written now v w) (r ∷ rows) x) (sym shape)
            (further r e (update_row-Replaced now v w rows tail k n (rw e at f) rest))
    ]

if_test {ℓ} : {A : Type ℓ} (b : Bool) (x y : A) → (if b then some x else none) ≡ some y → b ≡ true
if_test true x y h = refl
if_test false x y h = cc

-- The row that an update found had the number that the caller had read.
pub update_row-number :
    (now : ℕ) (w r : Version) (rows rows' : List Version)
    → find_version (key_of w) w.version rows ≡ some r
    → update_row now w rows ≡ some rows'
    → r.version_no ≡ w.version_no
unfolding find_version update_row
update_row-number now w r [] rows' f u = cc
update_row-number now w r (x ∷ rows) rows' f u = elim (Bool-cases (is_row (key_of w) w.version x)) [
  | inl e ↦
      let same = some-injective x r (rw e at f) in
      let test =
        if_test (eqb x.version_no w.version_no) (written now x w ∷ rows) rows' (rw e at u) in
      let number : x.version_no ≡ w.version_no = ground (arith, test) in
      sym (ap (λ (y : Version). y.version_no) same) ∙ number
  | inr e ↦
      let (tail, rest, shape) = prepend-some x (update_row now w rows) rows' (rw e at u) in
      update_row-number now w r rows tail (rw e at f) rest
]
