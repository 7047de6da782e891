-- ===== src/Graph/Lifecycle/History.antt =====
-- What a sequence of writes to the table of versions keeps.
use specforge.Prelude.{
  ℕ, ◌≡◌, ◌<◌, ◌⊎◌, arith, sym, refl, ◌∙◌, true, some, List, [], ◌∷◌, ◌++◌, All, Bool-cases, inl,
  inr, some-injective,
}
use mathlib.Core.Path.{subst}
use specforge.Artifact.Version.{Version, is_sealed, status_user_review}
use specforge.Graph.Store.{Key, is_row, find_version}
use specforge.Graph.Store.Rows.{Replaced, at_head, further, SameRow}
use specforge.Graph.Store.Keys.{IsKeyed, same_place}
use specforge.Graph.Store.Approvals.{IsSingle}
use specforge.Graph.Store.Writes.{IsSnapshot}
use specforge.Graph.Lifecycle.{
  SameBody, SameApproval, Step, added, changed, approved, Steps, here, next,
}
use specforge.Graph.Lifecycle.Invariants.{
  Change-sealed, Step-IsKeyed, Step-IsSingle, Step-evidence, ReleasedWithEvidence,
}

-- What a row keeps: its key and its author, itself or a lower number, and once it is sealed the
-- seal, the body and the approval.
abbrev pub Kept : Version → Version → Type 0
Kept v w =
    SameRow v w
    × (w.created_by ≡ v.created_by)
    × ((v ≡ w) ⊎ (v.version_no < w.version_no))
    × (is_sealed v.status ≡ true → (is_sealed w.status ≡ true) × SameBody v w × SameApproval v w)

abbrev SameSeal : Version → Version → Type 0
SameSeal v w = (is_sealed w.status ≡ true) × SameBody v w × SameApproval v w

SameSeal-trans : (u v w : Version) → SameSeal u v → SameSeal v w → SameSeal u w
SameSeal-trans u v w (s, b, a) (t, c, d) =
    (t, (c.0 ∙ b.0, c.1 ∙ b.1), (d.0 ∙ a.0, d.1 ∙ a.1, d.2 ∙ a.2, d.3 ∙ a.3, d.4 ∙ a.4))

later :
    (u v w : Version)
    → (u ≡ v) ⊎ (u.version_no < v.version_no)
    → (v ≡ w) ⊎ (v.version_no < w.version_no)
    → (u ≡ w) ⊎ (u.version_no < w.version_no)
later u v w (inl e) n = subst (λ x. (x ≡ w) ⊎ (x.version_no < w.version_no)) (sym e) n
later u v w (inr lt) (inl e) = inr (subst (λ (x : Version). u.version_no < x.version_no) e lt)
later u v w (inr lt) (inr lt') = inr (omega (arith, lt, lt'))

Kept-refl : (v : Version) → Kept v v
Kept-refl v = ((refl, refl), refl, inl refl, λ s. (s, (refl, refl), (refl, refl, refl, refl, refl)))

Kept-trans : (u v w : Version) → Kept u v → Kept v w → Kept u w
Kept-trans u v w (s, a, m, h) (t, b, n, k) =
    ((t.0 ∙ s.0, t.1 ∙ s.1), b ∙ a, later u v w m n, λ x. SameSeal-trans u v w (h x) (k (h x).0))

-- The rows of a table are those of an earlier one, each changed as far as `Kept` allows, and more.
abbrev pub Extends : List Version → List Version → Type 0
Extends [] rows' = Unit {0}
Extends (v ∷ rows) [] = ⊥
Extends (v ∷ rows) (w ∷ rows') = Kept v w × Extends rows rows'

Extends-refl : (rows : List Version) → Extends rows rows
Extends-refl [] = tt
Extends-refl (v ∷ rows) = (Kept-refl v, Extends-refl rows)

Extends-trans : (a b c : List Version) → Extends a b → Extends b c → Extends a c
Extends-trans [] b c h k = tt
Extends-trans (u ∷ a) [] c h k = absurd h
Extends-trans (u ∷ a) (v ∷ b) [] h k = absurd k
Extends-trans (u ∷ a) (v ∷ b) (w ∷ c) h k = (Kept-trans u v w h.0 k.0, Extends-trans a b c h.1 k.1)

Extends-append : (rows more : List Version) → Extends rows (rows ++ more)
Extends-append [] more = tt
Extends-append (v ∷ rows) more = (Kept-refl v, Extends-append rows more)

Extends-Replaced :
    (v w : Version) {rows rows' : List Version}
    → Kept v w
    → Replaced v w rows rows'
    → Extends rows rows'
Extends-Replaced v w k (at_head rows) = (k, Extends-refl rows)
Extends-Replaced v w k (further r d p) = (Kept-refl r, Extends-Replaced v w k p)

not_sealed_yet :
    (v w : Version) → v.status ≡ status_user_review → is_sealed v.status ≡ true → SameSeal v w
unfolding is_sealed
not_sealed_yet v w u s = cc (rw u at s)

Step-Extends : {rows rows' : List Version} → Step rows rows' → Extends rows rows'
Step-Extends {rows} (added w d f) = Extends-append rows (w ∷ [])
Step-Extends (changed v w f s b m c p) =
    Extends-Replaced v w (s, b, inr (omega (arith, m)), Change-sealed v w c) p
Step-Extends (approved v w f s b m u a e i n p) =
    Extends-Replaced v w (s, b, inr (omega (arith, m)), not_sealed_yet v w u) p

pub Steps-Extends : {rows rows' : List Version} → Steps rows rows' → Extends rows rows'
Steps-Extends {rows} here = Extends-refl rows
Steps-Extends {rows} {rows'} (next {rows' = b} r s) =
    Extends-trans rows b rows' (Steps-Extends r) (Step-Extends s)

pub Steps-IsKeyed : {rows rows' : List Version} → Steps rows rows' → IsKeyed rows → IsKeyed rows'
Steps-IsKeyed here k = k
Steps-IsKeyed (next r s) k = Step-IsKeyed s (Steps-IsKeyed r k)

pub Steps-IsSingle : {rows rows' : List Version} → Steps rows rows' → IsSingle rows → IsSingle rows'
Steps-IsSingle here k = k
Steps-IsSingle (next r s) k = Step-IsSingle s (Steps-IsSingle r k)

pub Steps-evidence :
    {rows rows' : List Version}
    → Steps rows rows'
    → All ReleasedWithEvidence rows
    → All ReleasedWithEvidence rows'
Steps-evidence here k = k
Steps-evidence (next r s) k = Step-evidence s (Steps-evidence r k)

pub Steps-trans : {a b c : List Version} → Steps a b → Steps b c → Steps a c
Steps-trans p here = p
Steps-trans p (next r s) = next (Steps-trans p r) s

-- A row of the earlier table is found in the later one.
pub find_version-Extends :
    (k : Key) (n : ℕ) (rows rows' : List Version) (v : Version)
    → Extends rows rows'
    → find_version k n rows ≡ some v
    → (w : Version) × (find_version k n rows' ≡ some w) × Kept v w
unfolding find_version
find_version-Extends k n [] rows' v e f = cc
find_version-Extends k n (r ∷ rows) [] v e f = absurd e
find_version-Extends k n (r ∷ rows) (w ∷ rows') v e f = elim (Bool-cases (is_row k n r)) [
  | inl t ↦ (
    w,
    rw (same_place k n r w e.0.0 ∙ t) refl,
    subst (λ x. Kept x w) (some-injective r v (rw t at f)) e.0,
  )
  | inr t ↦
      let (x, found, kept) = find_version-Extends k n rows rows' v e.1 (rw t at f) in
      (x, rw (same_place k n r w e.0.0 ∙ t) found, kept)
]

-- A table is a snapshot of every later one.
pub Steps-IsSnapshot : (rows rows' : List Version) → Steps rows rows' → IsSnapshot rows rows'
Steps-IsSnapshot rows rows' p k n v f =
    let (w, found, kept) = find_version-Extends k n rows rows' v (Steps-Extends p) f in
    (w, found, kept.2)
