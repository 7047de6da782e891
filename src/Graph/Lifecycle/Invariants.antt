-- ===== src/Graph/Lifecycle/Invariants.antt =====
-- What every write to the table of versions keeps.
use specforge.Prelude.{
  ◌≡◌, refl, sym, ◌∙◌, true, false, ◌==◌, List, [], ◌∷◌, arith, All, All-append, All-mem,
  Bool-cases, inl, inr, ne→==, ◌⊎◌,
}
use mathlib.Core.Path.{subst}
use specforge.Fsm.{Transition}
use specforge.Artifact.Version.{Version, is_sealed, status_draft, status_approved}
use specforge.Artifact.Lifecycle.{event_approve, definition}
use specforge.Artifact.Lifecycle.Laws.{lookup-machine, is_released, KeepsSeal, definition-KeepsSeal}
use specforge.Graph.Store.{Key, key_of, of_artifact, approval_of, count_approved}
use specforge.Graph.Store.Rows.{artifact_key, Replaced, at_head, further, SameRow}
use specforge.Graph.Store.Keys.{IsKeyed, IsKeyed-Replaced, IsKeyed-append}
use specforge.Graph.Store.Approvals.{
  count_approved-append, count_approved-Replaced, approval_of-le, IsSingle,
}
use specforge.Graph.Lifecycle.{
  SameBody, SameApproval, IsEvidenced, Change, edited, moved, superseded, Step, added, changed,
  approved,
}

pub Step-IsKeyed : {rows rows' : List Version} → Step rows rows' → IsKeyed rows → IsKeyed rows'
Step-IsKeyed {rows} (added w d f) k = IsKeyed-append w rows f k
Step-IsKeyed (changed v w f s c m h p) k = IsKeyed-Replaced v w s p k
Step-IsKeyed (approved v w f s c m u a e i n p) k = IsKeyed-Replaced v w s p k

pub Replaced-All :
    (P : Version → Type 0) (v w : Version) {rows rows' : List Version}
    → (P v → P w)
    → Replaced v w rows rows'
    → All P rows
    → All P rows'
Replaced-All P v w f (at_head rows) h = (f h.0, h.1)
Replaced-All P v w f (further r d p) h = (h.0, Replaced-All P v w f p h.1)

-- An approved version is not reached by any other event than the approval.
abbrev NotApproved : Transition Version → Type 0
NotApproved t = (t.event == event_approve) ≡ false → (t.to == status_approved) ≡ false

definition-NotApproved : All NotApproved definition.transitions
definition-NotApproved = ground arith

-- A move to a released state by another event comes from a released state.
abbrev StaysReleased : Transition Version → Type 0
StaysReleased t =
    (t.event == event_approve) ≡ false
    → All (λ f. is_released t.to ≡ true → is_released f ≡ true) t.from

definition-StaysReleased : All StaysReleased definition.transitions
definition-StaysReleased = ground arith

-- What a change that approves nothing does to the status.
Change-not_approved : (v w : Version) → Change v w → (w.status == status_approved) ≡ false
Change-not_approved v w (edited d e a) = rw e refl
Change-not_approved v w (superseded d e b a) = rw e refl
Change-not_approved v w (moved event t f n e b a) =
    let m = lookup-machine NotApproved definition-NotApproved v.status event t f in
    rw e (m.6 (ne→== t.event event_approve (λ x. n (sym m.3 ∙ x))))

Change-released :
    (v w : Version) → Change v w → is_released w.status ≡ true → is_released v.status ≡ true
Change-released v w (edited d e a) h = cc (e, h)
Change-released v w (superseded d e b a) h = rw d refl
Change-released v w (moved event t f n e b a) h =
    let m = lookup-machine StaysReleased definition-StaysReleased v.status event t f in
    All-mem (λ f. is_released t.to ≡ true → is_released f ≡ true) v.status t.from
      (m.6 (ne→== t.event event_approve (λ x. n (sym m.3 ∙ x)))) m.2 (rw e at h)

-- What is sealed stays sealed, with its body and its approval.
pub Change-sealed :
    (v w : Version)
    → Change v w
    → is_sealed v.status ≡ true
    → (is_sealed w.status ≡ true) × SameBody v w × SameApproval v w
unfolding is_sealed
Change-sealed v w (edited d e a) h = cc (rw d at h)
Change-sealed v w (superseded d e b a) h = (rw e refl, b, a)
Change-sealed v w (moved event t f n e b a) h =
    let m = lookup-machine KeepsSeal definition-KeepsSeal v.status event t f in
    (
      rw e (All-mem (λ f. is_sealed f ≡ true → is_sealed t.to ≡ true) v.status t.from m.6 m.2 h),
      b,
      a,
    )

Change-SameApproval : (v w : Version) → Change v w → SameApproval v w
Change-SameApproval v w (edited d e a) = a
Change-SameApproval v w (superseded d e b a) = a
Change-SameApproval v w (moved event t f n e b a) = a

-- A row of a released version tells its approver and holds evidence.
abbrev pub ReleasedWithEvidence : Version → Type 0
ReleasedWithEvidence v = is_released v.status ≡ true → IsEvidenced v

Change-ReleasedWithEvidence :
    (v w : Version) → Change v w → ReleasedWithEvidence v → ReleasedWithEvidence w
Change-ReleasedWithEvidence v w c r h =
    let e = r (Change-released v w c h) in
    let a = Change-SameApproval v w c in
    record {
      approver = e.approver;
      evidence = e.evidence;
      by = a.0 ∙ e.by;
      kept = a.3 ∙ e.kept;
      legal = e.legal;
    }

draft_not_released : (w : Version) → w.status ≡ status_draft → ReleasedWithEvidence w
draft_not_released w d h = cc (rw d at h)

pub Step-evidence :
    {rows rows' : List Version}
    → Step rows rows'
    → All ReleasedWithEvidence rows
    → All ReleasedWithEvidence rows'
Step-evidence {rows} (added w d f) h =
    All-append ReleasedWithEvidence rows (w ∷ []) h (draft_not_released w d, tt)
Step-evidence (changed v w f s b m c p) h =
    Replaced-All ReleasedWithEvidence v w (Change-ReleasedWithEvidence v w c) p h
Step-evidence (approved v w f s b m u a e i n p) h =
    Replaced-All ReleasedWithEvidence v w (λ _ _. i) p h

pub not_counted :
    (k : Key) (w : Version) → (w.status == status_approved) ≡ false → approval_of k w ≡ 0
not_counted k w h = rw h (ground arith)

-- An approved row of one artifact counts for no other.
counted_for : (k : Key) (v w : Version) → SameRow v w → (approval_of k w ≡ 0) ⊎ (key_of v ≡ k)
counted_for k v w s = elim (Bool-cases (of_artifact k w)) [
  | inr e ↦ inl (rw e refl)
  | inl e ↦ inr (sym s.0 ∙ artifact_key k w e)
]

pub Step-IsSingle : {rows rows' : List Version} → Step rows rows' → IsSingle rows → IsSingle rows'
Step-IsSingle {rows} (added w d f) h k =
    omega (arith, h k, count_approved-append k rows w, not_counted k w (rw d refl))
Step-IsSingle (changed v w f s b m c p) h k =
    omega (arith, h k, count_approved-Replaced k v w p, not_counted k w (Change-not_approved v w c))
Step-IsSingle {rows} (approved v w f s b m u a e i n p) h k = elim (counted_for k v w s) [
  | inl z ↦ omega (arith, h k, count_approved-Replaced k v w p, z)
  | inr same ↦
      let none_before = subst (λ x. count_approved x rows ≡ 0) same n in
      omega (arith, none_before, count_approved-Replaced k v w p, approval_of-le k w)
]
