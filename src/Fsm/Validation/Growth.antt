-- ===== src/Fsm/Validation/Growth.antt =====
-- How the index grows along the loops of `Build` in internal/platform/fsm/fsm.go.
use mathlib.Core.Bool.{false≢true}
use specforge.Prelude.{
  ◌≡◌, refl, ◌∙◌, sym, String, true, false, none, some, List, [], ◌∷◌, ◌++◌, ◌==◌, ◌&&◌, arith, mem,
  inl, inr, All, All-append, All-map, Bool-cases, ℕ, suc, eq_refl, mem_self,
}
use specforge.Fsm.{
  Transition, Entry, Scan, no_event, find_entry, scan_source, scan_sources, scan_header,
  scan_transition, scan_transitions,
}
use specforge.Fsm.Validation.Scanning.{
  IsClean, scan_source-IsClean, scan_header-IsClean, scan_sources-IsClean, report-IsClean, entry_of,
}

module _ {ℓ} {T : Type ℓ} where
  find_entry-append_some :
      (k ev : String) (xs ys : List (Entry T)) {t : Transition T}
      → find_entry k ev xs ≡ some t
      → find_entry k ev (xs ++ ys) ≡ some t
  unfolding find_entry
  find_entry-append_some k ev [] ys h = cc
  find_entry-append_some k ev (x ∷ xs) ys h = elim (Bool-cases (x.from == k && x.event == ev)) [
    | inl e ↦ rw e (rw e at h)
    | inr e ↦ rw e (find_entry-append_some k ev xs ys (rw e at h))
  ]

  find_entry-append_none :
      (k ev : String) (xs ys : List (Entry T))
      → find_entry k ev xs ≡ none
      → find_entry k ev (xs ++ ys) ≡ find_entry k ev ys
  unfolding find_entry
  find_entry-append_none k ev [] ys h = refl
  find_entry-append_none k ev (x ∷ xs) ys h = ground (arith, find_entry-append_none k ev xs ys)

  find_entry_of :
      (t : Transition T) (f : String) → find_entry f t.event (entry_of t f ∷ []) ≡ some t
  unfolding find_entry
  find_entry_of t f = simp eq_refl

module _ {ℓ} {T : Type ℓ} (states terminal : List String) (P : Transition T → Type 0) where
  -- What an accepted table knows of a transition, and of an entry of its index.
  abbrev pub IsDeclared : Transition T → Type 0
  IsDeclared t =
      (mem t.to states ≡ true) × ((t.audit_action == "") ≡ false) × ((t.event == "") ≡ false) × P t

  abbrev pub IsSound : Entry T → Type 0
  IsSound e =
      (mem e.from states ≡ true)
      × (mem e.from terminal ≡ false)
      × (mem e.from e.transition.from ≡ true)
      × (e.transition.event ≡ e.event)
      × IsDeclared e.transition

  pub record Grown (s s' : Scan T) : Type ℓ where
    pub clean : IsClean s
    pub kept :
        (k ev : String) (t : Transition T)
        → find_entry k ev s.index ≡ some t
        → find_entry k ev s'.index ≡ some t
    pub sound : All IsSound s.index → All IsSound s'.index

  Grown-refl : (s : Scan T) → IsClean s → Grown s s
  Grown-refl s h = record { clean = h; kept = λ k ev t e. e; sound = λ a. a }

  Grown-trans : (r s t : Scan T) → Grown r s → Grown s t → Grown r t
  Grown-trans r s t g h = record {
    clean = g.clean;
    kept = λ k ev u e. h.kept k ev u (g.kept k ev u e);
    sound = λ a. h.sound (g.sound a);
  }

  abbrev pub Finds : Scan T → Transition T → String → Type ℓ
  Finds s t f = find_entry f t.event s.index ≡ some t

  scan_source-Grown :
      (t : Transition T) (s : Scan T) (f : String)
      → IsDeclared t
      → mem f t.from ≡ true
      → IsClean (scan_source states terminal t s f)
      → Grown s (scan_source states terminal t s f) × Finds (scan_source states terminal t s f) t f
  scan_source-Grown t s f d m h =
      let (declared, open_, fresh, same) = scan_source-IsClean states terminal t s f h in
      rw same (
        record {
          clean = rw same at h;
          kept = λ k ev u e. find_entry-append_some k ev s.index (entry_of t f ∷ []) e;
          sound = λ a.
              All-append IsSound s.index (entry_of t f ∷ []) a ((declared, open_, m, refl, d), tt);
        },
        find_entry-append_none f t.event s.index (entry_of t f ∷ []) fresh ∙ find_entry_of t f,
      )

  pub scan_sources-Grown :
      (t : Transition T) (s : Scan T) (fs : List String)
      → IsDeclared t
      → All (λ f. mem f t.from ≡ true) fs
      → IsClean (scan_sources states terminal t s fs)
      → Grown s (scan_sources states terminal t s fs)
        × All (Finds (scan_sources states terminal t s fs) t) fs
  unfolding scan_sources
  scan_sources-Grown t s [] d m h = (Grown-refl s h, tt)
  scan_sources-Grown t s (f ∷ fs) d m h =
      let s' : Scan T = scan_source states terminal t s f in
      let (later, rest) = scan_sources-Grown t s' fs d m.1 h in
      let (now, found) = scan_source-Grown t s f d m.0 later.clean in
      (
        Grown-trans s s' (scan_sources states terminal t s' fs) now later,
        (later.kept f t.event t found, rest),
      )

  scan_named-Grown :
      (t : Transition T) (s : Scan T)
      → P t
      → (t.event == "") ≡ false
      → IsClean (scan_sources states terminal t (scan_header states terminal t s) t.from)
      → Grown s (scan_sources states terminal t (scan_header states terminal t s) t.from)
        × All
            (Finds (scan_sources states terminal t (scan_header states terminal t s) t.from) t)
            t.from
  scan_named-Grown t s p e h =
      let s' : Scan T = scan_header states terminal t s in
      let (to, sources, audit, same) =
        scan_header-IsClean states terminal t s
          (scan_sources-IsClean states terminal t s' t.from h) in
      rw same (scan_sources-Grown t s t.from (to, audit, e, p) (mem_self t.from) (rw same at h))

  -- All the sources of a transition, behind the tests of its header.
  scan_transition-Grown :
      (i : ℕ) (t : Transition T) (s : Scan T)
      → P t
      → IsClean (scan_transition states terminal i t s)
      → Grown s (scan_transition states terminal i t s)
        × All (Finds (scan_transition states terminal i t s) t) t.from
  unfolding scan_transition
  scan_transition-Grown i t s p h = elim (Bool-cases (t.event == "")) [
    | inl e ↦ absurd (false≢true (sym (report-IsClean true (no_event i) s (rw e at h)).0))
    | inr e ↦ rw e (scan_named-Grown t s p e (rw e at h))
  ]

  -- The whole table: every transition is found at each of its sources.
  pub scan_transitions-Grown :
      (i : ℕ) (s : Scan T) (ts : List (Transition T))
      → All P ts
      → IsClean (scan_transitions states terminal i s ts)
      → Grown s (scan_transitions states terminal i s ts)
        × All (λ t. All (Finds (scan_transitions states terminal i s ts) t) t.from) ts
  unfolding scan_transitions
  scan_transitions-Grown i s [] p h = (Grown-refl s h, tt)
  scan_transitions-Grown i s (t ∷ ts) p h =
      let s' : Scan T = scan_transition states terminal i t s in
      let last : Scan T = scan_transitions states terminal (suc i) s' ts in
      let (later, rest) = scan_transitions-Grown (suc i) s' ts p.1 h in
      let (now, found) = scan_transition-Grown i t s p.0 later.clean in
      (
        Grown-trans s s' last now later,
        (All-map (Finds s' t) (Finds last t) t.from (λ f e. later.kept f t.event t e) found, rest),
      )
