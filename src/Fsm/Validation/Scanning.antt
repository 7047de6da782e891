-- ===== src/Fsm/Validation/Scanning.antt =====
-- The loops of `Build` in internal/platform/fsm/fsm.go: a scan that ends with no problem has met
-- none, and its index holds the declared moves and nothing else.
use specforge.Prelude.{
  ◌≡◌, refl, String, Bool, true, false, none, List, [], ◌∷◌, ◌++◌, ◌==◌, ◌||◌, ◌&&◌, not, arith,
  mem, is_empty, All, append-ne-nil,
}
use specforge.Fsm.{
  Transition, Entry, Problem, Scan, unreachable, no_exit, undeclared_source, leaves_terminal,
  duplicate, undeclared_target, no_sources, no_audit_action, find_entry, report, scan_source,
  scan_sources, scan_header, scan_states, is_target, has_exit,
}

abbrev pub IsClean {ℓ} : {T : Type ℓ} → Scan T → Type 0
IsClean s = is_empty s.found ≡ true

-- A report that leaves no problem was none.
pub report-IsClean {ℓ} :
    {T : Type ℓ} (b : Bool) (p : Problem) (s : Scan T)
    → IsClean (report b p s)
    → (b ≡ false) × (report b p s ≡ s)
report-IsClean true p s h = cc (append-ne-nil s.found p)
report-IsClean false p s h = (refl, refl)

module _ {ℓ} {T : Type ℓ} where
  abbrev pub entry_of : Transition T → String → Entry T
  entry_of t f = record { from = f; event = t.event; transition = t }

  abbrev pub with_entry : Transition T → String → Scan T → Scan T
  with_entry t f s = record s { index = s.index ++ entry_of t f ∷ [] }

module _ {ℓ} {T : Type ℓ} (states terminal : List String) where
  -- One source that raises no problem adds its entry.
  pub scan_source-IsClean :
      (t : Transition T) (s : Scan T) (f : String)
      → IsClean (scan_source states terminal t s f)
      → (mem f states ≡ true)
        × (mem f terminal ≡ false)
        × (find_entry f t.event s.index ≡ none)
        × (scan_source states terminal t s f ≡ with_entry t f s)
  unfolding scan_source
  scan_source-IsClean t s f h = ground (
    arith,
    append-ne-nil s.found (undeclared_source t.event f),
    append-ne-nil s.found (leaves_terminal t.event f),
    append-ne-nil s.found (duplicate t.event f),
    append-ne-nil (s.found ++ leaves_terminal t.event f ∷ []) (duplicate t.event f),
  )

  pub scan_sources-IsClean :
      (t : Transition T) (s : Scan T) (fs : List String)
      → IsClean (scan_sources states terminal t s fs)
      → IsClean s
  unfolding scan_sources
  scan_sources-IsClean t s [] h = h
  scan_sources-IsClean t s (f ∷ fs) h =
      let now : IsClean (scan_source states terminal t s f) =
        scan_sources-IsClean t (scan_source states terminal t s f) fs h in
      let (a, b, c, same) = scan_source-IsClean t s f now in rw same at now

  -- The header's tests, of which none reports anything.
  pub scan_header-IsClean :
      (t : Transition T) (s : Scan T)
      → IsClean (scan_header states terminal t s)
      → (mem t.to states ≡ true)
        × (is_empty t.from ≡ false)
        × ((t.audit_action == "") ≡ false)
        × (scan_header states terminal t s ≡ s)
  unfolding scan_header
  scan_header-IsClean t s h =
      let target = report (not (mem t.to states)) (undeclared_target t.event t.to) s in
      let sources = report (is_empty t.from) (no_sources t.event) target in
      ground (
        arith,
        report-IsClean (t.audit_action == "") (no_audit_action t.event) sources,
        report-IsClean (is_empty t.from) (no_sources t.event) target,
        report-IsClean (not (mem t.to states)) (undeclared_target t.event t.to) s,
      )

  -- The states that the reachability loop passes.
  abbrev pub IsLinked : String → List (Transition T) → String → Type 0
  IsLinked initial ts x =
      ((initial == x || is_target x ts) ≡ true) × ((mem x terminal || has_exit x ts) ≡ true)

  pub scan_states-IsClean :
      (initial : String) (ts : List (Transition T)) (xs : List String) (s : Scan T)
      → IsClean (scan_states initial ts terminal xs s)
      → All (IsLinked initial ts) xs × (scan_states initial ts terminal xs s ≡ s)
  unfolding scan_states
  scan_states-IsClean initial ts [] s h = (tt, refl)
  scan_states-IsClean initial ts (x ∷ xs) s h =
      let reached = report (not (initial == x || is_target x ts)) (unreachable x) s in
      let left = report (not (mem x terminal) && not (has_exit x ts)) (no_exit x) reached in
      let (rest, same) = scan_states-IsClean initial ts xs left h in
      let clean : IsClean left = rw same at h in
      ground (
        arith,
        report-IsClean (not (mem x terminal) && not (has_exit x ts)) (no_exit x) reached,
        report-IsClean (not (initial == x || is_target x ts)) (unreachable x) s,
      )
