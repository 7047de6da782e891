-- ===== src/Fsm.antt =====
-- internal/platform/fsm/fsm.go: the transition tables, their validation at start-up (`Build`),
-- and `Fire`. A state and an event are texts, as in the source. A map used as a set is the list of
-- its keys in the order of insertion; the index is the list of its entries. The subject is the
-- value behind the pointer, returned with the result where effects may have changed it.
-- `Terminal` and `Description` of a transition are read by nothing and left out.
pub mod Validation
pub mod Firing
use specforge.Prelude.{
  ℕ, suc, String, Bool, true, false, Option, none, some, List, [], ◌∷◌, ◌++◌, ◌==◌, ◌||◌, ◌&&◌, not,
  if◌then◌else◌, mem, is_empty, is_none, is_ok, ◌≡◌, refl, Result, ok, err,
}
use mathlib.Core.Bool.{false≢true}
use specforge.Errors.{Error, platform, wrapped, invalid, precondition}

pub record Transition {ℓ} (T : Type ℓ) : Type ℓ where
  pub from : List String
  pub event : String
  pub to : String
  pub permission : String
  pub guards : List (T → Option Error)
  pub effects : List (T → T × Option Error)
  pub emit_event : String
  pub audit_action : String

pub record Definition {ℓ} (T : Type ℓ) : Type ℓ where
  pub name : String
  pub initial : String
  pub states : List String
  pub terminal : List String
  pub transitions : List (Transition T)

-- `key` with the transition that the index holds for it.
pub record Entry {ℓ} (T : Type ℓ) : Type ℓ where
  pub from : String
  pub event : String
  pub transition : Transition T

pub record Machine {ℓ} (T : Type ℓ) : Type ℓ where
  pub name : String
  pub initial : String
  pub transitions : List (Transition T)
  pub index : List (Entry T)
  pub states : List String
  pub terminal : List String

-- The message of each `problems = append(problems, ...)`, as data.
pub data Problem : Type 0 where
  no_event : ℕ → Problem
  undeclared_target : (event to : String) → Problem
  no_sources no_audit_action : (event : String) → Problem
  undeclared_source leaves_terminal duplicate : (event from : String) → Problem
  unreachable no_exit : (state : String) → Problem

pub data BuildError : Type 0 where
  name_required initial_required : BuildError
  terminal_undeclared initial_undeclared : String → BuildError
  problems : List Problem → BuildError

-- `m[s] = true`
abbrev pub add_key : List String → String → List String
add_key m s = if mem s m then m else m ++ s ∷ []

abbrev pub add_keys : List String → List String → List String
add_keys m [] = m
add_keys m (s ∷ ss) = add_keys (add_key m s) ss

-- What the loop over the transitions builds.
pub record Scan {ℓ} (T : Type ℓ) : Type ℓ where
  pub found : List Problem
  pub index : List (Entry T)

module _ {ℓ} {T : Type ℓ} where
  unfoldable pub find_entry : String → String → List (Entry T) → Option (Transition T)
  find_entry from ev [] = none
  find_entry from ev (e ∷ es) =
      if e.from == from && e.event == ev then some e.transition else find_entry from ev es

abbrev pub report {ℓ} : {T : Type ℓ} → Bool → Problem → Scan T → Scan T
report b p s = if b then record s { found = s.found ++ p ∷ [] } else s

module _ {ℓ} {T : Type ℓ} (states terminal : List String) where
  -- The body of `for _, f := range t.From`, from the test of the terminal states on.
  pub index_source : Transition T → Scan T → String → Scan T
  index_source t s f =
      let s' = report (mem f terminal) (leaves_terminal t.event f) s in
      if is_none (find_entry f t.event s'.index)
      then record s' {
        index = s'.index ++ record { from = f; event = t.event; transition = t } ∷ [];
      }
      else report true (duplicate t.event f) s'

  pub scan_source : Transition T → Scan T → String → Scan T
  unfolding index_source
  scan_source t s f =
      if mem f states then index_source t s f else report true (undeclared_source t.event f) s

  pub scan_sources : Transition T → Scan T → List String → Scan T
  unfolding scan_source
  scan_sources t s [] = s
  scan_sources t s (f ∷ fs) = scan_sources t (scan_source t s f) fs

  -- The three tests of a transition with an event.
  pub scan_header : Transition T → Scan T → Scan T
  scan_header t s = report (t.audit_action == "") (no_audit_action t.event) (
      report (is_empty t.from) (no_sources t.event)
        (report (not (mem t.to states)) (undeclared_target t.event t.to) s))

  pub scan_transition : ℕ → Transition T → Scan T → Scan T
  unfolding scan_header scan_sources
  scan_transition i t s =
      if t.event == "" then report true (no_event i) s else scan_sources t (scan_header t s) t.from

  pub scan_transitions : ℕ → Scan T → List (Transition T) → Scan T
  unfolding scan_transition
  scan_transitions i s [] = s
  scan_transitions i s (t ∷ ts) = scan_transitions (suc i) (scan_transition i t s) ts

module _ {ℓ} {T : Type ℓ} where
  abbrev pub is_target : String → List (Transition T) → Bool
  is_target s [] = false
  is_target s (t ∷ ts) = t.to == s || is_target s ts

  abbrev pub has_exit : String → List (Transition T) → Bool
  has_exit s [] = false
  has_exit s (t ∷ ts) = mem s t.from || has_exit s ts

  -- The loop over `m.states`. The order of a Go map is arbitrary, and the problems are sorted after
  -- it; this is the order of declaration.
  pub scan_states : String → List (Transition T) → List String → List String → Scan T → Scan T
  scan_states initial ts terminal [] s = s
  scan_states initial ts terminal (x ∷ xs) s = scan_states initial ts terminal xs (
      report (not (mem x terminal) && not (has_exit x ts)) (no_exit x)
        (report (not (initial == x || is_target x ts)) (unreachable x) s))

-- `for _, s := range def.Terminal`
pub mark_terminal : List String → List String → List String → Result BuildError (List String)
mark_terminal states acc [] = ok acc
mark_terminal states acc (s ∷ ss) =
    let rest = mark_terminal states (add_key acc s) ss in
    if mem s states then rest else err (terminal_undeclared s)

module _ {ℓ} {T : Type ℓ} where
  abbrev pub finish :
      Definition T → List String → List String → Scan T → Result BuildError (Machine T)
  finish def states terminal s =
      if is_empty s.found
      then ok (record {
        name = def.name;
        initial = def.initial;
        transitions = def.transitions;
        index = s.index;
        states = states;
        terminal = terminal;
      })
      else err (problems s.found)

  -- `Build` once the two sets are known.
  pub build_table : Definition T → List String → List String → Result BuildError (Machine T)
  unfolding scan_transitions scan_states
  build_table def states terminal =
      if mem def.initial states
      then finish def states terminal (
          scan_states def.initial def.transitions terminal states (
            scan_transitions states terminal 0 (record { found = []; index = [] }) def.transitions))
      else err (initial_undeclared def.initial)

  abbrev build_marked :
      Definition T → List String → Result BuildError (List String) → Result BuildError (Machine T)
  unfolding build_table
  build_marked def states (ok terminal) = build_table def states terminal
  build_marked def states (err e) = err e

  unfoldable pub build : Definition T → Result BuildError (Machine T)
  unfolding build_table build_marked mark_terminal find_entry
  build def =
      let states = add_keys [] def.states in
      if def.name == ""
      then err name_required
      else if def.initial == ""
      then err initial_required
      else build_marked def states (mark_terminal states [] def.terminal)

  -- `New` of a definition that `Build` accepts; of any other it panics.
  unfoldable pub accepted : (r : Result BuildError (Machine T)) → is_ok r ≡ true → Machine T
  accepted (ok m) h = m
  accepted (err e) h = absurd (false≢true h)

  pub accepted_lem :
      (r : Result BuildError (Machine T)) (h : is_ok r ≡ true) → r ≡ ok (accepted r h)
  unfolding accepted
  accepted_lem (ok m) h = refl
  accepted_lem (err e) h = absurd (false≢true h)

  unfoldable pub is_terminal : Machine T → String → Bool
  is_terminal m s = mem s m.terminal

  -- `Lookup`
  unfoldable pub lookup : Machine T → String → String → Option (Transition T)
  unfolding find_entry
  lookup m from ev = find_entry from ev m.index

  unfoldable pub can : Machine T → String → String → Bool
  unfolding lookup
  can m from ev = not (is_none (lookup m from ev))

pub record Outcome : Type 0 where
  pub from : String
  pub to : String
  pub event : String
  pub emit_event : String
  pub audit_action : String
  pub permission : String

-- A nil checker is `none`.
abbrev pub PermissionChecker : Type 0
PermissionChecker = Option (String → Option Error)

-- `if t.Permission != "" && check != nil { if err := check(ctx, t.Permission); err != nil ...`
unfoldable pub check_permission : PermissionChecker → String → Option Error
check_permission none p = none
check_permission (some check) p = if p == "" then none else check p

module _ {ℓ} {T : Type ℓ} where
  unfoldable pub run_guards : List (T → Option Error) → T → Option Error
  run_guards [] x = none
  run_guards (g ∷ gs) x = elim (g x) [ some e ↦ some (wrapped e) | none ↦ run_guards gs x ]

  -- Effects run in order and stop at the first that fails; what they did stays done.
  unfoldable pub run_effects : List (T → T × Option Error) → T → T × Option Error
  run_effects [] x = (x, none)
  run_effects (f ∷ fs) x =
      let (x', e) = f x in elim e [ some e' ↦ (x', some (wrapped e')) | none ↦ run_effects fs x' ]

  abbrev pub outcome : String → String → Transition T → Outcome
  outcome from ev t = record {
    from = from;
    to = t.to;
    event = ev;
    emit_event = t.emit_event;
    audit_action = t.audit_action;
    permission = t.permission;
  }

  abbrev after_effects :
      String → String → Transition T → T × Option Error → Result Error Outcome × T
  after_effects from ev t (x, some e) = (err e, x)
  after_effects from ev t (x, none) = (ok (outcome from ev t), x)

  -- Permission, then guards, then effects.
  fire_transition :
      Transition T → String → String → T → PermissionChecker → Result Error Outcome × T
  unfolding check_permission run_guards run_effects
  fire_transition t from ev x check = elim (check_permission check t.permission) [
    | some e ↦ (err e, x)
    | none ↦ elim (run_guards t.guards x) [
      | some e ↦ (err e, x)
      | none ↦ after_effects from ev t (run_effects t.effects x)
    ]
  ]

  unfoldable pub fire :
      Machine T → String → String → T → PermissionChecker → Result Error Outcome × T
  unfolding lookup fire_transition
  fire m from ev x check =
      if mem from m.states
      then elim (lookup m from ev) [
        | none ↦ (err (platform precondition "fsm.illegal_transition" "fsm.Fire"), x)
        | some t ↦ fire_transition t from ev x check
      ]
      else (err (platform invalid "fsm.unknown_state" "fsm.Fire"), x)
