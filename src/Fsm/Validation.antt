-- ===== src/Fsm/Validation.antt =====
-- What `Build` of internal/platform/fsm/fsm.go establishes of a table that it accepts. Each lemma
-- says of one loop: if no problem stands at its end, none stood before, and the index grew by
-- sound entries.
mod Scanning
mod Growth
use mathlib.Core.Path.{subst, subst₃}
use mathlib.Core.Option.{some-injective}
use specforge.Prelude.{
  ◌≡◌, &&_true, ok-injective, refl, ◌∙◌, sym, String, Bool, true, false, Option, none, some, List,
  [], ◌∷◌, ◌++◌, ◌==◌, ◌||◌, ◌&&◌, not, arith, mem, is_empty, is_none, inl, inr, All, All-mem,
  Result, ok, err, Bool-cases, Option-cases, eq_iff, ap,
}
use specforge.Fsm.{
  Transition, BuildError, Definition, Entry, Machine, Scan, build, build_table, build_marked,
  mark_terminal, find_entry, lookup, is_target, has_exit, is_terminal, can, add_keys,
  scan_transitions, scan_states, finish,
}
use Scanning.{IsClean, IsLinked, scan_states-IsClean}
use Growth.{IsSound, Grown, Finds, scan_transitions-Grown}

-- What an accepted table knows of the transition that it holds for a state and an event, `P` being
-- any fact about the transitions that were declared.
abbrev pub IsMove {ℓ} :
    {T : Type ℓ}
    → List String
    → List String
    → (Transition T → Type 0)
    → String
    → String
    → Transition T
    → Type 0
IsMove states terminal P k ev t =
    (mem k states ≡ true)
    × (mem k terminal ≡ false)
    × (mem k t.from ≡ true)
    × (t.event ≡ ev)
    × (mem t.to states ≡ true)
    × ((t.audit_action == "") ≡ false)
    × P t

module _ {ℓ} {T : Type ℓ} (P : Transition T → Type 0) where
  -- What holds of a machine that `Build` returns.
  pub record IsWellFormed (m : Machine T) : Type ℓ where
    pub initial_declared : mem m.initial m.states ≡ true
    pub sound :
        (k ev : String) (t : Transition T)
        → lookup m k ev ≡ some t
        → IsMove m.states m.terminal P k ev t
    pub complete : All (λ t. All (λ f. lookup m f t.event ≡ some t) t.from) m.transitions
    pub linked : All (IsLinked m.states m.terminal m.initial m.transitions) m.states

  entry-IsMove :
      (states terminal : List String) (e : Entry T)
      → IsSound states terminal P e
      → IsMove states terminal P e.from e.event e.transition
  entry-IsMove states terminal e (a, b, c, d, (to, audit, named, p)) = (a, b, c, d, to, audit, p)

  find_entry_sound :
      (states terminal : List String) (k ev : String) (index : List (Entry T)) (t : Transition T)
      → All (IsSound states terminal P) index
      → find_entry k ev index ≡ some t
      → IsMove states terminal P k ev t
  unfolding find_entry
  find_entry_sound states terminal k ev [] t a h = cc
  find_entry_sound states terminal k ev (e ∷ es) t a h =
      elim (Bool-cases (e.from == k && e.event == ev)) [
        | inl b ↦
            let (from, event) = &&_true (e.from == k) (e.event == ev) b in
            subst₃ (IsMove states terminal P) ((eq_iff e.from k).0 from)
              ((eq_iff e.event ev).0 event) (some-injective e.transition t (rw b at h))
              (entry-IsMove states terminal e a.0)
        | inr b ↦ find_entry_sound states terminal k ev es t a.1 (rw b at h)
      ]

  -- The machine that `Build` assembles from the scanned table.
  abbrev assemble : Definition T → List String → List String → Scan T → Machine T
  assemble def states terminal s = record {
    name = def.name;
    initial = def.initial;
    transitions = def.transitions;
    index = s.index;
    states = states;
    terminal = terminal;
  }

  assemble-IsWellFormed :
      (def : Definition T) (states terminal : List String)
      → mem def.initial states ≡ true
      → All P def.transitions
      → let scanned : Scan T =
          scan_transitions states terminal 0 (record { found = []; index = [] }) def.transitions in
        IsClean scanned
        → All (IsLinked states terminal def.initial def.transitions) states
        → IsWellFormed (assemble def states terminal scanned)
  unfolding lookup
  assemble-IsWellFormed def states terminal i p clean linked =
      let (grown, found) =
        scan_transitions-Grown states terminal P 0 (record { found = []; index = [] })
          def.transitions p clean in
      record {
        initial_declared = i;
        sound = λ k ev t.
            find_entry_sound states terminal k ev
              (scan_transitions states terminal 0 (record { found = []; index = [] })
                def.transitions).index
              t (grown.sound tt);
        complete = found;
        linked = linked;
      }

  finish-IsWellFormed :
      (def : Definition T) (states terminal : List String) (m : Machine T)
      → mem def.initial states ≡ true
      → All P def.transitions
      → let scanned : Scan T =
          scan_transitions states terminal 0 (record { found = []; index = [] }) def.transitions in
        finish def states terminal (scan_states def.initial def.transitions terminal states scanned)
          ≡ ok m
        → IsWellFormed m
  finish-IsWellFormed def states terminal m i p h =
      let scanned : Scan T =
        scan_transitions states terminal 0 (record { found = []; index = [] }) def.transitions in
      let last : Scan T = scan_states def.initial def.transitions terminal states scanned in
      elim (Bool-cases (is_empty last.found)) [
        | inl clean ↦
            let (linked, same) =
              scan_states-IsClean states terminal def.initial def.transitions states scanned
                clean in
            subst IsWellFormed (ok-injective _ m (rw same at (rw clean at h)))
              (assemble-IsWellFormed def states terminal i p (rw same at clean) linked)
        | inr dirty ↦ cc
      ]

  build_table-IsWellFormed :
      (def : Definition T) (states terminal : List String) (m : Machine T)
      → All P def.transitions
      → build_table def states terminal ≡ ok m
      → IsWellFormed m
  unfolding build_table
  build_table-IsWellFormed def states terminal m p h = elim (Bool-cases (mem def.initial states)) [
    | inl i ↦ finish-IsWellFormed def states terminal m i p (rw i at h)
    | inr i ↦ cc (rw i at h)
  ]

  build_marked-IsWellFormed :
      (def : Definition T) (states : List String) (marked : Result BuildError (List String))
      (m : Machine T)
      → All P def.transitions
      → build_marked def states marked ≡ ok m
      → IsWellFormed m
  unfolding build_marked
  build_marked-IsWellFormed def states (ok terminal) m p h =
      build_table-IsWellFormed def states terminal m p h
  build_marked-IsWellFormed def states (err e) m p h = cc

  -- A definition that `Build` accepts gives a machine whose initial state is declared, whose table
  -- answers every query with a move that was declared for that state and event, whose source is
  -- declared and not terminal, whose target is declared and which names an audit action; every
  -- declared move is found at each of its sources; and every declared state is initial or a target,
  -- and terminal or a source.
  pub build-IsWellFormed :
      (def : Definition T) (m : Machine T)
      → All P def.transitions
      → build def ≡ ok m
      → IsWellFormed m
  unfolding build
  build-IsWellFormed def m p h = elim (Bool-cases (def.name == "")) [
    | inl e ↦ cc (rw e at h)
    | inr e ↦ elim (Bool-cases (def.initial == "")) [
      | inl i ↦ cc (rw (e, i) at h)
      | inr i ↦
          build_marked-IsWellFormed def (add_keys [] def.states)
            (mark_terminal (add_keys [] def.states) [] def.terminal) m p (rw (e, i) at h)
    ]
  ]
