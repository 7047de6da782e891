-- ===== src/Fsm/Firing.antt =====
-- `Fire` of internal/platform/fsm/fsm.go.
use specforge.Prelude.{
  ◌≡◌, ◌≢◌, refl, String, true, none, some, List, [], ◌∷◌, arith, mem, All, ◌⊎◌, ok, err,
  Bool-cases, Option-cases, inl, inr, ◌↔◌, Option, ap, ◌==◌, ==→eq, ==→ne,
}
use specforge.Errors.{Error}
use specforge.Fsm.{
  Transition, Machine, Outcome, PermissionChecker, check_permission, run_guards, run_effects,
  outcome, fire_transition, fire, lookup, build, is_terminal, Definition,
}
use specforge.Fsm.Validation.{build-IsWellFormed}

pub All-trivial {ℓ} : {A : Type ℓ} (xs : List A) → All (λ _. Unit {0}) xs
All-trivial [] = tt
All-trivial (x ∷ xs) = (tt, All-trivial xs)

module _ {ℓ} {T : Type ℓ} (m : Machine T) (from ev : String) (x : T)
    (check : PermissionChecker) where
  -- What a firing that succeeds has passed: a declared state, a transition of the table, the
  -- permission, every guard, and every effect, whose last value is the new subject.
  pub record Passed (out : Outcome) (x' : T) : Type ℓ where
    pub move : Transition T
    pub known : mem from m.states ≡ true
    pub found : lookup m from ev ≡ some move
    pub permitted : check_permission check move.permission ≡ none
    pub guarded : run_guards move.guards x ≡ none
    pub effected : run_effects move.effects x ≡ (x', none)
    pub result : out ≡ outcome from ev move

  fire_transition_ok :
      (t : Transition T) (out : Outcome) (x' : T)
      → fire_transition t from ev x check ≡ (ok out, x')
      → (check_permission check t.permission ≡ none)
        × (run_guards t.guards x ≡ none)
        × (run_effects t.effects x ≡ (x', none))
        × (out ≡ outcome from ev t)
  unfolding fire_transition
  fire_transition_ok t out x' h = ground arith

  Passed-of_fire : (out : Outcome) (x' : T) → fire m from ev x check ≡ (ok out, x') → Passed out x'
  unfolding fire
  Passed-of_fire out x' h = elim (Bool-cases (mem from m.states)) [
    | inl k ↦ elim (Option-cases (lookup m from ev)) [
      | inl n ↦ cc (rw (k, n) at h)
      | inr (t, e) ↦
          let (a, b, c, d) = fire_transition_ok t out x' (rw (k, e) at h) in
          record {
            move = t;
            known = k;
            found = e;
            permitted = a;
            guarded = b;
            effected = c;
            result = d;
          }
    ]
    | inr k ↦ cc (rw k at h)
  ]

  fire-of_Passed : (out : Outcome) (x' : T) → Passed out x' → fire m from ev x check ≡ (ok out, x')
  unfolding fire
  fire-of_Passed out x' p =
      rw (p.known, p.found, fire_transition, p.permitted, p.guarded, p.effected, p.result) refl

  pub fire-Passed :
      (out : Outcome) (x' : T) → (fire m from ev x check ≡ (ok out, x')) ↔ Passed out x'
  fire-Passed out x' = (Passed-of_fire out x', fire-of_Passed out x')

  -- No permission is asked for, nobody checks, or the checker grants it.
  abbrev pub IsGranted : PermissionChecker → String → Type 0
  IsGranted none p = Unit {0}
  IsGranted (some grant) p = (p ≡ "") ⊎ (grant p ≡ none)

  -- Each effect succeeds on what the one before it leaves, and the last leaves `y`.
  abbrev pub EffectsLeave : List (T → T × Option Error) → T → T → Type ℓ
  EffectsLeave [] a y = a ≡ y
  EffectsLeave (f ∷ fs) a y = (z : T) × (f a ≡ (z, none)) × EffectsLeave fs z y

  -- What a firing asks for, as a statement.
  pub record Fires (out : Outcome) (x' : T) : Type ℓ where
    pub move : Transition T
    pub known : mem from m.states ≡ true
    pub found : lookup m from ev ≡ some move
    pub granted : IsGranted check move.permission
    pub guarded : All (λ (guard : T → Option Error). guard x ≡ none) move.guards
    pub effected : EffectsLeave move.effects x x'
    pub result : out ≡ outcome from ev move

  check_permission_iff :
      (c : PermissionChecker) (p : String) → (check_permission c p ≡ none) ↔ IsGranted c p
  unfolding check_permission
  check_permission_iff none p = (λ h. tt, λ g. refl)
  check_permission_iff (some grant) p = elim (Bool-cases (p == "")) [
    | inl e ↦ (λ h. inl (==→eq p "" e), λ g. rw e refl)
    | inr e ↦ (
      λ h. inr (rw e at h),
      λ g. elim g [ inl blank ↦ absurd (==→ne p "" e blank) | inr fine ↦ rw e fine ],
    )
  ]

  run_guards_iff :
      (gs : List (T → Option Error))
      → (run_guards gs x ≡ none) ↔ All (λ (guard : T → Option Error). guard x ≡ none) gs
  unfolding run_guards
  run_guards_iff [] = (λ h. tt, λ a. refl)
  run_guards_iff (g ∷ gs) = elim (Option-cases (g x)) [
    | inl n ↦ (λ h. (n, (run_guards_iff gs).0 (rw n at h)), λ a. rw n ((run_guards_iff gs).1 a.1))
    | inr (e, s) ↦ (λ h. cc (rw s at h), λ a. cc (s, a.0))
  ]

  run_effects-of_leave :
      (fs : List (T → T × Option Error)) (a y : T)
      → EffectsLeave fs a y
      → run_effects fs a ≡ (y, none)
  unfolding run_effects
  run_effects-of_leave [] a y h = ap (λ z. (z, none)) h
  run_effects-of_leave (f ∷ fs) a y (z, first, rest) =
      let left : (f a).0 ≡ z = ap (λ (p : T × Option Error). p.0) first in
      let fine : (f a).1 ≡ none = ap (λ (p : T × Option Error). p.1) first in
      rw (fine, left) (run_effects-of_leave fs z y rest)

  run_effects-leave :
      (fs : List (T → T × Option Error)) (a y : T)
      → run_effects fs a ≡ (y, none)
      → EffectsLeave fs a y
  unfolding run_effects
  run_effects-leave [] a y h = ap (λ (p : T × Option Error). p.0) h
  run_effects-leave (f ∷ fs) a y h = elim (Option-cases (f a).1) [
    | inl n ↦ (
      (f a).0,
      ap (λ (o : Option Error). ((f a).0, o)) n,
      run_effects-leave fs (f a).0 y (rw n at h),
    )
    | inr (e, s) ↦ cc (ap (λ (p : T × Option Error). p.1) (rw s at h))
  ]

  -- A firing succeeds exactly when the state is declared, the table holds the move, the move asks for
  -- no permission, or nobody checks it, or the checker grants it, each of its guards passes, and each
  -- of its effects succeeds on what the one before it leaves; its outcome is that move's, and its
  -- subject what the last effect leaves.
  pub fire_ok : (out : Outcome) (x' : T) → (fire m from ev x check ≡ (ok out, x')) ↔ Fires out x'
  fire_ok out x' = (
    λ h.
        let p = Passed-of_fire out x' h in
        record {
          move = p.move;
          known = p.known;
          found = p.found;
          granted = (check_permission_iff check p.move.permission).0 p.permitted;
          guarded = (run_guards_iff p.move.guards).0 p.guarded;
          effected = run_effects-leave p.move.effects x x' p.effected;
          result = p.result;
        },
    λ f. fire-of_Passed out x' (record {
      move = f.move;
      known = f.known;
      found = f.found;
      permitted = (check_permission_iff check f.move.permission).1 f.granted;
      guarded = (run_guards_iff f.move.guards).1 f.guarded;
      effected = run_effects-of_leave f.move.effects x x' f.effected;
      result = f.result;
    }),
  )

  -- Where an error leaves a changed subject, permission and guards had passed.
  abbrev pub EffectFailed : Error → T → Type ℓ
  EffectFailed e x' =
      (t : Transition T) × (lookup m from ev ≡ some t)
      × (check_permission check t.permission ≡ none)
      × (run_guards t.guards x ≡ none)
      × (run_effects t.effects x ≡ (x', some e))

  fire_transition_err :
      (t : Transition T) (e : Error) (x' : T)
      → lookup m from ev ≡ some t
      → fire_transition t from ev x check ≡ (err e, x')
      → (x' ≡ x) ⊎ EffectFailed e x'
  unfolding fire_transition
  fire_transition_err t e x' f h = elim (Option-cases (check_permission check t.permission)) [
    | inr (d, p) ↦ inl (cc (rw (p, fire_transition) at h))
    | inl p ↦ elim (Option-cases (run_guards t.guards x)) [
      | inr (d, g) ↦ inl (cc (rw (p, g, fire_transition) at h))
      | inl g ↦ inr (t, f, p, g, ground (arith, p, g, h))
    ]
  ]

  -- A firing that fails leaves the subject as it was, unless permission and guards had passed and
  -- an effect of the move failed: then the subject is what the effects left.
  pub fire_err :
      (e : Error) (x' : T) → fire m from ev x check ≡ (err e, x') → (x' ≡ x) ⊎ EffectFailed e x'
  unfolding fire
  fire_err e x' h = elim (Bool-cases (mem from m.states)) [
    | inl k ↦ elim (Option-cases (lookup m from ev)) [
      | inl n ↦ inl (cc (rw (k, n) at h))
      | inr (t, f) ↦ fire_transition_err t e x' f (rw (k, f) at h)
    ]
    | inr k ↦ inl (cc (rw k at h))
  ]

-- Of a machine that `Build` returned, no event fires from a terminal state, whoever asks.
pub fire-terminal {ℓ} :
    {T : Type ℓ} (def : Definition T) (m : Machine T)
    → build def ≡ ok m
    → (from ev : String) (x : T) (check : PermissionChecker) → is_terminal m from ≡ true
    → (out : Outcome) (x' : T) → fire m from ev x check ≢ (ok out, x')
unfolding is_terminal
fire-terminal def m b from ev x check t out x' h =
    let p = Passed-of_fire m from ev x check out x' h in
    let w = build-IsWellFormed (λ _. Unit {0}) def m (All-trivial def.transitions) b in
    cc (t, (w.sound from ev p.move p.found).1)
