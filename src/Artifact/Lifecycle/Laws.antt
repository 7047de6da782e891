-- ===== src/Artifact/Lifecycle/Laws.antt =====
-- What can become of an artifact's version by the lifecycle of
-- internal/artifactgraph/domain/artifact.go.
use specforge.Prelude.{
  ◌≡◌, refl, String, Bool, true, ◌==◌, ◌&&◌, ◌⊎◌, inl, inr, List, [], ◌∷◌, none, some, Result, ok,
  err, All, All-mem, any, is_none, ◌||◌, sym, ◌∙◌, arith, eq→==,
}
use specforge.Errors.{Error}
use specforge.Fsm.{
  Transition, build, accepted_lem, fire, Outcome, PermissionChecker, lookup, check_permission,
  run_guards,
}
use specforge.Fsm.Validation.{build-IsWellFormed, IsMove}
use specforge.Fsm.Firing.{fire-Passed}
use specforge.Artifact.Version.{
  Version, is_sealed, status_draft, status_user_review, status_approved, status_frozen,
  status_superseded,
}
use specforge.Artifact.Lifecycle.{
  machine, definition, event_approve, review_guards, require_content, require_schema,
}

-- The start-up check accepts the table.
build-definition : build definition ≡ ok machine
unfolding build machine
build-definition = accepted_lem (build definition) refl

-- What every transition of the table satisfies, every move satisfies.
pub lookup-machine :
    (P : Transition Version → Type 0)
    → All P definition.transitions
    → (from ev : String) (t : Transition Version) → lookup machine from ev ≡ some t
    → IsMove machine.states machine.terminal P from ev t
lookup-machine P a from ev t h =
    (build-IsWellFormed P definition machine a build-definition).sound from ev t h

abbrev pub KeepsSeal : Transition Version → Type 0
KeepsSeal t = All (λ f. is_sealed f ≡ true → is_sealed t.to ≡ true) t.from

pub definition-KeepsSeal : All KeepsSeal definition.transitions
unfolding is_sealed
definition-KeepsSeal = ground arith

-- A sealed version only ever moves to a sealed state, whoever asks for whatever event.
pub fire_sealed :
    (from ev : String) (v v' : Version) (check : PermissionChecker) (out : Outcome)
    → fire machine from ev v check ≡ (ok out, v')
    → is_sealed from ≡ true
    → is_sealed out.to ≡ true
fire_sealed from ev v v' check out h s =
    let p = (fire-Passed machine from ev v check out v').0 h in
    let m = lookup-machine KeepsSeal definition-KeepsSeal from ev p.move p.found in
    rw p.result
      (All-mem (λ f. is_sealed f ≡ true → is_sealed p.move.to ≡ true) from p.move.from m.6 m.2 s)

abbrev IsApproval : Transition Version → Type 0
IsApproval t =
    (t.to == status_approved) ≡ true
    → All (λ f. f ≡ status_user_review) t.from
      × (t.event ≡ event_approve)
      × (t.permission ≡ "artifact:approve")
      × (t.guards ≡ review_guards)

definition-IsApproval : All IsApproval definition.transitions
definition-IsApproval = ground arith

guards_pass :
    (v : Version)
    → run_guards review_guards v ≡ none
    → (require_content v ≡ none) × (require_schema v ≡ none)
unfolding run_guards
guards_pass v h = ground arith

-- A version becomes APPROVED only out of USER_REVIEW, by the event `approve`, with the permission
-- `artifact:approve` granted by the caller's checker, and with content and a schema.
pub fire_approved :
    (from ev : String) (v v' : Version) (check : PermissionChecker) (out : Outcome)
    → fire machine from ev v check ≡ (ok out, v')
    → out.to ≡ status_approved
    → (from ≡ status_user_review)
      × (ev ≡ event_approve)
      × (check_permission check "artifact:approve" ≡ none)
      × (require_content v ≡ none)
      × (require_schema v ≡ none)
fire_approved from ev v v' check out h a =
    let p = (fire-Passed machine from ev v check out v').0 h in
    let m = lookup-machine IsApproval definition-IsApproval from ev p.move p.found in
    let to : (p.move.to == status_approved) ≡ true =
      eq→== p.move.to status_approved (cc (p.result, a)) in
    let (source, event, permission, guards) = m.6 to in
    let (content, schema) = guards_pass v (rw guards at p.guarded) in
    (
      All-mem (λ f. f ≡ status_user_review) from p.move.from source m.2,
      sym m.3 ∙ event,
      rw permission at p.permitted,
      content,
      schema,
    )

-- One request to fire an event, by a caller with a permission checker.
pub record Call : Type 0 where
  pub event : String
  pub subject : Version
  pub check : PermissionChecker

abbrev pub status_after : String → Result Error Outcome × Version → String
status_after s (ok out, v) = out.to
status_after s (err e, v) = s

-- The status after a history of calls, of which those that fail change nothing.
unfoldable pub status_of : String → List Call → String
status_of s [] = s
status_of s (c ∷ cs) = status_of (status_after s (fire machine s c.event c.subject c.check)) cs

abbrev pub is_released : String → Bool
is_released s = s == status_approved || s == status_frozen || s == status_superseded

abbrev pub grants_approval : Call → Bool
grants_approval c =
    c.event == event_approve && is_none (check_permission c.check "artifact:approve")

abbrev ReleasedBy : Transition Version → Type 0
ReleasedBy t =
    All
      (λ f.
        is_released t.to ≡ true
        → (is_released f ≡ true)
          ⊎ ((t.event ≡ event_approve) × (t.permission ≡ "artifact:approve")))
      t.from

definition-ReleasedBy : All ReleasedBy definition.transitions
definition-ReleasedBy = ground arith

step_released :
    (s : String) (c : Call)
    → is_released (status_after s (fire machine s c.event c.subject c.check)) ≡ true
    → (is_released s ≡ true) ⊎ (grants_approval c ≡ true)
step_released s c h = go (fire machine s c.event c.subject c.check) refl h
  where
    go :
        (r : Result Error Outcome × Version)
        → fire machine s c.event c.subject c.check ≡ r
        → is_released (status_after s r) ≡ true
        → (is_released s ≡ true) ⊎ (grants_approval c ≡ true)
    go (err e, v) f h = inl h
    go (ok out, v) f h =
        let p = (fire-Passed machine s c.event c.subject c.check out v).0 f in
        let m = lookup-machine ReleasedBy definition-ReleasedBy s c.event p.move p.found in
        let to : is_released p.move.to ≡ true = rw p.result at h in
        elim (All-mem
          (λ f.
            is_released p.move.to ≡ true
            → (is_released f ≡ true)
              ⊎ ((p.move.event ≡ event_approve) × (p.move.permission ≡ "artifact:approve")))
          s p.move.from m.6 m.2 to) [
            | inl r ↦ inl r
            | inr (e, g) ↦
                inr (rw (eq→== c.event event_approve (sym m.3 ∙ e), rw g at p.permitted) refl)
          ]

status_of_released :
    (s : String) (cs : List Call)
    → is_released (status_of s cs) ≡ true
    → (is_released s ≡ true) ⊎ (any grants_approval cs ≡ true)
unfolding status_of
status_of_released s [] h = inl h
status_of_released s (c ∷ cs) h =
    elim (status_of_released (status_after s (fire machine s c.event c.subject c.check)) cs h) [
      | inl r ↦ elim (step_released s c r) [ inl q ↦ inl q | inr g ↦ inr (ground arith) ]
      | inr a ↦ inr (ground arith)
    ]

-- Whatever calls a draft has seen, by whomever, it is approved, frozen or superseded only if one of
-- them was an approval whose caller's checker granted `artifact:approve`.
pub released_needs_approval :
    (cs : List Call)
    → is_released (status_of status_draft cs) ≡ true
    → any grants_approval cs ≡ true
released_needs_approval cs h = elim (status_of_released status_draft cs h) [
  | inl r ↦ cc
  | inr a ↦ a
]
