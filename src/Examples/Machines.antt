-- ===== src/Examples/Machines.antt =====
-- Error mapping and firing at concrete inputs, on the lifecycle of an artifact.
use specforge.Prelude.{◌≡◌, ◌≢◌, ◌↔◌, ◌⊎◌, ◌≤◌, ◌<◌, refl, true, none, some, ok}
use specforge.Errors.{Error, platform, unavailable, precondition, http_status, retryable}
use specforge.Errors.Laws.{retryable-http_status}
use specforge.Fsm.{Outcome, build, accepted, accepted_lem, fire, is_terminal}
use specforge.Fsm.Validation.{build-IsWellFormed, IsWellFormed}
use specforge.Fsm.Firing.{All-trivial, Fires, EffectFailed, fire_ok, fire_err, fire-terminal}
use specforge.Artifact.Lifecycle.{machine, definition}
use specforge.Examples.Artifacts.{draft}

retryable-http_status_example :
    ((retryable (some (platform unavailable "db.down" "app.Create")) ≡ true) ↔ (
      (http_status (some (platform unavailable "db.down" "app.Create")) ≡ 429)
      ⊎ (http_status (some (platform unavailable "db.down" "app.Create")) ≡ 503)
      ⊎ (http_status (some (platform unavailable "db.down" "app.Create")) ≡ 504)))
    × (400 ≤ http_status (some (platform unavailable "db.down" "app.Create")))
    × (http_status (some (platform unavailable "db.down" "app.Create")) < 600)
retryable-http_status_example =
    retryable-http_status (some (platform unavailable "db.down" "app.Create"))

build-IsWellFormed_example : IsWellFormed (λ _. Unit {0}) machine
unfolding build machine
build-IsWellFormed_example =
    build-IsWellFormed (λ _. Unit {0}) definition machine (All-trivial definition.transitions)
      (accepted_lem (build definition) refl)

abbrev submitted : Outcome
submitted = record {
  from = "DRAFT";
  to = "USER_REVIEW";
  event = "submit_for_review";
  emit_event = "artifact.submitted_for_review";
  audit_action = "artifact.submit";
  permission = "artifact:submit";
}

fire_ok_example :
    (fire machine "DRAFT" "submit_for_review" draft none ≡ (ok submitted, draft))
    ↔ Fires machine "DRAFT" "submit_for_review" draft none submitted draft
fire_ok_example = fire_ok machine "DRAFT" "submit_for_review" draft none submitted draft

abbrev illegal : Error
illegal = platform precondition "fsm.illegal_transition" "fsm.Fire"

fire_err_example : (draft ≡ draft) ⊎ EffectFailed machine "DRAFT" "approve" draft none illegal draft
unfolding fire machine accepted
fire_err_example = fire_err machine "DRAFT" "approve" draft none illegal draft refl

fire-terminal_example : fire machine "ABANDONED" "abandon" draft none ≢ (ok submitted, draft)
unfolding build machine accepted is_terminal
fire-terminal_example =
    fire-terminal definition machine (accepted_lem (build definition) refl) "ABANDONED" "abandon"
      draft none refl submitted draft
