-- ===== src/Artifact/Lifecycle.antt =====
-- internal/artifactgraph/domain/artifact.go: the artifact lifecycle as a machine of the engine.
pub mod Laws
use Prim.Native.String.{len}
use specforge.Prelude.{
  ◌≡◌, refl, String, Bool, true, false, ◌==◌, ◌&&◌, List, [], ◌∷◌, Option, none, some, Result, ok,
  err, eqb, if◌then◌else◌, is_ok,
}
use specforge.Errors.{Error}
use specforge.Fsm.{Transition, Definition, Machine, build, accepted}
use specforge.Artifact.Version.{
  Version, bad, status_draft, status_ai_review, status_user_review, status_changes_requested,
  status_approved, status_frozen, status_superseded, status_abandoned,
}

abbrev pub event_submit_for_ai_review : String
event_submit_for_ai_review = "submit_for_ai_review"

abbrev pub event_ai_review_passed : String
event_ai_review_passed = "ai_review_passed"

abbrev pub event_ai_review_blocking : String
event_ai_review_blocking = "ai_review_findings_blocking"

abbrev pub event_submit_for_review : String
event_submit_for_review = "submit_for_review"

abbrev pub event_request_changes : String
event_request_changes = "request_changes"

abbrev pub event_approve : String
event_approve = "approve"

abbrev pub event_freeze : String
event_freeze = "freeze"

abbrev pub event_supersede : String
event_supersede = "superseded_by"

abbrev pub event_abandon : String
event_abandon = "abandon"

unfoldable pub require_content : Version → Option Error
require_content v =
    if eqb (len v.content) 0 && v.content_ref == ""
    then some (bad "artifact.content_required" "artifact.requireContent")
    else none

unfoldable pub require_schema : Version → Option Error
require_schema v =
    if v.content_schema == ""
    then some (bad "artifact.content_schema_required" "artifact.requireSchema")
    else none

abbrev pub move :
    List String
    → String
    → String
    → String
    → List (Version → Option Error)
    → String
    → String
    → Transition Version
move from ev to permission guards emit audit = record {
  from = from;
  event = ev;
  to = to;
  permission = permission;
  guards = guards;
  effects = [];
  emit_event = emit;
  audit_action = audit;
}

abbrev pub review_guards : List (Version → Option Error)
review_guards = require_content ∷ require_schema ∷ []

abbrev pub definition : Definition Version
definition = record {
  name = "artifact";
  initial = status_draft;
  states =
      status_draft ∷ status_ai_review ∷ status_user_review ∷ status_changes_requested
      ∷ status_approved ∷ status_frozen ∷ status_superseded ∷ status_abandoned ∷ [];
  terminal = status_superseded ∷ status_abandoned ∷ [];
  transitions =
      move (status_draft ∷ []) event_submit_for_ai_review status_ai_review "artifact:submit"
        review_guards "artifact.submitted_for_ai_review" "artifact.submit_ai_review"
      ∷ move (status_ai_review ∷ []) event_ai_review_passed status_user_review "" []
          "artifact.ai_review_passed" "artifact.ai_review_passed"
      ∷ move (status_ai_review ∷ []) event_ai_review_blocking status_changes_requested "" []
          "artifact.changes_requested" "artifact.ai_review_blocking"
      ∷ move (status_draft ∷ []) event_submit_for_review status_user_review "artifact:submit"
          review_guards "artifact.submitted_for_review" "artifact.submit"
      ∷ move (status_user_review ∷ []) event_request_changes status_changes_requested
          "artifact:review" [] "artifact.changes_requested" "artifact.request_changes"
      ∷ move (status_user_review ∷ []) event_approve status_approved "artifact:approve"
          review_guards "artifact.approved" "artifact.approve"
      ∷ move (status_approved ∷ []) event_freeze status_frozen "artifact:freeze" []
          "artifact.frozen" "artifact.freeze"
      ∷ move (status_approved ∷ status_frozen ∷ []) event_supersede status_superseded "" []
          "artifact.superseded" "artifact.supersede"
      ∷ move (status_draft ∷ status_changes_requested ∷ []) event_abandon status_abandoned
          "artifact:delete" [] "artifact.abandoned" "artifact.abandon"
      ∷ [];
}

unfoldable pub machine : Machine Version
unfolding build
machine = accepted (build definition) refl
