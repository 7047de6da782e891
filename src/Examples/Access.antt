-- ===== src/Examples/Access.antt =====
-- Permission sets, roles and decisions at concrete inputs.
use specforge.Prelude.{
  ℕ, ◌*◌, ◌≡◌, ◌↔◌, ◌⊎◌, refl, true, false, none, List, [], ◌∷◌, ◌&&◌, any, eqb, All,
}
use specforge.Errors.{http_status}
use specforge.Text
use specforge.Authz.Permissions.{artifact_read, artifact_approve}
use specforge.Authz.Sets
use specforge.Authz.Sets.{Set, has, union, without, new_set, is_permission}
use specforge.Authz.Sets.Laws.{has-new_set}
use specforge.Authz.Roles.{Grant, role_set, resolve, in_scope}
use specforge.Authz.Roles.Laws.{has-resolve}
use specforge.Authz.Principal
use specforge.Authz.Principal.{Principal, Resource, Policy, default_policy, minute, is_machine}
use specforge.Authz.Rules
use specforge.Authz.Rules.{sod_rules, is_approval_permission}
use specforge.Authz.Evaluator
use specforge.Authz.Evaluator.{authorize, require, effective_permissions, foreign_tenant}
use specforge.Authz.Evaluator.Laws.{
  IsSilent, IsSegregated, authorize-allowed, allowed-IsSegregated, require_status,
  machine_has_no_approval,
}

abbrev readers : Set
readers = new_set (artifact_read ∷ [])

abbrev pub approvers : Set
approvers = new_set (artifact_approve ∷ artifact_read ∷ [])

has-new_set_example : has approvers artifact_read ≡ (
    is_permission artifact_read
    && any (λ q. eqb q artifact_read) (artifact_approve ∷ artifact_read ∷ []))
has-new_set_example = has-new_set (artifact_approve ∷ artifact_read ∷ []) artifact_read

abbrev grants : List Grant
grants =
    record { role = "ARCHITECT"; project_id = "p1" }
    ∷ record { role = "VIEWER"; project_id = "" }
    ∷ []

has-resolve_example :
    has (resolve grants "p2") artifact_approve
    ≡ any (λ g. in_scope "p2" g && has (role_set g.role) artifact_approve) grants
has-resolve_example = has-resolve grants "p2" artifact_approve

abbrev pub approver : Principal
approver = record {
  id = "bob";
  kind = "USER";
  tenant_id = "t1";
  subject = "bob@idp";
  issuer = "idp";
  display = "Bob";
  email = "bob@example.com";
  grants = [];
  permissions = approvers;
  auth_time = 100 * minute;
  amr = "pwd" ∷ "OTP" ∷ [];
  break_glass = false;
  on_behalf_of = none;
  design_authority = false;
}

abbrev specification : Resource
specification = record {
  type = "artifact";
  id = "SPEC-AUTH-001";
  tenant_id = "t1";
  project_id = "p1";
  created_by = "alice";
  contributors = "alice" ∷ [];
  requested_by = "";
  artifact_type = "SPECIFICATION";
  attributes = [];
}

abbrev now : ℕ
now = 105 * minute

authorize-allowed_example :
    ((authorize default_policy now approver artifact_approve specification).allowed ≡ true) ↔ (
      (foreign_tenant approver specification ≡ false)
      × (has (effective_permissions approver specification) artifact_approve ≡ true)
      × All (IsSilent default_policy now approver artifact_approve specification) sod_rules)
authorize-allowed_example =
    authorize-allowed default_policy now approver artifact_approve specification

require_status_example :
    ((require default_policy now approver artifact_approve specification ≡ none)
      ↔ ((authorize default_policy now approver artifact_approve specification).allowed ≡ true))
    × ((authorize default_policy now approver artifact_approve specification).allowed ≡ false
        → (http_status (require default_policy now approver artifact_approve specification) ≡ 401)
          ⊎ (http_status (require default_policy now approver artifact_approve specification)
              ≡ 403))
require_status_example = require_status default_policy now approver artifact_approve specification

allowed-IsSegregated_example :
    IsSegregated default_policy now approver artifact_approve specification
unfolding authorize Evaluator.evaluate_rules effective_permissions Evaluator.scoped_permissions
    is_machine has new_set Sets.add Principal.has_mfa Rules.sod1_applies Rules.sod1_evaluate
    Rules.sod2_applies Rules.sod3_applies Rules.sod4_applies Rules.sod6_applies Rules.sod6_evaluate
    Rules.step_up_applies Rules.step_up_evaluate Rules.prd_approver_applies is_approval_permission
    Rules.requires_step_up Text.to_lower Rules.approval_permissions
allowed-IsSegregated_example =
    allowed-IsSegregated default_policy now approver artifact_approve specification refl

machine_has_no_approval_example :
    has
      (effective_permissions (record approver { kind = "SERVICE_ACCOUNT" }) specification)
      artifact_approve
    ≡ false
unfolding is_machine is_approval_permission has new_set Sets.add Rules.approval_permissions
machine_has_no_approval_example =
    machine_has_no_approval (record approver { kind = "SERVICE_ACCOUNT" }) specification
      artifact_approve refl refl refl
