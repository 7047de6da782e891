-- ===== src/Authz/Rules.antt =====
-- internal/platform/authz/abac.go: the segregation-of-duties rules, in the order of the table. The
-- empty reason allows. `Sub` saturates at 292 years in the source; here it does not.
use specforge.Prelude.{
  ℕ, ◌-◌, String, Bool, true, false, ◌==◌, ◌||◌, ◌&&◌, not, List, [], ◌∷◌, if◌then◌else◌, eqb, ltb,
  is_none,
}
use specforge.Text.{equal_fold}
use specforge.Types.{artifact_prd, requires_four_eyes}
use specforge.Authz.Permissions.{
  Permission, artifact_approve, prd_approve, spec_approve, proposal_approve, exception_grant,
  design_authority_decide, deployment_approve, pipeline_approve, finding_suppress, policy_update,
  tenant_purge, api_key_create, role_assign, prompt_publish, guardrail_config,
}
use specforge.Authz.Sets.{Set, new_set, has, without}
use specforge.Authz.Roles.{Grant, role_product_owner, role_architect}
use specforge.Authz.Principal.{
  Principal, Resource, Policy, kind_system, has_mfa, is_machine, attribute_text,
}

unfoldable pub approval_permissions : Set
approval_permissions = new_set (
    artifact_approve ∷ prd_approve ∷ spec_approve ∷ proposal_approve ∷ exception_grant
    ∷ design_authority_decide ∷ deployment_approve ∷ pipeline_approve ∷ finding_suppress
    ∷ policy_update ∷ tenant_purge ∷ api_key_create ∷ role_assign ∷ prompt_publish
    ∷ guardrail_config ∷ [])

unfoldable pub is_approval_permission : Permission → Bool
is_approval_permission p = has approval_permissions p

unfoldable pub requires_step_up : Permission → Bool
requires_step_up p = has approval_permissions p

-- `ServiceAccountSet` of roles.go.
unfoldable pub service_account_set : Set → Set
service_account_set s = without s approval_permissions

pub record Rule : Type 0 where
  pub id : String
  pub description : String
  pub applies : Permission → Resource → Bool
  pub evaluate : Principal → Resource → Policy → ℕ → String

-- `for _, c := range res.Contributors { if c != pr.ID { return "" } }`
unfoldable pub all_own : String → List String → Bool
all_own id [] = true
all_own id (c ∷ cs) = let rest = all_own id cs in if c == id then rest else false

abbrev pub sod1_reason : String
sod1_reason =
    "Four-eyes control: you are the sole author of this version and cannot also approve it."

unfoldable pub sod1_applies : Permission → Resource → Bool
sod1_applies p res =
    (eqb p artifact_approve || eqb p prd_approve || eqb p spec_approve) && res.type == "artifact"

unfoldable pub sod1_evaluate : Principal → Resource → Policy → ℕ → String
sod1_evaluate pr res pol now =
    if not (pol.four_eyes || requires_four_eyes res.artifact_type)
    then ""
    else if res.created_by == ""
    then ""
    else if not (res.created_by == pr.id)
    then ""
    else if not (all_own pr.id res.contributors)
    then ""
    else sod1_reason

unfoldable pub sod2_applies : Permission → Resource → Bool
sod2_applies p res = eqb p exception_grant || eqb p proposal_approve || eqb p finding_suppress

unfoldable pub sod2_evaluate : Principal → Resource → Policy → ℕ → String
sod2_evaluate pr res pol now =
    if not (res.requested_by == "") && res.requested_by == pr.id
    then "Segregation of duties: you requested this and cannot also decide it."
    else ""

unfoldable pub sod3_applies : Permission → Resource → Bool
sod3_applies p res = eqb p exception_grant || eqb p design_authority_decide

unfoldable pub sod3_evaluate : Principal → Resource → Policy → ℕ → String
sod3_evaluate pr res pol now =
    if pr.design_authority
    then ""
    else "This decision requires membership of the Design Authority for this scope."

unfoldable pub sod4_applies : Permission → Resource → Bool
sod4_applies p res = eqb p deployment_approve && res.type == "deployment"

-- The environment is `prod` or `production`, in any case.
unfoldable pub is_production : Resource → Bool
unfolding attribute_text equal_fold
is_production res =
    let env = attribute_text "environment" res.attributes in
    equal_fold env "prod" || equal_fold env "production"

unfoldable pub sod4_evaluate : Principal → Resource → Policy → ℕ → String
sod4_evaluate pr res pol now =
    if not pol.prod_deploy_four_eyes
    then ""
    else if not (is_production res)
    then ""
    else if not (res.created_by == pr.id)
    then ""
    else if not (all_own pr.id res.contributors)
    then ""
    else "Four-eyes control: you authored every change in this release and cannot also approve its deployment."

unfoldable pub sod6_applies : Permission → Resource → Bool
sod6_applies p res = is_approval_permission p

unfoldable pub sod6_evaluate : Principal → Resource → Policy → ℕ → String
sod6_evaluate pr res pol now =
    if is_machine pr && is_none pr.on_behalf_of
    then "Approval authority cannot be exercised by a service account."
    else ""

unfoldable pub step_up_applies : Permission → Resource → Bool
step_up_applies p res = requires_step_up p

unfoldable pub step_up_evaluate : Principal → Resource → Policy → ℕ → String
step_up_evaluate pr res pol now =
    if pr.kind == kind_system
    then ""
    else if eqb pr.auth_time 0 || ltb pol.step_up_max_age (now - pr.auth_time)
    then "step_up_required"
    else if not (has_mfa pr)
    then "step_up_required"
    else ""

unfoldable pub prd_approver_applies : Permission → Resource → Bool
prd_approver_applies p res =
    (eqb p prd_approve || eqb p artifact_approve)
    && res.type == "artifact"
    && res.artifact_type == artifact_prd

-- `hasPO` and `isArchitect` after the loop over the grants.
unfoldable pub has_role : String → List Grant → Bool
has_role r [] = false
has_role r (g ∷ gs) = g.role == r || has_role r gs

unfoldable pub prd_approver_evaluate : Principal → Resource → Policy → ℕ → String
prd_approver_evaluate pr res pol now =
    if pol.architect_can_approve_prd
    then ""
    else if has_role role_architect pr.grants && not (has_role role_product_owner pr.grants)
    then "This tenant restricts PRD approval to the Product Owner role."
    else ""

abbrev pub rule :
    String
    → String
    → (Permission → Resource → Bool)
    → (Principal → Resource → Policy → ℕ → String)
    → Rule
rule i d a e = record { id = i; description = d; applies = a; evaluate = e }

abbrev pub sod_rules : List Rule
sod_rules =
    rule "SoD-1" "The approver of an artifact version must not be its sole author." sod1_applies
      sod1_evaluate
    ∷ rule "SoD-2" "The principal requesting an exception may not grant it." sod2_applies
        sod2_evaluate
    ∷ rule "SoD-3" "Exception grants and Design Authority decisions require membership of the body."
        sod3_applies sod3_evaluate
    ∷ rule "SoD-4" "The approver of a production deployment must not be its sole author."
        sod4_applies sod4_evaluate
    ∷ rule "SoD-6" "Service accounts may never hold approval authority." sod6_applies sod6_evaluate
    ∷ rule "StepUp" "Sensitive actions require a recent multi-factor authentication."
        step_up_applies step_up_evaluate
    ∷ rule "PRD-Approver" "Architects may approve PRDs only when the tenant permits it."
        prd_approver_applies prd_approver_evaluate
    ∷ []
