-- ===== src/Authz/Evaluator.antt =====
-- internal/platform/authz/abac.go: `Authorize` and `Require`. The map `Evaluated` of a decision,
-- which only explains it, is left out. The clock's value is an argument.
pub mod Laws
use text.Mathlib.Text.{starts_with}
use specforge.Prelude.{
  ℕ, String, Bool, true, false, ◌==◌, ◌||◌, ◌&&◌, not, List, [], ◌∷◌, Option, none, some,
  if◌then◌else◌, is_none, is_empty,
}
use specforge.Errors.{Error, platform, unauthorized, forbidden}
use specforge.Authz.Permissions.{Permission}
use specforge.Authz.Sets.{Set, has}
use specforge.Authz.Roles.{resolve}
use specforge.Authz.Principal.{Principal, Resource, Policy, is_machine}
use specforge.Authz.Rules.{Rule, sod_rules, service_account_set}

-- The reason of a denial: a rule's text, or `fmt.Sprintf` of the missing permission's name.
pub data Reason : Type 0 where
  stated : String → Reason
  permission_required : Permission → Reason

pub record Decision : Type 0 where
  pub allowed : Bool
  pub rule_id : String
  pub reason : Reason

abbrev pub deny : String → Reason → Decision
deny r why = record { allowed = false; rule_id = r; reason = why }

abbrev pub grant : Decision
grant = record { allowed = true; rule_id = "RBAC+SoD"; reason = stated "granted" }

unfoldable pub scoped_permissions : Principal → Resource → Set
scoped_permissions pr res =
    if not (res.project_id == "") && not (is_empty pr.grants)
    then resolve pr.grants res.project_id
    else pr.permissions

unfoldable pub effective_permissions : Principal → Resource → Set
unfolding scoped_permissions
effective_permissions pr res =
    if is_machine pr && is_none pr.on_behalf_of
    then service_account_set (scoped_permissions pr res)
    else scoped_permissions pr res

-- What one rule says of a request; a rule that does not apply says nothing.
abbrev pub verdict : Rule → Principal → Permission → Resource → Policy → ℕ → String
verdict r pr p res pol now = if r.applies p res then r.evaluate pr res pol now else ""

unfoldable pub evaluate_rules :
    List Rule → Principal → Permission → Resource → Policy → ℕ → Decision
evaluate_rules [] pr p res pol now = grant
evaluate_rules (r ∷ rs) pr p res pol now =
    let rest = evaluate_rules rs pr p res pol now in
    if verdict r pr p res pol now == ""
    then rest
    else deny r.id (stated (verdict r pr p res pol now))

abbrev pub foreign_tenant : Principal → Resource → Bool
foreign_tenant pr res = not (res.tenant_id == "") && not (pr.tenant_id == res.tenant_id)

unfoldable pub authorize : Policy → ℕ → Principal → Permission → Resource → Decision
authorize pol now pr p res =
    if foreign_tenant pr res
    then deny "Tenant-Isolation" (stated "The resource belongs to a different tenant.")
    else if not (has (effective_permissions pr res) p)
    then deny "RBAC" (permission_required p)
    else evaluate_rules sod_rules pr p res pol now

unfoldable pub denial_code : String → String
denial_code rule =
    if rule == "Tenant-Isolation"
    then "authz.tenant_mismatch"
    else if rule == "RBAC"
    then "authz.denied"
    else if starts_with rule "SoD"
    then "sod.violation"
    else "authz.denied"

abbrev is_step_up : Reason → Bool
is_step_up (stated s) = s == "step_up_required"
is_step_up (permission_required p) = false

refusal : Decision → Option Error
refusal d =
    if d.allowed
    then none
    else if is_step_up d.reason
    then some (platform unauthorized "auth.step_up_required" "authz.Require")
    else some (platform forbidden (denial_code d.rule_id) "authz.Require")

unfoldable pub require : Policy → ℕ → Principal → Permission → Resource → Option Error
unfolding refusal
require pol now pr p res = refusal (authorize pol now pr p res)
