-- ===== src/Tenancy.antt =====
-- internal/tenancy/domain/tenant.go and internal/tenancy/domain/project.go, with the change of state
-- of `transitionTenant` of internal/tenancy/app/service.go. Durations are in nanoseconds and never
-- negative; a float64 is not a number, below zero, a number of millionths, or infinite.
pub mod Projects
pub mod Guarantees
use Prim.Native.String.{len}
use specforge.Prelude.{
  ℕ, ◌+◌, ◌*◌, ◌≡◌, refl, String, Bool, true, false, ◌==◌, ◌&&◌, ◌||◌, not, Option, none, some,
  List, [], ◌∷◌, Result, ok, err, ◌>>=◌, ◌>>◌, fail_if, check, ltb, if◌then◌else◌, mem,
}
use specforge.Text.{trim_space, to_lower, to_upper}
use specforge.Errors.{Error, platform, invalid}
use specforge.Types.{isolation_mode_valid}
use specforge.Types.Identifiers.{slug_valid, project_key_valid}
use specforge.Fsm.{
  Transition, Definition, Machine, Outcome, PermissionChecker, build, accepted, fire,
}

pub data Float64 : Type 0 where
  nan negative infinite : Float64
  millionths : ℕ → Float64

-- `f < n` and `f > n`, with n in millionths: both are false of what is not a number.
unfoldable pub float_below : Float64 → ℕ → Bool
float_below nan n = false
float_below negative n = true
float_below infinite n = false
float_below (millionths x) n = ltb x n

unfoldable pub float_above : Float64 → ℕ → Bool
float_above nan n = false
float_above negative n = false
float_above infinite n = true
float_above (millionths x) n = ltb n x

pub record Settings : Type 0 where
  pub four_eyes : Bool
  pub architect_can_approve_prd : Bool
  pub step_up_max_age : ℕ
  pub evidence_retention : ℕ
  pub link_auto_accept_min : Float64
  pub max_proposals_per_sweep : ℕ
  pub max_exception_days : ℕ
  pub data_residency : String
  pub allowed_ai_providers : List String
  pub guardrail_chain : String
  pub monthly_token_budget : ℕ
  pub policy_set : String

abbrev pub second : ℕ
second = 1000000000

abbrev pub minute : ℕ
minute = 60 * second

abbrev pub hour : ℕ
hour = 3600 * second

abbrev pub seven_years : ℕ
seven_years = 7 * 365 * 24 * hour

unfoldable pub default_settings : Settings
default_settings = record {
  four_eyes = true;
  architect_can_approve_prd = false;
  step_up_max_age = 15 * minute;
  evidence_retention = seven_years;
  link_auto_accept_min = millionths 950000;
  max_proposals_per_sweep = 50;
  max_exception_days = 90;
  data_residency = "";
  allowed_ai_providers = "simulator" ∷ [];
  guardrail_chain = "GRC-strict@v2";
  monthly_token_budget = 0;
  policy_set = "builtin@v1";
}

abbrev refused : String → Error
refused code = platform invalid code "tenancy.Settings.Validate"

unfoldable pub validate_settings : Settings → Result Error (Unit {0})
unfolding float_below float_above
validate_settings s = do
  fail_if (ltb s.step_up_max_age minute || ltb (8 * hour) s.step_up_max_age)
      (refused "tenant.step_up_max_age_invalid")
  fail_if (ltb s.evidence_retention seven_years) (refused "tenant.evidence_retention_too_short")
  fail_if (float_below s.link_auto_accept_min 900000 || float_above s.link_auto_accept_min 1000000)
      (refused "tenant.link_threshold_invalid")
  fail_if (ltb s.max_exception_days 1 || ltb 365 s.max_exception_days)
      (refused "tenant.max_exception_days_invalid")
  fail_if (ltb s.max_proposals_per_sweep 1 || ltb 1000 s.max_proposals_per_sweep)
      (refused "tenant.max_proposals_invalid")

pub record Tenant : Type 0 where
  pub id : String
  pub slug : String
  pub name : String
  pub status : String
  pub status_reason : String
  pub isolation_mode : String
  pub region : String
  pub settings : Settings
  pub created_by : String
  pub created_at : ℕ
  pub updated_at : ℕ
  pub version : ℕ

abbrev pub tenant_provisioning : String
tenant_provisioning = "PROVISIONING"

abbrev pub tenant_active : String
tenant_active = "ACTIVE"

abbrev pub tenant_suspended : String
tenant_suspended = "SUSPENDED"

abbrev pub tenant_deprovisioning : String
tenant_deprovisioning = "DEPROVISIONING"

abbrev pub tenant_purged : String
tenant_purged = "PURGED"

abbrev pub tenant_failed : String
tenant_failed = "FAILED"

abbrev pub event_provisioned : String
event_provisioned = "provisioned"

abbrev pub event_provision_failed : String
event_provision_failed = "provision_failed"

abbrev pub event_suspend : String
event_suspend = "suspend"

abbrev pub event_reinstate : String
event_reinstate = "reinstate"

abbrev pub event_request_deletion : String
event_request_deletion = "request_deletion"

abbrev pub event_execute_purge : String
event_execute_purge = "execute_purge"

abbrev pub name_invalid : String → Bool
name_invalid name = name == "" || ltb 200 (len name)

unfoldable pub new_tenant : ℕ → (id slug name mode region by : String) → Result Error Tenant
unfolding default_settings
new_tenant now id slug name mode region by = do
  fail_if (not (slug_valid (to_lower (trim_space slug))))
      (platform invalid "tenant.slug_invalid" "tenancy.NewTenant")
  fail_if (name_invalid (trim_space name))
      (platform invalid "tenant.name_invalid" "tenancy.NewTenant")
  fail_if (not (isolation_mode_valid mode))
      (platform invalid "tenant.isolation_mode_invalid" "tenancy.NewTenant")
  ok (record {
    id = id;
    slug = to_lower (trim_space slug);
    name = trim_space name;
    status = tenant_provisioning;
    status_reason = "";
    isolation_mode = mode;
    region = region;
    settings = default_settings;
    created_by = by;
    created_at = now;
    updated_at = now;
    version = 1;
  })

unfoldable pub rename_tenant : ℕ → Tenant → String → Result Error Tenant
rename_tenant now t name = do
  fail_if (name_invalid (trim_space name)) (platform invalid "tenant.name_invalid" "tenancy.Rename")
  ok (record t { name = trim_space name; updated_at = now })

unfoldable pub update_settings : ℕ → Tenant → Settings → Result Error Tenant
unfolding validate_settings
update_settings now t s = do validate_settings s; ok (record t { settings = s; updated_at = now })

unfoldable pub tenant_accepts_writes : Tenant → Bool
tenant_accepts_writes t = t.status == tenant_active

unfoldable pub require_reason : Tenant → Option Error
require_reason t =
    if trim_space t.status_reason == ""
    then some (platform invalid "tenant.reason_required" "tenancy.requireReason")
    else none

abbrev pub move {ℓ} :
    {T : Type ℓ}
    → List String
    → (event to permission : String) → List (T → Option Error)
    → (emit audit : String) → Transition T
move from event to permission guards emit audit = record {
  from = from;
  event = event;
  to = to;
  permission = permission;
  guards = guards;
  effects = [];
  emit_event = emit;
  audit_action = audit;
}

abbrev pub tenant_definition : Definition Tenant
tenant_definition = record {
  name = "tenant";
  initial = tenant_provisioning;
  states =
      tenant_provisioning ∷ tenant_active ∷ tenant_suspended ∷ tenant_deprovisioning ∷ tenant_purged
      ∷ tenant_failed ∷ [];
  terminal = tenant_purged ∷ tenant_failed ∷ [];
  transitions =
      move (tenant_provisioning ∷ []) event_provisioned tenant_active "" [] "tenant.provisioned"
        "tenant.provision"
      ∷ move (tenant_provisioning ∷ []) event_provision_failed tenant_failed "" []
          "tenant.provision.failed" "tenant.provision_failed"
      ∷ move (tenant_active ∷ []) event_suspend tenant_suspended "tenant:suspend"
          (require_reason ∷ []) "tenant.suspended" "tenant.suspend"
      ∷ move (tenant_suspended ∷ []) event_reinstate tenant_active "tenant:suspend" []
          "tenant.reinstated" "tenant.reinstate"
      ∷ move (tenant_active ∷ tenant_suspended ∷ []) event_request_deletion tenant_deprovisioning
          "tenant:purge" (require_reason ∷ []) "tenant.deprovisioning" "tenant.request_deletion"
      ∷ move (tenant_deprovisioning ∷ []) event_execute_purge tenant_purged "tenant:purge" []
          "tenant.purge.completed" "tenant.purge"
      ∷ [];
}

unfoldable pub tenant_machine : Machine Tenant
unfolding build
tenant_machine = accepted (build tenant_definition) refl

-- `if reason != "" { tenant.StatusReason = reason }`
abbrev pub with_reason : String → Tenant → Tenant
with_reason reason t = if reason == "" then t else record t { status_reason = reason }

-- The change of a tenant that `transitionTenant` writes.
unfoldable pub transition_tenant :
    ℕ → PermissionChecker → Tenant → String → String → Result Error Tenant
transition_tenant now checker t event reason =
    let t' = with_reason reason t in
    (fire tenant_machine t'.status event t' checker).0 >>= λ (out : Outcome).
    ok (record t' { status = out.to; updated_at = now })
