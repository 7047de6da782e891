-- ===== src/Examples/Tenants.antt =====
-- A tenant and its changes.
use specforge.Prelude.{◌≡◌, ◌≢◌, refl, none, ok, List, [], ◌∷◌}
use specforge.Text
use specforge.Types
use specforge.Types.Identifiers
use specforge.Fsm
use specforge.Tenancy.{
  Tenant, new_tenant, default_settings, transition_tenant, event_suspend, tenant_suspended,
}
use specforge.Tenancy.Guarantees.{
  TenantCall, configuring, renaming, moving, call_all, IsLegal, settings_bounds,
  suspend_without_reason,
}

abbrev acme : Tenant
unfolding default_settings
acme = record {
  id = "t1";
  slug = "acme";
  name = "Acme";
  status = "PROVISIONING";
  status_reason = "";
  isolation_mode = "shared";
  region = "eu";
  settings = default_settings;
  created_by = "root";
  created_at = 1000;
  updated_at = 1000;
  version = 1;
}

abbrev calls : List TenantCall
calls =
    moving 2000 none "provisioned" ""
    ∷ configuring 3000 (record default_settings { max_exception_days = 400 })
    ∷ configuring 4000 (record default_settings { max_exception_days = 30 })
    ∷ renaming 5000 "Acme Europe"
    ∷ []

settings_bounds_example : IsLegal (call_all acme calls).settings
unfolding new_tenant Text.to_lower Text.trim_space Identifiers.slug_valid Types.isolation_mode_valid
settings_bounds_example =
    settings_bounds 1000 "t1" "Acme" "Acme" "shared" "eu" "root" acme calls refl

-- Acme was suspended once, for an unpaid invoice, and is active again.
abbrev reinstated : Tenant
reinstated = record acme { status = "ACTIVE"; status_reason = "invoice unpaid" }

suspend_without_reason_example :
    (Text.trim_space reinstated.status_reason ≢ ""
      → transition_tenant 9000 none reinstated event_suspend ""
        ≡ ok (record reinstated { status = tenant_suspended; updated_at = 9000 }))
    × (Text.trim_space reinstated.status_reason ≡ ""
        → (t' : Tenant) → transition_tenant 9000 none reinstated event_suspend "" ≢ ok t')
unfolding Fsm.check_permission
suspend_without_reason_example = suspend_without_reason 9000 none reinstated refl refl
