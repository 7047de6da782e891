-- ===== src/Tenancy/Guarantees.antt =====
-- What holds of a tenant after any history of calls of internal/tenancy/domain/tenant.go and of
-- changes of its state by internal/tenancy/app/service.go.
use mathlib.Core.Path.{subst}
use specforge.Prelude.{
  ℕ, ◌*◌, ◌≤◌, ◌≡◌, ◌≢◌, refl, sym, ap, ◌∙◌, String, true, false, ◌||◌, not, none, some, List, [],
  ◌∷◌, Result, ok, err, ◌>>=◌, >>=_ok, fail_if_ok, fail_if_last, ok-injective, arith, ltb, mem,
  some-injective, ne→==,
}
use specforge.Text.{trim_space, to_lower}
use specforge.Errors.{Error, platform, invalid}
use specforge.Types.{isolation_mode_valid}
use specforge.Types.Identifiers.{slug_valid}
use specforge.Fsm.Firing.{fire-Passed}
use specforge.Fsm.{
  Transition, outcome, run_effects, Outcome, PermissionChecker, check_permission, fire, lookup,
  run_guards,
}
use specforge.Fsm
use specforge.Tenancy.{
  move, Settings, Tenant, minute, hour, seven_years, default_settings, validate_settings,
  new_tenant, rename_tenant, update_settings, transition_tenant, tenant_machine, event_suspend,
  Float64, nan, negative, infinite, millionths, float_below, float_above, tenant_active,
  tenant_suspended, name_invalid, with_reason, require_reason,
}

-- A number from 0.9 to 1, or not a number at all: a comparison with that is false.
abbrev pub IsThreshold : Float64 → Type 0
IsThreshold nan = Unit {0}
IsThreshold negative = ⊥
IsThreshold infinite = ⊥
IsThreshold (millionths x) = (900000 ≤ x) × (x ≤ 1000000)

float_within :
    (f : Float64) → (float_below f 900000 || float_above f 1000000) ≡ false → IsThreshold f
unfolding float_below float_above
float_within nan h = tt
float_within negative h = cc
float_within infinite h = cc
float_within (millionths x) h = ground (arith, h)

-- The bounds of the settings.
pub record IsLegal (s : Settings) : Type 0 where
  pub step_up : (minute ≤ s.step_up_max_age) × (s.step_up_max_age ≤ 8 * hour)
  pub retention : seven_years ≤ s.evidence_retention
  pub threshold : IsThreshold s.link_auto_accept_min
  pub exceptions : (1 ≤ s.max_exception_days) × (s.max_exception_days ≤ 365)
  pub proposals : (1 ≤ s.max_proposals_per_sweep) × (s.max_proposals_per_sweep ≤ 1000)

within : (a b x : ℕ) → (ltb x a || ltb b x) ≡ false → (a ≤ x) × (x ≤ b)
within a b x h = ground (arith, h)

validate_settings-IsLegal : (s : Settings) → validate_settings s ≡ ok tt → IsLegal s
unfolding validate_settings
validate_settings-IsLegal s h =
    let (a, h1) =
      fail_if_ok (ltb s.step_up_max_age minute || ltb (8 * hour) s.step_up_max_age) _ _ tt h in
    let (b, h2) = fail_if_ok (ltb s.evidence_retention seven_years) _ _ tt h1 in
    let (c, h3) =
      fail_if_ok
        (float_below s.link_auto_accept_min 900000 || float_above s.link_auto_accept_min 1000000) _
        _ tt h2 in
    let (d, h4) =
      fail_if_ok (ltb s.max_exception_days 1 || ltb 365 s.max_exception_days) _ _ tt h3 in
    let e =
      fail_if_last (ltb s.max_proposals_per_sweep 1 || ltb 1000 s.max_proposals_per_sweep) _ h4 in
    record {
      step_up = within minute (8 * hour) s.step_up_max_age a;
      retention = ground (arith, b);
      threshold = float_within s.link_auto_accept_min c;
      exceptions = within 1 365 s.max_exception_days d;
      proposals = within 1 1000 s.max_proposals_per_sweep e;
    }

-- One call.
pub data TenantCall : Type 0 where
  renaming : (now : ℕ) (name : String) → TenantCall
  configuring : (now : ℕ) (settings : Settings) → TenantCall
  moving : (now : ℕ) (checker : PermissionChecker) (event reason : String) → TenantCall

unfoldable pub call : Tenant → TenantCall → Result Error Tenant
call t (renaming now name) = rename_tenant now t name
call t (configuring now s) = update_settings now t s
call t (moving now checker event reason) = transition_tenant now checker t event reason

-- A call that fails changes nothing.
abbrev pub or_same : Tenant → Result Error Tenant → Tenant
or_same t (ok t') = t'
or_same t (err e) = t

unfoldable pub call_all : Tenant → List TenantCall → Tenant
unfolding call
call_all t [] = t
call_all t (c ∷ cs) = call_all (or_same t (call t c)) cs

or_same-IsLegal :
    (t : Tenant) (r : Result Error Tenant)
    → IsLegal t.settings
    → ((t' : Tenant) → r ≡ ok t' → IsLegal t'.settings)
    → IsLegal (or_same t r).settings
or_same-IsLegal t (ok t') l f = f t' refl
or_same-IsLegal t (err e) l f = l

with_reason-settings : (reason : String) (t : Tenant) → (with_reason reason t).settings ≡ t.settings
with_reason-settings reason t = ground arith

call-IsLegal :
    (t : Tenant) (c : TenantCall) (t' : Tenant)
    → IsLegal t.settings
    → call t c ≡ ok t'
    → IsLegal t'.settings
unfolding call rename_tenant update_settings transition_tenant
call-IsLegal t (renaming now name) t' l h =
    let (_, done) = fail_if_ok (name_invalid (trim_space name)) _ _ t' h in
    subst (λ (x : Tenant). IsLegal x.settings) (ok-injective _ t' done) l
call-IsLegal t (configuring now s) t' l h =
    let (_, legal, done) = >>=_ok (validate_settings s) _ t' h in
    subst (λ (x : Tenant). IsLegal x.settings) (ok-injective _ t' done)
      (validate_settings-IsLegal s legal)
call-IsLegal t (moving now checker event reason) t' l h =
    let u = with_reason reason t in
    let (out, _, done) = >>=_ok (fire tenant_machine u.status event u checker).0 _ t' h in
    subst (λ (x : Tenant). IsLegal x.settings) (ok-injective _ t' done)
      (subst IsLegal (sym (with_reason-settings reason t)) l)

call_all-IsLegal :
    (t : Tenant) (cs : List TenantCall) → IsLegal t.settings → IsLegal (call_all t cs).settings
unfolding call_all
call_all-IsLegal t [] l = l
call_all-IsLegal t (c ∷ cs) l =
    call_all-IsLegal (or_same t (call t c)) cs
      (or_same-IsLegal t (call t c) l (λ t' h. call-IsLegal t c t' l h))

default_settings-IsLegal : IsLegal default_settings
unfolding default_settings
default_settings-IsLegal = record {
  step_up = (omega arith, omega arith);
  retention = omega arith;
  threshold = (omega arith, omega arith);
  exceptions = (omega arith, omega arith);
  proposals = (omega arith, omega arith);
}

-- A tenant that the constructor returns has settings within their bounds after any further calls:
-- a step-up age from one minute to eight hours, a retention of at least seven years, a threshold
-- from 0.9 to 1 or not a number (NaN), exceptions of 1 to 365 days and sweeps of 1 to 1000 proposals.
pub settings_bounds :
    (now : ℕ) (id slug name mode region by : String) (t : Tenant) (cs : List TenantCall)
    → new_tenant now id slug name mode region by ≡ ok t
    → IsLegal (call_all t cs).settings
unfolding new_tenant
settings_bounds now id slug name mode region by t cs h =
    let (_, h1) = fail_if_ok (not (slug_valid (to_lower (trim_space slug)))) _ _ t h in
    let (_, h2) = fail_if_ok (name_invalid (trim_space name)) _ _ t h1 in
    let (_, done) = fail_if_ok (not (isolation_mode_valid mode)) _ _ t h2 in
    call_all-IsLegal t cs
      (subst (λ (x : Tenant). IsLegal x.settings) (ok-injective _ t done) default_settings-IsLegal)

module _ (now : ℕ) (checker : PermissionChecker) (t : Tenant) (active : t.status ≡ tenant_active)
    (granted : check_permission checker "tenant:suspend" ≡ none) where
  suspension : Transition Tenant
  suspension =
      move (tenant_active ∷ []) event_suspend tenant_suspended "tenant:suspend"
        (require_reason ∷ []) "tenant.suspended" "tenant.suspend"

  suspension-lookup : lookup tenant_machine t.status event_suspend ≡ some suspension
  unfolding Fsm.lookup tenant_machine Fsm.accepted suspension
  suspension-lookup = rw active refl

  known_state : mem t.status tenant_machine.states ≡ true
  unfolding tenant_machine Fsm.accepted
  known_state = rw active refl

  passes : trim_space t.status_reason ≢ "" → require_reason t ≡ none
  unfolding require_reason
  passes n = rw (ne→== (trim_space t.status_reason) "" n) refl

  fails :
      trim_space t.status_reason ≡ ""
      → require_reason t ≡ some (platform invalid "tenant.reason_required" "tenancy.requireReason")
  unfolding require_reason
  fails e = rw e refl

  suspension-fires :
      trim_space t.status_reason ≢ ""
      → fire tenant_machine t.status event_suspend t checker
        ≡ (ok (outcome t.status event_suspend suspension), t)
  unfolding suspension run_effects run_guards
  suspension-fires n =
      (fire-Passed tenant_machine t.status event_suspend t checker
          (outcome t.status event_suspend suspension) t).1
        (record {
          move = suspension;
          known = known_state;
          found = suspension-lookup;
          permitted = granted;
          guarded = rw (run_guards, passes n) refl;
          effected = refl;
          result = refl;
        })

  suspension-refused :
      (out : Outcome) (x : Tenant)
      → trim_space t.status_reason ≡ ""
      → fire tenant_machine t.status event_suspend t checker ≢ (ok out, x)
  unfolding suspension run_guards
  suspension-refused out x e h =
      let p = (fire-Passed tenant_machine t.status event_suspend t checker out x).0 h in
      let same : p.move ≡ suspension =
        some-injective p.move suspension (sym p.found ∙ suspension-lookup) in
      let guarded =
        subst (λ (m : Transition Tenant). run_guards m.guards t ≡ none) same p.guarded in
      cc (rw (run_guards, fails e) at guarded)

  -- A suspension of an active tenant for which no reason is given, by a caller with the permission,
  -- is carried out where the tenant still carries the reason of an earlier change, and refused only
  -- where it carries none.
  pub suspend_without_reason :
      (trim_space t.status_reason ≢ ""
        → transition_tenant now checker t event_suspend ""
          ≡ ok (record t { status = tenant_suspended; updated_at = now }))
      × (trim_space t.status_reason ≡ ""
          → (t' : Tenant) → transition_tenant now checker t event_suspend "" ≢ ok t')
  unfolding transition_tenant suspension
  suspend_without_reason = (
    λ n.
        ap
          (λ (r : Result Error Outcome × Tenant).
            r.0 >>= λ (out : Outcome). ok (record t { status = out.to; updated_at = now }))
          (suspension-fires n),
    λ e t' h.
        let fired = fire tenant_machine t.status event_suspend t checker in
        let (out, success, _) = >>=_ok fired.0 _ t' h in
        suspension-refused out fired.1 e (ap (λ (r : Result Error Outcome). (r, fired.1)) success),
  )
