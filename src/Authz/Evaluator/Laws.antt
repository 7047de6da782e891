-- ===== src/Authz/Evaluator/Laws.antt =====
-- The decisions of `Authorize` and `Require` in internal/platform/authz/abac.go.
use specforge.Prelude.{
  ℕ, ◌-◌, ◌≤◌, ◌≡◌, ◌≢◌, ◌⊎◌, ◌↔◌, refl, inl, inr, true, false, ◌==◌, ◌||◌, List, [], ◌∷◌, none,
  arith, eq_iff, eq→==, ne→==, ==→eq, All, Bool-cases, eqb, ltb,
}
use specforge.Errors.{http_status}
use specforge.Types.{requires_four_eyes}
use specforge.Authz.Permissions.{Permission}
use specforge.Authz.Sets.{has}
use specforge.Authz.Sets.Laws.{has-without}
use specforge.Authz.Principal.{Principal, Resource, Policy, kind_system, has_mfa, is_machine}
use specforge.Authz.Rules.{
  Rule, sod_rules, all_own, sod1_applies, sod1_evaluate, sod2_applies, sod2_evaluate, sod3_applies,
  sod3_evaluate, sod4_applies, sod4_evaluate, sod6_applies, sod6_evaluate, step_up_applies,
  step_up_evaluate, prd_approver_applies, prd_approver_evaluate, is_production, has_role,
  is_approval_permission, service_account_set, approval_permissions, requires_step_up,
}
use specforge.Authz.Roles.{role_product_owner, role_architect}
use specforge.Authz.Evaluator.{
  verdict, evaluate_rules, foreign_tenant, effective_permissions, scoped_permissions, authorize,
  require,
}

module _ (pol : Policy) (now : ℕ) (pr : Principal) (p : Permission) (res : Resource) where
  abbrev pub IsSilent : Rule → Type 0
  IsSilent r = verdict r pr p res pol now ≡ ""

  evaluate_rules_allowed :
      (rs : List Rule) → ((evaluate_rules rs pr p res pol now).allowed ≡ true) ↔ All IsSilent rs
  unfolding evaluate_rules
  evaluate_rules_allowed [] = (λ _. tt, λ _. refl)
  evaluate_rules_allowed (r ∷ rs) = (
    λ h. elim (Bool-cases (verdict r pr p res pol now == "")) [
      | inl e ↦
          ((eq_iff (verdict r pr p res pol now) "").0 e, (evaluate_rules_allowed rs).0 (rw e at h))
      | inr e ↦ cc (rw e at h)
    ],
    λ h. rw ((eq_iff (verdict r pr p res pol now) "").1 h.0) ((evaluate_rules_allowed rs).1 h.1),
  )

  -- A request is allowed exactly when the resource is of no tenant or of the caller's, the caller's
  -- effective permissions hold the permission, and no rule of the table objects.
  pub authorize-allowed : ((authorize pol now pr p res).allowed ≡ true) ↔ (
      (foreign_tenant pr res ≡ false)
      × (has (effective_permissions pr res) p ≡ true)
      × All IsSilent sod_rules)
  unfolding authorize
  authorize-allowed = (
    λ h. elim (Bool-cases (foreign_tenant pr res)) [
      | inl f ↦ cc (rw f at h)
      | inr f ↦ elim (Bool-cases (has (effective_permissions pr res) p)) [
        | inl g ↦ (f, g, (evaluate_rules_allowed sod_rules).0 (rw (f, g) at h))
        | inr g ↦ cc (rw (f, g) at h)
      ]
    ],
    λ h. rw (h.0, h.1) ((evaluate_rules_allowed sod_rules).1 h.2),
  )

  -- The segregation of duties that an allowed request respects, rule by rule.
  pub record IsSegregated : Type 0 where
    pub same_tenant : (res.tenant_id ≡ "") ⊎ (pr.tenant_id ≡ res.tenant_id)
    pub not_sole_author :
        sod1_applies p res ≡ true
        → (pol.four_eyes || requires_four_eyes res.artifact_type) ≡ true
        → res.created_by ≢ ""
        → res.created_by ≡ pr.id
        → all_own pr.id res.contributors ≡ false
    pub not_requester : sod2_applies p res ≡ true → res.requested_by ≢ "" → res.requested_by ≢ pr.id
    pub member : sod3_applies p res ≡ true → pr.design_authority ≡ true
    pub not_releaser :
        sod4_applies p res ≡ true
        → pol.prod_deploy_four_eyes ≡ true
        → is_production res ≡ true
        → res.created_by ≡ pr.id
        → all_own pr.id res.contributors ≡ false
    pub human : is_approval_permission p ≡ true → is_machine pr ≡ true → pr.on_behalf_of ≢ none
    pub recent :
        is_approval_permission p ≡ true
        → pr.kind ≢ kind_system
        → (pr.auth_time ≢ 0) × (now - pr.auth_time ≤ pol.step_up_max_age) × (has_mfa pr ≡ true)
    pub product_owner :
        prd_approver_applies p res ≡ true
        → pol.architect_can_approve_prd ≡ false
        → has_role role_architect pr.grants ≡ true
        → has_role role_product_owner pr.grants ≡ true

  -- What the silence of each rule's evaluation says.
  quiet1 :
      sod1_evaluate pr res pol now ≡ ""
      → (pol.four_eyes || requires_four_eyes res.artifact_type) ≡ true
      → res.created_by ≢ ""
      → res.created_by ≡ pr.id
      → all_own pr.id res.contributors ≡ false
  unfolding sod1_evaluate
  quiet1 q f n e = elim (Bool-cases (all_own pr.id res.contributors)) [
    | inl o ↦ cc (rw (f, ne→== res.created_by "" n, eq→== res.created_by pr.id e, o) at q)
    | inr o ↦ o
  ]

  quiet2 : sod2_evaluate pr res pol now ≡ "" → res.requested_by ≢ "" → res.requested_by ≢ pr.id
  unfolding sod2_evaluate
  quiet2 q n e = cc (rw (ne→== res.requested_by "" n, eq→== res.requested_by pr.id e) at q)

  quiet3 : sod3_evaluate pr res pol now ≡ "" → pr.design_authority ≡ true
  unfolding sod3_evaluate
  quiet3 q = elim (Bool-cases pr.design_authority) [ inl d ↦ d | inr d ↦ cc (rw d at q) ]

  quiet4 :
      sod4_evaluate pr res pol now ≡ ""
      → pol.prod_deploy_four_eyes ≡ true
      → is_production res ≡ true
      → res.created_by ≡ pr.id
      → all_own pr.id res.contributors ≡ false
  unfolding sod4_evaluate
  quiet4 q f e o = elim (Bool-cases (all_own pr.id res.contributors)) [
    | inl a ↦ cc (rw (f, e, eq→== res.created_by pr.id o, a) at q)
    | inr a ↦ a
  ]

  quiet6 : sod6_evaluate pr res pol now ≡ "" → is_machine pr ≡ true → pr.on_behalf_of ≢ none
  unfolding sod6_evaluate
  quiet6 q m n = cc (rw (m, n) at q)

  quiet_step_up :
      step_up_evaluate pr res pol now ≡ ""
      → pr.kind ≢ kind_system
      → (pr.auth_time ≢ 0) × (now - pr.auth_time ≤ pol.step_up_max_age) × (has_mfa pr ≡ true)
  unfolding step_up_evaluate
  quiet_step_up q k =
      elim (Bool-cases (eqb pr.auth_time 0 || ltb pol.step_up_max_age (now - pr.auth_time))) [
        | inl late ↦ cc (rw (ne→== pr.kind kind_system k, late) at q)
        | inr fresh ↦ elim (Bool-cases (has_mfa pr)) [
          | inl mfa ↦ (ground (arith, fresh), ground (arith, fresh), mfa)
          | inr bare ↦ cc (rw (ne→== pr.kind kind_system k, fresh, bare) at q)
        ]
      ]

  quiet_prd :
      prd_approver_evaluate pr res pol now ≡ ""
      → pol.architect_can_approve_prd ≡ false
      → has_role role_architect pr.grants ≡ true
      → has_role role_product_owner pr.grants ≡ true
  unfolding prd_approver_evaluate
  quiet_prd q f r = elim (Bool-cases (has_role role_product_owner pr.grants)) [
    | inl o ↦ o
    | inr o ↦ cc (rw (f, r, o) at q)
  ]

  module _ (h : (authorize pol now pr p res).allowed ≡ true) where
    silent : All IsSilent sod_rules
    silent = (authorize-allowed.0 h).2

    segregated_tenant : (res.tenant_id ≡ "") ⊎ (pr.tenant_id ≡ res.tenant_id)
    segregated_tenant = elim (Bool-cases (res.tenant_id == "")) [
      | inl e ↦ inl (==→eq res.tenant_id "" e)
      | inr e ↦ elim (Bool-cases (pr.tenant_id == res.tenant_id)) [
        | inl t ↦ inr (==→eq pr.tenant_id res.tenant_id t)
        | inr t ↦ cc (rw (e, t) at (authorize-allowed.0 h).0)
      ]
    ]

    -- An allowed request respects every rule of the table: it is not across tenants; where four eyes are asked
    -- for, the sole author does not approve, nor release to production; nobody decides what they
    -- requested; Design Authority decisions are its members'; no machine approves for itself; an
    -- approval by anyone but the system follows a recent multi-factor authentication; and a PRD is
    -- not approved by a mere architect unless the tenant lets architects.
    pub allowed-IsSegregated : IsSegregated
    unfolding sod6_applies step_up_applies requires_step_up is_approval_permission
    allowed-IsSegregated =
        let (s1, (s2, (s3, (s4, (s6, (su, (pa, _))))))) = silent in
        record {
          same_tenant = segregated_tenant;
          not_sole_author = λ a. quiet1 (rw a at s1);
          not_requester = λ a. quiet2 (rw a at s2);
          member = λ a. quiet3 (rw a at s3);
          not_releaser = λ a. quiet4 (rw a at s4);
          human = λ a. quiet6 (rw a at s6);
          recent = λ a. quiet_step_up (rw a at su);
          product_owner = λ a. quiet_prd (rw a at pa);
        }

  -- `Require` passes a request exactly when it is allowed; a refusal is answered 401 or 403.
  pub require_status :
      ((require pol now pr p res ≡ none) ↔ ((authorize pol now pr p res).allowed ≡ true))
      × ((authorize pol now pr p res).allowed ≡ false
          → (http_status (require pol now pr p res) ≡ 401)
            ⊎ (http_status (require pol now pr p res) ≡ 403))
  unfolding require http_status
  require_status = ground arith

-- A machine that acts for itself holds none of the approval permissions, whatever its grants.
pub machine_has_no_approval :
    (pr : Principal) (res : Resource) (p : Permission)
    → is_machine pr ≡ true
    → pr.on_behalf_of ≡ none
    → is_approval_permission p ≡ true
    → has (effective_permissions pr res) p ≡ false
unfolding effective_permissions service_account_set is_approval_permission
machine_has_no_approval pr res p m b a =
    ground (arith, has-without (scoped_permissions pr res) approval_permissions p)
