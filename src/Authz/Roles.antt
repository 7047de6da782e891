-- ===== src/Authz/Roles.antt =====
-- internal/platform/authz/roles.go: the role matrix, and the sets that grants resolve to.
pub mod Laws
use specforge.Prelude.{
  String, Option, none, some, List, [], ◌∷◌, ◌++◌, Bool, true, false, ◌==◌, ◌||◌, ◌&&◌, not,
  if◌then◌else◌, is_none,
}
use specforge.Text.{trim_space, to_lower}
use specforge.Authz.Permissions.{
  Permission, tenant_read, tenant_create, tenant_update, tenant_suspend, tenant_purge,
  project_create, project_read, project_update, project_archive, principal_read, principal_invite,
  role_assign, api_key_create, api_key_revoke, idp_mapping_read, idp_mapping_update,
  artifact_create, artifact_read, artifact_edit, artifact_submit, artifact_review, artifact_approve,
  artifact_freeze, artifact_delete, link_create, link_read, link_accept, link_reject, prd_discovery,
  prd_upload, prd_approve, spec_generate, spec_approve, model_generate, model_edit, code_generate,
  code_read, repo_connect, repo_ingest, sync_run, proposal_submit, proposal_approve, gate_evaluate,
  policy_read, policy_update, exception_request, exception_grant, disposition_record,
  design_authority_decide, pipeline_read, pipeline_trigger, pipeline_approve, deployment_read,
  deployment_approve, deployment_rollback, runtime_read, incident_ack, incident_manage,
  escalation_manage, scan_run, finding_read, finding_suppress, ai_invoke, ai_config, prompt_read,
  prompt_publish, guardrail_config, audit_read, audit_export,
}
use specforge.Authz.Sets.{Set, empty_set, new_set, union, without}

abbrev pub role_platform_admin : String
role_platform_admin = "platform_admin"

abbrev pub role_tenant_admin : String
role_tenant_admin = "tenant_admin"

abbrev pub role_product_owner : String
role_product_owner = "product_owner"

abbrev pub role_business_analyst : String
role_business_analyst = "business_analyst"

abbrev pub role_architect : String
role_architect = "architect"

abbrev pub role_developer : String
role_developer = "developer"

abbrev pub role_qa : String
role_qa = "qa"

abbrev pub role_dev_ops : String
role_dev_ops = "devops"

abbrev pub role_security : String
role_security = "security"

abbrev pub role_compliance : String
role_compliance = "compliance"

abbrev pub role_auditor : String
role_auditor = "auditor"

abbrev pub role_viewer : String
role_viewer = "viewer"

abbrev pub read_only_base : List Permission
read_only_base =
    tenant_read ∷ project_read ∷ artifact_read ∷ link_read ∷ pipeline_read ∷ deployment_read
    ∷ runtime_read ∷ policy_read ∷ prompt_read ∷ []

abbrev pub role_permissions : List (String × List Permission)
role_permissions =
    (
      role_platform_admin,
      tenant_read ∷ tenant_create ∷ tenant_update ∷ tenant_suspend ∷ tenant_purge ∷ principal_read
          ∷ runtime_read ∷ policy_read ∷ audit_read ∷ [],
    )
    ∷ (
      role_tenant_admin,
      read_only_base
          ++ (tenant_update ∷ project_create ∷ project_update ∷ project_archive ∷ principal_read
              ∷ principal_invite ∷ role_assign ∷ api_key_create ∷ api_key_revoke ∷ idp_mapping_read
              ∷ idp_mapping_update ∷ repo_connect ∷ exception_request ∷ ai_config ∷ prompt_publish
              ∷ audit_read ∷ []),
    )
    ∷ (
      role_product_owner,
      read_only_base
          ++ (project_create ∷ project_update ∷ artifact_create ∷ artifact_edit ∷ artifact_submit
              ∷ artifact_review ∷ artifact_approve ∷ link_create ∷ link_accept ∷ link_reject
              ∷ prd_discovery ∷ prd_upload ∷ prd_approve ∷ spec_generate ∷ spec_approve
              ∷ proposal_approve ∷ gate_evaluate ∷ exception_request ∷ ai_invoke ∷ finding_read
              ∷ []),
    )
    ∷ (
      role_business_analyst,
      read_only_base
          ++ (artifact_create ∷ artifact_edit ∷ artifact_submit ∷ artifact_review ∷ link_create
              ∷ prd_discovery ∷ prd_upload ∷ spec_generate ∷ model_generate ∷ model_edit
              ∷ proposal_submit ∷ gate_evaluate ∷ exception_request ∷ ai_invoke ∷ []),
    )
    ∷ (
      role_architect,
      read_only_base
          ++ (project_update ∷ artifact_create ∷ artifact_edit ∷ artifact_submit ∷ artifact_review
              ∷ artifact_approve ∷ artifact_freeze ∷ link_create ∷ link_accept ∷ link_reject
              ∷ spec_generate ∷ spec_approve ∷ model_generate ∷ model_edit ∷ code_generate
              ∷ code_read ∷ repo_connect ∷ repo_ingest ∷ sync_run ∷ proposal_submit
              ∷ proposal_approve ∷ gate_evaluate ∷ exception_request ∷ exception_grant
              ∷ disposition_record ∷ design_authority_decide ∷ deployment_approve ∷ finding_read
              ∷ ai_invoke ∷ prompt_publish ∷ audit_read ∷ []),
    )
    ∷ (
      role_developer,
      read_only_base
          ++ (artifact_create ∷ artifact_edit ∷ artifact_submit ∷ link_create ∷ code_generate
              ∷ code_read ∷ repo_connect ∷ repo_ingest ∷ sync_run ∷ proposal_submit ∷ gate_evaluate
              ∷ exception_request ∷ pipeline_trigger ∷ finding_read ∷ ai_invoke ∷ prompt_publish
              ∷ []),
    )
    ∷ (
      role_qa,
      read_only_base
          ++ (artifact_create ∷ artifact_edit ∷ artifact_submit ∷ artifact_review ∷ link_create
              ∷ code_read ∷ proposal_submit ∷ gate_evaluate ∷ exception_request ∷ scan_run
              ∷ finding_read ∷ []),
    )
    ∷ (
      role_dev_ops,
      read_only_base
          ++ (repo_connect ∷ code_read ∷ pipeline_trigger ∷ pipeline_approve ∷ deployment_approve
              ∷ deployment_rollback ∷ incident_ack ∷ incident_manage ∷ escalation_manage
              ∷ gate_evaluate ∷ exception_request ∷ scan_run ∷ finding_read ∷ []),
    )
    ∷ (
      role_security,
      read_only_base
          ++ (artifact_review ∷ code_read ∷ link_read ∷ gate_evaluate ∷ exception_request
              ∷ exception_grant ∷ disposition_record ∷ design_authority_decide ∷ proposal_approve
              ∷ deployment_approve ∷ scan_run ∷ finding_read ∷ finding_suppress ∷ ai_config
              ∷ guardrail_config ∷ prompt_publish ∷ incident_ack ∷ incident_manage ∷ audit_read
              ∷ []),
    )
    ∷ (
      role_compliance,
      read_only_base
          ++ (artifact_review ∷ gate_evaluate ∷ exception_request ∷ exception_grant
              ∷ disposition_record ∷ design_authority_decide ∷ proposal_approve ∷ deployment_approve
              ∷ finding_read ∷ finding_suppress ∷ audit_read ∷ audit_export ∷ []),
    )
    ∷ (
      role_auditor,
      read_only_base
          ++ (principal_read ∷ code_read ∷ finding_read ∷ audit_read ∷ audit_export ∷ []),
    )
    ∷ (role_viewer, read_only_base ++ ([]))
    ∷ []

find_role : String → List (String × List Permission) → Option (List Permission)
find_role r [] = none
find_role r ((n, ps) ∷ rest) = if n == r then some ps else find_role r rest

-- `Role.Valid`
unfoldable pub role_valid : String → Bool
unfolding find_role
role_valid r = not (is_none (find_role r role_permissions))

unfoldable pub parse_role : String → Option String
unfolding role_valid trim_space to_lower
parse_role s = let r = to_lower (trim_space s) in if role_valid r then some r else none

-- `roleSets[r]`: the empty set for a role that is not in the matrix.
unfoldable pub role_set : String → Set
unfolding find_role
role_set r = elim (find_role r role_permissions) [ some ps ↦ new_set ps | none ↦ empty_set ]

unfoldable pub set_for_roles : Set → List String → Set
set_for_roles s [] = s
set_for_roles s (r ∷ rs) = set_for_roles (union s (role_set r)) rs

pub record Grant : Type 0 where
  pub role : String
  -- Empty for a tenant-wide grant.
  pub project_id : String

-- The test that `continue`s in `Resolve`, negated.
abbrev pub in_scope : String → Grant → Bool
in_scope project g = g.project_id == "" || g.project_id == project

resolve_from : Set → List Grant → String → Set
resolve_from s [] project = s
resolve_from s (g ∷ gs) project =
    resolve_from (if in_scope project g then union s (role_set g.role) else s) gs project

unfoldable pub resolve : List Grant → String → Set
unfolding resolve_from
resolve gs project = resolve_from empty_set gs project
