-- ===== src/Authz/Permissions.antt =====
-- internal/platform/authz/permissions.go: the permissions, their names and the parser.
-- A permission is the number that `iota` gives its constant.
use specforge.Prelude.{ℕ, String, Option, none, some, List, [], ◌∷◌, ◌==◌, eqb, if◌then◌else◌}
use specforge.Text.{trim_space}

abbrev pub Permission : Type 0
Permission = ℕ

abbrev pub perm_invalid : Permission
perm_invalid = 0

abbrev pub tenant_read : Permission
tenant_read = 1

abbrev pub tenant_create : Permission
tenant_create = 2

abbrev pub tenant_update : Permission
tenant_update = 3

abbrev pub tenant_suspend : Permission
tenant_suspend = 4

abbrev pub tenant_purge : Permission
tenant_purge = 5

abbrev pub project_create : Permission
project_create = 6

abbrev pub project_read : Permission
project_read = 7

abbrev pub project_update : Permission
project_update = 8

abbrev pub project_archive : Permission
project_archive = 9

abbrev pub principal_read : Permission
principal_read = 10

abbrev pub principal_invite : Permission
principal_invite = 11

abbrev pub role_assign : Permission
role_assign = 12

abbrev pub api_key_create : Permission
api_key_create = 13

abbrev pub api_key_revoke : Permission
api_key_revoke = 14

abbrev pub idp_mapping_read : Permission
idp_mapping_read = 15

abbrev pub idp_mapping_update : Permission
idp_mapping_update = 16

abbrev pub artifact_create : Permission
artifact_create = 17

abbrev pub artifact_read : Permission
artifact_read = 18

abbrev pub artifact_edit : Permission
artifact_edit = 19

abbrev pub artifact_submit : Permission
artifact_submit = 20

abbrev pub artifact_review : Permission
artifact_review = 21

abbrev pub artifact_approve : Permission
artifact_approve = 22

abbrev pub artifact_freeze : Permission
artifact_freeze = 23

abbrev pub artifact_delete : Permission
artifact_delete = 24

abbrev pub link_create : Permission
link_create = 25

abbrev pub link_read : Permission
link_read = 26

abbrev pub link_accept : Permission
link_accept = 27

abbrev pub link_reject : Permission
link_reject = 28

abbrev pub prd_discovery : Permission
prd_discovery = 29

abbrev pub prd_upload : Permission
prd_upload = 30

abbrev pub prd_approve : Permission
prd_approve = 31

abbrev pub spec_generate : Permission
spec_generate = 32

abbrev pub spec_approve : Permission
spec_approve = 33

abbrev pub model_generate : Permission
model_generate = 34

abbrev pub model_edit : Permission
model_edit = 35

abbrev pub code_generate : Permission
code_generate = 36

abbrev pub code_read : Permission
code_read = 37

abbrev pub repo_connect : Permission
repo_connect = 38

abbrev pub repo_ingest : Permission
repo_ingest = 39

abbrev pub sync_run : Permission
sync_run = 40

abbrev pub proposal_submit : Permission
proposal_submit = 41

abbrev pub proposal_approve : Permission
proposal_approve = 42

abbrev pub gate_evaluate : Permission
gate_evaluate = 43

abbrev pub policy_read : Permission
policy_read = 44

abbrev pub policy_update : Permission
policy_update = 45

abbrev pub exception_request : Permission
exception_request = 46

abbrev pub exception_grant : Permission
exception_grant = 47

abbrev pub disposition_record : Permission
disposition_record = 48

abbrev pub design_authority_decide : Permission
design_authority_decide = 49

abbrev pub pipeline_read : Permission
pipeline_read = 50

abbrev pub pipeline_trigger : Permission
pipeline_trigger = 51

abbrev pub pipeline_approve : Permission
pipeline_approve = 52

abbrev pub deployment_read : Permission
deployment_read = 53

abbrev pub deployment_approve : Permission
deployment_approve = 54

abbrev pub deployment_rollback : Permission
deployment_rollback = 55

abbrev pub runtime_read : Permission
runtime_read = 56

abbrev pub incident_ack : Permission
incident_ack = 57

abbrev pub incident_manage : Permission
incident_manage = 58

abbrev pub escalation_manage : Permission
escalation_manage = 59

abbrev pub scan_run : Permission
scan_run = 60

abbrev pub finding_read : Permission
finding_read = 61

abbrev pub finding_suppress : Permission
finding_suppress = 62

abbrev pub ai_invoke : Permission
ai_invoke = 63

abbrev pub ai_config : Permission
ai_config = 64

abbrev pub prompt_read : Permission
prompt_read = 65

abbrev pub prompt_publish : Permission
prompt_publish = 66

abbrev pub guardrail_config : Permission
guardrail_config = 67

abbrev pub audit_read : Permission
audit_read = 68

abbrev pub audit_export : Permission
audit_export = 69

abbrev pub perm_max : Permission
perm_max = 70

unfoldable pub permission_names : List (Permission × String)
permission_names =
    (tenant_read, "tenant:read")
    ∷ (tenant_create, "tenant:create")
    ∷ (tenant_update, "tenant:update")
    ∷ (tenant_suspend, "tenant:suspend")
    ∷ (tenant_purge, "tenant:purge")
    ∷ (project_create, "project:create")
    ∷ (project_read, "project:read")
    ∷ (project_update, "project:update")
    ∷ (project_archive, "project:archive")
    ∷ (principal_read, "principal:read")
    ∷ (principal_invite, "principal:invite")
    ∷ (role_assign, "role:assign")
    ∷ (api_key_create, "apikey:create")
    ∷ (api_key_revoke, "apikey:revoke")
    ∷ (idp_mapping_read, "idpmapping:read")
    ∷ (idp_mapping_update, "idpmapping:update")
    ∷ (artifact_create, "artifact:create")
    ∷ (artifact_read, "artifact:read")
    ∷ (artifact_edit, "artifact:edit")
    ∷ (artifact_submit, "artifact:submit")
    ∷ (artifact_review, "artifact:review")
    ∷ (artifact_approve, "artifact:approve")
    ∷ (artifact_freeze, "artifact:freeze")
    ∷ (artifact_delete, "artifact:delete")
    ∷ (link_create, "link:create")
    ∷ (link_read, "link:read")
    ∷ (link_accept, "link:accept")
    ∷ (link_reject, "link:reject")
    ∷ (prd_discovery, "prd:discovery")
    ∷ (prd_upload, "prd:upload")
    ∷ (prd_approve, "prd:approve")
    ∷ (spec_generate, "spec:generate")
    ∷ (spec_approve, "spec:approve")
    ∷ (model_generate, "model:generate")
    ∷ (model_edit, "model:edit")
    ∷ (code_generate, "code:generate")
    ∷ (code_read, "code:read")
    ∷ (repo_connect, "repo:connect")
    ∷ (repo_ingest, "repo:ingest")
    ∷ (sync_run, "sync:run")
    ∷ (proposal_submit, "proposal:submit")
    ∷ (proposal_approve, "proposal:approve")
    ∷ (gate_evaluate, "gate:evaluate")
    ∷ (policy_read, "policy:read")
    ∷ (policy_update, "policy:update")
    ∷ (exception_request, "exception:request")
    ∷ (exception_grant, "exception:grant")
    ∷ (disposition_record, "disposition:record")
    ∷ (design_authority_decide, "designauthority:decide")
    ∷ (pipeline_read, "pipeline:read")
    ∷ (pipeline_trigger, "pipeline:trigger")
    ∷ (pipeline_approve, "pipeline:approve")
    ∷ (deployment_read, "deployment:read")
    ∷ (deployment_approve, "deployment:approve")
    ∷ (deployment_rollback, "deployment:rollback")
    ∷ (runtime_read, "runtime:read")
    ∷ (incident_ack, "incident:ack")
    ∷ (incident_manage, "incident:manage")
    ∷ (escalation_manage, "escalation:manage")
    ∷ (scan_run, "scan:run")
    ∷ (finding_read, "finding:read")
    ∷ (finding_suppress, "finding:suppress")
    ∷ (ai_invoke, "ai:invoke")
    ∷ (ai_config, "ai:config")
    ∷ (prompt_read, "prompt:read")
    ∷ (prompt_publish, "prompt:publish")
    ∷ (guardrail_config, "guardrail:config")
    ∷ (audit_read, "audit:read")
    ∷ (audit_export, "audit:export")
    ∷ []

name_in : Permission → List (Permission × String) → Option String
name_in p [] = none
name_in p ((q, n) ∷ rest) = if eqb q p then some n else name_in p rest

-- `permissionNames[p]`; the text that `String` prints for a number with no name is not modelled.
unfoldable pub name_of : Permission → Option String
unfolding name_in permission_names
name_of p = name_in p permission_names

by_name : String → List (Permission × String) → Option Permission
by_name s [] = none
by_name s ((p, n) ∷ rest) = if n == s then some p else by_name s rest

-- `ParsePermission`; `permissionByName` is the inverse of `permissionNames`.
unfoldable pub parse_permission : String → Option Permission
unfolding by_name permission_names trim_space
parse_permission s = by_name (trim_space s) permission_names
