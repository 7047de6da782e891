-- ===== src/Types.antt =====
-- internal/platform/types/types.go: the kinds of artifact, link, origin, status, generator and
-- isolation. Each is a text in the source, so that any text may stand where one is expected; the
-- maps are tables of the known ones.
pub mod Identifiers
use specforge.Prelude.{
  String, Bool, true, false, Option, none, some, List, [], ◌∷◌, ◌==◌, ◌||◌, if◌then◌else◌, is_none,
  not, mem,
}
use specforge.Text.{trim_space, to_upper}

abbrev pub artifact_requirement : String
artifact_requirement = "REQUIREMENT"

abbrev pub artifact_prd : String
artifact_prd = "PRD"

abbrev pub artifact_specification : String
artifact_specification = "SPECIFICATION"

abbrev pub artifact_bpmn_process : String
artifact_bpmn_process = "BPMN_PROCESS"

abbrev pub artifact_architecture : String
artifact_architecture = "ARCHITECTURE"

abbrev pub artifact_api_contract : String
artifact_api_contract = "API_CONTRACT"

abbrev pub artifact_data_model : String
artifact_data_model = "DATA_MODEL"

abbrev pub artifact_sequence : String
artifact_sequence = "SEQUENCE"

abbrev pub artifact_state_machine : String
artifact_state_machine = "STATE_MACHINE"

abbrev pub artifact_code_unit : String
artifact_code_unit = "CODE_UNIT"

abbrev pub artifact_test_case : String
artifact_test_case = "TEST_CASE"

abbrev pub artifact_pipeline_def : String
artifact_pipeline_def = "PIPELINE_DEF"

abbrev pub artifact_deployment : String
artifact_deployment = "DEPLOYMENT"

abbrev pub artifact_policy : String
artifact_policy = "POLICY"

abbrev pub artifact_evidence : String
artifact_evidence = "EVIDENCE"

abbrev pub artifact_prompt : String
artifact_prompt = "PROMPT"

abbrev pub link_derived_from : String
link_derived_from = "DERIVED_FROM"

abbrev pub link_satisfies : String
link_satisfies = "SATISFIES"

abbrev pub link_implements : String
link_implements = "IMPLEMENTS"

abbrev pub link_represented_by : String
link_represented_by = "REPRESENTED_BY"

abbrev pub link_verifies : String
link_verifies = "VERIFIES"

abbrev pub link_realized_by : String
link_realized_by = "REALIZED_BY"

abbrev pub link_deploys : String
link_deploys = "DEPLOYS"

abbrev pub link_contains : String
link_contains = "CONTAINS"

abbrev pub link_depends_on : String
link_depends_on = "DEPENDS_ON"

abbrev pub link_supersedes : String
link_supersedes = "SUPERSEDES"

abbrev pub link_governs : String
link_governs = "GOVERNS"

abbrev pub link_evidences : String
link_evidences = "EVIDENCES"

abbrev pub link_conflicts_with : String
link_conflicts_with = "CONFLICTS_WITH"

abbrev pub origin_human : String
origin_human = "HUMAN"

abbrev pub origin_analyzer : String
origin_analyzer = "ANALYZER"

abbrev pub origin_llm_proposed : String
origin_llm_proposed = "LLM_PROPOSED"

abbrev pub link_proposed : String
link_proposed = "PROPOSED"

abbrev pub link_accepted : String
link_accepted = "ACCEPTED"

abbrev pub link_rejected : String
link_rejected = "REJECTED"

abbrev pub link_stale : String
link_stale = "STALE"

abbrev pub generated_by_user : String
generated_by_user = "USER"

abbrev pub generated_by_analyzer : String
generated_by_analyzer = "ANALYZER"

abbrev pub generated_by_inference : String
generated_by_inference = "INFERENCE"

abbrev pub generated_by_import : String
generated_by_import = "IMPORT"

abbrev pub isolation_shared : String
isolation_shared = "shared"

abbrev pub isolation_dedicated_schema : String
isolation_dedicated_schema = "dedicated_schema"

abbrev pub isolation_single_tenant : String
isolation_single_tenant = "single_tenant"

pub record TypeInfo : Type 0 where
  pub prefix : String
  pub content_schema : String
  pub four_eyes : Bool

abbrev info : String → String → Bool → TypeInfo
info p s f = record { prefix = p; content_schema = s; four_eyes = f }

artifact_types : List (String × TypeInfo)
artifact_types =
    (artifact_requirement, info "REQ" "specforge.requirement.v1" false)
    ∷ (artifact_prd, info "PRD" "specforge.prd.v1" true)
    ∷ (artifact_specification, info "SPEC" "specforge.spec.v1" false)
    ∷ (artifact_bpmn_process, info "BPMN" "specforge.bpmn.v1" false)
    ∷ (artifact_architecture, info "ARCH" "specforge.architecture.v1" true)
    ∷ (artifact_api_contract, info "API" "specforge.api.v1" false)
    ∷ (artifact_data_model, info "DATA" "specforge.datamodel.v1" false)
    ∷ (artifact_sequence, info "SEQ" "specforge.sequence.v1" false)
    ∷ (artifact_state_machine, info "FSM" "specforge.statemachine.v1" false)
    ∷ (artifact_code_unit, info "CODE" "specforge.codeunit.v1" false)
    ∷ (artifact_test_case, info "TEST" "specforge.testcase.v1" false)
    ∷ (artifact_pipeline_def, info "PIPE" "specforge.pipeline.v1" false)
    ∷ (artifact_deployment, info "DEP" "specforge.deployment.v1" false)
    ∷ (artifact_policy, info "POL" "specforge.policy.v1" true)
    ∷ (artifact_evidence, info "EVD" "specforge.evidence.v1" false)
    ∷ (artifact_prompt, info "PRM" "specforge.prompt.v1" false)
    ∷ []

find_info : String → List (String × TypeInfo) → Option TypeInfo
find_info t [] = none
find_info t ((n, i) ∷ rest) = if n == t then some i else find_info t rest

type_info : String → Option TypeInfo
unfolding find_info artifact_types
type_info t = find_info t artifact_types

-- `ArtifactType.Valid`
unfoldable pub artifact_type_valid : String → Bool
unfolding type_info
artifact_type_valid t = not (is_none (type_info t))

-- A missing key gives the zero value.
unfoldable pub prefix : String → String
unfolding type_info
prefix t = elim (type_info t) [ some i ↦ i.prefix | none ↦ "" ]

unfoldable pub default_content_schema : String → String
unfolding type_info
default_content_schema t = elim (type_info t) [ some i ↦ i.content_schema | none ↦ "" ]

unfoldable pub requires_four_eyes : String → Bool
unfolding type_info
requires_four_eyes t = elim (type_info t) [ some i ↦ i.four_eyes | none ↦ false ]

unfoldable pub parse_artifact_type : String → Option String
unfolding artifact_type_valid trim_space to_upper
parse_artifact_type s =
    let t = to_upper (trim_space s) in if artifact_type_valid t then some t else none

link_inverse : List (String × String)
link_inverse =
    (link_derived_from, "DERIVES")
    ∷ (link_satisfies, "SATISFIED_BY")
    ∷ (link_implements, "IMPLEMENTED_BY")
    ∷ (link_represented_by, "REPRESENTS")
    ∷ (link_verifies, "VERIFIED_BY")
    ∷ (link_realized_by, "REALIZES")
    ∷ (link_deploys, "DEPLOYED_BY")
    ∷ (link_contains, "CONTAINED_BY")
    ∷ (link_depends_on, "DEPENDED_ON_BY")
    ∷ (link_supersedes, "SUPERSEDED_BY")
    ∷ (link_governs, "GOVERNED_BY")
    ∷ (link_evidences, "EVIDENCED_BY")
    ∷ (link_conflicts_with, "CONFLICTS_WITH")
    ∷ []

find_inverse : String → List (String × String) → Option String
find_inverse l [] = none
find_inverse l ((n, i) ∷ rest) = if n == l then some i else find_inverse l rest

-- `LinkType.Valid`
unfoldable pub link_type_valid : String → Bool
unfolding find_inverse link_inverse
link_type_valid l = not (is_none (find_inverse l link_inverse))

unfoldable pub inverse : String → String
unfolding find_inverse link_inverse
inverse l = elim (find_inverse l link_inverse) [ some i ↦ i | none ↦ "" ]

unfoldable pub symmetric : String → Bool
symmetric l = l == link_conflicts_with

unfoldable pub parse_link_type : String → Option String
unfolding link_type_valid trim_space to_upper
parse_link_type s = let t = to_upper (trim_space s) in if link_type_valid t then some t else none

unfoldable pub origin_valid : String → Bool
origin_valid o = o == origin_human || o == origin_analyzer || o == origin_llm_proposed

unfoldable pub requires_disposition : String → Bool
requires_disposition o = o == origin_llm_proposed

unfoldable pub generator_kind_valid : String → Bool
generator_kind_valid k =
    k == generated_by_user
    || k == generated_by_analyzer
    || k == generated_by_inference
    || k == generated_by_import

unfoldable pub isolation_mode_valid : String → Bool
isolation_mode_valid m =
    m == isolation_shared || m == isolation_dedicated_schema || m == isolation_single_tenant
