-- ===== src/Authz/Principal.antt =====
-- internal/platform/authz/abac.go: the caller, the resource and the tenant's policy. Times and
-- durations are nanoseconds; the zero time is 0.
use specforge.Prelude.{
  ℕ, ◌*◌, String, Bool, true, false, ◌==◌, ◌||◌, List, [], ◌∷◌, Option, if◌then◌else◌, mem,
}
use specforge.Text.{to_lower}
use specforge.Authz.Sets.{Set}
use specforge.Authz.Roles.{Grant}

abbrev pub kind_user : String
kind_user = "USER"

abbrev pub kind_service_account : String
kind_service_account = "SERVICE_ACCOUNT"

abbrev pub kind_system : String
kind_system = "SYSTEM"

pub record Principal : Type 0 where
  pub id : String
  pub kind : String
  pub tenant_id : String
  pub subject : String
  pub issuer : String
  pub display : String
  pub email : String
  pub grants : List Grant
  pub permissions : Set
  pub auth_time : ℕ
  pub amr : List String
  pub break_glass : Bool
  pub on_behalf_of : Option String
  pub design_authority : Bool

abbrev pub second_factors : List String
second_factors =
    "mfa" ∷ "otp" ∷ "hwk" ∷ "swk" ∷ "sms" ∷ "tel" ∷ "face" ∷ "fpt" ∷ "iris" ∷ "pin" ∷ "user" ∷ []

any_factor : List String → Bool
any_factor [] = false
any_factor (m ∷ ms) =
    let rest = any_factor ms in if mem (to_lower m) second_factors then true else rest

unfoldable pub has_mfa : Principal → Bool
unfolding any_factor to_lower
has_mfa p = any_factor p.amr

unfoldable pub is_machine : Principal → Bool
is_machine p = p.kind == kind_service_account || p.kind == kind_system

-- A value of `map[string]any`; only its texts are ever read.
pub data Attribute : Type 0 where
  text : String → Attribute
  other : Attribute

pub record Resource : Type 0 where
  pub type : String
  pub id : String
  pub tenant_id : String
  pub project_id : String
  pub created_by : String
  pub contributors : List String
  pub requested_by : String
  pub artifact_type : String
  pub attributes : List (String × Attribute)

text_or_empty : Attribute → String
text_or_empty (text s) = s
text_or_empty other = ""

-- `s, _ := attributes[k].(string)`
unfoldable pub attribute_text : String → List (String × Attribute) → String
unfolding text_or_empty
attribute_text k [] = ""
attribute_text k ((j, v) ∷ rest) = if j == k then text_or_empty v else attribute_text k rest

pub record Policy : Type 0 where
  pub four_eyes : Bool
  pub architect_can_approve_prd : Bool
  pub step_up_max_age : ℕ
  pub prod_deploy_four_eyes : Bool
  pub policy_set_version : String

abbrev pub minute : ℕ
minute = 60 * 1_000_000_000

abbrev pub default_policy : Policy
default_policy = record {
  four_eyes = true;
  architect_can_approve_prd = false;
  step_up_max_age = 15 * minute;
  prod_deploy_four_eyes = true;
  policy_set_version = "builtin@v1";
}
