-- ===== src/Tenancy/Projects.antt =====
-- internal/tenancy/domain/project.go.
use Prim.Native.String.{len}
use specforge.Prelude.{
  ℕ, refl, String, Bool, ◌==◌, not, List, [], ◌∷◌, Result, ok, ◌>>◌, fail_if, ltb, mem,
}
use specforge.Text.{trim_space, to_upper}
use specforge.Errors.{Error, platform, invalid}
use specforge.Types.Identifiers.{project_key_valid}
use specforge.Fsm.{Definition, Machine, build, accepted}
use specforge.Tenancy.{move, name_invalid}

-- The settings, which nothing reads, are left out.
pub record Project : Type 0 where
  pub tenant_id : String
  pub id : String
  pub key : String
  pub name : String
  pub description : String
  pub status : String
  pub phase : String
  pub graph_version : ℕ
  pub created_by : String
  pub created_at : ℕ
  pub updated_at : ℕ
  pub version : ℕ

abbrev pub project_active : String
project_active = "ACTIVE"

abbrev pub project_archived : String
project_archived = "ARCHIVED"

abbrev pub project_purged : String
project_purged = "PURGED"

abbrev pub event_archive : String
event_archive = "archive"

abbrev pub event_restore : String
event_restore = "restore"

abbrev pub event_purge : String
event_purge = "purge"

abbrev pub phase_discover : String
phase_discover = "DISCOVER"

-- `AllPhases`
abbrev pub all_phases : List String
all_phases =
    phase_discover ∷ "DEFINE" ∷ "SPECIFY" ∷ "MODEL" ∷ "ARCHITECT" ∷ "GENERATE" ∷ "VALIDATE"
    ∷ "GOVERN" ∷ "BUILD" ∷ "TEST" ∷ "SECURE" ∷ "DEPLOY" ∷ "OBSERVE" ∷ "REVIEW" ∷ "EVOLVE" ∷ "RETIRE"
    ∷ []

unfoldable pub phase_valid : String → Bool
phase_valid p = mem p all_phases

unfoldable pub new_project :
    ℕ → (tenant_id id key name description by : String) → Result Error Project
new_project now tenant_id id key name description by = do
  fail_if (not (project_key_valid (to_upper (trim_space key))))
      (platform invalid "project.key_invalid" "tenancy.NewProject")
  fail_if (name_invalid (trim_space name))
      (platform invalid "project.name_invalid" "tenancy.NewProject")
  fail_if (ltb 4000 (len description))
      (platform invalid "project.description_too_long" "tenancy.NewProject")
  ok (record {
    tenant_id = tenant_id;
    id = id;
    key = to_upper (trim_space key);
    name = trim_space name;
    description = description;
    status = project_active;
    phase = phase_discover;
    graph_version = 1;
    created_by = by;
    created_at = now;
    updated_at = now;
    version = 1;
  })

unfoldable pub rename_project : ℕ → Project → String → Result Error Project
rename_project now p name = do
  fail_if (name_invalid (trim_space name))
      (platform invalid "project.name_invalid" "tenancy.Project.Rename")
  ok (record p { name = trim_space name; updated_at = now })

unfoldable pub advance_phase : ℕ → Project → String → Result Error Project
unfolding phase_valid
advance_phase now p phase = do
  fail_if (not (phase_valid phase))
      (platform invalid "project.phase_invalid" "tenancy.Project.AdvancePhase")
  ok (record p { phase = phase; updated_at = now })

unfoldable pub project_accepts_writes : Project → Bool
project_accepts_writes p = p.status == project_active

unfoldable pub artifact_prefix : Project → String
artifact_prefix p = p.key

abbrev pub project_definition : Definition Project
project_definition = record {
  name = "project";
  initial = project_active;
  states = project_active ∷ project_archived ∷ project_purged ∷ [];
  terminal = project_purged ∷ [];
  transitions =
      move (project_active ∷ []) event_archive project_archived "project:archive" []
        "project.archived" "project.archive"
      ∷ move (project_archived ∷ []) event_restore project_active "project:archive" []
          "project.restored" "project.restore"
      ∷ move (project_archived ∷ []) event_purge project_purged "tenant:purge" [] "project.purged"
          "project.purge"
      ∷ [];
}

unfoldable pub project_machine : Machine Project
unfolding build
project_machine = accepted (build project_definition) refl
