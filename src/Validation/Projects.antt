-- ===== src/Validation/Projects.antt =====
-- The bodies of requests that create and change a project
-- (control_plane/application/projects/validation.py).
use autodeploy_platform.Prelude.{
  ℕ, String, Bool, true, false, ◌&&◌, ◌||◌, not, leb, Option, none, some, List, [], ◌∷◌, text_eq,
  is_some, fstring, if◌then◌else◌,
}
use autodeploy_platform.Json.{
  Json, null, num, str, arr, obj, nil, Dict, end, field, get?, put, opt_str, json_truthy,
}
use autodeploy_platform.Security.{normalize_project_env_vars}
use autodeploy_platform.Models.Rows.{Project}
use autodeploy_platform.Validation.Checks.{
  Check, accepted, rejected, ◌then◌, require, check_field, get, get_or, join, is_one_of,
  unsupported_fields_error,
}
use autodeploy_platform.Validation.Patterns.{is_env_var_name}
use autodeploy_platform.Validation.Fields.{
  validate_bounded_string, on_text, text_field, validate_branch_name, validate_healthcheck_path,
  validate_resource_quantity,
}
use autodeploy_platform.Validation.Repositories.{
  Surroundings, normalize_github_repo_url, validate_repo_url, validate_repo_relative_path,
}
use autodeploy_platform.Validation.Commands.{validate_optional_command}
use autodeploy_platform.Validation.Variables.{validate_project_env_vars}
pub mod Entries
pub mod Spec
pub mod Sound

-- PROJECT_ALLOWED_FIELDS
abbrev pub project_allowed_fields : List String
project_allowed_fields =
    "name" ∷ "repo_url" ∷ "branch" ∷ "git_auth_type" ∷ "git_secret_ref" ∷ "dockerfile_path"
    ∷ "build_context" ∷ "port" ∷ "healthcheck_path" ∷ "env_vars" ∷ "default_test_command"
    ∷ "migration_command" ∷ "cpu" ∷ "memory" ∷ "trigger" ∷ "runtime" ∷ []

-- Project.VALID_TRIGGERS, VALID_RUNTIMES, VALID_GIT_AUTH_TYPES
abbrev pub valid_triggers : List String
valid_triggers = "manual" ∷ "github_push" ∷ []

abbrev pub valid_runtimes : List String
valid_runtimes = "dockerfile" ∷ []

abbrev pub valid_git_auth_types : List String
valid_git_auth_types = "none" ∷ "token" ∷ []

unfoldable pub check_git_secret_ref : Json → Check
check_git_secret_ref v =
    validate_bounded_string v "git_secret_ref" 120 true false
    then on_text
        (λ s.
          require (is_env_var_name s)
            "Invalid git_secret_ref. Expected an environment-variable identifier")
        v

unfoldable pub validate_project_spec_fields : Surroundings → Dict → Check
validate_project_spec_fields around payload =
    check_field "name" payload (λ v. validate_bounded_string v "name" 120 false false)
    then check_field "branch" payload validate_branch_name
    then check_field "repo_url" payload (validate_repo_url around)
    then check_field "dockerfile_path" payload
        (λ v. validate_repo_relative_path around v "dockerfile_path" false)
    then check_field "build_context" payload
        (λ v. validate_repo_relative_path around v "build_context" true)
    then check_field "healthcheck_path" payload validate_healthcheck_path
    then check_field "default_test_command" payload
        (λ v. validate_optional_command around v "default_test_command")
    then check_field "migration_command" payload
        (λ v. validate_optional_command around v "migration_command")
    then check_field "git_secret_ref" payload check_git_secret_ref
    then check_field "cpu" payload (λ v. validate_resource_quantity v "cpu")
    then check_field "memory" payload (λ v. validate_resource_quantity v "memory")

-- `payload.get(field) in (None, "")`
unfoldable pub is_blank : Json → Bool
is_blank null = true
is_blank (str s) = text_eq s ""
is_blank _ = false

unfoldable pub missing_fields : Dict → List String → List String
missing_fields payload [] = []
missing_fields payload (name ∷ names) =
    let rest = missing_fields payload names in
    if is_blank (get name payload) then name ∷ rest else rest

unfoldable pub none_missing : List String → Check
none_missing [] = accepted
none_missing (name ∷ names) =
    rejected (fstring ("Missing required fields: " ∷ join (name ∷ names) ∷ []))

abbrev pub check_choice : String → List String → Json → Check
check_choice message choices v =
    require (is_one_of choices v)
      (fstring ("Invalid " ∷ message ∷ ". Expected one of: " ∷ join choices ∷ []))

unfoldable pub is_port : Json → Bool
is_port (num n) = leb 1 n && leb n 65535
is_port _ = false

abbrev pub check_port : Json → Check
check_port v = require (is_port v) "Invalid port. Expected an integer between 1 and 65535"

abbrev pub check_token : (git_auth_type git_secret_ref : Json) → Check
check_token git_auth_type git_secret_ref =
    require (not (is_one_of ("token" ∷ []) git_auth_type) || json_truthy git_secret_ref)
      "git_secret_ref is required when git_auth_type is 'token'"

-- An entry that is copied only where the payload has it.
unfoldable pub copy_field : String → Option Json → Dict → Dict
copy_field name none into = into
copy_field name (some v) into = put name v into

abbrev pub spec_base : Dict → Dict
spec_base payload = field "name" (get "name" payload) (
    field "repo_url" (get "repo_url" payload) (
      field "branch" (get "branch" payload) (
        field "dockerfile_path" (get_or "dockerfile_path" (str "Dockerfile") payload) (
          field "build_context" (get_or "build_context" (str ".") payload) (
            field "healthcheck_path" (get "healthcheck_path" payload) (
              field "git_secret_ref" (get "git_secret_ref" payload)
                (field "cpu" (get "cpu" payload) (field "memory" (get "memory" payload) end))))))))

unfoldable pub spec_payload_of : Dict → Dict
spec_payload_of payload =
    copy_field "migration_command" (get? "migration_command" payload)
      (copy_field "default_test_command" (get? "default_test_command" payload) (spec_base payload))

unfoldable pub validate_project_payload : Surroundings → Dict → Check
validate_project_payload around payload =
    unsupported_fields_error payload project_allowed_fields "project"
    then none_missing
        (missing_fields payload ("name" ∷ "repo_url" ∷ "branch" ∷ "port" ∷ "healthcheck_path" ∷ []))
    then validate_project_spec_fields around (spec_payload_of payload)
    then check_choice "trigger" valid_triggers (get_or "trigger" (str "manual") payload)
    then check_choice "runtime" valid_runtimes (get_or "runtime" (str "dockerfile") payload)
    then check_choice "git_auth_type" valid_git_auth_types
        (get_or "git_auth_type" (str "none") payload)
    then check_token (get_or "git_auth_type" (str "none") payload) (get "git_secret_ref" payload)
    then check_port (get "port" payload)
    then validate_project_env_vars around (get_or "env_vars" (arr nil) payload)

unfoldable pub is_nonempty : Dict → Bool
is_nonempty end = false
is_nonempty (field k v d) = true

-- Where it accepts, the source returns a copy of the payload.
unfoldable pub validate_project_patch_payload : Surroundings → Dict → Project → Check
validate_project_patch_payload around payload project =
    unsupported_fields_error payload project_allowed_fields "project"
    then require (is_nonempty payload) "Provide at least one updatable field"
    then validate_project_spec_fields around payload
    then check_field "trigger" payload (check_choice "trigger" valid_triggers)
    then check_field "runtime" payload (check_choice "runtime" valid_runtimes)
    then check_field "git_auth_type" payload (check_choice "git_auth_type" valid_git_auth_types)
    then check_token (get_or "git_auth_type" (str project.git_auth_type) payload)
        (get_or "git_secret_ref" (opt_str project.git_secret_ref) payload)
    then check_field "port" payload check_port
    then check_field "env_vars" payload (validate_project_env_vars around)

-- The check has refused what is true and no list.
abbrev normalized_variables : Json → Json
normalized_variables (arr items) = arr (normalize_project_env_vars items)
normalized_variables v = if json_truthy v then v else arr nil

unfoldable pub normalize_variables_in : Dict → Dict
normalize_variables_in payload = elim (get? "env_vars" payload) [
  | none ↦ payload
  | some v ↦ put "env_vars" (normalized_variables v) payload
]

unfoldable pub put_remote : Dict → Option String → Dict
put_remote payload none = payload
put_remote payload (some remote) = put "repo_url" (str remote) payload

unfoldable pub normalize_repository_in : Surroundings → Dict → Json → Option Dict
normalize_repository_in around payload (str s) = elim (normalize_github_repo_url around s) [
  | none ↦ none
  | some remote ↦ some (put_remote payload remote)
]
normalize_repository_in around payload _ = some payload

-- `none` where `urlparse` raises.
unfoldable pub normalize_project_spec_fields : Surroundings → Dict → Option Dict
normalize_project_spec_fields around payload =
    elim (normalize_repository_in around payload (get "repo_url" payload)) [
      | none ↦ none
      | some normalized ↦ some (normalize_variables_in normalized)
    ]
