-- ===== src/Validation/Variables.antt =====
-- The environment variables of a project (`validate_project_env_vars` of
-- control_plane/application/projects/validation.py).
use Prim.Native.String.{count}
use autodeploy_platform.Prelude.{
  ℕ, suc, ◌+◌, String, Bool, true, false, ◌&&◌, ◌||◌, not, leb, ltb, Option, none, some, List, [],
  ◌∷◌, text_eq, truthy, or_text, strip, lower, mem_text, fstring, decimal, if◌then◌else◌,
}
use autodeploy_platform.Json.{
  Json, null, bool, num, str, arr, obj, Items, nil, cons, Dict, end, json_truthy, get?,
  json_truthy?,
}
use autodeploy_platform.Worker.Contracts.{ExecutorContract, executor_contract_for_name}
use autodeploy_platform.Validation.Checks.{
  Check, accepted, rejected, fails, ◌then◌, require, get, unsupported_fields_error,
}
use autodeploy_platform.Validation.Patterns.{is_env_var_name}
use autodeploy_platform.Validation.Fields.{
  validate_kubernetes_resource_name, validate_kubernetes_config_key,
}
use autodeploy_platform.Validation.Repositories.{Surroundings}
pub mod Sound

-- ENV_VAR_ALLOWED_FIELDS, VALID_ENV_VALUE_SOURCES in order
abbrev pub env_var_allowed_fields : List String
env_var_allowed_fields =
    "name" ∷ "value" ∷ "value_source" ∷ "source_name" ∷ "source_key" ∷ "is_secret" ∷ []

abbrev pub valid_env_value_sources : List String
valid_env_value_sources = "configmap_key_ref" ∷ "literal" ∷ "secret_key_ref" ∷ []

abbrev pub max_env_vars : ℕ
max_env_vars = 100

abbrev pub max_env_var_name_length : ℕ
max_env_var_name_length = 253

abbrev pub max_env_value_length : ℕ
max_env_value_length = 65535

-- f"env_vars[{index}]"
abbrev pub entry_name : ℕ → String
entry_name i = fstring ("env_vars[" ∷ decimal i ∷ "]" ∷ [])

abbrev pub in_entry : ℕ → String → String
in_entry i what = fstring ("Invalid " ∷ entry_name i ∷ ". " ∷ what ∷ [])

abbrev pub is_null : Json → Bool
is_null null = true
is_null _ = false

abbrev pub is_true : Json → Bool
is_true (bool b) = b
is_true _ = false

-- `is_secret is None or isinstance(is_secret, bool)`
abbrev pub is_optional_bool : Json → Bool
is_optional_bool null = true
is_optional_bool (bool b) = true
is_optional_bool _ = false

unfoldable pub check_name : Bool → ℕ → List String → Json → Check
check_name kubernetes_mode i seen (str name) =
    require (truthy (strip name)) (in_entry i "'name' is required")
    then require (leb (count name) max_env_var_name_length)
        (in_entry i "'name' must be at most 253 characters")
    then require (not kubernetes_mode || is_env_var_name name)
        (in_entry i "'name' must be a valid Kubernetes environment variable name")
    then require (not kubernetes_mode || not (mem_text name seen)) (
        in_entry i (
          fstring (
            "Duplicate env var name '" ∷ name ∷ "' is not allowed for Kubernetes deployments"
            ∷ [])))
check_name kubernetes_mode i seen _ = rejected (in_entry i "'name' is required")

unfoldable pub check_value : ℕ → Json → Check
check_value i null = rejected (in_entry i "'value' is required when value_source is 'literal'")
check_value i (str value) =
    require (leb (count value) max_env_value_length)
      (in_entry i "'value' must be at most 65535 characters")
check_value i _ = rejected (in_entry i "'value' must be a string")

unfoldable pub check_literal : Bool → ℕ → Dict → Check
check_literal kubernetes_mode i item =
    check_value i (get "value" item)
    then require (is_null (get "source_name" item) && is_null (get "source_key" item))
        (in_entry i "Literal env vars cannot include 'source_name' or 'source_key'")
    then require (is_optional_bool (get "is_secret" item))
        (in_entry i "'is_secret' must be a boolean when provided")
    then require (not (kubernetes_mode && is_true (get "is_secret" item))) (
        in_entry i
          "Kubernetes secret env vars must use 'value_source=secret_key_ref' instead of a literal value")

unfoldable pub check_source_name : ℕ → Json → Check
check_source_name i (str source_name) =
    require (truthy (strip source_name))
      (in_entry i "'source_name' is required for referenced env vars")
    then validate_kubernetes_resource_name (str source_name)
        (fstring (entry_name i ∷ ".source_name" ∷ []))
check_source_name i _ = rejected (in_entry i "'source_name' is required for referenced env vars")

unfoldable pub check_reference : ℕ → Dict → Check
check_reference i item =
    require (is_null (get "value" item))
      (in_entry i "Referenced env vars cannot include a literal 'value'")
    then require (is_optional_bool (get "is_secret" item))
        (in_entry i "'is_secret' must be a boolean when provided")
    then check_source_name i (get "source_name" item)
    then validate_kubernetes_config_key (get "source_key" item)
        (fstring (entry_name i ∷ ".source_key" ∷ []))

-- Older clients send only a value.
unfoldable pub value_source_of : Json → (value : Json) → Json
value_source_of null value = if is_null value then null else str "literal"
value_source_of source value = source

unfoldable pub check_by_source : Bool → ℕ → Dict → Json → Check
check_by_source kubernetes_mode i item null =
    rejected (in_entry i "Provide a literal 'value' or a supported 'value_source'")
check_by_source kubernetes_mode i item (str source) =
    require (mem_text source valid_env_value_sources)
      (in_entry i "'value_source' must be one of: configmap_key_ref, literal, secret_key_ref")
    then (if text_eq source "literal"
        then check_literal kubernetes_mode i item
        else check_reference i item)
check_by_source kubernetes_mode i item _ = rejected (in_entry i "'value_source' must be a string")

unfoldable pub check_entry : Bool → ℕ → List String → Json → Check
check_entry kubernetes_mode i seen (obj item) =
    unsupported_fields_error item env_var_allowed_fields (entry_name i)
    then check_name kubernetes_mode i seen (get "name" item)
    then check_by_source kubernetes_mode i item
        (value_source_of (get "value_source" item) (get "value" item))
check_entry kubernetes_mode i seen _ = rejected (in_entry i "Expected an object")

-- `seen_names.add(name)`
unfoldable pub add_text : Json → List String → List String
add_text (str name) seen = name ∷ seen
add_text _ seen = seen

unfoldable pub add_name : Json → List String → List String
unfolding add_text
add_name (obj item) seen = add_text (get "name" item) seen
add_name _ seen = seen

unfoldable pub check_entries : Bool → ℕ → List String → Items → Check
check_entries kubernetes_mode i seen nil = accepted
check_entries kubernetes_mode i seen (cons item rest) =
    check_entry kubernetes_mode i seen item
    then check_entries kubernetes_mode (suc i) (add_name item seen) rest

unfoldable pub count_items : Items → ℕ
count_items nil = 0
count_items (cons item rest) = suc (count_items rest)

-- `none` where `executor_contract_for_name` raises RuntimeError.
unfoldable pub kubernetes_project_validation_enabled : Surroundings → Option Bool
kubernetes_project_validation_enabled around =
    elim (executor_contract_for_name
      (some (lower (strip (or_text around.control_plane_executor ""))))) [
        | none ↦ none
        | some contract ↦ some (text_eq contract.deploy_target "kubernetes")
      ]

unfoldable pub check_in_mode : Option Bool → Items → Check
check_in_mode none items = fails "RuntimeError"
check_in_mode (some kubernetes_mode) items = check_entries kubernetes_mode 0 [] items

unfoldable pub validate_project_env_vars : Surroundings → Json → Check
validate_project_env_vars around (arr items) =
    require (leb (count_items items) max_env_vars) "Invalid env_vars. Expected at most 100 entries"
    then check_in_mode (kubernetes_project_validation_enabled around) items
validate_project_env_vars around _ =
    rejected "Invalid env_vars. Expected a list of environment variable definitions"
