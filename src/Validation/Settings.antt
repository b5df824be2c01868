-- ===== src/Validation/Settings.antt =====
-- Whether the configuration lets an executor deploy (control_plane/application/projects/validation.py).
-- The configuration is a dictionary with JSON values.
use Prim.Native.Char.{Char, code}
use Prim.Native.String.{count, char_at}
use autodeploy_platform.Prelude.{
  ◌-◌, String, Bool, true, false, not, Option, none, some, List, [], ◌∷◌, ◌==◌, truthy, truthy?,
  or_text, lower, strip, ends_with, slice_text, fstring, is_lower, if◌then◌else◌,
}
use autodeploy_platform.Json.{Json, null, bool, num, str, Dict, get?, json_truthy?, or_null}
use autodeploy_platform.Worker.Contracts.{ExecutorContract, executor_contract_for_name}
use autodeploy_platform.Validation.Repositories.{Surroundings}
use autodeploy_platform.Validation.Variables.{kubernetes_project_validation_enabled}
use autodeploy_platform.Validation.Checks.{Check, accepted, rejected, fails, join}

-- What counts as missing: a blank text, `None`, `False`, and 0, which equals `False`.
unfoldable pub is_missing_value : Json → Bool
is_missing_value null = true
is_missing_value (bool b) = not b
is_missing_value (num n) = n == 0
is_missing_value (str s) = not (truthy (strip s))
is_missing_value _ = false

-- A setting that ends in "=true" must be enabled.
unfoldable pub is_missing : Dict → String → Bool
is_missing config setting =
    if ends_with setting "=true"
    then not (json_truthy? (get? (slice_text (count setting - 5) setting) config))
    else is_missing_value (or_null (get? setting config))

unfoldable pub missing_of : Dict → List String → List String
missing_of config [] = []
missing_of config (setting ∷ settings) =
    let rest = missing_of config settings in
    if is_missing config setting then setting ∷ rest else rest

abbrev pub settings_of : Dict → Option ExecutorContract → Option (List String)
settings_of config none = none
settings_of config (some contract) = some (missing_of config contract.required_config)

-- `configured` is CONTROL_PLANE_EXECUTOR, "fake" where it is not set. The outer `none` is the
-- RuntimeError for a name that is no executor's.
unfoldable pub executor_deployment_prereq_missing_settings :
    Dict → (configured executor_name : Option String) → Option (List String)
executor_deployment_prereq_missing_settings config configured executor_name =
    settings_of config
      (executor_contract_for_name (if truthy? executor_name then executor_name else configured))

-- str.upper of a character, and str.capitalize.
unfoldable pub upper_char : Char → Char
upper_char c = if is_lower c then char_at "ABCDEFGHIJKLMNOPQRSTUVWXYZ" (code c - b'a') else c

unfoldable pub capitalize : String → String
capitalize String.[] = ""
capitalize (String.◌∷◌ c s) = String.◌∷◌ (upper_char c) (lower s)

unfoldable pub not_ready : List String → Option ExecutorContract → Check
not_ready [] contract = accepted
not_ready (setting ∷ settings) none = fails "RuntimeError"
not_ready (setting ∷ settings) (some contract) = rejected (
    fstring (
      capitalize contract.name
      ∷ " executor is not ready for deployments. Missing required settings: "
      ∷ join (setting ∷ settings)
      ∷ []))

unfoldable pub prereq_error : Option (List String) → Option ExecutorContract → Check
prereq_error none contract = fails "RuntimeError"
prereq_error (some missing) contract = not_ready missing contract

-- An empty name counts as none where the settings are looked up, and as "fake" where the contract is.
unfoldable pub executor_deployment_prereq_error :
    Dict → (configured executor_name : Option String) → Check
executor_deployment_prereq_error config configured executor_name =
    let resolved = some (lower (strip (or_text executor_name (or_text configured "")))) in
    prereq_error (executor_deployment_prereq_missing_settings config configured resolved)
      (executor_contract_for_name resolved)

-- `kubernetes_project_validation_enabled` for a configuration.
unfoldable pub when_kubernetes : {A : Type 0} → Option Bool → A → A → Option A
when_kubernetes none off on = none
when_kubernetes (some false) off on = some off
when_kubernetes (some true) off on = some on

unfoldable pub kubernetes_deployment_prereq_error : Surroundings → Dict → Check
kubernetes_deployment_prereq_error around config =
    elim (when_kubernetes (kubernetes_project_validation_enabled around) accepted
      (executor_deployment_prereq_error config around.control_plane_executor (some "kubernetes"))) [
        | none ↦ fails "RuntimeError"
        | some check ↦ check
      ]

unfoldable pub kubernetes_deployment_prereq_missing_settings :
    Surroundings → Dict → Option (List String)
kubernetes_deployment_prereq_missing_settings around config =
    elim (when_kubernetes (kubernetes_project_validation_enabled around) (some []) (
      executor_deployment_prereq_missing_settings config around.control_plane_executor
        (some "kubernetes"))) [ none ↦ none | some missing ↦ missing ]
