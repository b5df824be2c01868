-- ===== src/Validation/Requests.antt =====
-- The bodies of requests for deployments (control_plane/application/projects/validation.py).
use autodeploy_platform.Prelude.{
  ℕ, String, Bool, true, false, ◌&&◌, ◌||◌, not, Option, none, some, List, [], ◌∷◌, map, text_eq,
  truthy, truthy?, or_text, lower, strip, ends_with, slice_text, mem_text, is_some, fstring,
  if◌then◌else◌, ◌-◌,
}
use autodeploy_platform.Json.{Json, null, bool, num, str, Dict, get?, put, json_truthy?}
use autodeploy_platform.Models.DeploymentStatus
use autodeploy_platform.Models.DeploymentStatus.{DeploymentStatus}
use autodeploy_platform.Models.BuildStatus
use autodeploy_platform.Models.BuildStatus.{BuildStatus}
use autodeploy_platform.Models.Rows.{Project, Build, PlatformDeployment}
use autodeploy_platform.Validation.Checks.{
  Check, accepted, rejected, fails, ◌then◌, require, check_field, get, get_or, join, is_one_of,
  unsupported_fields_error,
}
use autodeploy_platform.Validation.Patterns.{is_environment_name}
use autodeploy_platform.Validation.Fields.{
  validate_bounded_string, on_text, validate_branch_name, validate_git_commit_sha,
}
use autodeploy_platform.Validation.Repositories.{Surroundings, ParsedUrl}
use autodeploy_platform.Validation.Commands.{validate_optional_command}
use autodeploy_platform.Validation.Projects.{is_blank}
pub mod Sound

-- MANUAL_DEPLOYMENT_ALLOWED_FIELDS
abbrev pub manual_deployment_allowed_fields : List String
manual_deployment_allowed_fields =
    "commit_sha" ∷ "registry" ∷ "image_name" ∷ "image_tag" ∷ "image_ref" ∷ "build_status"
    ∷ "test_command" ∷ "environment" ∷ "status" ∷ "service_url" ∷ "message" ∷ []

-- MANUAL_DEPLOYMENT_STRING_LIMITS
abbrev pub manual_deployment_string_limits : List (String × ℕ)
manual_deployment_string_limits =
    ("registry", 255)
    ∷ ("image_name", 255)
    ∷ ("image_tag", 255)
    ∷ ("image_ref", 512)
    ∷ ("environment", 64)
    ∷ ("service_url", 255)
    ∷ ("message", 2000)
    ∷ []

abbrev pub deployment_statuses : List DeploymentStatus
deployment_statuses =
    DeploymentStatus.pending ∷ DeploymentStatus.cloning ∷ DeploymentStatus.building
    ∷ DeploymentStatus.testing ∷ DeploymentStatus.pushing_image ∷ DeploymentStatus.deploying
    ∷ DeploymentStatus.running ∷ DeploymentStatus.failed ∷ DeploymentStatus.stopped ∷ []

abbrev pub build_statuses : List BuildStatus
build_statuses =
    BuildStatus.pending ∷ BuildStatus.cloning ∷ BuildStatus.building ∷ BuildStatus.testing
    ∷ BuildStatus.pushing_image ∷ BuildStatus.succeeded ∷ BuildStatus.failed ∷ BuildStatus.cancelled
    ∷ []

-- The status that a text names, in a list of them.
unfoldable pub status_named {ℓ} : {S : Type ℓ} → (S → String) → String → List S → Option S
status_named text s [] = none
status_named text s (t ∷ ts) = if text_eq (text t) s then some t else status_named text s ts

abbrev pub invalid_status : String → List String → String
invalid_status kind names =
    fstring ("Invalid " ∷ kind ∷ " status. Expected one of: " ∷ join names ∷ [])

unfoldable pub check_status : String → List String → Json → Check
check_status kind names (str s) = require (mem_text s names) (invalid_status kind names)
check_status kind names _ =
    rejected (fstring ("Invalid " ∷ kind ∷ " status. Expected a string" ∷ []))

abbrev pub deployment_status_names : List String
deployment_status_names = map DeploymentStatus.status_text deployment_statuses

abbrev pub build_status_names : List String
build_status_names = map BuildStatus.status_text build_statuses

unfoldable pub check_limits : Dict → List (String × ℕ) → Check
check_limits payload [] = accepted
check_limits payload ((name, max_length) ∷ limits) =
    check_field name payload (λ v.
      validate_bounded_string v name max_length (not (text_eq name "environment"))
        (text_eq name "message"))
    then check_limits payload limits

unfoldable pub check_url : Option ParsedUrl → Check
check_url none = fails "ValueError"
check_url (some parsed) =
    require (mem_text parsed.scheme ("http" ∷ "https" ∷ []) && truthy parsed.netloc)
      "Invalid service_url. Expected an absolute HTTP or HTTPS URL"

unfoldable pub validate_deployment_request_payload : Surroundings → Dict → Check
validate_deployment_request_payload around payload =
    unsupported_fields_error payload manual_deployment_allowed_fields "manual deployment"
    then require (not (is_blank (get "commit_sha" payload))) "Missing required field: commit_sha"
    then validate_git_commit_sha (get "commit_sha" payload) true
    then check_status "deployment" deployment_status_names (get_or "status" (str "pending") payload)
    then check_status "build" build_status_names (get_or "build_status" (str "pending") payload)
    then check_field "test_command" payload (λ v. validate_optional_command around v "test_command")
    then check_limits payload manual_deployment_string_limits
    then on_text
        (λ s.
          require (is_environment_name s)
            "Invalid environment. Expected an alphanumeric name containing only '-', '_' or '.'")
        (get_or "environment" (str "production") payload)
    then on_text (λ s. check_url (around.urlparse s)) (get "service_url" payload)

unfoldable pub normalize_deployment_request_payload : Dict → Dict
normalize_deployment_request_payload payload = elim (get "commit_sha" payload) [
  | str s ↦ put "commit_sha" (str (lower s)) payload
  | _ ↦ payload
]

unfoldable pub validate_project_deploy_payload : Surroundings → Dict → Check
validate_project_deploy_payload around payload =
    unsupported_fields_error payload ("branch" ∷ "test_command" ∷ []) "deploy"
    then (elim (get "branch" payload) [ null ↦ accepted | v ↦ validate_branch_name v ])
    then validate_optional_command around (get "test_command" payload) "test_command"

abbrev pub or_word_none : List String → String
or_word_none [] = "none"
or_word_none (s ∷ ss) = join (s ∷ ss)

unfoldable pub check_transition : DeploymentStatus → Option DeploymentStatus → Check
check_transition status none = rejected (invalid_status "deployment" deployment_status_names)
check_transition status (some next_status) =
    require (DeploymentStatus.can_transition_to status next_status) (
      fstring (
        "Invalid deployment transition from "
        ∷ DeploymentStatus.status_text status
        ∷ " to "
        ∷ DeploymentStatus.status_text next_status
        ∷ ". Allowed transitions: "
        ∷ or_word_none
            (map DeploymentStatus.status_text (DeploymentStatus.status_transitions status))
        ∷ []))

unfoldable pub check_next_status : DeploymentStatus → Json → Check
check_next_status status (str s) =
    check_transition status (status_named DeploymentStatus.status_text s deployment_statuses)
check_next_status status _ = rejected "Invalid deployment status. Expected a string"

unfoldable pub check_build_transition : BuildStatus → Option BuildStatus → Check
check_build_transition status none = rejected (invalid_status "build" build_status_names)
check_build_transition status (some next_status) =
    require (BuildStatus.can_transition_to status next_status) (
      fstring (
        "Invalid build transition from "
        ∷ BuildStatus.status_text status
        ∷ " to "
        ∷ BuildStatus.status_text next_status
        ∷ []))

unfoldable pub check_next_build_status : BuildStatus → Json → Check
check_next_build_status status (str s) =
    check_build_transition status (status_named BuildStatus.status_text s build_statuses)
check_next_build_status status _ = rejected "Invalid build status. Expected a string"

-- Where it accepts, the source returns a copy of the payload.
unfoldable pub validate_deployment_patch_payload : Dict → PlatformDeployment → Build → Check
validate_deployment_patch_payload payload deployment build =
    unsupported_fields_error payload ("status" ∷ "build_status" ∷ "message" ∷ []) "deployment patch"
    then require (is_some (get? "status" payload) || is_some (get? "build_status" payload))
        "Provide at least one updatable field: status, build_status"
    then check_field "status" payload (check_next_status deployment.status)
    then check_field "build_status" payload (check_next_build_status build.status)
    then check_field "message" payload (λ v. validate_bounded_string v "message" 2000 true true)

-- An explicit null turns the project's default off.
unfoldable pub resolve_effective_test_command :
    Project → (requested : Option String) → (payload_includes : Bool) → Option String
resolve_effective_test_command project requested payload_includes =
    if payload_includes then requested else project.default_test_command
