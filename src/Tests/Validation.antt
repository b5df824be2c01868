-- ===== src/Tests/Validation.antt =====
-- Concrete bodies of requests, and texts at the edges of the checks.
use autodeploy_platform.Prelude.{
  ◌≤◌, String, ◌≡◌, refl, true, false, none, some, [], ◌∷◌, strip, lstrip, rstrip, push_stripped,
  is_space, lower, lower_char, starts_with, ends_with, mem_text, all_chars, any_char, or_text,
  slice_text, decimal, digits_of,
}
use autodeploy_platform.Json.{num, str, arr, obj, Items, nil, cons, Dict, dict, get?}
use autodeploy_platform.Models.DeploymentStatus
use autodeploy_platform.Models.BuildStatus
use autodeploy_platform.Samples.{project, build, deployment}
use autodeploy_platform.Worker.Contracts.{contract_named, executor_contract_for_name}
use autodeploy_platform.Kubernetes.Names.{
  helm_release_name, workload_name, dns_slug, dash_runs, lstrip_dashes, rstrip_dashes,
  push_unless_dash, project_id_suffix, keep_chars, id_text,
}
use autodeploy_platform.Validation.Checks.{
  accepted, check_present, keys, outside, no_unsupported, unsupported_fields_error,
}
use autodeploy_platform.Validation.Patterns.{
  head_and_tail, is_env_var_name, next_place, may_follow, is_name_from, is_resource_name,
  is_config_key, is_cpu_quantity, is_fraction,
}
use autodeploy_platform.Validation.Fields.{
  bounded_text, validate_bounded_string, on_text, validate_kubernetes_resource_name,
  validate_kubernetes_config_key,
}
use autodeploy_platform.Validation.Repositories.{ParsedUrl, Surroundings, without_git, canonical_of}
use autodeploy_platform.Validation.Variables.{
  check_name, check_value, check_literal, check_source_name, check_reference, value_source_of,
  check_by_source, check_entry, add_text, add_name, check_entries, count_items,
  kubernetes_project_validation_enabled, check_in_mode, validate_project_env_vars,
}
use autodeploy_platform.Validation.Variables.Sound.{
  Deployable, validate_project_env_vars-Deployable,
}
use autodeploy_platform.Validation.Requests.{
  status_named, check_transition, check_next_status, check_build_transition,
  check_next_build_status, validate_deployment_patch_payload,
}
use autodeploy_platform.Validation.Requests.Sound.{
  AcceptedChange, validate_deployment_patch_payload-AcceptedChange,
}

abbrev shop_url : ParsedUrl
shop_url = record {
  scheme = "https";
  netloc = "github.com";
  path = "/Acme/shop";
  params = "";
  query = "";
  fragment = "";
}

abbrev around : Surroundings
around = record {
  urlparse = λ s. some shop_url;
  posix_path = λ s. record { is_absolute = false; parts = s ∷ [] };
  is_local_repository = λ s. false;
  shlex_split = λ s. some ("pytest" ∷ "-q" ∷ []);
  control_plane_env = none;
  control_plane_executor = some "Kubernetes";
}

abbrev variables : Items
variables = cons (obj (dict (("name", str "MODE") ∷ ("value", str "fast") ∷ []))) (
    cons
      (obj (
        dict (
          ("name", str "TOKEN")
          ∷ ("value_source", str "secret_key_ref")
          ∷ ("source_name", str "shop-secrets")
          ∷ ("source_key", str "token")
          ∷ [])))
      nil)

abbrev body : Dict
body = dict (
    ("name", str "shop")
    ∷ ("repo_url", str "https://github.com/Acme/shop")
    ∷ ("branch", str "main")
    ∷ ("port", num 8000)
    ∷ ("healthcheck_path", str "/health")
    ∷ ("env_vars", arr variables)
    ∷ [])

in_kubernetes : kubernetes_project_validation_enabled around ≡ some true
unfolding kubernetes_project_validation_enabled executor_contract_for_name contract_named or_text
    strip lstrip rstrip push_stripped is_space lower lower_char
in_kubernetes = refl

variables_pass : validate_project_env_vars around (arr variables) ≡ accepted
unfolding validate_project_env_vars count_items check_in_mode kubernetes_project_validation_enabled
    executor_contract_for_name contract_named or_text strip lstrip rstrip push_stripped is_space
    lower lower_char check_entries check_entry unsupported_fields_error outside keys no_unsupported
    mem_text get? check_name is_env_var_name head_and_tail all_chars value_source_of check_by_source
    check_literal check_value check_reference check_source_name validate_kubernetes_resource_name
    validate_bounded_string bounded_text any_char on_text is_resource_name is_name_from may_follow
    next_place validate_kubernetes_config_key is_config_key starts_with add_name add_text
variables_pass = refl

validate_project_env_vars-Deployable_example :
    (count_items variables ≤ 100) × Deployable [] variables
validate_project_env_vars-Deployable_example =
    validate_project_env_vars-Deployable around variables in_kubernetes variables_pass

abbrev change : Dict
change = dict (("status", str "cloning") ∷ ("build_status", str "cloning") ∷ [])

change_passes : validate_deployment_patch_payload change deployment build ≡ accepted
unfolding validate_deployment_patch_payload unsupported_fields_error outside keys no_unsupported
    mem_text get? check_present check_next_status check_transition status_named
    DeploymentStatus.status_text DeploymentStatus.can_transition_to
    DeploymentStatus.status_transitions check_next_build_status check_build_transition
    BuildStatus.status_text BuildStatus.can_transition_to BuildStatus.status_transitions
change_passes = refl

validate_deployment_patch_payload-AcceptedChange_example : AcceptedChange change deployment build
validate_deployment_patch_payload-AcceptedChange_example =
    validate_deployment_patch_payload-AcceptedChange change deployment build change_passes

-- A suffix in capital letters.
suffix_in_capitals : canonical_of ("acme", "x.GIT") ≡ some "https://github.com/acme/x.git.git"
unfolding canonical_of without_git ends_with starts_with lower lower_char
suffix_in_capitals = refl

suffix_again : canonical_of ("acme", "x.git.git") ≡ none
unfolding canonical_of without_git ends_with starts_with lower lower_char slice_text
suffix_again = refl

zero_cpu : is_cpu_quantity "0.0" ≡ true
unfolding is_cpu_quantity is_fraction all_chars
zero_cpu = refl

abbrev far_environment : String
far_environment = "staging-for-the-customers-of-the-northern-region-2"

same_release :
    helm_release_name 1
      (record project { name = "shop" })
      (some (record deployment { environment = far_environment }))
      53
    ≡ helm_release_name 2
        (record project { name = "search" })
        (some (record deployment { environment = far_environment }))
        53
unfolding helm_release_name workload_name dns_slug dash_runs lstrip_dashes rstrip_dashes
    push_unless_dash project_id_suffix keep_chars id_text lower lower_char slice_text decimal
    digits_of
same_release = refl
