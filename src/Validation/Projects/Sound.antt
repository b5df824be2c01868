-- ===== src/Validation/Projects/Sound.antt =====
-- What the accepted projects are (`validate_project_payload` of
-- control_plane/application/projects/validation.py).
use autodeploy_platform.Prelude.{ℕ, String, ◌≡◌, ◌≤◌, true, some, [], ◌⊎◌}
use autodeploy_platform.Json.{num, str, arr, Items, nil, Dict, json_truthy}
use autodeploy_platform.Validation.Checks.{get, get_or, keys, outside}
use autodeploy_platform.Validation.Fields.Sound.{Bounded, SafeBranch, AbsolutePath}
use autodeploy_platform.Validation.Repositories.{Surroundings}
use autodeploy_platform.Validation.Variables.{kubernetes_project_validation_enabled, count_items}
use autodeploy_platform.Validation.Variables.Sound.{Deployable}
use autodeploy_platform.Validation.Commands.Sound.{PlainCommand}
use autodeploy_platform.Validation.Repositories.Sound.{Repository, InRepository, FileInRepository}
use autodeploy_platform.Validation.Projects.Spec.{
  NullOr, SecretName, CpuQuantity, MemoryQuantity, Given,
}
use autodeploy_platform.Validation.Projects.{project_allowed_fields}

-- A body that is accepted, field by field: what each field is, its default put in where the body
-- does not give it.
pub record ValidProject (around : Surroundings) (payload : Dict) : Type 0 where
  pub fields : outside project_allowed_fields (keys payload) ≡ []
  pub name : String
  pub name_is_text : get "name" payload ≡ str name
  pub name_bounded : Bounded name 120
  pub branch : SafeBranch (get "branch" payload)
  pub repo_url : Repository around (get "repo_url" payload)
  pub dockerfile_path :
      FileInRepository around (get_or "dockerfile_path" (str "Dockerfile") payload)
  pub build_context : InRepository around (get_or "build_context" (str ".") payload)
  pub healthcheck_path : AbsolutePath (get "healthcheck_path" payload)
  pub default_test_command :
      Given around payload "default_test_command" (NullOr (PlainCommand around))
  pub migration_command : Given around payload "migration_command" (NullOr (PlainCommand around))
  pub git_secret_ref : NullOr SecretName (get "git_secret_ref" payload)
  pub cpu : NullOr CpuQuantity (get "cpu" payload)
  pub memory : NullOr MemoryQuantity (get "memory" payload)
  pub trigger :
      (get_or "trigger" (str "manual") payload ≡ str "manual")
      ⊎ (get_or "trigger" (str "manual") payload ≡ str "github_push")
  pub runtime : get_or "runtime" (str "dockerfile") payload ≡ str "dockerfile"
  pub git_auth_type :
      (get_or "git_auth_type" (str "none") payload ≡ str "none")
      ⊎ ((get_or "git_auth_type" (str "none") payload ≡ str "token")
          × (json_truthy (get "git_secret_ref" payload) ≡ true))
  pub port : ℕ
  pub port_is_number : get "port" payload ≡ num port
  pub port_positive : 1 ≤ port
  pub port_bounded : port ≤ 65535
  pub env_vars :
      (items : Items) × (get_or "env_vars" (arr nil) payload ≡ arr items)
      × (count_items items ≤ 100)
      × (kubernetes_project_validation_enabled around ≡ some true → Deployable [] items)
