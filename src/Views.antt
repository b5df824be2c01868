-- ===== src/Views.antt =====
-- control_plane/models: the JSON forms of the rows (`to_dict`), with secret values taken out.
use autodeploy_platform.Prelude.{
  ℕ, String, Option, none, some, List, [], ◌∷◌, Table, find, ltb, ◌==◌, if◌then◌else◌,
}
use autodeploy_platform.Json.{
  Json, null, num, str, arr, obj, Items, nil, cons, Dict, dict, opt_str, opt_num, or_null,
}
use autodeploy_platform.Security.{
  redact_text?, redact_sensitive_data, secret_values_from_env_vars, serialized_project_env_vars,
}
use autodeploy_platform.Models.DeploymentStatus
use autodeploy_platform.Models.DeploymentStatus.{DeploymentStatus, status_transitions}
use autodeploy_platform.Models.BuildStatus
use autodeploy_platform.Models.Rows.{
  Timestamp, Project, Build, PlatformDeployment, CommandStatus, DeploymentCommand, DeploymentEvent,
}
use autodeploy_platform.Session.{Environment, Action, pure, ◌>>=◌, view}
use autodeploy_platform.Worker.Claims.{command_type_text}
use autodeploy_platform.Worker.Events.{deployment_secret_values}

abbrev command_status_text : CommandStatus → String
command_status_text CommandStatus.pending = "pending"
command_status_text CommandStatus.claimed = "claimed"
command_status_text CommandStatus.skipped = "skipped"
command_status_text CommandStatus.succeeded = "succeeded"
command_status_text CommandStatus.failed = "failed"

-- PlatformDeployment.allowed_transitions
unfoldable pub status_texts : List DeploymentStatus → Items
unfolding DeploymentStatus.status_text
status_texts [] = nil
status_texts (s ∷ ss) = cons (str (DeploymentStatus.status_text s)) (status_texts ss)

unfoldable pub allowed_transitions : PlatformDeployment → Items
unfolding status_texts status_transitions
allowed_transitions d = status_texts (status_transitions d.status)

abbrev later :
    ℕ × DeploymentCommand → Option (ℕ × DeploymentCommand) → Option (ℕ × DeploymentCommand)
later row none = some row
later (k, c) (some (j, d)) = if ltb k j then some (j, d) else some (k, c)

-- The command of the deployment with the greatest id.
unfoldable pub latest_command : ℕ → Table DeploymentCommand → Option (ℕ × DeploymentCommand)
latest_command id [] = none
latest_command id ((k, c) ∷ t) =
    let rest = latest_command id t in if c.deployment_id == id then later (k, c) rest else rest

module _ (env : Environment) where
  abbrev iso_or_null : Option Timestamp → Json
  iso_or_null none = null
  iso_or_null (some t) = str (env.iso t)

  unfoldable pub project_to_dict : ℕ → Project → Dict
  unfolding opt_str serialized_project_env_vars
  project_to_dict id p = dict (
      ("id", num id)
      ∷ ("name", str p.name)
      ∷ ("repo_url", str p.repo_url)
      ∷ ("branch", str p.branch)
      ∷ ("git_auth_type", str p.git_auth_type)
      ∷ ("git_secret_ref", opt_str p.git_secret_ref)
      ∷ ("dockerfile_path", str p.dockerfile_path)
      ∷ ("build_context", str p.build_context)
      ∷ ("port", num p.port)
      ∷ ("healthcheck_path", str p.healthcheck_path)
      ∷ ("env_vars", arr (serialized_project_env_vars p.env_vars))
      ∷ ("default_test_command", opt_str p.default_test_command)
      ∷ ("migration_command", opt_str p.migration_command)
      ∷ ("cpu", opt_str p.cpu)
      ∷ ("memory", opt_str p.memory)
      ∷ ("trigger", str p.trigger)
      ∷ ("runtime", str p.runtime)
      ∷ ("created_at", str (env.iso p.created_at))
      ∷ ("updated_at", str (env.iso p.updated_at))
      ∷ [])

  -- `self.project.env_vars if self.project else []`
  abbrev build_secret_values : Option Project → List String
  build_secret_values none = secret_values_from_env_vars env.str_of nil
  build_secret_values (some p) = secret_values_from_env_vars env.str_of p.env_vars

  -- `updated_at` is not a column of the rows here.
  unfoldable pub build_to_dict : Table Project → ℕ → Build → (updated_at : Timestamp) → Dict
  unfolding opt_str secret_values_from_env_vars find BuildStatus.status_text
  build_to_dict projects id b updated_at =
      let secret_values = build_secret_values (find b.project_id projects) in
      dict (
        ("id", num id)
        ∷ ("project_id", num b.project_id)
        ∷ ("commit_sha", str b.commit_sha)
        ∷ ("registry", opt_str b.registry)
        ∷ ("image_name", opt_str b.image_name)
        ∷ ("image_tag", opt_str b.image_tag)
        ∷ ("image_ref", opt_str b.image_ref)
        ∷ ("status", str (BuildStatus.status_text b.status))
        ∷ ("registry_push_status", opt_str b.registry_push_status)
        ∷ ("test_command", opt_str b.test_command)
        ∷ ("workspace_path", opt_str b.workspace_path)
        ∷ ("build_log_path", opt_str b.build_log_path)
        ∷ ("log_path", opt_str b.log_path)
        ∷ ("last_error", opt_str (redact_text? secret_values b.last_error))
        ∷ ("started_at", iso_or_null b.started_at)
        ∷ ("finished_at", iso_or_null b.finished_at)
        ∷ ("created_at", str (env.iso b.created_at))
        ∷ ("updated_at", str (env.iso updated_at))
        ∷ [])

  -- DeploymentCommand.to_dict, with the secret values of the command's deployment.
  unfoldable pub command_fields : List String → ℕ → DeploymentCommand → Dict
  unfolding opt_str command_type_text
  command_fields secret_values id c = dict (
      ("id", num id)
      ∷ ("deployment_id", num c.deployment_id)
      ∷ ("command_type", str (command_type_text c.command_type))
      ∷ ("status", str (command_status_text c.status))
      ∷ ("message", opt_str c.message)
      ∷ ("last_error", opt_str (redact_text? secret_values c.last_error))
      ∷ ("claimed_by", opt_str c.claimed_by)
      ∷ ("claimed_at", iso_or_null c.claimed_at)
      ∷ ("origin_request_id", opt_str c.origin_request_id)
      ∷ ("requested_at", str (env.iso c.requested_at))
      ∷ ("completed_at", iso_or_null c.completed_at)
      ∷ [])

  abbrev command_or_null : List String → Option (ℕ × DeploymentCommand) → Json
  command_or_null secret_values none = null
  command_or_null secret_values (some (id, c)) = obj (command_fields secret_values id c)

  unfoldable pub deployment_fields :
      List String
      → Table DeploymentCommand
      → ℕ
      → PlatformDeployment
      → (updated_at : Timestamp) → Dict
  unfolding opt_str opt_num or_null command_fields latest_command allowed_transitions
      redact_sensitive_data DeploymentStatus.status_text
  deployment_fields secret_values commands id d updated_at = dict (
      ("id", num id)
      ∷ ("project_id", num d.project_id)
      ∷ ("build_id", num d.build_id)
      ∷ ("environment", str d.environment)
      ∷ ("status", str (DeploymentStatus.status_text d.status))
      ∷ ("allowed_transitions", arr (allowed_transitions d))
      ∷ ("deploy_target", opt_str d.deploy_target)
      ∷ ("container_name", opt_str d.container_name)
      ∷ ("container_id", opt_str d.container_id)
      ∷ ("host_port", opt_num d.host_port)
      ∷ ("healthcheck_url", opt_str d.healthcheck_url)
      ∷ ("service_url", opt_str d.service_url)
      ∷ ("kubernetes_deployment_mode", opt_str d.kubernetes_deployment_mode)
      ∷ ("kubernetes_namespace", opt_str d.kubernetes_namespace)
      ∷ ("kubernetes_deployment_name", opt_str d.kubernetes_deployment_name)
      ∷ ("kubernetes_service_name", opt_str d.kubernetes_service_name)
      ∷ ("kubernetes_ingress_name", opt_str d.kubernetes_ingress_name)
      ∷ ("helm_release_name", opt_str d.helm_release_name)
      ∷ ("helm_namespace", opt_str d.helm_namespace)
      ∷ ("helm_chart_path", opt_str d.helm_chart_path)
      ∷ ("preflight_status", opt_str d.preflight_status)
      ∷ ("preflight_summary", opt_str (redact_text? secret_values d.preflight_summary))
      ∷ (
        "preflight_metadata_json",
        redact_sensitive_data secret_values (or_null d.preflight_metadata_json),
      )
      ∷ ("preflight_completed_at", iso_or_null d.preflight_completed_at)
      ∷ ("last_error", opt_str (redact_text? secret_values d.last_error))
      ∷ ("started_at", iso_or_null d.started_at)
      ∷ ("finished_at", iso_or_null d.finished_at)
      ∷ ("claimed_at", iso_or_null d.claimed_at)
      ∷ ("claimed_by", opt_str d.claimed_by)
      ∷ ("origin_request_id", opt_str d.origin_request_id)
      ∷ ("latest_command", command_or_null secret_values (latest_command id commands))
      ∷ ("created_at", str (env.iso d.created_at))
      ∷ ("updated_at", str (env.iso updated_at))
      ∷ [])

  unfoldable pub deployment_to_dict :
      ℕ → PlatformDeployment → (updated_at : Timestamp) → Action Dict
  unfolding ◌>>=◌ pure view deployment_secret_values deployment_fields
  deployment_to_dict id d updated_at = do
    secret_values ← deployment_secret_values env d
    db ← view
    pure (deployment_fields secret_values db.commands id d updated_at)

  -- DeploymentEvent.to_dict, with the secret values of the event's deployment.
  unfoldable pub event_fields : List String → ℕ → DeploymentEvent → (created_at : Timestamp) → Dict
  unfolding opt_str redact_sensitive_data
  event_fields secret_values id e created_at = dict (
      ("id", num id)
      ∷ ("deployment_id", num e.deployment_id)
      ∷ ("event_type", str e.event_type)
      ∷ ("step", opt_str e.step)
      ∷ ("level", str e.level)
      ∷ ("status", str e.status)
      ∷ ("message", opt_str (redact_text? secret_values e.message))
      ∷ ("metadata_json", redact_sensitive_data secret_values e.metadata_json)
      ∷ ("created_at", str (env.iso created_at))
      ∷ [])
