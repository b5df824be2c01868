-- ===== src/Worker/Lifecycle/Preflight.antt =====
-- What a step or a preflight leaves in the rows.
use autodeploy_platform.Prelude.{
  ℕ, String, Option, none, some, [], ◌∷◌, truthy?, contains, if◌then◌else◌,
}
use autodeploy_platform.Json.{str, obj, Dict, merge, dict, opt_str}
use autodeploy_platform.Security.{redact_text, redact_sensitive_data}
use autodeploy_platform.RuntimeMetadata.{persist_helm_runtime_metadata}
use autodeploy_platform.Models.Rows.{Build, PlatformDeployment}
use autodeploy_platform.Session.{
  Environment, WorkerExecutionError, Action, pure, ◌>>=◌, ◌>>◌, now_utc, when, the_deployment,
  the_build, update_deployment, update_build,
}
use autodeploy_platform.Worker.Events.{deployment_secret_values}
use autodeploy_platform.Worker.Executor.{ExecutionResult, PreflightResult}

-- `if new: row.column = new`
abbrev pub replace_by : Option String → Option String → Option String
replace_by new old = if truthy? new then new else old

abbrev replace_port : Option ℕ → Option ℕ → Option ℕ
replace_port none old = old
replace_port (some p) old = some p

unfoldable pub built : ExecutionResult → Build → Build
built result b = record b {
  workspace_path = replace_by result.workspace_path b.workspace_path;
  log_path = replace_by result.log_path b.log_path;
  image_tag = replace_by result.image_tag b.image_tag;
  image_ref = replace_by result.image_ref b.image_ref;
}

unfoldable pub deployed : ExecutionResult → PlatformDeployment → PlatformDeployment
deployed result d = record d {
  deploy_target = replace_by result.deploy_target d.deploy_target;
  container_name = replace_by result.container_name d.container_name;
  container_id = replace_by result.container_id d.container_id;
  host_port = replace_port result.host_port d.host_port;
  healthcheck_url = replace_by result.healthcheck_url d.healthcheck_url;
  service_url = replace_by result.service_url d.service_url;
}

module _ (env : Environment) where
  -- Every executor's method returns a result, so there is no case for None.
  unfoldable pub apply_execution_result : ℕ → ExecutionResult → Action (Unit {0})
  apply_execution_result id result = do
    d ← the_deployment id
    the_build d.build_id
    update_build d.build_id (built result)
    update_deployment id
        (λ r. persist_helm_runtime_metadata env.str_of (deployed result r) result.metadata)

  unfoldable pub clear_preflight_state : ℕ → Action (Unit {0})
  clear_preflight_state id = update_deployment id (λ d. record d {
    preflight_status = none;
    preflight_summary = none;
    preflight_metadata_json = none;
    preflight_completed_at = none;
  })

  -- The preflight columns, with the deployment's secrets taken out.
  unfoldable pub store_preflight : ℕ → (status summary : String) → Dict → Action (Unit {0})
  store_preflight id status summary metadata = do
    d ← the_deployment id
    secret_values ← deployment_secret_values env d
    now ← now_utc env
    update_deployment id (λ r. record r {
      preflight_status = some status;
      preflight_summary = some (redact_text secret_values summary);
      preflight_metadata_json = some (redact_sensitive_data secret_values (obj metadata));
      preflight_completed_at = some now;
    })

  unfoldable pub persist_preflight_result : ℕ → Option PreflightResult → Action (Unit {0})
  persist_preflight_result id none = pure tt
  persist_preflight_result id (some result) = store_preflight id result.status result.summary (
      merge result.metadata (
        dict (
          ("log_path", opt_str result.log_path)
          ∷ ("deploy_target", opt_str result.deploy_target)
          ∷ ("summary", str result.summary)
          ∷ ("status", str result.status)
          ∷ [])))

  unfoldable pub persist_preflight_failure : ℕ → WorkerExecutionError → Action (Unit {0})
  persist_preflight_failure id error = when (contains error.step "preflight") (
      store_preflight id "failed" error.message (
        merge error.metadata (
          dict (
            ("log_path", opt_str error.log_path)
            ∷ ("summary", str error.message)
            ∷ ("status", str "failed")
            ∷ []))))
