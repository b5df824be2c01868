-- ===== src/Worker/Pipeline/Release.antt =====
-- worker/processing/pipeline.py: the stages that deploy the image.
use autodeploy_platform.Prelude.{
  ℕ, String, ◌&&◌, not, Option, none, some, [], ◌∷◌, text_eq, truthy, or_else, if◌then◌else◌,
}
use autodeploy_platform.Json.{str, merge, dict, opt_str}
use autodeploy_platform.RuntimeMetadata.{
  ResourceIdentity, no_identity, persist_kubernetes_runtime_identity,
}
use autodeploy_platform.Models.DeploymentStatus.{DeploymentStatus}
use autodeploy_platform.Session.{
  Environment, Action, pure, lift, ◌>>=◌, ◌>>◌, now_utc, commit, when, the_deployment,
  update_deployment,
}
use autodeploy_platform.Worker.Events.{record_event}
use autodeploy_platform.Worker.Claims.{
  write_claim_event, release_deployment_claim, ensure_claim_owned, refresh_claim,
}
use autodeploy_platform.Worker.Executor.{PreflightResult, Executor}
use autodeploy_platform.Worker.Lifecycle.{
  persist_preflight_result, transition_deployment, begin_step, commit_step_result,
}
use autodeploy_platform.Worker.Pipeline.Publish.{run_step}

-- `persist_kubernetes_runtime_identity` on the deployment's row.
unfoldable pub persist_identity :
    ℕ → (deployment_mode namespace : String) → ResourceIdentity → Action (Unit {0})
persist_identity id deployment_mode namespace identity = do
  d ← the_deployment id
  frozen ←
      lift (persist_kubernetes_runtime_identity d (some deployment_mode) (some namespace) identity)
  update_deployment id (λ r. record r {
    kubernetes_deployment_mode = frozen.kubernetes_deployment_mode;
    kubernetes_namespace = frozen.kubernetes_namespace;
    kubernetes_deployment_name = frozen.kubernetes_deployment_name;
    kubernetes_service_name = frozen.kubernetes_service_name;
    kubernetes_ingress_name = frozen.kubernetes_ingress_name;
  })

module _ (env : Environment) (executor : Executor) where
  unfoldable pub identity_of : ℕ → Option (ℕ → Action ResourceIdentity) → Action ResourceIdentity
  identity_of id none = pure no_identity
  identity_of id (some call) = call id

  -- The runtime identity of a Kubernetes deployment, before the first side effect.
  unfoldable pub freeze_identity : ℕ → Action (Unit {0})
  freeze_identity id = do
    let mode = or_else executor.deployment_mode env.deployment_mode
    identity ←
        if text_eq mode "manifest"
        then identity_of id executor.kubernetes_resource_identity
        else pure no_identity
    persist_identity id mode (or_else executor.namespace env.namespace) identity

  unfoldable pub freeze_target : ℕ → Option String → Action (Unit {0})
  freeze_target id none = pure tt
  freeze_target id (some target) = when (truthy target && not (text_eq target "unknown")) (do
    ensure_claim_owned env id none
    update_deployment id (λ d. record d { deploy_target = some target })
    when (text_eq target "kubernetes") (freeze_identity id)
    commit)

  unfoldable pub commit_preflight : ℕ → Option PreflightResult → Action (Unit {0})
  commit_preflight id none = pure tt
  commit_preflight id (some result) =
      commit_step_result env id "deployment.preflight_succeeded" "deploying" result.summary
        "deploy.preflight"
        (merge result.metadata (
          dict (
            ("log_path", opt_str result.log_path)
            ∷ ("deploy_target", opt_str result.deploy_target)
            ∷ ("summary", str result.summary)
            ∷ ("status", str result.status)
            ∷ [])))
        result.events

  unfoldable pub run_preflight :
      ℕ → Option (ℕ → Action (Option PreflightResult)) → Action (Unit {0})
  run_preflight id none = pure tt
  run_preflight id (some call) = do
    result ← call id
    ensure_claim_owned env id none
    persist_preflight_result env id result
    commit_preflight id result

  unfoldable pub target_stage : ℕ → Action (Unit {0})
  target_stage id = do
    begin_step env id DeploymentStatus.deploying "deployment.apply_started"
        "Worker started deployment apply step"
    freeze_target id executor.deploy_target

  unfoldable pub preflight_stage : ℕ → Action (Unit {0})
  preflight_stage id = run_preflight id executor.preflight_deploy

  unfoldable pub deploy_stage : ℕ → Action (Unit {0})
  deploy_stage id = do
    result ← run_step env executor id executor.deploy
    commit_step_result env id "deployment.apply_succeeded" "deploying" result.message "deploy"
        (merge result.metadata (
          dict (
            ("log_path", opt_str result.log_path)
            ∷ ("service_url", opt_str result.service_url)
            ∷ ("deploy_target", opt_str result.deploy_target)
            ∷ ("summary", str result.message)
            ∷ [])))
        result.events

  unfoldable pub finish_stage : ℕ → Action (Unit {0})
  finish_stage id = do
    ensure_claim_owned env id none
    refresh_claim env id none
    transition_deployment id DeploymentStatus.running
    now ← now_utc env
    update_deployment id (λ d. record d { finished_at = some now })
    d ← the_deployment id
    record_event env id "deployment.running" "running" (some "Deployment is now running")
        (some "deployment") "info"
        (dict (
          ("service_url", opt_str d.service_url)
          ∷ ("deploy_target", opt_str d.deploy_target)
          ∷ ("summary", str "Deployment is now running")
          ∷ []))
    write_claim_event env id "claim_cleared" "Worker cleared deployment claim after success" "info"
        (dict (("worker_id", str env.worker_id) ∷ []))
    release_deployment_claim env id
    commit
