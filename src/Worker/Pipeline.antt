-- ===== src/Worker/Pipeline.antt =====
-- worker/processing/pipeline.py: a claimed deployment goes through the ordered steps. The body of
-- `process_deployment` is cut into its stages, and `run_pipeline` puts them together again.
pub mod Publish
pub mod Release
pub mod Failure
use autodeploy_platform.Prelude.{
  ℕ, String, Bool, true, false, ◌&&◌, not, Option, none, some, List, [], ◌∷◌, text_eq, truthy,
  truthy?, or_else, fstring, if◌then◌else◌,
}
use autodeploy_platform.Json.{Json, bool, str, Dict, get?, merge, dict, opt_str, json_truthy?}
use autodeploy_platform.RuntimeMetadata.{
  ResourceIdentity, no_identity, persist_kubernetes_runtime_identity,
}
use autodeploy_platform.Models.DeploymentStatus.{DeploymentStatus, status_text}
use autodeploy_platform.Models.BuildStatus.{BuildStatus}
use autodeploy_platform.Models.Rows.{Build, PlatformDeployment}
use autodeploy_platform.Session.{
  Environment, WorkerExecutionError, Fault, claim_lost, cancelled, worker_error, command_claim_lost,
  other, Action, pure, none_or, raise, lift, try, ◌>>=◌, ◌>>◌, view, now_utc, commit, rollback,
  when, the_deployment, the_build, update_deployment, update_build,
}
use autodeploy_platform.Prelude.{find}
use autodeploy_platform.Worker.Events.{record_event, record_auxiliary_events}
use autodeploy_platform.Worker.Claims.{
  write_claim_event, release_deployment_claim, ensure_claim_owned, refresh_claim,
  persist_claim_loss, persist_cancellation_acknowledgement, claim_heartbeat,
  claim_next_pending_deployment,
}
use autodeploy_platform.Worker.Executor.{ExecutionResult, PreflightResult, Executor}
use autodeploy_platform.Worker.Lifecycle.{
  push_event_metadata, apply_execution_result, clear_preflight_state, persist_preflight_result,
  persist_preflight_failure, transition_deployment, transition_build, mark_failed, begin_step,
  commit_step_result,
}
use autodeploy_platform.Worker.Pipeline.Publish.{
  update_build_of, clone_stage, build_stage, test_stage, tag_stage, push_stage, verify_stage,
}
use autodeploy_platform.Worker.Pipeline.Release.{
  target_stage, preflight_stage, deploy_stage, finish_stage,
}
use autodeploy_platform.Worker.Pipeline.Failure.{handle_fault}

module _ (env : Environment) (executor : Executor) where
  -- What stands under `try:`.
  unfoldable pub run_pipeline : ℕ → Action (Option ℕ)
  run_pipeline id = do
    clone_stage env executor id
    build_stage env executor id
    test_stage env executor id
    tag_stage env executor id
    push_stage env executor id
    verify_stage env executor id
    target_stage env executor id
    preflight_stage env executor id
    deploy_stage env executor id
    finish_stage env executor id
    pure (some id)

module _ (env : Environment) where
  -- The writes that precede `try:`.
  unfoldable pub reset_attempt : ℕ → Action (Unit {0})
  reset_attempt id = do
    the_deployment id
    update_deployment id (λ d. record d { last_error = none })
    update_build_of id (λ b. record b { last_error = none; registry_push_status = none })
    clear_preflight_state env id

  -- `make` gives the executor once its heartbeat is set (`attach_claim_heartbeat`).
  unfoldable pub process_deployment : (Action (Unit {0}) → Executor) → ℕ → Action (Option ℕ)
  process_deployment make id = do
    let executor = make (claim_heartbeat env id (some env.worker_id))
    reset_attempt id
    try (run_pipeline env executor id) (handle_fault env id)

  unfoldable pub process_next_pending_deployment :
      (Action (Unit {0}) → Executor) → Action (Option ℕ)
  process_next_pending_deployment make = do
    claimed ← claim_next_pending_deployment env none none
    none_or claimed (pure none) (process_deployment make)
