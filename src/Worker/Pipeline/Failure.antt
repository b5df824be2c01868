-- ===== src/Worker/Pipeline/Failure.antt =====
-- worker/processing/pipeline.py: the `except` clauses of `process_deployment`.
use autodeploy_platform.Prelude.{ℕ, String, Option, none, some, [], ◌∷◌, text_eq, truthy}
use autodeploy_platform.Json.{str, dict}
use autodeploy_platform.Session.{
  Environment, WorkerExecutionError, Fault, claim_lost, cancelled, worker_error, command_claim_lost,
  other, Action, pure, none_or, raise, try, ◌>>=◌, ◌>>◌, view, rollback, when,
}
use autodeploy_platform.Prelude.{find}
use autodeploy_platform.Worker.Events.{record_auxiliary_events}
use autodeploy_platform.Worker.Claims.{persist_claim_loss, persist_cancellation_acknowledgement}
use autodeploy_platform.Worker.Lifecycle.{persist_preflight_failure, mark_failed}
use autodeploy_platform.Worker.Pipeline.Publish.{update_build_of}

module _ (env : Environment) where
  -- Loss of the claim, or a stop command, while a failure is recorded; any other exception goes on.
  unfoldable pub give_way : ℕ → Fault → Action (Option ℕ)
  give_way id (claim_lost error) = persist_claim_loss env id error
  give_way id (cancelled error) = persist_cancellation_acknowledgement env id error
  give_way id fault = raise fault

  unfoldable pub note_failure_log : ℕ → WorkerExecutionError → Option String → Action (Unit {0})
  note_failure_log id error none = pure tt
  note_failure_log id error (some path) = when (truthy path) (do
    update_build_of id (λ b. record b { log_path = some path })
    when (text_eq error.step "image.build")
        (update_build_of id (λ b. record b { build_log_path = some path })))

  unfoldable pub fail_step : ℕ → WorkerExecutionError → Action (Option ℕ)
  fail_step id error = do
    note_failure_log id error error.log_path
    when (text_eq error.step "image.push")
        (update_build_of id (λ b. record b { registry_push_status = some "failed" }))
    persist_preflight_failure env id error
    try
        (do
          record_auxiliary_events env id error.events
          mark_failed env id error.step error.message error.metadata)
        (give_way id)

  unfoldable pub fail_unexpectedly : ℕ → String → Action (Option ℕ)
  fail_unexpectedly id error_type = do
    rollback
    db ← view
    none_or (find id db.deployments) (pure none) λ d.
        try
          (mark_failed env id "worker.internal" "Worker encountered an unexpected internal error"
            (dict (("error_type", str error_type) ∷ [])))
          (give_way id)

  -- The `except` clauses.
  unfoldable pub handle_fault : ℕ → Fault → Action (Option ℕ)
  handle_fault id (claim_lost error) = persist_claim_loss env id error
  handle_fault id (cancelled error) = persist_cancellation_acknowledgement env id error
  handle_fault id (worker_error error) = fail_step id error
  handle_fault id (command_claim_lost message) = fail_unexpectedly id "CommandClaimLostError"
  handle_fault id (other error_type) = fail_unexpectedly id error_type
