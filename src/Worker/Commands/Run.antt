-- ===== src/Worker/Commands/Run.antt =====
-- worker/processing/command_processor.py: a claimed command stops its deployment's runtime.
use autodeploy_platform.Prelude.{
  ℕ, String, Bool, true, false, ◌&&◌, Option, none, some, [], ◌∷◌, find, truthy?, or_text, fstring,
  if◌then◌else◌,
}
use autodeploy_platform.Json.{num, str, merge, dict, opt_str}
use autodeploy_platform.RuntimeMetadata.{persist_helm_runtime_metadata}
use autodeploy_platform.Models.DeploymentStatus.{DeploymentStatus, status_text}
use autodeploy_platform.Models.BuildStatus.{BuildStatus}
use autodeploy_platform.Models.Rows.{
  Timestamp, CommandType, stop, cleanup, CommandStatus, PlatformDeployment, Db,
}
use autodeploy_platform.Session.{
  Environment, WorkerExecutionError, Fault, claim_lost, cancelled, worker_error, command_claim_lost,
  other, Outcome, ok, raised, Action, attempt, pure, raise, lift, try, none_or, ◌>>=◌, ◌>>◌, view,
  now_utc, commit, rollback, when, the_deployment, the_build, the_command, update_deployment,
  update_build,
}
use autodeploy_platform.Worker.Commands.Claims.{
  if_present, claim_next_pending_command, refresh_command_claim, command_heartbeat,
}
use autodeploy_platform.Worker.Commands.Settle.{
  command_step, command_event, deployment_of, record_command_event, record_result_events,
  settle_command, skip_historical_helm_command, fail_command, fail_command_internally,
}
use autodeploy_platform.Worker.Claims.{command_type_text}
use autodeploy_platform.Worker.Executor.{ExecutionResult, Executor}
use autodeploy_platform.Worker.Lifecycle.{transition_deployment, transition_build}

-- `create_executor_for_deployment` with `attach_command_heartbeat`: from the database, the id of
-- the deployment and the heartbeat, an executor, or an exception where none fits.
abbrev pub ExecutorFactory : Type 0
ExecutorFactory = Db → ℕ → Action (Unit {0}) → Outcome Executor

-- The build's status is not in {"succeeded", "failed", "cancelled"}.
abbrev pub is_open : BuildStatus → Bool
is_open BuildStatus.succeeded = false
is_open BuildStatus.failed = false
is_open BuildStatus.cancelled = false
is_open _ = true

-- What a deployment keeps of its runtime once that is gone.
unfoldable pub without_runtime : Timestamp → Option String → PlatformDeployment → PlatformDeployment
without_runtime now target d = record d {
  service_url = none;
  healthcheck_url = none;
  container_name = none;
  container_id = none;
  host_port = none;
  finished_at = some now;
  deploy_target = if truthy? target then target else d.deploy_target;
}

abbrev pub terminal_event : CommandType → String
terminal_event stop = "deployment.stopped"
terminal_event cleanup = "deployment.cleanup_succeeded"

abbrev is_stop : CommandType → Bool
is_stop stop = true
is_stop cleanup = false

-- `type(exc).__name__`
abbrev pub fault_name : Fault → String
fault_name (claim_lost error) = "ClaimLostError"
fault_name (cancelled error) = "DeploymentCancellationRequested"
fault_name (worker_error error) = "WorkerExecutionError"
fault_name (command_claim_lost message) = "CommandClaimLostError"
fault_name (other error_type) = error_type

-- `except CommandClaimLostError`: nothing of the attempt is kept.
unfoldable pub abandon_command : ℕ → Action (Option ℕ)
abandon_command deployment_id = do rollback; the_deployment deployment_id; pure (some deployment_id)

-- After a rollback the deployment may be gone too.
unfoldable pub abandon_quietly : ℕ → Action (Option ℕ)
abandon_quietly deployment_id = do
  rollback
  db ← view
  pure (if_present deployment_id (find deployment_id db.deployments))

-- What is done by the outcome of asking for the claim.
unfoldable pub by_claim :
    Action (Option ℕ) → Action (Option ℕ) → Outcome (Unit {0}) → Action (Option ℕ)
by_claim lost next (ok tt) = next
by_claim lost next (raised (command_claim_lost message)) = lost
by_claim lost next (raised fault) = raise fault

module _ (env : Environment) where
  -- A stopped deployment takes its unfinished build with it.
  unfoldable pub cancel_build : CommandType → ℕ → Action (Unit {0})
  cancel_build type build_id = do
    b ← the_build build_id
    when (is_stop type && is_open b.status) (do
      transition_build build_id BuildStatus.cancelled
      now ← now_utc env
      update_build build_id (λ r. record r { finished_at = some now }))

  unfoldable pub store_stop : ℕ → CommandType → ExecutionResult → Action (Unit {0})
  store_stop deployment_id type result = do
    transition_deployment deployment_id DeploymentStatus.stopped
    d ← the_deployment deployment_id
    cancel_build type d.build_id
    now ← now_utc env
    update_deployment deployment_id (without_runtime now result.deploy_target)
    update_deployment deployment_id
        (λ r. persist_helm_runtime_metadata env.str_of r result.metadata)

  -- After the executor has stopped the runtime.
  unfoldable pub finish_command : ℕ → ℕ → CommandType → String → ExecutionResult → Action (Option ℕ)
  finish_command id deployment_id type worker result = do
    refresh_command_claim env id (some worker)
    store_stop deployment_id type result
    c ← the_command id
    record_result_events deployment_id (command_step type) c.origin_request_id result.events
    record_command_event deployment_id (terminal_event type) "stopped" (some result.message)
        (command_step type) "info"
        (merge result.metadata (
          dict (
            ("command_id", num id)
            ∷ ("log_path", opt_str result.log_path)
            ∷ ("origin_request_id", opt_str c.origin_request_id)
            ∷ [])))
    settle_command env id CommandStatus.succeeded none
    commit
    pure (some deployment_id)

  unfoldable pub execute_command :
      ExecutorFactory → ℕ → ℕ → CommandType → String → Action (Option ℕ)
  execute_command make id deployment_id type worker = do
    db ← view
    executor ← lift (make db deployment_id (command_heartbeat env id (some worker)))
    result ← executor.stop deployment_id
    finish_command id deployment_id type worker result

  -- What stands under `try:`.
  unfoldable pub run_command : ExecutorFactory → ℕ → ℕ → CommandType → String → Action (Option ℕ)
  run_command make id deployment_id type worker = do
    refresh_command_claim env id (some worker)
    d ← the_deployment deployment_id
    c ← the_command id
    record_command_event deployment_id (command_event type "_started") (status_text d.status)
        (some
          (or_text c.message (fstring ("Processing deployment " ∷ command_type_text type ∷ []))))
        (command_step type) "info"
        (dict (("command_id", num id) ∷ ("origin_request_id", opt_str c.origin_request_id) ∷ []))
    commit
    skipped ← skip_historical_helm_command env id deployment_id worker
    none_or skipped (execute_command make id deployment_id type worker) (λ owner. pure (some owner))

  -- The claim is asked for once more before a failure is recorded; `lost` is what is done instead.
  unfoldable pub if_still_claimed :
      ℕ → String → Action (Option ℕ) → Action (Option ℕ) → Action (Option ℕ)
  if_still_claimed id worker lost next = do
    outcome ← attempt (refresh_command_claim env id (some worker))
    by_claim lost next outcome

  unfoldable pub fail_command_step :
      ℕ → ℕ → CommandType → String → WorkerExecutionError → Action (Option ℕ)
  fail_command_step id deployment_id type worker error =
      if_still_claimed id worker (abandon_command deployment_id) (do
        c ← the_command id
        fail_command env id deployment_id type error.message
            (or_text (some error.step) (command_step type))
            (merge error.metadata (dict (("origin_request_id", opt_str c.origin_request_id) ∷ []))))

  unfoldable pub fail_command_unexpectedly :
      ℕ → ℕ → CommandType → String → Fault → Action (Option ℕ)
  fail_command_unexpectedly id deployment_id type worker fault = do
    the_command id
    the_deployment deployment_id
    rollback
    db ← view
    none_or (find id db.commands) (pure none) λ c.
        none_or (find c.deployment_id db.deployments) (pure none) λ d.
          if_still_claimed id worker (abandon_quietly deployment_id) (
            fail_command_internally env id c.deployment_id type (
              dict (
                ("command_id", num id)
                ∷ ("error_type", str (fault_name fault))
                ∷ ("origin_request_id", opt_str c.origin_request_id)
                ∷ [])))

  -- The `except` clauses.
  unfoldable pub handle_command_fault : ℕ → ℕ → CommandType → String → Fault → Action (Option ℕ)
  handle_command_fault id deployment_id type worker (worker_error error) =
      fail_command_step id deployment_id type worker error
  handle_command_fault id deployment_id type worker (command_claim_lost message) =
      abandon_command deployment_id
  handle_command_fault id deployment_id type worker fault =
      fail_command_unexpectedly id deployment_id type worker fault

  unfoldable pub process_deployment_command : ExecutorFactory → ℕ → Action (Option ℕ)
  process_deployment_command make id = do
    c ← the_command id
    d ← deployment_of c
    let worker = or_text c.claimed_by env.worker_id
    try (run_command make id c.deployment_id c.command_type worker)
        (handle_command_fault id c.deployment_id c.command_type worker)

  unfoldable pub process_next_pending_command : ExecutorFactory → Action (Option ℕ)
  process_next_pending_command make = do
    claimed ← claim_next_pending_command env none none
    none_or claimed (pure none) (process_deployment_command make)
