-- ===== src/Evolution/Pipeline.antt =====
-- worker/processing/pipeline.py, its `except` clauses and the whole of it, and the
-- permitted change of the database.
use autodeploy_platform.Prelude.{ℕ, String, Option, none, some}
use autodeploy_platform.Models.Rows.{Db}
use autodeploy_platform.Session.{
  Environment, WorkerExecutionError, Fault, claim_lost, cancelled, worker_error, command_claim_lost,
  other, Action,
}
use autodeploy_platform.Session.Keeps.{Keeps, bind-Keeps, try-Keeps, none_or-Keeps, keeps_rules}
use autodeploy_platform.Evolution.Session.{From}
use autodeploy_platform.Evolution.Claims.{
  session_rules, record_auxiliary_events-Keeps, persist_claim_loss-Keeps,
  persist_cancellation_acknowledgement-Keeps, claim_heartbeat-Keeps,
  claim_next_pending_deployment-Keeps,
}
use autodeploy_platform.Evolution.Lifecycle.{
  mark_failed-Keeps, clear_preflight_state-Keeps, persist_preflight_failure-Keeps,
}
use autodeploy_platform.Worker.Executor.{Executor}
use autodeploy_platform.Worker.Pipeline.Failure.{
  give_way, note_failure_log, fail_step, fail_unexpectedly, handle_fault,
}
use autodeploy_platform.Worker.Pipeline.{
  reset_attempt, process_deployment, process_next_pending_deployment,
}
use autodeploy_platform.Evolution.Stages.{ExecutorKeeps, stage_rules, run_pipeline-Keeps}

module _ {start : Db} (env : Environment) where
  give_way-Keeps : (id : ℕ) (fault : Fault) → Keeps (From start) (give_way env id fault)
  unfolding give_way
  give_way-Keeps id (claim_lost error) = search persist_claim_loss-Keeps
  give_way-Keeps id (cancelled error) = search persist_cancellation_acknowledgement-Keeps
  give_way-Keeps id _ = search keeps_rules

  note_failure_log-Keeps :
      (id : ℕ) (error : WorkerExecutionError) (path : Option String)
      → Keeps (From start) (note_failure_log env id error path)
  unfolding note_failure_log
  note_failure_log-Keeps id error none = search keeps_rules
  note_failure_log-Keeps id error (some path) = search stage_rules depth 12

  fail_step-Keeps :
      (id : ℕ) (error : WorkerExecutionError) → Keeps (From start) (fail_step env id error)
  unfolding fail_step
  fail_step-Keeps id error =
      search
        (
          stage_rules, note_failure_log-Keeps, persist_preflight_failure-Keeps,
          record_auxiliary_events-Keeps, mark_failed-Keeps, give_way-Keeps,
        )
        depth 14

  fail_unexpectedly-Keeps :
      (id : ℕ) (error_type : String) → Keeps (From start) (fail_unexpectedly env id error_type)
  unfolding fail_unexpectedly
  fail_unexpectedly-Keeps id error_type =
      search (session_rules, mark_failed-Keeps, give_way-Keeps) depth 14

  handle_fault-Keeps : (id : ℕ) (fault : Fault) → Keeps (From start) (handle_fault env id fault)
  unfolding handle_fault
  handle_fault-Keeps id (claim_lost error) = search persist_claim_loss-Keeps
  handle_fault-Keeps id (cancelled error) = search persist_cancellation_acknowledgement-Keeps
  handle_fault-Keeps id (worker_error error) = search fail_step-Keeps
  handle_fault-Keeps id (command_claim_lost message) = search fail_unexpectedly-Keeps
  handle_fault-Keeps id (other error_type) = search fail_unexpectedly-Keeps

  reset_attempt-Keeps : (id : ℕ) → Keeps (From start) (reset_attempt env id)
  unfolding reset_attempt
  reset_attempt-Keeps id = search (stage_rules, clear_preflight_state-Keeps) depth 12

  process_deployment-Keeps :
      (make : Action (Unit {0}) → Executor) (id : ℕ)
      → ((beat : Action (Unit {0})) → Keeps (From start) beat → ExecutorKeeps start (make beat))
      → Keeps (From start) (process_deployment env make id)
  unfolding process_deployment
  process_deployment-Keeps make id x = bind-Keeps _ _ (reset_attempt-Keeps id) λ _.
      try-Keeps _ _
        (run_pipeline-Keeps env _ (x _ (claim_heartbeat-Keeps env id (some env.worker_id))) id)
        (handle_fault-Keeps id)

  pub process_next_pending_deployment-Keeps :
      (make : Action (Unit {0}) → Executor)
      → ((beat : Action (Unit {0})) → Keeps (From start) beat → ExecutorKeeps start (make beat))
      → Keeps (From start) (process_next_pending_deployment env make)
  unfolding process_next_pending_deployment
  process_next_pending_deployment-Keeps make x =
      bind-Keeps _ _ (claim_next_pending_deployment-Keeps env none none) λ claimed.
        none_or-Keeps claimed _ _ (search keeps_rules) (λ id. process_deployment-Keeps make id x)
