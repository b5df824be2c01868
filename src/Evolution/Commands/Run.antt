-- ===== src/Evolution/Commands/Run.antt =====
-- The run of a command, and of a work item, and the permitted change of the database.
use autodeploy_platform.Prelude.{ℕ, String, ◌≡◌, refl, Option, some}
use autodeploy_platform.Models.Rows.{Timestamp, CommandType, Db}
use autodeploy_platform.Session.{
  Environment, World, WorkerExecutionError, Fault, claim_lost, cancelled, worker_error,
  command_claim_lost, other, Outcome, ok, raised, Action, lift, attempt, update_deployment,
}
use autodeploy_platform.Session.Keeps.{
  Keeps, bind-Keeps, bind-then, none_or-Keeps, pure-Keeps, raise-Keeps, lift-Keeps, attempt-Keeps,
  view-Keeps, keeps_rules,
}
use autodeploy_platform.Evolution.Identity.{persist_helm_runtime_metadata-Evolves}
use autodeploy_platform.Evolution.Database.{DbEvolves}
use autodeploy_platform.Evolution.Session.{From, fresh-From, PeersEvolve, update_deployment-Keeps}
use autodeploy_platform.Evolution.Claims.{session_rules}
use autodeploy_platform.Evolution.Transitions.{
  write_rules, transition_deployment-Keeps, transition_build-Keeps,
}
use autodeploy_platform.Evolution.Stages.{ExecutorKeeps}
use autodeploy_platform.Evolution.Pipeline.{process_next_pending_deployment-Keeps}
use autodeploy_platform.Evolution.Commands.Claims.{
  IsUnsettled, refresh_command_claim-Keeps, refreshed-IsUnsettled, command_heartbeat-Keeps,
  claim_next_pending_command-Keeps,
}
use autodeploy_platform.Evolution.Commands.Settle.{
  deployment_of-Keeps, record_command_event-Keeps, record_result_events-Keeps, settle_command-Keeps,
  skip_historical_helm_command-Keeps, fail_command-Keeps, fail_command_internally-Keeps,
}
use autodeploy_platform.Worker.Commands.Run.{
  ExecutorFactory, without_runtime, by_claim, cancel_build, store_stop, finish_command,
  execute_command, run_command, abandon_command, if_still_claimed, fail_command_step,
  abandon_quietly, fail_command_unexpectedly, handle_command_fault, process_deployment_command,
  process_next_pending_command,
}
use autodeploy_platform.Worker.Executor.{ExecutionResult, Executor}
use autodeploy_platform.Worker.WorkItems.{process_next_work_item}

-- Whatever executor the factory gives keeps within the permitted change, if its heartbeat does.
abbrev pub FactoryKeeps : Db → ExecutorFactory → Type 0
FactoryKeeps start make =
    (db : Db) (id : ℕ) (beat : Action (Unit {0})) (executor : Executor)
    → Keeps (From start) beat
    → make db id beat ≡ ok executor
    → ExecutorKeeps start executor

module _ {start : Db} (env : Environment) where
  cancel_build-Keeps :
      (type : CommandType) (build_id : ℕ) → Keeps (From start) (cancel_build env type build_id)
  unfolding cancel_build
  cancel_build-Keeps type build_id =
      search (session_rules, transition_build-Keeps, write_rules) depth 16

  without_runtime-Keeps :
      (id : ℕ) (now : Timestamp) (target : Option String)
      → Keeps (From start) (update_deployment id (without_runtime now target))
  unfolding without_runtime
  without_runtime-Keeps id now target = search write_rules

  store_stop-Keeps :
      (id : ℕ) (type : CommandType) (result : ExecutionResult)
      → Keeps (From start) (store_stop env id type result)
  unfolding store_stop
  store_stop-Keeps id type result =
      search
        (
          session_rules, transition_deployment-Keeps, cancel_build-Keeps, without_runtime-Keeps,
          update_deployment-Keeps, persist_helm_runtime_metadata-Evolves,
        )
        depth 16

  finish_command-Keeps :
      (id deployment_id : ℕ) (type : CommandType) (worker : String) (result : ExecutionResult)
      → Keeps (From start) (finish_command env id deployment_id type worker result)
  unfolding finish_command
  finish_command-Keeps id deployment_id type worker result =
      bind-then _ _ (refresh_command_claim-Keeps env id (some worker)) λ w h a done.
        let unsettled = refreshed-IsUnsettled env id (some worker) w h done in
        search
          (
            session_rules, store_stop-Keeps, record_result_events-Keeps, record_command_event-Keeps,
            settle_command-Keeps, unsettled,
          )
          depth 18

  abandon_command-Keeps : (id : ℕ) → Keeps (From start) (abandon_command id)
  unfolding abandon_command
  abandon_command-Keeps id = search session_rules depth 12

  abandon_quietly-Keeps : (id : ℕ) → Keeps (From start) (abandon_quietly id)
  unfolding abandon_quietly
  abandon_quietly-Keeps id = search session_rules depth 12

  by_claim-Keeps :
      (id : ℕ) (lost next : Action (Option ℕ)) (outcome : Outcome (Unit {0}))
      → (outcome ≡ ok tt → IsUnsettled start id)
      → Keeps (From start) lost
      → (IsUnsettled start id → Keeps (From start) next)
      → Keeps (From start) (by_claim lost next outcome)
  unfolding by_claim
  by_claim-Keeps id lost next (ok tt) known l n = n (known refl)
  by_claim-Keeps id lost next (raised (command_claim_lost message)) known l n = l
  by_claim-Keeps id lost next (raised (claim_lost error)) known l n = raise-Keeps _
  by_claim-Keeps id lost next (raised (cancelled error)) known l n = raise-Keeps _
  by_claim-Keeps id lost next (raised (worker_error error)) known l n = raise-Keeps _
  by_claim-Keeps id lost next (raised (other name)) known l n = raise-Keeps _

  if_still_claimed-Keeps :
      (id : ℕ) (worker : String) (lost next : Action (Option ℕ))
      → Keeps (From start) lost
      → (IsUnsettled start id → Keeps (From start) next)
      → Keeps (From start) (if_still_claimed env id worker lost next)
  unfolding if_still_claimed attempt
  if_still_claimed-Keeps id worker lost next l n =
      bind-then _ _ (attempt-Keeps _ (refresh_command_claim-Keeps env id (some worker)))
        λ w h outcome reported.
          by_claim-Keeps id lost next outcome
            (λ good. refreshed-IsUnsettled env id (some worker) w h (cc)) l n

  fail_command_step-Keeps :
      (id deployment_id : ℕ) (type : CommandType) (worker : String) (error : WorkerExecutionError)
      → Keeps (From start) (fail_command_step env id deployment_id type worker error)
  unfolding fail_command_step
  fail_command_step-Keeps id deployment_id type worker error =
      if_still_claimed-Keeps id worker _ _ (abandon_command-Keeps deployment_id)
        (λ unsettled. search (keeps_rules, fail_command-Keeps, unsettled) depth 12)

  fail_command_unexpectedly-Keeps :
      (id deployment_id : ℕ) (type : CommandType) (worker : String) (fault : Fault)
      → Keeps (From start) (fail_command_unexpectedly env id deployment_id type worker fault)
  unfolding fail_command_unexpectedly
  fail_command_unexpectedly-Keeps id deployment_id type worker fault =
      search
        (
          session_rules, if_still_claimed-Keeps, abandon_quietly-Keeps,
          fail_command_internally-Keeps,
        )
        depth 18

  handle_command_fault-Keeps :
      (id deployment_id : ℕ) (type : CommandType) (worker : String) (fault : Fault)
      → Keeps (From start) (handle_command_fault env id deployment_id type worker fault)
  unfolding handle_command_fault
  handle_command_fault-Keeps id deployment_id type worker (worker_error error) =
      search fail_command_step-Keeps
  handle_command_fault-Keeps id deployment_id type worker (command_claim_lost message) =
      search abandon_command-Keeps
  handle_command_fault-Keeps id deployment_id type worker (claim_lost error) =
      search fail_command_unexpectedly-Keeps
  handle_command_fault-Keeps id deployment_id type worker (cancelled error) =
      search fail_command_unexpectedly-Keeps
  handle_command_fault-Keeps id deployment_id type worker (other name) =
      search fail_command_unexpectedly-Keeps

module _ {start : Db} (env : Environment) (make : ExecutorFactory)
    (x : FactoryKeeps start make) where
  execute_command-Keeps :
      (id deployment_id : ℕ) (type : CommandType) (worker : String)
      → Keeps (From start) (execute_command env make id deployment_id type worker)
  unfolding execute_command lift
  execute_command-Keeps id deployment_id type worker = bind-Keeps _ _ view-Keeps λ db.
      bind-then _ _ (lift-Keeps _) λ w h executor made.
        bind-Keeps _ _
          ((x db deployment_id _ executor (command_heartbeat-Keeps env id (some worker)) made).stop
            deployment_id)
          (finish_command-Keeps env id deployment_id type worker)

  run_command-Keeps :
      (id deployment_id : ℕ) (type : CommandType) (worker : String)
      → Keeps (From start) (run_command env make id deployment_id type worker)
  unfolding run_command
  run_command-Keeps id deployment_id type worker =
      search
        (
          session_rules, refresh_command_claim-Keeps, record_command_event-Keeps,
          skip_historical_helm_command-Keeps, execute_command-Keeps,
        )
        depth 20

  process_deployment_command-Keeps :
      (id : ℕ) → Keeps (From start) (process_deployment_command env make id)
  unfolding process_deployment_command
  process_deployment_command-Keeps id =
      search (keeps_rules, deployment_of-Keeps, run_command-Keeps, handle_command_fault-Keeps) depth
        16

  pub process_next_pending_command-Keeps :
      Keeps (From start) (process_next_pending_command env make)
  unfolding process_next_pending_command
  process_next_pending_command-Keeps =
      search (keeps_rules, claim_next_pending_command-Keeps, process_deployment_command-Keeps) depth
        12

module _ {start : Db} (env : Environment) where
  process_next_work_item-Keeps :
      (make_for : ExecutorFactory) (make : Action (Unit {0}) → Executor)
      → FactoryKeeps start make_for
      → ((beat : Action (Unit {0})) → Keeps (From start) beat → ExecutorKeeps start (make beat))
      → Keeps (From start) (process_next_work_item env make_for make)
  unfolding process_next_work_item
  process_next_work_item-Keeps make_for make x y =
      bind-Keeps _ _ (process_next_pending_command-Keeps env make_for x) λ done.
        none_or-Keeps done _ _ (process_next_pending_deployment-Keeps env make y)
          (λ id. pure-Keeps (some id))

-- Where the session starts fresh, the other processes' commits are permitted changes and so are the
-- writes of the executors, whatever a worker commits in taking its next work item, a command or a
-- deployment, is a permitted change of the database: no deployment, build or command goes away,
-- statuses only move along the tables of transitions, creation columns and start times stay, claims
-- stay paired, a Kubernetes mode and namespace that were set stay, what a command asks for stays and
-- a command that was over is as it was, and the log of events only grows. This holds
-- also where the run raises.
pub process_next_work_item-DbEvolves :
    (env : Environment) (make_for : ExecutorFactory) (make : Action (Unit {0}) → Executor)
    (w : World)
    → w.work ≡ w.saved
    → PeersEvolve w.peers
    → FactoryKeeps w.saved make_for
    → ((beat : Action (Unit {0})) → Keeps (From w.saved) beat → ExecutorKeeps w.saved (make beat))
    → DbEvolves w.saved (process_next_work_item env make_for make w).1.saved
process_next_work_item-DbEvolves env make_for make w fresh peers x y =
    ((process_next_work_item-Keeps env make_for make x y).after w (fresh-From w fresh peers)).saved
