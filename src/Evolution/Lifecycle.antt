-- ===== src/Evolution/Lifecycle.antt =====
-- worker/processing/lifecycle.py and the permitted change of the database.
use autodeploy_platform.Prelude.{ℕ, String, refl, Option, none, some, List}
use autodeploy_platform.Json.{Dict}
use autodeploy_platform.RuntimeMetadata.{persist_helm_runtime_metadata}
use autodeploy_platform.Models.DeploymentStatus.{DeploymentStatus}
use autodeploy_platform.Models.Rows.{Build, PlatformDeployment, Db}
use autodeploy_platform.Session.{Environment, AuxiliaryEvent, WorkerExecutionError}
use autodeploy_platform.Session.Keeps.{Keeps, keeps_rules}
use autodeploy_platform.Evolution.Rows.{
  Evolves, Evolves-trans, BuildEvolves, untouched, build_untouched,
}
use autodeploy_platform.Evolution.Identity.{persist_helm_runtime_metadata-Evolves}
use autodeploy_platform.Evolution.Session.{From, update_deployment-Keeps, update_build-Keeps}
use autodeploy_platform.Evolution.Claims.{
  session_rules, deployment_secret_values-Keeps, record_event-Keeps, record_auxiliary_events-Keeps,
  write_claim_event-Keeps, release_deployment_claim-Keeps, ensure_claim_owned-Keeps,
  refresh_claim-Keeps,
}
use autodeploy_platform.Worker.Executor.{ExecutionResult, PreflightResult}
use autodeploy_platform.Worker.Lifecycle.{
  built, deployed, apply_execution_result, clear_preflight_state, store_preflight,
  persist_preflight_result, persist_preflight_failure, failure_metadata, fail_rows, mark_failed,
  begin_step, commit_step_result,
}
use autodeploy_platform.Evolution.Transitions.{
  write_rules, transition_deployment-Keeps, transition_build-Keeps, set_deployment_status-Keeps,
}

module _ {start : Db} (env : Environment) where
  pub begin_step-Keeps :
      (id : ℕ) (s : DeploymentStatus) (event_type message : String)
      → Keeps (From start) (begin_step env id s event_type message)
  unfolding begin_step
  begin_step-Keeps id s event_type message =
      search
        (session_rules, ensure_claim_owned-Keeps, refresh_claim-Keeps, set_deployment_status-Keeps)
        depth 12

  pub commit_step_result-Keeps :
      (id : ℕ) (event_type status message step : String) (metadata : Dict)
      (events : List AuxiliaryEvent)
      → Keeps
          (From start)
          (commit_step_result env id event_type status message step metadata events)
  unfolding commit_step_result
  commit_step_result-Keeps id event_type status message step metadata events =
      search
        (
          session_rules, ensure_claim_owned-Keeps, refresh_claim-Keeps, record_event-Keeps,
          record_auxiliary_events-Keeps,
        )
        depth 12

  fail_rows-Keeps :
      (id build_id : ℕ) (message : String) → Keeps (From start) (fail_rows env id build_id message)
  unfolding fail_rows
  fail_rows-Keeps id build_id message =
      search (session_rules, transition_deployment-Keeps, transition_build-Keeps, write_rules) depth
        14

  failure_metadata-Keeps :
      (id : ℕ) (step message : String) (metadata : Dict)
      → Keeps (From start) (failure_metadata env id step message metadata)
  unfolding failure_metadata
  failure_metadata-Keeps id step message metadata = search session_rules depth 12

  pub mark_failed-Keeps :
      (id : ℕ) (step message : String) (metadata : Dict)
      → Keeps (From start) (mark_failed env id step message metadata)
  unfolding mark_failed
  mark_failed-Keeps id step message metadata =
      search
        (
          session_rules, ensure_claim_owned-Keeps, refresh_claim-Keeps, failure_metadata-Keeps,
          deployment_secret_values-Keeps, fail_rows-Keeps, record_event-Keeps,
          write_claim_event-Keeps, release_deployment_claim-Keeps,
        )
        depth 20

-- What a result leaves in the rows.
applied :
    (env : Environment) (result : ExecutionResult) (d : PlatformDeployment)
    → Evolves d (persist_helm_runtime_metadata env.str_of (deployed result d) result.metadata)
unfolding deployed
applied env result d =
    Evolves-trans (untouched d (deployed result d) refl)
      (persist_helm_runtime_metadata-Evolves env.str_of (deployed result d) result.metadata)

built_untouched : (result : ExecutionResult) (b : Build) → BuildEvolves b (built result b)
unfolding built
built_untouched result b = build_untouched b (built result b) refl

module _ {start : Db} (env : Environment) where
  pub apply_execution_result-Keeps :
      (id : ℕ) (result : ExecutionResult)
      → Keeps (From start) (apply_execution_result env id result)
  unfolding apply_execution_result
  apply_execution_result-Keeps id result =
      search (keeps_rules, update_deployment-Keeps, update_build-Keeps, applied, built_untouched)
        depth 12

  pub clear_preflight_state-Keeps : (id : ℕ) → Keeps (From start) (clear_preflight_state env id)
  unfolding clear_preflight_state
  clear_preflight_state-Keeps id = search write_rules

  store_preflight-Keeps :
      (id : ℕ) (status summary : String) (metadata : Dict)
      → Keeps (From start) (store_preflight env id status summary metadata)
  unfolding store_preflight
  store_preflight-Keeps id status summary metadata =
      search (session_rules, deployment_secret_values-Keeps, write_rules) depth 14

  pub persist_preflight_result-Keeps :
      (id : ℕ) (result : Option PreflightResult)
      → Keeps (From start) (persist_preflight_result env id result)
  unfolding persist_preflight_result
  persist_preflight_result-Keeps id none = search keeps_rules
  persist_preflight_result-Keeps id (some result) = search store_preflight-Keeps

  pub persist_preflight_failure-Keeps :
      (id : ℕ) (error : WorkerExecutionError)
      → Keeps (From start) (persist_preflight_failure env id error)
  unfolding persist_preflight_failure
  persist_preflight_failure-Keeps id error = search (keeps_rules, store_preflight-Keeps)
