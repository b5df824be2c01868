-- ===== src/Evolution/Commands/Settle.antt =====
-- How a command ends and the permitted change of the database.
use autodeploy_platform.Prelude.{ℕ, String, Option, some, List, [], ◌∷◌}
use autodeploy_platform.Json.{Dict}
use autodeploy_platform.Models.Rows.{CommandType, CommandStatus, DeploymentCommand, Db}
use autodeploy_platform.Session.{Environment, AuxiliaryEvent}
use autodeploy_platform.Session.Keeps.{Keeps, bind-Keeps, bind-then, keeps_rules, the_command-Keeps}
use autodeploy_platform.Evolution.Session.{From}
use autodeploy_platform.Evolution.Claims.{session_rules, deployment_secret_values-Keeps}
use autodeploy_platform.Evolution.Commands.Claims.{
  IsUnsettled, update_unsettled-Keeps, refresh_command_claim-Keeps, refreshed-IsUnsettled,
}
use autodeploy_platform.Worker.Commands.Settle.{
  deployment_of, record_command_event, record_result_events, settle_command, skip_command,
  skip_historical_helm_command, fail_command, fail_command_internally,
}
use autodeploy_platform.Worker.Helm.{newer_helm_workload_owner_id}

module _ {start : Db} where
  pub deployment_of-Keeps : (c : DeploymentCommand) → Keeps (From start) (deployment_of c)
  unfolding deployment_of
  deployment_of-Keeps c = search keeps_rules

  pub record_command_event-Keeps :
      (id : ℕ) (event_type status : String) (message : Option String) (step level : String)
      (metadata : Dict)
      → Keeps (From start) (record_command_event id event_type status message step level metadata)
  unfolding record_command_event
  record_command_event-Keeps id event_type status message step level metadata = search session_rules

  pub record_result_events-Keeps :
      (id : ℕ) (step : String) (origin : Option String) (events : List AuxiliaryEvent)
      → Keeps (From start) (record_result_events id step origin events)
  unfolding record_result_events
  record_result_events-Keeps id step origin [] = search keeps_rules
  record_result_events-Keeps id step origin (event ∷ events) =
      bind-Keeps _ _ (record_command_event-Keeps _ _ _ _ _ _ _)
        (λ _. record_result_events-Keeps id step origin events)

  newer_helm_workload_owner_id-Keeps :
      (id : ℕ) → Keeps (From start) (newer_helm_workload_owner_id id)
  unfolding newer_helm_workload_owner_id
  newer_helm_workload_owner_id-Keeps id = search session_rules depth 12

module _ {start : Db} (env : Environment) where
  pub settle_command-Keeps :
      (id : ℕ) (status : CommandStatus) (last_error : Option String)
      → IsUnsettled start id
      → Keeps (From start) (settle_command env id status last_error)
  unfolding settle_command
  settle_command-Keeps id status last_error unsettled =
      search (session_rules, update_unsettled-Keeps, unsettled) depth 12

  skip_command-Keeps :
      (id : ℕ) (worker : String) (owner_id : ℕ)
      → Keeps (From start) (skip_command env id worker owner_id)
  unfolding skip_command
  skip_command-Keeps id worker owner_id = bind-Keeps _ _ (the_command-Keeps id) λ c.
      bind-then _ _ (refresh_command_claim-Keeps env id (some worker)) λ w h a done.
        let unsettled = refreshed-IsUnsettled env id (some worker) w h done in
        search
          (
            session_rules, deployment_of-Keeps, record_command_event-Keeps, settle_command-Keeps,
            unsettled,
          )
          depth 16

  pub skip_historical_helm_command-Keeps :
      (id deployment_id : ℕ) (worker : String)
      → Keeps (From start) (skip_historical_helm_command env id deployment_id worker)
  unfolding skip_historical_helm_command
  skip_historical_helm_command-Keeps id deployment_id worker =
      search (keeps_rules, newer_helm_workload_owner_id-Keeps, skip_command-Keeps) depth 16

  pub fail_command-Keeps :
      (id deployment_id : ℕ) (type : CommandType) (message step : String) (metadata : Dict)
      → IsUnsettled start id
      → Keeps (From start) (fail_command env id deployment_id type message step metadata)
  unfolding fail_command
  fail_command-Keeps id deployment_id type message step metadata unsettled =
      search
        (
          session_rules, deployment_secret_values-Keeps, record_command_event-Keeps,
          settle_command-Keeps, unsettled,
        )
        depth 16

  pub fail_command_internally-Keeps :
      (id deployment_id : ℕ) (type : CommandType) (metadata : Dict)
      → IsUnsettled start id
      → Keeps (From start) (fail_command_internally env id deployment_id type metadata)
  unfolding fail_command_internally
  fail_command_internally-Keeps id deployment_id type metadata unsettled =
      search
        (
          session_rules, deployment_secret_values-Keeps, record_command_event-Keeps,
          settle_command-Keeps, unsettled,
        )
        depth 16
