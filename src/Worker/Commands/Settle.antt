-- ===== src/Worker/Commands/Settle.antt =====
-- worker/processing/command_processor.py: events of commands, and how a command ends.
use autodeploy_platform.Prelude.{
  ℕ, String, Bool, false, ◌&&◌, Option, none, some, List, [], ◌∷◌, find, text_eq, or_text, or_else,
  fstring, decimal, if◌then◌else◌,
}
use autodeploy_platform.Json.{num, str, obj, Dict, end, merge, dict, opt_str}
use autodeploy_platform.Security.{redact_text, redact_dict}
use autodeploy_platform.Models.DeploymentStatus.{status_text}
use autodeploy_platform.Models.Rows.{
  Timestamp, CommandType, CommandStatus, PlatformDeployment, DeploymentCommand,
}
use autodeploy_platform.Session.{
  Environment, AuxiliaryEvent, Action, pure, none_or, ◌>>=◌, ◌>>◌, view, found, now_utc, commit,
  the_deployment, the_command, update_command, add_event,
}
use autodeploy_platform.Worker.Claims.{command_type_text}
use autodeploy_platform.Worker.Commands.Claims.{refresh_command_claim}
use autodeploy_platform.Worker.Events.{with_origin, deployment_secret_values}
use autodeploy_platform.Worker.Helm.{
  events_of, deployment_has_helm_release_metadata, newer_helm_workload_owner_id,
}

abbrev pub internal_error_message : String
internal_error_message = "Worker encountered an unexpected internal error"

-- f"deploy.{command_type}"
abbrev pub command_step : CommandType → String
command_step type = fstring ("deploy." ∷ command_type_text type ∷ [])

abbrev pub command_event : CommandType → String → String
command_event type suffix = fstring ("deployment." ∷ command_type_text type ∷ suffix ∷ [])

-- `command.deployment`, whose attributes are read
unfoldable pub deployment_of : DeploymentCommand → Action PlatformDeployment
deployment_of c = do db ← view; found "AttributeError" (find c.deployment_id db.deployments)

-- `_record_event`. Its values are not redacted here.
unfoldable pub record_command_event :
    ℕ
    → (event_type status : String) → (message : Option String) → (step level : String)
    → (metadata : Dict) → Action (Unit {0})
record_command_event id event_type status message step level metadata = do
  d ← the_deployment id
  add_event (record {
    deployment_id = id;
    event_type = event_type;
    step = some step;
    level = level;
    status = status;
    message = message;
    metadata_json = obj (with_origin d.origin_request_id metadata);
  })

unfoldable pub record_result_events :
    ℕ → String → Option String → List AuxiliaryEvent → Action (Unit {0})
record_result_events id step origin [] = pure tt
record_result_events id step origin (event ∷ events) = do
  record_command_event id event.event_type event.status event.message (or_text event.step step)
      (or_else event.level "info")
      (merge (or_else event.metadata_json end) (dict (("origin_request_id", opt_str origin) ∷ [])))
  record_result_events id step origin events

-- The columns of a command that is over.
abbrev pub settled :
    CommandStatus → Timestamp → Option String → DeploymentCommand → DeploymentCommand
settled status now last_error c = record c {
  status = status;
  active_key = none;
  claimed_by = none;
  claimed_at = none;
  completed_at = some now;
  last_error = last_error;
}

module _ (env : Environment) where
  unfoldable pub settle_command : ℕ → CommandStatus → Option String → Action (Unit {0})
  settle_command id status last_error = do
    now ← now_utc env
    update_command id (settled status now last_error)

  -- What is left to newer work: its command is over.
  unfoldable pub skip_command : ℕ → String → ℕ → Action (Option ℕ)
  skip_command id worker owner_id = do
    c ← the_command id
    refresh_command_claim env id (some worker)
    d ← deployment_of c
    record_command_event c.deployment_id (command_event c.command_type "_skipped")
        (status_text d.status)
        (some (
          fstring (
            "Skipped "
            ∷ command_type_text c.command_type
            ∷ " because deployment #"
            ∷ decimal owner_id
            ∷ " owns the shared Helm release"
            ∷ [])))
        (command_step c.command_type) "warning"
        (dict (
          ("command_id", num id)
          ∷ ("newer_deployment_id", num owner_id)
          ∷ ("reason", str "newer_deployment_owns_shared_helm_release")
          ∷ []))
    settle_command id CommandStatus.skipped none
    commit
    pure (some c.deployment_id)

  abbrev shares_release : PlatformDeployment → Bool → Bool
  shares_release d has_metadata =
      (elim d.deploy_target [ none ↦ false | some target ↦ text_eq target "kubernetes" ])
      && has_metadata

  -- The types of commands are those that the source lists here.
  unfoldable pub skip_historical_helm_command : ℕ → ℕ → String → Action (Option ℕ)
  skip_historical_helm_command id deployment_id worker = do
    d ← the_deployment deployment_id
    db ← view
    if shares_release d (deployment_has_helm_release_metadata (events_of deployment_id db.events) d)
        then (do
          owner ← newer_helm_workload_owner_id deployment_id
          none_or owner (pure none) (skip_command id worker))
        else pure none

  -- A failed command keeps its error with the secret values taken out.
  unfoldable pub fail_command :
      ℕ → ℕ → CommandType → (message : String) → (step : String) → Dict → Action (Option ℕ)
  fail_command id deployment_id type message step metadata = do
    d ← the_deployment deployment_id
    secret_values ← deployment_secret_values env d
    let last_error = redact_text secret_values message
    settle_command id CommandStatus.failed (some last_error)
    record_command_event deployment_id (command_event type "_failed") (status_text d.status)
        (some last_error) step "error" (redact_dict secret_values metadata)
    commit
    pure (some deployment_id)

  -- The same with the message for what is unexpected, which is not redacted.
  unfoldable pub fail_command_internally : ℕ → ℕ → CommandType → Dict → Action (Option ℕ)
  fail_command_internally id deployment_id type metadata = do
    d ← the_deployment deployment_id
    secret_values ← deployment_secret_values env d
    settle_command id CommandStatus.failed (some internal_error_message)
    record_command_event deployment_id (command_event type "_failed") (status_text d.status)
        (some internal_error_message) (command_step type) "error"
        (redact_dict secret_values metadata)
    commit
    pure (some deployment_id)
