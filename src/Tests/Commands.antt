-- ===== src/Tests/Commands.antt =====
-- Concrete runs of commands, with the fake executor and no other process.
use autodeploy_platform.Prelude.{
  ◌+◌, ◌≤◌, ◌≡◌, refl, true, subst, all_chars, false, none, some, [], find, modify, fresh, order_by,
  insert_by, where_rows, or_else, or_text, arith,
}
use Prim.Native.String.{count}
use autodeploy_platform.Json.{end}
use autodeploy_platform.Models.Rows.{stop}
use autodeploy_platform.Session.{
  WorkerExecutionError, ok, view, pure, now_utc, commit, end_transaction, write, add_event, found,
  the_deployment, update_command, ◌>>=◌,
}
use autodeploy_platform.Samples.{
  world, environment, project, deployment, stop_command, asked_to_stop,
}
use autodeploy_platform.Worker.Executor.{ExecutionResult}
use autodeploy_platform.Worker.Fake.{fake_executor}
use autodeploy_platform.Worker.Commands.Claims.{
  update_command_where, update_command_found, if_present, claim_first_command,
  claim_next_pending_command, refresh_command_claim, command_heartbeat, holds_command,
}
use autodeploy_platform.Worker.Commands.Run.{ExecutorFactory, finish_command, fail_command_step}
use autodeploy_platform.Worker.WorkItems.{process_next_work_item}
use autodeploy_platform.Evolution.Database.{DbEvolves}
use autodeploy_platform.Evolution.Fake.{fake_executor-Keeps}
use autodeploy_platform.Evolution.Stages.{ExecutorKeeps}
use autodeploy_platform.Evolution.Commands.Run.{FactoryKeeps, process_next_work_item-DbEvolves}
use autodeploy_platform.Exclusive.Commands.{
  CommandClaimed, claim_next_pending_command-CommandClaimed,
}
use autodeploy_platform.Fencing.Commands.{given_up, IsLost, Refused, lost_command_fences}
use autodeploy_platform.Worker.Events.{iterate, deployment_secret_values}
use autodeploy_platform.DeploymentSpec.{project_for_deployment, env_vars}
use autodeploy_platform.Security.{secret_values_from_env_vars, redact_text}
use autodeploy_platform.Models.DeploymentStatus.{status_text}
use autodeploy_platform.Models.Rows.{CommandStatus}
use autodeploy_platform.Worker.Commands.Settle.{settle_command, record_command_event, fail_command}
use autodeploy_platform.Exclusive.Settled.{IsOver, fail_command-Over}
use autodeploy_platform.CommandRequests.{
  oldest, insert_command, add_command, answer_request, request_deployment_command,
}
use autodeploy_platform.CommandRequests.Repeated.{request_deployment_command_repeats}
use autodeploy_platform.Kubernetes.Names.{
  manifest_deployment_name, manifest_service_name, manifest_service_suffix, helm_release_name,
  dns_slug,
}
use autodeploy_platform.Kubernetes.Names.Bounds.{names_fit}
use autodeploy_platform.Kubernetes.Names.Labels.{IsLabel, dns_slug-IsLabel, starts_well}

abbrev fake_for : ExecutorFactory
fake_for db id beat = ok (fake_executor environment beat)

fake_for-Keeps : FactoryKeeps asked_to_stop.saved fake_for
fake_for-Keeps db id beat executor k made =
    let same : fake_executor environment beat ≡ executor = cc in
    subst (ExecutorKeeps asked_to_stop.saved) same (fake_executor-Keeps environment beat)

process_next_work_item-DbEvolves_example :
    DbEvolves asked_to_stop.saved
      (process_next_work_item environment fake_for
        (fake_executor environment)
        asked_to_stop).1.saved
process_next_work_item-DbEvolves_example =
    process_next_work_item-DbEvolves environment fake_for (fake_executor environment) asked_to_stop
      refl tt fake_for-Keeps (λ beat k. fake_executor-Keeps environment beat)

claims_command : (claim_next_pending_command environment none none asked_to_stop).0 ≡ ok (some 4)
unfolding claim_next_pending_command claim_first_command update_command_where update_command_found
    if_present view pure now_utc commit end_transaction write update_command ◌>>=◌ find modify
    where_rows order_by insert_by or_else
claims_command = refl

claim_next_pending_command-CommandClaimed_example :
    CommandClaimed asked_to_stop.work
      (claim_next_pending_command environment none none asked_to_stop).1.saved
      4
      0
      "worker-1"
unfolding or_else or_text
claim_next_pending_command-CommandClaimed_example =
    claim_next_pending_command-CommandClaimed environment none none asked_to_stop 4 refl
      claims_command

unheld : IsLost environment asked_to_stop 4 "worker-2"
unfolding find
unheld c h =
    let same : stop_command ≡ c = cc in
    subst (λ row. holds_command environment "worker-2" row ≡ false) same refl

abbrev stopped : ExecutionResult
stopped = record {
  message = "stopped";
  metadata = end;
  events = [];
  log_path = none;
  workspace_path = none;
  command_output = none;
  image_tag = none;
  image_ref = none;
  service_url = none;
  deploy_target = none;
  container_name = none;
  container_id = none;
  host_port = none;
  healthcheck_url = none;
  runtime_log_path = none;
}

abbrev error : WorkerExecutionError
error = record {
  step = "deploy.stop";
  message = "gone";
  metadata = end;
  log_path = none;
  events = [];
}

lost_command_fences_example :
    Refused (refresh_command_claim environment 4 (some "worker-2")) asked_to_stop
    × Refused (command_heartbeat environment 4 (some "worker-2")) asked_to_stop
    × Refused (finish_command environment 4 1 stop "worker-2" stopped) asked_to_stop
    × (let back = end_transaction asked_to_stop.saved asked_to_stop.reads asked_to_stop.peers in
        fail_command_step environment 4 1 stop "worker-2" error asked_to_stop
        ≡ (given_up 1 (find 1 back.work.deployments), back))
unfolding or_text
lost_command_fences_example =
    lost_command_fences environment 4 1 stop "worker-2" stopped error asked_to_stop unheld

names_fit_example :
    (count (manifest_deployment_name project 7 63) + count manifest_service_suffix ≤ 63)
    × (count (manifest_service_name project 7 63) ≤ 63)
    × (count (helm_release_name 1 project (some deployment) 63) ≤ 63)
names_fit_example = names_fit project 1 7 63 (some deployment) (omega arith)

dns_slug-IsLabel_example : IsLabel (dns_slug "My Shop_2 " "app" 5)
unfolding all_chars starts_well
dns_slug-IsLabel_example = dns_slug-IsLabel "My Shop_2 " "app" 4 refl refl

asks : (request_deployment_command environment 1 stop none none world).0 ≡ ok (1, true)
unfolding request_deployment_command answer_request add_command insert_command oldest where_rows
    order_by insert_by fresh view pure now_utc write add_event found the_deployment ◌>>=◌ find
    or_text
asks = refl

request_deployment_command_repeats_example :
    request_deployment_command environment 1 stop
      (some "again")
      none
      (request_deployment_command environment 1 stop none none world).1
    ≡ (ok (1, false), (request_deployment_command environment 1 stop none none world).1)
request_deployment_command_repeats_example =
    request_deployment_command_repeats environment 1 stop none none (some "again") none 1 world asks

fails_command :
    (fail_command environment 4 1 stop "gone" "deploy.stop" end asked_to_stop).0 ≡ ok (some 1)
unfolding fail_command settle_command record_command_event deployment_secret_values iterate
    project_for_deployment env_vars secret_values_from_env_vars view pure now_utc write commit
    end_transaction update_command add_event found the_deployment ◌>>=◌ find modify redact_text
    status_text
fails_command = refl

fail_command-Over_example :
    IsOver CommandStatus.failed 4
      (fail_command environment 4 1 stop "gone" "deploy.stop" end asked_to_stop).1.saved
fail_command-Over_example =
    fail_command-Over environment 4 1 stop "gone" "deploy.stop" end (some 1) asked_to_stop refl
      fails_command
