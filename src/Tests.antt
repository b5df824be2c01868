-- ===== src/Tests.antt =====
-- Concrete runs: a queue with one deployment, the fake executor, and no other process.
mod Commands
mod Validation
mod Reconciliation
use autodeploy_platform.Prelude.{
  ℕ, ◌≡◌, refl, ◌≤◌, false, Option, none, some, [], ◌↔◌, not, ◌||◌, arith, strip, lstrip, rstrip,
  push_stripped, is_space, find, modify, order_by, insert_by, where_rows, or_text, or_else,
  mem_text,
}
use autodeploy_platform.DeploymentSpec.Snapshot.{
  create_deployment_spec_snapshot, copy_deployment_spec_snapshot,
}
use autodeploy_platform.DeploymentSpec.Snapshot.Copying.{
  copy-create, project_for_deployment_ignores_edits,
}
use autodeploy_platform.RuntimeMetadata.Reading.{kubernetes_deployment_mode}
use autodeploy_platform.RuntimeMetadata.Reading.Frozen.{
  kubernetes_deployment_mode-persist_kubernetes_runtime_identity,
}
use autodeploy_platform.Samples.{
  environment, project, build, deployment, database, after, holding, reserved_item, stopping, world,
}
use autodeploy_platform.Views.{allowed_transitions}
use autodeploy_platform.Json.{Dict, obj, end, get?, set_default}
use autodeploy_platform.Models.DeploymentStatus
use autodeploy_platform.Models.DeploymentStatus.{
  DeploymentStatus, ◌is◌, status_text, can_transition_to,
}
use autodeploy_platform.Models.BuildStatus
use autodeploy_platform.Models.BuildStatus.{BuildStatus}
use autodeploy_platform.Models.Lifecycle.{Reaches, BuildReaches}
use autodeploy_platform.Models.Lifecycle.Order.{
  Reaches-forward, BuildReaches-forward, Visits, running_needs_push,
}
use autodeploy_platform.Models.Rows.{PlatformDeployment}
use autodeploy_platform.Session.{
  World, Outcome, ok, raised, Action, ClaimLostError, DeploymentCancellationRequested, cancelled,
  claim_lost, view, pure, now_utc, commit, end_transaction, write, update_deployment, add_event,
  found, the_deployment, ◌>>=◌,
}
use autodeploy_platform.Worker.Claims.{
  update_where, update_found, write_claim_event, claim_first, claim_next_pending_deployment,
  is_claimable, ensure_claim_owned, refresh_claim, claim_heartbeat, persist_claim_loss,
}
use autodeploy_platform.Worker.Claims.Ownership.{
  Owns, NoStop, ensure_claim_owned_iff, ensure_claim_owned_cancels,
}
use autodeploy_platform.Worker.Events.{record_event, deployment_secret_values, iterate}
use autodeploy_platform.DeploymentSpec.{project_for_deployment, env_vars}
use autodeploy_platform.Security.{secret_values_from_env_vars}
use autodeploy_platform.RuntimeMetadata.{
  nonempty_string, no_identity, persist_kubernetes_runtime_identity,
}
use autodeploy_platform.Evolution.Rows.{IsFilled}
use autodeploy_platform.Evolution.Identity.{persist_kubernetes_runtime_identity_frozen}
use autodeploy_platform.Exclusive.Claiming.{
  Claimed, Claimed-exclusive, claim_next_pending_deployment-Claimed,
}
use autodeploy_platform.Exclusive.Quiet.{tables, persist_claim_loss-drops_work}
use autodeploy_platform.Fencing.{Fenced, IsOthers, lost_claim_fences}
use autodeploy_platform.Fencing.Stages.{Stage, run_stage, Dropped, run_stage-drops_result}
use autodeploy_platform.Worker.Executor.{ExecutionResult, Executor}
use autodeploy_platform.Worker.Lifecycle.{begin_step, commit_step_result}
use autodeploy_platform.Worker.Pipeline.Publish.{run_step}
use autodeploy_platform.Worker.Workload.{
  is_reserved, platform_variables, resolved_workload_environment,
}
use autodeploy_platform.Worker.Workload.Names.{
  PlatformOwned, resolved_workload_environment-PlatformOwned,
}
use autodeploy_platform.Worker.Fake.{fake_executor}

two_moves : Reaches DeploymentStatus.pending DeploymentStatus.building
unfolding DeploymentStatus.can_transition_to DeploymentStatus.status_transitions
two_moves =
    Reaches.next
      (Reaches.next {t = DeploymentStatus.pending} {u = DeploymentStatus.cloning} Reaches.here refl)
      refl

Reaches-forward_example :
    DeploymentStatus.index DeploymentStatus.pending
    ≤ DeploymentStatus.index DeploymentStatus.building
Reaches-forward_example = Reaches-forward two_moves

abbrev after_claim : Outcome (Option ℕ) × World
after_claim = claim_next_pending_deployment environment none none world

claims_first : after_claim.0 ≡ ok (some 1)
unfolding claim_next_pending_deployment claim_first update_where update_found write_claim_event
    record_event deployment_secret_values iterate project_for_deployment env_vars
    secret_values_from_env_vars view pure now_utc commit end_transaction write update_deployment
    add_event found the_deployment ◌>>=◌ find modify where_rows order_by insert_by or_else get?
    set_default status_text
claims_first = refl

claim_next_pending_deployment-Claimed_example :
    Claimed environment database.deployments after_claim.1.saved.deployments 1 0 1001 "worker-1"
unfolding or_else or_text
claim_next_pending_deployment-Claimed_example =
    claim_next_pending_deployment-Claimed environment none none world 1 refl claims_first

first_claim : Claimed environment database.deployments after 1 0 1001 "worker-1"
unfolding modify find
first_claim = record { row = deployment; stored = refl; claimable = refl; only = refl }

Claimed-exclusive_example :
    (row : PlatformDeployment) × (find 1 after ≡ some row)
    × (is_claimable environment 500 row ≡ false)
    × Owns (find 1 after) "worker-1" 1001
Claimed-exclusive_example =
    Claimed-exclusive environment database.deployments after 1 0 1001 "worker-1" 500 first_claim
      (omega arith)

-- Nobody holds the deployment of `world`.
unclaimed : IsOthers world 1 "worker-1"
unfolding find
unclaimed t o = cc (o.stored, o.at)

ensure_claim_owned_iff_example :
    (ensure_claim_owned environment 1 none holding ≡ (ok 1001, holding))
    ↔ (Owns (find 1 after) "worker-1" 1001 × NoStop 1 [])
unfolding or_text
ensure_claim_owned_iff_example = ensure_claim_owned_iff environment 1 none holding 1001

lost_claim_fences_example :
    Fenced (refresh_claim environment 1 none) 1 "worker-1" world
    × Fenced (claim_heartbeat environment 1 none) 1 "worker-1" world
    × Fenced (begin_step environment 1 DeploymentStatus.cloning "e" "m") 1 "worker-1" world
    × Fenced (commit_step_result environment 1 "e" "s" "m" "p" end []) 1 "worker-1" world
unfolding or_text
lost_claim_fences_example =
    lost_claim_fences environment 1 world DeploymentStatus.cloning "e" "s" "m" "p" end [] unclaimed

abbrev result : ExecutionResult
result = record {
  message = "done";
  metadata = end;
  events = [];
  log_path = none;
  workspace_path = none;
  command_output = none;
  image_tag = none;
  image_ref = none;
  service_url = none;
  deploy_target = none;
  container_name = none;
  container_id = none;
  host_port = none;
  healthcheck_url = none;
  runtime_log_path = none;
}

-- While the method runs, another process releases the claim.
abbrev displaced : ℕ → Action ExecutionResult
displaced id w = (ok result, world)

abbrev displaced_executor : Executor
displaced_executor = record (fake_executor environment (claim_heartbeat environment 1 none)) {
  deploy = displaced;
}

run_stage-drops_result_example :
    Dropped (run_stage environment displaced_executor 1 Stage.deploy) 1 "worker-1" holding world
unfolding or_text ◌>>=◌ pure
run_stage-drops_result_example =
    run_stage-drops_result environment displaced_executor 1 Stage.deploy holding world refl
      unclaimed

abbrev loss : ClaimLostError
loss = record {
  deployment_id = 1;
  worker_id = "worker-1";
  current_claimed_by = none;
  current_claimed_at = none;
}

persist_claim_loss-drops_work_example :
    tables (persist_claim_loss environment 1 loss holding).1.saved ≡ tables database
persist_claim_loss-drops_work_example =
    persist_claim_loss-drops_work environment 1 loss holding refl

resolved_workload_environment-PlatformOwned_example : PlatformOwned reserved_item build
unfolding get?
resolved_workload_environment-PlatformOwned_example =
    resolved_workload_environment-PlatformOwned build reserved_item (tt, tt)

to_running : Reaches DeploymentStatus.pending DeploymentStatus.running
unfolding DeploymentStatus.can_transition_to DeploymentStatus.status_transitions
to_running =
    Reaches.next {t = DeploymentStatus.deploying}
      (Reaches.next {t = DeploymentStatus.pushing_image}
        (Reaches.next {t = DeploymentStatus.building} two_moves refl) refl)
      refl

running_needs_push_example :
    Visits DeploymentStatus.pushing_image DeploymentStatus.pending DeploymentStatus.running
      to_running
running_needs_push_example = running_needs_push refl to_running

one_move : BuildReaches BuildStatus.pending BuildStatus.cloning
unfolding BuildStatus.can_transition_to BuildStatus.status_transitions
one_move = BuildReaches.next {t = BuildStatus.pending} BuildReaches.here refl

BuildReaches-forward_example :
    BuildStatus.index BuildStatus.pending ≤ BuildStatus.index BuildStatus.cloning
BuildReaches-forward_example = BuildReaches-forward one_move

abbrev in_helm : PlatformDeployment
in_helm = record deployment { kubernetes_deployment_mode = some "helm" }

abbrev with_namespace : PlatformDeployment
with_namespace = record in_helm { kubernetes_namespace = some "autodeploy" }

accepted :
    persist_kubernetes_runtime_identity in_helm (some "manifest") (some "autodeploy") no_identity
    ≡ ok with_namespace
unfolding persist_kubernetes_runtime_identity nonempty_string strip lstrip rstrip push_stripped
    is_space mem_text
accepted = refl

persist_kubernetes_runtime_identity_frozen_example :
    (IsFilled in_helm.kubernetes_deployment_mode
      → in_helm.kubernetes_deployment_mode ≡ with_namespace.kubernetes_deployment_mode)
    × (IsFilled in_helm.kubernetes_namespace
        → in_helm.kubernetes_namespace ≡ with_namespace.kubernetes_namespace)
persist_kubernetes_runtime_identity_frozen_example =
    persist_kubernetes_runtime_identity_frozen in_helm (some "manifest") (some "autodeploy")
      no_identity with_namespace accepted

abbrev snapshot : Dict
snapshot = create_deployment_spec_snapshot 1 project (some "release")

abbrev specified : PlatformDeployment
specified = record deployment { spec_snapshot_json = some (obj snapshot) }

project_for_deployment_ignores_edits_example :
    project_for_deployment database.projects specified ≡ project_for_deployment [] specified
project_for_deployment_ignores_edits_example =
    project_for_deployment_ignores_edits 1 project (some "release") database.projects [] specified
      refl

copy-create_example : copy_deployment_spec_snapshot specified 1 ≡ ok snapshot
copy-create_example = copy-create 1 project (some "release") specified refl refl

abbrev in_manifest : PlatformDeployment
in_manifest = record deployment {
  kubernetes_deployment_mode = some "manifest";
  kubernetes_namespace = some "autodeploy";
}

identified :
    persist_kubernetes_runtime_identity deployment (some "manifest") (some "autodeploy") no_identity
    ≡ ok in_manifest
unfolding persist_kubernetes_runtime_identity nonempty_string strip lstrip rstrip push_stripped
    is_space mem_text
identified = refl

kubernetes_deployment_mode-persist_kubernetes_runtime_identity_example :
    kubernetes_deployment_mode [] in_manifest ≡ nonempty_string (some "manifest")
unfolding nonempty_string
kubernetes_deployment_mode-persist_kubernetes_runtime_identity_example =
    kubernetes_deployment_mode-persist_kubernetes_runtime_identity [] deployment (some "manifest")
      (some "autodeploy") no_identity in_manifest identified refl

holder : Owns (find 1 after) "worker-1" 1001
unfolding find
holder = record { row = _; stored = refl; at = refl; by = refl }

asked : NoStop 1 stopping.work.commands → ⊥
asked p = cc (p.0)

ensure_claim_owned_cancels_example :
    (error : DeploymentCancellationRequested) × (error.deployment_id ≡ 1)
    × (ensure_claim_owned environment 1 none stopping ≡ (raised (cancelled error), stopping))
unfolding or_text
ensure_claim_owned_cancels_example =
    ensure_claim_owned_cancels environment 1 none stopping 1001 holder asked
