-- ===== src/Tests/Reconciliation.antt =====
-- Concrete repairs of a deployment, with no other process.
use autodeploy_platform.Prelude.{
  String, true, ◌≡◌, refl, subst, false, none, some, [], ◌∷◌, find, modify, arith,
}
use autodeploy_platform.Json.{get?, set_default, end}
use autodeploy_platform.Models.DeploymentStatus.{status_text}
use autodeploy_platform.Session.{
  Environment, World, Fault, other, ok, raise, pure, ◌>>=◌, view, found, now_utc, commit,
  end_transaction, write, the_deployment, update_deployment, add_event,
}
use autodeploy_platform.Session.Keeps.{pure-Keeps, raise-Keeps}
use autodeploy_platform.DeploymentSpec.{project_for_deployment, env_vars}
use autodeploy_platform.Security.{secret_values_from_env_vars}
use autodeploy_platform.Samples.{environment, deployment, database, world, holding}
use autodeploy_platform.Worker.Events.{iterate, deployment_secret_values, record_event}
use autodeploy_platform.Worker.Claims.{release_deployment_claim}
use autodeploy_platform.Worker.Reconciliation.{
  Runtime, RuntimeFactory, record_step_event, record_reconcile_event, clear_claim,
  release_stale_claim, reconcile_claimed_at, reconcile_stale_claim,
}
use autodeploy_platform.Evolution.Database.{DbEvolves}
use autodeploy_platform.Evolution.Reconciliation.{RuntimeKeeps, RuntimesKeep}
use autodeploy_platform.Evolution.Reconciliation.Service.{reconcile_deployments-DbEvolves}
use autodeploy_platform.Worker.Reconciliation.Service.{reconcile_deployments}
use autodeploy_platform.Exclusive.Stale.{LeftAlone, reconcile_stale_claim_leaves_fresh}
use autodeploy_platform.Exclusive.Freed.{IsFree, reconcile_stale_claim-frees}

-- No container is ever there.
abbrev no_containers : Runtime
no_containers = record {
  container_exists = λ id. pure false;
  stop = λ id. raise (other "RuntimeError");
  runtime_helm_status = λ id. pure none;
  runtime_resource_status = λ id. pure end;
  runtime_pod_diagnostics = λ id prefix. pure end;
}

abbrev make : RuntimeFactory
make db id = ok no_containers

abbrev describe : Fault → String
describe fault = "fault"

no_containers-RuntimeKeeps : RuntimeKeeps world.saved no_containers
no_containers-RuntimeKeeps = record {
  container_exists = λ id. pure-Keeps false;
  stop = λ id. raise-Keeps (other "RuntimeError");
  runtime_helm_status = λ id. pure-Keeps none;
  runtime_resource_status = λ id. pure-Keeps end;
  runtime_pod_diagnostics = λ id prefix. pure-Keeps end;
}

make-RuntimesKeep : RuntimesKeep world.saved make
make-RuntimesKeep db id runtime made =
    let same : no_containers ≡ runtime = cc in
    subst (RuntimeKeeps world.saved) same no_containers-RuntimeKeeps

reconcile_deployments-DbEvolves_example :
    DbEvolves world.saved (reconcile_deployments environment describe make world).1.saved
reconcile_deployments-DbEvolves_example =
    reconcile_deployments-DbEvolves environment describe make world refl tt make-RuntimesKeep

reconcile_stale_claim_leaves_fresh_example : LeftAlone (reconcile_stale_claim environment 1) holding
unfolding find
reconcile_stale_claim_leaves_fresh_example =
    reconcile_stale_claim_leaves_fresh environment 1 holding
      (record deployment { claimed_at = some 1001; claimed_by = some "worker-1" }) refl
      (omega arith)

-- Every claim from before the present is stale.
abbrev impatient : Environment
impatient = record environment { claim_ttl_seconds = 0 }

abbrev abandoned : World
abandoned = record world {
  work = record database {
    deployments =
        (1, record deployment { claimed_at = some 500; claimed_by = some "worker-1" }) ∷ [];
  };
}

repaired : (reconcile_stale_claim impatient 1 abandoned).0 ≡ ok true
unfolding reconcile_stale_claim reconcile_claimed_at release_stale_claim clear_claim
    release_deployment_claim record_reconcile_event record_step_event record_event
    deployment_secret_values iterate project_for_deployment env_vars secret_values_from_env_vars
    view pure now_utc commit end_transaction write update_deployment add_event found the_deployment
    ◌>>=◌ find modify get? set_default status_text
repaired = refl

reconcile_stale_claim-frees_example : IsFree 1 (reconcile_stale_claim impatient 1 abandoned).1.saved
reconcile_stale_claim-frees_example =
    reconcile_stale_claim-frees impatient 1 abandoned refl repaired
