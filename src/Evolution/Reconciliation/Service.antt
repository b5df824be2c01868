-- ===== src/Evolution/Reconciliation/Service.antt =====
-- worker/reconciliation/service.py and the permitted change of the database.
use autodeploy_platform.Prelude.{ℕ, String, ◌≡◌, Bool, Table, [], ◌∷◌}
use autodeploy_platform.Models.Rows.{PlatformDeployment, Db}
use autodeploy_platform.Session.{Environment, World, Fault, Outcome, ok, raised, Action}
use autodeploy_platform.Session.Keeps.{Keeps, bind-Keeps, pure-Keeps, attempt-Keeps, view-Keeps}
use autodeploy_platform.Evolution.Database.{DbEvolves}
use autodeploy_platform.Evolution.Session.{From, fresh-From, PeersEvolve}
use autodeploy_platform.Evolution.Claims.{session_rules}
use autodeploy_platform.Worker.Reconciliation.{RuntimeFactory}
use autodeploy_platform.Worker.Reconciliation.Service.{
  counted, reconcile_deployment, after_deployment, reconcile_each, reconcile_deployments,
}
use autodeploy_platform.Evolution.Reconciliation.{
  RuntimesKeep, reconcile_stale_claim-Keeps, reconcile_missing_deploy_target-Keeps,
  reconcile_running_missing_container-Keeps, reconcile_failed_artifacts-Keeps,
}
use autodeploy_platform.Evolution.Reconciliation.Cluster.{
  reconcile_running_missing_helm_release-Keeps, reconcile_helm_nonrunning_release-Keeps,
  reconcile_running_missing_kubernetes_resource-Keeps,
  reconcile_kubernetes_nonrunning_resources-Keeps,
}

module _ {start : Db} where
  counted-Keeps :
      (repair : Action Bool) (changes : ℕ)
      → Keeps (From start) repair
      → Keeps (From start) (counted repair changes)
  unfolding counted
  counted-Keeps repair changes k = bind-Keeps _ _ k λ changed. pure-Keeps _

module _ {start : Db} (env : Environment) (describe : Fault → String) (make : RuntimeFactory)
    (x : RuntimesKeep start make) where
  reconcile_deployment-Keeps :
      (id : ℕ) → Keeps (From start) (reconcile_deployment env describe make id)
  unfolding reconcile_deployment
  reconcile_deployment-Keeps id =
      search
        (
          bind-Keeps, counted-Keeps, reconcile_stale_claim-Keeps,
          reconcile_missing_deploy_target-Keeps, reconcile_running_missing_container-Keeps,
          reconcile_running_missing_helm_release-Keeps,
          reconcile_running_missing_kubernetes_resource-Keeps,
          reconcile_helm_nonrunning_release-Keeps, reconcile_kubernetes_nonrunning_resources-Keeps,
          reconcile_failed_artifacts-Keeps, x,
        )
        depth 20

  after_deployment-Keeps :
      (total : ℕ) (outcome : Outcome ℕ)
      → Keeps (From start) (after_deployment env describe make total outcome)
  unfolding after_deployment
  after_deployment-Keeps total (ok changes) = pure-Keeps _
  after_deployment-Keeps total (raised fault) = search session_rules

  reconcile_each-Keeps :
      (rows : Table PlatformDeployment) (total : ℕ)
      → Keeps (From start) (reconcile_each env describe make rows total)
  unfolding reconcile_each
  reconcile_each-Keeps [] total = pure-Keeps total
  reconcile_each-Keeps ((id, d) ∷ rest) total =
      bind-Keeps _ _ (attempt-Keeps _ (reconcile_deployment-Keeps id)) λ outcome.
        bind-Keeps _ _ (after_deployment-Keeps total outcome)
          λ changes. reconcile_each-Keeps rest changes

  reconcile_deployments-Keeps : Keeps (From start) (reconcile_deployments env describe make)
  unfolding reconcile_deployments
  reconcile_deployments-Keeps = bind-Keeps _ _ view-Keeps λ db. reconcile_each-Keeps _ 0

-- Where the session starts fresh, the other processes' commits are permitted changes and so are the
-- writes of the executors, whatever a reconciliation of all deployments commits, through every repair
-- of every deployment, is a permitted change of the database: no deployment, build or command goes away,
-- statuses only move along the tables of transitions, creation columns and start times stay, claims
-- stay paired, a Kubernetes mode and namespace that were set stay, what a command asks for stays and
-- a command that was over is as it was, and the log of events only grows.
-- This holds also where a repair raises.
pub reconcile_deployments-DbEvolves :
    (env : Environment) (describe : Fault → String) (make : RuntimeFactory) (w : World)
    → w.work ≡ w.saved
    → PeersEvolve w.peers
    → RuntimesKeep w.saved make
    → DbEvolves w.saved (reconcile_deployments env describe make w).1.saved
reconcile_deployments-DbEvolves env describe make w fresh peers x =
    ((reconcile_deployments-Keeps env describe make x).after w (fresh-From w fresh peers)).saved
