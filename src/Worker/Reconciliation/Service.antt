-- ===== src/Worker/Reconciliation/Service.antt =====
-- worker/reconciliation/service.py: every repair of a deployment, and every deployment.
use autodeploy_platform.Prelude.{ℕ, suc, ◌+◌, String, Bool, [], ◌∷◌, Table, order_by, if◌then◌else◌}
use autodeploy_platform.Models.Rows.{PlatformDeployment}
use autodeploy_platform.Session.{
  Environment, Fault, Outcome, ok, raised, Action, attempt, pure, ◌>>=◌, ◌>>◌, view, rollback,
}
use autodeploy_platform.Worker.Reconciliation.{
  RuntimeFactory, reconcile_stale_claim, reconcile_missing_deploy_target,
  reconcile_running_missing_container, reconcile_failed_artifacts,
}
use autodeploy_platform.Worker.Reconciliation.Cluster.{
  reconcile_running_missing_helm_release, reconcile_helm_nonrunning_release,
  reconcile_running_missing_kubernetes_resource, reconcile_kubernetes_nonrunning_resources,
}

-- One more change where the repair says so.
unfoldable pub counted : Action Bool → ℕ → Action ℕ
counted repair changes = do changed ← repair; pure (if changed then suc changes else changes)

module _ (env : Environment) (describe : Fault → String) (make : RuntimeFactory) where
  -- Each repair reads the deployment anew. The source makes one executor, from the deployment's
  -- target, mode and namespace, which no repair changes once it has been made.
  unfoldable pub reconcile_deployment : ℕ → Action ℕ
  reconcile_deployment id = do
    n ← counted (reconcile_stale_claim env id) 0
    n ← counted (reconcile_missing_deploy_target env id) n
    n ← counted (reconcile_running_missing_container env describe make id) n
    n ← counted (reconcile_running_missing_helm_release env describe make id) n
    n ← counted (reconcile_running_missing_kubernetes_resource env describe make id) n
    n ← counted (reconcile_helm_nonrunning_release env describe make id) n
    n ← counted (reconcile_kubernetes_nonrunning_resources env describe make id) n
    counted (reconcile_failed_artifacts env describe make id) n

  -- What fails for one deployment is rolled back, and the next one is taken.
  unfoldable pub after_deployment : ℕ → Outcome ℕ → Action ℕ
  after_deployment total (ok changes) = pure (total + changes)
  after_deployment total (raised fault) = do rollback; pure total

  unfoldable pub reconcile_each : Table PlatformDeployment → ℕ → Action ℕ
  reconcile_each [] total = pure total
  reconcile_each ((id, d) ∷ rest) total = do
    outcome ← attempt (reconcile_deployment id)
    changes ← after_deployment total outcome
    reconcile_each rest changes

  unfoldable pub reconcile_deployments : Action ℕ
  reconcile_deployments = do
    db ← view
    reconcile_each (order_by (λ d. d.created_at) db.deployments) 0
