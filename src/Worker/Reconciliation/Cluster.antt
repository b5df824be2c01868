-- ===== src/Worker/Reconciliation/Cluster.antt =====
-- worker/reconciliation/helm.py and kubernetes.py: releases and resources that are missing or left.
use autodeploy_platform.Prelude.{
  ℕ, String, Bool, true, false, ◌&&◌, not, Option, none, some, List, [], ◌∷◌, ◌++◌, text_eq,
  fstring, if◌then◌else◌,
}
use autodeploy_platform.Json.{
  Json, str, arr, items, Dict, end, field, get?, or_null, merge, dict, opt_str, json_truthy?,
}
use autodeploy_platform.Models.DeploymentStatus.{DeploymentStatus, ◌is◌}
use autodeploy_platform.Models.Rows.{PlatformDeployment, Db}
use autodeploy_platform.Session.{
  Environment, Fault, worker_error, Outcome, ok, raised, Action, attempt, pure, lift, ◌>>=◌, ◌>>◌,
  view, commit, the_deployment,
}
use autodeploy_platform.Worker.Helm.{
  events_of, deployment_has_helm_release_metadata, newer_helm_workload_owner_id,
}
use autodeploy_platform.Worker.Reconciliation.{
  Runtime, RuntimeFactory, record_step_event, record_reconcile_event, fail_runtime,
}

abbrev pub in_cluster : PlatformDeployment → Bool
in_cluster d = elim d.deploy_target [ none ↦ false | some target ↦ text_eq target "kubernetes" ]

-- status in {"failed", "stopped"}
abbrev pub is_down : DeploymentStatus → Bool
is_down DeploymentStatus.failed = true
is_down DeploymentStatus.stopped = true
is_down _ = false

abbrev pub has_release : ℕ → Db → PlatformDeployment → Bool
has_release id db d = deployment_has_helm_release_metadata (events_of id db.events) d

abbrev pub field_of : String → Dict → Json
field_of name status = or_null (get? name status)

abbrev pub release_fields : Dict → Dict
release_fields status = dict (
    ("helm_release_name", field_of "helm_release_name" status)
    ∷ ("namespace", field_of "namespace" status)
    ∷ ("release_status", field_of "release_status" status)
    ∷ [])

abbrev pub resource_fields : Dict → Dict
resource_fields status = dict (
    ("namespace", field_of "namespace" status)
    ∷ ("deployment_name", field_of "deployment_name" status)
    ∷ ("service_name", field_of "service_name" status)
    ∷ [])

-- A name where the status says that the resource is there, or is not.
abbrev pub listed_if : Bool → String → List String
listed_if b name = if b then name ∷ [] else []

unfoldable pub missing_resources : Dict → List String
missing_resources status =
    listed_if (not (json_truthy? (get? "deployment_exists" status))) "Deployment"
    ++ listed_if (not (json_truthy? (get? "service_exists" status))) "Service"

unfoldable pub leftover_resources : Dict → List String
leftover_resources status =
    listed_if (json_truthy? (get? "deployment_exists" status)) "Deployment"
    ++ (listed_if (json_truthy? (get? "service_exists" status)) "Service"
        ++ listed_if (json_truthy? (get? "ingress_exists" status)) "Ingress")

unfoldable pub json_texts : List String → List Json
json_texts [] = []
json_texts (s ∷ ss) = str s ∷ json_texts ss

abbrev pub name_list : List String → Json
name_list names = arr (items (json_texts names))

-- ", ".join(names)
unfoldable pub joined : List String → String
joined [] = ""
joined (s ∷ []) = s
joined (s ∷ t ∷ ts) = fstring (s ∷ ", " ∷ joined (t ∷ ts) ∷ [])

-- What is known of the pods, or nothing where that cannot be found out.
unfoldable pub diagnostics_of : Outcome Dict → Dict
diagnostics_of (ok diagnostics) = diagnostics
diagnostics_of (raised fault) = end

-- `describe` is `str` of an exception, `make` makes the executor.
module _ (env : Environment) (describe : Fault → String) (make : RuntimeFactory) (id : ℕ) where
  -- The two `except` clauses: one for an executor's error, and one for any other.
  unfoldable pub record_failure :
      (event_type text action : String) → (extra : Dict) → Fault → Action (Unit {0})
  record_failure event_type text action extra (worker_error error) =
      record_reconcile_event env id event_type (fstring (text ∷ error.message ∷ [])) "error"
        (merge error.metadata (field "step" (str error.step) extra))
  record_failure event_type text action extra fault =
      record_reconcile_event env id event_type (fstring (text ∷ describe fault ∷ [])) "error"
        (field "action" (str action) extra)

  unfoldable pub give_up : Action (Unit {0}) → Action Bool
  give_up record_it = do record_it; commit; pure false

  unfoldable pub fail_missing_release : Dict → Action Bool
  fail_missing_release status = do
    fail_runtime env id "Reconciler detected missing Helm release for running deployment"
    record_step_event env id "reconcile.helm_release_missing" "reconcile.helm_release_missing"
        "Marked running deployment failed because its Helm release is missing" "error" status
    commit
    pure true

  unfoldable pub by_helm_status : Outcome (Option Dict) → Action Bool
  by_helm_status (raised fault) = give_up (
      record_failure "reconcile.cleanup_failed" "Failed to verify Helm release: "
        "helm_release_status" end fault)
  by_helm_status (ok none) = pure false
  by_helm_status (ok (some status)) =
      if json_truthy? (get? "release_exists" status)
      then pure false
      else fail_missing_release status

  unfoldable pub reconcile_running_missing_helm_release : Action Bool
  reconcile_running_missing_helm_release = do
    d ← the_deployment id
    db ← view
    if (d.status is DeploymentStatus.running) && in_cluster d && has_release id db d
        then (do
          runtime ← lift (make db id)
          outcome ← attempt (runtime.runtime_helm_status id)
          by_helm_status outcome)
        else pure false

  unfoldable pub remove_release : Runtime → Dict → Action Bool
  remove_release runtime status = do
    result ← runtime.stop id
    record_reconcile_event env id "reconcile.helm_release_removed"
        "Removed leftover Helm release from non-running deployment" "info"
        (merge result.metadata (field "log_path" (opt_str result.log_path) (release_fields status)))
    commit
    pure true

  unfoldable pub by_release_removal : Dict → Outcome Bool → Action Bool
  by_release_removal status (ok removed) = pure removed
  by_release_removal status (raised fault) = give_up (
      record_failure "reconcile.helm_cleanup_failed" "Failed to remove leftover Helm release: "
        "helm_release_cleanup" (release_fields status) fault)

  unfoldable pub by_leftover_release : Runtime → Outcome (Option Dict) → Action Bool
  by_leftover_release runtime (raised fault) = give_up (
      record_failure "reconcile.helm_cleanup_failed" "Failed to inspect Helm release for cleanup: "
        "helm_release_cleanup_inspect" end fault)
  by_leftover_release runtime (ok none) = pure false
  by_leftover_release runtime (ok (some status)) =
      if json_truthy? (get? "release_exists" status)
      then (do outcome ← attempt (remove_release runtime status); by_release_removal status outcome)
      else pure false

  unfoldable pub clean_release : Option ℕ → Action Bool
  clean_release (some owner) = pure false
  clean_release none = do
    db ← view
    runtime ← lift (make db id)
    outcome ← attempt (runtime.runtime_helm_status id)
    by_leftover_release runtime outcome

  unfoldable pub reconcile_helm_nonrunning_release : Action Bool
  reconcile_helm_nonrunning_release = do
    d ← the_deployment id
    db ← view
    if in_cluster d && is_down d.status && has_release id db d
        then (do owner ← newer_helm_workload_owner_id id; clean_release owner)
        else pure false

  unfoldable pub fail_missing_resources : Runtime → Dict → List String → Action Bool
  fail_missing_resources runtime status [] = pure false
  fail_missing_resources runtime status (name ∷ names) = do
    outcome ← attempt (runtime.runtime_pod_diagnostics id "reconcile")
    fail_runtime env id (
        fstring
          ("Reconciler detected missing Kubernetes resource(s): " ∷ joined (name ∷ names) ∷ []))
    record_step_event env id "reconcile.kubernetes_missing_resource"
        "reconcile.kubernetes_missing_resource"
        (fstring (
          "Marked running deployment failed because Kubernetes resource is missing: "
          ∷ joined (name ∷ names)
          ∷ []))
        "error"
        (merge
          (merge (resource_fields status) (
            dict (
              ("deployment_exists", field_of "deployment_exists" status)
              ∷ ("service_exists", field_of "service_exists" status)
              ∷ ("missing_resources", name_list (name ∷ names))
              ∷ [])))
          (diagnostics_of outcome))
    commit
    pure true

  unfoldable pub by_resource_status : Runtime → Outcome Dict → Action Bool
  by_resource_status runtime (raised fault) = give_up (
      record_failure "reconcile.cleanup_failed" "Failed to verify Kubernetes resources: "
        "kubernetes_resource_exists" end fault)
  by_resource_status runtime (ok status) =
      fail_missing_resources runtime status (missing_resources status)

  unfoldable pub reconcile_running_missing_kubernetes_resource : Action Bool
  reconcile_running_missing_kubernetes_resource = do
    d ← the_deployment id
    db ← view
    if (d.status is DeploymentStatus.running) && in_cluster d && not (has_release id db d)
        then (do
          runtime ← lift (make db id)
          outcome ← attempt (runtime.runtime_resource_status id)
          by_resource_status runtime outcome)
        else pure false

  unfoldable pub remove_resources : Runtime → Dict → List String → Action Bool
  remove_resources runtime status names = do
    result ← runtime.stop id
    outcome ← attempt (runtime.runtime_pod_diagnostics id "reconcile_cleanup")
    record_reconcile_event env id "reconcile.kubernetes_resources_removed"
        "Removed leftover Kubernetes resources from non-running deployment" "info"
        (merge
          (merge result.metadata (
            field "log_path" (opt_str result.log_path)
              (field "leftover_resources" (name_list names) (resource_fields status))))
          (diagnostics_of outcome))
    pure true

  unfoldable pub by_resource_removal : Dict → List String → Outcome Bool → Action Bool
  by_resource_removal status names (ok removed) = do commit; pure removed
  by_resource_removal status names (raised fault) = give_up (
      record_failure "reconcile.cleanup_failed" "Failed to remove leftover Kubernetes resources: "
        "kubernetes_resource_cleanup"
        (field "leftover_resources" (name_list names) (resource_fields status)) fault)

  unfoldable pub clean_resources : Runtime → Dict → List String → Action Bool
  clean_resources runtime status [] = pure false
  clean_resources runtime status (name ∷ names) = do
    outcome ← attempt (remove_resources runtime status (name ∷ names))
    by_resource_removal status (name ∷ names) outcome

  unfoldable pub by_leftovers : Runtime → Outcome Dict → Action Bool
  by_leftovers runtime (raised fault) = give_up (
      record_failure "reconcile.cleanup_failed"
        "Failed to inspect Kubernetes resources for cleanup: " "kubernetes_resource_cleanup_inspect"
        end fault)
  by_leftovers runtime (ok status) = clean_resources runtime status (leftover_resources status)

  unfoldable pub reconcile_kubernetes_nonrunning_resources : Action Bool
  reconcile_kubernetes_nonrunning_resources = do
    d ← the_deployment id
    db ← view
    if in_cluster d && is_down d.status && not (has_release id db d)
        then (do
          runtime ← lift (make db id)
          outcome ← attempt (runtime.runtime_resource_status id)
          by_leftovers runtime outcome)
        else pure false
