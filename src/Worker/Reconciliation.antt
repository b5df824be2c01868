-- ===== src/Worker/Reconciliation.antt =====
-- worker/reconciliation: claims that are stale, and deployments whose runtime is not as recorded.
-- `claims.py`, `events.py`, `docker.py`, `artifacts.py`, and of `service.py` the recovery of a
-- target.
pub mod Cluster
pub mod Service
use autodeploy_platform.Prelude.{
  ℕ, ◌-◌, String, Bool, true, false, ◌&&◌, not, ltb, Option, none, some, [], ◌∷◌, text_eq, truthy?,
  mem_text, fstring, if◌then◌else◌,
}
use autodeploy_platform.Json.{
  Json, null, bool, num, str, arr, obj, Dict, end, get?, or_null, merge, dict, opt_str, json_truthy,
}
use autodeploy_platform.Models.DeploymentStatus
use autodeploy_platform.Models.DeploymentStatus.{DeploymentStatus, ◌is◌, status_text}
use autodeploy_platform.Models.BuildStatus.{BuildStatus}
use autodeploy_platform.Models.Rows.{Timestamp, PlatformDeployment, Db}
use autodeploy_platform.Session.{
  Environment, Fault, worker_error, other, Outcome, ok, raised, Action, attempt, pure, raise, lift,
  ◌>>=◌, ◌>>◌, view, now_utc, commit, the_deployment, the_build, update_deployment, update_build,
}
use autodeploy_platform.Worker.Claims.{seconds, release_deployment_claim}
use autodeploy_platform.Worker.Events.{record_event}
use autodeploy_platform.Worker.Executor.{ExecutionResult}
use autodeploy_platform.Worker.Lifecycle.{transition_deployment, transition_build}

-- What reconciliation asks of an executor.
pub record Runtime : Type 0 where
  pub container_exists : ℕ → Action Bool
  pub stop : ℕ → Action ExecutionResult
  pub runtime_helm_status : ℕ → Action (Option Dict)
  pub runtime_resource_status : ℕ → Action Dict
  pub runtime_pod_diagnostics : ℕ → (prefix : String) → Action Dict

-- `executor_factory`; it raises where no executor fits the deployment.
abbrev pub RuntimeFactory : Type 0
RuntimeFactory = Db → ℕ → Outcome Runtime

-- IN_PROGRESS_STATUSES
abbrev pub is_in_progress : DeploymentStatus → Bool
is_in_progress DeploymentStatus.cloning = true
is_in_progress DeploymentStatus.building = true
is_in_progress DeploymentStatus.testing = true
is_in_progress DeploymentStatus.pushing_image = true
is_in_progress DeploymentStatus.deploying = true
is_in_progress _ = false

-- The target that the preflight's metadata name. A list or an object cannot be looked up in a set.
unfoldable pub recovered_target : Json → Action (Option String)
recovered_target (str s) =
    pure (if mem_text s ("fake" ∷ "local-docker" ∷ "kubernetes" ∷ []) then some s else none)
recovered_target (arr items) = raise (other "TypeError")
recovered_target (obj d) = raise (other "TypeError")
recovered_target _ = pure none

-- `deployment.preflight_metadata_json or {}` and its `.get("deploy_target")`
unfoldable pub target_in_metadata : Json → Action (Option String)
target_in_metadata (obj d) = recovered_target (or_null (get? "deploy_target" d))
target_in_metadata v = if json_truthy v then raise (other "AttributeError") else pure none

abbrev stale_claim_message : String
stale_claim_message = "Reconciler marked deployment failed after stale claim"

module _ (env : Environment) where
  unfoldable pub record_step_event :
      ℕ → (step event_type message level : String) → Dict → Action (Unit {0})
  record_step_event id step event_type message level metadata = do
    d ← the_deployment id
    record_event env id event_type (status_text d.status) (some message) (some step) level metadata

  unfoldable pub record_reconcile_event :
      ℕ → (event_type message level : String) → Dict → Action (Unit {0})
  record_reconcile_event id event_type message level metadata =
      record_step_event id "reconcile" event_type message level metadata

  abbrev pub claim_metadata : PlatformDeployment → Timestamp → Dict
  claim_metadata d claimed_at = dict (
      ("previous_claimed_at", str (env.iso claimed_at))
      ∷ ("previous_claimed_by", opt_str d.claimed_by)
      ∷ [])

  -- The deployment fails; the time at which it did.
  unfoldable pub fail_deployment : ℕ → (message : String) → Action Timestamp
  fail_deployment id message = do
    transition_deployment id DeploymentStatus.failed
    now ← now_utc env
    update_deployment id (λ d. record d { finished_at = some now; last_error = some message })
    pure now

  -- Its build fails with the same message, at the time that `clock` gives.
  unfoldable pub fail_build : ℕ → (message : String) → Action Timestamp → Action (Unit {0})
  fail_build id message clock = do
    d ← the_deployment id
    transition_build d.build_id BuildStatus.failed
    at ← clock
    update_build d.build_id (λ b. record b { finished_at = some at; last_error = some message })

  unfoldable pub recover_claim : ℕ → Dict → Action (Unit {0})
  recover_claim id metadata = do
    release_deployment_claim env id
    fail_deployment id stale_claim_message
    fail_build id stale_claim_message (now_utc env)
    record_reconcile_event id "reconcile.claim_recovered"
        "Marked deployment failed after stale in-progress claim" "warning"
        (merge metadata (dict (("new_status", str "failed") ∷ [])))

  unfoldable pub clear_claim : ℕ → (message : String) → Dict → Action (Unit {0})
  clear_claim id message metadata = do
    release_deployment_claim env id
    record_reconcile_event id "reconcile.claim_cleared" message "info" metadata

  abbrev clear_message : DeploymentStatus → String
  clear_message DeploymentStatus.pending = "Cleared stale deployment claim"
  clear_message _ = "Cleared stale non-active deployment claim"

  unfoldable pub release_stale_claim : ℕ → PlatformDeployment → Timestamp → Action Bool
  release_stale_claim id d claimed_at = do
    if is_in_progress d.status
        then recover_claim id (claim_metadata d claimed_at)
        else clear_claim id (clear_message d.status) (claim_metadata d claimed_at)
    commit
    pure true

  unfoldable pub reconcile_claimed_at : ℕ → PlatformDeployment → Option Timestamp → Action Bool
  reconcile_claimed_at id d none = pure false
  reconcile_claimed_at id d (some claimed_at) = do
    now ← now_utc env
    if ltb claimed_at (now - seconds env.claim_ttl_seconds)
        then release_stale_claim id d claimed_at
        else pure false

  unfoldable pub reconcile_stale_claim : ℕ → Action Bool
  reconcile_stale_claim id = do d ← the_deployment id; reconcile_claimed_at id d d.claimed_at

  unfoldable pub recover_target : ℕ → Option String → Action Bool
  recover_target id none = pure false
  recover_target id (some target) = do
    update_deployment id (λ d. record d { deploy_target = some target })
    record_reconcile_event id "reconcile.deploy_target_recovered"
        (fstring (
          "Recovered missing deployment target '" ∷ target ∷ "' from persisted preflight metadata"
          ∷ []))
        "info" (dict (("deploy_target", str target) ∷ ("source", str "preflight_metadata") ∷ []))
    commit
    pure true

  unfoldable pub reconcile_missing_deploy_target : ℕ → Action Bool
  reconcile_missing_deploy_target id = do
    d ← the_deployment id
    if truthy? d.deploy_target then pure false else (do
      target ← target_in_metadata (or_null d.preflight_metadata_json)
      recover_target id target)

  abbrev pub in_docker : PlatformDeployment → Bool
  in_docker d = elim d.deploy_target [ none ↦ false | some target ↦ text_eq target "local-docker" ]

  -- A runtime is gone: both rows fail at one time, and nobody holds the deployment.
  unfoldable pub fail_runtime : ℕ → (message : String) → Action (Unit {0})
  fail_runtime id message = do
    now ← fail_deployment id message
    fail_build id message (pure now)
    update_deployment id (λ d. record d { service_url = none })
    release_deployment_claim env id

  unfoldable pub fail_missing_container : ℕ → Action Bool
  fail_missing_container id = do
    fail_runtime id "Reconciler detected missing runtime container for running deployment"
    d ← the_deployment id
    record_reconcile_event id "reconcile.container_missing"
        "Marked running deployment failed because its container is missing" "warning"
        (dict (("deploy_target", opt_str d.deploy_target) ∷ []))
    commit
    pure true

  -- `describe` is `str` of an exception.
  unfoldable pub by_existence : (Fault → String) → ℕ → Outcome Bool → Action Bool
  by_existence describe id (raised fault) = do
    record_reconcile_event id "reconcile.cleanup_failed"
        (fstring ("Failed to verify container existence: " ∷ describe fault ∷ [])) "error"
        (dict (("action", str "container_exists") ∷ []))
    commit
    pure false
  by_existence describe id (ok true) = pure false
  by_existence describe id (ok false) = fail_missing_container id

  unfoldable pub reconcile_running_missing_container :
      (Fault → String) → RuntimeFactory → ℕ → Action Bool
  reconcile_running_missing_container describe make id = do
    d ← the_deployment id
    if (d.status is DeploymentStatus.running) && in_docker d
        then (do
          db ← view
          runtime ← lift (make db id)
          outcome ← attempt (runtime.container_exists id)
          by_existence describe id outcome)
        else pure false

  unfoldable pub remove_container : Runtime → ℕ → Action Bool
  remove_container runtime id = do
    exists ← runtime.container_exists id
    if exists
        then (do
          result ← runtime.stop id
          record_reconcile_event id "reconcile.container_removed"
              "Removed orphan container from failed deployment" "info"
              (merge result.metadata (dict (("log_path", opt_str result.log_path) ∷ [])))
          pure true)
        else pure false

  unfoldable pub by_removal : (Fault → String) → ℕ → Outcome Bool → Action Bool
  by_removal describe id (ok removed) = pure removed
  by_removal describe id (raised (worker_error error)) = do
    record_reconcile_event id "reconcile.cleanup_failed"
        (fstring ("Failed to remove orphan container: " ∷ error.message ∷ [])) "error"
        (merge error.metadata (dict (("step", str error.step) ∷ [])))
    pure false
  by_removal describe id (raised fault) = do
    record_reconcile_event id "reconcile.cleanup_failed"
        (fstring ("Failed to remove orphan container: " ∷ describe fault ∷ [])) "error"
        (dict (("action", str "container_cleanup") ∷ []))
    pure false

  unfoldable pub clean_container : (Fault → String) → RuntimeFactory → ℕ → Action Bool
  clean_container describe make id = do
    db ← view
    runtime ← lift (make db id)
    outcome ← attempt (remove_container runtime id)
    by_removal describe id outcome

  unfoldable pub reconcile_failed_artifacts : (Fault → String) → RuntimeFactory → ℕ → Action Bool
  reconcile_failed_artifacts describe make id = do
    d ← the_deployment id
    if d.status is DeploymentStatus.failed
        then (do
          changed ← (if in_docker d then clean_container describe make id else pure false)
          commit
          pure changed)
        else pure false
