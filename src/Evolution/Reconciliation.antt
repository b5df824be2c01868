-- ===== src/Evolution/Reconciliation.antt =====
-- Reconciliation (worker/reconciliation) and the permitted change of the database.
pub mod Cluster
pub mod Service
use autodeploy_platform.Prelude.{
  ℕ, ◌-◌, String, ◌≡◌, refl, Bool, true, false, Option, none, some, truthy?, ltb, if◌then◌else◌,
  ◌&&◌,
}
use autodeploy_platform.Json.{Json, null, bool, num, str, arr, obj, Dict, or_null}
use autodeploy_platform.Models.DeploymentStatus
use autodeploy_platform.Models.DeploymentStatus.{DeploymentStatus, ◌is◌}
use autodeploy_platform.Models.Rows.{Timestamp, PlatformDeployment, Db}
use autodeploy_platform.Session.{
  Environment, World, Fault, claim_lost, cancelled, worker_error, command_claim_lost, other,
  Outcome, ok, raised, Action, now_utc, pure, ◌>>=◌, ◌>>◌, commit, lift,
}
use autodeploy_platform.Session.Keeps.{
  Keeps, bind-Keeps, bind-then, if-Keeps, pure-Keeps, raise-Keeps, lift-Keeps, attempt-Keeps,
  view-Keeps, the_deployment-Keeps, keeps_rules,
}
use autodeploy_platform.Evolution.Rows.{untouched}
use autodeploy_platform.Evolution.Database.{DbEvolves}
use autodeploy_platform.Evolution.Session.{
  From, fresh-From, PeersEvolve, now_utc-Keeps, commit-Keeps,
}
use autodeploy_platform.Evolution.Claims.{
  session_rules, record_event-Keeps, release_deployment_claim-Keeps,
}
use autodeploy_platform.Evolution.Transitions.{
  write_rules, transition_deployment-Keeps, transition_build-Keeps,
}
use autodeploy_platform.Worker.Reconciliation.{
  Runtime, RuntimeFactory, is_in_progress, recovered_target, target_in_metadata, record_step_event,
  record_reconcile_event, fail_runtime, fail_deployment, fail_build, recover_claim, clear_claim,
  release_stale_claim, reconcile_claimed_at, reconcile_stale_claim, recover_target,
  reconcile_missing_deploy_target, fail_missing_container, by_existence,
  reconcile_running_missing_container, remove_container, by_removal, clean_container,
  reconcile_failed_artifacts,
}

-- What an executor for containers writes is a permitted change.
pub record RuntimeKeeps (start : Db) (runtime : Runtime) : Type 0 where
  pub container_exists : (id : ℕ) → Keeps (From start) (runtime.container_exists id)
  pub stop : (id : ℕ) → Keeps (From start) (runtime.stop id)
  pub runtime_helm_status : (id : ℕ) → Keeps (From start) (runtime.runtime_helm_status id)
  pub runtime_resource_status : (id : ℕ) → Keeps (From start) (runtime.runtime_resource_status id)
  pub runtime_pod_diagnostics :
      (id : ℕ) (prefix : String) → Keeps (From start) (runtime.runtime_pod_diagnostics id prefix)

abbrev pub RuntimesKeep : Db → RuntimeFactory → Type 0
RuntimesKeep start make =
    (db : Db) (id : ℕ) (runtime : Runtime) → make db id ≡ ok runtime → RuntimeKeeps start runtime

module _ {start : Db} where
  recovered_target-Keeps : (v : Json) → Keeps (From start) (recovered_target v)
  unfolding recovered_target
  recovered_target-Keeps (str s) = search keeps_rules
  recovered_target-Keeps (arr vs) = search keeps_rules
  recovered_target-Keeps (obj d) = search keeps_rules
  recovered_target-Keeps null = search keeps_rules
  recovered_target-Keeps (bool b) = search keeps_rules
  recovered_target-Keeps (num n) = search keeps_rules

  target_in_metadata-Keeps : (v : Json) → Keeps (From start) (target_in_metadata v)
  unfolding target_in_metadata
  target_in_metadata-Keeps (obj d) = recovered_target-Keeps _
  target_in_metadata-Keeps (str s) = search keeps_rules
  target_in_metadata-Keeps (arr vs) = search keeps_rules
  target_in_metadata-Keeps null = search keeps_rules
  target_in_metadata-Keeps (bool b) = search keeps_rules
  target_in_metadata-Keeps (num n) = search keeps_rules

module _ {start : Db} (env : Environment) where
  pub record_step_event-Keeps :
      (id : ℕ) (step event_type message level : String) (metadata : Dict)
      → Keeps (From start) (record_step_event env id step event_type message level metadata)
  unfolding record_step_event
  record_step_event-Keeps id step event_type message level metadata =
      search (session_rules, record_event-Keeps)

  pub record_reconcile_event-Keeps :
      (id : ℕ) (event_type message level : String) (metadata : Dict)
      → Keeps (From start) (record_reconcile_event env id event_type message level metadata)
  unfolding record_reconcile_event
  record_reconcile_event-Keeps id event_type message level metadata =
      record_step_event-Keeps id _ event_type message level metadata

  fail_deployment-Keeps :
      (id : ℕ) (message : String) → Keeps (From start) (fail_deployment env id message)
  unfolding fail_deployment
  fail_deployment-Keeps id message =
      search (session_rules, write_rules, transition_deployment-Keeps) depth 12

  fail_build-Keeps :
      (id : ℕ) (message : String) (clock : Action Timestamp)
      → Keeps (From start) clock
      → Keeps (From start) (fail_build env id message clock)
  unfolding fail_build
  fail_build-Keeps id message clock k = bind-Keeps _ _ (the_deployment-Keeps id) λ d.
      bind-Keeps _ _ (transition_build-Keeps d.build_id _)
        λ done. bind-Keeps _ _ k λ at. search (session_rules, write_rules)

ruleset repair_rules = (
  session_rules, record_reconcile_event-Keeps, fail_deployment-Keeps, fail_build-Keeps,
  release_deployment_claim-Keeps,
)

module _ {start : Db} (env : Environment) where
  release_stale_claim-Keeps :
      (id : ℕ) (d : PlatformDeployment) (claimed_at : Timestamp)
      → Keeps (From start) (release_stale_claim env id d claimed_at)
  unfolding release_stale_claim recover_claim clear_claim
  release_stale_claim-Keeps id d claimed_at = search repair_rules depth 16

  reconcile_claimed_at-Keeps :
      (id : ℕ) (d : PlatformDeployment) (o : Option Timestamp)
      → Keeps (From start) (reconcile_claimed_at env id d o)
  unfolding reconcile_claimed_at
  reconcile_claimed_at-Keeps id d none = pure-Keeps false
  reconcile_claimed_at-Keeps id d (some at) =
      search (session_rules, release_stale_claim-Keeps) depth 12

  pub reconcile_stale_claim-Keeps : (id : ℕ) → Keeps (From start) (reconcile_stale_claim env id)
  unfolding reconcile_stale_claim
  reconcile_stale_claim-Keeps id =
      bind-Keeps _ _ (the_deployment-Keeps id) λ d. reconcile_claimed_at-Keeps id d d.claimed_at

  recover_target-Keeps : (id : ℕ) (o : Option String) → Keeps (From start) (recover_target env id o)
  unfolding recover_target
  recover_target-Keeps id none = pure-Keeps false
  recover_target-Keeps id (some target) = search (repair_rules, write_rules) depth 14

  pub reconcile_missing_deploy_target-Keeps :
      (id : ℕ) → Keeps (From start) (reconcile_missing_deploy_target env id)
  unfolding reconcile_missing_deploy_target
  reconcile_missing_deploy_target-Keeps id =
      search (session_rules, target_in_metadata-Keeps, recover_target-Keeps) depth 12

  pub fail_runtime-Keeps :
      (id : ℕ) (message : String) → Keeps (From start) (fail_runtime env id message)
  unfolding fail_runtime
  fail_runtime-Keeps id message = search (repair_rules, write_rules) depth 16

  fail_missing_container-Keeps : (id : ℕ) → Keeps (From start) (fail_missing_container env id)
  unfolding fail_missing_container
  fail_missing_container-Keeps id = search (repair_rules, fail_runtime-Keeps) depth 16

module _ {start : Db} (env : Environment) (describe : Fault → String) (id : ℕ) where
  by_existence-Keeps :
      (outcome : Outcome Bool) → Keeps (From start) (by_existence env describe id outcome)
  unfolding by_existence
  by_existence-Keeps (raised fault) = search repair_rules depth 12
  by_existence-Keeps (ok true) = pure-Keeps false
  by_existence-Keeps (ok false) = fail_missing_container-Keeps env id

  by_removal-Keeps :
      (outcome : Outcome Bool) → Keeps (From start) (by_removal env describe id outcome)
  unfolding by_removal
  by_removal-Keeps (ok removed) = pure-Keeps removed
  by_removal-Keeps (raised (worker_error error)) = search repair_rules depth 12
  by_removal-Keeps (raised (claim_lost error)) = search repair_rules depth 12
  by_removal-Keeps (raised (cancelled error)) = search repair_rules depth 12
  by_removal-Keeps (raised (command_claim_lost message)) = search repair_rules depth 12
  by_removal-Keeps (raised (other error_type)) = search repair_rules depth 12

  remove_container-Keeps :
      (runtime : Runtime)
      → RuntimeKeeps start runtime
      → Keeps (From start) (remove_container env runtime id)
  unfolding remove_container
  remove_container-Keeps runtime k = bind-Keeps _ _ (k.container_exists id) λ exists.
      if-Keeps exists _ _ (bind-Keeps _ _ (k.stop id) λ result. search repair_rules depth 12)
        (pure-Keeps false)

  module _ (make : RuntimeFactory) (k : RuntimesKeep start make) where
    clean_container-Keeps : Keeps (From start) (clean_container env describe make id)
    unfolding clean_container lift
    clean_container-Keeps = bind-Keeps _ _ view-Keeps λ db.
        bind-then _ _ (lift-Keeps _) λ w h runtime made.
          bind-Keeps _ _ (attempt-Keeps _ (remove_container-Keeps runtime (k db id runtime made)))
            by_removal-Keeps

    pub reconcile_failed_artifacts-Keeps :
        Keeps (From start) (reconcile_failed_artifacts env describe make id)
    unfolding reconcile_failed_artifacts
    reconcile_failed_artifacts-Keeps = search (session_rules, clean_container-Keeps) depth 12

    pub reconcile_running_missing_container-Keeps :
        Keeps (From start) (reconcile_running_missing_container env describe make id)
    unfolding reconcile_running_missing_container lift
    reconcile_running_missing_container-Keeps = bind-Keeps _ _ (the_deployment-Keeps id) λ d.
        if-Keeps _ _ _
          (bind-Keeps _ _ view-Keeps λ db. bind-then _ _ (lift-Keeps _) λ w h runtime made.
            bind-Keeps _ _ (attempt-Keeps _ ((k db id runtime made).container_exists id))
              by_existence-Keeps)
          (pure-Keeps false)
