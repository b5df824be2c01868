-- ===== src/Evolution/Reconciliation/Cluster.antt =====
-- The repairs of releases and resources (worker/reconciliation/helm.py, kubernetes.py) and the
-- permitted change of the database.
use autodeploy_platform.Prelude.{ℕ, String, Bool, Option, none, some, List, [], ◌∷◌}
use autodeploy_platform.Json.{Dict}
use autodeploy_platform.Models.Rows.{Db}
use autodeploy_platform.Session.{
  Environment, Fault, claim_lost, cancelled, worker_error, command_claim_lost, other, Outcome, ok,
  raised, Action, lift, ◌>>=◌, attempt,
}
use autodeploy_platform.Session.Keeps.{
  Keeps, bind-Keeps, bind-then, if-Keeps, pure-Keeps, lift-Keeps, attempt-Keeps, view-Keeps,
  the_deployment-Keeps,
}
use autodeploy_platform.Evolution.Session.{From}
use autodeploy_platform.Evolution.Claims.{session_rules}
use autodeploy_platform.Worker.Helm.{newer_helm_workload_owner_id}
use autodeploy_platform.Worker.Reconciliation.{Runtime, RuntimeFactory}
use autodeploy_platform.Worker.Reconciliation.Cluster.{
  record_failure, give_up, fail_missing_release, by_helm_status,
  reconcile_running_missing_helm_release, remove_release, by_release_removal, by_leftover_release,
  clean_release, reconcile_helm_nonrunning_release, fail_missing_resources, by_resource_status,
  reconcile_running_missing_kubernetes_resource, remove_resources, by_resource_removal,
  clean_resources, by_leftovers, reconcile_kubernetes_nonrunning_resources, missing_resources,
  leftover_resources,
}
use autodeploy_platform.Evolution.Reconciliation.{
  RuntimeKeeps, RuntimesKeep, record_step_event-Keeps, record_reconcile_event-Keeps,
  fail_runtime-Keeps,
}

ruleset report_rules =
    (session_rules, record_step_event-Keeps, record_reconcile_event-Keeps, fail_runtime-Keeps)

module _ {start : Db} (env : Environment) (describe : Fault → String) (make : RuntimeFactory)
    (id : ℕ) where
  record_failure-Keeps :
      (event_type text action : String) (extra : Dict) (fault : Fault)
      → Keeps (From start) (record_failure env describe make id event_type text action extra fault)
  unfolding record_failure
  record_failure-Keeps event_type text action extra (worker_error error) = search report_rules
  record_failure-Keeps event_type text action extra (claim_lost error) = search report_rules
  record_failure-Keeps event_type text action extra (cancelled error) = search report_rules
  record_failure-Keeps event_type text action extra (command_claim_lost message) =
      search report_rules
  record_failure-Keeps event_type text action extra (other error_type) = search report_rules

  given_up-Keeps :
      (event_type text action : String) (extra : Dict) (fault : Fault)
      → Keeps (From start) (
          give_up env describe make id
            (record_failure env describe make id event_type text action extra fault))
  unfolding give_up
  given_up-Keeps event_type text action extra fault =
      search (session_rules, record_failure-Keeps) depth 8

  by_helm_status-Keeps :
      (outcome : Outcome (Option Dict))
      → Keeps (From start) (by_helm_status env describe make id outcome)
  unfolding by_helm_status fail_missing_release
  by_helm_status-Keeps (raised fault) = given_up-Keeps _ _ _ _ fault
  by_helm_status-Keeps (ok none) = pure-Keeps _
  by_helm_status-Keeps (ok (some status)) = search report_rules depth 12

  by_release_removal-Keeps :
      (status : Dict) (outcome : Outcome Bool)
      → Keeps (From start) (by_release_removal env describe make id status outcome)
  unfolding by_release_removal
  by_release_removal-Keeps status (ok removed) = pure-Keeps removed
  by_release_removal-Keeps status (raised fault) = given_up-Keeps _ _ _ _ fault

  remove_release-Keeps :
      (runtime : Runtime) (status : Dict)
      → RuntimeKeeps start runtime
      → Keeps (From start) (remove_release env describe make id runtime status)
  unfolding remove_release
  remove_release-Keeps runtime status k =
      bind-Keeps _ _ (k.stop id) λ result. search report_rules depth 12

  by_leftover_release-Keeps :
      (runtime : Runtime) (outcome : Outcome (Option Dict))
      → RuntimeKeeps start runtime
      → Keeps (From start) (by_leftover_release env describe make id runtime outcome)
  unfolding by_leftover_release
  by_leftover_release-Keeps runtime (raised fault) k = given_up-Keeps _ _ _ _ fault
  by_leftover_release-Keeps runtime (ok none) k = pure-Keeps _
  by_leftover_release-Keeps runtime (ok (some status)) k =
      if-Keeps _ _ _
        (bind-Keeps _ _ (attempt-Keeps _ (remove_release-Keeps runtime status k))
          (by_release_removal-Keeps status))
        (pure-Keeps _)

  fail_missing_resources-Keeps :
      (runtime : Runtime) (status : Dict) (names : List String)
      → RuntimeKeeps start runtime
      → Keeps (From start) (fail_missing_resources env describe make id runtime status names)
  unfolding fail_missing_resources
  fail_missing_resources-Keeps runtime status [] k = pure-Keeps _
  fail_missing_resources-Keeps runtime status (name ∷ names) k =
      bind-Keeps _ _ (attempt-Keeps _ (k.runtime_pod_diagnostics id "reconcile"))
        λ outcome. search report_rules depth 12

  by_resource_status-Keeps :
      (runtime : Runtime) (outcome : Outcome Dict)
      → RuntimeKeeps start runtime
      → Keeps (From start) (by_resource_status env describe make id runtime outcome)
  unfolding by_resource_status
  by_resource_status-Keeps runtime (raised fault) k = given_up-Keeps _ _ _ _ fault
  by_resource_status-Keeps runtime (ok status) k =
      fail_missing_resources-Keeps runtime status (missing_resources status) k

  remove_resources-Keeps :
      (runtime : Runtime) (status : Dict) (names : List String)
      → RuntimeKeeps start runtime
      → Keeps (From start) (remove_resources env describe make id runtime status names)
  unfolding remove_resources
  remove_resources-Keeps runtime status names k = bind-Keeps _ _ (k.stop id) λ result.
      bind-Keeps _ _ (attempt-Keeps _ (k.runtime_pod_diagnostics id "reconcile_cleanup"))
        λ outcome. search report_rules depth 12

  by_resource_removal-Keeps :
      (status : Dict) (names : List String) (outcome : Outcome Bool)
      → Keeps (From start) (by_resource_removal env describe make id status names outcome)
  unfolding by_resource_removal
  by_resource_removal-Keeps status names (ok removed) = search session_rules
  by_resource_removal-Keeps status names (raised fault) = given_up-Keeps _ _ _ _ fault

  clean_resources-Keeps :
      (runtime : Runtime) (status : Dict) (names : List String)
      → RuntimeKeeps start runtime
      → Keeps (From start) (clean_resources env describe make id runtime status names)
  unfolding clean_resources
  clean_resources-Keeps runtime status [] k = pure-Keeps _
  clean_resources-Keeps runtime status (name ∷ names) k =
      bind-Keeps _ _ (attempt-Keeps _ (remove_resources-Keeps runtime status (name ∷ names) k))
        (by_resource_removal-Keeps status (name ∷ names))

  by_leftovers-Keeps :
      (runtime : Runtime) (outcome : Outcome Dict)
      → RuntimeKeeps start runtime
      → Keeps (From start) (by_leftovers env describe make id runtime outcome)
  unfolding by_leftovers
  by_leftovers-Keeps runtime (raised fault) k = given_up-Keeps _ _ _ _ fault
  by_leftovers-Keeps runtime (ok status) k =
      clean_resources-Keeps runtime status (leftover_resources status) k

  -- The executor is made, asked for something, and the answer is dealt with.
  asked-Keeps :
      {A : Type 0} (ask : Runtime → Action A) (answer : Runtime → Outcome A → Action Bool) (db : Db)
      → RuntimesKeep start make
      → ((runtime : Runtime) → RuntimeKeeps start runtime → Keeps (From start) (ask runtime))
      → ((runtime : Runtime) (outcome : Outcome A)
          → RuntimeKeeps start runtime
          → Keeps (From start) (answer runtime outcome))
      → Keeps
          (From start)
          (do runtime ← lift (make db id); outcome ← attempt (ask runtime); answer runtime outcome)
  unfolding lift
  asked-Keeps ask answer db x p q = bind-then _ _ (lift-Keeps _) λ w h runtime made.
      let k = x db id runtime made in
      bind-Keeps _ _ (attempt-Keeps _ (p runtime k)) λ outcome. q runtime outcome k

  module _ (x : RuntimesKeep start make) where
    pub reconcile_running_missing_helm_release-Keeps :
        Keeps (From start) (reconcile_running_missing_helm_release env describe make id)
    unfolding reconcile_running_missing_helm_release
    reconcile_running_missing_helm_release-Keeps = bind-Keeps _ _ (the_deployment-Keeps id) λ d.
        bind-Keeps _ _ view-Keeps λ db.
          if-Keeps _ _ _
            (asked-Keeps _ (λ runtime. by_helm_status env describe make id) db x
              (λ runtime k. k.runtime_helm_status id)
              (λ runtime outcome k. by_helm_status-Keeps outcome))
            (pure-Keeps _)

    clean_release-Keeps :
        (owner : Option ℕ) → Keeps (From start) (clean_release env describe make id owner)
    unfolding clean_release
    clean_release-Keeps (some owner) = pure-Keeps _
    clean_release-Keeps none = bind-Keeps _ _ view-Keeps λ db.
        asked-Keeps _ (by_leftover_release env describe make id) db x
          (λ runtime k. k.runtime_helm_status id) by_leftover_release-Keeps

    pub reconcile_helm_nonrunning_release-Keeps :
        Keeps (From start) (reconcile_helm_nonrunning_release env describe make id)
    unfolding reconcile_helm_nonrunning_release newer_helm_workload_owner_id
    reconcile_helm_nonrunning_release-Keeps = search (session_rules, clean_release-Keeps) depth 16

    pub reconcile_running_missing_kubernetes_resource-Keeps :
        Keeps (From start) (reconcile_running_missing_kubernetes_resource env describe make id)
    unfolding reconcile_running_missing_kubernetes_resource
    reconcile_running_missing_kubernetes_resource-Keeps =
        bind-Keeps _ _ (the_deployment-Keeps id) λ d. bind-Keeps _ _ view-Keeps λ db.
          if-Keeps _ _ _
            (asked-Keeps _ (by_resource_status env describe make id) db x
              (λ runtime k. k.runtime_resource_status id) by_resource_status-Keeps)
            (pure-Keeps _)

    pub reconcile_kubernetes_nonrunning_resources-Keeps :
        Keeps (From start) (reconcile_kubernetes_nonrunning_resources env describe make id)
    unfolding reconcile_kubernetes_nonrunning_resources
    reconcile_kubernetes_nonrunning_resources-Keeps = bind-Keeps _ _ (the_deployment-Keeps id) λ d.
        bind-Keeps _ _ view-Keeps λ db.
          if-Keeps _ _ _
            (asked-Keeps _ (by_leftovers env describe make id) db x
              (λ runtime k. k.runtime_resource_status id) by_leftovers-Keeps)
            (pure-Keeps _)
