-- ===== src/Evolution/Stages.antt =====
-- The stages of worker/processing/pipeline.py and the permitted change of the database.
use autodeploy_platform.Prelude.{ℕ, String, ◌≡◌, refl, Option, none, some}
use autodeploy_platform.Json.{Dict}
use autodeploy_platform.RuntimeMetadata.{
  ResourceIdentity, no_identity, persist_kubernetes_runtime_identity,
}
use autodeploy_platform.Models.Rows.{Build, PlatformDeployment, Db}
use autodeploy_platform.Models.Lifecycle.{Reaches}
use autodeploy_platform.Session.{Environment, World, Outcome, ok, raised, Action, lift, ◌>>=◌}
use autodeploy_platform.Session.Keeps.{Keeps, pure-Keeps, bind-Keeps, if-Keeps, keeps_rules}
use autodeploy_platform.Evolution.Rows.{Evolves, BuildEvolves}
use autodeploy_platform.Evolution.Identity.{persist_kubernetes_runtime_identity_frozen}
use autodeploy_platform.Evolution.Session.{From, update_build-Keeps, update_found-From}
use autodeploy_platform.Evolution.Reading.{the_deployment-then}
use autodeploy_platform.Evolution.Claims.{
  session_rules, record_event-Keeps, record_auxiliary_events-Keeps, write_claim_event-Keeps,
  release_deployment_claim-Keeps, ensure_claim_owned-Keeps, refresh_claim-Keeps,
  persist_claim_loss-Keeps, persist_cancellation_acknowledgement-Keeps, claim_heartbeat-Keeps,
  claim_next_pending_deployment-Keeps,
}
use autodeploy_platform.Evolution.Lifecycle.{
  begin_step-Keeps, commit_step_result-Keeps, mark_failed-Keeps, apply_execution_result-Keeps,
  clear_preflight_state-Keeps, persist_preflight_result-Keeps, persist_preflight_failure-Keeps,
}
use autodeploy_platform.Evolution.Transitions.{
  write_rules, transition_deployment-Keeps, transition_build-Keeps,
}
use autodeploy_platform.Worker.Executor.{ExecutionResult, PreflightResult, Executor}
use autodeploy_platform.Worker.Pipeline.Publish.{
  update_build_of, run_step, commit_current, clone_stage, build_stage, run_tests_stage,
  run_tests_if, test_stage, tag_stage, push_stage, verify_stage,
}
use autodeploy_platform.Worker.Pipeline.Release.{
  persist_identity, identity_of, freeze_identity, freeze_target, commit_preflight, run_preflight,
  target_stage, preflight_stage, deploy_stage, finish_stage,
}
use autodeploy_platform.Worker.Pipeline.{run_pipeline}

pub record ExecutorKeeps (start : Db) (executor : Executor) : Type 0 where
  pub kubernetes_resource_identity :
      (call : ℕ → Action ResourceIdentity)
      → executor.kubernetes_resource_identity ≡ some call
      → (id : ℕ) → Keeps (From start) (call id)
  pub clone_repo : (id : ℕ) → Keeps (From start) (executor.clone_repo id)
  pub build_image : (id : ℕ) → Keeps (From start) (executor.build_image id)
  pub run_tests : (id : ℕ) → Keeps (From start) (executor.run_tests id)
  pub tag_image : (id : ℕ) → Keeps (From start) (executor.tag_image id)
  pub push_image : (id : ℕ) → Keeps (From start) (executor.push_image id)
  pub verify_image : (id : ℕ) → Keeps (From start) (executor.verify_image id)
  pub preflight_deploy :
      (call : ℕ → Action (Option PreflightResult))
      → executor.preflight_deploy ≡ some call
      → (id : ℕ) → Keeps (From start) (call id)
  pub deploy : (id : ℕ) → Keeps (From start) (executor.deploy id)
  pub stop : (id : ℕ) → Keeps (From start) (executor.stop id)

-- The row with its runtime identity set, where that is accepted.
identified :
    (d : PlatformDeployment) (mode namespace : Option String) (names : ResourceIdentity)
    (d' : PlatformDeployment)
    → persist_kubernetes_runtime_identity d mode namespace names ≡ ok d'
    → Evolves d (record d {
      kubernetes_deployment_mode = d'.kubernetes_deployment_mode;
      kubernetes_namespace = d'.kubernetes_namespace;
      kubernetes_deployment_name = d'.kubernetes_deployment_name;
      kubernetes_service_name = d'.kubernetes_service_name;
      kubernetes_ingress_name = d'.kubernetes_ingress_name;
    })
identified d mode namespace names d' h =
    let (same_mode, same_namespace) =
      persist_kubernetes_runtime_identity_frozen d mode namespace names d' h in
    record {
      reaches = Reaches.here;
      same_identity = refl;
      started_once = λ t e. e;
      paired = λ e. e;
      frozen_mode = same_mode;
      frozen_namespace = same_namespace;
    }

module _ {start : Db} where
  pub update_build_of-Keeps :
      (id : ℕ) (f : Build → Build)
      → ((b : Build) → BuildEvolves b (f b))
      → Keeps (From start) (update_build_of id f)
  unfolding update_build_of
  update_build_of-Keeps id f e = search (keeps_rules, update_build-Keeps) depth 12

module _ {ℓ κ} {start : Db} {A : Type ℓ} {B : Type κ} where
  -- What follows `lift` may use that the outcome was good.
  lift-then :
      (r : Outcome A) (k : A → Action B) (w : World)
      → From start w
      → ((a : A) → r ≡ ok a → From start (k a w).1)
      → From start ((lift r >>= k) w).1
  unfolding ◌>>=◌
  lift-then (ok a) k w h e = e a refl
  lift-then (raised fault) k w h e = h

module _ {start : Db} where
  persist_identity-Keeps :
      (id : ℕ) (mode namespace : String) (names : ResourceIdentity)
      → Keeps (From start) (persist_identity id mode namespace names)
  unfolding persist_identity
  persist_identity-Keeps id mode namespace names = the_deployment-then id _ λ w d found h.
      lift-then (persist_kubernetes_runtime_identity d (some mode) (some namespace) names) _ w h
        λ d' accepted.
          update_found-From id _ w d found
            (identified d (some mode) (some namespace) names d' accepted) h

pub ruleset stage_rules = (
  session_rules, write_rules, update_build_of-Keeps, record_event-Keeps, ensure_claim_owned-Keeps,
  refresh_claim-Keeps, begin_step-Keeps, commit_step_result-Keeps, apply_execution_result-Keeps,
  transition_deployment-Keeps, transition_build-Keeps, write_claim_event-Keeps,
  release_deployment_claim-Keeps,
)

module _ {start : Db} (env : Environment) (executor : Executor)
    (x : ExecutorKeeps start executor) where
  run_step-Keeps :
      (id : ℕ) (call : ℕ → Action ExecutionResult)
      → Keeps (From start) (call id)
      → Keeps (From start) (run_step env executor id call)
  unfolding run_step
  run_step-Keeps id call k = bind-Keeps _ _ k (λ result. search stage_rules depth 12)

  commit_current-Keeps :
      (id : ℕ) (event_type : String) (result : ExecutionResult) (step : String) (metadata : Dict)
      → Keeps (From start) (commit_current env executor id event_type result step metadata)
  unfolding commit_current
  commit_current-Keeps id event_type result step metadata = search stage_rules depth 12

  clone_stage-Keeps : (id : ℕ) → Keeps (From start) (clone_stage env executor id)
  unfolding clone_stage
  clone_stage-Keeps id =
      search (stage_rules, run_step-Keeps, commit_current-Keeps, x.clone_repo) depth 12

  build_stage-Keeps : (id : ℕ) → Keeps (From start) (build_stage env executor id)
  unfolding build_stage
  build_stage-Keeps id = search (stage_rules, commit_current-Keeps, x.build_image) depth 14

  run_tests_stage-Keeps :
      (id : ℕ) (command : String) → Keeps (From start) (run_tests_stage env executor id command)
  unfolding run_tests_stage
  run_tests_stage-Keeps id command = search (stage_rules, run_step-Keeps, x.run_tests) depth 12

  run_tests_if-Keeps :
      (id : ℕ) (command : Option String) → Keeps (From start) (run_tests_if env executor id command)
  unfolding run_tests_if
  run_tests_if-Keeps id none = search keeps_rules
  run_tests_if-Keeps id (some command) = search (keeps_rules, run_tests_stage-Keeps)

  test_stage-Keeps : (id : ℕ) → Keeps (From start) (test_stage env executor id)
  unfolding test_stage
  test_stage-Keeps id = search (keeps_rules, run_tests_if-Keeps) depth 12

  tag_stage-Keeps : (id : ℕ) → Keeps (From start) (tag_stage env executor id)
  unfolding tag_stage
  tag_stage-Keeps id =
      search (stage_rules, run_step-Keeps, commit_current-Keeps, x.tag_image) depth 14

  push_stage-Keeps : (id : ℕ) → Keeps (From start) (push_stage env executor id)
  unfolding push_stage
  push_stage-Keeps id = search (stage_rules, run_step-Keeps, x.push_image) depth 16

  verify_stage-Keeps : (id : ℕ) → Keeps (From start) (verify_stage env executor id)
  unfolding verify_stage
  verify_stage-Keeps id =
      search (stage_rules, run_step-Keeps, commit_current-Keeps, x.verify_image) depth 14

  identity_of-Keeps :
      (id : ℕ) (o : Option (ℕ → Action ResourceIdentity))
      → executor.kubernetes_resource_identity ≡ o
      → Keeps (From start) (identity_of env executor id o)
  unfolding identity_of
  identity_of-Keeps id none e = search keeps_rules
  identity_of-Keeps id (some call) e = x.kubernetes_resource_identity call e id

  freeze_identity-Keeps : (id : ℕ) → Keeps (From start) (freeze_identity env executor id)
  unfolding freeze_identity
  freeze_identity-Keeps id =
      bind-Keeps _ _
        (if-Keeps _ _ _ (identity_of-Keeps id executor.kubernetes_resource_identity refl)
          (pure-Keeps no_identity))
        (λ identity. persist_identity-Keeps id _ _ identity)

  freeze_target-Keeps :
      (id : ℕ) (target : Option String) → Keeps (From start) (freeze_target env executor id target)
  unfolding freeze_target
  freeze_target-Keeps id none = search keeps_rules
  freeze_target-Keeps id (some target) = search (stage_rules, freeze_identity-Keeps) depth 14

  target_stage-Keeps : (id : ℕ) → Keeps (From start) (target_stage env executor id)
  unfolding target_stage
  target_stage-Keeps id = search (stage_rules, freeze_target-Keeps) depth 12

  commit_preflight-Keeps :
      (id : ℕ) (result : Option PreflightResult)
      → Keeps (From start) (commit_preflight env executor id result)
  unfolding commit_preflight
  commit_preflight-Keeps id none = search keeps_rules
  commit_preflight-Keeps id (some result) = search stage_rules

  run_preflight-Keeps :
      (id : ℕ) (o : Option (ℕ → Action (Option PreflightResult)))
      → executor.preflight_deploy ≡ o
      → Keeps (From start) (run_preflight env executor id o)
  unfolding run_preflight
  run_preflight-Keeps id none e = search keeps_rules
  run_preflight-Keeps id (some call) e = bind-Keeps _ _ (x.preflight_deploy call e id) (λ result.
      search (stage_rules, persist_preflight_result-Keeps, commit_preflight-Keeps) depth 12)

  preflight_stage-Keeps : (id : ℕ) → Keeps (From start) (preflight_stage env executor id)
  unfolding preflight_stage
  preflight_stage-Keeps id = run_preflight-Keeps id executor.preflight_deploy refl

  deploy_stage-Keeps : (id : ℕ) → Keeps (From start) (deploy_stage env executor id)
  unfolding deploy_stage
  deploy_stage-Keeps id = search (stage_rules, run_step-Keeps, x.deploy) depth 12

  finish_stage-Keeps : (id : ℕ) → Keeps (From start) (finish_stage env executor id)
  unfolding finish_stage
  finish_stage-Keeps id = search stage_rules depth 18

  pub run_pipeline-Keeps : (id : ℕ) → Keeps (From start) (run_pipeline env executor id)
  unfolding run_pipeline
  run_pipeline-Keeps id =
      search
        (
          keeps_rules, clone_stage-Keeps, build_stage-Keeps, test_stage-Keeps, tag_stage-Keeps,
          push_stage-Keeps, verify_stage-Keeps, target_stage-Keeps, preflight_stage-Keeps,
          deploy_stage-Keeps, finish_stage-Keeps,
        )
        depth 16
