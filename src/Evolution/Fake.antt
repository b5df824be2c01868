-- ===== src/Evolution/Fake.antt =====
-- worker/executors/fake.py and the permitted change of the database.
use autodeploy_platform.Prelude.{ℕ, String, ◌≡◌, subst, Option, none, some}
use autodeploy_platform.Json.{obj, Items, nil, cons}
use autodeploy_platform.DeploymentSpec.{SpecifiedProject, frozen, current}
use autodeploy_platform.Models.Rows.{PlatformDeployment, Db}
use autodeploy_platform.Session.{Environment, Action}
use autodeploy_platform.Session.Keeps.{Keeps, bind-Keeps, pure-Keeps, keeps_rules, found-Keeps}
use autodeploy_platform.Evolution.Session.{From}
use autodeploy_platform.Evolution.Claims.{iterate-Keeps}
use autodeploy_platform.Evolution.Stages.{ExecutorKeeps}
use autodeploy_platform.Worker.Executor.{PreflightResult}
use autodeploy_platform.Worker.Fake.{
  or_action, names_of, name_of, project_of, clone_repo, build_image, run_tests, name_and_id,
  tag_image, published, preflight_deploy, local_url, deploy, stop, fake_executor,
}

module _ {start : Db} (env : Environment) where
  or_action-Keeps :
      (x : Option String) (m : Action String)
      → Keeps (From start) m
      → Keeps (From start) (or_action x m)
  unfolding or_action
  or_action-Keeps none m k = k
  or_action-Keeps (some s) m k = search keeps_rules

  names_of-Keeps : (vs : Items) → Keeps (From start) (names_of vs)
  unfolding names_of
  names_of-Keeps nil = search keeps_rules
  names_of-Keeps (cons (obj item) vs) =
      bind-Keeps _ _ (found-Keeps _ _)
        λ name. bind-Keeps _ _ (names_of-Keeps vs) λ names. pure-Keeps _
  names_of-Keeps (cons _ vs) = search keeps_rules

  name_of-Keeps : (p : SpecifiedProject) → Keeps (From start) (name_of env p)
  unfolding name_of
  name_of-Keeps (frozen spec) = search keeps_rules
  name_of-Keeps (current p) = search keeps_rules

  project_of-Keeps : (d : PlatformDeployment) → Keeps (From start) (project_of env d)
  unfolding project_of
  project_of-Keeps d = search keeps_rules

  name_and_id-Keeps : (p : SpecifiedProject) (id : ℕ) → Keeps (From start) (name_and_id env p id)
  unfolding name_and_id
  name_and_id-Keeps p id = search (keeps_rules, name_of-Keeps)

  local_url-Keeps : (p : SpecifiedProject) → Keeps (From start) (local_url env p)
  unfolding local_url
  local_url-Keeps p = search (keeps_rules, name_of-Keeps)

ruleset fake_rules = (
  keeps_rules, or_action-Keeps, names_of-Keeps, name_of-Keeps, project_of-Keeps, name_and_id-Keeps,
  local_url-Keeps, iterate-Keeps,
)

module _ {start : Db} (env : Environment) where
  published-Keeps : (id : ℕ) (message : String) → Keeps (From start) (published env id message)
  unfolding published
  published-Keeps id message = search fake_rules depth 12

  clone_repo-Keeps : (id : ℕ) → Keeps (From start) (clone_repo env id)
  unfolding clone_repo
  clone_repo-Keeps id = search fake_rules depth 12

  build_image-Keeps : (id : ℕ) → Keeps (From start) (build_image env id)
  unfolding build_image
  build_image-Keeps id = search fake_rules depth 14

  run_tests-Keeps : (id : ℕ) → Keeps (From start) (run_tests env id)
  unfolding run_tests
  run_tests-Keeps id = search fake_rules

  tag_image-Keeps : (id : ℕ) → Keeps (From start) (tag_image env id)
  unfolding tag_image
  tag_image-Keeps id = search fake_rules depth 14

  preflight_deploy-Keeps : (id : ℕ) → Keeps (From start) (preflight_deploy env id)
  unfolding preflight_deploy
  preflight_deploy-Keeps id = search fake_rules

  deploy-Keeps : (id : ℕ) → Keeps (From start) (deploy env id)
  unfolding deploy
  deploy-Keeps id = search fake_rules depth 16

  stop-Keeps : (id : ℕ) → Keeps (From start) (stop env id)
  unfolding stop
  stop-Keeps id = search fake_rules depth 12

  pub fake_executor-Keeps :
      (heartbeat : Action (Unit {0})) → ExecutorKeeps start (fake_executor env heartbeat)
  unfolding fake_executor
  fake_executor-Keeps heartbeat = record {
    kubernetes_resource_identity = λ call e id. cc;
    clone_repo = clone_repo-Keeps;
    build_image = build_image-Keeps;
    run_tests = run_tests-Keeps;
    tag_image = tag_image-Keeps;
    push_image = λ id. published-Keeps id _;
    verify_image = λ id. published-Keeps id _;
    preflight_deploy = λ call e id.
        let same : preflight_deploy env ≡ call = cc in
        subst (λ (c : ℕ → Action (Option PreflightResult)). Keeps (From start) (c id)) same
          (preflight_deploy-Keeps id);
    deploy = deploy-Keeps;
    stop = stop-Keeps;
  }
