-- ===== src/Worker/Fake.antt =====
-- worker/executors/fake.py: the executor that simulates a deployment.
use autodeploy_platform.Prelude.{
  ℕ, String, true, Option, none, some, List, [], ◌∷◌, or_text, truthy, truthy?, slice_text, fstring,
  decimal, if◌then◌else◌,
}
use autodeploy_platform.Json.{Json, bool, str, arr, obj, Items, nil, cons, Dict, get?, dict}
use autodeploy_platform.DeploymentSpec.{
  SpecifiedProject, frozen, current, project_for_deployment, env_vars,
}
use autodeploy_platform.Models.Rows.{PlatformDeployment}
use autodeploy_platform.Session.{
  Environment, Action, other, pure, raise, ◌>>=◌, ◌>>◌, view, found, the_deployment, the_build,
}
use autodeploy_platform.Worker.Events.{iterate}
use autodeploy_platform.Worker.Workload.{resolved_workload_environment}
use autodeploy_platform.Worker.Executor.{ExecutionResult, PreflightResult, Executor}

-- ExecutionResult's defaults.
abbrev pub done : String → Dict → ExecutionResult
done message metadata = record {
  message = message;
  metadata = metadata;
  events = [];
  log_path = none;
  workspace_path = none;
  command_output = none;
  image_tag = none;
  image_ref = none;
  service_url = none;
  deploy_target = none;
  container_name = none;
  container_id = none;
  host_port = none;
  healthcheck_url = none;
  runtime_log_path = none;
}

abbrev fake_metadata : List (String × Json) → Dict
fake_metadata rest = dict (("executor", str "fake") ∷ rest)

abbrev skipped_metadata : Dict
skipped_metadata = fake_metadata (("skipped", bool true) ∷ [])

-- `x or y`, on optional texts
abbrev or_option : Option String → Option String → Option String
or_option x y = if truthy? x then x else y

-- `x or y`, where `y` is read only if it is needed.
unfoldable pub or_action : Option String → Action String → Action String
or_action none m = m
or_action (some s) m = if truthy s then pure s else m

-- `item["name"]`
unfoldable pub names_of : Items → Action Items
names_of nil = pure nil
names_of (cons (obj item) vs) = do
  name ← found "KeyError" (get? "name" item)
  names ← names_of vs
  pure (cons name names)
names_of (cons v vs) = raise (other "TypeError")

module _ (env : Environment) where
  abbrev text_of : Json → String
  text_of (str s) = s
  text_of v = env.str_of v

  unfoldable pub name_of : SpecifiedProject → Action String
  name_of (frozen spec) = do name ← found "AttributeError" (get? "name" spec); pure (text_of name)
  name_of (current p) = pure p.name

  -- `project_for_deployment(deployment)`, and its name.
  unfoldable pub project_of : PlatformDeployment → Action SpecifiedProject
  project_of d = do db ← view; found "AttributeError" (project_for_deployment db.projects d)

  unfoldable pub clone_repo : ℕ → Action ExecutionResult
  clone_repo id = do
    the_deployment id
    pure (record (done "Repository cloned" (fake_metadata [])) {
      workspace_path = some (fstring ("/tmp/paas-workspaces/fake/deployment-" ∷ decimal id ∷ []));
    })

  unfoldable pub build_image : ℕ → Action ExecutionResult
  build_image id = do
    d ← the_deployment id
    project ← project_of d
    b ← the_build d.build_id
    let image_tag = or_text b.image_tag (slice_text 12 b.commit_sha)
    image_name ← or_action b.image_name (name_of project)
    pure (record (done "Docker image built" (fake_metadata [])) {
      image_tag = some image_tag;
      image_ref =
          some (or_text b.image_ref (fstring ("local/" ∷ image_name ∷ ":" ∷ image_tag ∷ [])));
    })

  unfoldable pub run_tests : ℕ → Action ExecutionResult
  run_tests id = pure (done "Test command completed" (fake_metadata []))

  -- f"{project.name}:{deployment.id}"
  unfoldable pub name_and_id : SpecifiedProject → ℕ → Action String
  name_and_id project id = do name ← name_of project; pure (fstring (name ∷ ":" ∷ decimal id ∷ []))

  unfoldable pub tag_image : ℕ → Action ExecutionResult
  tag_image id = do
    d ← the_deployment id
    project ← project_of d
    b ← the_build d.build_id
    image_tag ← or_action b.image_tag (name_and_id project id)
    image_ref ← or_action b.image_ref (name_and_id project id)
    pure (record (done "Image tag skipped for fake executor" skipped_metadata) {
      image_tag = some image_tag;
      image_ref = some image_ref;
    })

  -- The result of `push_image` and `verify_image`.
  unfoldable pub published : ℕ → String → Action ExecutionResult
  published id message = do
    d ← the_deployment id
    b ← the_build d.build_id
    pure (record (done message skipped_metadata) {
      image_tag = b.image_tag;
      image_ref = or_option b.image_ref b.image_tag;
    })

  unfoldable pub preflight_deploy : ℕ → Action (Option PreflightResult)
  preflight_deploy id = pure (
      some (record {
        status = "skipped";
        summary = "Deployment preflight skipped for fake executor";
        metadata = skipped_metadata;
        events = [];
        log_path = none;
        deploy_target = some "fake";
      }))

  -- f"https://{project.name}.local"
  unfoldable pub local_url : SpecifiedProject → Action String
  local_url project = do name ← name_of project; pure (fstring ("https://" ∷ name ∷ ".local" ∷ []))

  unfoldable pub deploy : ℕ → Action ExecutionResult
  deploy id = do
    d ← the_deployment id
    project ← project_of d
    value ← found "AttributeError" (env_vars project)
    vs ← iterate value
    b ← the_build d.build_id
    environment ← found "TypeError" (resolved_workload_environment vs b)
    names ← names_of environment
    service_url ← or_action d.service_url (local_url project)
    pure
        (record (done "Deployment marked as running"
          (fake_metadata (("platform_environment_names", arr names) ∷ []))) {
            service_url = some service_url;
            deploy_target = some "fake";
          })

  unfoldable pub stop : ℕ → Action ExecutionResult
  stop id = do
    d ← the_deployment id
    pure
        (record (done "Deployment marked as stopped"
          (fake_metadata (("stopped", bool true) ∷ []))) {
            deploy_target = some "fake";
            container_name = d.container_name;
            container_id = d.container_id;
          })

  -- The simulation makes no heartbeat.
  unfoldable pub fake_executor : Action (Unit {0}) → Executor
  fake_executor heartbeat = record {
    deploy_target = some "fake";
    deployment_mode = none;
    namespace = none;
    kubernetes_resource_identity = none;
    clone_repo = clone_repo;
    build_image = build_image;
    run_tests = run_tests;
    tag_image = tag_image;
    push_image = λ id. published id "Image push skipped for fake executor";
    verify_image = λ id. published id "Image verification skipped for fake executor";
    preflight_deploy = some preflight_deploy;
    deploy = deploy;
    stop = stop;
  }
