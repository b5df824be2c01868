-- ===== src/Samples.antt =====
-- A queue with one deployment, its project and build, and the session of a worker alone.
use autodeploy_platform.Prelude.{◌+◌, none, some, [], ◌∷◌, Table, decimal}
use autodeploy_platform.Json.{cons, obj, dict, str, nil, Items}
use autodeploy_platform.Models.DeploymentStatus.{DeploymentStatus}
use autodeploy_platform.Models.BuildStatus.{BuildStatus}
use autodeploy_platform.Models.Rows.{
  stop, CommandStatus, DeploymentCommand, Project, Build, PlatformDeployment, Db,
}
use autodeploy_platform.Session.{Environment, World}

abbrev pub environment : Environment
environment = record {
  worker_id = "worker-1";
  claim_ttl_seconds = 60;
  deployment_mode = "manifest";
  namespace = "autodeploy";
  clock = λ n. 1000 + n;
  iso = decimal;
  str_of = λ v. "";
}

abbrev pub project : Project
project = record {
  name = "shop";
  repo_url = "https://git/shop";
  branch = "main";
  git_auth_type = "none";
  git_secret_ref = none;
  dockerfile_path = "Dockerfile";
  build_context = ".";
  port = 8000;
  healthcheck_path = "/health";
  env_vars = nil;
  default_test_command = none;
  migration_command = none;
  cpu = none;
  memory = none;
  trigger = "manual";
  runtime = "docker";
  created_at = 1;
  updated_at = 1;
}

abbrev pub build : Build
build = record {
  project_id = 1;
  commit_sha = "abc";
  registry = none;
  image_name = none;
  image_tag = none;
  image_ref = none;
  status = BuildStatus.pending;
  registry_push_status = none;
  test_command = none;
  workspace_path = none;
  build_log_path = none;
  log_path = none;
  last_error = none;
  started_at = none;
  finished_at = none;
  created_at = 2;
}

abbrev pub deployment : PlatformDeployment
deployment = record {
  project_id = 1;
  build_id = 1;
  environment = "production";
  status = DeploymentStatus.pending;
  deploy_target = none;
  container_name = none;
  container_id = none;
  host_port = none;
  healthcheck_url = none;
  service_url = none;
  kubernetes_deployment_mode = none;
  kubernetes_namespace = none;
  kubernetes_deployment_name = none;
  kubernetes_service_name = none;
  kubernetes_ingress_name = none;
  helm_release_name = none;
  helm_namespace = none;
  helm_chart_path = none;
  preflight_status = none;
  preflight_summary = none;
  preflight_metadata_json = none;
  spec_snapshot_json = none;
  preflight_completed_at = none;
  last_error = none;
  started_at = none;
  finished_at = none;
  claimed_at = none;
  claimed_by = none;
  origin_request_id = none;
  created_at = 3;
}

abbrev pub database : Db
database = record {
  projects = (1, project) ∷ [];
  builds = (1, build) ∷ [];
  deployments = (1, deployment) ∷ [];
  events = [];
  commands = [];
}

abbrev pub after : Table PlatformDeployment
after = (1, record deployment { claimed_at = some 1001; claimed_by = some "worker-1" }) ∷ []

-- The worker has the deployment, and has not committed that.
abbrev pub holding : World
holding = record {
  saved = database;
  work = record database { deployments = after };
  reads = 0;
  peers = [];
}

abbrev pub reserved_item : Items
reserved_item = cons (obj (dict (("name", str "APP_VERSION") ∷ []))) nil

abbrev pub world : World
world = record { saved = database; work = database; reads = 0; peers = [] }

abbrev pub stop_command : DeploymentCommand
stop_command = record {
  deployment_id = 1;
  command_type = stop;
  status = CommandStatus.pending;
  active_key = some "active";
  message = none;
  last_error = none;
  claimed_by = none;
  claimed_at = none;
  origin_request_id = none;
  requested_at = 9;
  completed_at = none;
}

-- The worker has the deployment, and is asked to stop it.
abbrev pub stopping : World
stopping = record holding {
  work = record database { deployments = after; commands = (4, stop_command) ∷ [] };
}

-- The deployment is free, and a stop is asked for.
abbrev pub asked_to_stop : World
asked_to_stop = record world {
  saved = record database { commands = (4, stop_command) ∷ [] };
  work = record database { commands = (4, stop_command) ∷ [] };
}
