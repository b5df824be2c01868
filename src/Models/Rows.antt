-- ===== src/Models/Rows.antt =====
-- The rows of the tables, with the columns of control_plane/models. A row does not hold its primary
-- key: a table holds it beside the row. A time is a count of microseconds.
use autodeploy_platform.Prelude.{ℕ, String, Option, List, Table}
use autodeploy_platform.Json.{Json, Items}
use autodeploy_platform.Models.DeploymentStatus.{DeploymentStatus}
use autodeploy_platform.Models.BuildStatus.{BuildStatus}

abbrev pub Timestamp : Type 0
Timestamp = ℕ

-- project.py
pub record Project : Type 0 where
  pub name : String
  pub repo_url : String
  pub branch : String
  pub git_auth_type : String
  pub git_secret_ref : Option String
  pub dockerfile_path : String
  pub build_context : String
  pub port : ℕ
  pub healthcheck_path : String
  pub env_vars : Items
  pub default_test_command : Option String
  pub migration_command : Option String
  pub cpu : Option String
  pub memory : Option String
  pub trigger : String
  pub runtime : String
  pub created_at : Timestamp
  pub updated_at : Timestamp

-- build.py
pub record Build : Type 0 where
  pub project_id : ℕ
  pub commit_sha : String
  pub registry : Option String
  pub image_name : Option String
  pub image_tag : Option String
  pub image_ref : Option String
  pub status : BuildStatus
  pub registry_push_status : Option String
  pub test_command : Option String
  pub workspace_path : Option String
  pub build_log_path : Option String
  pub log_path : Option String
  pub last_error : Option String
  pub started_at : Option Timestamp
  pub finished_at : Option Timestamp
  pub created_at : Timestamp

-- platform_deployment.py; `updated_at` is the database's and is left out, as in the other rows that
-- the worker writes.
pub record PlatformDeployment : Type 0 where
  pub project_id : ℕ
  pub build_id : ℕ
  pub environment : String
  pub status : DeploymentStatus
  pub deploy_target : Option String
  pub container_name : Option String
  pub container_id : Option String
  pub host_port : Option ℕ
  pub healthcheck_url : Option String
  pub service_url : Option String
  pub kubernetes_deployment_mode : Option String
  pub kubernetes_namespace : Option String
  pub kubernetes_deployment_name : Option String
  pub kubernetes_service_name : Option String
  pub kubernetes_ingress_name : Option String
  pub helm_release_name : Option String
  pub helm_namespace : Option String
  pub helm_chart_path : Option String
  pub preflight_status : Option String
  pub preflight_summary : Option String
  pub preflight_metadata_json : Option Json
  pub spec_snapshot_json : Option Json
  pub preflight_completed_at : Option Timestamp
  pub last_error : Option String
  pub started_at : Option Timestamp
  pub finished_at : Option Timestamp
  pub claimed_at : Option Timestamp
  pub claimed_by : Option String
  pub origin_request_id : Option String
  pub created_at : Timestamp

-- deployment_event.py; `created_at` is the database's and is left out.
pub record DeploymentEvent : Type 0 where
  pub deployment_id : ℕ
  pub event_type : String
  pub step : Option String
  pub level : String
  pub status : String
  pub message : Option String
  pub metadata_json : Json

-- deployment_command.py: `command_type` and `status` take these values throughout the program.
pub data CommandType : Type 0 where
  stop cleanup : CommandType

pub data CommandStatus : Type 0 where
  pending claimed skipped succeeded failed : CommandStatus

pub record DeploymentCommand : Type 0 where
  pub deployment_id : ℕ
  pub command_type : CommandType
  pub status : CommandStatus
  pub active_key : Option String
  pub message : Option String
  pub last_error : Option String
  pub claimed_by : Option String
  pub claimed_at : Option Timestamp
  pub origin_request_id : Option String
  pub requested_at : Timestamp
  pub completed_at : Option Timestamp

pub record Db : Type 0 where
  pub projects : Table Project
  pub builds : Table Build
  pub deployments : Table PlatformDeployment
  pub events : List DeploymentEvent
  pub commands : Table DeploymentCommand
