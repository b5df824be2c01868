-- ===== src/Worker/Executor.antt =====
-- worker/execution/contracts.py: what an executor is to the pipeline, and what its methods return.
-- A method is an action: its heartbeats, and what other processes do meanwhile, change the session.
use autodeploy_platform.Prelude.{ℕ, String, Option, List}
use autodeploy_platform.Json.{Dict}
use autodeploy_platform.RuntimeMetadata.{ResourceIdentity}
use autodeploy_platform.Session.{AuxiliaryEvent, Action}

pub record ExecutionResult : Type 0 where
  pub message : String
  pub metadata : Dict
  pub events : List AuxiliaryEvent
  pub log_path : Option String
  pub workspace_path : Option String
  pub command_output : Option String
  pub image_tag : Option String
  pub image_ref : Option String
  pub service_url : Option String
  pub deploy_target : Option String
  pub container_name : Option String
  pub container_id : Option String
  pub host_port : Option ℕ
  pub healthcheck_url : Option String
  pub runtime_log_path : Option String

pub record PreflightResult : Type 0 where
  pub status : String
  pub summary : String
  pub metadata : Dict
  pub events : List AuxiliaryEvent
  pub log_path : Option String
  pub deploy_target : Option String

-- DeploymentExecutor. An attribute that some executors lack is optional.
pub record Executor : Type 0 where
  pub deploy_target : Option String
  pub deployment_mode : Option String
  pub namespace : Option String
  pub kubernetes_resource_identity : Option (ℕ → Action ResourceIdentity)
  pub clone_repo : ℕ → Action ExecutionResult
  pub build_image : ℕ → Action ExecutionResult
  pub run_tests : ℕ → Action ExecutionResult
  pub tag_image : ℕ → Action ExecutionResult
  pub push_image : ℕ → Action ExecutionResult
  pub verify_image : ℕ → Action ExecutionResult
  pub preflight_deploy : Option (ℕ → Action (Option PreflightResult))
  pub deploy : ℕ → Action ExecutionResult
  pub stop : ℕ → Action ExecutionResult
