-- ===== src/Worker/Contracts.antt =====
-- The contracts of the executors (worker/execution/contracts.py, worker/executors) and the choice of
-- one by its name (worker/execution/factory.py).
use autodeploy_platform.Prelude.{
  String, Bool, true, false, Option, none, some, List, [], ◌∷◌, text_eq, or_text, strip, lower,
  if◌then◌else◌,
}

pub record ExecutorContract : Type 0 where
  pub name : String
  pub deploy_target : String
  pub runtime : String
  pub healthcheck_strategy : String
  pub requires_registry_push : Bool
  pub supports_runtime_logs : Bool
  pub supports_runtime_reconciliation : Bool
  pub managed_resources : List String
  pub required_config : List String
  pub optional_config : List String

abbrev pub fake_contract : ExecutorContract
fake_contract = record {
  name = "fake";
  deploy_target = "fake";
  runtime = "simulated";
  healthcheck_strategy = "simulated";
  requires_registry_push = false;
  supports_runtime_logs = false;
  supports_runtime_reconciliation = false;
  managed_resources = [];
  required_config = [];
  optional_config = [];
}

abbrev pub local_docker_contract : ExecutorContract
local_docker_contract = record {
  name = "local-docker";
  deploy_target = "local-docker";
  runtime = "container";
  healthcheck_strategy = "direct-http";
  requires_registry_push = false;
  supports_runtime_logs = true;
  supports_runtime_reconciliation = true;
  managed_resources = "docker-image" ∷ "docker-container" ∷ [];
  required_config = [];
  optional_config =
      "CONTROL_PLANE_REGISTRY_ENABLED" ∷ "CONTROL_PLANE_REGISTRY_URL"
      ∷ "CONTROL_PLANE_REGISTRY_NAMESPACE" ∷ "CONTROL_PLANE_REGISTRY_USERNAME"
      ∷ "CONTROL_PLANE_REGISTRY_PASSWORD" ∷ "CONTROL_PLANE_DEPLOY_HOST"
      ∷ "CONTROL_PLANE_HEALTHCHECK_TIMEOUT_SECONDS" ∷ "CONTROL_PLANE_HEALTHCHECK_INTERVAL_SECONDS"
      ∷ "CONTROL_PLANE_CLAIM_REFRESH_INTERVAL_SECONDS" ∷ [];
}

abbrev pub kubernetes_contract : ExecutorContract
kubernetes_contract = record {
  name = "kubernetes";
  deploy_target = "kubernetes";
  runtime = "kubernetes";
  healthcheck_strategy = "service-port-forward";
  requires_registry_push = true;
  supports_runtime_logs = true;
  supports_runtime_reconciliation = true;
  managed_resources =
      "docker-image" ∷ "kubernetes-deployment" ∷ "kubernetes-service" ∷ "kubernetes-ingress" ∷ [];
  required_config =
      "CONTROL_PLANE_REGISTRY_ENABLED=true" ∷ "CONTROL_PLANE_REGISTRY_URL"
      ∷ "CONTROL_PLANE_REGISTRY_NAMESPACE" ∷ "CONTROL_PLANE_KUBECONFIG" ∷ [];
  optional_config =
      "CONTROL_PLANE_K8S_NAMESPACE" ∷ "CONTROL_PLANE_K8S_IMAGE_PULL_SECRET"
      ∷ "CONTROL_PLANE_K8S_DEPLOYMENT_MODE" ∷ "CONTROL_PLANE_K8S_HELM_CHART_PATH"
      ∷ "CONTROL_PLANE_K8S_HELM_BINARY" ∷ "CONTROL_PLANE_K8S_HELM_TIMEOUT"
      ∷ "CONTROL_PLANE_K8S_INGRESS_ENABLED" ∷ "CONTROL_PLANE_K8S_INGRESS_CLASS_NAME"
      ∷ "CONTROL_PLANE_K8S_INGRESS_BASE_DOMAIN" ∷ "CONTROL_PLANE_REGISTRY_USERNAME"
      ∷ "CONTROL_PLANE_REGISTRY_PASSWORD" ∷ "CONTROL_PLANE_HEALTHCHECK_TIMEOUT_SECONDS"
      ∷ "CONTROL_PLANE_HEALTHCHECK_INTERVAL_SECONDS"
      ∷ "CONTROL_PLANE_CLAIM_REFRESH_INTERVAL_SECONDS" ∷ [];
}

unfoldable pub contract_named : String → Option ExecutorContract
contract_named normalized =
    if text_eq normalized "fake"
    then some fake_contract
    else (if text_eq normalized "local-docker"
        then some local_docker_contract
        else (if text_eq normalized "kubernetes" then some kubernetes_contract else none))

-- `none` where it raises RuntimeError.
unfoldable pub executor_contract_for_name : Option String → Option ExecutorContract
executor_contract_for_name executor_name =
    contract_named (lower (strip (or_text executor_name "fake")))
