-- ===== src/RuntimeMetadata/Reading.antt =====
-- control_plane/deployment_runtime_metadata.py: reading the runtime identity back, also of rows that
-- are older than its columns.
pub mod Frozen
use autodeploy_platform.Prelude.{
  String, Bool, false, Option, none, some, List, [], ◌∷◌, text_eq, truthy?, if◌then◌else◌,
}
use autodeploy_platform.Json.{Json, str, obj, get?}
use autodeploy_platform.Models.Rows.{PlatformDeployment, DeploymentEvent}
use autodeploy_platform.RuntimeMetadata.{nonempty_string, valid_mode}

-- `a or b` on what `_nonempty_string` returns
abbrev pub or_first : Option String → Option String → Option String
or_first none b = b
or_first (some a) b = some a

-- `_nonempty_string` of any value
abbrev text_value : Option Json → Option String
text_value (some (str s)) = nonempty_string (some s)
text_value _ = none

abbrev in_metadata : String → Option Json → Option String
in_metadata key (some (obj d)) = text_value (get? key d)
in_metadata key _ = none

-- The earliest event that has a value at the key.
unfoldable pub in_events : String → List DeploymentEvent → Option String
unfolding nonempty_string get?
in_events key [] = none
in_events key (event ∷ events) =
    or_first (in_metadata key (some event.metadata_json)) (in_events key events)

abbrev targets_kubernetes : Option String → Bool
targets_kubernetes none = false
targets_kubernetes (some target) = text_eq target "kubernetes"

-- `events` are those of the deployment, in the order of their ids.
module _ (events : List DeploymentEvent) (d : PlatformDeployment) where
  unfoldable pub historical_metadata_value : String → Option String
  unfolding nonempty_string get? in_events
  historical_metadata_value key =
      or_first (in_metadata key d.preflight_metadata_json) (in_events key events)

  unfoldable pub kubernetes_deployment_mode : Option String
  unfolding nonempty_string historical_metadata_value
  kubernetes_deployment_mode =
      let persisted = nonempty_string d.kubernetes_deployment_mode in
      let historical = historical_metadata_value "deployment_mode" in
      if valid_mode persisted
      then persisted
      else if truthy? d.helm_release_name
      then some "helm"
      else if valid_mode historical
      then historical
      else if targets_kubernetes d.deploy_target
      then some "manifest"
      else none

  unfoldable pub kubernetes_namespace : Option String
  unfolding nonempty_string historical_metadata_value
  kubernetes_namespace =
      or_first (nonempty_string d.kubernetes_namespace)
        (or_first (nonempty_string d.helm_namespace) (historical_metadata_value "namespace"))

  unfoldable pub kubernetes_deployment_name : Option String
  unfolding nonempty_string historical_metadata_value
  kubernetes_deployment_name =
      or_first (nonempty_string d.kubernetes_deployment_name)
        (historical_metadata_value "deployment_name")

  unfoldable pub kubernetes_service_name : Option String
  unfolding nonempty_string historical_metadata_value
  kubernetes_service_name =
      or_first (nonempty_string d.kubernetes_service_name)
        (historical_metadata_value "service_name")

  unfoldable pub kubernetes_ingress_name : Option String
  unfolding nonempty_string historical_metadata_value
  kubernetes_ingress_name =
      or_first (nonempty_string d.kubernetes_ingress_name)
        (historical_metadata_value "ingress_name")
