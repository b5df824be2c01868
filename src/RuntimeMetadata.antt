-- ===== src/RuntimeMetadata.antt =====
-- control_plane/deployment_runtime_metadata.py: the runtime identity that is frozen in a deployment.
pub mod Reading
use autodeploy_platform.Prelude.{
  String, Bool, false, ◌&&◌, not, Option, none, some, List, [], ◌∷◌, text_eq, truthy, strip,
  mem_text, is_some, if◌then◌else◌,
}
use autodeploy_platform.Json.{Json, str, Dict, get?, json_truthy}
use autodeploy_platform.Models.Rows.{PlatformDeployment}
use autodeploy_platform.Session.{Outcome, ok, raised, other}

abbrev valid_kubernetes_deployment_modes : List String
valid_kubernetes_deployment_modes = "manifest" ∷ "helm" ∷ []

-- `_nonempty_string`, on a text or None.
unfoldable pub nonempty_string : Option String → Option String
unfolding strip
nonempty_string none = none
nonempty_string (some s) = if truthy (strip s) then some (strip s) else none

-- A column that is set only while it is empty.
abbrev pub freeze : Option String → Option String → Option String
freeze old new = if is_some (nonempty_string old) then old else new

abbrev freeze_given : Option String → Option String → Option String
freeze_given old new =
    if is_some (nonempty_string new) then freeze old (nonempty_string new) else old

abbrev pub valid_mode : Option String → Bool
valid_mode none = false
valid_mode (some mode) = mem_text mode valid_kubernetes_deployment_modes

pub record ResourceIdentity : Type 0 where
  pub deployment_name : Option String
  pub service_name : Option String
  pub ingress_name : Option String

abbrev pub no_identity : ResourceIdentity
no_identity = record { deployment_name = none; service_name = none; ingress_name = none }

unfoldable pub persist_kubernetes_runtime_identity :
    PlatformDeployment
    → (deployment_mode namespace : Option String) → ResourceIdentity
    → Outcome PlatformDeployment
unfolding nonempty_string mem_text
persist_kubernetes_runtime_identity d deployment_mode namespace names =
    if not (valid_mode (nonempty_string deployment_mode))
    then raised (other "ValueError")
    else if not (is_some (nonempty_string namespace))
    then raised (other "ValueError")
    else ok (record d {
      kubernetes_deployment_mode =
          freeze d.kubernetes_deployment_mode (nonempty_string deployment_mode);
      kubernetes_namespace = freeze d.kubernetes_namespace (nonempty_string namespace);
      kubernetes_deployment_name = freeze_given d.kubernetes_deployment_name names.deployment_name;
      kubernetes_service_name = freeze_given d.kubernetes_service_name names.service_name;
      kubernetes_ingress_name = freeze_given d.kubernetes_ingress_name names.ingress_name;
    })

-- `metadata.get(key) == "helm"`
abbrev pub is_helm : Option Json → Bool
is_helm (some (str s)) = text_eq s "helm"
is_helm _ = false

abbrev pub truthy_json : Option Json → Bool
truthy_json none = false
truthy_json (some v) = json_truthy v

module _ (str_of : Json → String) where
  abbrev pub text_of : Json → String
  text_of (str s) = s
  text_of v = str_of v

  -- The new value of a column, where the metadata has a value that counts.
  abbrev overwrite : Option Json → Option String → Option String
  overwrite none old = old
  overwrite (some v) old = if json_truthy v then some (text_of v) else old

  abbrev pub freeze_json : Option Json → Option String → Option String
  freeze_json none old = old
  freeze_json (some v) old = if json_truthy v then freeze old (some (text_of v)) else old

  unfoldable pub persist_helm_runtime_metadata : PlatformDeployment → Dict → PlatformDeployment
  unfolding get? json_truthy nonempty_string
  persist_helm_runtime_metadata d metadata =
      if not (is_helm (get? "deployment_mode" metadata))
        && not (truthy_json (get? "helm_release_name" metadata))
      then d
      else record d {
        helm_release_name = overwrite (get? "helm_release_name" metadata) d.helm_release_name;
        helm_namespace = overwrite (get? "namespace" metadata) d.helm_namespace;
        kubernetes_namespace = freeze_json (get? "namespace" metadata) d.kubernetes_namespace;
        helm_chart_path = overwrite (get? "chart_path" metadata) d.helm_chart_path;
        kubernetes_deployment_mode = freeze d.kubernetes_deployment_mode (some "helm");
      }
