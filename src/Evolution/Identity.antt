-- ===== src/Evolution/Identity.antt =====
-- control_plane/deployment_runtime_metadata.py and the permitted change of a deployment.
use autodeploy_platform.Prelude.{
  String, ◌≡◌, refl, inl, inr, ◌&&◌, not, Option, none, some, Bool-cases, arith,
}
use autodeploy_platform.Json.{Json, Dict, get?}
use autodeploy_platform.RuntimeMetadata.{
  ResourceIdentity, freeze, freeze_json, is_helm, truthy_json, persist_kubernetes_runtime_identity,
  persist_helm_runtime_metadata,
}
use autodeploy_platform.Models.Rows.{PlatformDeployment}
use autodeploy_platform.Models.Lifecycle.{Reaches}
use autodeploy_platform.Session.{ok}
use autodeploy_platform.Evolution.Rows.{Evolves, Evolves-refl, IsFilled}

freeze_filled : (old new : Option String) → IsFilled old → old ≡ freeze old new
freeze_filled old new e = ground arith

freeze_json_filled :
    (str_of : Json → String) (v : Option Json) (old : Option String)
    → IsFilled old
    → old ≡ freeze_json str_of v old
freeze_json_filled str_of none old e = refl
freeze_json_filled str_of (some v) old e = ground arith

pub persist_helm_runtime_metadata-Evolves :
    (str_of : Json → String) (d : PlatformDeployment) (metadata : Dict)
    → Evolves d (persist_helm_runtime_metadata str_of d metadata)
unfolding persist_helm_runtime_metadata
persist_helm_runtime_metadata-Evolves str_of d metadata =
    elim (Bool-cases (
      not (is_helm (get? "deployment_mode" metadata))
      && not (truthy_json (get? "helm_release_name" metadata)))) [
        | inl skip ↦ rw skip (Evolves-refl d)
        | inr helm ↦ rw helm (record {
          reaches = Reaches.here;
          same_identity = refl;
          started_once = λ t e. e;
          paired = λ e. e;
          frozen_mode = λ e. freeze_filled _ _ e;
          frozen_namespace = λ e. freeze_json_filled str_of (get? "namespace" metadata) _ e;
        })
      ]

-- Where `persist_kubernetes_runtime_identity` accepts an identity, a deployment mode and a namespace
-- that were not blank stay as they were.
pub persist_kubernetes_runtime_identity_frozen :
    (d : PlatformDeployment) (mode namespace : Option String) (names : ResourceIdentity)
    (d' : PlatformDeployment)
    → persist_kubernetes_runtime_identity d mode namespace names ≡ ok d'
    → (IsFilled d.kubernetes_deployment_mode
        → d.kubernetes_deployment_mode ≡ d'.kubernetes_deployment_mode)
      × (IsFilled d.kubernetes_namespace → d.kubernetes_namespace ≡ d'.kubernetes_namespace)
unfolding persist_kubernetes_runtime_identity
persist_kubernetes_runtime_identity_frozen d mode namespace names d' h =
    (λ e. ground arith, λ e. ground arith)
