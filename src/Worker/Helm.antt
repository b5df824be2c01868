-- ===== src/Worker/Helm.antt =====
-- worker/helm/ownership.py: which deployment attempt owns a Helm release that attempts share.
use autodeploy_platform.Prelude.{
  ℕ, String, Bool, false, ◌&&◌, ◌||◌, Option, none, some, List, [], ◌∷◌, Table, text_eq, truthy?,
  ltb, ◌==◌, if◌then◌else◌,
}
use autodeploy_platform.Json.{Json, obj, get?, json_truthy?}
use autodeploy_platform.Models.Rows.{PlatformDeployment, DeploymentEvent}
use autodeploy_platform.RuntimeMetadata.Reading.{kubernetes_deployment_mode}
use autodeploy_platform.Session.{Action, pure, ◌>>=◌, ◌>>◌, view, commit, the_deployment}

-- `deployment.events`, in the order of their ids.
unfoldable pub events_of : ℕ → List DeploymentEvent → List DeploymentEvent
events_of id [] = []
events_of id (event ∷ events) =
    let rest = events_of id events in if event.deployment_id == id then event ∷ rest else rest

abbrev is_text : String → Option String → Bool
is_text text none = false
is_text text (some s) = text_eq s text

-- `isinstance(metadata, dict) and metadata.get("helm_release_name")`
abbrev names_release : Json → Bool
names_release (obj metadata) = json_truthy? (get? "helm_release_name" metadata)
names_release _ = false

unfoldable pub any_names_release : List DeploymentEvent → Bool
unfolding get? json_truthy?
any_names_release [] = false
any_names_release (event ∷ events) = names_release event.metadata_json || any_names_release events

unfoldable pub deployment_has_helm_release_metadata :
    List DeploymentEvent → PlatformDeployment → Bool
unfolding any_names_release kubernetes_deployment_mode
deployment_has_helm_release_metadata events d =
    is_text "helm" (kubernetes_deployment_mode events d)
    || truthy? d.helm_release_name
    || any_names_release events

abbrev least : ℕ → Option ℕ → Option ℕ
least k none = some k
least k (some j) = if ltb j k then some j else some k

-- The smallest id that is greater, of the project's deployments to the environment.
unfoldable pub next_attempt : ℕ → ℕ → String → Table PlatformDeployment → Option ℕ
next_attempt id project_id environment [] = none
next_attempt id project_id environment ((k, d) ∷ t) =
    let rest = next_attempt id project_id environment t in
    if ltb id k && d.project_id == project_id && text_eq d.environment environment
    then least k rest
    else rest

unfoldable pub newer_helm_workload_owner_id : ℕ → Action (Option ℕ)
newer_helm_workload_owner_id id = do
  d ← the_deployment id
  commit
  db ← view
  pure (next_attempt id d.project_id d.environment db.deployments)
