-- ===== src/Worker/Events.antt =====
-- worker/processing/events.py: events are written with the deployment's secret values taken out.
use autodeploy_platform.Prelude.{
  ℕ, String, Option, none, some, List, [], ◌∷◌, truthy, or_else, if◌then◌else◌,
}
use autodeploy_platform.Json.{
  Json, null, bool, num, str, arr, obj, Items, nil, Dict, end, set_default,
}
use autodeploy_platform.Security.{redact_text?, redact_sensitive_data, secret_values_from_env_vars}
use autodeploy_platform.DeploymentSpec.{project_for_deployment, env_vars}
use autodeploy_platform.Models.Rows.{PlatformDeployment}
use autodeploy_platform.Session.{
  Environment, AuxiliaryEvent, Action, other, pure, raise, ◌>>=◌, ◌>>◌, view, found, the_deployment,
  add_event,
}

-- `for item in env_vars or []`: the items of a list, and none of them a mapping in a text or a
-- dictionary. A number cannot be iterated.
unfoldable pub iterate : Json → Action Items
iterate null = pure nil
iterate (bool b) = if b then raise (other "TypeError") else pure nil
iterate (num n) = raise (other "TypeError")
iterate (str s) = pure nil
iterate (arr vs) = pure vs
iterate (obj d) = pure nil

abbrev pub with_origin : Option String → Dict → Dict
with_origin none metadata = metadata
with_origin (some id) metadata =
    if truthy id then set_default "origin_request_id" (str id) metadata else metadata

module _ (env : Environment) where
  unfoldable pub deployment_secret_values : PlatformDeployment → Action (List String)
  deployment_secret_values d = do
    db ← view
    project ← found "AttributeError" (project_for_deployment db.projects d)
    value ← found "AttributeError" (env_vars project)
    vs ← iterate value
    pure (secret_values_from_env_vars env.str_of vs)

  unfoldable pub record_event :
      ℕ
      → (event_type status : String) → (message step : Option String) → (level : String)
      → (metadata : Dict) → Action (Unit {0})
  record_event id event_type status message step level metadata = do
    d ← the_deployment id
    secret_values ← deployment_secret_values d
    add_event (record {
      deployment_id = id;
      event_type = event_type;
      step = step;
      level = level;
      status = status;
      message = redact_text? secret_values message;
      metadata_json =
          redact_sensitive_data secret_values (obj (with_origin d.origin_request_id metadata));
    })

  unfoldable pub record_auxiliary_events : ℕ → List AuxiliaryEvent → Action (Unit {0})
  record_auxiliary_events id [] = pure tt
  record_auxiliary_events id (event ∷ events) = do
    record_event id event.event_type event.status event.message event.step
        (or_else event.level "info") (or_else event.metadata_json end)
    record_auxiliary_events id events
