-- ===== src/Worker/Lifecycle/Status.antt =====
-- The transitions of a deployment with its build, the steps of the pipeline, and failure.
use autodeploy_platform.Prelude.{
  ℕ, String, false, ◌&&◌, not, Option, none, some, List, [], ◌∷◌, text_eq, is_some, fstring,
  if◌then◌else◌,
}
use autodeploy_platform.Json.{str, Dict, end, merge, dict, opt_str}
use autodeploy_platform.Security.{redact_text, redact_dict}
use autodeploy_platform.Models.DeploymentStatus
use autodeploy_platform.Models.DeploymentStatus.{DeploymentStatus, ◌is◌, status_text}
use autodeploy_platform.Models.BuildStatus
use autodeploy_platform.Models.BuildStatus.{BuildStatus}
use autodeploy_platform.Session.{
  Environment, AuxiliaryEvent, other, Action, pure, raise, lift, ◌>>=◌, ◌>>◌, now_utc, commit, when,
  the_deployment, the_build, update_deployment, update_build,
}
use autodeploy_platform.Worker.Events.{
  deployment_secret_values, record_event, record_auxiliary_events,
}
use autodeploy_platform.Worker.Claims.{
  write_claim_event, release_deployment_claim, ensure_claim_owned, refresh_claim,
}
use autodeploy_platform.Worker.Lifecycle.Push.{push_event_metadata}

-- PlatformDeployment.transition_to
unfoldable pub transition_deployment : ℕ → DeploymentStatus → Action (Unit {0})
transition_deployment id next_status = do
  d ← the_deployment id
  if DeploymentStatus.can_transition_to d.status next_status
      then update_deployment id (λ r. record r { status = next_status })
      else raise (other "ValueError")

-- Build.transition_to
unfoldable pub transition_build : ℕ → BuildStatus → Action (Unit {0})
transition_build build_id next_status = do
  b ← the_build build_id
  if BuildStatus.can_transition_to b.status next_status
      then update_build build_id (λ r. record r { status = next_status })
      else raise (other "ValueError")

-- BUILD_STATUS_BY_DEPLOYMENT_STATUS
unfoldable pub build_status_by_deployment_status : DeploymentStatus → Option BuildStatus
build_status_by_deployment_status DeploymentStatus.cloning = some BuildStatus.cloning
build_status_by_deployment_status DeploymentStatus.building = some BuildStatus.building
build_status_by_deployment_status DeploymentStatus.testing = some BuildStatus.testing
build_status_by_deployment_status DeploymentStatus.pushing_image = some BuildStatus.pushing_image
build_status_by_deployment_status _ = none

unfoldable pub follow : ℕ → Option BuildStatus → Action (Unit {0})
follow build_id none = pure tt
follow build_id (some status) = transition_build build_id status

module _ (env : Environment) where
  -- The first status other than pending sets `started_at`; the first build status, the build's.
  unfoldable pub start_deployment : ℕ → DeploymentStatus → Action (Unit {0})
  start_deployment id status = do
    d ← the_deployment id
    when (not (is_some d.started_at) && not (status is DeploymentStatus.pending))
        (do now ← now_utc env; update_deployment id (λ r. record r { started_at = some now }))

  unfoldable pub start_build : ℕ → DeploymentStatus → Action (Unit {0})
  start_build build_id status = do
    b ← the_build build_id
    when (not (is_some b.started_at) && is_some (build_status_by_deployment_status status))
        (do now ← now_utc env; update_build build_id (λ r. record r { started_at = some now }))

  unfoldable pub set_deployment_status :
      ℕ → DeploymentStatus → (event_type message : String) → Action (Unit {0})
  set_deployment_status id status event_type message = do
    start_deployment id status
    d ← the_deployment id
    start_build d.build_id status
    transition_deployment id status
    follow d.build_id (build_status_by_deployment_status status)
    record_event env id event_type (status_text status) (some message) (some (status_text status))
        "info" end

  -- The metadata of a failure, before anything is written.
  unfoldable pub failure_metadata : ℕ → (step message : String) → Dict → Action Dict
  failure_metadata id step message metadata =
      let described = merge (dict (("summary", str message) ∷ [])) metadata in
      if text_eq step "image.push"
      then (do
        d ← the_deployment id
        b ← the_build d.build_id
        lift (push_event_metadata env described b.log_path message false))
      else pure described

  unfoldable pub fail_rows : ℕ → ℕ → String → Action (Unit {0})
  fail_rows id build_id message = do
    transition_deployment id DeploymentStatus.failed
    now ← now_utc env
    update_deployment id (λ r. record r { finished_at = some now; last_error = some message })
    transition_build build_id BuildStatus.failed
    build_now ← now_utc env
    update_build build_id
        (λ r. record r { finished_at = some build_now; last_error = some message })

  unfoldable pub mark_failed : ℕ → (step message : String) → Dict → Action (Option ℕ)
  mark_failed id step message metadata = do
    described ← failure_metadata id step message metadata
    ensure_claim_owned env id none
    refresh_claim env id none
    d ← the_deployment id
    b ← the_build d.build_id
    secret_values ← deployment_secret_values env d
    let sanitized_message = redact_text secret_values message
    let sanitized_metadata =
        merge (dict (("log_path", opt_str b.log_path) ∷ [])) (redact_dict secret_values described)
    fail_rows id d.build_id sanitized_message
    record_event env id (fstring (step ∷ ".failed" ∷ [])) "failed" (some sanitized_message)
        (some step) "error" sanitized_metadata
    record_event env id "deployment.failed" "failed" (some sanitized_message) (some "deployment")
        "error" sanitized_metadata
    write_claim_event env id "claim_cleared" "Worker cleared deployment claim after failure" "info"
        (dict (("worker_id", str env.worker_id) ∷ []))
    release_deployment_claim env id
    commit
    pure (some id)

  unfoldable pub begin_step :
      ℕ → DeploymentStatus → (event_type message : String) → Action (Unit {0})
  begin_step id status event_type message = do
    ensure_claim_owned env id none
    refresh_claim env id none
    set_deployment_status id status event_type message
    commit

  unfoldable pub commit_step_result :
      ℕ → (event_type status message step : String) → Dict → List AuxiliaryEvent → Action (Unit {0})
  commit_step_result id event_type status message step metadata extra_events = do
    ensure_claim_owned env id none
    refresh_claim env id none
    record_auxiliary_events env id extra_events
    record_event env id event_type status (some message) (some step) "info" metadata
    commit
