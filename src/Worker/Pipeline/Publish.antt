-- ===== src/Worker/Pipeline/Publish.antt =====
-- worker/processing/pipeline.py: the stages that make and publish the image.
use autodeploy_platform.Prelude.{
  ℕ, String, true, Option, none, some, [], ◌∷◌, truthy, fstring, if◌then◌else◌,
}
use autodeploy_platform.Json.{bool, str, Dict, get?, merge, dict, opt_str, json_truthy?}
use autodeploy_platform.Models.DeploymentStatus.{DeploymentStatus, status_text}
use autodeploy_platform.Models.BuildStatus.{BuildStatus}
use autodeploy_platform.Models.Rows.{Build}
use autodeploy_platform.Session.{
  Environment, Action, pure, lift, ◌>>=◌, ◌>>◌, now_utc, commit, when, the_deployment, the_build,
  update_build,
}
use autodeploy_platform.Worker.Events.{record_event}
use autodeploy_platform.Worker.Claims.{ensure_claim_owned}
use autodeploy_platform.Worker.Executor.{ExecutionResult, Executor}
use autodeploy_platform.Worker.Lifecycle.{
  push_event_metadata, apply_execution_result, transition_build, begin_step, commit_step_result,
}

-- Assignments to attributes of `deployment.build`.
unfoldable pub update_build_of : ℕ → (Build → Build) → Action (Unit {0})
update_build_of id f = do d ← the_deployment id; the_build d.build_id; update_build d.build_id f

-- `metadata | {"log_path": ..., "summary": ...}`
unfoldable pub logged : ExecutionResult → Dict
logged result =
    merge result.metadata
      (dict (("log_path", opt_str result.log_path) ∷ ("summary", str result.message) ∷ []))

module _ (env : Environment) (executor : Executor) where
  -- An executor's call, after which the claim is checked and the result is applied.
  unfoldable pub run_step : ℕ → (ℕ → Action ExecutionResult) → Action ExecutionResult
  run_step id call = do
    result ← call id
    ensure_claim_owned env id none
    apply_execution_result env id result
    pure result

  -- `commit_step_result` with `status=deployment.status`.
  unfoldable pub commit_current :
      ℕ → (event_type : String) → ExecutionResult → (step : String) → Dict → Action (Unit {0})
  commit_current id event_type result step metadata = do
    d ← the_deployment id
    commit_step_result env id event_type (status_text d.status) result.message step metadata
        result.events

  unfoldable pub clone_stage : ℕ → Action (Unit {0})
  clone_stage id = do
    begin_step env id DeploymentStatus.cloning "repository.clone_started"
        "Worker started cloning repository"
    result ← run_step id executor.clone_repo
    commit_current id "repository.clone_succeeded" result "repository.clone" (logged result)

  unfoldable pub build_stage : ℕ → Action (Unit {0})
  build_stage id = do
    begin_step env id DeploymentStatus.building "image.build_started"
        "Worker started building image"
    result ← executor.build_image id
    ensure_claim_owned env id none
    update_build_of id (λ b. record b { build_log_path = result.log_path })
    apply_execution_result env id result
    commit_current id "image.build_succeeded" result "image.build" (
        merge result.metadata (
          dict (
            ("log_path", opt_str result.log_path)
            ∷ ("workspace_path", opt_str result.workspace_path)
            ∷ ("image_tag", opt_str result.image_tag)
            ∷ ("image_ref", opt_str result.image_ref)
            ∷ ("summary", str result.message)
            ∷ [])))

  unfoldable pub run_tests_stage : ℕ → String → Action (Unit {0})
  run_tests_stage id command = do
    begin_step env id DeploymentStatus.testing "tests.started"
        (fstring ("Worker started tests with '" ∷ command ∷ "'" ∷ []))
    result ← run_step id executor.run_tests
    commit_step_result env id "tests.succeeded" "testing" result.message "tests" (logged result)
        result.events

  unfoldable pub run_tests_if : ℕ → Option String → Action (Unit {0})
  run_tests_if id none = pure tt
  run_tests_if id (some command) = when (truthy command) (run_tests_stage id command)

  -- A deployment without a test command skips this state.
  unfoldable pub test_stage : ℕ → Action (Unit {0})
  test_stage id = do d ← the_deployment id; b ← the_build d.build_id; run_tests_if id b.test_command

  unfoldable pub tag_stage : ℕ → Action (Unit {0})
  tag_stage id = do
    begin_step env id DeploymentStatus.pushing_image "image.push_started"
        "Worker started pushing image"
    d ← the_deployment id
    record_event env id "image.tag_started" (status_text d.status)
        (some "Worker started tagging image for registry push") (some "image.tag") "info" (dict [])
    commit
    result ← run_step id executor.tag_image
    commit_current id "image.tag_succeeded" result "image.tag" (
        merge result.metadata (
          dict (
            ("log_path", opt_str result.log_path)
            ∷ ("image_tag", opt_str result.image_tag)
            ∷ ("image_ref", opt_str result.image_ref)
            ∷ ("summary", str result.message)
            ∷ [])))

  unfoldable pub push_status : Dict → String
  push_status metadata = if json_truthy? (get? "skipped" metadata) then "skipped" else "succeeded"

  unfoldable pub push_stage : ℕ → Action (Unit {0})
  push_stage id = do
    result ← run_step id executor.push_image
    update_build_of id (λ b. record b { registry_push_status = some (push_status result.metadata) })
    d ← the_deployment id
    transition_build d.build_id BuildStatus.succeeded
    now ← now_utc env
    update_build d.build_id (λ b. record b { finished_at = some now })
    metadata ← lift (push_event_metadata env result.metadata result.log_path result.message true)
    commit_step_result env id "image.push_succeeded" "succeeded" result.message "image.push"
        (merge metadata
          (dict (("log_path", opt_str result.log_path) ∷ ("summary", str result.message) ∷ [])))
        result.events

  unfoldable pub verify_stage : ℕ → Action (Unit {0})
  verify_stage id = do
    d ← the_deployment id
    b ← the_build d.build_id
    record_event env id "image.verify_started" (status_text d.status)
        (some "Worker started verifying registry image") (some "image.verify") "info"
        (dict (("image_ref", opt_str b.image_ref) ∷ []))
    commit
    result ← run_step id executor.verify_image
    commit_current id "image.verify_succeeded" result "image.verify" (
        merge result.metadata (
          dict (
            ("log_path", opt_str result.log_path)
            ∷ ("step", str "image.verify")
            ∷ ("image_tag", opt_str result.image_tag)
            ∷ ("image_ref", opt_str result.image_ref)
            ∷ ("summary", str result.message)
            ∷ ("skipped", bool (json_truthy? (get? "skipped" result.metadata)))
            ∷ [])))
