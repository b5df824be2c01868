-- ===== src/Fencing/Stages.antt =====
-- The stages of worker/processing/pipeline.py that call the executor, where the claim is lost while
-- the executor works.
use autodeploy_platform.Prelude.{ℕ, String, ◌≡◌, subst, sym, Option, none, some, [], ◌∷◌, fstring}
use autodeploy_platform.Json.{dict, opt_str}
use autodeploy_platform.Models.DeploymentStatus
use autodeploy_platform.Models.DeploymentStatus.{status_text}
use autodeploy_platform.Session.{
  Environment, World, Fault, ClaimLostError, claim_lost, Outcome, ok, raised, Action, pure, resume,
  ◌>>=◌, ◌>>◌, commit, the_deployment, the_build,
}
use autodeploy_platform.Worker.Claims.{expected, ensure_claim_owned}
use autodeploy_platform.Worker.Claims.Ownership.{ensure_claim_owned_loses}
use autodeploy_platform.Worker.Events.{record_event}
use autodeploy_platform.Worker.Executor.{ExecutionResult, PreflightResult, Executor}
use autodeploy_platform.Worker.Lifecycle.{begin_step}
use autodeploy_platform.Worker.Pipeline.Publish.{
  run_step, clone_stage, build_stage, run_tests_stage, tag_stage, push_stage, verify_stage,
}
use autodeploy_platform.Worker.Pipeline.Release.{run_preflight, deploy_stage}
use autodeploy_platform.Fencing.{bind-raised, IsOthers}

-- The stages that call the executor. The preflight is a method that not every executor has.
pub data Stage : Type 0 where
  clone build tag push verify deploy : Stage
  tests : (command : String) → Stage
  preflight : (call : ℕ → Action (Option PreflightResult)) → Stage

module _ {ℓ κ} {A : Type ℓ} {B : Type κ} where
  resume-peel :
      (o : Outcome A) (v : World) (f : A → Action (Unit {0})) (g : A → Action B) (w : World)
      (r : Outcome B × World)
      → resume f o v ≡ (ok tt, w)
      → ((a : A) (u : World) → f a u ≡ (ok tt, w) → g a u ≡ r)
      → resume g o v ≡ r
  resume-peel (ok a) v f g w r h k = k a v h
  resume-peel (raised e) v f g w r h k = cc

  -- What holds of the rest of an action holds of the whole, where the first part returns.
  peel :
      (m : Action A) (f : A → Action (Unit {0})) (g : A → Action B) (v w : World)
      (r : Outcome B × World)
      → (m >>= f) v ≡ (ok tt, w)
      → ((a : A) (u : World) → f a u ≡ (ok tt, w) → g a u ≡ r)
      → (m >>= g) v ≡ r
  unfolding ◌>>=◌
  peel m f g v w r h k = resume-peel (m v).0 (m v).1 f g w r h k

abbrev pub forget : {A : Type 0} → A → Action (Unit {0})
forget _ = pure tt

-- The loss of the claim is raised for the deployment and the worker, in the session that the
-- executor has left.
pub record Dropped (m : Action (Unit {0})) (id : ℕ) (worker : String) (start left : World)
    : Type 0 where
  pub error : ClaimLostError
  pub deployment : error.deployment_id ≡ id
  pub worker_named : error.worker_id ≡ worker
  pub nothing_kept : m start ≡ (raised (claim_lost error), left)

module _ (env : Environment) (executor : Executor) (id : ℕ) where
  abbrev pub run_stage : Stage → Action (Unit {0})
  run_stage Stage.clone = clone_stage env executor id
  run_stage Stage.build = build_stage env executor id
  run_stage (Stage.tests command) = run_tests_stage env executor id command
  run_stage Stage.tag = tag_stage env executor id
  run_stage Stage.push = push_stage env executor id
  run_stage Stage.verify = verify_stage env executor id
  run_stage (Stage.preflight call) = run_preflight env executor id (some call)
  run_stage Stage.deploy = deploy_stage env executor id

  -- The stage up to the point where the executor's method has returned.
  abbrev pub until_returned : Stage → Action (Unit {0})
  until_returned Stage.clone = do
    begin_step env id DeploymentStatus.cloning "repository.clone_started"
        "Worker started cloning repository"
    executor.clone_repo id
    pure tt
  until_returned Stage.build = do
    begin_step env id DeploymentStatus.building "image.build_started"
        "Worker started building image"
    executor.build_image id
    pure tt
  until_returned (Stage.tests command) = do
    begin_step env id DeploymentStatus.testing "tests.started"
        (fstring ("Worker started tests with '" ∷ command ∷ "'" ∷ []))
    executor.run_tests id
    pure tt
  until_returned Stage.tag = do
    begin_step env id DeploymentStatus.pushing_image "image.push_started"
        "Worker started pushing image"
    d ← the_deployment id
    record_event env id "image.tag_started" (status_text d.status)
        (some "Worker started tagging image for registry push") (some "image.tag") "info" (dict [])
    commit
    executor.tag_image id
    pure tt
  until_returned Stage.push = do executor.push_image id; pure tt
  until_returned Stage.verify = do
    d ← the_deployment id
    b ← the_build d.build_id
    record_event env id "image.verify_started" (status_text d.status)
        (some "Worker started verifying registry image") (some "image.verify") "info"
        (dict (("image_ref", opt_str b.image_ref) ∷ []))
    commit
    executor.verify_image id
    pure tt
  until_returned (Stage.preflight call) = do call id; pure tt
  until_returned Stage.deploy = do executor.deploy id; pure tt

  module _ (w : World) (e : Fault) (lost : ensure_claim_owned env id none w ≡ (raised e, w)) where
    -- A method's call, and the check of the claim before anything else.
    checked :
        {A B : Type 0} (call : Action A) (f : A → Action B) (v : World)
        → (call >>= forget) v ≡ (ok tt, w)
        → (call >>= λ a. ensure_claim_owned env id none >> f a) v ≡ (raised e, w)
    unfolding pure
    checked call f v h =
        peel call forget _ v w (raised e, w) h
          (λ a u returned.
            let same : u ≡ w = cc in
            subst (λ x. (ensure_claim_owned env id none >> f a) x ≡ (raised e, w)) (sym same)
              (bind-raised _ (λ _. f a) w w e lost))

    run_step-raises :
        {B : Type 0} (call : ℕ → Action ExecutionResult) (f : ExecutionResult → Action B)
        (v : World)
        → (call id >>= forget) v ≡ (ok tt, w)
        → (run_step env executor id call >>= f) v ≡ (raised e, w)
    unfolding run_step
    run_step-raises call f v h = bind-raised _ f v w e (checked (call id) _ v h)

    run_stage-raises :
        (stage : Stage) (start : World)
        → until_returned stage start ≡ (ok tt, w)
        → run_stage stage start ≡ (raised e, w)
    unfolding clone_stage build_stage run_tests_stage tag_stage push_stage verify_stage
        run_preflight deploy_stage
    run_stage-raises Stage.clone start h =
        peel _ _ _ start w _ h (λ a v. run_step-raises executor.clone_repo _ v)
    run_stage-raises Stage.build start h =
        peel _ _ _ start w _ h (λ a v. checked (executor.build_image id) _ v)
    run_stage-raises (Stage.tests command) start h =
        peel _ _ _ start w _ h (λ a v. run_step-raises executor.run_tests _ v)
    run_stage-raises Stage.tag start h = peel _ _ _ start w _ h (λ a v begun.
        peel _ _ _ v w _ begun (λ d v read.
          peel _ _ _ v w _ read
            (λ a v told. peel _ _ _ v w _ told (λ a v. run_step-raises executor.tag_image _ v))))
    run_stage-raises Stage.push start h = run_step-raises executor.push_image _ start h
    run_stage-raises Stage.verify start h = peel _ _ _ start w _ h (λ d v read.
        peel _ _ _ v w _ read (λ b v read.
          peel _ _ _ v w _ read
            (λ a v told. peel _ _ _ v w _ told (λ a v. run_step-raises executor.verify_image _ v))))
    run_stage-raises (Stage.preflight call) start h = checked (call id) _ start h
    run_stage-raises Stage.deploy start h = run_step-raises executor.deploy _ start h

  -- Where a stage of the pipeline has called its method of the executor, the method has returned, and
  -- it has left a session in which the worker no longer holds the claim, the stage raises the loss of
  -- the claim, naming the deployment and the worker, and leaves the session as the method left it:
  -- nothing of the result is written. This holds of cloning, building, testing, tagging, pushing,
  -- verifying, the preflight and the deployment.
  pub run_stage-drops_result :
      (stage : Stage) (start w : World)
      → until_returned stage start ≡ (ok tt, w)
      → IsOthers w id (expected env none)
      → Dropped (run_stage stage) id (expected env none) start w
  run_stage-drops_result stage start w returned others =
      let (error, deployment, named, h) = ensure_claim_owned_loses env id none w others in
      record {
        error = error;
        deployment = deployment;
        worker_named = named;
        nothing_kept = run_stage-raises w (claim_lost error) h stage start returned;
      }
