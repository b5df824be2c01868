-- ===== src/Fencing.antt =====
-- The guards of worker/processing/claims.py and lifecycle.py, for a worker that has lost its claim.
pub mod Commands
pub mod Stages
use autodeploy_platform.Prelude.{ℕ, String, ◌≡◌, ◌∙◌, refl, Option, none, List, find}
use autodeploy_platform.Json.{Dict}
use autodeploy_platform.Models.DeploymentStatus.{DeploymentStatus}
use autodeploy_platform.Models.Rows.{Timestamp}
use autodeploy_platform.Session.{
  Environment, World, AuxiliaryEvent, Fault, ClaimLostError, claim_lost, ok, raised, Action, ◌>>=◌,
}
use autodeploy_platform.Worker.Claims.{expected, ensure_claim_owned, refresh_claim, claim_heartbeat}
use autodeploy_platform.Worker.Claims.Ownership.{Owns, ensure_claim_owned_loses}
use autodeploy_platform.Worker.Executor.{ExecutionResult, Executor}
use autodeploy_platform.Worker.Lifecycle.{begin_step, commit_step_result}
use autodeploy_platform.Worker.Pipeline.Publish.{run_step}

module _ {ℓ κ} {A : Type ℓ} {B : Type κ} where
  pub bind-raised :
      (m : Action A) (f : A → Action B) (w v : World) (e : Fault)
      → m w ≡ (raised e, v)
      → (m >>= f) w ≡ (raised e, v)
  unfolding ◌>>=◌
  bind-raised m f w v e h = rw h refl

-- The error that a guard raises for the deployment and the worker, with the session left as it was.
pub record Fenced {A : Type 0} (m : Action A) (id : ℕ) (worker : String) (w : World) : Type 0 where
  pub error : ClaimLostError
  pub deployment : error.deployment_id ≡ id
  pub worker_named : error.worker_id ≡ worker
  pub nothing_done : m w ≡ (raised (claim_lost error), w)

-- The worker does not hold the claim in what the session sees.
abbrev pub IsOthers : World → ℕ → String → Type 0
IsOthers w id worker = (t : Timestamp) → Owns (find id w.work.deployments) worker t → ⊥

module _ (env : Environment) (id : ℕ) (w : World) where
  guarded :
      {B : Type 0} (worker : Option String) (k : Timestamp → Action B)
      → IsOthers w id (expected env worker)
      → Fenced (ensure_claim_owned env id worker >>= k) id (expected env worker) w
  guarded worker k others =
      let (error, deployment, named, h) = ensure_claim_owned_loses env id worker w others in
      record {
        error = error;
        deployment = deployment;
        worker_named = named;
        nothing_done = bind-raised _ k w w (claim_lost error) h;
      }

  -- A worker that does not hold the claim on a deployment raises the loss of its claim, naming the
  -- deployment and itself, and changes nothing, whichever guarded operation it tries: a refresh of
  -- the claim, the heartbeat of an executor, the start of a step, or the commit of a step's result.
  pub lost_claim_fences :
      (status : DeploymentStatus) (event_type event_status message step : String) (metadata : Dict)
      (events : List AuxiliaryEvent)
      → IsOthers w id (expected env none)
      → Fenced (refresh_claim env id none) id (expected env none) w
        × Fenced (claim_heartbeat env id none) id (expected env none) w
        × Fenced (begin_step env id status event_type message) id (expected env none) w
        × Fenced
            (commit_step_result env id event_type event_status message step metadata events)
            id
            (expected env none)
            w
  unfolding claim_heartbeat begin_step commit_step_result refresh_claim
  lost_claim_fences status event_type event_status message step metadata events others =
      let refreshed = guarded none _ others in
      (
        refreshed,
        record {
          error = refreshed.error;
          deployment = refreshed.deployment;
          worker_named = refreshed.worker_named;
          nothing_done = bind-raised _ _ w w (claim_lost refreshed.error) refreshed.nothing_done;
        },
        guarded none _ others,
        guarded none _ others,
      )
