-- ===== src/Fencing/Commands.antt =====
-- The guards of worker/processing/command_processor.py, for a worker that has lost its claim on a
-- command.
use autodeploy_platform.Prelude.{
  ℕ, String, ◌≡◌, refl, false, Option, none, some, find, Option-cases, inl, inr,
}
use autodeploy_platform.Models.Rows.{PlatformDeployment, DeploymentCommand, CommandType}
use autodeploy_platform.Session.{
  Environment, World, WorkerExecutionError, command_claim_lost, other, Outcome, ok, raised, Action,
  ◌>>=◌, raise, pure, attempt, view, found, the_deployment, rollback, end_transaction,
}
use autodeploy_platform.Worker.Claims.{expected}
use autodeploy_platform.Worker.Executor.{ExecutionResult}
use autodeploy_platform.Worker.Commands.Claims.{
  holds_command, check_command_owner, ensure_command_claim_owned, refresh_command_claim,
  command_heartbeat,
}
use autodeploy_platform.Worker.Commands.Run.{
  finish_command, by_claim, abandon_command, if_still_claimed, fail_command_step,
}
use autodeploy_platform.Fencing.{bind-raised}

-- The session sees no command `id` that the worker holds.
abbrev pub IsLost : Environment → World → ℕ → String → Type 0
IsLost env w id worker =
    (c : DeploymentCommand) → find id w.work.commands ≡ some c → holds_command env worker c ≡ false

-- The loss of a command is raised, and the session is as it was.
pub record Refused {A : Type 0} (m : Action A) (w : World) : Type 0 where
  pub message : String
  pub nothing_done : m w ≡ (raised (command_claim_lost message), w)

module _ {A B : Type 0} (m : Action A) (f : A → Action B) (w : World) where
  bind-Refused : Refused m w → Refused (m >>= f) w
  bind-Refused r = record {
    message = r.message;
    nothing_done = bind-raised m f w w (command_claim_lost r.message) r.nothing_done;
  }

-- How the attempt ends once it is given up, from what is found of the deployment afterwards.
abbrev pub given_up : ℕ → Option PlatformDeployment → Outcome (Option ℕ)
given_up deployment_id none = raised (other "ObjectDeletedError")
given_up deployment_id (some d) = ok (some deployment_id)

module _ (env : Environment) where
  check_command_owner-Refused :
      (worker : String) (o : Option DeploymentCommand) (w : World)
      → ((c : DeploymentCommand) → o ≡ some c → holds_command env worker c ≡ false)
      → Refused (check_command_owner env worker o) w
  unfolding check_command_owner raise
  check_command_owner-Refused worker none w lost = record { message = _; nothing_done = refl }
  check_command_owner-Refused worker (some c) w lost = record {
    message = "Deployment command claim was lost before processing completed";
    nothing_done = rw (lost c refl) refl;
  }

  ensure_command_claim_owned-Refused :
      (id : ℕ) (worker : Option String) (w : World)
      → IsLost env w id (expected env worker)
      → Refused (ensure_command_claim_owned env id worker) w
  unfolding ensure_command_claim_owned view ◌>>=◌
  ensure_command_claim_owned-Refused id worker w lost =
      let refused =
        check_command_owner-Refused (expected env worker) (find id w.work.commands) w lost in
      record { message = refused.message; nothing_done = refused.nothing_done }

  refresh_command_claim-Refused :
      (id : ℕ) (worker : Option String) (w : World)
      → IsLost env w id (expected env worker)
      → Refused (refresh_command_claim env id worker) w
  unfolding refresh_command_claim
  refresh_command_claim-Refused id worker w lost =
      bind-Refused _ _ w (ensure_command_claim_owned-Refused id worker w lost)

  abandon_command-rolls_back :
      (deployment_id : ℕ) (w : World)
      → (let back = end_transaction w.saved w.reads w.peers in
          abandon_command deployment_id w
          ≡ (given_up deployment_id (find deployment_id back.work.deployments), back))
  unfolding abandon_command rollback ◌>>=◌ the_deployment view found pure raise
  abandon_command-rolls_back deployment_id w =
      elim (Option-cases
        (find deployment_id (end_transaction w.saved w.reads w.peers).work.deployments)) [
          | inl gone ↦ rw gone refl
          | inr stored ↦ rw stored.1 refl
        ]

  -- A worker that does not hold a command raises the loss of its claim and changes nothing, when it
  -- asks for its claim, when the executor's heartbeat does, or when it comes back from the executor
  -- with the result of the stop. Where the executor has failed, the session is left as a rollback
  -- leaves it, on what is committed and with no failure recorded: the worker answers with the
  -- deployment's id, or with `ObjectDeletedError` where the deployment is gone.
  pub lost_command_fences :
      (id deployment_id : ℕ) (type : CommandType) (worker : String) (result : ExecutionResult)
      (error : WorkerExecutionError) (w : World)
      → IsLost env w id (expected env (some worker))
      → Refused (refresh_command_claim env id (some worker)) w
        × Refused (command_heartbeat env id (some worker)) w
        × Refused (finish_command env id deployment_id type worker result) w
        × (let back = end_transaction w.saved w.reads w.peers in
            fail_command_step env id deployment_id type worker error w
            ≡ (given_up deployment_id (find deployment_id back.work.deployments), back))
  unfolding command_heartbeat finish_command fail_command_step if_still_claimed by_claim attempt
      ◌>>=◌
  lost_command_fences id deployment_id type worker result error w lost =
      let refused = refresh_command_claim-Refused id (some worker) w lost in
      (
        refused,
        bind-Refused _ _ w refused,
        bind-Refused _ _ w refused,
        rw refused.nothing_done (abandon_command-rolls_back deployment_id w),
      )
