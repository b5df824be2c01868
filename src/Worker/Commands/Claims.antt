-- ===== src/Worker/Commands/Claims.antt =====
-- worker/processing/command_processor.py: which worker owns a command.
use autodeploy_platform.Prelude.{
  ℕ, ◌-◌, String, Bool, true, false, ◌&&◌, ◌||◌, not, Option, none, some, [], ◌∷◌, Table, find,
  where_rows, order_by, or_else, is_some, if◌then◌else◌,
}
use autodeploy_platform.Models.Rows.{
  Timestamp, CommandStatus, PlatformDeployment, DeploymentCommand, Db,
}
use autodeploy_platform.Session.{
  Environment, command_claim_lost, Action, pure, raise, ◌>>=◌, ◌>>◌, view, now_utc, commit,
  rollback, update_command,
}
use autodeploy_platform.Worker.Claims.{seconds, is_active, column_eq, column_lt, expected}

abbrev pub is_claimed : CommandStatus → Bool
is_claimed CommandStatus.claimed = true
is_claimed _ = false

-- A guarded UPDATE of one command; whether it changed the row.
unfoldable pub update_command_found :
    ℕ
    → (DeploymentCommand → Bool)
    → (DeploymentCommand → DeploymentCommand)
    → Option DeploymentCommand
    → Action Bool
update_command_found id guard f none = pure false
update_command_found id guard f (some c) =
    if guard c then (update_command id f >> pure true) else pure false

unfoldable pub update_command_where :
    ℕ → (Db → DeploymentCommand → Bool) → (DeploymentCommand → DeploymentCommand) → Action Bool
update_command_where id guard f = do
  db ← view
  update_command_found id (guard db) f (find id db.commands)

-- `claimed_at IS NULL OR claimed_at < stale_before`
abbrev pub is_free : Timestamp → Option Timestamp → Bool
is_free stale_before claimed_at = not (is_some claimed_at) || column_lt claimed_at stale_before

abbrev pub deployment_is_free : Timestamp → Option PlatformDeployment → Bool
deployment_is_free stale_before none = false
deployment_is_free stale_before (some d) = is_free stale_before d.claimed_at

abbrev pub is_claimable_command : Timestamp → Db → DeploymentCommand → Bool
is_claimable_command stale_before db c =
    is_active c.status
    && is_free stale_before c.claimed_at
    && deployment_is_free stale_before (find c.deployment_id db.deployments)

abbrev pub claim_command : Timestamp → String → DeploymentCommand → DeploymentCommand
claim_command at worker c = record c {
  status = CommandStatus.claimed;
  claimed_by = some worker;
  claimed_at = some at;
}

-- What `db.session.get` finds.
unfoldable pub if_present {ℓ} : {A : Type ℓ} → ℕ → Option A → Option ℕ
if_present id none = none
if_present id (some row) = some id

module _ (env : Environment) where
  -- The loop over the ids that were read at the start.
  unfoldable pub claim_first_command :
      Timestamp → String → Table DeploymentCommand → Action (Option ℕ)
  claim_first_command stale_before worker [] = do rollback; pure none
  claim_first_command stale_before worker ((id, c) ∷ rest) = do
    claimed_at ← now_utc env
    won ←
        update_command_where id (is_claimable_command stale_before)
          (claim_command claimed_at worker)
    if won
        then (do commit; db ← view; pure (if_present id (find id db.commands)))
        else claim_first_command stale_before worker rest

  unfoldable pub claim_next_pending_command : Option String → Option ℕ → Action (Option ℕ)
  claim_next_pending_command worker claim_ttl_seconds = do
    now ← now_utc env
    db ← view
    claim_first_command (now - seconds (or_else claim_ttl_seconds env.claim_ttl_seconds))
        (expected env worker)
        (order_by (λ c. c.requested_at) (where_rows (λ c. is_active c.status) db.commands))

  abbrev pub holds_command : String → DeploymentCommand → Bool
  holds_command worker c =
      column_eq c.claimed_by worker && is_some c.claimed_at && is_claimed c.status

  -- The command is the worker's.
  unfoldable pub check_command_owner : String → Option DeploymentCommand → Action (Unit {0})
  check_command_owner worker none = raise (command_claim_lost "Deployment command no longer exists")
  check_command_owner worker (some c) =
      if holds_command worker c
      then pure tt
      else raise
          (command_claim_lost "Deployment command claim was lost before processing completed")

  -- The time of the claim, which is returned, is read by no caller.
  unfoldable pub ensure_command_claim_owned : ℕ → Option String → Action (Unit {0})
  ensure_command_claim_owned id worker = do
    db ← view
    check_command_owner (expected env worker) (find id db.commands)

  unfoldable pub refresh_command_claim : ℕ → Option String → Action (Unit {0})
  refresh_command_claim id worker = do
    ensure_command_claim_owned id worker
    new_claimed_at ← now_utc env
    updated ←
        update_command_where id (λ db. holds_command (expected env worker))
          (λ c. record c { claimed_at = some new_claimed_at })
    if updated
        then pure tt
        else raise
            (command_claim_lost "Deployment command claim was lost before it could be refreshed")

  unfoldable pub command_heartbeat : ℕ → Option String → Action (Unit {0})
  command_heartbeat id worker = do refresh_command_claim id worker; commit
