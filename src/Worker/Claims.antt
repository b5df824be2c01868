-- ===== src/Worker/Claims.antt =====
-- worker/processing/claims.py: which worker owns a deployment. A claim is the pair of columns
-- `claimed_by` and `claimed_at`. What is only logged is left out.
pub mod Ownership
use autodeploy_platform.Prelude.{
  ℕ, ◌*◌, ◌-◌, String, Bool, true, false, ◌&&◌, ◌||◌, not, Option, none, some, [], ◌∷◌, Table, find,
  where_rows, order_by, first, text_eq, or_text, or_else, is_some, ltb, ◌==◌, if◌then◌else◌,
}
use autodeploy_platform.Json.{Json, null, bool, num, str, Dict, dict, opt_str}
use autodeploy_platform.Models.DeploymentStatus.{DeploymentStatus, ◌is◌, status_text}
use autodeploy_platform.Models.Rows.{
  Timestamp, CommandType, stop, cleanup, CommandStatus, PlatformDeployment, DeploymentCommand,
}
use autodeploy_platform.Session.{
  Environment, ClaimLostError, DeploymentCancellationRequested, claim_lost, cancelled, Action, pure,
  raise, ◌>>=◌, ◌>>◌, view, now_utc, commit, rollback, none_or, the_deployment, update_deployment,
}
use autodeploy_platform.Worker.Events.{record_event}

-- timedelta(seconds=...), in microseconds
abbrev pub seconds : ℕ → ℕ
seconds n = n * 1000000

unfoldable pub command_type_text : CommandType → String
command_type_text stop = "stop"
command_type_text cleanup = "cleanup"

-- `DeploymentCommand.status.in_(("pending", "claimed"))`
abbrev pub is_active : CommandStatus → Bool
is_active CommandStatus.pending = true
is_active CommandStatus.claimed = true
is_active _ = false

-- SQL's comparison with a column that may be NULL.
abbrev pub column_eq : Option String → String → Bool
column_eq none s = false
column_eq (some t) s = text_eq t s

abbrev pub column_lt : Option Timestamp → Timestamp → Bool
column_lt none t = false
column_lt (some s) t = ltb s t

-- The stop command that a worker must give way to.
abbrev pub cancels : ℕ → DeploymentCommand → Bool
cancels id c = elim c.command_type [
  | stop ↦ c.deployment_id == id && is_active c.status && column_eq c.active_key "active"
  | cleanup ↦ false
]

-- A guarded UPDATE of one row; whether it changed the row.
unfoldable pub update_found :
    ℕ
    → (PlatformDeployment → Bool)
    → (PlatformDeployment → PlatformDeployment)
    → Option PlatformDeployment
    → Action Bool
update_found id guard f none = pure false
update_found id guard f (some d) =
    if guard d then (update_deployment id f >> pure true) else pure false

unfoldable pub update_where :
    ℕ → (PlatformDeployment → Bool) → (PlatformDeployment → PlatformDeployment) → Action Bool
update_where id guard f = do db ← view; update_found id guard f (find id db.deployments)

module _ (env : Environment) where
  -- `expected_worker_id or worker_id()`
  abbrev pub expected : Option String → String
  expected worker = or_text worker env.worker_id

  unfoldable pub iso_json : Option Timestamp → Json
  iso_json none = null
  iso_json (some t) = str (env.iso t)

  abbrev pub claim_lost_metadata : ClaimLostError → Dict
  claim_lost_metadata error = dict (
      ("worker_id", str error.worker_id)
      ∷ ("current_claimed_by", opt_str error.current_claimed_by)
      ∷ ("current_claimed_at", iso_json error.current_claimed_at)
      ∷ [])

  abbrev pub cancellation_metadata : DeploymentCancellationRequested → Dict
  cancellation_metadata error = dict (
      ("command_id", num error.command_id)
      ∷ ("command_type", str (command_type_text error.command_type))
      ∷ [])

  unfoldable pub write_claim_event :
      ℕ → (event_type message : String) → (level : String) → Dict → Action (Unit {0})
  write_claim_event id event_type message level metadata = do
    d ← the_deployment id
    record_event env id event_type (status_text d.status) (some message) (some "claim") level
        metadata

  unfoldable pub release_deployment_claim : ℕ → Action (Unit {0})
  release_deployment_claim id = do
    the_deployment id
    update_deployment id (λ d. record d { claimed_at = none; claimed_by = none })

  abbrev lost : ℕ → String → Option String → Option Timestamp → ClaimLostError
  lost id worker by at = record {
    deployment_id = id;
    worker_id = worker;
    current_claimed_by = by;
    current_claimed_at = at;
  }

  -- The row's claim is the worker's, at the time that is returned.
  unfoldable pub check_owner : ℕ → String → Option PlatformDeployment → Action Timestamp
  check_owner id worker none = raise (claim_lost (lost id worker none none))
  check_owner id worker (some d) =
      none_or d.claimed_at (raise (claim_lost (lost id worker d.claimed_by none))) λ at.
        if column_eq d.claimed_by worker
        then pure at
        else raise (claim_lost (lost id worker d.claimed_by (some at)))

  unfoldable pub check_cancelled : ℕ → Option (ℕ × DeploymentCommand) → Action (Unit {0})
  check_cancelled id none = pure tt
  check_cancelled id (some (command_id, c)) = raise (
      cancelled
        (record { deployment_id = id; command_id = command_id; command_type = c.command_type }))

  unfoldable pub ensure_claim_owned : ℕ → Option String → Action Timestamp
  ensure_claim_owned id worker = do
    db ← view
    at ← check_owner id (expected worker) (find id db.deployments)
    check_cancelled id
        (first (order_by (λ c. c.requested_at) (where_rows (cancels id) db.commands)))
    pure at

  unfoldable pub refresh_claim : ℕ → Option String → Action Timestamp
  refresh_claim id worker = do
    ensure_claim_owned id worker
    new_claimed_at ← now_utc env
    updated ←
        update_where id (λ d. column_eq d.claimed_by (expected worker) && is_some d.claimed_at)
          (λ d. record d { claimed_at = some new_claimed_at })
    if updated
        then pure new_claimed_at
        else raise (claim_lost (lost id (expected worker) none none))

  unfoldable pub persist_claim_loss : ℕ → ClaimLostError → Action (Option ℕ)
  persist_claim_loss id error = do
    rollback
    db ← view
    none_or (find id db.deployments) (pure none) λ d. do
      write_claim_event id "claim_lost"
          "Deployment claim was lost before worker completed processing" "warning"
          (claim_lost_metadata error)
      commit
      pure (some id)

  unfoldable pub persist_cancellation_acknowledgement :
      ℕ → DeploymentCancellationRequested → Action (Option ℕ)
  persist_cancellation_acknowledgement id error = do
    rollback
    db ← view
    none_or (find id db.deployments) (pure none) λ d. do
      write_claim_event id "deployment.cancellation_acknowledged"
          "Worker stopped deployment processing after observing a pending stop command" "warning"
          (cancellation_metadata error)
      release_deployment_claim id
      commit
      pure (some id)

  unfoldable pub claim_heartbeat : ℕ → Option String → Action (Unit {0})
  claim_heartbeat id worker = do refresh_claim id worker; commit

  -- A row that a worker may claim. `stale_before` is `now - ttl`; where ℕ stops at 0, no time is
  -- before it, as with Python's.
  abbrev pub is_claimable : Timestamp → PlatformDeployment → Bool
  is_claimable stale_before d =
      (d.status is DeploymentStatus.pending)
      && (not (is_some d.claimed_at) || column_lt d.claimed_at stale_before)

  -- The loop over the candidates that were read at the start.
  unfoldable pub claim_first :
      Timestamp → Timestamp → String → Table PlatformDeployment → Action (Option ℕ)
  claim_first stale_before claimed_at worker [] = do rollback; pure none
  claim_first stale_before claimed_at worker ((id, previous) ∷ rest) = do
    won ←
        update_where id (is_claimable stale_before)
          (λ d. record d { claimed_at = some claimed_at; claimed_by = some worker })
    if won
        then (do
          commit
          write_claim_event id "claim_acquired" "Worker claimed pending deployment" "info" (
              dict (
                ("worker_id", str worker)
                ∷ ("claimed_at", str (env.iso claimed_at))
                ∷ ("previous_claimed_by", opt_str previous.claimed_by)
                ∷ ("previous_claimed_at", iso_json previous.claimed_at)
                ∷ ("reclaimed_stale", bool (is_some previous.claimed_at))
                ∷ []))
          commit
          pure (some id))
        else claim_first stale_before claimed_at worker rest

  unfoldable pub claim_next_pending_deployment : Option String → Option ℕ → Action (Option ℕ)
  claim_next_pending_deployment worker claim_ttl_seconds = do
    now ← now_utc env
    let stale_before = now - seconds (or_else claim_ttl_seconds env.claim_ttl_seconds)
    db ← view
    let candidates =
        order_by (λ d. d.created_at)
          (where_rows (λ d. d.status is DeploymentStatus.pending) db.deployments)
    claimed_at ← now_utc env
    claim_first stale_before claimed_at (expected worker) candidates
