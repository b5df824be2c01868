-- ===== src/Evolution/Claims.antt =====
-- worker/processing/events.py and claims.py and the permitted change of the database.
use autodeploy_platform.Prelude.{
  ℕ, String, ◌≡◌, refl, inl, inr, Bool-cases, Bool, true, ◌&&◌, Option, none, some, List, [], ◌∷◌,
  Table, find, is_some, arith,
}
use autodeploy_platform.Json.{Json, null, bool, Dict}
use autodeploy_platform.Models.Rows.{Timestamp, PlatformDeployment, DeploymentCommand, Db}
use autodeploy_platform.Session.{
  Environment, AuxiliaryEvent, World, ◌>>=◌, write, update_deployment, ClaimLostError,
  DeploymentCancellationRequested,
}
use autodeploy_platform.Session.Keeps.{Keeps, pure-Keeps, bind-Keeps, if-Keeps, keeps_rules}
use autodeploy_platform.Evolution.Rows.{Evolves}
use autodeploy_platform.Evolution.Session.{
  From, update_found-From, now_utc-Keeps, commit-Keeps, rollback-Keeps, add_event-Keeps,
  update_deployment-Keeps,
}
use autodeploy_platform.Evolution.Reading.{view-then}
use autodeploy_platform.Models.Lifecycle.{Reaches}
use autodeploy_platform.Worker.Events.{
  deployment_secret_values, record_event, record_auxiliary_events, iterate,
}
use autodeploy_platform.Worker.Claims.{
  column_eq, write_claim_event, release_deployment_claim, check_owner, check_cancelled,
  ensure_claim_owned, update_found, update_where, refresh_claim, persist_claim_loss,
  persist_cancellation_acknowledgement, claim_heartbeat, claim_first, claim_next_pending_deployment,
}

-- Giving a claim up.
released : (d : PlatformDeployment) → Evolves d (record d { claimed_at = none; claimed_by = none })
released d = record {
  reaches = Reaches.here;
  same_identity = refl;
  started_once = λ t e. e;
  paired = λ e. refl;
  frozen_mode = λ e. refl;
  frozen_namespace = λ e. refl;
}

-- A new claim, and a claim that is renewed, change no more.
reclaimed :
    (t : Timestamp) (worker : String) (d : PlatformDeployment)
    → Evolves d (record d { claimed_at = some t; claimed_by = some worker })
reclaimed t worker d = record {
  reaches = Reaches.here;
  same_identity = refl;
  started_once = λ t e. e;
  paired = λ e. refl;
  frozen_mode = λ e. refl;
  frozen_namespace = λ e. refl;
}

renewed :
    (t : Timestamp) (worker : String) (d : PlatformDeployment)
    → column_eq d.claimed_by worker && is_some d.claimed_at ≡ true
    → Evolves d (record d { claimed_at = some t })
renewed t worker d h = record {
  reaches = Reaches.here;
  same_identity = refl;
  started_once = λ t e. e;
  paired = λ e. ground arith;
  frozen_mode = λ e. refl;
  frozen_namespace = λ e. refl;
}

pub ruleset session_rules =
    (keeps_rules, now_utc-Keeps, commit-Keeps, rollback-Keeps, add_event-Keeps)

module _ {start : Db} (env : Environment) where
  pub iterate-Keeps : (v : Json) → Keeps (From start) (iterate v)
  unfolding iterate
  iterate-Keeps null = search keeps_rules
  iterate-Keeps (bool b) = search keeps_rules
  iterate-Keeps _ = search keeps_rules

  pub deployment_secret_values-Keeps :
      (d : PlatformDeployment) → Keeps (From start) (deployment_secret_values env d)
  unfolding deployment_secret_values
  deployment_secret_values-Keeps d = search (keeps_rules, iterate-Keeps) depth 20

  pub record_event-Keeps :
      (id : ℕ) (event_type status : String) (message step : Option String) (level : String)
      (metadata : Dict)
      → Keeps (From start) (record_event env id event_type status message step level metadata)
  unfolding record_event
  record_event-Keeps id event_type status message step level metadata =
      search (session_rules, deployment_secret_values-Keeps) depth 20

  pub record_auxiliary_events-Keeps :
      (id : ℕ) (events : List AuxiliaryEvent)
      → Keeps (From start) (record_auxiliary_events env id events)
  unfolding record_auxiliary_events
  record_auxiliary_events-Keeps id [] = search keeps_rules
  record_auxiliary_events-Keeps id (event ∷ events) =
      bind-Keeps _ _ (record_event-Keeps _ _ _ _ _ _ _)
        (λ _. record_auxiliary_events-Keeps id events)

  pub write_claim_event-Keeps :
      (id : ℕ) (event_type message level : String) (metadata : Dict)
      → Keeps (From start) (write_claim_event env id event_type message level metadata)
  unfolding write_claim_event
  write_claim_event-Keeps id event_type message level metadata =
      search (keeps_rules, record_event-Keeps) depth 10

  pub release_deployment_claim-Keeps :
      (id : ℕ) → Keeps (From start) (release_deployment_claim env id)
  unfolding release_deployment_claim
  release_deployment_claim-Keeps id =
      search (keeps_rules, update_deployment-Keeps, released) depth 10

module _ {start : Db} where
  update_found-Keeps :
      (id : ℕ) (guard : PlatformDeployment → Bool) (f : PlatformDeployment → PlatformDeployment)
      (o : Option PlatformDeployment) (w : World)
      → find id w.work.deployments ≡ o
      → ((d : PlatformDeployment) → guard d ≡ true → Evolves d (f d))
      → From start w
      → From start (update_found id guard f o w).1
  unfolding update_found ◌>>=◌ update_deployment write
  update_found-Keeps id guard f none w found e h = h
  update_found-Keeps id guard f (some d) w found e h = elim (Bool-cases (guard d)) [
    | inl pass ↦ rw pass (update_found-From id f w d found (e d pass) h)
    | inr stay ↦ rw stay h
  ]

  pub update_where-Keeps :
      (id : ℕ) (guard : PlatformDeployment → Bool) (f : PlatformDeployment → PlatformDeployment)
      → ((d : PlatformDeployment) → guard d ≡ true → Evolves d (f d))
      → Keeps (From start) (update_where id guard f)
  unfolding update_where
  update_where-Keeps id guard f e =
      view-then _ (λ w. update_found-Keeps id guard f (find id w.work.deployments) w refl e)

module _ {start : Db} (env : Environment) where
  check_owner-Keeps :
      (id : ℕ) (worker : String) (o : Option PlatformDeployment)
      → Keeps (From start) (check_owner env id worker o)
  unfolding check_owner
  check_owner-Keeps id worker none = search keeps_rules
  check_owner-Keeps id worker (some d) = search keeps_rules

  check_cancelled-Keeps :
      (id : ℕ) (o : Option (ℕ × DeploymentCommand)) → Keeps (From start) (check_cancelled env id o)
  unfolding check_cancelled
  check_cancelled-Keeps id none = search keeps_rules
  check_cancelled-Keeps id (some (command_id, c)) = search keeps_rules

  pub ensure_claim_owned-Keeps :
      (id : ℕ) (worker : Option String) → Keeps (From start) (ensure_claim_owned env id worker)
  unfolding ensure_claim_owned
  ensure_claim_owned-Keeps id worker =
      search (keeps_rules, check_owner-Keeps, check_cancelled-Keeps) depth 10

  pub refresh_claim-Keeps :
      (id : ℕ) (worker : Option String) → Keeps (From start) (refresh_claim env id worker)
  unfolding refresh_claim
  refresh_claim-Keeps id worker =
      search (session_rules, ensure_claim_owned-Keeps, update_where-Keeps, renewed) depth 12

  pub persist_claim_loss-Keeps :
      (id : ℕ) (error : ClaimLostError) → Keeps (From start) (persist_claim_loss env id error)
  unfolding persist_claim_loss
  persist_claim_loss-Keeps id error = search (session_rules, write_claim_event-Keeps) depth 12

  pub persist_cancellation_acknowledgement-Keeps :
      (id : ℕ) (error : DeploymentCancellationRequested)
      → Keeps (From start) (persist_cancellation_acknowledgement env id error)
  unfolding persist_cancellation_acknowledgement
  persist_cancellation_acknowledgement-Keeps id error =
      search (session_rules, write_claim_event-Keeps, release_deployment_claim-Keeps) depth 12

  pub claim_heartbeat-Keeps :
      (id : ℕ) (worker : Option String) → Keeps (From start) (claim_heartbeat env id worker)
  unfolding claim_heartbeat
  claim_heartbeat-Keeps id worker = search (session_rules, refresh_claim-Keeps) depth 12

  claim_first-Keeps :
      (stale_before claimed_at : Timestamp) (worker : String)
      (candidates : Table PlatformDeployment)
      → Keeps (From start) (claim_first env stale_before claimed_at worker candidates)
  unfolding claim_first
  claim_first-Keeps stale_before claimed_at worker [] =
      bind-Keeps _ _ rollback-Keeps (λ _. pure-Keeps none)
  claim_first-Keeps stale_before claimed_at worker ((id, previous) ∷ rest) =
      bind-Keeps _ _ (update_where-Keeps id _ _ (λ d _. reclaimed claimed_at worker d)) λ won.
        if-Keeps won _ _ (search (session_rules, write_claim_event-Keeps) depth 12)
          (claim_first-Keeps stale_before claimed_at worker rest)

  pub claim_next_pending_deployment-Keeps :
      (worker : Option String) (ttl : Option ℕ)
      → Keeps (From start) (claim_next_pending_deployment env worker ttl)
  unfolding claim_next_pending_deployment
  claim_next_pending_deployment-Keeps worker ttl =
      search (session_rules, claim_first-Keeps) depth 12
