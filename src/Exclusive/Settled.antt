-- ===== src/Exclusive/Settled.antt =====
-- What the failure of a command leaves in the database (worker/processing/command_processor.py).
use mathlib.Core.Option
use autodeploy_platform.Prelude.{
  ℕ, String, ◌≡◌, refl, subst, Option, none, some, [], find, find-modify, ==_refl,
}
use autodeploy_platform.Json.{Json, null, bool, Dict}
use autodeploy_platform.Models.Rows.{
  Timestamp, CommandStatus, CommandType, PlatformDeployment, DeploymentCommand, DeploymentEvent, Db,
}
use autodeploy_platform.Session.{
  Environment, World, Outcome, ok, raised, Action, pure, resume, ◌>>=◌, ◌>>◌, now_utc, commit,
  end_transaction, write, update_command, add_event,
}
use autodeploy_platform.Session.Keeps.{Keeps, the_deployment-Keeps, keeps_rules}
use autodeploy_platform.Worker.Events.{iterate, deployment_secret_values}
use autodeploy_platform.Worker.Commands.Settle.{
  record_command_event, settled, settle_command, fail_command, fail_command_internally,
}

-- The command is over with the status, and neither waits nor belongs to a worker, where it is there.
pub record Over (status : CommandStatus) (c : DeploymentCommand) : Type 0 where
  pub status_is : c.status ≡ status
  pub no_key : c.active_key ≡ none
  pub no_worker : c.claimed_by ≡ none
  pub no_claim : c.claimed_at ≡ none

abbrev pub IsOver : CommandStatus → ℕ → Db → Type 0
IsOver status id db = (c : DeploymentCommand) → find id db.commands ≡ some c → Over status c

abbrev Alone : World → Type 0
Alone w = w.peers ≡ []

record Closed (status : CommandStatus) (id : ℕ) (w : World) : Type 0 where
  over : IsOver status id w.work
  alone : w.peers ≡ []

-- What holds after an action that returns.
record Ensures (P Q : World → Type 0) {A : Type 0} (m : Action A) : Type 0 where
  after : (w : World) → P w → (a : A) → (m w).0 ≡ ok a → Q (m w).1

module _ {P Q : World → Type 0} {A B : Type 0} where
  resume-ensures :
      (f : A → Action B) (r : Outcome A) (v : World)
      → P v
      → ((a : A) → Ensures P Q (f a))
      → (b : B) → (resume f r v).0 ≡ ok b
      → Q (resume f r v).1
  resume-ensures f (ok a) v h k b e = (k a).after v h b e
  resume-ensures f (raised fault) v h k b e = cc

  bind-Ensures :
      (m : Action A) (f : A → Action B)
      → Keeps P m
      → ((a : A) → Ensures P Q (f a))
      → Ensures P Q (m >>= f)
  unfolding ◌>>=◌
  bind-Ensures m f km kf = record {
    after = λ w h b e. resume-ensures f (m w).0 (m w).1 (km.after w h) kf b e;
  }

iterate-Alone : (v : Json) → Keeps Alone (iterate v)
unfolding iterate
iterate-Alone null = search keeps_rules
iterate-Alone (bool b) = search keeps_rules
iterate-Alone _ = search keeps_rules

secrets-Alone :
    (env : Environment) (d : PlatformDeployment) → Keeps Alone (deployment_secret_values env d)
unfolding deployment_secret_values
secrets-Alone env d = search (keeps_rules, iterate-Alone) depth 20

module _ {status : CommandStatus} where
  map-Over :
      (now : Timestamp) (last_error : Option String) (o : Option DeploymentCommand)
      (c : DeploymentCommand)
      → Option.map (settled status now last_error) o ≡ some c
      → Over status c
  map-Over now last_error none c e = cc
  map-Over now last_error (some r) c e =
      let same : settled status now last_error r ≡ c = cc in
      subst (Over status) same
        (record { status_is = refl; no_key = refl; no_worker = refl; no_claim = refl })

module _ {status : CommandStatus} {id : ℕ} where
  add_event-Closed : (event : DeploymentEvent) → Keeps (Closed status id) (add_event event)
  unfolding add_event write
  add_event-Closed event = record { after = λ w h. record { over = h.over; alone = h.alone } }

  record_command_event-Closed :
      (deployment_id : ℕ) (event_type event_status : String) (message : Option String)
      (step level : String) (metadata : Dict)
      → Keeps
          (Closed status id)
          (record_command_event deployment_id event_type event_status message step level metadata)
  unfolding record_command_event
  record_command_event-Closed deployment_id event_type event_status message step level metadata =
      search (keeps_rules, add_event-Closed) depth 12

  committed-Ensures :
      {A : Type 0} (a : A)
      → Ensures (Closed status id) (λ w. IsOver status id w.saved) (commit >> pure a)
  unfolding ◌>>=◌ commit pure end_transaction
  committed-Ensures a = record { after = λ w h b e. rw h.alone h.over }

-- The end of a command: it is settled, `record_it` writes an event, and all is committed.
module _ (env : Environment) (status : CommandStatus) (id : ℕ) (last_error : Option String) where
  settle_command-Closed :
      (w : World) → Alone w → Closed status id (settle_command env id status last_error w).1
  unfolding settle_command ◌>>=◌ now_utc update_command write
  settle_command-Closed w alone = record {
    over = λ c.
        rw (find-modify, ==_refl id)
          (map-Over (env.clock w.reads) last_error (find id w.work.commands) c);
    alone = alone;
  }

  settle-Ensures :
      {A : Type 0} (record_it : Action (Unit {0})) (a : A)
      → Keeps (Closed status id) record_it
      → Ensures Alone
          (λ w. IsOver status id w.saved)
          (settle_command env id status last_error >> (record_it >> (commit >> pure a)))
  unfolding settle_command ◌>>=◌ now_utc update_command write
  settle-Ensures record_it a k = record {
    after = λ w alone b e.
        (bind-Ensures record_it (λ _. commit >> pure a) k (λ done. committed-Ensures a)).after _
          (settle_command-Closed w alone) b e;
  }

-- Where no other process commits meanwhile, a command whose failure a worker has recorded with the
-- executor's error is failed in the committed database, if it is there: it has no key that would
-- stop a new request, no worker and no claim.
pub fail_command-Over :
    (env : Environment) (id deployment_id : ℕ) (type : CommandType) (message step : String)
    (metadata : Dict) (answer : Option ℕ) (w : World)
    → w.peers ≡ []
    → (fail_command env id deployment_id type message step metadata w).0 ≡ ok answer
    → IsOver CommandStatus.failed id
        (fail_command env id deployment_id type message step metadata w).1.saved
unfolding fail_command
fail_command-Over env id deployment_id type message step metadata answer w alone e =
    (bind-Ensures _ _ (the_deployment-Keeps deployment_id) (λ d.
        bind-Ensures _ _ (secrets-Alone env d) (λ secrets.
          settle-Ensures env CommandStatus.failed id _ _ _
            (record_command_event-Closed _ _ _ _ _ _ _)))).after
      w alone answer e

-- The same for a failure that is recorded as an internal error.
pub fail_command_internally-Over :
    (env : Environment) (id deployment_id : ℕ) (type : CommandType) (metadata : Dict)
    (answer : Option ℕ) (w : World)
    → w.peers ≡ []
    → (fail_command_internally env id deployment_id type metadata w).0 ≡ ok answer
    → IsOver CommandStatus.failed id
        (fail_command_internally env id deployment_id type metadata w).1.saved
unfolding fail_command_internally
fail_command_internally-Over env id deployment_id type metadata answer w alone e =
    (bind-Ensures _ _ (the_deployment-Keeps deployment_id) (λ d.
        bind-Ensures _ _ (secrets-Alone env d) (λ secrets.
          settle-Ensures env CommandStatus.failed id _ _ _
            (record_command_event-Closed _ _ _ _ _ _ _)))).after
      w alone answer e
