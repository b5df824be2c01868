-- ===== src/Exclusive/Quiet.antt =====
-- The rows beside the events of worker/processing/events.py and claims.py, in the session and in the
-- database.
use autodeploy_platform.Prelude.{ℕ, String, ◌≡◌, refl, Option, List, [], ◌∷◌, Table}
use autodeploy_platform.Json.{Json, null, bool, Dict}
use autodeploy_platform.Models.Rows.{
  Project, Build, PlatformDeployment, DeploymentCommand, DeploymentEvent, Db,
}
use autodeploy_platform.Session.{
  Environment, World, Action, ClaimLostError, ◌>>=◌, ◌>>◌, commit, rollback, add_event,
  end_transaction, write,
}
use autodeploy_platform.Session.Keeps.{Keeps, keeps_rules}
use autodeploy_platform.Worker.Events.{iterate, deployment_secret_values, record_event}
use autodeploy_platform.Worker.Claims.{write_claim_event, persist_claim_loss}

-- Everything but the events.
abbrev pub Tables : Type 0
Tables = Table Project × Table Build × Table PlatformDeployment × Table DeploymentCommand

abbrev pub tables : Db → Tables
tables db = (db.projects, db.builds, db.deployments, db.commands)

-- The rows are `t`, and no other process commits.
pub record Quiet (t : Tables) (w : World) : Type 0 where
  pub saved : tables w.saved ≡ t
  pub work : tables w.work ≡ t
  pub alone : w.peers ≡ []

module _ {t : Tables} where
  pub end_transaction-Quiet :
      (db : Db) (reads : ℕ) (peers : List (Db → Db))
      → peers ≡ []
      → tables db ≡ t
      → Quiet t (end_transaction db reads peers)
  unfolding end_transaction
  end_transaction-Quiet db reads [] e h = record { saved = h; work = h; alone = refl }
  end_transaction-Quiet db reads (peer ∷ peers) e h = cc

  pub commit-Quiet : Keeps (Quiet t) commit
  unfolding commit
  commit-Quiet = record {
    after = λ w h. end_transaction-Quiet w.work w.reads w.peers h.alone h.work;
  }

  add_event-Quiet : (event : DeploymentEvent) → Keeps (Quiet t) (add_event event)
  unfolding add_event write
  add_event-Quiet event = record {
    after = λ w h. record { saved = h.saved; work = h.work; alone = h.alone };
  }

ruleset quiet_rules = (keeps_rules, commit-Quiet, add_event-Quiet)

module _ {t : Tables} (env : Environment) where
  iterate-Quiet : (v : Json) → Keeps (Quiet t) (iterate v)
  unfolding iterate
  iterate-Quiet null = search keeps_rules
  iterate-Quiet (bool b) = search keeps_rules
  iterate-Quiet _ = search keeps_rules

  deployment_secret_values-Quiet :
      (d : PlatformDeployment) → Keeps (Quiet t) (deployment_secret_values env d)
  unfolding deployment_secret_values
  deployment_secret_values-Quiet d = search (keeps_rules, iterate-Quiet) depth 20

  record_event-Quiet :
      (id : ℕ) (event_type status : String) (message step : Option String) (level : String)
      (metadata : Dict)
      → Keeps (Quiet t) (record_event env id event_type status message step level metadata)
  unfolding record_event
  record_event-Quiet id event_type status message step level metadata =
      search (quiet_rules, deployment_secret_values-Quiet) depth 20

  pub write_claim_event-Quiet :
      (id : ℕ) (event_type message level : String) (metadata : Dict)
      → Keeps (Quiet t) (write_claim_event env id event_type message level metadata)
  unfolding write_claim_event
  write_claim_event-Quiet id event_type message level metadata =
      search (keeps_rules, record_event-Quiet) depth 10

  after_rollback :
      {A : Type 0} (k : Action A) (w : World)
      → w.peers ≡ []
      → tables w.saved ≡ t
      → Keeps (Quiet t) k
      → Quiet t ((rollback >> k) w).1
  unfolding ◌>>=◌ rollback
  after_rollback k w alone same keeps =
      keeps.after _ (end_transaction-Quiet w.saved w.reads w.peers alone same)

-- Where no other process commits meanwhile, the handler of a lost claim drops every write to a row
-- that was not committed: the committed projects, builds, deployments and commands stay as they
-- were, also where the handler itself raises.
pub persist_claim_loss-drops_work :
    (env : Environment) (id : ℕ) (error : ClaimLostError) (w : World)
    → w.peers ≡ []
    → tables (persist_claim_loss env id error w).1.saved ≡ tables w.saved
unfolding persist_claim_loss
persist_claim_loss-drops_work env id error w alone =
    (after_rollback {t = tables w.saved} env _ w alone refl
      (search (quiet_rules, write_claim_event-Quiet) depth 14)).saved
