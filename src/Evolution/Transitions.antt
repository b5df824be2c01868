-- ===== src/Evolution/Transitions.antt =====
-- The transitions of a deployment and its build, of worker/processing/lifecycle.py, and the
-- permitted change of the database.
use autodeploy_platform.Prelude.{
  ℕ, String, ◌≡◌, refl, ap, inl, inr, Bool, true, false, ◌&&◌, not, Option, none, some, List, Table,
  find, is_some, Bool-cases, Option-cases, if◌then◌else◌, arith,
}
use autodeploy_platform.Models.DeploymentStatus
use autodeploy_platform.Models.DeploymentStatus.{DeploymentStatus, ◌is◌}
use autodeploy_platform.Models.BuildStatus
use autodeploy_platform.Models.BuildStatus.{BuildStatus}
use autodeploy_platform.Models.Rows.{Timestamp, Build, PlatformDeployment, Db}
use autodeploy_platform.Models.Lifecycle.{Reaches, BuildReaches}
use autodeploy_platform.Session.{Environment, pure, raise, now_utc, ◌>>=◌}
use autodeploy_platform.Session.Keeps.{Keeps, keeps_rules}
use autodeploy_platform.Evolution.Rows.{
  Evolves, Evolves-trans, BuildEvolves, untouched, build_untouched,
}
use autodeploy_platform.Evolution.Session.{
  From, update_deployment-Keeps, update_build-Keeps, update_found-From, update_found_build-From,
  now_utc-Keeps,
}
use autodeploy_platform.Evolution.Reading.{the_deployment-then, the_build-then}
use autodeploy_platform.Evolution.Claims.{session_rules, record_event-Keeps}
use autodeploy_platform.Worker.Lifecycle.{
  transition_deployment, transition_build, build_status_by_deployment_status, follow,
  start_deployment, start_build, set_deployment_status,
}

moved :
    (s : DeploymentStatus) (d : PlatformDeployment)
    → DeploymentStatus.can_transition_to d.status s ≡ true
    → Evolves d (record d { status = s })
moved s d h = record {
  reaches = Reaches.next Reaches.here h;
  same_identity = refl;
  started_once = λ t e. e;
  paired = λ e. e;
  frozen_mode = λ e. refl;
  frozen_namespace = λ e. refl;
}

build_moved :
    (s : BuildStatus) (b : Build)
    → BuildStatus.can_transition_to b.status s ≡ true
    → BuildEvolves b (record b { status = s })
build_moved s b h = record {
  reaches = BuildReaches.next BuildReaches.here h;
  same_identity = refl;
  started_once = λ t e. e;
}

started :
    (now : Timestamp) (d : PlatformDeployment)
    → is_some d.started_at ≡ false
    → Evolves d (record d { started_at = some now })
started now d h = record {
  reaches = Reaches.here;
  same_identity = refl;
  started_once = λ t e. ground arith;
  paired = λ e. e;
  frozen_mode = λ e. refl;
  frozen_namespace = λ e. refl;
}

build_started :
    (now : Timestamp) (b : Build)
    → is_some b.started_at ≡ false
    → BuildEvolves b (record b { started_at = some now })
build_started now b h = record {
  reaches = BuildReaches.here;
  same_identity = refl;
  started_once = λ t e. ground arith;
}

module _ {start : Db} where
  pub transition_deployment-Keeps :
      (id : ℕ) (s : DeploymentStatus) → Keeps (From start) (transition_deployment id s)
  unfolding transition_deployment raise
  transition_deployment-Keeps id s = the_deployment-then id _ λ w d found h.
      elim (Bool-cases (DeploymentStatus.can_transition_to d.status s)) [
        | inl can ↦ rw can (update_found-From id _ w d found (moved s d can) h)
        | inr cannot ↦ rw cannot h
      ]

  pub transition_build-Keeps :
      (id : ℕ) (s : BuildStatus) → Keeps (From start) (transition_build id s)
  unfolding transition_build raise
  transition_build-Keeps id s = the_build-then id _ λ w b found h.
      elim (Bool-cases (BuildStatus.can_transition_to b.status s)) [
        | inl can ↦ rw can (update_found_build-From id _ w b found (build_moved s b can) h)
        | inr cannot ↦ rw cannot h
      ]

  follow-Keeps : (id : ℕ) (s : Option BuildStatus) → Keeps (From start) (follow id s)
  unfolding follow
  follow-Keeps id none = search keeps_rules
  follow-Keeps id (some s) = search (transition_build-Keeps)

-- Writes to columns that are not tracked.
pub ruleset write_rules =
    (update_deployment-Keeps, update_build-Keeps, untouched, build_untouched, refl)

-- What a guard on a column that is unset says of the column.
unset : (a b : Bool) → (not a && b) ≡ true → a ≡ false
unset a b h = ground arith

module _ {start : Db} (env : Environment) where
  start_deployment-Keeps :
      (id : ℕ) (s : DeploymentStatus) → Keeps (From start) (start_deployment env id s)
  unfolding start_deployment ◌>>=◌ now_utc pure
  start_deployment-Keeps id s = the_deployment-then id _ λ w d found h.
      elim (Bool-cases (not (is_some d.started_at) && not (s is DeploymentStatus.pending))) [
        | inl first ↦ rw first (
            update_found-From id _ (now_utc env w).1 d found
              (started (env.clock w.reads) d (unset _ _ first)) ((now_utc-Keeps env).after w h))
        | inr later ↦ rw later h
      ]

  start_build-Keeps : (id : ℕ) (s : DeploymentStatus) → Keeps (From start) (start_build env id s)
  unfolding start_build ◌>>=◌ now_utc pure
  start_build-Keeps id s = the_build-then id _ λ w b found h.
      elim (Bool-cases
        (not (is_some b.started_at) && is_some (build_status_by_deployment_status s))) [
          | inl first ↦ rw first (
              update_found_build-From id _ (now_utc env w).1 b found
                (build_started (env.clock w.reads) b (unset _ _ first))
                ((now_utc-Keeps env).after w h))
          | inr later ↦ rw later h
        ]

  pub set_deployment_status-Keeps :
      (id : ℕ) (s : DeploymentStatus) (event_type message : String)
      → Keeps (From start) (set_deployment_status env id s event_type message)
  unfolding set_deployment_status
  set_deployment_status-Keeps id s event_type message =
      search
        (
          session_rules, start_deployment-Keeps, start_build-Keeps, transition_deployment-Keeps,
          follow-Keeps, record_event-Keeps,
        )
        depth 12
