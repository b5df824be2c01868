-- ===== src/Exclusive/Freed.antt =====
-- What `reconcile_stale_claim` of worker/reconciliation/claims.py leaves where it repairs a claim.
use mathlib.Core.Option
use autodeploy_platform.Prelude.{
  ℕ, ◌-◌, String, ◌≡◌, refl, ◌∙◌, subst, true, Option, none, some, [], find, find-modify, ==_refl,
  ltb, Bool-cases, Option-cases, inl, inr,
}
use autodeploy_platform.Json.{Json, null, bool, Dict}
use autodeploy_platform.Models.DeploymentStatus.{DeploymentStatus}
use autodeploy_platform.Models.BuildStatus.{BuildStatus}
use autodeploy_platform.Models.Rows.{Timestamp, PlatformDeployment, DeploymentEvent, Build, Db}
use autodeploy_platform.Session.{
  Environment, World, Outcome, ok, raised, Action, pure, resume, ◌>>=◌, ◌>>◌, view, found, now_utc,
  commit, end_transaction, write, the_deployment, update_deployment, update_build, add_event, raise,
}
use autodeploy_platform.Session.Keeps.{Keeps, keeps_rules}
use autodeploy_platform.Worker.Claims.{seconds, release_deployment_claim}
use autodeploy_platform.Worker.Events.{iterate, deployment_secret_values, record_event}
use autodeploy_platform.Worker.Lifecycle.{transition_deployment, transition_build}
use autodeploy_platform.Worker.Reconciliation.{
  is_in_progress, record_step_event, record_reconcile_event, fail_deployment, fail_build,
  recover_claim, clear_claim, release_stale_claim, reconcile_claimed_at, reconcile_stale_claim,
}

-- No time and no worker stand in the two columns of a claim.
abbrev pub Unclaimed : PlatformDeployment → Type 0
Unclaimed d = (d.claimed_at ≡ none) × (d.claimed_by ≡ none)

-- The deployment `id` has no claim, where it is there.
abbrev pub IsFree : ℕ → Db → Type 0
IsFree id db = (d : PlatformDeployment) → find id db.deployments ≡ some d → Unclaimed d

record Freed (id : ℕ) (w : World) : Type 0 where
  free : IsFree id w.work
  alone : w.peers ≡ []

map-free :
    (f : PlatformDeployment → PlatformDeployment) (o : Option PlatformDeployment)
    → ((d : PlatformDeployment) → o ≡ some d → Unclaimed (f d))
    → (d : PlatformDeployment) → Option.map f o ≡ some d
    → Unclaimed d
map-free f none h d e = cc
map-free f (some r) h d e = let same : f r ≡ d = cc in subst Unclaimed same (h r refl)

module _ {id : ℕ} where
  update-free :
      (f : PlatformDeployment → PlatformDeployment) (w : World)
      → w.peers ≡ []
      → ((d : PlatformDeployment) → find id w.work.deployments ≡ some d → Unclaimed (f d))
      → Freed id (update_deployment id f w).1
  unfolding update_deployment write
  update-free f w alone h = record {
    free = λ d. rw (find-modify, ==_refl id) (map-free f (find id w.work.deployments) h d);
    alone = alone;
  }

  update_deployment-Freed :
      (f : PlatformDeployment → PlatformDeployment)
      → ((d : PlatformDeployment) → (f d).claimed_at ≡ d.claimed_at)
      → ((d : PlatformDeployment) → (f d).claimed_by ≡ d.claimed_by)
      → Keeps (Freed id) (update_deployment id f)
  update_deployment-Freed f same_time same_worker = record {
    after = λ w h. update-free f w h.alone (λ d stored.
        let (free, unowned) = h.free d stored in (same_time d ∙ free, same_worker d ∙ unowned));
  }

  update_build-Freed :
      (build_id : ℕ) (f : Build → Build) → Keeps (Freed id) (update_build build_id f)
  unfolding update_build write
  update_build-Freed build_id f = record {
    after = λ w h. record { free = h.free; alone = h.alone };
  }

  add_event-Freed : (event : DeploymentEvent) → Keeps (Freed id) (add_event event)
  unfolding add_event write
  add_event-Freed event = record { after = λ w h. record { free = h.free; alone = h.alone } }

  now_utc-Freed : (env : Environment) → Keeps (Freed id) (now_utc env)
  unfolding now_utc
  now_utc-Freed env = record { after = λ w h. record { free = h.free; alone = h.alone } }

ruleset freed_rules =
    (keeps_rules, update_deployment-Freed, update_build-Freed, add_event-Freed, now_utc-Freed, refl)

module _ {id : ℕ} (env : Environment) where
  iterate-Freed : (v : Json) → Keeps (Freed id) (iterate v)
  unfolding iterate
  iterate-Freed null = search keeps_rules
  iterate-Freed (bool b) = search keeps_rules
  iterate-Freed _ = search keeps_rules

  deployment_secret_values-Freed :
      (d : PlatformDeployment) → Keeps (Freed id) (deployment_secret_values env d)
  unfolding deployment_secret_values
  deployment_secret_values-Freed d = search (keeps_rules, iterate-Freed) depth 20

  record_reconcile_event-Freed :
      (event_type message level : String) (metadata : Dict)
      → Keeps (Freed id) (record_reconcile_event env id event_type message level metadata)
  unfolding record_reconcile_event record_step_event record_event
  record_reconcile_event-Freed event_type message level metadata =
      search (freed_rules, deployment_secret_values-Freed) depth 20

  transition_deployment-Freed :
      (status : DeploymentStatus) → Keeps (Freed id) (transition_deployment id status)
  unfolding transition_deployment
  transition_deployment-Freed status = search freed_rules depth 12

  transition_build-Freed :
      (build_id : ℕ) (status : BuildStatus) → Keeps (Freed id) (transition_build build_id status)
  unfolding transition_build
  transition_build-Freed build_id status = search freed_rules depth 12

  fail_deployment-Freed : (message : String) → Keeps (Freed id) (fail_deployment env id message)
  unfolding fail_deployment
  fail_deployment-Freed message = search (freed_rules, transition_deployment-Freed) depth 12

  fail_build-Freed : (message : String) → Keeps (Freed id) (fail_build env id message (now_utc env))
  unfolding fail_build
  fail_build-Freed message = search (freed_rules, transition_build-Freed) depth 12

-- How an action ends that releases the claim first, and then keeps it released.
abbrev Ends : ℕ → Outcome (Unit {0}) × World → Type 0
Ends id (ok x, v) = Freed id v
Ends id (raised e, v) = Unit

module _ (id : ℕ) where
  Freed-Ends : (r : Outcome (Unit {0})) (v : World) → Freed id v → Ends id (r, v)
  Freed-Ends (ok x) v h = h
  Freed-Ends (raised e) v h = tt

  commit-saved : (v : World) → Freed id v → IsFree id (commit v).1.saved
  unfolding commit end_transaction
  commit-saved v h = rw h.alone h.free

  Ends-saved :
      (r : Outcome (Unit {0})) (v : World)
      → Ends id (r, v)
      → (resume (λ _. commit >> pure true) r v).0 ≡ ok true
      → IsFree id (resume (λ _. commit >> pure true) r v).1.saved
  unfolding ◌>>=◌ pure commit
  Ends-saved (ok x) v h e = commit-saved v h
  Ends-saved (raised fault) v h e = cc

module _ (env : Environment) (id : ℕ) (w : World) (alone : w.peers ≡ []) where
  release-Ends :
      (tail : Action (Unit {0}))
      → Keeps (Freed id) tail
      → Ends id ((release_deployment_claim env id >> tail) w)
  unfolding release_deployment_claim the_deployment view found ◌>>=◌ update_deployment
  release-Ends tail k = elim (Option-cases (find id w.work.deployments)) [
    | inl gone ↦ rw gone tt
    | inr stored ↦ rw stored.1 (
        let freed =
          update-free (λ d. record d { claimed_at = none; claimed_by = none }) w alone
            (λ d e. (refl, refl)) in
        Freed-Ends id (tail _).0 (tail _).1 (k.after _ freed))
  ]

  recover_claim-Ends : (metadata : Dict) → Ends id (recover_claim env id metadata w)
  unfolding recover_claim
  recover_claim-Ends metadata = release-Ends _ (
      search (freed_rules, fail_deployment-Freed, fail_build-Freed, record_reconcile_event-Freed)
        depth 12)

  clear_claim-Ends :
      (message : String) (metadata : Dict) → Ends id (clear_claim env id message metadata w)
  unfolding clear_claim
  clear_claim-Ends message metadata = release-Ends _ (record_reconcile_event-Freed env _ _ _ _)

  release_stale_claim-frees :
      (d : PlatformDeployment) (at : Timestamp)
      → (release_stale_claim env id d at w).0 ≡ ok true
      → IsFree id (release_stale_claim env id d at w).1.saved
  unfolding release_stale_claim ◌>>=◌
  release_stale_claim-frees d at = elim (Bool-cases (is_in_progress d.status)) [
    | inl busy ↦ rw busy (Ends-saved id _ _ (recover_claim-Ends _))
    | inr idle ↦ rw idle (Ends-saved id _ _ (clear_claim-Ends _ _))
  ]

reconcile_claimed_at-frees :
    (env : Environment) (id : ℕ) (d : PlatformDeployment) (o : Option Timestamp) (w : World)
    → w.peers ≡ []
    → (reconcile_claimed_at env id d o w).0 ≡ ok true
    → IsFree id (reconcile_claimed_at env id d o w).1.saved
unfolding reconcile_claimed_at ◌>>=◌ now_utc pure
reconcile_claimed_at-frees env id d none w alone = λ h. cc
reconcile_claimed_at-frees env id d (some at) w alone =
    elim (Bool-cases (ltb at (env.clock w.reads - seconds env.claim_ttl_seconds))) [
      | inl stale ↦ rw stale (release_stale_claim-frees env id _ alone d at)
      | inr fresh ↦ rw fresh (λ h. cc)
    ]

-- Where no other process commits meanwhile and the repair of a stale claim answers that it has
-- changed something, the deployment has no `claimed_at` and no `claimed_by` in the committed database, if it is
-- there.
pub reconcile_stale_claim-frees :
    (env : Environment) (id : ℕ) (w : World)
    → w.peers ≡ []
    → (reconcile_stale_claim env id w).0 ≡ ok true
    → IsFree id (reconcile_stale_claim env id w).1.saved
unfolding reconcile_stale_claim ◌>>=◌ the_deployment view found pure raise
reconcile_stale_claim-frees env id w alone = elim (Option-cases (find id w.work.deployments)) [
  | inl gone ↦ rw gone (λ h. cc)
  | inr stored ↦
      rw stored.1 (reconcile_claimed_at-frees env id stored.0 stored.0.claimed_at w alone)
]
