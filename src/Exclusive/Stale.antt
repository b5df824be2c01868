-- ===== src/Exclusive/Stale.antt =====
-- What `reconcile_stale_claim` of worker/reconciliation/claims.py does to a claim.
use autodeploy_platform.Prelude.{
  ℕ, ◌-◌, ◌≡◌, refl, Bool, false, Option, none, some, find, ltb, arith,
}
use Prim.Native.Nat.{◌≤◌}
use autodeploy_platform.Models.Rows.{Timestamp, PlatformDeployment}
use autodeploy_platform.Session.{
  Environment, World, ok, Action, pure, ◌>>=◌, view, found, now_utc, the_deployment,
}
use autodeploy_platform.Worker.Claims.{seconds}
use autodeploy_platform.Worker.Reconciliation.{reconcile_claimed_at, reconcile_stale_claim}

-- A claim that is not there, or not older than the time to live at `now`.
abbrev pub IsFresh : Environment → (now : Timestamp) → Option Timestamp → Type 0
IsFresh env now none = Unit
IsFresh env now (some at) = now - seconds env.claim_ttl_seconds ≤ at

-- Nothing is repaired, and both views of the database are as they were.
pub record LeftAlone (m : Action Bool) (w : World) : Type 0 where
  pub answer : (m w).0 ≡ ok false
  pub saved : (m w).1.saved ≡ w.saved
  pub work : (m w).1.work ≡ w.work

module _ (env : Environment) (id : ℕ) (d : PlatformDeployment) (w : World) where
  reconcile_claimed_at-LeftAlone :
      (o : Option Timestamp)
      → IsFresh env (env.clock w.reads) o
      → LeftAlone (reconcile_claimed_at env id d o) w
  unfolding reconcile_claimed_at ◌>>=◌ now_utc pure
  reconcile_claimed_at-LeftAlone none h = record { answer = refl; saved = refl; work = refl }
  reconcile_claimed_at-LeftAlone (some at) h =
      let not_stale : ltb at (env.clock w.reads - seconds env.claim_ttl_seconds) ≡ false =
        ground arith in
      record { answer = rw not_stale refl; saved = rw not_stale refl; work = rw not_stale refl }

-- A deployment without a claim, or whose claim is not older than the time to live, is left alone by
-- the repair of stale claims: it answers that nothing was changed, and nothing is.
pub reconcile_stale_claim_leaves_fresh :
    (env : Environment) (id : ℕ) (w : World) (d : PlatformDeployment)
    → find id w.work.deployments ≡ some d
    → IsFresh env (env.clock w.reads) d.claimed_at
    → LeftAlone (reconcile_stale_claim env id) w
unfolding reconcile_stale_claim ◌>>=◌ the_deployment view found pure
reconcile_stale_claim_leaves_fresh env id w d stored fresh =
    let left = reconcile_claimed_at-LeftAlone env id d w d.claimed_at fresh in
    record {
      answer = rw stored left.answer;
      saved = rw stored left.saved;
      work = rw stored left.work;
    }
