-- ===== src/Exclusive/Claiming.antt =====
-- What `claim_next_pending_deployment` of worker/processing/claims.py leaves in the database.
use autodeploy_platform.Prelude.{
  ℕ, ◌+◌, ◌-◌, String, ◌≡◌, refl, ap, subst, ◌⊎◌, inl, inr, Bool, true, false, Option, none, some,
  [], ◌∷◌, Table, find, modify, find-modify, ==_refl, Bool-cases, or_else, arith,
}
use Prim.Native.Nat.{◌≤◌}
use autodeploy_platform.Models.Rows.{Timestamp, PlatformDeployment}
use autodeploy_platform.Session.{
  Environment, World, Outcome, ok, raised, Action, pure, resume, now_utc, ◌>>=◌, ◌>>◌, view, commit,
  rollback, write, update_deployment, end_transaction,
}
use autodeploy_platform.Session.Keeps.{Keeps, bind-Keeps, pure-Keeps}
use autodeploy_platform.Worker.Claims.{
  seconds, expected, update_found, update_where, is_claimable, claim_first,
  claim_next_pending_deployment,
}
use autodeploy_platform.Worker.Claims.Ownership.{Owns}
use autodeploy_platform.Exclusive.Quiet.{
  Tables, tables, Quiet, commit-Quiet, end_transaction-Quiet, write_claim_event-Quiet,
}

-- A guarded UPDATE writes to the row that it found, or nothing.
update_found-cases :
    (id : ℕ) (guard : PlatformDeployment → Bool) (f : PlatformDeployment → PlatformDeployment)
    (o : Option PlatformDeployment) (w : World)
    → ((d : PlatformDeployment) × (o ≡ some d)
        × (guard d ≡ true)
        × (update_found id guard f o w ≡ (ok true, (update_deployment id f w).1)))
      ⊎ (update_found id guard f o w ≡ (ok false, w))
unfolding update_found ◌>>=◌ update_deployment write pure
update_found-cases id guard f none w = inr refl
update_found-cases id guard f (some d) w = elim (Bool-cases (guard d)) [
  | inl pass ↦ inl (d, refl, pass, rw pass refl)
  | inr stay ↦ inr (rw stay refl)
]

update_where-cases :
    (id : ℕ) (guard : PlatformDeployment → Bool) (f : PlatformDeployment → PlatformDeployment)
    (w : World)
    → ((d : PlatformDeployment) × (find id w.work.deployments ≡ some d)
        × (guard d ≡ true)
        × (update_where id guard f w ≡ (ok true, (update_deployment id f w).1)))
      ⊎ (update_where id guard f w ≡ (ok false, w))
unfolding update_where ◌>>=◌ view
update_where-cases id guard f w = update_found-cases id guard f (find id w.work.deployments) w

-- The end of a claim that was won: `m` writes an event.
recorded : Action (Unit {0}) → ℕ → Action (Option ℕ)
recorded m id = do commit; m; commit; pure (some id)

answered :
    {A : Type 0} (r : Outcome A) (a n : ℕ) (w : World)
    → (resume (λ _. pure (some a)) r w).0 ≡ ok (some n)
    → a ≡ n
unfolding pure
answered (ok x) a n w h = cc
answered (raised e) a n w h = cc

same_answer :
    {A : Type 0} (r : Outcome A) (a n : ℕ) (w : World)
    → (resume (λ _. commit >> pure (some a)) r w).0 ≡ ok (some n)
    → a ≡ n
unfolding ◌>>=◌
same_answer (ok x) a n w h = answered (commit w).0 a n (commit w).1 h
same_answer (raised e) a n w h = cc

recorded_lem :
    (m : Action (Unit {0})) (id n : ℕ) (w : World)
    → w.peers ≡ []
    → Keeps (Quiet (tables w.work)) m
    → (recorded m id w).0 ≡ ok (some n)
    → (id ≡ n) × (tables (recorded m id w).1.saved ≡ tables w.work)
unfolding recorded ◌>>=◌ commit
recorded_lem m id n w alone keeps h =
    let v = end_transaction w.work w.reads w.peers in
    let start = end_transaction-Quiet w.work w.reads w.peers alone refl in
    (
      same_answer (m v).0 id n (m v).1 h,
      ((bind-Keeps m _ keeps
            (λ _. bind-Keeps commit _ commit-Quiet (λ _. pure-Keeps (some id)))).after
          v start).saved,
    )

-- The claim that is written.
abbrev claim : Timestamp → String → PlatformDeployment → PlatformDeployment
claim at worker d = record d { claimed_at = some at; claimed_by = some worker }

-- The row `id` was claimable in `before`, and is the worker's in `after`.
pub record Claimed (env : Environment) (before after : Table PlatformDeployment) (id : ℕ)
    (stale_before : Timestamp) (at : Timestamp) (worker : String) : Type 0 where
  pub row : PlatformDeployment
  pub stored : find id before ≡ some row
  pub claimable : is_claimable env stale_before row ≡ true
  pub only : after ≡ modify id (claim at worker) before

module _ {env : Environment} {before after : Table PlatformDeployment} {stale_before at : Timestamp}
    {worker : String} where
  Claimed-at :
      {id n : ℕ}
      → id ≡ n
      → Claimed env before after id stale_before at worker
      → Claimed env before after n stale_before at worker
  Claimed-at same c = subst (λ k. Claimed env before after k stale_before at worker) same c

module _ (env : Environment) (stale_before at : Timestamp) (worker : String) where
  claim_first-Claimed :
      (candidates : Table PlatformDeployment) (n : ℕ) (w : World)
      → w.peers ≡ []
      → (claim_first env stale_before at worker candidates w).0 ≡ ok (some n)
      → Claimed env w.work.deployments
          (claim_first env stale_before at worker candidates w).1.saved.deployments
          n
          stale_before
          at
          worker
  unfolding claim_first ◌>>=◌ pure rollback update_deployment recorded write
  claim_first-Claimed [] n w alone = λ h. cc
  claim_first-Claimed ((id, previous) ∷ rest) n w alone =
      elim (update_where-cases id (is_claimable env stale_before) (claim at worker) w) [
        | inl won ↦ rw won.3 (λ h.
            let (same, kept) =
              recorded_lem _ id n (update_deployment id (claim at worker) w).1 alone
                (write_claim_event-Quiet env id _ _ _ _) h in
            Claimed-at same (record {
              row = won.0;
              stored = won.1;
              claimable = won.2;
              only = ap (λ (x : Tables). x.2) kept;
            }))
        | inr lost ↦ rw lost (λ h. claim_first-Claimed rest n w alone h)
      ]

-- Where no other process commits meanwhile, a claim that returns a deployment has taken a row that
-- was pending and had no claim or one older than the time to live, and has committed to the table
-- of deployments the worker's claim on that row, and nothing else.
pub claim_next_pending_deployment-Claimed :
    (env : Environment) (worker : Option String) (ttl : Option ℕ) (w : World) (n : ℕ)
    → w.peers ≡ []
    → (claim_next_pending_deployment env worker ttl w).0 ≡ ok (some n)
    → Claimed env w.work.deployments
        (claim_next_pending_deployment env worker ttl w).1.saved.deployments
        n
        (env.clock w.reads - seconds (or_else ttl env.claim_ttl_seconds))
        (env.clock (w.reads + 1))
        (expected env worker)
unfolding claim_next_pending_deployment ◌>>=◌ view now_utc
claim_next_pending_deployment-Claimed env worker ttl w n alone h =
    claim_first-Claimed env _ _ _ _ n (record w { reads = w.reads + 1 + 1 }) alone h

-- Once a row has been claimed by a worker at a time, it is in the table as that worker's since that
-- time, and no worker can claim it whose limit for stale claims is not after that time.
pub Claimed-exclusive :
    (env : Environment) (before after : Table PlatformDeployment) (id : ℕ)
    (stale_before at : Timestamp) (worker : String) (later : Timestamp)
    → Claimed env before after id stale_before at worker
    → later ≤ at
    → (row : PlatformDeployment) × (find id after ≡ some row)
      × (is_claimable env later row ≡ false)
      × Owns (find id after) worker at
Claimed-exclusive env before after id stale_before at worker later c recent =
    let row = claim at worker c.row in
    let stored : find id after ≡ some row = rw (c.only, find-modify, c.stored, ==_refl id) refl in
    (row, stored, ground arith, record { row = row; stored = stored; at = refl; by = refl })
