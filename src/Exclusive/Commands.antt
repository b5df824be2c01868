-- ===== src/Exclusive/Commands.antt =====
-- What `claim_next_pending_command` of worker/processing/command_processor.py leaves in the
-- database.
use autodeploy_platform.Prelude.{
  ℕ, ◌+◌, ◌-◌, String, ◌≡◌, refl, ◌⊎◌, inl, inr, Bool, true, false, ◌&&◌, Option, none, some, [],
  ◌∷◌, Table, find, modify, or_else, Bool-cases, subst, arith,
}
use autodeploy_platform.Models.Rows.{Timestamp, PlatformDeployment, DeploymentCommand, Db}
use autodeploy_platform.Session.{
  Environment, World, ok, pure, ◌>>=◌, view, now_utc, commit, rollback, write, update_command,
  end_transaction,
}
use autodeploy_platform.Worker.Claims.{seconds, expected, is_active}
use autodeploy_platform.Worker.Commands.Claims.{
  update_command_found, update_command_where, is_free, deployment_is_free, is_claimable_command,
  claim_command, if_present, claim_first_command, claim_next_pending_command,
}

update_command_found-cases :
    (id : ℕ) (guard : DeploymentCommand → Bool) (f : DeploymentCommand → DeploymentCommand)
    (o : Option DeploymentCommand) (w : World)
    → ((c : DeploymentCommand) × (o ≡ some c)
        × (guard c ≡ true)
        × (update_command_found id guard f o w ≡ (ok true, (update_command id f w).1)))
      ⊎ (update_command_found id guard f o w ≡ (ok false, w))
unfolding update_command_found ◌>>=◌ update_command write pure
update_command_found-cases id guard f none w = inr refl
update_command_found-cases id guard f (some c) w = elim (Bool-cases (guard c)) [
  | inl pass ↦ inl (c, refl, pass, rw pass refl)
  | inr stay ↦ inr (rw stay refl)
]

update_command_where-cases :
    (id : ℕ) (guard : Db → DeploymentCommand → Bool) (f : DeploymentCommand → DeploymentCommand)
    (w : World)
    → ((c : DeploymentCommand) × (find id w.work.commands ≡ some c)
        × (guard w.work c ≡ true)
        × (update_command_where id guard f w ≡ (ok true, (update_command id f w).1)))
      ⊎ (update_command_where id guard f w ≡ (ok false, w))
unfolding update_command_where ◌>>=◌ view
update_command_where-cases id guard f w =
    update_command_found-cases id (guard w.work) f (find id w.work.commands) w

-- The command `id` could be claimed in `before`, its deployment is there and free, and `after` is
-- `before` with the worker's claim on it at some time.
pub record CommandClaimed (before after : Db) (id : ℕ) (stale_before : Timestamp) (worker : String)
    : Type 0 where
  pub row : DeploymentCommand
  pub stored : find id before.commands ≡ some row
  pub claimable : is_claimable_command stale_before before row ≡ true
  pub deployment : PlatformDeployment
  pub of : find row.deployment_id before.deployments ≡ some deployment
  pub free : is_free stale_before deployment.claimed_at ≡ true
  pub at : Timestamp
  pub only :
      after ≡ record before { commands = modify id (claim_command at worker) before.commands }

free_deployment :
    (stale_before : Timestamp) (o : Option PlatformDeployment)
    → deployment_is_free stale_before o ≡ true
    → (d : PlatformDeployment) × (o ≡ some d) × (is_free stale_before d.claimed_at ≡ true)
free_deployment stale_before none h = cc
free_deployment stale_before (some d) h = (d, refl, h)

last_and : (a b c : Bool) → (a && b && c) ≡ true → c ≡ true
last_and a b c h = ground arith

found_id : {A : Type 0} (id n : ℕ) (o : Option A) → ok (if_present id o) ≡ ok (some n) → id ≡ n
unfolding if_present
found_id id n none h = cc
found_id id n (some a) h = cc

module _ {before after : Db} {stale_before : Timestamp} {worker : String} where
  CommandClaimed-at :
      {id n : ℕ}
      → id ≡ n
      → CommandClaimed before after id stale_before worker
      → CommandClaimed before after n stale_before worker
  CommandClaimed-at same c = subst (λ k. CommandClaimed before after k stale_before worker) same c

claimed_row :
    (stale_before at : Timestamp) (worker : String) (before : Db) (id : ℕ) (c : DeploymentCommand)
    → find id before.commands ≡ some c
    → is_claimable_command stale_before before c ≡ true
    → CommandClaimed before
        (record before { commands = modify id (claim_command at worker) before.commands })
        id
        stale_before
        worker
claimed_row stale_before at worker before id c stored pass =
    let (d, of, free) =
      free_deployment stale_before (find c.deployment_id before.deployments)
        (last_and (is_active c.status) (is_free stale_before c.claimed_at) _ pass) in
    record {
      row = c;
      stored = stored;
      claimable = pass;
      deployment = d;
      of = of;
      free = free;
      at = at;
      only = refl;
    }

module _ (env : Environment) (stale_before : Timestamp) (worker : String) where
  claim_first_command-CommandClaimed :
      (candidates : Table DeploymentCommand) (n : ℕ) (w : World)
      → w.peers ≡ []
      → (claim_first_command env stale_before worker candidates w).0 ≡ ok (some n)
      → CommandClaimed w.work
          (claim_first_command env stale_before worker candidates w).1.saved
          n
          stale_before
          worker
  unfolding claim_first_command ◌>>=◌ pure rollback update_command write now_utc commit
      end_transaction view
  claim_first_command-CommandClaimed [] n w alone = λ h. cc
  claim_first_command-CommandClaimed ((id, previous) ∷ rest) n w alone =
      let v = record w { reads = w.reads + 1 } in
      let at = env.clock w.reads in
      elim (update_command_where-cases id (is_claimable_command stale_before)
        (claim_command at worker) v) [
          | inl won ↦ rw won.3 (
              rw alone (λ h.
                CommandClaimed-at (found_id id n _ h)
                  (claimed_row stale_before at worker w.work id won.0 won.1 won.2)))
          | inr lost ↦ rw lost (λ h. claim_first_command-CommandClaimed rest n v alone h)
        ]

-- Where no other process commits meanwhile, a claim that returns a command has taken a row that was
-- pending or claimed, and had no claim or one older than the time to live. Its deployment is there
-- and has itself no claim, or one older than that. The worker's claim on that command is all that
-- the call commits.
pub claim_next_pending_command-CommandClaimed :
    (env : Environment) (worker : Option String) (ttl : Option ℕ) (w : World) (n : ℕ)
    → w.peers ≡ []
    → (claim_next_pending_command env worker ttl w).0 ≡ ok (some n)
    → CommandClaimed w.work
        (claim_next_pending_command env worker ttl w).1.saved
        n
        (env.clock w.reads - seconds (or_else ttl env.claim_ttl_seconds))
        (expected env worker)
unfolding claim_next_pending_command ◌>>=◌ view now_utc
claim_next_pending_command-CommandClaimed env worker ttl w n alone h =
    claim_first_command-CommandClaimed env _ _ _ n (record w { reads = w.reads + 1 }) alone h
