-- ===== src/Evolution/Commands/Claims.antt =====
-- Claims of commands and the permitted change of the database.
use autodeploy_platform.Prelude.{
  ℕ, String, ◌≡◌, refl, ◌∙◌, subst, inl, inr, Bool, true, false, Option, none, some, [], ◌∷◌, Table,
  find, modify, find-modify, ◌==◌, ==_iff, Bool-cases, arith,
}
use autodeploy_platform.Models.Rows.{Timestamp, CommandStatus, DeploymentCommand, Db}
use autodeploy_platform.Session.{
  Environment, World, Outcome, ok, raised, Action, raise, resume, ◌>>=◌, view, write,
  update_command,
}
use autodeploy_platform.Session.Keeps.{Keeps, bind-Keeps, if-Keeps, keeps_rules}
use autodeploy_platform.Evolution.Rows.{
  Evolves, Evolves-refl, BuildEvolves, BuildEvolves-refl, is_settled, request, CommandEvolves,
  CommandEvolves-refl,
}
use autodeploy_platform.Evolution.Database.{DbEvolves, DbEvolves-refl, Rows, modify-Rows, Rows-refl}
use autodeploy_platform.Evolution.Session.{From, work-From, now_utc-Keeps}
use autodeploy_platform.Evolution.Reading.{view-then}
use autodeploy_platform.Evolution.Claims.{session_rules}
use autodeploy_platform.Worker.Claims.{is_active, expected}
use autodeploy_platform.Worker.Commands.Claims.{
  is_claimed, update_command_found, update_command_where, claim_first_command,
  claim_next_pending_command, holds_command, check_command_owner, ensure_command_claim_owned,
  refresh_command_claim, command_heartbeat,
}

-- The command was not over at the start.
abbrev pub IsUnsettled : Db → ℕ → Type 0
IsUnsettled start id =
    (c : DeploymentCommand) → find id start.commands ≡ some c → is_settled c.status ≡ false

-- A change of an unsettled command that keeps what was requested.
unsettled_change :
    (c c' : DeploymentCommand)
    → is_settled c.status ≡ false
    → request c ≡ request c'
    → CommandEvolves c c'
unsettled_change c c' unsettled same = record { same_request = same; settled = λ over. cc }

commands-DbEvolves :
    (db : Db) (t : Table DeploymentCommand)
    → Rows CommandEvolves db.commands t
    → DbEvolves db (record db { commands = t })
commands-DbEvolves db t e = record {
  deployments = Rows-refl Evolves Evolves-refl db.deployments;
  builds = Rows-refl BuildEvolves BuildEvolves-refl db.builds;
  commands = e;
  events = (DbEvolves-refl db).events;
}

modified :
    (id : ℕ) (f : DeploymentCommand → DeploymentCommand) (s t : Table DeploymentCommand)
    → Rows CommandEvolves s t
    → ((c : DeploymentCommand) → find id s ≡ some c → is_settled c.status ≡ false)
    → ((c : DeploymentCommand) → request c ≡ request (f c))
    → Rows CommandEvolves s (modify id f t)
modified id f s t e unsettled same k r found =
    let (r', found', e') = e k r found in
    elim (Bool-cases (id == k)) [
      | inl here ↦ (
        f r',
        rw (find-modify, here, found'),
        unsettled_change r (f r') (unsettled r (rw ((==_iff id k).0 here) found))
            (e'.same_request ∙ same r'),
      )
      | inr there ↦ (r', rw (find-modify, there) found', e')
    ]

module _ {start : Db} where
  -- A write to the row that was read.
  pub update_found_command-From :
      (id : ℕ) (f : DeploymentCommand → DeploymentCommand) (w : World) (c : DeploymentCommand)
      → find id w.work.commands ≡ some c
      → CommandEvolves c (f c)
      → From start w
      → From start (update_command id f w).1
  unfolding update_command write
  update_found_command-From id f w c found e h = work-From w _ h (
      commands-DbEvolves w.work _ (
        modify-Rows CommandEvolves CommandEvolves-refl id f w.work.commands
          (λ r same. subst (λ x. CommandEvolves x (f x)) (cc) e)))

  update_command_found-Keeps :
      (id : ℕ) (guard : DeploymentCommand → Bool) (f : DeploymentCommand → DeploymentCommand)
      (o : Option DeploymentCommand) (w : World)
      → find id w.work.commands ≡ o
      → ((c : DeploymentCommand) → guard c ≡ true → CommandEvolves c (f c))
      → From start w
      → From start (update_command_found id guard f o w).1
  unfolding update_command_found ◌>>=◌ update_command write
  update_command_found-Keeps id guard f none w found e h = h
  update_command_found-Keeps id guard f (some c) w found e h = elim (Bool-cases (guard c)) [
    | inl pass ↦ rw pass (update_found_command-From id f w c found (e c pass) h)
    | inr stay ↦ rw stay h
  ]

  pub update_command_where-Keeps :
      (id : ℕ) (guard : Db → DeploymentCommand → Bool) (f : DeploymentCommand → DeploymentCommand)
      → ((db : Db) (c : DeploymentCommand) → guard db c ≡ true → CommandEvolves c (f c))
      → Keeps (From start) (update_command_where id guard f)
  unfolding update_command_where
  update_command_where-Keeps id guard f e = view-then _ (λ w.
      update_command_found-Keeps id (guard w.work) f (find id w.work.commands) w refl (e w.work))

  -- A write to a command that was not over at the start.
  pub update_unsettled-Keeps :
      (id : ℕ) (f : DeploymentCommand → DeploymentCommand)
      → IsUnsettled start id
      → ((c : DeploymentCommand) → request c ≡ request (f c))
      → Keeps (From start) (update_command id f)
  unfolding update_command write
  update_unsettled-Keeps id f unsettled same = record {
    after = λ w h. record {
      saved = h.saved;
      work = record {
        deployments = h.work.deployments;
        builds = h.work.builds;
        commands = modified id f start.commands w.work.commands h.work.commands unsettled same;
        events = h.work.events;
      };
      peers = h.peers;
    };
  }

active_unsettled : (s : CommandStatus) → is_active s ≡ true → is_settled s ≡ false
active_unsettled CommandStatus.pending h = refl
active_unsettled CommandStatus.claimed h = refl
active_unsettled CommandStatus.skipped h = cc
active_unsettled CommandStatus.succeeded h = cc
active_unsettled CommandStatus.failed h = cc

claimed_active : (s : CommandStatus) → is_claimed s ≡ true → is_settled s ≡ false
claimed_active CommandStatus.claimed h = refl
claimed_active CommandStatus.pending h = cc
claimed_active CommandStatus.skipped h = cc
claimed_active CommandStatus.succeeded h = cc
claimed_active CommandStatus.failed h = cc

module _ {start : Db} (env : Environment) where
  claim_first_command-Keeps :
      (stale_before : Timestamp) (worker : String) (candidates : Table DeploymentCommand)
      → Keeps (From start) (claim_first_command env stale_before worker candidates)
  unfolding claim_first_command
  claim_first_command-Keeps stale_before worker [] = search session_rules
  claim_first_command-Keeps stale_before worker ((id, c) ∷ rest) =
      bind-Keeps _ _ (now_utc-Keeps env) λ at.
        bind-Keeps _ _
          (update_command_where-Keeps id _ _
            (λ db r pass. unsettled_change r _ (active_unsettled r.status (ground arith)) refl))
          λ won.
            if-Keeps won _ _ (search session_rules depth 12)
              (claim_first_command-Keeps stale_before worker rest)

  pub claim_next_pending_command-Keeps :
      (worker : Option String) (ttl : Option ℕ)
      → Keeps (From start) (claim_next_pending_command env worker ttl)
  unfolding claim_next_pending_command
  claim_next_pending_command-Keeps worker ttl =
      search (session_rules, claim_first_command-Keeps) depth 12

  check_command_owner-Keeps :
      (worker : String) (o : Option DeploymentCommand)
      → Keeps (From start) (check_command_owner env worker o)
  unfolding check_command_owner
  check_command_owner-Keeps worker none = search keeps_rules
  check_command_owner-Keeps worker (some c) = search keeps_rules

  ensure_command_claim_owned-Keeps :
      (id : ℕ) (worker : Option String)
      → Keeps (From start) (ensure_command_claim_owned env id worker)
  unfolding ensure_command_claim_owned
  ensure_command_claim_owned-Keeps id worker = search (keeps_rules, check_command_owner-Keeps)

  pub refresh_command_claim-Keeps :
      (id : ℕ) (worker : Option String) → Keeps (From start) (refresh_command_claim env id worker)
  unfolding refresh_command_claim
  refresh_command_claim-Keeps id worker =
      bind-Keeps _ _ (ensure_command_claim_owned-Keeps id worker) λ _.
        bind-Keeps _ _ (now_utc-Keeps env) λ at.
          bind-Keeps _ _
            (update_command_where-Keeps id _ _
              (λ db r pass. unsettled_change r _ (claimed_active r.status (ground arith)) refl))
            λ updated. search keeps_rules

  pub command_heartbeat-Keeps :
      (id : ℕ) (worker : Option String) → Keeps (From start) (command_heartbeat env id worker)
  unfolding command_heartbeat
  command_heartbeat-Keeps id worker = search (session_rules, refresh_command_claim-Keeps)

resumed :
    {A : Type 0} {B : Type 0} (r : Outcome A) (f : A → Action B) (w : World) (b : B)
    → (resume f r w).0 ≡ ok b
    → (a : A) × (r ≡ ok a)
resumed (ok a) f w b h = (a, refl)
resumed (raised e) f w b h = cc

owner_found :
    (env : Environment) (worker : String) (o : Option DeploymentCommand) (w : World)
    → (check_command_owner env worker o w).0 ≡ ok tt
    → (c : DeploymentCommand) × (o ≡ some c) × (holds_command env worker c ≡ true)
unfolding check_command_owner raise
owner_found env worker none w = λ h. cc
owner_found env worker (some c) w = elim (Bool-cases (holds_command env worker c)) [
  | inl holds ↦ λ h. (c, refl, holds)
  | inr lost ↦ rw lost (λ h. cc)
]

-- Where the claim was refreshed, the command is claimed by the worker.
pub refreshed :
    (env : Environment) (id : ℕ) (worker : Option String) (w : World)
    → (refresh_command_claim env id worker w).0 ≡ ok tt
    → (c : DeploymentCommand) × (find id w.work.commands ≡ some c)
      × (holds_command env (expected env worker) c ≡ true)
unfolding refresh_command_claim ensure_command_claim_owned ◌>>=◌ view
refreshed env id worker w h =
    let (a, owned) =
      resumed (check_command_owner env (expected env worker) (find id w.work.commands) w).0 _ _ tt
        h in
    owner_found env (expected env worker) (find id w.work.commands) w owned

module _ {start : Db} (env : Environment) where
  pub refreshed-IsUnsettled :
      (id : ℕ) (worker : Option String) (w : World)
      → From start w
      → (refresh_command_claim env id worker w).0 ≡ ok tt
      → IsUnsettled start id
  refreshed-IsUnsettled id worker w h done r found =
      let (c, stored, holds) = refreshed env id worker w done in
      let (r', found', e) = h.work.commands id r found in
      elim (Bool-cases (is_settled r.status)) [
        | inl over ↦
            let same : r ≡ c = e.settled over ∙ cc in
            let live : is_settled c.status ≡ false = claimed_active c.status (ground arith) in cc
        | inr live ↦ live
      ]
