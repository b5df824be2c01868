-- ===== src/CommandRequests/Repeated.antt =====
-- Requests that are repeated (control_plane/application/command_requests.py).
use autodeploy_platform.Prelude.{
  ℕ, String, ◌≡◌, refl, ◌∙◌, ap, Bool, true, false, Option, none, some, [], ◌∷◌, ◌++◌, Table, find,
  first, order_by, insert_by, where_rows, fresh, leb, Bool-cases, Option-cases, inl, inr, ==_refl,
}
use autodeploy_platform.Models.Rows.{CommandType, stop, cleanup, DeploymentCommand}
use autodeploy_platform.Session.{
  Environment, World, ok, pure, raise, ◌>>=◌, view, found, write, now_utc, rollback, the_deployment,
  add_event,
}
use autodeploy_platform.CommandRequests.{
  same_type, oldest, is_awaited, new_command, winner, insert_command, add_command, answer_request,
  request_deployment_command,
}

module _ {R : Type 0} where
  insert_by-first :
      {P : Type 0} (by : R → ℕ) (row : ℕ × R) (t : Table R) → first (insert_by by row t) ≡ none → P
  unfolding insert_by
  insert_by-first by (i, r) [] = λ h. cc
  insert_by-first by (i, r) ((j, s) ∷ t) = elim (Bool-cases (leb (by r) (by s))) [
    | inl before ↦ rw before (λ h. cc)
    | inr later ↦ rw later (λ h. cc)
  ]

  -- Nothing comes first only where there is nothing.
  order_by-nil : (by : R → ℕ) (t : Table R) → first (order_by by t) ≡ none → t ≡ []
  unfolding order_by
  order_by-nil by [] h = refl
  order_by-nil by (row ∷ t) h = insert_by-first by row (order_by by t) h

  where_rows-last :
      (test : R → Bool) (k : ℕ) (r : R) (t : Table R)
      → where_rows test t ≡ []
      → test r ≡ true
      → where_rows test (t ++ ((k, r) ∷ [])) ≡ (k, r) ∷ []
  unfolding where_rows
  where_rows-last test k r [] = λ h e. rw e refl
  where_rows-last test k r ((i, s) ∷ t) = elim (Bool-cases (test s)) [
    | inl kept ↦ rw kept (λ h e. cc)
    | inr dropped ↦ rw dropped (λ h e. where_rows-last test k r t h e)
  ]

same_type_refl : (type : CommandType) → same_type type type ≡ true
same_type_refl stop = refl
same_type_refl cleanup = refl

module _ (deployment_id : ℕ) (type : CommandType) where
  winner-old :
      {P : Type 0} (o : Option (ℕ × DeploymentCommand)) (k : ℕ) (w : World)
      → (winner o w).0 ≡ ok (k, true)
      → P
  unfolding winner pure raise
  winner-old none k w h = cc
  winner-old (some (j, c)) k w h = cc

  insert_command-new :
      (c : DeploymentCommand) (o : Option (ℕ × DeploymentCommand)) (k : ℕ) (w : World)
      → (insert_command deployment_id type c o w).0 ≡ ok (k, true)
      → (insert_command deployment_id type c o w).1.work.commands ≡ w.work.commands ++ ((k, c) ∷ [])
  unfolding insert_command ◌>>=◌ rollback view write pure
  insert_command-new c (some holder) k w h = winner-old _ k _ h
  insert_command-new c none k w h =
      let same : fresh w.work.commands ≡ k = cc in ap (λ n. w.work.commands ++ ((n, c) ∷ [])) same

  -- The new row is the last.
  pub record Requested (w v : World) (k : ℕ) : Type 0 where
    pub command : DeploymentCommand
    pub last : v.work.commands ≡ w.work.commands ++ ((k, command) ∷ [])
    pub awaited : is_awaited deployment_id type command ≡ true

  module _ (env : Environment) (message request_id : Option String) where
    add_command-Requested :
        (k : ℕ) (w : World)
        → (add_command env deployment_id type message request_id w).0 ≡ ok (k, true)
        → Requested w (add_command env deployment_id type message request_id w).1 k
    unfolding add_command ◌>>=◌ the_deployment view found add_event write now_utc pure raise
    add_command-Requested k w = elim (Option-cases (find deployment_id w.work.deployments)) [
      | inl gone ↦ rw gone (λ h. cc)
      | inr stored ↦ rw stored.1 (λ h. record {
        command = new_command deployment_id type message request_id (env.clock w.reads);
        last = insert_command-new _ _ k _ h;
        awaited = rw (==_refl deployment_id, same_type_refl type) refl;
      })
    ]

    request-Requested :
        (k : ℕ) (w : World)
        → (request_deployment_command env deployment_id type message request_id w).0 ≡ ok (k, true)
        → (where_rows (is_awaited deployment_id type) w.work.commands ≡ [])
          × Requested w (request_deployment_command env deployment_id type message request_id w).1 k
    unfolding request_deployment_command answer_request ◌>>=◌ view pure oldest
    request-Requested k w =
        elim (Option-cases (oldest (is_awaited deployment_id type) w.work.commands)) [
          | inl nothing ↦ rw nothing (λ h. (order_by-nil _ _ nothing, add_command-Requested k w h))
          | inr active ↦ rw active.1 (λ h. cc)
        ]

answered :
    (env : Environment) (deployment_id : ℕ) (type : CommandType)
    (message request_id : Option String) (k : ℕ) (c : DeploymentCommand) (v : World)
    → where_rows (is_awaited deployment_id type) v.work.commands ≡ (k, c) ∷ []
    → request_deployment_command env deployment_id type message request_id v ≡ (ok (k, false), v)
unfolding request_deployment_command answer_request ◌>>=◌ view pure oldest order_by insert_by
answered env deployment_id type message request_id k c v e = rw e refl

-- Where a request has made a new command, a further request for the same deployment and type,
-- whatever its message and origin, is answered by that command as one that was there, and changes
-- nothing.
pub request_deployment_command_repeats :
    (env : Environment) (deployment_id : ℕ) (type : CommandType)
    (message request_id again_message again_id : Option String) (k : ℕ) (w : World)
    → (request_deployment_command env deployment_id type message request_id w).0 ≡ ok (k, true)
    → request_deployment_command env deployment_id type again_message again_id
        (request_deployment_command env deployment_id type message request_id w).1
      ≡ (ok (k, false), (request_deployment_command env deployment_id type message request_id w).1)
request_deployment_command_repeats env deployment_id type message request_id again_message again_id
      k w h =
    let (none_before, made) = request-Requested deployment_id type env message request_id k w h in
    answered env deployment_id type again_message again_id k made.command _ (
      ap (where_rows (is_awaited deployment_id type)) made.last
      ∙ where_rows-last _ k made.command w.work.commands none_before made.awaited)
