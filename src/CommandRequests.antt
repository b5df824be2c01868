-- ===== src/CommandRequests.antt =====
-- control_plane/application/command_requests.py: a request for a stop or a cleanup becomes a command
-- that a worker runs. `request_id` is `current_request_id()`.
use autodeploy_platform.Prelude.{
  ℕ, String, Bool, true, false, ◌&&◌, ◌==◌, Option, none, some, List, [], ◌∷◌, ◌++◌, Table, find,
  first, order_by, where_rows, fresh, is_some, text_eq, or_text, fstring, if◌then◌else◌,
}
use autodeploy_platform.Json.{str, obj, dict, opt_str}
use autodeploy_platform.Models.DeploymentStatus.{status_text}
use autodeploy_platform.Models.Rows.{
  Timestamp, CommandType, stop, cleanup, CommandStatus, DeploymentCommand, DeploymentEvent, Db,
}
use autodeploy_platform.Session.{
  Environment, other, Action, pure, raise, ◌>>=◌, ◌>>◌, view, write, now_utc, rollback,
  the_deployment, add_event,
}
use autodeploy_platform.Worker.Claims.{is_active, command_type_text}
pub mod Repeated

abbrev pub same_type : CommandType → CommandType → Bool
same_type stop stop = true
same_type cleanup cleanup = true
same_type _ _ = false

abbrev pub is_for : ℕ → CommandType → DeploymentCommand → Bool
is_for deployment_id type c = (c.deployment_id == deployment_id) && same_type c.command_type type

-- The oldest row that meets a condition.
unfoldable pub oldest :
    (DeploymentCommand → Bool) → Table DeploymentCommand → Option (ℕ × DeploymentCommand)
oldest test commands = first (order_by (λ c. c.requested_at) (where_rows test commands))

-- Its status is in ACTIVE_COMMAND_STATUSES.
abbrev pub is_awaited : ℕ → CommandType → DeploymentCommand → Bool
is_awaited deployment_id type c = is_for deployment_id type c && is_active c.status

-- Its active_key is "active".
abbrev pub has_key : ℕ → CommandType → DeploymentCommand → Bool
has_key deployment_id type c =
    is_for deployment_id type c
    && (elim c.active_key [ none ↦ false | some key ↦ text_eq key "active" ])

abbrev pub new_command :
    ℕ → CommandType → (message request_id : Option String) → Timestamp → DeploymentCommand
new_command deployment_id type message request_id now = record {
  deployment_id = deployment_id;
  command_type = type;
  status = CommandStatus.pending;
  active_key = some "active";
  message = message;
  last_error = none;
  claimed_by = none;
  claimed_at = none;
  origin_request_id = request_id;
  requested_at = now;
  completed_at = none;
}

-- After the constraint has refused the new row: the row that has the key.
unfoldable pub winner : Option (ℕ × DeploymentCommand) → Action (ℕ × Bool)
winner none = raise (other "IntegrityError")
winner (some (k, c)) = pure (k, false)

-- `db.session.flush()` with the unique constraint on deployment, type and key.
unfoldable pub insert_command :
    ℕ → CommandType → DeploymentCommand → Option (ℕ × DeploymentCommand) → Action (ℕ × Bool)
insert_command deployment_id type c (some holder) = do
  rollback
  db ← view
  winner (oldest (has_key deployment_id type) db.commands)
insert_command deployment_id type c none = do
  db ← view
  let k = fresh db.commands
  write (λ db. record db { commands = db.commands ++ ((k, c) ∷ []) })
  pure (k, true)

unfoldable pub add_command :
    Environment
    → (deployment_id : ℕ) → CommandType
    → (message request_id : Option String) → Action (ℕ × Bool)
add_command env deployment_id type message request_id = do
  d ← the_deployment deployment_id
  add_event (record {
    deployment_id = deployment_id;
    event_type = fstring ("deployment." ∷ command_type_text type ∷ "_requested" ∷ []);
    step = some (fstring ("deploy." ∷ command_type_text type ∷ []));
    level = "info";
    status = status_text d.status;
    message =
        some
          (or_text message (fstring ("Deployment " ∷ command_type_text type ∷ " requested" ∷ [])));
    metadata_json = obj (
        dict (
          ("command_type", str (command_type_text type))
          ∷ ("origin_request_id", opt_str request_id)
          ∷ []));
  })
  now ← now_utc env
  db ← view
  insert_command deployment_id type (new_command deployment_id type message request_id now)
      (oldest (has_key deployment_id type) db.commands)

unfoldable pub answer_request :
    Action (ℕ × Bool) → Option (ℕ × DeploymentCommand) → Action (ℕ × Bool)
answer_request add none = add
answer_request add (some (k, c)) = pure (k, false)

-- The command that does what is asked for, and whether it is a new one.
unfoldable pub request_deployment_command :
    Environment
    → (deployment_id : ℕ) → CommandType
    → (message request_id : Option String) → Action (ℕ × Bool)
request_deployment_command env deployment_id type message request_id = do
  db ← view
  answer_request (add_command env deployment_id type message request_id)
      (oldest (is_awaited deployment_id type) db.commands)
