-- ===== src/Session/Access.antt =====
-- Reading and writing single rows. An attribute of an object whose row is gone cannot be read.
use autodeploy_platform.Prelude.{ℕ, String, Option, none, some, ◌++◌, [], ◌∷◌, Table, find, modify}
use autodeploy_platform.Models.Rows.{
  Build, PlatformDeployment, DeploymentCommand, DeploymentEvent, Db,
}
use autodeploy_platform.Session.State.{other}
use autodeploy_platform.Session.Actions.{Action, pure, raise, ◌>>=◌, view, write}

-- `error` is the exception for a value that is not there.
unfoldable pub found {ℓ} : {A : Type ℓ} → String → Option A → Action A
unfolding pure raise
found error none = raise (other error)
found error (some a) = pure a

abbrev in_deployments : (Table PlatformDeployment → Table PlatformDeployment) → Db → Db
in_deployments f db = record db { deployments = f db.deployments }

abbrev in_builds : (Table Build → Table Build) → Db → Db
in_builds f db = record db { builds = f db.builds }

abbrev in_commands : (Table DeploymentCommand → Table DeploymentCommand) → Db → Db
in_commands f db = record db { commands = f db.commands }

-- The attributes of a deployment, and of its build.
unfoldable pub the_deployment : ℕ → Action PlatformDeployment
unfolding ◌>>=◌ view found
the_deployment id = do db ← view; found "ObjectDeletedError" (find id db.deployments)

unfoldable pub the_build : ℕ → Action Build
unfolding ◌>>=◌ view found
the_build build_id = do db ← view; found "AttributeError" (find build_id db.builds)

unfoldable pub the_command : ℕ → Action DeploymentCommand
unfolding ◌>>=◌ view found
the_command id = do db ← view; found "ObjectDeletedError" (find id db.commands)

-- Assignments to attributes.
unfoldable pub update_deployment : ℕ → (PlatformDeployment → PlatformDeployment) → Action (Unit {0})
unfolding write
update_deployment id f = write (in_deployments (modify id f))

unfoldable pub update_build : ℕ → (Build → Build) → Action (Unit {0})
unfolding write
update_build id f = write (in_builds (modify id f))

unfoldable pub update_command : ℕ → (DeploymentCommand → DeploymentCommand) → Action (Unit {0})
unfolding write
update_command id f = write (in_commands (modify id f))

-- db.session.add(event)
unfoldable pub add_event : DeploymentEvent → Action (Unit {0})
unfolding write
add_event event = write λ db. record db { events = db.events ++ (event ∷ []) }
