-- ===== src/DeploymentSpec/Snapshot.antt =====
-- control_plane/deployment_spec.py: the snapshot of a project that a deployment keeps.

pub mod Copying
use autodeploy_platform.Prelude.{
  ℕ, String, Bool, true, false, ◌&&◌, Option, none, some, List, [], ◌∷◌, is_some, ◌==◌,
  if◌then◌else◌,
}
use autodeploy_platform.Json.{Json, bool, num, str, arr, obj, Dict, get?, put, dict, opt_str}
use autodeploy_platform.Models.Rows.{Project, PlatformDeployment}
use autodeploy_platform.DeploymentSpec.{deployment_spec_version, is_version}
use autodeploy_platform.Session.{Outcome, ok, raised, other}

abbrev pub project_spec_fields : List String
project_spec_fields =
    "id" ∷ "name" ∷ "repo_url" ∷ "branch" ∷ "git_auth_type" ∷ "git_secret_ref" ∷ "dockerfile_path"
    ∷ "build_context" ∷ "port" ∷ "healthcheck_path" ∷ "env_vars" ∷ "cpu" ∷ "memory" ∷ "runtime" ∷ []

-- The values of the fields, in their order.
abbrev project_spec : ℕ → Project → Dict
project_spec id p = dict (
    ("id", num id)
    ∷ ("name", str p.name)
    ∷ ("repo_url", str p.repo_url)
    ∷ ("branch", str p.branch)
    ∷ ("git_auth_type", str p.git_auth_type)
    ∷ ("git_secret_ref", opt_str p.git_secret_ref)
    ∷ ("dockerfile_path", str p.dockerfile_path)
    ∷ ("build_context", str p.build_context)
    ∷ ("port", num p.port)
    ∷ ("healthcheck_path", str p.healthcheck_path)
    ∷ ("env_vars", arr p.env_vars)
    ∷ ("cpu", opt_str p.cpu)
    ∷ ("memory", opt_str p.memory)
    ∷ ("runtime", str p.runtime)
    ∷ [])

abbrev on_branch : Option String → Dict → Dict
on_branch none spec = spec
on_branch (some branch) spec = put "branch" (str branch) spec

unfoldable pub create_deployment_spec_snapshot : ℕ → Project → Option String → Dict
unfolding put opt_str
create_deployment_spec_snapshot id p branch = dict (
    ("version", num deployment_spec_version)
    ∷ ("project", obj (on_branch branch (project_spec id p)))
    ∷ [])

abbrev has_all : List String → Dict → Bool
has_all [] spec = true
has_all (name ∷ names) spec = is_some (get? name spec) && has_all names spec

-- `value == project_id`; in Python `True == 1`.
abbrev is_id : Option Json → ℕ → Bool
is_id (some (num n)) id = n == id
is_id (some (bool b)) id = (if b then 1 else 0) == id
is_id _ id = false

unfoldable copy_project : Option Json → Dict → PlatformDeployment → ℕ → Outcome Dict
unfolding get?
copy_project (some (obj spec)) snapshot d project_id =
    if has_all project_spec_fields spec
    then if is_id (get? "id" spec) project_id && d.project_id == project_id
      then ok snapshot
      else raised (other "ValueError")
    else raised (other "ValueError")
copy_project _ snapshot d project_id = raised (other "ValueError")

unfoldable copy_snapshot : Option Json → PlatformDeployment → ℕ → Outcome Dict
unfolding get? copy_project
copy_snapshot (some (obj snapshot)) d project_id =
    if is_version (get? "version" snapshot)
    then copy_project (get? "project" snapshot) snapshot d project_id
    else raised (other "ValueError")
copy_snapshot _ d project_id = raised (other "ValueError")

-- The copy is a value of its own, as every value here.
unfoldable pub copy_deployment_spec_snapshot : PlatformDeployment → ℕ → Outcome Dict
unfolding copy_snapshot
copy_deployment_spec_snapshot d project_id = copy_snapshot d.spec_snapshot_json d project_id
