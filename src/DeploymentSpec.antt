-- ===== src/DeploymentSpec.antt =====
-- control_plane/deployment_spec.py: the project that a deployment was created from.
pub mod Snapshot
use autodeploy_platform.Prelude.{
  ℕ, Bool, false, Option, none, some, Table, find, ◌==◌, if◌then◌else◌,
}
use autodeploy_platform.Json.{Json, num, bool, obj, arr, Dict, get?}
use autodeploy_platform.Models.Rows.{Project, PlatformDeployment}

abbrev pub deployment_spec_version : ℕ
deployment_spec_version = 1

-- A snapshot's project, or the row as it is now.
pub data SpecifiedProject : Type 0 where
  frozen : Dict → SpecifiedProject
  current : Project → SpecifiedProject

-- `value == DEPLOYMENT_SPEC_VERSION`; in Python `True == 1`.
abbrev pub is_version : Option Json → Bool
is_version (some (num n)) = n == deployment_spec_version
is_version (some (bool b)) = b
is_version _ = false

abbrev frozen_project : Option Json → Option SpecifiedProject
frozen_project (some (obj spec)) = some (frozen spec)
frozen_project _ = none

abbrev snapshot_project : Option Json → Option SpecifiedProject
snapshot_project (some (obj snapshot)) =
    if is_version (get? "version" snapshot) then frozen_project (get? "project" snapshot) else none
snapshot_project _ = none

abbrev current_project : Option Project → Option SpecifiedProject
current_project none = none
current_project (some p) = some (current p)

abbrev prefer : Option SpecifiedProject → Option SpecifiedProject → Option SpecifiedProject
prefer (some p) other = some p
prefer none other = other

-- `none` where the row of the project is gone too.
unfoldable pub project_for_deployment : Table Project → PlatformDeployment → Option SpecifiedProject
unfolding get? find
project_for_deployment projects d =
    prefer (snapshot_project d.spec_snapshot_json) (current_project (find d.project_id projects))

-- The attribute `env_vars`; a frozen project may lack it.
unfoldable pub env_vars : SpecifiedProject → Option Json
unfolding get?
env_vars (frozen spec) = get? "env_vars" spec
env_vars (current p) = some (arr p.env_vars)
