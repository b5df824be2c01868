-- ===== src/DeploymentSpec/Snapshot/Copying.antt =====
-- control_plane/deployment_spec.py: creating, copying and reading a snapshot, together.
use autodeploy_platform.Prelude.{
  ℕ, String, ◌≡◌, refl, sym, subst, Option, none, some, ==_refl, Table,
}
use autodeploy_platform.Json.{Json, obj, get?, put}
use autodeploy_platform.Models.Rows.{Project, PlatformDeployment}
use autodeploy_platform.DeploymentSpec.{project_for_deployment}
use autodeploy_platform.DeploymentSpec.Snapshot.{
  create_deployment_spec_snapshot, copy_snapshot, copy_project, copy_deployment_spec_snapshot,
}
use autodeploy_platform.Session.{ok}

copy_created :
    (id : ℕ) (p : Project) (branch : Option String) (d : PlatformDeployment)
    → d.project_id ≡ id
    → copy_snapshot (some (obj (create_deployment_spec_snapshot id p branch))) d id
      ≡ ok (create_deployment_spec_snapshot id p branch)
unfolding create_deployment_spec_snapshot copy_snapshot copy_project get? put
copy_created id p none d same = rw (same, ==_refl id) refl
copy_created id p (some branch) d same = rw (same, ==_refl id) refl

-- A deployment of a project that keeps the snapshot that was created for it, with or without a
-- branch of its own, can be retried: the snapshot is complete, of the project, and is copied as it
-- is.
pub copy-create :
    (id : ℕ) (p : Project) (branch : Option String) (d : PlatformDeployment)
    → d.project_id ≡ id
    → d.spec_snapshot_json ≡ some (obj (create_deployment_spec_snapshot id p branch))
    → copy_deployment_spec_snapshot d id ≡ ok (create_deployment_spec_snapshot id p branch)
unfolding copy_deployment_spec_snapshot
copy-create id p branch d same kept =
    subst
      (λ (o : Option Json). copy_snapshot o d id ≡ ok (create_deployment_spec_snapshot id p branch))
      (sym kept) (copy_created id p branch d same)

frozen_of :
    (id : ℕ) (p : Project) (branch : Option String) (projects projects' : Table Project)
    (d : PlatformDeployment)
    → d.spec_snapshot_json ≡ some (obj (create_deployment_spec_snapshot id p branch))
    → project_for_deployment projects d ≡ project_for_deployment projects' d
unfolding project_for_deployment create_deployment_spec_snapshot get? put
frozen_of id p none projects projects' d kept = rw kept refl
frozen_of id p (some branch) projects projects' d kept = rw kept refl

-- The project that the worker uses for a deployment with a snapshot does not depend on the table
-- of projects: edits of the project after the snapshot do not reach the deployment.
pub project_for_deployment_ignores_edits :
    (id : ℕ) (p : Project) (branch : Option String) (projects projects' : Table Project)
    (d : PlatformDeployment)
    → d.spec_snapshot_json ≡ some (obj (create_deployment_spec_snapshot id p branch))
    → project_for_deployment projects d ≡ project_for_deployment projects' d
project_for_deployment_ignores_edits = frozen_of
