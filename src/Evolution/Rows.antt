-- ===== src/Evolution/Rows.antt =====
-- The change of a single row.
use autodeploy_platform.Prelude.{
  ℕ, String, ◌≡◌, refl, sym, ap, ◌∙◌, Bool, true, false, Option, some, subst, is_some,
}
use autodeploy_platform.Json.{Json}
use autodeploy_platform.RuntimeMetadata.{nonempty_string}
use autodeploy_platform.Models.DeploymentStatus.{DeploymentStatus}
use autodeploy_platform.Models.BuildStatus.{BuildStatus}
use autodeploy_platform.Models.Rows.{
  Timestamp, Build, PlatformDeployment, DeploymentCommand, CommandType, CommandStatus,
}
use autodeploy_platform.Models.Lifecycle.{Reaches, BuildReaches, Reaches-trans, BuildReaches-trans}

-- The columns of a deployment that are written once, when it is created.
abbrev pub Identity : Type 0
Identity = ℕ × ℕ × String × Option Json × Option String × Timestamp

abbrev pub identity : PlatformDeployment → Identity
identity d = (
  d.project_id, d.build_id, d.environment, d.spec_snapshot_json, d.origin_request_id, d.created_at,
)

-- A claim has an owner and a time, or neither.
abbrev pub IsPaired : PlatformDeployment → Type 0
IsPaired d = is_some d.claimed_at ≡ is_some d.claimed_by

-- A text column that counts as set.
abbrev pub IsFilled : Option String → Type 0
IsFilled s = is_some (nonempty_string s) ≡ true

pub record Evolves (d d' : PlatformDeployment) : Type 0 where
  pub reaches : Reaches d.status d'.status
  pub same_identity : identity d ≡ identity d'
  pub started_once : (t : Timestamp) → d.started_at ≡ some t → d'.started_at ≡ some t
  pub paired : IsPaired d → IsPaired d'
  pub frozen_mode :
      IsFilled d.kubernetes_deployment_mode
      → d.kubernetes_deployment_mode ≡ d'.kubernetes_deployment_mode
  pub frozen_namespace :
      IsFilled d.kubernetes_namespace → d.kubernetes_namespace ≡ d'.kubernetes_namespace

abbrev pub BuildIdentity : Type 0
BuildIdentity = ℕ × String × Option String × Option String × Option String × Timestamp

abbrev pub build_identity : Build → BuildIdentity
build_identity b =
    (b.project_id, b.commit_sha, b.registry, b.image_name, b.test_command, b.created_at)

pub record BuildEvolves (b b' : Build) : Type 0 where
  pub reaches : BuildReaches b.status b'.status
  pub same_identity : build_identity b ≡ build_identity b'
  pub started_once : (t : Timestamp) → b.started_at ≡ some t → b'.started_at ≡ some t

pub Evolves-refl : (d : PlatformDeployment) → Evolves d d
Evolves-refl d = record {
  reaches = Reaches.here;
  same_identity = refl;
  started_once = λ t e. e;
  paired = λ e. e;
  frozen_mode = λ e. refl;
  frozen_namespace = λ e. refl;
}

pub Evolves-trans : {a b c : PlatformDeployment} → Evolves a b → Evolves b c → Evolves a c
Evolves-trans p q = record {
  reaches = Reaches-trans p.reaches q.reaches;
  same_identity = p.same_identity ∙ q.same_identity;
  started_once = λ t e. q.started_once t (p.started_once t e);
  paired = λ e. q.paired (p.paired e);
  frozen_mode = λ e. p.frozen_mode e ∙ q.frozen_mode (subst IsFilled (p.frozen_mode e) e);
  frozen_namespace =
      λ e. p.frozen_namespace e ∙ q.frozen_namespace (subst IsFilled (p.frozen_namespace e) e);
}

pub BuildEvolves-refl : (b : Build) → BuildEvolves b b
BuildEvolves-refl b = record {
  reaches = BuildReaches.here;
  same_identity = refl;
  started_once = λ t e. e;
}

pub BuildEvolves-trans : {a b c : Build} → BuildEvolves a b → BuildEvolves b c → BuildEvolves a c
BuildEvolves-trans p q = record {
  reaches = BuildReaches-trans p.reaches q.reaches;
  same_identity = p.same_identity ∙ q.same_identity;
  started_once = λ t e. q.started_once t (p.started_once t e);
}

-- The columns that the permitted change speaks of.
abbrev pub Tracked : Type 0
Tracked =
    DeploymentStatus
    × Identity
    × Option Timestamp
    × Option Timestamp
    × Option String
    × Option String
    × Option String

abbrev pub tracked : PlatformDeployment → Tracked
tracked d = (
  d.status,
  identity d,
  d.started_at,
  d.claimed_at,
  d.claimed_by,
  d.kubernetes_deployment_mode,
  d.kubernetes_namespace,
)

-- A write to the other columns.
pub untouched : (d d' : PlatformDeployment) → tracked d ≡ tracked d' → Evolves d d'
untouched d d' p = record {
  reaches = subst (Reaches d.status) (ap (λ (x : Tracked). x.0) p) Reaches.here;
  same_identity = ap (λ (x : Tracked). x.1) p;
  started_once = λ t e. sym (ap (λ (x : Tracked). x.2) p) ∙ e;
  paired = λ e. sym (ap (λ (x : Tracked). is_some x.3) p) ∙ e ∙ ap (λ (x : Tracked). is_some x.4) p;
  frozen_mode = λ e. ap (λ (x : Tracked). x.5) p;
  frozen_namespace = λ e. ap (λ (x : Tracked). x.6) p;
}

abbrev pub BuildTracked : Type 0
BuildTracked = BuildStatus × BuildIdentity × Option Timestamp

abbrev pub build_tracked : Build → BuildTracked
build_tracked b = (b.status, build_identity b, b.started_at)

pub build_untouched : (b b' : Build) → build_tracked b ≡ build_tracked b' → BuildEvolves b b'
build_untouched b b' p = record {
  reaches = subst (BuildReaches b.status) (ap (λ (x : BuildTracked). x.0) p) BuildReaches.here;
  same_identity = ap (λ (x : BuildTracked). x.1) p;
  started_once = λ t e. sym (ap (λ (x : BuildTracked). x.2) p) ∙ e;
}

-- A command that is over.
abbrev pub is_settled : CommandStatus → Bool
is_settled CommandStatus.pending = false
is_settled CommandStatus.claimed = false
is_settled _ = true

abbrev pub Request : Type 0
Request = ℕ × CommandType × Option String × Option String × Timestamp

-- The columns of a command that are written once, when it is requested.
abbrev pub request : DeploymentCommand → Request
request c = (c.deployment_id, c.command_type, c.message, c.origin_request_id, c.requested_at)

-- A command that is over does not change any more.
pub record CommandEvolves (c c' : DeploymentCommand) : Type 0 where
  pub same_request : request c ≡ request c'
  pub settled : is_settled c.status ≡ true → c ≡ c'

pub CommandEvolves-refl : (c : DeploymentCommand) → CommandEvolves c c
CommandEvolves-refl c = record { same_request = refl; settled = λ e. refl }

pub CommandEvolves-trans :
    {a b c : DeploymentCommand} → CommandEvolves a b → CommandEvolves b c → CommandEvolves a c
CommandEvolves-trans p q = record {
  same_request = p.same_request ∙ q.same_request;
  settled = λ e.
      p.settled e
      ∙ q.settled (subst (λ (x : DeploymentCommand). is_settled x.status ≡ true) (p.settled e) e);
}
