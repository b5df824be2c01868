-- ===== src/Models/Lifecycle/Order.antt =====
-- The tables of transitions of control_plane/models/platform_deployment.py and build.py: their order,
-- and the way to a release.
use autodeploy_platform.Prelude.{
  ◌≡◌, refl, ◌⊎◌, inl, inr, Bool, true, false, not, ◌||◌, ◌&&◌, leb, Bool-cases, subst, sym, arith,
}
use Prim.Native.Nat.{ℕ, ◌≤◌}
use autodeploy_platform.Models.DeploymentStatus
use autodeploy_platform.Models.DeploymentStatus.{
  DeploymentStatus, ◌is◌, pending, cloning, building, testing, pushing_image, deploying, running,
  failed, stopped,
}
use autodeploy_platform.Models.BuildStatus
use autodeploy_platform.Models.BuildStatus.{BuildStatus}
use autodeploy_platform.Models.Lifecycle.{Reaches, BuildReaches}

-- A test that every status passes.
abbrev pub all : (DeploymentStatus → Bool) → Bool
all p =
    p pending
    && p cloning
    && p building
    && p testing
    && p pushing_image
    && p deploying
    && p running
    && p failed
    && p stopped

pub all_lem : (p : DeploymentStatus → Bool) → all p ≡ true → (s : DeploymentStatus) → p s ≡ true
all_lem p h pending = ground arith
all_lem p h cloning = ground arith
all_lem p h building = ground arith
all_lem p h testing = ground arith
all_lem p h pushing_image = ground arith
all_lem p h deploying = ground arith
all_lem p h running = ground arith
all_lem p h failed = ground arith
all_lem p h stopped = ground arith

abbrev all_builds : (BuildStatus → Bool) → Bool
all_builds p =
    p BuildStatus.pending
    && p BuildStatus.cloning
    && p BuildStatus.building
    && p BuildStatus.testing
    && p BuildStatus.pushing_image
    && p BuildStatus.succeeded
    && p BuildStatus.failed
    && p BuildStatus.cancelled

all_builds_lem : (p : BuildStatus → Bool) → all_builds p ≡ true → (s : BuildStatus) → p s ≡ true
all_builds_lem p h BuildStatus.pending = ground arith
all_builds_lem p h BuildStatus.cloning = ground arith
all_builds_lem p h BuildStatus.building = ground arith
all_builds_lem p h BuildStatus.testing = ground arith
all_builds_lem p h BuildStatus.pushing_image = ground arith
all_builds_lem p h BuildStatus.succeeded = ground arith
all_builds_lem p h BuildStatus.failed = ground arith
all_builds_lem p h BuildStatus.cancelled = ground arith

implies : (a b : Bool) → (not a || b) ≡ true → a ≡ true → b ≡ true
implies a b h e = ground arith

can_transition_to-forward :
    (s t : DeploymentStatus)
    → DeploymentStatus.can_transition_to s t ≡ true
    → leb (DeploymentStatus.index s) (DeploymentStatus.index t) ≡ true
unfolding DeploymentStatus.can_transition_to DeploymentStatus.status_transitions
can_transition_to-forward s t = implies _ _ (
    all_lem
      (λ y.
        not (DeploymentStatus.can_transition_to s y)
        || leb (DeploymentStatus.index s) (DeploymentStatus.index y))
      (all_lem
        (λ x. all (λ y.
          not (DeploymentStatus.can_transition_to x y)
          || leb (DeploymentStatus.index x) (DeploymentStatus.index y)))
        refl s)
      t)

build_can_transition_to-forward :
    (s t : BuildStatus)
    → BuildStatus.can_transition_to s t ≡ true
    → leb (BuildStatus.index s) (BuildStatus.index t) ≡ true
unfolding BuildStatus.can_transition_to BuildStatus.status_transitions
build_can_transition_to-forward s t = implies _ _ (
    all_builds_lem
      (λ y.
        not (BuildStatus.can_transition_to s y) || leb (BuildStatus.index s) (BuildStatus.index y))
      (all_builds_lem
        (λ x. all_builds (λ y.
          not (BuildStatus.can_transition_to x y)
          || leb (BuildStatus.index x) (BuildStatus.index y)))
        refl s)
      t)

leb_le : (m n : ℕ) → leb m n ≡ true → m ≤ n
leb_le m n h = ground arith

-- What a deployment reaches by permitted transitions stands no earlier in VALID_STATUSES.
pub Reaches-forward :
    {s t : DeploymentStatus} → Reaches s t → DeploymentStatus.index s ≤ DeploymentStatus.index t
Reaches-forward Reaches.here = omega arith
Reaches-forward (Reaches.next {t} {u} r h) =
    let before = Reaches-forward r in
    let after = leb_le _ _ (can_transition_to-forward t u h) in omega arith

-- What a build reaches by permitted transitions stands no earlier in VALID_STATUSES.
pub BuildReaches-forward :
    {s t : BuildStatus} → BuildReaches s t → BuildStatus.index s ≤ BuildStatus.index t
BuildReaches-forward BuildReaches.here = omega arith
BuildReaches-forward (BuildReaches.next {t} {u} r h) =
    let before = BuildReaches-forward r in
    let after = leb_le _ _ (build_can_transition_to-forward t u h) in omega arith

-- The statuses of a release.
abbrev is_released : DeploymentStatus → Bool
is_released deploying = true
is_released running = true
is_released _ = false

released_test : DeploymentStatus → DeploymentStatus → Bool
released_test s t = not (is_released t) || (is_released s || s is pushing_image)

released_step :
    (s t : DeploymentStatus)
    → DeploymentStatus.can_transition_to s t ≡ true
    → released_test s t ≡ true
unfolding DeploymentStatus.can_transition_to DeploymentStatus.status_transitions released_test
released_step s t = implies _ _ (
    all_lem (λ y. not (DeploymentStatus.can_transition_to s y) || released_test s y)
      (all_lem (λ x. all (λ y. not (DeploymentStatus.can_transition_to x y) || released_test x y))
        refl s)
      t)

is_pushing_image : (s : DeploymentStatus) → s is pushing_image ≡ true → s ≡ pushing_image
is_pushing_image pushing_image h = refl
is_pushing_image pending h = cc
is_pushing_image cloning h = cc
is_pushing_image building h = cc
is_pushing_image testing h = cc
is_pushing_image deploying h = cc
is_pushing_image running h = cc
is_pushing_image failed h = cc
is_pushing_image stopped h = cc

released_before :
    (s t : DeploymentStatus)
    → released_test s t ≡ true
    → is_released t ≡ true
    → (is_released s ≡ true) ⊎ (s ≡ pushing_image)
unfolding released_test
released_before s t h r = elim (Bool-cases (is_released s)) [
  | inl before ↦ inl before
  | inr first ↦ inr (is_pushing_image s (ground arith))
]

-- The paths that have a status on them: they end in it, or an earlier part of them has it.
pub data Visits (via s : DeploymentStatus) : (t : DeploymentStatus) → Reaches s t → Type 0 where
  ends : (r : Reaches s via) → Visits via s via r
  earlier :
      {t u : DeploymentStatus} (r : Reaches s t) (h : DeploymentStatus.can_transition_to t u ≡ true)
      → Visits via s t r
      → Visits via s u (Reaches.next r h)

ends_in : {s t via : DeploymentStatus} (r : Reaches s t) → t ≡ via → Visits via s t r
ends_in {s} {t} {via} r e =
    subst (λ v. (q : Reaches s v) → Visits via s v q) (sym e) (λ q. Visits.ends q) r

Reaches-released :
    {s t : DeploymentStatus}
    → is_released s ≡ false
    → is_released t ≡ true
    → (r : Reaches s t) → Visits pushing_image s t r
Reaches-released early late Reaches.here = cc
Reaches-released early late (Reaches.next {t} {u} r h) =
    elim (released_before t u (released_step t u h) late) [
      | inl before ↦ Visits.earlier r h (Reaches-released early before r)
      | inr published ↦ Visits.earlier r h (ends_in r published)
    ]

-- Every sequence of permitted transitions from a status that is neither deploying nor running to
-- running passes through pushing_image.
pub running_needs_push :
    {s : DeploymentStatus}
    → is_released s ≡ false
    → (r : Reaches s running) → Visits pushing_image s running r
running_needs_push early r = Reaches-released early refl r
