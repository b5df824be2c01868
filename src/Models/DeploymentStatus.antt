-- ===== src/Models/DeploymentStatus.antt =====
-- PlatformDeployment's statuses and its table of transitions
-- (control_plane/models/platform_deployment.py).
use autodeploy_platform.Prelude.{
  ℕ, String, Bool, true, false, ◌||◌, List, [], ◌∷◌, ◌==◌, if◌then◌else◌,
}

-- VALID_STATUSES
pub data DeploymentStatus : Type 0 where
  pending cloning building testing pushing_image deploying running failed stopped : DeploymentStatus

-- The place of a status in VALID_STATUSES, by which statuses are compared.
abbrev pub index : DeploymentStatus → ℕ
index pending = 0
index cloning = 1
index building = 2
index testing = 3
index pushing_image = 4
index deploying = 5
index running = 6
index failed = 7
index stopped = 8

unfoldable pub status_text : DeploymentStatus → String
status_text pending = "pending"
status_text cloning = "cloning"
status_text building = "building"
status_text testing = "testing"
status_text pushing_image = "pushing_image"
status_text deploying = "deploying"
status_text running = "running"
status_text failed = "failed"
status_text stopped = "stopped"

infix 50 ◌is◌
abbrev pub ◌is◌ : DeploymentStatus → DeploymentStatus → Bool
s is t = index s == index t

unfoldable pub status_transitions : DeploymentStatus → List DeploymentStatus
status_transitions pending = cloning ∷ failed ∷ stopped ∷ []
status_transitions cloning = building ∷ failed ∷ stopped ∷ []
status_transitions building = testing ∷ pushing_image ∷ failed ∷ stopped ∷ []
status_transitions testing = pushing_image ∷ failed ∷ stopped ∷ []
status_transitions pushing_image = deploying ∷ failed ∷ stopped ∷ []
status_transitions deploying = running ∷ failed ∷ stopped ∷ []
status_transitions running = failed ∷ stopped ∷ []
status_transitions failed = stopped ∷ []
status_transitions stopped = []

abbrev pub listed : DeploymentStatus → List DeploymentStatus → Bool
listed s [] = false
listed s (t ∷ ts) = s is t || listed s ts

unfoldable pub can_transition_to : DeploymentStatus → DeploymentStatus → Bool
unfolding status_transitions
can_transition_to status next_status =
    if next_status is status then true else listed next_status (status_transitions status)
