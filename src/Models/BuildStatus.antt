-- ===== src/Models/BuildStatus.antt =====
-- Build's statuses and its table of transitions (control_plane/models/build.py).
use autodeploy_platform.Prelude.{ℕ, String, Bool, false, ◌||◌, List, [], ◌∷◌, ◌==◌}

-- VALID_STATUSES
pub data BuildStatus : Type 0 where
  pending cloning building testing pushing_image succeeded failed cancelled : BuildStatus

-- The place of a status in VALID_STATUSES, by which statuses are compared.
abbrev pub index : BuildStatus → ℕ
index pending = 0
index cloning = 1
index building = 2
index testing = 3
index pushing_image = 4
index succeeded = 5
index failed = 6
index cancelled = 7

unfoldable pub status_text : BuildStatus → String
status_text pending = "pending"
status_text cloning = "cloning"
status_text building = "building"
status_text testing = "testing"
status_text pushing_image = "pushing_image"
status_text succeeded = "succeeded"
status_text failed = "failed"
status_text cancelled = "cancelled"

infix 50 ◌is◌
abbrev pub ◌is◌ : BuildStatus → BuildStatus → Bool
s is t = index s == index t

unfoldable pub status_transitions : BuildStatus → List BuildStatus
status_transitions pending = cloning ∷ failed ∷ cancelled ∷ []
status_transitions cloning = building ∷ failed ∷ cancelled ∷ []
status_transitions building = testing ∷ pushing_image ∷ failed ∷ cancelled ∷ []
status_transitions testing = pushing_image ∷ failed ∷ cancelled ∷ []
status_transitions pushing_image = succeeded ∷ failed ∷ cancelled ∷ []
status_transitions succeeded = failed ∷ []
status_transitions failed = []
status_transitions cancelled = []

abbrev pub listed : BuildStatus → List BuildStatus → Bool
listed s [] = false
listed s (t ∷ ts) = s is t || listed s ts

unfoldable pub can_transition_to : BuildStatus → BuildStatus → Bool
unfolding status_transitions
can_transition_to status next_status =
    next_status is status || listed next_status (status_transitions status)
