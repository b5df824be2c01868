-- ===== src/Validation/Requests/Sound.antt =====
-- What the accepted changes of a deployment are (`validate_deployment_patch_payload` of
-- control_plane/application/projects/validation.py).
use Prim.Native.String.{count}
use text.Mathlib.TextEquality.{eq_iff}
use autodeploy_platform.Prelude.{
  String, ◌≡◌, ◌≢◌, refl, sym, ap, Bool, true, Option, none, some, List, [], ◌∷◌, text_eq, is_some,
  ◌||◌, ◌⊎◌, ◌≤◌, leb_sound, Bool-cases, inl, inr,
}
use autodeploy_platform.Json.{Json, null, bool, num, str, arr, obj, Dict, get?}
use autodeploy_platform.Models.DeploymentStatus
use autodeploy_platform.Models.DeploymentStatus.{DeploymentStatus}
use autodeploy_platform.Models.BuildStatus
use autodeploy_platform.Models.BuildStatus.{BuildStatus}
use autodeploy_platform.Models.Rows.{Build, PlatformDeployment}
use autodeploy_platform.Validation.Checks.{
  accepted, require, check_field, keys, outside, then-accepted, require-accepted,
  check_field-accepted, unsupported_fields_error, no_unsupported-empty,
}
use autodeploy_platform.Validation.Fields.{bounded_text, validate_bounded_string}
use autodeploy_platform.Validation.Requests.{
  deployment_statuses, build_statuses, status_named, check_transition, check_next_status,
  check_build_transition, check_next_build_status, validate_deployment_patch_payload,
}

status_named-text :
    {S : Type 0} (text : S → String) (s : String) (statuses : List S) (status : S)
    → status_named text s statuses ≡ some status
    → text status ≡ s
unfolding status_named
status_named-text text s [] status = λ h. cc
status_named-text text s (t ∷ ts) status = elim (Bool-cases (text_eq (text t) s)) [
  | inl same ↦ let named = (eq_iff (text t) s).0 same in rw same (λ h. cc)
  | inr other ↦ rw other (λ h. status_named-text text s ts status h)
]

-- The value is the text of a status that the present one may become.
pub record Permitted {S : Type 0} (text : S → String) (can_transition_to : S → S → Bool)
    (present : S) (v : Json) : Type 0 where
  pub next : S
  pub named : v ≡ str (text next)
  pub allowed : can_transition_to present next ≡ true

check_transition-Permitted :
    (status : DeploymentStatus) (s : String) (o : Option DeploymentStatus)
    → status_named DeploymentStatus.status_text s deployment_statuses ≡ o
    → check_transition status o ≡ accepted
    → Permitted DeploymentStatus.status_text DeploymentStatus.can_transition_to status (str s)
unfolding check_transition
check_transition-Permitted status s none found h = cc
check_transition-Permitted status s (some next) found h = record {
  next = next;
  named = ap str (sym (status_named-text _ s deployment_statuses next found));
  allowed = require-accepted _ _ h;
}

check_build_transition-Permitted :
    (status : BuildStatus) (s : String) (o : Option BuildStatus)
    → status_named BuildStatus.status_text s build_statuses ≡ o
    → check_build_transition status o ≡ accepted
    → Permitted BuildStatus.status_text BuildStatus.can_transition_to status (str s)
unfolding check_build_transition
check_build_transition-Permitted status s none found h = cc
check_build_transition-Permitted status s (some next) found h = record {
  next = next;
  named = ap str (sym (status_named-text _ s build_statuses next found));
  allowed = require-accepted _ _ h;
}

check_next_status-Permitted :
    (status : DeploymentStatus) (v : Json)
    → check_next_status status v ≡ accepted
    → Permitted DeploymentStatus.status_text DeploymentStatus.can_transition_to status v
unfolding check_next_status
check_next_status-Permitted status (str s) h = check_transition-Permitted status s _ refl h
check_next_status-Permitted status null h = cc
check_next_status-Permitted status (bool b) h = cc
check_next_status-Permitted status (num n) h = cc
check_next_status-Permitted status (arr vs) h = cc
check_next_status-Permitted status (obj d) h = cc

check_next_build_status-Permitted :
    (status : BuildStatus) (v : Json)
    → check_next_build_status status v ≡ accepted
    → Permitted BuildStatus.status_text BuildStatus.can_transition_to status v
unfolding check_next_build_status
check_next_build_status-Permitted status (str s) h =
    check_build_transition-Permitted status s _ refl h
check_next_build_status-Permitted status null h = cc
check_next_build_status-Permitted status (bool b) h = cc
check_next_build_status-Permitted status (num n) h = cc
check_next_build_status-Permitted status (arr vs) h = cc
check_next_build_status-Permitted status (obj d) h = cc

given_one : (o p : Option Json) → (is_some o || is_some p) ≡ true → (o ≢ none) ⊎ (p ≢ none)
given_one (some v) p h = inl (λ e. cc)
given_one none (some v) h = inr (λ e. cc)
given_one none none h = cc

message_bounded :
    (v : Json)
    → validate_bounded_string v "message" 2000 true true ≡ accepted
    → (v ≡ null) ⊎ ((s : String) × (v ≡ str s) × (count s ≤ 2000))
unfolding validate_bounded_string bounded_text
message_bounded null h = inl refl
message_bounded (str s) h =
    let (length, rest) = then-accepted _ _ h in
    inr (s, refl, leb_sound _ _ (require-accepted _ _ length))
message_bounded (bool b) h = cc
message_bounded (num n) h = cc
message_bounded (arr vs) h = cc
message_bounded (obj d) h = cc

-- What a change that is accepted asks for: no fields but the three, one of the first two at least,
-- and as `status` and as `build_status` texts of statuses which the present ones may become.
pub record AcceptedChange (payload : Dict) (deployment : PlatformDeployment) (build : Build)
    : Type 0 where
  pub fields : outside ("status" ∷ "build_status" ∷ "message" ∷ []) (keys payload) ≡ []
  pub given : (get? "status" payload ≢ none) ⊎ (get? "build_status" payload ≢ none)
  pub status :
      (v : Json)
      → get? "status" payload ≡ some v
      → Permitted DeploymentStatus.status_text DeploymentStatus.can_transition_to deployment.status
          v
  pub build_status :
      (v : Json)
      → get? "build_status" payload ≡ some v
      → Permitted BuildStatus.status_text BuildStatus.can_transition_to build.status v
  pub message :
      (v : Json)
      → get? "message" payload ≡ some v
      → (v ≡ null) ⊎ ((s : String) × (v ≡ str s) × (count s ≤ 2000))

-- A change of a deployment that is accepted has no fields but `status`, `build_status` and `message`.
-- It gives one of the first two at least, and what it gives as `status` or `build_status` is the text
-- of a status that the deployment's or the build's present status may become. Its message, where it
-- gives one, is null or a text of at most 2000 characters.
pub validate_deployment_patch_payload-AcceptedChange :
    (payload : Dict) (deployment : PlatformDeployment) (build : Build)
    → validate_deployment_patch_payload payload deployment build ≡ accepted
    → AcceptedChange payload deployment build
unfolding validate_deployment_patch_payload unsupported_fields_error
validate_deployment_patch_payload-AcceptedChange payload deployment build h =
    let (supported, rest) = then-accepted _ _ h in
    let (given, rest) =
      then-accepted
        (require (is_some (get? "status" payload) || is_some (get? "build_status" payload)) _) _
        rest in
    let (status, rest) =
      then-accepted (check_field "status" payload (check_next_status deployment.status)) _ rest in
    let (build_status, message) =
      then-accepted (check_field "build_status" payload (check_next_build_status build.status))
        (check_field "message" payload _) rest in
    record {
      fields = no_unsupported-empty _ _ supported;
      given = given_one _ _ (require-accepted _ _ given);
      status = λ v found. check_next_status-Permitted deployment.status v (
          check_field-accepted "status" payload (check_next_status deployment.status) v status
            found);
      build_status = λ v found. check_next_build_status-Permitted build.status v (
          check_field-accepted "build_status" payload (check_next_build_status build.status) v
            build_status found);
      message = λ v found. message_bounded v (
          check_field-accepted "message" payload
            (λ x. validate_bounded_string x "message" 2000 true true) v message found);
    }
