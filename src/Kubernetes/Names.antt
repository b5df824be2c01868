-- ===== src/Kubernetes/Names.antt =====
-- worker/executors/kubernetes/names.py. A name is ASCII text.
use Prim.Native.Nat.{max}
use Prim.Native.Char.{Char}
use Prim.Native.String
use Prim.Native.String.{count, ◌++◌}
use autodeploy_platform.Prelude.{
  ℕ, ◌+◌, ◌-◌, String, Bool, true, false, ◌||◌, not, Option, none, some, ◌==◌, if◌then◌else◌,
  truthy, lower, slice_text, decimal, is_dash, is_lower_alnum,
}
use autodeploy_platform.Json.{str, Dict, field, end}
use autodeploy_platform.Models.Rows.{Project, PlatformDeployment}
pub mod Bounds
pub mod Labels

-- MAX_DNS_LABEL_LENGTH, MAX_HELM_RELEASE_LENGTH, MANIFEST_SERVICE_SUFFIX
abbrev pub max_dns_label_length : ℕ
max_dns_label_length = 63

abbrev pub max_helm_release_length : ℕ
max_helm_release_length = 53

abbrev pub manifest_service_suffix : String
manifest_service_suffix = "-svc"

-- re.sub(r"[...]+", "-", text): each longest run of characters of the class becomes one dash.
-- `inside` says that the text before is such a run.
unfoldable pub dash_runs : (Char → Bool) → Bool → String → String
dash_runs test inside String.[] = ""
dash_runs test inside (String.◌∷◌ c s) =
    let rest = dash_runs test (test c) s in
    if test c then (if inside then rest else String.◌∷◌ "-" rest) else String.◌∷◌ c rest

-- re.sub(r"[...]+", "", text), with the characters of the class left out
unfoldable pub keep_chars : (Char → Bool) → String → String
keep_chars test String.[] = ""
keep_chars test (String.◌∷◌ c s) =
    let rest = keep_chars test s in if test c then String.◌∷◌ c rest else rest

-- text.lstrip("-"), text.rstrip("-")
unfoldable pub lstrip_dashes : String → String
lstrip_dashes String.[] = ""
lstrip_dashes (String.◌∷◌ c s) = if is_dash c then lstrip_dashes s else String.◌∷◌ c s

unfoldable pub push_unless_dash : Char → String → String
push_unless_dash c String.[] = if is_dash c then "" else String.◌∷◌ c ""
push_unless_dash c (String.◌∷◌ d s) = String.◌∷◌ c (String.◌∷◌ d s)

unfoldable pub rstrip_dashes : String → String
rstrip_dashes String.[] = ""
rstrip_dashes (String.◌∷◌ c s) = push_unless_dash c (rstrip_dashes s)

-- [^a-z0-9-]
abbrev pub is_foreign : Char → Bool
is_foreign c = not (is_lower_alnum c || is_dash c)

-- `text or fallback`
abbrev pub or_fallback : String → String → String
or_fallback s fallback = if truthy s then s else fallback

unfoldable pub dns_slug : (value fallback : String) → (max_length : ℕ) → String
dns_slug value fallback max_length =
    let slug =
      lstrip_dashes
        (rstrip_dashes (dash_runs is_dash false (dash_runs is_foreign false (lower value)))) in
    or_fallback (rstrip_dashes (slice_text max_length (or_fallback slug fallback)))
      (slice_text max_length fallback)

unfoldable pub workload_name : Project → ℕ → String
workload_name project max_length = dns_slug project.name "app" max_length

-- `str(project_id or "")`
unfoldable pub id_text : ℕ → String
id_text id = if id == 0 then "" else decimal id

unfoldable pub project_id_suffix : ℕ → ℕ → String
project_id_suffix project_id max_length = rstrip_dashes (
    or_fallback (slice_text max_length (keep_chars is_lower_alnum (lower (id_text project_id))))
      "unknown")

unfoldable pub manifest_deployment_name : Project → (deployment_id max_length : ℕ) → String
manifest_deployment_name project deployment_id max_length =
    let deployment_suffix = project_id_suffix deployment_id 20 in
    let base_max_length = max_length - count manifest_service_suffix in
    let reserved = count "paas" + count deployment_suffix + 2 in
    let project_slug = workload_name project (max 1 (base_max_length - reserved)) in
    "paas-" ++ project_slug ++ "-" ++ deployment_suffix

unfoldable pub manifest_service_name : Project → (deployment_id max_length : ℕ) → String
manifest_service_name project deployment_id max_length =
    manifest_deployment_name project deployment_id max_length ++ manifest_service_suffix

-- `getattr(deployment, "environment", None)` and `str(value or "")`
abbrev pub environment_of : Option PlatformDeployment → String
environment_of none = ""
environment_of (some d) = d.environment

unfoldable pub helm_release_name :
    (project_id : ℕ) → Project → Option PlatformDeployment → (max_length : ℕ) → String
helm_release_name project_id project deployment max_length =
    let environment_slug = dns_slug (environment_of deployment) "production" max_dns_label_length in
    let suffix = project_id_suffix project_id 12 in
    let reserved = count "paas" + count environment_slug + count suffix + 3 in
    let project_slug =
      dns_slug (workload_name project max_dns_label_length) "app" (max 1 (max_length - reserved)) in
    rstrip_dashes
      (slice_text max_length ("paas-" ++ project_slug ++ "-" ++ environment_slug ++ "-" ++ suffix))

unfoldable pub workload_labels : (project_id : ℕ) → Project → Option PlatformDeployment → Dict
workload_labels project_id project deployment =
    let release_name = helm_release_name project_id project deployment max_helm_release_length in
    field "app.kubernetes.io/managed-by" (str "autodeploy-control-plane") (
      field "app.kubernetes.io/instance" (str release_name) (
        field "app.kubernetes.io/name" (str (workload_name project max_dns_label_length)) (
          field "paas.dev/project-id" (str (project_id_suffix project_id max_dns_label_length))
            (field "paas.dev/workload" (str release_name) end))))
