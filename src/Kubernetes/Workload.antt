-- ===== src/Kubernetes/Workload.antt =====
-- worker/kubernetes_workload.py. A text's `str()` is the text.
use autodeploy_platform.Prelude.{
  String, true, false, Option, none, some, text_eq, or_text, strip, or_none, if◌then◌else◌,
}
use autodeploy_platform.Json.{Json, bool, num, str, obj, Dict, end, field}
use autodeploy_platform.Models.Rows.{Project}

-- _clean_string
unfoldable pub clean_string : Option String → Option String
clean_string none = none
clean_string (some value) = or_none (some (strip value))

abbrev put_some : String → Option String → Dict → Dict
put_some key none rest = rest
put_some key (some value) rest = field key (str value) rest

unfoldable pub requests_of : Dict → Dict
requests_of end = end
requests_of (field k v rest) = field "requests" (obj (field k v rest)) end

unfoldable pub resource_requests : Project → Dict
resource_requests project = requests_of (
    put_some "cpu" (clean_string project.cpu) (put_some "memory" (clean_string project.memory) end))

abbrev pub http_get : String → Json
http_get path = obj (field "path" (str path) (field "port" (str "http") end))

abbrev probed_path : Project → String
probed_path project = or_text (clean_string (some project.healthcheck_path)) "/"

unfoldable pub readiness : Project → Dict
readiness project = field "enabled" (bool true) (
    field "httpGet" (http_get (probed_path project))
      (field "initialDelaySeconds" (num 5) (field "periodSeconds" (num 10) end)))

unfoldable pub liveness : Project → Dict
liveness project = field "enabled" (bool true) (
    field "httpGet" (http_get (probed_path project))
      (field "initialDelaySeconds" (num 15) (field "periodSeconds" (num 20) end)))

unfoldable pub health_probes : Project → Dict
health_probes project = field "readiness" (obj (readiness project)) (
    field "liveness" (obj (liveness project))
      (field "startup" (obj (field "enabled" (bool false) end)) end))

-- _enabled_probe
unfoldable pub enabled_probe : Dict → Dict
enabled_probe end = end
enabled_probe (field k v rest) =
    let kept = enabled_probe rest in if text_eq k "enabled" then kept else field k v kept

unfoldable pub manifest_health_probes : Project → Dict
manifest_health_probes project =
    field "readinessProbe" (obj (enabled_probe (readiness project)))
      (field "livenessProbe" (obj (enabled_probe (liveness project))) end)
