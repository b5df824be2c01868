-- ===== src/Worker/Workload.antt =====
-- worker/workload_environment.py: the environment of a workload, with the platform's own variables.
pub mod Names
use autodeploy_platform.Prelude.{
  String, Bool, true, false, Option, none, some, List, [], ◌∷◌, or_text, mem_text, if◌then◌else◌,
}
use autodeploy_platform.Json.{
  Json, null, bool, num, str, arr, obj, Items, nil, cons, Dict, get?, dict,
}
use autodeploy_platform.Models.Rows.{Build}

abbrev pub reserved_workload_environment_names : List String
reserved_workload_environment_names = "APP_COMMIT_SHA" ∷ "APP_VERSION" ∷ []

-- `name in RESERVED_WORKLOAD_ENVIRONMENT_NAMES`. A list and a dictionary have no hash: `none` is the
-- TypeError.
unfoldable pub reserved_name : Option Json → Option Bool
reserved_name (some (str name)) = some (mem_text name reserved_workload_environment_names)
reserved_name (some (arr items)) = none
reserved_name (some (obj d)) = none
reserved_name _ = some false

-- A mapping whose name is reserved.
unfoldable pub is_reserved : Json → Option Bool
is_reserved (obj item) = reserved_name (get? "name" item)
is_reserved _ = some false

unfoldable pub literal : String → String → Json
literal name value =
    obj (dict (("name", str name) ∷ ("value_source", str "literal") ∷ ("value", str value) ∷ []))

unfoldable pub platform_variables : Build → Items
unfolding literal
platform_variables b =
    cons (literal "APP_COMMIT_SHA" b.commit_sha)
      (cons (literal "APP_VERSION" (or_text b.image_tag "")) nil)

-- One item of the comprehension, before those that follow it.
unfoldable pub keep_unreserved : Json → Option Bool → Option Items → Option Items
keep_unreserved v (some reserved) (some rest) = some (if reserved then rest else cons v rest)
keep_unreserved v _ _ = none

-- The items of `project.env_vars`, without the reserved ones, and then the platform's. `none` is the
-- TypeError of `is_reserved`.
unfoldable pub resolved_workload_environment : Items → Build → Option Items
unfolding is_reserved platform_variables
resolved_workload_environment nil b = some (platform_variables b)
resolved_workload_environment (cons v vs) b =
    keep_unreserved v (is_reserved v) (resolved_workload_environment vs b)
