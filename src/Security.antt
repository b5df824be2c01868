-- ===== src/Security.antt =====
-- control_plane/security.py: what is secret, and how it is taken out of texts and JSON data.
-- `str(value)` of a value that is no text is the parameter `str_of` (Python's printer); a text is
-- its own.
use Prim.Native.String
use autodeploy_platform.Prelude.{
  ℕ, zero, suc, ◌-◌, String, Bool, true, false, ◌||◌, Option, none, some, List, [], ◌∷◌, text_eq,
  truthy, starts_with, contains, ends_with, lower, strip, mem_text, if◌then◌else◌,
}
use autodeploy_platform.Json.{
  Json, null, bool, num, str, arr, obj, Items, nil, cons, Dict, end, field, get?, put, json_truthy,
}

abbrev pub redacted : String
redacted = "[REDACTED]"

-- `text.replace(value, by)`, for a `value` that is not empty: from the left, occurrences that do
-- not overlap. `skip` counts the characters of the last occurrence that are still to be dropped.
unfoldable pub replace_from : String → String → ℕ → String → String
replace_from value by skip String.[] = ""
replace_from value by (suc k) (String.◌∷◌ c s) = replace_from value by k s
replace_from value by zero (String.◌∷◌ c s) =
    if starts_with (String.◌∷◌ c s) value
    then String.◌++◌ by (replace_from value by (String.count value - 1) s)
    else String.◌∷◌ c (replace_from value by zero s)

unfoldable pub replace : String → String → String → String
unfolding replace_from starts_with
replace value by s = replace_from value by 0 s

unfoldable pub redact_text : List String → String → String
unfolding replace
redact_text [] text = text
redact_text (value ∷ values) text =
    redact_text values (if truthy value then replace value redacted text else text)

abbrev pub redact_text? : List String → Option String → Option String
redact_text? values none = none
redact_text? values (some text) = if truthy text then some (redact_text values text) else none

-- `item.get(key) == text`
abbrev is_text : String → Option Json → Bool
is_text text (some (str s)) = text_eq s text
is_text text _ = false

abbrev is_given : Option Json → Bool
is_given none = false
is_given (some null) = false
is_given (some _) = true

abbrev normalize_is_secret : Option Json → Dict → Dict
normalize_is_secret none d = d
normalize_is_secret (some v) d = put "is_secret" (bool (json_truthy v)) d

normalize_project_env_var : Json → Json
unfolding get? put
normalize_project_env_var (obj d) = obj (
    if is_text "secret_key_ref" (get? "value_source" d)
    then put "is_secret" (bool true) d
    else normalize_is_secret (get? "is_secret" d) d)
normalize_project_env_var v = v

pub normalize_project_env_vars : Items → Items
unfolding normalize_project_env_var
normalize_project_env_vars nil = nil
normalize_project_env_vars (cons v vs) =
    cons (normalize_project_env_var v) (normalize_project_env_vars vs)

abbrev truthy_entry : Option Json → Bool
truthy_entry none = false
truthy_entry (some v) = json_truthy v

pub env_var_is_secret : Json → Bool
unfolding get? json_truthy
env_var_is_secret (obj d) =
    if is_text "secret_key_ref" (get? "value_source" d)
    then true
    else truthy_entry (get? "is_secret" d)
env_var_is_secret v = false

hide_value : Dict → Dict
unfolding get? put
hide_value d = if is_given (get? "value" d) then put "value" (str redacted) d else d

pub serialize_project_env_var : Json → Json
unfolding env_var_is_secret hide_value put
serialize_project_env_var (obj d) =
    if env_var_is_secret (obj d) then obj (hide_value (put "is_secret" (bool true) d)) else obj d
serialize_project_env_var v = v

serialize_items : Items → Items
unfolding serialize_project_env_var
serialize_items nil = nil
serialize_items (cons v vs) = cons (serialize_project_env_var v) (serialize_items vs)

unfoldable pub serialized_project_env_vars : Items → Items
unfolding serialize_items normalize_project_env_vars
serialized_project_env_vars vs = serialize_items (normalize_project_env_vars vs)

abbrev pub sensitive_key_parts : List String
sensitive_key_parts = "authorization" ∷ "password" ∷ "token" ∷ "api_key" ∷ "private_key" ∷ []

abbrev pub non_sensitive_secret_reference_keys : List String
non_sensitive_secret_reference_keys =
    "git_secret_ref" ∷ "secret_refs_used" ∷ "image_pull_secret" ∷ []

any_part : String → List String → Bool
unfolding contains
any_part key [] = false
any_part key (part ∷ parts) = contains key part || any_part key parts

is_sensitive_lowered : String → Bool
unfolding any_part mem_text ends_with
is_sensitive_lowered lowered =
    if mem_text lowered non_sensitive_secret_reference_keys
      || ends_with lowered "_ref"
      || ends_with lowered "_refs"
    then false
    else any_part lowered sensitive_key_parts

pub is_sensitive_key : String → Bool
unfolding is_sensitive_lowered lower strip
is_sensitive_key key = is_sensitive_lowered (lower (strip key))

-- A list under the key `env_vars` is serialised, and not searched.
abbrev is_env_vars : String → Json → Bool
is_env_vars key (arr vs) = text_eq key "env_vars"
is_env_vars key v = false

abbrev serialized : Json → Json
serialized (arr vs) = arr (serialized_project_env_vars vs)
serialized v = v

unfoldable mutual
  unfolding redact_text is_sensitive_key serialized_project_env_vars

  pub redact_sensitive_data : List String → Json → Json
  redact_sensitive_data values null = null
  redact_sensitive_data values (bool b) = bool b
  redact_sensitive_data values (num n) = num n
  redact_sensitive_data values (str s) = str (redact_text values s)
  redact_sensitive_data values (arr vs) = arr (redact_items values vs)
  redact_sensitive_data values (obj d) = obj (redact_dict values d)

  pub redact_items : List String → Items → Items
  redact_items values nil = nil
  redact_items values (cons v vs) = cons (redact_sensitive_data values v) (redact_items values vs)

  pub redact_dict : List String → Dict → Dict
  redact_dict values end = end
  redact_dict values (field key v d) =
      field key
        (if is_env_vars key v
          then serialized v
          else if is_sensitive_key key
          then str redacted
          else redact_sensitive_data values v)
        (redact_dict values d)

module _ (str_of : Json → String) where
  -- `str(value)`
  abbrev text_of : Json → String
  text_of (str s) = s
  text_of v = str_of v

  abbrev secret_value : Option Json → List String → List String
  secret_value none rest = rest
  secret_value (some null) rest = rest
  secret_value (some v) rest = if truthy (text_of v) then text_of v ∷ rest else rest

  secret_item : Json → List String → List String
  unfolding env_var_is_secret get?
  secret_item (obj d) rest =
      if env_var_is_secret (obj d) then secret_value (get? "value" d) rest else rest
  secret_item v rest = rest

  secret_items : Items → List String
  unfolding secret_item
  secret_items nil = []
  secret_items (cons v vs) = secret_item v (secret_items vs)

  unfoldable pub secret_values_from_env_vars : Items → List String
  unfolding secret_items normalize_project_env_vars
  secret_values_from_env_vars vs = secret_items (normalize_project_env_vars vs)
