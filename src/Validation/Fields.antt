-- ===== src/Validation/Fields.antt =====
-- The checks of single fields in control_plane/application/projects/validation.py.
use Prim.Native.Char.{Char, code}
use Prim.Native.String.{count}
use autodeploy_platform.Prelude.{
  ℕ, String, Bool, true, false, ◌&&◌, ◌||◌, not, leb, ltb, ◌==◌, [], ◌∷◌, text_eq, truthy, strip,
  is_space, any_char, fstring, decimal, contains, starts_with, ends_with, mem_text, if◌then◌else◌,
}
use autodeploy_platform.Json.{Json, null, str}
use autodeploy_platform.Validation.Checks.{Check, accepted, rejected, ◌then◌, require}
use autodeploy_platform.Validation.Patterns.{
  is_resource_name, is_config_key, is_branch_name, is_git_commit, is_full_git_commit,
  is_cpu_quantity, is_memory_quantity,
}
pub mod Sound

-- f"Invalid {field_name}. {what}"
abbrev pub invalid : String → String → String
invalid field_name what = fstring ("Invalid " ∷ field_name ∷ ". " ∷ what ∷ [])

abbrev pub at_most : ℕ → String
at_most n = fstring ("Expected at most " ∷ decimal n ∷ " characters" ∷ [])

abbrev pub is_control : Char → Bool
is_control c = ltb (code c) 32 || code c == 127

-- What `validate_bounded_string` asks of a text.
unfoldable pub bounded_text : String → String → ℕ → Bool → Check
bounded_text s field_name max_length allow_empty =
    require (allow_empty || truthy (strip s)) (invalid field_name "Expected a non-empty string")
    then require (leb (count s) max_length) (invalid field_name (at_most max_length))
    then require (not (any_char is_control s))
        (invalid field_name "Control characters are not allowed")

unfoldable pub validate_bounded_string :
    Json → String → (max_length : ℕ) → (allow_none allow_empty : Bool) → Check
validate_bounded_string null field_name max_length true allow_empty = accepted
validate_bounded_string null field_name max_length false allow_empty =
    rejected (invalid field_name "Expected a string")
validate_bounded_string (str s) field_name max_length allow_none allow_empty =
    bounded_text s field_name max_length allow_empty
validate_bounded_string _ field_name max_length allow_none allow_empty =
    rejected (invalid field_name "Expected a string")

-- What is asked of a value that a check has found to be a text.
unfoldable pub on_text : (String → Check) → Json → Check
on_text check (str s) = check s
on_text check _ = accepted

-- The texts that a pattern takes, after the check of their form.
abbrev pub text_field : String → ℕ → (String → Check) → Json → Check
text_field field_name max_length check v =
    validate_bounded_string v field_name max_length false false then on_text check v

unfoldable pub validate_git_commit_sha : Json → (allow_abbreviated : Bool) → Check
validate_git_commit_sha (str s) true =
    require (is_git_commit s)
      "Invalid commit_sha. Expected a hexadecimal Git object ID with 7 to 40, or exactly 64 characters"
validate_git_commit_sha (str s) false =
    require (is_full_git_commit s)
      "Invalid commit_sha. Expected a hexadecimal Git object ID with exactly 40 or 64 characters"
validate_git_commit_sha _ allow_abbreviated = rejected "Invalid commit_sha. Expected a string"

unfoldable pub quantity_text : String → String → Check
quantity_text s field_name =
    require (leb (count s) 32) (invalid field_name (at_most 32))
    then require (not (text_eq field_name "cpu") || is_cpu_quantity s)
        "Invalid cpu. Expected a positive CPU quantity such as '250m', '0.5', or '1'"
    then require (not (text_eq field_name "memory") || is_memory_quantity s)
        "Invalid memory. Expected a positive byte quantity such as '512Mi', '1Gi', or '100M'"

unfoldable pub validate_resource_quantity : Json → String → Check
validate_resource_quantity null field_name = accepted
validate_resource_quantity (str s) field_name = quantity_text s field_name
validate_resource_quantity _ field_name = rejected (invalid field_name "Expected a string")

-- KUBERNETES_NAME_MAX_LENGTH, KUBERNETES_CONFIG_KEY_MAX_LENGTH
abbrev pub kubernetes_name_max_length : ℕ
kubernetes_name_max_length = 253

abbrev pub kubernetes_config_key_max_length : ℕ
kubernetes_config_key_max_length = 253

unfoldable pub validate_kubernetes_resource_name : Json → String → Check
validate_kubernetes_resource_name v field_name =
    text_field field_name kubernetes_name_max_length
      (λ s.
        require (is_resource_name s) (
          invalid field_name
            "Expected a valid Kubernetes resource name using DNS subdomain syntax"))
      v

unfoldable pub validate_kubernetes_config_key : Json → String → Check
validate_kubernetes_config_key v field_name =
    text_field field_name kubernetes_config_key_max_length
      (λ s.
        require (is_config_key s && not (mem_text s ("." ∷ ".." ∷ [])) && not (starts_with s ".."))
          (invalid field_name
            "Expected a valid Kubernetes Secret/ConfigMap key containing only letters, digits, '-', '_' or '.'"))
      v

unfoldable pub validate_healthcheck_path : Json → Check
validate_healthcheck_path v =
    text_field "healthcheck_path" 255
      (λ s.
        require (starts_with s "/")
          "Invalid healthcheck_path. Expected an absolute path starting with '/'"
        then require (not (any_char (λ c. is_space c || is_control c) s))
            "Invalid healthcheck_path. Whitespace and control characters are not allowed")
      v

-- The condition that the source writes as a disjunction of what is refused.
unfoldable pub is_safe_branch : String → Bool
is_safe_branch s =
    is_branch_name s
    && not (contains s "..")
    && not (contains s "//")
    && not (contains s "@{")
    && not (ends_with s "/")
    && not (ends_with s ".")
    && not (ends_with s ".lock")

unfoldable pub validate_branch_name : Json → Check
validate_branch_name v =
    text_field "branch" 120
      (λ s. require (is_safe_branch s) "Invalid branch. Expected a safe Git branch name") v
