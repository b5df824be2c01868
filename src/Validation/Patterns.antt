-- ===== src/Validation/Patterns.antt =====
-- The regular expressions of control_plane/application/projects/validation.py, as tests that read a
-- text once. The texts are matched whole (`fullmatch`).
use Prim.Native.Char.{Char, code}
use Prim.Native.String.{count}
use autodeploy_platform.Prelude.{
  String, Bool, true, false, ◌&&◌, ◌||◌, not, leb, ◌==◌, mem_text, is_lower, is_upper, is_digit,
  is_lower_alnum, is_alnum, is_dash, all_chars, if◌then◌else◌, [], ◌∷◌,
}

abbrev pub is_dot : Char → Bool
is_dot c = code c == b'.'

abbrev pub is_underscore : Char → Bool
is_underscore c = code c == b'_'

-- [0-9a-fA-F]
abbrev pub is_hex : Char → Bool
is_hex c =
    is_digit c || leb b'a' (code c) && leb (code c) b'f' || leb b'A' (code c) && leb (code c) b'F'

-- One character of the first class, and any number of the second.
unfoldable pub head_and_tail : (Char → Bool) → (Char → Bool) → String → Bool
head_and_tail head tail String.[] = false
head_and_tail head tail (String.◌∷◌ c s) = head c && all_chars tail s

-- KUBERNETES_ENV_VAR_NAME_RE
unfoldable pub is_env_var_name : String → Bool
is_env_var_name s =
    head_and_tail (λ c. is_lower c || is_upper c || is_underscore c)
      (λ c. is_alnum c || is_underscore c) s

-- KUBERNETES_RESOURCE_NAME_RE: what stands before the next character is the start of a label, a
-- letter or digit of one, or a dash in one.
pub data NamePlace : Type 0 where
  label_start after_alnum after_dash : NamePlace

unfoldable pub next_place : NamePlace → Char → NamePlace
next_place place c =
    if is_lower_alnum c then after_alnum else if is_dash c then after_dash else label_start

-- A dash stands in a label, and a dot ends one.
unfoldable pub may_follow : NamePlace → Char → Bool
may_follow label_start c = is_lower_alnum c
may_follow after_alnum c = is_lower_alnum c || is_dash c || is_dot c
may_follow after_dash c = is_lower_alnum c || is_dash c

unfoldable pub is_name_from : NamePlace → String → Bool
is_name_from label_start String.[] = false
is_name_from after_alnum String.[] = true
is_name_from after_dash String.[] = false
is_name_from place (String.◌∷◌ c s) = may_follow place c && is_name_from (next_place place c) s

unfoldable pub is_resource_name : String → Bool
is_resource_name s = is_name_from label_start s

-- KUBERNETES_CONFIG_KEY_RE
abbrev pub is_key_char : Char → Bool
is_key_char c = is_alnum c || is_dash c || is_underscore c || is_dot c

unfoldable pub is_config_key : String → Bool
is_config_key s = head_and_tail is_key_char is_key_char s

-- GIT_BRANCH_NAME_RE
unfoldable pub is_branch_name : String → Bool
is_branch_name s =
    head_and_tail is_alnum (λ c. is_key_char c || code c == b'/') s && leb (count s) 120

-- GIT_COMMIT_RE, FULL_GIT_COMMIT_RE
unfoldable pub is_git_commit : String → Bool
is_git_commit s = all_chars is_hex s && (leb 7 (count s) && leb (count s) 40 || count s == 64)

unfoldable pub is_full_git_commit : String → Bool
is_full_git_commit s = all_chars is_hex s && (count s == 40 || count s == 64)

-- What follows the first digits of a text.
unfoldable pub drop_digits : String → String
drop_digits String.[] = ""
drop_digits (String.◌∷◌ c s) = if is_digit c then drop_digits s else String.◌∷◌ c s

-- \.[0-9]{1,3}
unfoldable pub is_fraction : String → Bool
is_fraction String.[] = false
is_fraction (String.◌∷◌ c s) =
    is_dot c && all_chars is_digit s && leb 1 (count s) && leb (count s) 3

-- CPU_QUANTITY_RE, by the first character
unfoldable pub is_cpu_quantity : String → Bool
is_cpu_quantity String.[] = false
is_cpu_quantity (String.◌∷◌ c s) =
    if code c == b'0'
    then is_fraction s
    else is_digit c
      && (let rest = drop_digits s in mem_text rest ("" ∷ "m" ∷ []) || is_fraction rest)

-- MEMORY_QUANTITY_RE
unfoldable pub is_memory_quantity : String → Bool
is_memory_quantity String.[] = false
is_memory_quantity (String.◌∷◌ c s) =
    is_digit c
    && not (code c == b'0')
    && mem_text (drop_digits s)
        ("" ∷ "Ki" ∷ "Mi" ∷ "Gi" ∷ "Ti" ∷ "Pi" ∷ "Ei" ∷ "k" ∷ "M" ∷ "G" ∷ "T" ∷ "P" ∷ "E" ∷ [])

-- The pattern for the name of an environment.
unfoldable pub is_environment_name : String → Bool
is_environment_name s = head_and_tail is_alnum is_key_char s && leb (count s) 64
