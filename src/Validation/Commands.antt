-- ===== src/Validation/Commands.antt =====
-- control_plane/command_validation.py. `shlex.split` is given by `Surroundings`.
use Prim.Native.String
use Prim.Native.Char.{code}
use Prim.Native.String.{count}
use autodeploy_platform.Prelude.{
  String, Bool, true, false, ◌&&◌, ◌||◌, not, leb, ◌==◌, Option, none, some, List, [], ◌∷◌, text_eq,
  truthy, strip, contains, mem_text, fstring, if◌then◌else◌,
}
use autodeploy_platform.Json.{Json, null, str}
use autodeploy_platform.Validation.Checks.{Check, accepted, rejected, ◌then◌, require}
use autodeploy_platform.Validation.Fields.{invalid, at_most}
use autodeploy_platform.Validation.Repositories.{Surroundings}
pub mod Sound

-- SHELL_CONTROL_PATTERNS
abbrev pub shell_control_patterns : List String
shell_control_patterns = "\0" ∷ "\n" ∷ "\r" ∷ ";" ∷ "&&" ∷ "||" ∷ "|" ∷ "<" ∷ ">" ∷ "`" ∷ "$(" ∷ []

-- SHELL_EXECUTABLES
abbrev pub shell_executables : List String
shell_executables = "sh" ∷ "bash" ∷ "dash" ∷ "zsh" ∷ "fish" ∷ []

unfoldable pub contains_any : String → List String → Bool
contains_any value [] = false
contains_any value (pattern ∷ patterns) = contains value pattern || contains_any value patterns

-- text.rsplit("/", 1)[-1]; `last` is what has been read since the last slash.
unfoldable pub base_name_from : String → String → String
base_name_from last String.[] = last
base_name_from last (String.◌∷◌ c s) =
    base_name_from (if code c == b'/' then "" else String.◌++◌ last (String.◌∷◌ c "")) s

abbrev pub base_name : String → String
base_name s = base_name_from "" s

unfoldable pub is_shell_wrapper : List String → Bool
is_shell_wrapper (executable ∷ argument ∷ rest) =
    mem_text (base_name executable) shell_executables && text_eq argument "-c"
is_shell_wrapper _ = false

unfoldable pub check_args : String → Option (List String) → Check
check_args field_name none = rejected (invalid field_name "Could not parse command arguments")
check_args field_name (some []) = rejected (invalid field_name "Expected a non-empty command")
check_args field_name (some (arg ∷ args)) =
    require (not (is_shell_wrapper (arg ∷ args)))
      (invalid field_name "Shell wrappers with -c are not supported")

unfoldable pub check_command : Surroundings → String → String → Check
check_command around field_name s =
    require (truthy (strip s)) (invalid field_name "Expected a non-empty string")
    then require (leb (count s) 255) (invalid field_name (at_most 255))
    then require (not (contains_any s shell_control_patterns))
        (invalid field_name "Shell control characters and operators are not supported")
    then check_args field_name (around.shlex_split s)

unfoldable pub validate_optional_command : Surroundings → Json → String → Check
validate_optional_command around null field_name = accepted
validate_optional_command around (str s) field_name = check_command around field_name s
validate_optional_command around _ field_name = rejected (invalid field_name "Expected a string")
