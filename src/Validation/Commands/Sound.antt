-- ===== src/Validation/Commands/Sound.antt =====
-- What the accepted commands are (control_plane/command_validation.py).
use Prim.Native.String
use Prim.Native.String.{count, char_at}
use text.Mathlib.TextEquality.{eq_iff}
use text.Mathlib.TextLemmas.{nil-append, cons-append}
use autodeploy_platform.Prelude.{
  String, ◌≡◌, ◌≢◌, refl, sym, subst, ◌≤◌, inl, inr, Bool, true, false, ◌&&◌, Option, none, some,
  List, [], ◌∷◌, truthy, strip, not-true, leb_sound, Bool-cases, text_eq, mem_text, contains, arith,
}
use autodeploy_platform.Validation.Parts.{contains-append}
use autodeploy_platform.Json.{str}
use autodeploy_platform.Validation.Checks.{accepted, then-accepted, require-accepted}
use autodeploy_platform.Validation.Repositories.{Surroundings}
use autodeploy_platform.Validation.Commands.{
  shell_control_patterns, shell_executables, contains_any, base_name_from, is_shell_wrapper,
  check_args, check_command, validate_optional_command,
}

-- The control characters and operators of a shell.
abbrev pub shell_operators : List String
shell_operators = "\0" ∷ "\n" ∷ "\r" ∷ ";" ∷ "&&" ∷ "||" ∷ "|" ∷ "<" ∷ ">" ∷ "`" ∷ "$(" ∷ []

-- The program is a shell, by its bare name or by a path.
pub data IsShell : String → Type 0 where
  bare :
      (name : String)
      → mem_text name ("sh" ∷ "bash" ∷ "dash" ∷ "zsh" ∷ "fish" ∷ []) ≡ true
      → IsShell name
  in_directory :
      (directory name : String)
      → mem_text name ("sh" ∷ "bash" ∷ "dash" ∷ "zsh" ∷ "fish" ∷ []) ≡ true
      → IsShell (String.◌++◌ directory (String.◌++◌ "/" name))

-- A command that can be run without a shell.
pub record PlainCommand (around : Surroundings) (s : String) : Type 0 where
  pub not_blank : truthy (strip s) ≡ true
  pub length : count s ≤ 255
  pub no_operators :
      (operator before after : String)
      → mem_text operator shell_operators ≡ true
      → s ≢ String.◌++◌ before (String.◌++◌ operator after)
  pub executable : String
  pub arguments : List String
  pub splits : around.shlex_split s ≡ some (executable ∷ arguments)
  pub no_wrapper : (rest : List String) → arguments ≡ "-c" ∷ rest → IsShell executable → ⊥

contains_any-false :
    (s p : String) (patterns : List String)
    → contains_any s patterns ≡ false
    → mem_text p patterns ≡ true
    → contains s p ≡ false
unfolding contains_any mem_text
contains_any-false s p [] h = λ e. cc
contains_any-false s p (q ∷ patterns) h = elim (Bool-cases (text_eq p q)) [
  | inl same ↦
      rw same (λ e. subst (λ x. contains s x ≡ false) (sym ((eq_iff p q).0 same)) (ground arith))
  | inr other ↦ rw other (contains_any-false s p patterns (ground arith))
]

base_name_from-directory :
    (directory last name : String)
    → base_name_from last (String.◌++◌ directory (String.◌++◌ "/" name)) ≡ base_name_from "" name
unfolding base_name_from
base_name_from-directory String.[] last name =
    rw (nil-append (String.◌++◌ "/" name), cons-append (char_at "/" 0) "" name, nil-append name)
      refl
base_name_from-directory (String.◌∷◌ c directory) last name =
    rw (cons-append c directory (String.◌++◌ "/" name)) (base_name_from-directory directory _ name)

abbrev all_pass : (String → Bool) → List String → Bool
all_pass test [] = true
all_pass test (name ∷ names) = test name && all_pass test names

all_pass_lem :
    (test : String → Bool) (name : String) (names : List String)
    → all_pass test names ≡ true
    → mem_text name names ≡ true
    → test name ≡ true
unfolding mem_text
all_pass_lem test name [] h = λ e. cc
all_pass_lem test name (first ∷ names) h = elim (Bool-cases (text_eq name first)) [
  | inl same ↦
      rw same (λ e. subst (λ x. test x ≡ true) (sym ((eq_iff name first).0 same)) (ground arith))
  | inr other ↦ rw other (all_pass_lem test name names (ground arith))
]

-- The name of a shell has no directory.
shell_base_name :
    (name : String)
    → mem_text name shell_executables ≡ true
    → mem_text (base_name_from "" name) shell_executables ≡ true
unfolding mem_text base_name_from
shell_base_name name =
    all_pass_lem (λ x. mem_text (base_name_from "" x) shell_executables) name shell_executables refl

IsShell-base_name :
    {executable : String}
    → IsShell executable
    → mem_text (base_name_from "" executable) shell_executables ≡ true
IsShell-base_name (IsShell.bare name shell) = shell_base_name name shell
IsShell-base_name (IsShell.in_directory directory name shell) =
    subst (λ x. mem_text x shell_executables ≡ true)
      (sym (base_name_from-directory directory "" name)) (shell_base_name name shell)

wrapper_found :
    (executable : String) (rest : List String)
    → IsShell executable
    → is_shell_wrapper (executable ∷ "-c" ∷ rest) ≡ true
unfolding is_shell_wrapper
wrapper_found executable rest shell = rw (IsShell-base_name shell) refl

check_args-splits :
    (field_name : String) (o : Option (List String))
    → check_args field_name o ≡ accepted
    → (arg : String) × (args : List String) × (o ≡ some (arg ∷ args))
      × (is_shell_wrapper (arg ∷ args) ≡ false)
unfolding check_args
check_args-splits field_name none h = cc
check_args-splits field_name (some []) h = cc
check_args-splits field_name (some (arg ∷ args)) h =
    (arg, args, refl, not-true _ (require-accepted _ _ h))

pub validate_optional_command-PlainCommand :
    (around : Surroundings) (s field_name : String)
    → validate_optional_command around (str s) field_name ≡ accepted
    → PlainCommand around s
unfolding validate_optional_command check_command
validate_optional_command-PlainCommand around s field_name h =
    let (first, rest) = then-accepted _ _ h in
    let (second, rest) = then-accepted _ _ rest in
    let (third, last) = then-accepted _ _ rest in
    let (arg, args, splits, no_wrapper) =
      check_args-splits field_name (around.shlex_split s) last in
    record {
      not_blank = require-accepted _ _ first;
      length = leb_sound _ _ (require-accepted _ _ second);
      no_operators = λ operator before after listed e.
          let found =
            subst (λ x. contains x operator ≡ true) (sym e)
              (contains-append before operator after) in
          let missing =
            contains_any-false s operator shell_control_patterns
              (not-true _ (require-accepted _ _ third)) listed in
          cc;
      executable = arg;
      arguments = args;
      splits = splits;
      no_wrapper = λ rest e shell.
          let refused = subst (λ x. is_shell_wrapper (arg ∷ x) ≡ false) e no_wrapper in
          let found = wrapper_found arg rest shell in cc;
    }
