-- ===== src/Validation/Fields/Sound.antt =====
-- What the accepted values of single fields are (control_plane/application/projects/validation.py).
use Prim.Native.String
use Prim.Native.String.{count}
use autodeploy_platform.Prelude.{
  ℕ, String, ◌≡◌, ◌≢◌, refl, ◌≤◌, Bool, true, false, ◌||◌, ◌&&◌, truthy, strip, any_char, not-true,
  leb_sound, is_space, starts_with,
}
use autodeploy_platform.Json.{Json, null, bool, num, str, arr, obj}
use autodeploy_platform.Validation.Parts.{contains-false, ends_with-false}
use autodeploy_platform.Validation.Patterns.{is_branch_name}
use autodeploy_platform.Validation.Checks.{Check, accepted, then-accepted, require-accepted}
use autodeploy_platform.Validation.Fields.{
  is_control, bounded_text, validate_bounded_string, on_text, text_field, is_safe_branch,
  validate_branch_name, validate_healthcheck_path,
}

-- A text that is not blank, no longer than `n`, and has no control characters.
pub record Bounded (s : String) (n : ℕ) : Type 0 where
  pub not_blank : truthy (strip s) ≡ true
  pub length : count s ≤ n
  pub printable : any_char is_control s ≡ false

pub bounded_text-Bounded :
    (s field_name : String) (n : ℕ) → bounded_text s field_name n false ≡ accepted → Bounded s n
unfolding bounded_text
bounded_text-Bounded s field_name n h =
    let (first, rest) = then-accepted _ _ h in
    let (second, third) = then-accepted _ _ rest in
    record {
      not_blank = require-accepted _ _ first;
      length = leb_sound _ _ (require-accepted _ _ second);
      printable = not-true _ (require-accepted _ _ third);
    }

-- The text that a check of a field has accepted.
pub record AcceptedText (v : Json) (n : ℕ) (check : String → Check) : Type 0 where
  pub text : String
  pub is_text : v ≡ str text
  pub bounded : Bounded text n
  pub passed : check text ≡ accepted

module _ (field_name : String) (n : ℕ) (check : String → Check) where
  pub text_field-AcceptedText :
      (v : Json) → text_field field_name n check v ≡ accepted → AcceptedText v n check
  unfolding validate_bounded_string on_text
  text_field-AcceptedText (str s) h =
      let (form, passed) = then-accepted _ _ h in
      record {
        text = s;
        is_text = refl;
        bounded = bounded_text-Bounded s field_name n form;
        passed = passed;
      }
  text_field-AcceptedText null h = cc
  text_field-AcceptedText (bool b) h = cc
  text_field-AcceptedText (num k) h = cc
  text_field-AcceptedText (arr vs) h = cc
  text_field-AcceptedText (obj d) h = cc

-- The part stands nowhere in the text.
abbrev pub Without : String → String → Type 0
Without s part = (before after : String) → s ≢ String.◌++◌ before (String.◌++◌ part after)

-- The text does not end so.
abbrev pub NotEnding : String → String → Type 0
NotEnding s suffix = (before : String) → s ≢ String.◌++◌ before suffix

-- A branch that is accepted: a text of the pattern, without what Git refuses in the name of a branch.
pub record SafeBranch (v : Json) : Type 0 where
  pub name : String
  pub is_text : v ≡ str name
  pub bounded : Bounded name 120
  pub pattern : is_branch_name name ≡ true
  pub no_dots : Without name ".."
  pub no_slashes : Without name "//"
  pub no_reference : Without name "@{"
  pub no_final_slash : NotEnding name "/"
  pub no_final_dot : NotEnding name "."
  pub no_lock : NotEnding name ".lock"

pub and_true : (a b : Bool) → (a && b) ≡ true → (a ≡ true) × (b ≡ true)
and_true true b h = (refl, h)
and_true false b h = cc

pub validate_branch_name-SafeBranch : (v : Json) → validate_branch_name v ≡ accepted → SafeBranch v
unfolding validate_branch_name is_safe_branch
validate_branch_name-SafeBranch v h =
    let text = text_field-AcceptedText _ _ _ v h in
    let name = text.text in
    let (rest, lock) = and_true _ _ (require-accepted _ _ text.passed) in
    let (rest, dot) = and_true _ _ rest in
    let (rest, slash) = and_true _ _ rest in
    let (rest, reference) = and_true _ _ rest in
    let (rest, slashes) = and_true _ _ rest in
    let (pattern, dots) = and_true _ _ rest in
    record {
      name = name;
      is_text = text.is_text;
      bounded = text.bounded;
      pattern = pattern;
      no_dots = contains-false name ".." (not-true _ dots);
      no_slashes = contains-false name "//" (not-true _ slashes);
      no_reference = contains-false name "@{" (not-true _ reference);
      no_final_slash = ends_with-false name "/" (not-true _ slash);
      no_final_dot = ends_with-false name "." (not-true _ dot);
      no_lock = ends_with-false name ".lock" (not-true _ lock);
    }

-- An absolute path without spaces.
pub record AbsolutePath (v : Json) : Type 0 where
  pub path : String
  pub is_text : v ≡ str path
  pub bounded : Bounded path 255
  pub absolute : starts_with path "/" ≡ true
  pub unspaced : any_char (λ c. is_space c || is_control c) path ≡ false

pub validate_healthcheck_path-AbsolutePath :
    (v : Json) → validate_healthcheck_path v ≡ accepted → AbsolutePath v
unfolding validate_healthcheck_path
validate_healthcheck_path-AbsolutePath v h =
    let text = text_field-AcceptedText _ _ _ v h in
    let (slash, spaces) = then-accepted _ _ text.passed in
    record {
      path = text.text;
      is_text = text.is_text;
      bounded = text.bounded;
      absolute = require-accepted _ _ slash;
      unspaced = not-true _ (require-accepted _ _ spaces);
    }
