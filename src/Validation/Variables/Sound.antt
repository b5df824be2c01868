-- ===== src/Validation/Variables/Sound.antt =====
-- What the accepted environment variables are (`validate_project_env_vars` of
-- control_plane/application/projects/validation.py).
use autodeploy_platform.Prelude.{
  ℕ, suc, String, ◌≡◌, refl, subst, ◌≤◌, Bool, true, false, ◌&&◌, not, some, List, [], ◌∷◌, text_eq,
  mem_text, not-true, leb_sound, if◌then◌else◌, inl, inr,
}
use autodeploy_platform.Json.{Json, null, bool, num, str, arr, obj, Items, nil, cons, Dict}
use autodeploy_platform.Validation.Checks.{
  accepted, ◌then◌, require, get, then-accepted, require-accepted, if-accepted,
}
use autodeploy_platform.Validation.Patterns.{is_env_var_name}
use autodeploy_platform.Validation.Repositories.{Surroundings}
use autodeploy_platform.Validation.Variables.{
  is_null, is_true, is_optional_bool, check_name, check_value, check_literal, check_reference,
  check_by_source, check_entry, add_text, add_name, check_entries, count_items,
  kubernetes_project_validation_enabled, check_in_mode, validate_project_env_vars,
}

-- The entries of a project for Kubernetes, after entries with the names `seen`: each is an object
-- with a name that no entry before it has and that Kubernetes takes, and one that is marked as
-- secret has no literal value.
pub data Deployable : List String → Items → Type 0 where
  none_left : {seen : List String} → Deployable seen nil
  entry :
      {seen : List String} {item : Dict} {rest : Items} (name : String)
      → get "name" item ≡ str name
      → is_env_var_name name ≡ true
      → mem_text name seen ≡ false
      → (is_true (get "is_secret" item) ≡ true → is_null (get "value" item) ≡ true)
      → Deployable (name ∷ seen) rest
      → Deployable seen (cons (obj item) rest)

pub record NewName (seen : List String) (v : Json) : Type 0 where
  pub name : String
  pub is_text : v ≡ str name
  pub well_formed : is_env_var_name name ≡ true
  pub is_new : mem_text name seen ≡ false

check_name-NewName :
    (i : ℕ) (seen : List String) (v : Json) → check_name true i seen v ≡ accepted → NewName seen v
unfolding check_name
check_name-NewName i seen (str name) h =
    let (first, rest) = then-accepted _ _ h in
    let (second, rest) = then-accepted _ _ rest in
    let (third, fourth) = then-accepted _ _ rest in
    record {
      name = name;
      is_text = refl;
      well_formed = require-accepted _ _ third;
      is_new = not-true _ (require-accepted _ _ fourth);
    }
check_name-NewName i seen null h = cc
check_name-NewName i seen (bool b) h = cc
check_name-NewName i seen (num k) h = cc
check_name-NewName i seen (arr vs) h = cc
check_name-NewName i seen (obj d) h = cc

contradiction : {P : Type 0} {b : Bool} → b ≡ false → b ≡ true → P
contradiction h k = cc

module _ (i : ℕ) (item : Dict) where
  check_literal-not_secret :
      check_literal true i item ≡ accepted → is_true (get "is_secret" item) ≡ false
  unfolding check_literal
  check_literal-not_secret h =
      let (valued, rest) = then-accepted (check_value i (get "value" item)) _ h in
      let (alone, rest) =
        then-accepted
          (require (is_null (get "source_name" item) && is_null (get "source_key" item)) _) _
          rest in
      let (flagged, last) =
        then-accepted (require (is_optional_bool (get "is_secret" item)) _) _ rest in
      not-true _ (require-accepted (not (is_true (get "is_secret" item))) _ last)

  check_reference-no_value : check_reference i item ≡ accepted → is_null (get "value" item) ≡ true
  unfolding check_reference
  check_reference-no_value h = let (first, rest) = then-accepted _ _ h in require-accepted _ _ first

  check_source-secret :
      (source : String)
      → check_by_source true i item (str source) ≡ accepted
      → is_true (get "is_secret" item) ≡ true
      → is_null (get "value" item) ≡ true
  unfolding check_by_source
  check_source-secret source h secret =
      let (known, checked) = then-accepted _ (if text_eq source "literal" then _ else _) h in
      elim (if-accepted (text_eq source "literal") _ _ checked) [
        | inl literal ↦ contradiction (check_literal-not_secret literal.1) secret
        | inr reference ↦ check_reference-no_value reference.1
      ]

  check_by_source-secret :
      (source : Json)
      → check_by_source true i item source ≡ accepted
      → is_true (get "is_secret" item) ≡ true
      → is_null (get "value" item) ≡ true
  unfolding check_by_source
  check_by_source-secret (str source) h = check_source-secret source h
  check_by_source-secret null h = cc
  check_by_source-secret (bool b) h = cc
  check_by_source-secret (num k) h = cc
  check_by_source-secret (arr vs) h = cc
  check_by_source-secret (obj d) h = cc

add_name-text :
    (item : Dict) (seen : List String) (name : String)
    → get "name" item ≡ str name
    → add_name (obj item) seen ≡ name ∷ seen
unfolding add_name add_text
add_name-text item seen name h = rw h refl

check_entries-Deployable :
    (i : ℕ) (seen : List String) (items : Items)
    → check_entries true i seen items ≡ accepted
    → Deployable seen items
unfolding check_entries check_entry
check_entries-Deployable i seen nil h = none_left
check_entries-Deployable i seen (cons (obj item) rest) h =
    let (here, later) = then-accepted _ _ h in
    let (fields, here) = then-accepted _ _ here in
    let (named, sourced) = then-accepted _ _ here in
    let name = check_name-NewName i seen (get "name" item) named in
    entry name.name name.is_text name.well_formed name.is_new
      (check_by_source-secret i item _ sourced)
      (check_entries-Deployable (suc i) (name.name ∷ seen) rest (
        subst (λ names. check_entries true (suc i) names rest ≡ accepted)
          (add_name-text item seen name.name name.is_text) later))
check_entries-Deployable i seen (cons null rest) h = cc
check_entries-Deployable i seen (cons (bool b) rest) h = cc
check_entries-Deployable i seen (cons (num k) rest) h = cc
check_entries-Deployable i seen (cons (str s) rest) h = cc
check_entries-Deployable i seen (cons (arr vs) rest) h = cc

-- Where the executor is Kubernetes, a list of environment variables that is accepted has at most 100
-- entries. Each is an object whose name Kubernetes takes and no entry before it has, and no entry
-- that is marked as secret brings a literal value.
pub validate_project_env_vars-Deployable :
    (around : Surroundings) (items : Items)
    → kubernetes_project_validation_enabled around ≡ some true
    → validate_project_env_vars around (arr items) ≡ accepted
    → (count_items items ≤ 100) × Deployable [] items
unfolding validate_project_env_vars check_in_mode
validate_project_env_vars-Deployable around items kubernetes = rw kubernetes (λ h.
    let (few, checked) = then-accepted _ _ h in
    (leb_sound _ _ (require-accepted _ _ few), check_entries-Deployable 0 [] items checked))
