-- ===== src/Validation/Projects/Entries.antt =====
-- The single entries of the body for a project (`validate_project_payload` of
-- control_plane/application/projects/validation.py).
use text.Mathlib.TextEquality.{eq_iff}
use text.Mathlib.TextPositions.{eq_refl}
use autodeploy_platform.Prelude.{
  ℕ, String, ◌≡◌, refl, ap, subst, ◌∙◌, ◌≤◌, true, false, ◌||◌, not, Option, none, some, [], ◌∷◌,
  text_eq, mem_text, leb_sound, ◌⊎◌, Bool-cases, inl, inr, if◌then◌else◌, arith,
}
use autodeploy_platform.Json.{
  Json, null, bool, num, str, arr, obj, Items, Dict, end, field, get?, put, json_truthy,
}
use autodeploy_platform.Validation.Checks.{
  accepted, ◌then◌, is_one_of, then-accepted, require-accepted,
}
use autodeploy_platform.Validation.Repositories.{Surroundings}
use autodeploy_platform.Validation.Variables.{
  kubernetes_project_validation_enabled, validate_project_env_vars, count_items,
}
use autodeploy_platform.Validation.Variables.Sound.{
  Deployable, validate_project_env_vars-Deployable,
}
use autodeploy_platform.Validation.Projects.{copy_field, is_port, valid_git_auth_types}

get?-put :
    (name key : String) (v : Json) (d : Dict)
    → text_eq name key ≡ false
    → get? key (put name v d) ≡ get? key d
unfolding get? put
get?-put name key v end other = rw other refl
get?-put name key v (field k u d) other = elim (Bool-cases (text_eq k name)) [
  | inl same ↦ rw same (rw (ap (λ x. text_eq x key) ((eq_iff k name).0 same) ∙ other) refl)
  | inr differs ↦
      rw differs (ap (λ o. if text_eq k key then some u else o) (get?-put name key v d other))
]

pub get?-copy_field :
    (name key : String) (o : Option Json) (d : Dict)
    → text_eq name key ≡ false
    → get? key (copy_field name o d) ≡ get? key d
unfolding copy_field
get?-copy_field name key none d other = refl
get?-copy_field name key (some v) d other = get?-put name key v d other

get?-put_same :
    (name : String) (v : Json) (d : Dict) → get? name d ≡ none → get? name (put name v d) ≡ some v
unfolding get? put
get?-put_same name v end = λ absent. rw (eq_refl name) refl
get?-put_same name v (field k u d) = elim (Bool-cases (text_eq k name)) [
  | inl same ↦ rw same (λ absent. cc)
  | inr differs ↦ rw differs (λ absent. rw differs (get?-put_same name v d absent))
]

pub get?-copy_field_same :
    (name : String) (o : Option Json) (d : Dict)
    → get? name d ≡ none
    → get? name (copy_field name o d) ≡ o
unfolding copy_field
get?-copy_field_same name none d absent = absent
get?-copy_field_same name (some v) d absent = get?-put_same name v d absent

pub one_of_one : (s : String) (v : Json) → is_one_of (s ∷ []) v ≡ true → v ≡ str s
unfolding is_one_of mem_text
one_of_one s (str t) = elim (Bool-cases (text_eq t s)) [
  | inl same ↦ λ h. ap str ((eq_iff t s).0 same)
  | inr differs ↦ rw differs (λ h. cc)
]
one_of_one s null = λ h. cc
one_of_one s (bool b) = λ h. cc
one_of_one s (num k) = λ h. cc
one_of_one s (arr vs) = λ h. cc
one_of_one s (obj d) = λ h. cc

pub one_of_two :
    (s t : String) (v : Json) → is_one_of (s ∷ t ∷ []) v ≡ true → (v ≡ str s) ⊎ (v ≡ str t)
unfolding is_one_of mem_text
one_of_two s t (str u) = elim (Bool-cases (text_eq u s)) [
  | inl same ↦ λ h. inl (ap str ((eq_iff u s).0 same))
  | inr differs ↦ rw differs (λ h. inr (one_of_one t (str u) h))
]
one_of_two s t null = λ h. cc
one_of_two s t (bool b) = λ h. cc
one_of_two s t (num k) = λ h. cc
one_of_two s t (arr vs) = λ h. cc
one_of_two s t (obj d) = λ h. cc

-- A token comes with the name of its secret.
pub authenticated :
    (v secret : Json)
    → is_one_of valid_git_auth_types v ≡ true
    → (not (is_one_of ("token" ∷ []) v) || json_truthy secret) ≡ true
    → (v ≡ str "none") ⊎ ((v ≡ str "token") × (json_truthy secret ≡ true))
unfolding is_one_of mem_text
authenticated v secret typed named = elim (one_of_two "none" "token" v typed) [
  | inl free ↦ inl free
  | inr token ↦ inr (
    token,
    subst (λ x. (not (is_one_of ("token" ∷ []) x) || json_truthy secret) ≡ true) token named,
  )
]

pub variables_accepted :
    (around : Surroundings) (v : Json)
    → validate_project_env_vars around v ≡ accepted
    → (items : Items) × (v ≡ arr items)
      × (count_items items ≤ 100)
      × (kubernetes_project_validation_enabled around ≡ some true → Deployable [] items)
unfolding validate_project_env_vars
variables_accepted around (arr items) h =
    let (few, rest) = then-accepted _ _ h in
    (
      items,
      refl,
      leb_sound _ _ (require-accepted _ _ few),
      λ kubernetes. (validate_project_env_vars-Deployable around items kubernetes h).1,
    )
variables_accepted around null h = cc
variables_accepted around (bool b) h = cc
variables_accepted around (num k) h = cc
variables_accepted around (str s) h = cc
variables_accepted around (obj d) h = cc

pub is_port-number : (v : Json) → is_port v ≡ true → (n : ℕ) × (v ≡ num n) × (1 ≤ n) × (n ≤ 65535)
unfolding is_port
is_port-number (num n) h = (n, refl, ground arith, ground arith)
is_port-number null h = cc
is_port-number (bool b) h = cc
is_port-number (str s) h = cc
is_port-number (arr vs) h = cc
is_port-number (obj d) h = cc
