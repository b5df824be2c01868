-- ===== src/Validation/Projects/Spec.antt =====
-- What the accepted specifications of projects are (`validate_project_spec_fields` of
-- control_plane/application/projects/validation.py).
use Prim.Native.String.{count}
use autodeploy_platform.Prelude.{
  ℕ, String, ◌≡◌, refl, ◌≤◌, ◌⊎◌, inl, inr, true, false, some, leb_sound,
}
use autodeploy_platform.Json.{Json, null, bool, num, str, arr, obj, Dict, get?}
use autodeploy_platform.Validation.Checks.{
  Check, accepted, check_field, then-accepted, require-accepted, check_field-accepted,
}
use autodeploy_platform.Validation.Patterns.{is_env_var_name, is_cpu_quantity, is_memory_quantity}
use autodeploy_platform.Validation.Fields.{
  validate_bounded_string, on_text, validate_branch_name, validate_healthcheck_path, quantity_text,
  validate_resource_quantity,
}
use autodeploy_platform.Validation.Fields.Sound.{
  Bounded, bounded_text-Bounded, SafeBranch, validate_branch_name-SafeBranch, AbsolutePath,
  validate_healthcheck_path-AbsolutePath,
}
use autodeploy_platform.Validation.Repositories.{
  Surroundings, validate_repo_url, validate_repo_relative_path,
}
use autodeploy_platform.Validation.Repositories.Sound.{
  Repository, InRepository, FileInRepository, validate_repo_url-Repository,
  validate_repo_relative_path-InRepository, validate_repo_relative_path-FileInRepository,
}
use autodeploy_platform.Validation.Commands.{validate_optional_command}
use autodeploy_platform.Validation.Commands.Sound.{
  PlainCommand, validate_optional_command-PlainCommand,
}
use autodeploy_platform.Validation.Projects.{check_git_secret_ref, validate_project_spec_fields}

-- Null, or a text with a property.
abbrev pub NullOr : (String → Type 0) → Json → Type 0
NullOr P v = (v ≡ null) ⊎ ((s : String) × (v ≡ str s) × P s)

-- The name of an environment variable that holds the secret.
abbrev pub SecretName : String → Type 0
SecretName s = Bounded s 120 × (is_env_var_name s ≡ true)

abbrev pub CpuQuantity : String → Type 0
CpuQuantity s = (count s ≤ 32) × (is_cpu_quantity s ≡ true)

abbrev pub MemoryQuantity : String → Type 0
MemoryQuantity s = (count s ≤ 32) × (is_memory_quantity s ≡ true)

validate_bounded_string-Bounded :
    (field_name : String) (n : ℕ) (v : Json)
    → validate_bounded_string v field_name n false false ≡ accepted
    → (s : String) × (v ≡ str s) × Bounded s n
unfolding validate_bounded_string
validate_bounded_string-Bounded field_name n (str s) h =
    (s, refl, bounded_text-Bounded s field_name n h)
validate_bounded_string-Bounded field_name n null h = cc
validate_bounded_string-Bounded field_name n (bool b) h = cc
validate_bounded_string-Bounded field_name n (num k) h = cc
validate_bounded_string-Bounded field_name n (arr vs) h = cc
validate_bounded_string-Bounded field_name n (obj d) h = cc

check_git_secret_ref-SecretName :
    (v : Json) → check_git_secret_ref v ≡ accepted → NullOr SecretName v
unfolding check_git_secret_ref validate_bounded_string on_text
check_git_secret_ref-SecretName null h = inl refl
check_git_secret_ref-SecretName (str s) h =
    let (form, named) = then-accepted _ _ h in
    inr (s, refl, (bounded_text-Bounded s "git_secret_ref" 120 form, require-accepted _ _ named))
check_git_secret_ref-SecretName (bool b) h = cc
check_git_secret_ref-SecretName (num k) h = cc
check_git_secret_ref-SecretName (arr vs) h = cc
check_git_secret_ref-SecretName (obj d) h = cc

cpu-CpuQuantity : (v : Json) → validate_resource_quantity v "cpu" ≡ accepted → NullOr CpuQuantity v
unfolding validate_resource_quantity quantity_text
cpu-CpuQuantity null h = inl refl
cpu-CpuQuantity (str s) h =
    let (short, rest) = then-accepted _ _ h in
    let (form, rest) = then-accepted _ _ rest in
    inr (s, refl, (leb_sound _ _ (require-accepted _ _ short), require-accepted _ _ form))
cpu-CpuQuantity (bool b) h = cc
cpu-CpuQuantity (num k) h = cc
cpu-CpuQuantity (arr vs) h = cc
cpu-CpuQuantity (obj d) h = cc

memory-MemoryQuantity :
    (v : Json) → validate_resource_quantity v "memory" ≡ accepted → NullOr MemoryQuantity v
unfolding validate_resource_quantity quantity_text
memory-MemoryQuantity null h = inl refl
memory-MemoryQuantity (str s) h =
    let (short, form) = then-accepted _ _ h in
    inr (s, refl, (leb_sound _ _ (require-accepted _ _ short), require-accepted _ _ form))
memory-MemoryQuantity (bool b) h = cc
memory-MemoryQuantity (num k) h = cc
memory-MemoryQuantity (arr vs) h = cc
memory-MemoryQuantity (obj d) h = cc

module _ (around : Surroundings) where
  command-PlainCommand :
      (field_name : String) (v : Json)
      → validate_optional_command around v field_name ≡ accepted
      → NullOr (PlainCommand around) v
  unfolding validate_optional_command
  command-PlainCommand field_name null h = inl refl
  command-PlainCommand field_name (str s) h =
      inr (s, refl, validate_optional_command-PlainCommand around s field_name h)
  command-PlainCommand field_name (bool b) h = cc
  command-PlainCommand field_name (num k) h = cc
  command-PlainCommand field_name (arr vs) h = cc
  command-PlainCommand field_name (obj d) h = cc

  -- The value of a field, where it is there.
  abbrev pub Given : Dict → String → (Json → Type 0) → Type 0
  Given payload name P = (v : Json) → get? name payload ≡ some v → P v

  pub record ValidSpec (payload : Dict) : Type 0 where
    pub name : Given payload "name" (λ v. (s : String) × (v ≡ str s) × Bounded s 120)
    pub branch : Given payload "branch" SafeBranch
    pub repo_url : Given payload "repo_url" (Repository around)
    pub dockerfile_path : Given payload "dockerfile_path" (FileInRepository around)
    pub build_context : Given payload "build_context" (InRepository around)
    pub healthcheck_path : Given payload "healthcheck_path" AbsolutePath
    pub default_test_command : Given payload "default_test_command" (NullOr (PlainCommand around))
    pub migration_command : Given payload "migration_command" (NullOr (PlainCommand around))
    pub git_secret_ref : Given payload "git_secret_ref" (NullOr SecretName)
    pub cpu : Given payload "cpu" (NullOr CpuQuantity)
    pub memory : Given payload "memory" (NullOr MemoryQuantity)

  module _ (payload : Dict) where
    given :
        (name : String) (check : Json → Check) {P : Json → Type 0}
        → ((v : Json) → check v ≡ accepted → P v)
        → check_field name payload check ≡ accepted
        → Given payload name P
    given name check sound passed v found =
        sound v (check_field-accepted name payload check v passed found)

    abbrev of_field : String → (Json → Check) → Check
    of_field name check = check_field name payload check

    abbrev check_spec_name : Json → Check
    check_spec_name v = validate_bounded_string v "name" 120 false false

    abbrev check_dockerfile : Json → Check
    check_dockerfile v = validate_repo_relative_path around v "dockerfile_path" false

    abbrev check_context : Json → Check
    check_context v = validate_repo_relative_path around v "build_context" true

    abbrev check_test_command : Json → Check
    check_test_command v = validate_optional_command around v "default_test_command"

    abbrev check_migration : Json → Check
    check_migration v = validate_optional_command around v "migration_command"

    abbrev check_cpu : Json → Check
    check_cpu v = validate_resource_quantity v "cpu"

    abbrev check_memory : Json → Check
    check_memory v = validate_resource_quantity v "memory"

    pub validate_project_spec_fields-ValidSpec :
        validate_project_spec_fields around payload ≡ accepted → ValidSpec payload
    unfolding validate_project_spec_fields
    validate_project_spec_fields-ValidSpec h =
        let (name, rest) = then-accepted (of_field "name" check_spec_name) _ h in
        let (branch, rest) = then-accepted (of_field "branch" validate_branch_name) _ rest in
        let (repo_url, rest) =
          then-accepted (of_field "repo_url" (validate_repo_url around)) _ rest in
        let (dockerfile, rest) =
          then-accepted (of_field "dockerfile_path" check_dockerfile) _ rest in
        let (context, rest) = then-accepted (of_field "build_context" check_context) _ rest in
        let (healthcheck, rest) =
          then-accepted (of_field "healthcheck_path" validate_healthcheck_path) _ rest in
        let (tests, rest) =
          then-accepted (of_field "default_test_command" check_test_command) _ rest in
        let (migration, rest) =
          then-accepted (of_field "migration_command" check_migration) _ rest in
        let (secret, rest) =
          then-accepted (of_field "git_secret_ref" check_git_secret_ref) _ rest in
        let (cpu, memory) =
          then-accepted (of_field "cpu" check_cpu) (of_field "memory" check_memory) rest in
        record {
          name = given "name" check_spec_name (validate_bounded_string-Bounded "name" 120) name;
          branch = given "branch" validate_branch_name validate_branch_name-SafeBranch branch;
          repo_url =
              given "repo_url" (validate_repo_url around) (validate_repo_url-Repository around)
                repo_url;
          dockerfile_path =
              given "dockerfile_path" check_dockerfile
                (λ v. validate_repo_relative_path-FileInRepository around v "dockerfile_path")
                dockerfile;
          build_context =
              given "build_context" check_context
                (λ v. validate_repo_relative_path-InRepository around v "build_context" true)
                context;
          healthcheck_path =
              given "healthcheck_path" validate_healthcheck_path
                validate_healthcheck_path-AbsolutePath healthcheck;
          default_test_command =
              given "default_test_command" check_test_command
                (command-PlainCommand "default_test_command") tests;
          migration_command =
              given "migration_command" check_migration (command-PlainCommand "migration_command")
                migration;
          git_secret_ref =
              given "git_secret_ref" check_git_secret_ref check_git_secret_ref-SecretName secret;
          cpu = given "cpu" check_cpu cpu-CpuQuantity cpu;
          memory = given "memory" check_memory memory-MemoryQuantity memory;
        }
