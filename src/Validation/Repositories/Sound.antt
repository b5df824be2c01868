-- ===== src/Validation/Repositories/Sound.antt =====
-- What the accepted repositories and the paths in them are
-- (control_plane/application/projects/validation.py).
use Prim.Native.String.{count}
use autodeploy_platform.Prelude.{
  String, ◌≡◌, ◌≢◌, refl, ◌≤◌, Bool, true, false, Option, none, some, [], ◌∷◌, or_text, strip,
  lower, mem_text, not-true, leb_sound, subst, sym, truthy, Bool-cases, Option-cases, inl, inr,
  ◌||◌, arith,
}
use text.Mathlib.TextEquality.{eq_iff}
use autodeploy_platform.Json.{Json, str}
use autodeploy_platform.Validation.Checks.{accepted, then-accepted, require-accepted}
use autodeploy_platform.Validation.Fields.Sound.{and_true, Bounded, text_field-AcceptedText}
use autodeploy_platform.Validation.Repositories.{
  ParsedUrl, Surroundings, is_github, normalize_parsed, normalize_github_repo_url, check_remote,
  validate_repo_url, validate_repo_relative_path,
}

-- What `urlparse` makes of the address of a repository of GitHub.
pub record GithubUrl (parsed : ParsedUrl) : Type 0 where
  pub secure : parsed.scheme ≡ "https"
  pub host : lower parsed.netloc ≡ "github.com"
  pub no_params : parsed.params ≡ ""
  pub no_query : parsed.query ≡ ""
  pub no_fragment : parsed.fragment ≡ ""

-- A repository of GitHub, whose canonical address is short enough, or in development a directory
-- where local repositories may stand.
pub data Source (around : Surroundings) (url : String) : Type 0 where
  on_github :
      (parsed : ParsedUrl) (remote : String)
      → around.urlparse url ≡ some parsed
      → GithubUrl parsed
      → normalize_github_repo_url around url ≡ some (some remote)
      → count remote ≤ 255
      → Source around url
  local :
      lower (strip (or_text around.control_plane_env "")) ≡ "development"
      → around.is_local_repository url ≡ true
      → Source around url

pub record Repository (around : Surroundings) (v : Json) : Type 0 where
  pub url : String
  pub is_text : v ≡ str url
  pub bounded : Bounded url 255
  pub source : Source around url

-- A path that does not leave the repository.
pub record InRepository (around : Surroundings) (v : Json) : Type 0 where
  pub path : String
  pub is_text : v ≡ str path
  pub bounded : Bounded path 255
  pub relative : (around.posix_path path).is_absolute ≡ false
  pub no_parent : mem_text ".." (around.posix_path path).parts ≡ false

-- The path of a file is not that of the repository itself.
pub record FileInRepository (around : Surroundings) (v : Json) : Type 0 where
  pub inside : InRepository around v
  pub no_dot : (v ≢ str ".") × (v ≢ str "./")

not_truthy : (s : String) → truthy s ≡ false → s ≡ ""
not_truthy s h = (eq_iff s "").0 (ground arith)

or_false : (a b : Bool) → (a || b) ≡ false → (a ≡ false) × (b ≡ false)
or_false false b h = (refl, h)
or_false true b h = cc

is_github-GithubUrl : (parsed : ParsedUrl) → is_github parsed ≡ true → GithubUrl parsed
is_github-GithubUrl parsed h =
    let (address, bare) = and_true _ _ h in
    let (scheme, host) = and_true _ _ address in
    let (rest, fragment) = or_false _ _ (not-true _ bare) in
    let (params, query) = or_false _ _ rest in
    record {
      secure = (eq_iff _ _).0 scheme;
      host = (eq_iff _ _).0 host;
      no_params = not_truthy _ params;
      no_query = not_truthy _ query;
      no_fragment = not_truthy _ fragment;
    }

normalize_parsed-GithubUrl :
    (parsed : ParsedUrl) (remote : String)
    → normalize_parsed parsed ≡ some remote
    → GithubUrl parsed
unfolding normalize_parsed
normalize_parsed-GithubUrl parsed remote = elim (Bool-cases (is_github parsed)) [
  | inl github ↦ λ h. is_github-GithubUrl parsed github
  | inr other ↦ rw other (λ h. cc)
]

module _ (around : Surroundings) where
  normalize-GithubUrl :
      (url remote : String)
      → normalize_github_repo_url around url ≡ some (some remote)
      → (parsed : ParsedUrl) × (around.urlparse url ≡ some parsed) × GithubUrl parsed
  unfolding normalize_github_repo_url
  normalize-GithubUrl url remote = elim (Option-cases (around.urlparse url)) [
    | inl failed ↦ rw failed (λ h. cc)
    | inr read ↦ rw read.1 (λ h.
        let same : normalize_parsed read.0 ≡ some remote = cc in
        (read.0, refl, normalize_parsed-GithubUrl read.0 remote same))
  ]

  check_remote-Source :
      (url : String) (o : Option (Option String))
      → normalize_github_repo_url around url ≡ o
      → check_remote around url o ≡ accepted
      → Source around url
  unfolding check_remote
  check_remote-Source url none e h = cc
  check_remote-Source url (some none) e h =
      let (development, directory) = and_true _ _ (require-accepted _ _ h) in
      Source.local ((eq_iff _ _).0 development) directory
  check_remote-Source url (some (some remote)) e h =
      let (parsed, read, github) = normalize-GithubUrl url remote e in
      Source.on_github parsed remote read github e (leb_sound _ _ (require-accepted _ _ h))

  pub validate_repo_url-Repository :
      (v : Json) → validate_repo_url around v ≡ accepted → Repository around v
  unfolding validate_repo_url
  validate_repo_url-Repository v h =
      let text = text_field-AcceptedText _ _ _ v h in
      record {
        url = text.text;
        is_text = text.is_text;
        bounded = text.bounded;
        source = check_remote-Source text.text _ refl text.passed;
      }

  pub validate_repo_relative_path-InRepository :
      (v : Json) (field_name : String) (allow_dot : Bool)
      → validate_repo_relative_path around v field_name allow_dot ≡ accepted
      → InRepository around v
  unfolding validate_repo_relative_path
  validate_repo_relative_path-InRepository v field_name allow_dot h =
      let text = text_field-AcceptedText _ _ _ v h in
      let (relative, rest) = then-accepted _ _ text.passed in
      let (no_parent, rest) = then-accepted _ _ rest in
      record {
        path = text.text;
        is_text = text.is_text;
        bounded = text.bounded;
        relative = not-true _ (require-accepted _ _ relative);
        no_parent = not-true _ (require-accepted _ _ no_parent);
      }

  -- A dot alone is refused.
  dot_refused :
      (s : String) → mem_text s ("." ∷ "./" ∷ []) ≡ false → (str s ≢ str ".") × (str s ≢ str "./")
  unfolding mem_text
  dot_refused s h = (
    λ e. let same : s ≡ "." = cc in let equal = (eq_iff s ".").1 same in ground arith,
    λ e. let same : s ≡ "./" = cc in let equal = (eq_iff s "./").1 same in ground arith,
  )

  pub validate_repo_relative_path-FileInRepository :
      (v : Json) (field_name : String)
      → validate_repo_relative_path around v field_name false ≡ accepted
      → FileInRepository around v
  unfolding validate_repo_relative_path
  validate_repo_relative_path-FileInRepository v field_name h =
      let text = text_field-AcceptedText _ _ _ v h in
      let (relative, rest) = then-accepted _ _ text.passed in
      let (no_parent, no_dot) = then-accepted _ _ rest in
      record {
        inside = validate_repo_relative_path-InRepository v field_name false h;
        no_dot =
            subst (λ x. (x ≢ str ".") × (x ≢ str "./")) (sym text.is_text)
              (dot_refused text.text (not-true _ (require-accepted _ _ no_dot)));
      }
