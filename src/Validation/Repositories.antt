-- ===== src/Validation/Repositories.antt =====
-- Repositories and the paths in them (control_plane/application/projects/validation.py).
-- `urlparse`, `pathlib` and the file system are given by `Surroundings`.
use Prim.Native.Char.{Char, code}
use Prim.Native.String
use Prim.Native.String.{count}
use autodeploy_platform.Prelude.{
  ℕ, zero, suc, ◌-◌, String, Bool, true, false, ◌&&◌, ◌||◌, not, leb, ◌==◌, Option, none, some,
  List, [], ◌∷◌, text_eq, truthy, or_text, strip, lower, ends_with, mem_text, slice_text, fstring,
  if◌then◌else◌,
}
use autodeploy_platform.Json.{Json}
use autodeploy_platform.Validation.Checks.{Check, accepted, rejected, fails, ◌then◌, require}
use autodeploy_platform.Validation.Fields.{text_field}
pub mod Sound

-- `urllib.parse.ParseResult`
pub record ParsedUrl : Type 0 where
  pub scheme : String
  pub netloc : String
  pub path : String
  pub params : String
  pub query : String
  pub fragment : String

-- `PurePosixPath(text).is_absolute()` and its `parts`
pub record PosixPath : Type 0 where
  pub is_absolute : Bool
  pub parts : List String

pub record Surroundings : Type 0 where
  pub urlparse : String → Option ParsedUrl  -- `none` where it raises ValueError
  pub posix_path : String → PosixPath
  -- The resolved path lies under the resolved CONTROL_PLANE_LOCAL_REPO_ROOT and is a directory.
  pub is_local_repository : String → Bool
  pub shlex_split : String → Option (List String)  -- `none` where it raises ValueError
  pub control_plane_env : Option String  -- CONTROL_PLANE_ENV
  pub control_plane_executor : Option String  -- CONTROL_PLANE_EXECUTOR, "fake" where it is not set

abbrev is_slash : Char → Bool
is_slash c = code c == b'/'

-- [^/]+, as much as there is, and the rest
unfoldable pub before_slash : String → String
before_slash String.[] = ""
before_slash (String.◌∷◌ c s) = if is_slash c then "" else String.◌∷◌ c (before_slash s)

unfoldable pub from_slash : String → String
from_slash String.[] = ""
from_slash (String.◌∷◌ c s) = if is_slash c then String.◌∷◌ c s else from_slash s

-- The text after a slash.
unfoldable pub after_slash : String → Option String
after_slash String.[] = none
after_slash (String.◌∷◌ c s) = if is_slash c then some s else none

-- The name of the repository, with at most a slash after it.
unfoldable pub repo_part : String → Option String
repo_part s =
    if truthy (before_slash s) && mem_text (from_slash s) ("" ∷ "/" ∷ [])
    then some (before_slash s)
    else none

unfoldable pub owner_part : String → Option (String × String)
owner_part s = elim (after_slash (from_slash s)) [
  | none ↦ none
  | some rest ↦ elim (repo_part rest) [
    | none ↦ none
    | some repo ↦ if truthy (before_slash s) then some (before_slash s, repo) else none
  ]
]

-- re.fullmatch(r"/([^/]+)/([^/]+)/?", path)
unfoldable pub owner_and_repo : String → Option (String × String)
owner_and_repo path = elim (after_slash path) [ none ↦ none | some s ↦ owner_part s ]

unfoldable pub without_git : String → String
without_git repo = if ends_with repo ".git" then slice_text (count repo - 4) repo else repo

abbrev pub canonical_url : String → String → String
canonical_url owner repo = fstring ("https://github.com/" ∷ owner ∷ "/" ∷ repo ∷ ".git" ∷ [])

unfoldable pub canonical_of : String × String → Option String
canonical_of (owner, repo) =
    let name = without_git repo in
    if truthy name && not (ends_with name ".git")
    then some (canonical_url (lower owner) (lower name))
    else none

abbrev pub is_github : ParsedUrl → Bool
is_github parsed =
    text_eq parsed.scheme "https"
    && text_eq (lower parsed.netloc) "github.com"
    && not (truthy parsed.params || truthy parsed.query || truthy parsed.fragment)

unfoldable pub normalize_parsed : ParsedUrl → Option String
normalize_parsed parsed =
    if is_github parsed
    then (elim (owner_and_repo parsed.path) [ none ↦ none | some names ↦ canonical_of names ])
    else none

-- The outer `none` is the exception of `urlparse`.
unfoldable pub normalize_github_repo_url : Surroundings → String → Option (Option String)
normalize_github_repo_url around value = elim (around.urlparse value) [
  | none ↦ none
  | some parsed ↦ some (normalize_parsed parsed)
]

abbrev pub local_repository : Surroundings → String → Check
local_repository around value =
    require
      (text_eq (lower (strip (or_text around.control_plane_env ""))) "development"
        && around.is_local_repository value)
      "Invalid repo_url. Local repository paths are allowed only when CONTROL_PLANE_ENV=development and under CONTROL_PLANE_LOCAL_REPO_ROOT; otherwise use a canonical GitHub HTTPS repository URL"

unfoldable pub check_remote : Surroundings → String → Option (Option String) → Check
check_remote around value none = fails "ValueError"
check_remote around value (some none) = local_repository around value
check_remote around value (some (some remote)) =
    require (leb (count remote) 255)
      "Invalid repo_url. Expected at most 255 characters after normalization"

unfoldable pub validate_repo_url : Surroundings → Json → Check
validate_repo_url around v =
    text_field "repo_url" 255 (λ s. check_remote around s (normalize_github_repo_url around s)) v

unfoldable pub validate_repo_relative_path :
    Surroundings → Json → (field_name : String) → (allow_dot : Bool) → Check
validate_repo_relative_path around v field_name allow_dot =
    text_field field_name 255
      (λ s.
        require (not (around.posix_path s).is_absolute)
          (fstring ("Invalid " ∷ field_name ∷ ". Expected a repository-relative path" ∷ []))
        then require (not (mem_text ".." (around.posix_path s).parts))
            (fstring ("Invalid " ∷ field_name ∷ ". Parent directory traversal is not allowed" ∷ []))
        then require (allow_dot || not (mem_text s ("." ∷ "./" ∷ []))) (
            fstring
              ("Invalid " ∷ field_name ∷ ". Expected a file path within the repository" ∷ [])))
      v
