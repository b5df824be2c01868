-- ===== src/Worker/Workload/Names.antt =====
-- The reserved names of worker/workload_environment.py.
use text.Mathlib.TextEquality.{eq_iff}
use autodeploy_platform.Prelude.{
  String, ◌≡◌, ◌≢◌, refl, sym, ap, ◌⊎◌, inl, inr, true, false, Option, none, some, Bool-cases,
  mem_text, text_eq, or_text,
}
use autodeploy_platform.Json.{
  Json, null, bool, num, str, arr, obj, Items, nil, cons, Dict, end, field, get?,
}
use autodeploy_platform.Models.Rows.{Build}
use autodeploy_platform.Worker.Workload.{
  reserved_name, is_reserved, platform_variables, keep_unreserved, resolved_workload_environment,
}

-- No name is a list or a dictionary, which Python cannot look up in a set.
abbrev HashableName : Option Json → Type 0
HashableName (some (arr vs)) = ⊥
HashableName (some (obj d)) = ⊥
HashableName _ = Unit

abbrev pub HashableNames : Items → Type 0
HashableNames nil = Unit
HashableNames (cons (obj item) vs) = HashableName (get? "name" item) × HashableNames vs
HashableNames (cons _ vs) = HashableNames vs

-- The value under "name" is one of the two names of the platform's.
abbrev IsPlatformName : Option Json → Type 0
IsPlatformName o = (o ≡ some (str "APP_COMMIT_SHA")) ⊎ (o ≡ some (str "APP_VERSION"))

-- The second list is the first without the mappings that have one of the platform's names.
pub data Unreserved : Items → Items → Type 0 where
  done : Unreserved nil nil
  dropped :
      {item : Dict} {vs ws : Items}
      → IsPlatformName (get? "name" item)
      → Unreserved vs ws
      → Unreserved (cons (obj item) vs) ws
  kept_mapping :
      {item : Dict} {vs ws : Items}
      → (IsPlatformName (get? "name" item) → ⊥)
      → Unreserved vs ws
      → Unreserved (cons (obj item) vs) (cons (obj item) ws)
  kept_other :
      {v : Json} {vs ws : Items}
      → ((item : Dict) → v ≢ obj item)
      → Unreserved vs ws
      → Unreserved (cons v vs) (cons v ws)

-- A literal variable, as the workload gets it.
abbrev pub variable : String → String → Json
variable name value =
    obj (
      field "name" (str name)
        (field "value_source" (str "literal") (field "value" (str value) end)))

abbrev pub followed_by : Items → Items → Items
followed_by nil ws = ws
followed_by (cons v vs) ws = cons v (followed_by vs ws)

abbrev pub text_or_empty : Option String → String
text_or_empty none = ""
text_or_empty (some s) = s

-- The project's items without the reserved ones, and after them the commit and the version of the
-- build.
pub record PlatformOwned (vs : Items) (b : Build) : Type 0 where
  pub declared : Items
  pub unreserved : Unreserved vs declared
  pub environment :
      resolved_workload_environment vs b
      ≡ some (
          followed_by declared (
            cons
              (variable "APP_COMMIT_SHA" b.commit_sha)
              (cons (variable "APP_VERSION" (text_or_empty b.image_tag)) nil)))

or_text-empty : (o : Option String) → or_text o "" ≡ text_or_empty o
unfolding or_text
or_text-empty none = refl
or_text-empty (some s) = elim (Bool-cases (text_eq s "")) [
  | inl blank ↦ rw blank (sym ((eq_iff s "").0 blank))
  | inr filled ↦ rw filled refl
]

differs :
    (s t : String) → text_eq s t ≡ false → ◌≡◌ {A = Option Json} (some (str s)) (some (str t)) → ⊥
differs s t other e = let same : s ≡ t = cc in let equal = (eq_iff s t).1 same in cc

module _ (b : Build) where
  keep-PlatformOwned :
      (v : Json) (vs : Items)
      → ((item : Dict) → v ≢ obj item)
      → is_reserved v ≡ some false
      → PlatformOwned vs b
      → PlatformOwned (cons v vs) b
  unfolding resolved_workload_environment keep_unreserved
  keep-PlatformOwned v vs other free r = record {
    declared = cons v r.declared;
    unreserved = Unreserved.kept_other other r.unreserved;
    environment = rw (free, r.environment) refl;
  }

  named : {s t : String} → s ≡ t → ◌≡◌ {A = Option Json} (some (str s)) (some (str t))
  named e = ap (λ x. some (str x)) e

  not_named :
      (s : String)
      → text_eq s "APP_COMMIT_SHA" ≡ false
      → text_eq s "APP_VERSION" ≡ false
      → IsPlatformName (some (str s))
      → ⊥
  not_named s first second (inl e) = differs s "APP_COMMIT_SHA" first e
  not_named s first second (inr e) = differs s "APP_VERSION" second e

  -- What is known of a mapping's name, where it has a hash.
  reserved_name_lem :
      (o : Option Json)
      → HashableName o
      → ((reserved_name o ≡ some true) × IsPlatformName o)
        ⊎ ((reserved_name o ≡ some false) × (IsPlatformName o → ⊥))
  unfolding reserved_name mem_text
  reserved_name_lem (some (str s)) h = elim (Bool-cases (text_eq s "APP_COMMIT_SHA")) [
    | inl commit ↦ inl (rw commit refl, inl (named ((eq_iff s _).0 commit)))
    | inr first ↦ elim (Bool-cases (text_eq s "APP_VERSION")) [
      | inl version ↦ inl (rw (first, version) refl, inr (named ((eq_iff s _).0 version)))
      | inr second ↦ inr (rw (first, second) refl, not_named s first second)
    ]
  ]
  reserved_name_lem none h = inr (refl, λ e. elim e [ inl e ↦ cc | inr e ↦ cc ])
  reserved_name_lem (some null) h = inr (refl, λ e. elim e [ inl e ↦ cc | inr e ↦ cc ])
  reserved_name_lem (some (bool x)) h = inr (refl, λ e. elim e [ inl e ↦ cc | inr e ↦ cc ])
  reserved_name_lem (some (num n)) h = inr (refl, λ e. elim e [ inl e ↦ cc | inr e ↦ cc ])
  reserved_name_lem (some (arr vs)) h = elim h [ ]
  reserved_name_lem (some (obj d)) h = elim h [ ]

  mapping-PlatformOwned :
      (item : Dict) (vs : Items)
      → HashableName (get? "name" item)
      → PlatformOwned vs b
      → PlatformOwned (cons (obj item) vs) b
  unfolding resolved_workload_environment keep_unreserved is_reserved
  mapping-PlatformOwned item vs h r = elim (reserved_name_lem (get? "name" item) h) [
    | inl ours ↦ record {
      declared = r.declared;
      unreserved = Unreserved.dropped ours.1 r.unreserved;
      environment = rw (ours.0, r.environment) refl;
    }
    | inr free ↦ record {
      declared = cons (obj item) r.declared;
      unreserved = Unreserved.kept_mapping free.1 r.unreserved;
      environment = rw (free.0, r.environment) refl;
    }
  ]

  -- Where no mapping that a project declares has a list or a dictionary as its name, the workload's
  -- environment is the project's items in their order, without the mappings named `APP_COMMIT_SHA`
  -- or `APP_VERSION`, and after them those two variables as literals: the commit of the build, and
  -- its image tag or the empty text.
  pub resolved_workload_environment-PlatformOwned :
      (vs : Items) → HashableNames vs → PlatformOwned vs b
  unfolding resolved_workload_environment platform_variables is_reserved
  resolved_workload_environment-PlatformOwned nil h = record {
    declared = nil;
    unreserved = Unreserved.done;
    environment = rw (or_text-empty b.image_tag) refl;
  }
  resolved_workload_environment-PlatformOwned (cons (obj item) vs) h =
      mapping-PlatformOwned item vs h.0 (resolved_workload_environment-PlatformOwned vs h.1)
  resolved_workload_environment-PlatformOwned (cons null vs) h =
      keep-PlatformOwned null vs (λ item e. cc) refl
        (resolved_workload_environment-PlatformOwned vs h)
  resolved_workload_environment-PlatformOwned (cons (bool x) vs) h =
      keep-PlatformOwned (bool x) vs (λ item e. cc) refl
        (resolved_workload_environment-PlatformOwned vs h)
  resolved_workload_environment-PlatformOwned (cons (num n) vs) h =
      keep-PlatformOwned (num n) vs (λ item e. cc) refl
        (resolved_workload_environment-PlatformOwned vs h)
  resolved_workload_environment-PlatformOwned (cons (str s) vs) h =
      keep-PlatformOwned (str s) vs (λ item e. cc) refl
        (resolved_workload_environment-PlatformOwned vs h)
  resolved_workload_environment-PlatformOwned (cons (arr xs) vs) h =
      keep-PlatformOwned (arr xs) vs (λ item e. cc) refl
        (resolved_workload_environment-PlatformOwned vs h)
