-- ===== src/Json.antt =====
-- JSON columns and the dictionaries that the program builds for them. A number stands for a JSON
-- number: the program copies numbers, and compares one only with the specification's version.
use autodeploy_platform.Prelude.{
  ℕ, String, Bool, true, false, Option, none, some, List, [], ◌∷◌, text_eq, truthy, ◌==◌, not,
  if◌then◌else◌,
}

mutual
  pub data Json : Type 0 where
    null : Json
    bool : Bool → Json
    num : ℕ → Json
    str : String → Json
    arr : Items → Json
    obj : Dict → Json

  pub data Items : Type 0 where
    nil : Items
    cons : Json → Items → Items

  pub data Dict : Type 0 where
    end : Dict
    field : String → Json → Dict → Dict

-- `d.get(key)`
unfoldable pub get? : String → Dict → Option Json
get? key end = none
get? key (field k v d) = if text_eq k key then some v else get? key d

-- `d[key] = value`: a key keeps its place, and a new one comes last.
unfoldable pub put : String → Json → Dict → Dict
put key value end = field key value end
put key value (field k v d) = if text_eq k key then field k value d else field k v (put key value d)

-- `d.setdefault(key, value)`
unfoldable pub set_default : String → Json → Dict → Dict
set_default key value end = field key value end
set_default key value (field k v d) =
    if text_eq k key then field k v d else field k v (set_default key value d)

-- `d | e`
unfoldable pub merge : Dict → Dict → Dict
unfolding put
merge d end = d
merge d (field k v e) = merge (put k v d) e

-- A dictionary literal.
abbrev pub dict : List (String × Json) → Dict
dict [] = end
dict ((k, v) ∷ rest) = field k v (dict rest)

-- A list literal.
abbrev pub items : List Json → Items
items [] = nil
items (v ∷ vs) = cons v (items vs)

unfoldable pub opt_str : Option String → Json
opt_str none = null
opt_str (some s) = str s

unfoldable pub opt_num : Option ℕ → Json
opt_num none = null
opt_num (some n) = num n

-- `value or None` on what `d.get(key)` returns
unfoldable pub or_null : Option Json → Json
or_null none = null
or_null (some v) = v

-- Truth values.
unfoldable pub json_truthy : Json → Bool
json_truthy null = false
json_truthy (bool b) = b
json_truthy (num n) = not (n == 0)
json_truthy (str s) = truthy s
json_truthy (arr nil) = false
json_truthy (arr (cons v vs)) = true
json_truthy (obj end) = false
json_truthy (obj (field k v d)) = true

unfoldable pub json_truthy? : Option Json → Bool
json_truthy? none = false
json_truthy? (some v) = json_truthy v
