-- ===== src/Validation/Checks.antt =====
-- The answer of a check: `None`, the text of an error, or an exception that it does not catch.
use Prim.Native.String.{compare}
use text.Mathlib.Text.{is_le}
use autodeploy_platform.Prelude.{
  String, ◌≡◌, refl, subst, ◌⊎◌, inl, inr, Bool, true, false, Option, none, some, List, [], ◌∷◌,
  mem_text, fstring, if◌then◌else◌,
}
use autodeploy_platform.Json.{Json, null, str, Dict, end, field, get?}

pub data Check : Type 0 where
  accepted : Check
  rejected : String → Check
  fails : String → Check

-- `if error: return error`, and what comes after it.
infixr 5 ◌then◌
abbrev pub ◌then◌ : Check → Check → Check
accepted then next = next
rejected message then next = rejected message
fails error_type then next = fails error_type

-- The condition that a value must meet, and the message where it does not.
abbrev pub require : Bool → String → Check
require holds message = if holds then accepted else rejected message

-- `if name in payload:`
unfoldable pub check_present : (Json → Check) → Option Json → Check
check_present check none = accepted
check_present check (some v) = check v

abbrev pub check_field : String → Dict → (Json → Check) → Check
check_field name payload check = check_present check (get? name payload)

-- `payload.get(name, default)`
abbrev pub value_or : Json → Option Json → Json
value_or default none = default
value_or default (some v) = v

abbrev pub get_or : String → Json → Dict → Json
get_or name default payload = value_or default (get? name payload)

-- `payload.get(name)`
abbrev pub get : String → Dict → Json
get name payload = get_or name null payload

unfoldable pub keys : Dict → List String
keys end = []
keys (field k v d) = k ∷ keys d

-- sorted(...)
unfoldable pub insert_text : String → List String → List String
insert_text s [] = s ∷ []
insert_text s (t ∷ ts) = if is_le (compare s t) then s ∷ t ∷ ts else t ∷ insert_text s ts

unfoldable pub sorted : List String → List String
sorted [] = []
sorted (s ∷ ts) = insert_text s (sorted ts)

-- ", ".join(...)
unfoldable pub join_rest : List String → String
join_rest [] = ""
join_rest (s ∷ ss) = fstring (", " ∷ s ∷ join_rest ss ∷ [])

unfoldable pub join : List String → String
join [] = ""
join (s ∷ ss) = fstring (s ∷ join_rest ss ∷ [])

-- The keys that are not allowed.
unfoldable pub outside : List String → List String → List String
outside allowed [] = []
outside allowed (k ∷ ks) =
    let rest = outside allowed ks in if mem_text k allowed then rest else k ∷ rest

unfoldable pub no_unsupported : String → List String → Check
no_unsupported payload_name [] = accepted
no_unsupported payload_name (k ∷ ks) =
    rejected (fstring ("Unsupported " ∷ payload_name ∷ " fields: " ∷ join (sorted (k ∷ ks)) ∷ []))

unfoldable pub unsupported_fields_error : Dict → List String → String → Check
unsupported_fields_error payload allowed payload_name =
    no_unsupported payload_name (outside allowed (keys payload))

-- `value in texts`
unfoldable pub is_one_of : List String → Json → Bool
is_one_of texts (str s) = mem_text s texts
is_one_of texts _ = false

pub then-accepted : (c d : Check) → (c then d) ≡ accepted → (c ≡ accepted) × (d ≡ accepted)
then-accepted accepted d h = (refl, h)
then-accepted (rejected message) d h = cc
then-accepted (fails error_type) d h = cc

pub require-accepted : (b : Bool) (message : String) → require b message ≡ accepted → b ≡ true
require-accepted true message h = refl
require-accepted false message h = cc

pub check_field-accepted :
    (name : String) (payload : Dict) (check : Json → Check) (v : Json)
    → check_field name payload check ≡ accepted
    → get? name payload ≡ some v
    → check v ≡ accepted
unfolding check_present
check_field-accepted name payload check v h found =
    subst (λ o. check_present check o ≡ accepted) found h

pub if-accepted :
    (b : Bool) (c d : Check)
    → (if b then c else d) ≡ accepted
    → ((b ≡ true) × (c ≡ accepted)) ⊎ ((b ≡ false) × (d ≡ accepted))
if-accepted true c d h = inl (refl, h)
if-accepted false c d h = inr (refl, h)

pub no_unsupported-empty :
    (payload_name : String) (names : List String)
    → no_unsupported payload_name names ≡ accepted
    → names ≡ []
unfolding no_unsupported
no_unsupported-empty payload_name [] h = refl
no_unsupported-empty payload_name (k ∷ ks) h = cc
