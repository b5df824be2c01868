-- ===== src/Prelude/Texts.antt =====
-- The string methods that the program calls. `lower` and `strip` are Python's on ASCII text.
use Prim.Native.Nat.{ℕ, zero, suc, ◌-◌, ◌/◌, ◌%◌}
use Prim.Native.Char.{Char, code}
use Prim.Native.String
use Prim.Native.String.{String, count, char_at}
use mathlib.Core.Bool.{Bool, true, false, not, ◌&&◌, ◌||◌}
use mathlib.Core.Option.{Option, none, some}
use mathlib.Core.List.{List, [], ◌∷◌}
use text.Mathlib.Text.{◌==◌ as str_eq}
use autodeploy_platform.Prelude.Tests.{leb, ◌==◌, if◌then◌else◌}

abbrev pub text_eq : String → String → Bool
text_eq s t = str_eq s t

-- An f-string, from its parts.
abbrev pub fstring : List String → String
fstring [] = ""
fstring (s ∷ ss) = String.◌++◌ s (fstring ss)

unfoldable pub starts_with : String → String → Bool
starts_with s String.[] = true
starts_with String.[] (String.◌∷◌ d p) = false
starts_with (String.◌∷◌ c s) (String.◌∷◌ d p) = code c == code d && starts_with s p

-- `part in s`
unfoldable pub contains : String → String → Bool
unfolding starts_with
contains String.[] part = starts_with "" part
contains (String.◌∷◌ c s) part = starts_with (String.◌∷◌ c s) part || contains s part

unfoldable pub ends_with : String → String → Bool
unfolding starts_with
ends_with String.[] part = starts_with "" part
ends_with (String.◌∷◌ c s) part = str_eq (String.◌∷◌ c s) part || ends_with s part

unfoldable pub lower_char : Char → Char
lower_char c =
    if leb b'A' (code c) && leb (code c) b'Z'
    then char_at "abcdefghijklmnopqrstuvwxyz" (code c - b'A')
    else c

unfoldable pub lower : String → String
unfolding lower_char
lower String.[] = ""
lower (String.◌∷◌ c s) = String.◌∷◌ (lower_char c) (lower s)

-- The ASCII characters for which `str.isspace` holds.
unfoldable pub is_space : Char → Bool
is_space c = code c == 32 || leb 9 (code c) && leb (code c) 13 || leb 28 (code c) && leb (code c) 31

unfoldable pub lstrip : String → String
unfolding is_space
lstrip String.[] = ""
lstrip (String.◌∷◌ c s) = if is_space c then lstrip s else String.◌∷◌ c s

-- `rstrip` drops the spaces after the last other character.
unfoldable pub push_stripped : Char → String → String
unfolding is_space
push_stripped c String.[] = if is_space c then "" else String.◌∷◌ c ""
push_stripped c (String.◌∷◌ d s) = String.◌∷◌ c (String.◌∷◌ d s)

unfoldable pub rstrip : String → String
unfolding push_stripped
rstrip String.[] = ""
rstrip (String.◌∷◌ c s) = push_stripped c (rstrip s)

unfoldable pub strip : String → String
unfolding lstrip rstrip
strip s = lstrip (rstrip s)

-- The truth value of a text, and of an optional one.
abbrev pub truthy : String → Bool
truthy s = not (str_eq s "")

abbrev pub truthy? : Option String → Bool
truthy? none = false
truthy? (some s) = truthy s

-- `x or y`
unfoldable pub or_text : Option String → String → String
or_text none y = y
or_text (some x) y = if truthy x then x else y

-- `x or None`
unfoldable pub or_none : Option String → Option String
or_none none = none
or_none (some x) = if truthy x then some x else none

unfoldable pub mem_text : String → List String → Bool
mem_text s [] = false
mem_text s (t ∷ ts) = str_eq s t || mem_text s ts

-- `str` of a number that is not negative. A number has fewer digits than its own value plus two.
unfoldable pub digits_of : ℕ → ℕ → String → String
digits_of zero n rest = rest
digits_of (suc fuel) n rest =
    let digit = String.◌∷◌ (char_at "0123456789" (n % 10)) rest in
    let more = digits_of fuel (n / 10) digit in if leb n 9 then digit else more

unfoldable pub decimal : ℕ → String
unfolding digits_of
decimal n = digits_of (suc n) n ""

-- `text[:n]`
unfoldable pub slice_text : ℕ → String → String
slice_text n String.[] = ""
slice_text zero (String.◌∷◌ c s) = ""
slice_text (suc n) (String.◌∷◌ c s) = String.◌∷◌ c (slice_text n s)
