-- ===== src/Prelude/Chars.antt =====
-- Classes of ASCII characters, and tests of the characters of a text.
use Prim.Native.Char.{Char, code}
use Prim.Native.String.{String}
use mathlib.Core.Bool.{Bool, true, false, ◌&&◌, ◌||◌}
use autodeploy_platform.Prelude.Tests.{leb, ◌==◌}

-- [a-z], [A-Z], [0-9]
abbrev pub is_lower : Char → Bool
is_lower c = leb b'a' (code c) && leb (code c) b'z'

abbrev pub is_upper : Char → Bool
is_upper c = leb b'A' (code c) && leb (code c) b'Z'

abbrev pub is_digit : Char → Bool
is_digit c = leb b'0' (code c) && leb (code c) b'9'

-- [a-z0-9]
abbrev pub is_lower_alnum : Char → Bool
is_lower_alnum c = is_lower c || is_digit c

-- [A-Za-z0-9]
abbrev pub is_alnum : Char → Bool
is_alnum c = is_lower_alnum c || is_upper c

abbrev pub is_dash : Char → Bool
is_dash c = code c == b'-'

unfoldable pub all_chars : (Char → Bool) → String → Bool
all_chars test String.[] = true
all_chars test (String.◌∷◌ c s) = test c && all_chars test s

unfoldable pub any_char : (Char → Bool) → String → Bool
any_char test String.[] = false
any_char test (String.◌∷◌ c s) = test c || any_char test s
