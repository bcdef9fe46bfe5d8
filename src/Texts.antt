-- ===== src/Texts.antt =====
-- The string operations of JavaScript that the source applies to keys: the test for a 64-digit
-- hex text, ASCII lower case, and joining with a bar.
use Prim.Native.Char.{Char, code}
use obelisk_sfu.Prelude.{
  ℕ, suc, String, Bool, true, not, List, [], ◌∷◌, ◌&&◌, ◌||◌, ◌==◌, leb, nat_eq, if◌then◌else◌,
}

-- The capitals of ASCII and their small letters.
abbrev letters : List (Char × Char)
letters =
    ("A", "a")
    ∷ ("B", "b")
    ∷ ("C", "c")
    ∷ ("D", "d")
    ∷ ("E", "e")
    ∷ ("F", "f")
    ∷ ("G", "g")
    ∷ ("H", "h")
    ∷ ("I", "i")
    ∷ ("J", "j")
    ∷ ("K", "k")
    ∷ ("L", "l")
    ∷ ("M", "m")
    ∷ ("N", "n")
    ∷ ("O", "o")
    ∷ ("P", "p")
    ∷ ("Q", "q")
    ∷ ("R", "r")
    ∷ ("S", "s")
    ∷ ("T", "t")
    ∷ ("U", "u")
    ∷ ("V", "v")
    ∷ ("W", "w")
    ∷ ("X", "x")
    ∷ ("Y", "y")
    ∷ ("Z", "z")
    ∷ []

lower_from : List (Char × Char) → Char → Char
lower_from [] c = c
lower_from ((u, l) ∷ rest) c = if nat_eq (code c) (code u) then l else lower_from rest c

-- `s.toLowerCase()`, on texts whose capitals are those of ASCII
unfoldable pub to_lower_case : String → String
unfolding lower_from
to_lower_case String.[] = String.[]
to_lower_case (String.◌∷◌ c s) = String.◌∷◌ (lower_from letters c) (to_lower_case s)

abbrev is_hex_digit : ℕ → Bool
is_hex_digit c =
    (leb b'0' c && leb c b'9') || (leb b'a' c && leb c b'f') || (leb b'A' c && leb c b'F')

all_hex : String → Bool
all_hex String.[] = true
all_hex (String.◌∷◌ c s) = is_hex_digit (code c) && all_hex s

unfoldable pub char_count : String → ℕ
char_count String.[] = 0
char_count (String.◌∷◌ c s) = suc (char_count s)

-- `/^[0-9a-f]{64}$/i.test(s)`
unfoldable pub is_hex64 : String → Bool
unfolding all_hex char_count
is_hex64 s = nat_eq (char_count s) 64 && all_hex s

-- `/^[0-9a-f]+$/i.test(s)`
unfoldable pub is_hex : String → Bool
unfolding all_hex
is_hex s = not (s == "") && all_hex s
