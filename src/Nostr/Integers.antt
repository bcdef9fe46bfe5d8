-- ===== src/Nostr/Integers.antt =====
-- `parseInt(text, 10)` and `Number.isFinite`, as call-listener.ts and config.ts use them.
use Prim.Native.Char.{code}
use Prim.Native.Nat.{◌^◌}
use Prim.Native.String.{[], ◌∷◌}
use obelisk_sfu.Prelude.{
  ℕ, zero, suc, String, Bool, true, false, Option, none, some, ◌+◌, ◌-◌, ◌*◌, ◌&&◌, ◌||◌, ltb, leb,
  nat_eq, if◌then◌else◌,
}

pub data ℤ : Type 0 where
  pos negsuc : ℕ → ℤ

abbrev is_digit : ℕ → Bool
is_digit c = leb b'0' c && leb c b'9'

-- The blanks that `parseInt` skips, those of ASCII and the no-break space.
abbrev is_blank : ℕ → Bool
is_blank c = (leb 9 c && leb c 13) || nat_eq c 32 || nat_eq c 160

digits : ℕ → String → ℕ
digits n [] = n
digits n (c ∷ rest) =
    let more = digits (n * 10 + (code c - 48)) rest in if is_digit (code c) then more else n

unsigned : String → Option ℕ
unfolding digits
unsigned [] = none
unsigned (c ∷ rest) = if is_digit (code c) then some (digits 0 (c ∷ rest)) else none

negative : ℕ → ℤ
negative zero = pos 0
negative (suc n) = negsuc n

signed : Bool → Option ℕ → Option ℤ
unfolding negative
signed minus none = none
signed minus (some n) =
    if leb (2 ^ 1024 - 2 ^ 970) n then none else if minus then some (negative n) else some (pos n)

after_blanks : String → Option ℤ
unfolding unsigned signed
after_blanks [] = none
after_blanks (c ∷ rest) =
    if nat_eq (code c) 45
    then signed true (unsigned rest)
    else if nat_eq (code c) 43
    then signed false (unsigned rest)
    else signed false (unsigned (c ∷ rest))

-- `none` is NaN or an infinity: a magnitude from 2^1024 - 2^970 on rounds to an infinity.
unfoldable pub parse_int : String → Option ℤ
unfolding after_blanks
parse_int [] = none
parse_int (c ∷ rest) =
    let skipped = parse_int rest in if is_blank (code c) then skipped else after_blanks (c ∷ rest)

-- `n < m`, for a natural number `m`
abbrev pub is_below : ℤ → ℕ → Bool
is_below (pos n) m = ltb n m
is_below (negsuc n) m = true
