-- ===== src/Frames/Masks.antt =====
-- The masking of client frames: exclusive or with four bytes in turn, which undoes itself.
use Prim.Native.Nat.{bit_xor, bit_xor-bitwise, digits, differ}
use obelisk_sfu.Prelude.{
  ℕ, zero, suc, List, [], ◌∷◌, ◌≡◌, ◌≤◌, ◌<◌, ◌+◌, ◌*◌, ◌/◌, ◌%◌, ◌∙◌, ap, refl, arith, length,
}

-- `payload[i] ^ mask[i % 4]` for each `i`: the mask turns with the bytes.
unfoldable pub unmask : ℕ → ℕ → ℕ → ℕ → List ℕ → List ℕ
unmask a b c d [] = []
unmask a b c d (x ∷ xs) = bit_xor x a ∷ unmask b c d a xs

pub length-unmask : (a b c d : ℕ) (xs : List ℕ) → length (unmask a b c d xs) ≡ length xs
unfolding unmask
length-unmask a b c d [] = refl
length-unmask a b c d (x ∷ xs) = omega (arith, length-unmask b c d a xs)

abbrev xor_digits : ℕ → ℕ → ℕ → ℕ
xor_digits count x y = digits (λ y. y) differ count x y

-- More digits than the first number has make no difference.
xor_digits_enough : (n k x y : ℕ) → x ≤ n → x ≤ k → xor_digits n x y ≡ xor_digits k x y
xor_digits_enough zero zero x y hn hk = refl
xor_digits_enough zero (suc k) zero y hn hk = refl
xor_digits_enough zero (suc k) (suc x) y hn hk = absurd (omega arith)
xor_digits_enough (suc n) zero zero y hn hk = refl
xor_digits_enough (suc n) zero (suc x) y hn hk = absurd (omega arith)
xor_digits_enough (suc n) (suc k) zero y hn hk = refl
xor_digits_enough (suc n) (suc k) (suc x) y hn hk =
    omega (arith, xor_digits_enough n k (suc x / 2) (y / 2) (omega arith) (omega arith))

zero-bit_xor : (y : ℕ) → bit_xor 0 y ≡ y
zero-bit_xor y = bit_xor-bitwise 0 y

bit_xor_step : (x y : ℕ) → bit_xor x y ≡ bit_xor (x / 2) (y / 2) * 2 + differ (x % 2) (y % 2)
bit_xor_step zero y = omega (arith, zero-bit_xor y, zero-bit_xor (y / 2))
bit_xor_step (suc x) y = omega (
  arith,
  bit_xor-bitwise (suc x) y,
  bit_xor-bitwise (suc x / 2) (y / 2),
  xor_digits_enough x (suc x / 2) (suc x / 2) (y / 2) (omega arith) (omega arith),
)

differ-lt : (x y : ℕ) → x < 2 → y < 2 → differ x y < 2
differ-lt zero y hx hy = hy
differ-lt (suc zero) zero hx hy = omega arith
differ-lt (suc zero) (suc y) hx hy = omega arith
differ-lt (suc (suc x)) y hx hy = absurd (omega arith)

differ_twice : (x y : ℕ) → x < 2 → y < 2 → differ (differ x y) y ≡ x
differ_twice zero zero hx hy = refl
differ_twice zero (suc zero) hx hy = refl
differ_twice zero (suc (suc y)) hx hy = absurd (omega arith)
differ_twice (suc zero) zero hx hy = refl
differ_twice (suc zero) (suc zero) hx hy = refl
differ_twice (suc zero) (suc (suc y)) hx hy = absurd (omega arith)
differ_twice (suc (suc x)) y hx hy = absurd (omega arith)

half : (h d : ℕ) → d < 2 → (h * 2 + d) / 2 ≡ h
half h d l = omega arith

parity : (h d : ℕ) → d < 2 → (h * 2 + d) % 2 ≡ d
parity h d l = omega arith

xor_twice_below : (n x y : ℕ) → x ≤ n → y ≤ n → bit_xor (bit_xor x y) y ≡ x
xor_twice_below zero zero zero hx hy = refl
xor_twice_below zero zero (suc y) hx hy = absurd (omega arith)
xor_twice_below zero (suc x) y hx hy = absurd (omega arith)
xor_twice_below (suc n) x y hx hy =
    let high = bit_xor (x / 2) (y / 2) in
    let low = differ (x % 2) (y % 2) in
    let bit : low < 2 = differ-lt (x % 2) (y % 2) (omega arith) (omega arith) in
    let split : bit_xor x y ≡ high * 2 + low = bit_xor_step x y in
    let back : bit_xor high (y / 2) ≡ x / 2 =
      xor_twice_below n (x / 2) (y / 2) (omega arith) (omega arith) in
    let again : differ low (y % 2) ≡ x % 2 =
      differ_twice (x % 2) (y % 2) (omega arith) (omega arith) in
    ap (λ z. bit_xor z y) split
    ∙ (bit_xor_step (high * 2 + low) y
        ∙ rw (half high low bit, parity high low bit, back, again) (omega arith))

xor_twice : (x y : ℕ) → bit_xor (bit_xor x y) y ≡ x
xor_twice x y = xor_twice_below (x + y) x y (omega arith) (omega arith)

-- Masking twice with the same four bytes gives the payload back.
pub unmask-unmask : (a b c d : ℕ) (xs : List ℕ) → unmask a b c d (unmask a b c d xs) ≡ xs
unfolding unmask
unmask-unmask a b c d [] = refl
unmask-unmask a b c d (x ∷ xs) = rw (xor_twice x a, unmask-unmask b c d a xs) refl
