-- ===== src/Frames.antt =====
-- src/direct-rpc.ts: the frames of the WebSocket, as lists of bytes: `writeFrame`, and the head of
-- a frame as `FrameParser.push` reads it.
pub mod Masks
pub mod Parser
pub mod Rounds
pub mod Chunks
pub mod Clients
use obelisk_sfu.Prelude.{
  ℕ, Bool, true, false, List, [], ◌∷◌, ◌++◌, ◌≡◌, ◌<◌, ◌+◌, ◌*◌, ◌/◌, ◌%◌, ap, inl, inr, arith,
  if◌then◌else◌, ltb, leb, nat_eq, length, Bool-cases,
}

-- The frames that the server sends.
pub data Opcode : Type 0 where
  text close pong : Opcode

abbrev pub code : Opcode → ℕ
code text = 1
code close = 8
code pong = 10

-- `0x80 | opcode`
abbrev pub first_byte : Opcode → ℕ
first_byte op = 128 + code op

-- The header of `writeFrame`.
unfoldable pub frame_header : Opcode → ℕ → List ℕ
frame_header op n =
    if ltb n 126
    then first_byte op ∷ n ∷ []
    else if leb n 65535
    then first_byte op ∷ 126 ∷ n / 256 % 256 ∷ n % 256 ∷ []
    else first_byte op
      ∷ 127
      ∷ 0
      ∷ 0
      ∷ 0
      ∷ 0
      ∷ n / 16777216 % 256
      ∷ n / 65536 % 256
      ∷ n / 256 % 256
      ∷ n % 256
      ∷ []

unfoldable pub write_frame : Opcode → List ℕ → List ℕ
unfolding frame_header
write_frame op payload = frame_header op (length payload) ++ payload

-- What the parser knows after the length: `head fin opcode masked len rest`; or it waits for more
-- bytes, or gives up.
pub data Head : Type 0 where
  more unsupported : Head
  head : Bool → ℕ → Bool → ℕ → List ℕ → Head

pub read_16 : Bool → ℕ → Bool → List ℕ → Head
read_16 fin opcode masked (a ∷ b ∷ rest) = head fin opcode masked (a * 256 + b) rest
read_16 fin opcode masked _ = more

pub read_64 : Bool → ℕ → Bool → List ℕ → Head
read_64 fin opcode masked (a ∷ b ∷ c ∷ d ∷ e ∷ f ∷ g ∷ h ∷ rest) =
    if nat_eq (((a * 256 + b) * 256 + c) * 256 + d) 0
    then head fin opcode masked (((e * 256 + f) * 256 + g) * 256 + h) rest
    else unsupported
read_64 fin opcode masked _ = more

pub read_length : Bool → ℕ → Bool → ℕ → List ℕ → Head
unfolding read_16 read_64
read_length fin opcode masked len rest =
    if nat_eq len 126
    then read_16 fin opcode masked rest
    else if nat_eq len 127
    then read_64 fin opcode masked rest
    else head fin opcode masked len rest

unfoldable pub read_head : List ℕ → Head
unfolding read_length
read_head (a ∷ b ∷ rest) =
    read_length (nat_eq (a / 128 % 2) 1) (a % 16) (nat_eq (b / 128 % 2) 1) (b % 128) rest
read_head _ = more

read_short :
    (op : Opcode) (n : ℕ) (rest : List ℕ)
    → n < 126
    → read_head (first_byte op ∷ n ∷ rest) ≡ head true (code op) false n rest
unfolding read_head read_length
read_short text n rest h = ground arith
read_short close n rest h = ground arith
read_short pong n rest h = ground arith

pub join_16 : (n : ℕ) → n < 65536 → n / 256 % 256 * 256 + n % 256 ≡ n
join_16 n h = omega arith

pub join_32 :
    (n : ℕ)
    → n < 4294967296
    → ((n / 16777216 % 256 * 256 + n / 65536 % 256) * 256 + n / 256 % 256) * 256 + n % 256 ≡ n
join_32 n h = omega arith

read_middle :
    (op : Opcode) (n : ℕ) (rest : List ℕ)
    → n < 65536
    → read_head (first_byte op ∷ 126 ∷ n / 256 % 256 ∷ n % 256 ∷ rest)
      ≡ head true (code op) false n rest
unfolding read_head read_length read_16
read_middle text n rest h = ap (λ m. head true 1 false m rest) (join_16 n h)
read_middle close n rest h = ap (λ m. head true 8 false m rest) (join_16 n h)
read_middle pong n rest h = ap (λ m. head true 10 false m rest) (join_16 n h)

read_long :
    (op : Opcode) (n : ℕ) (rest : List ℕ)
    → n < 4294967296
    → read_head (
        first_byte op
        ∷ 127
        ∷ 0
        ∷ 0
        ∷ 0
        ∷ 0
        ∷ n / 16777216 % 256
        ∷ n / 65536 % 256
        ∷ n / 256 % 256
        ∷ n % 256
        ∷ rest)
      ≡ head true (code op) false n rest
unfolding read_head read_length read_64
read_long text n rest h = ap (λ m. head true 1 false m rest) (join_32 n h)
read_long close n rest h = ap (λ m. head true 8 false m rest) (join_32 n h)
read_long pong n rest h = ap (λ m. head true 10 false m rest) (join_32 n h)

-- The head of a frame that the server writes, for a payload of less than 4 GiB, is read back: a
-- final, unmasked frame of the same opcode and length, and behind it just the payload.
pub read_head-write_frame :
    (op : Opcode) (payload : List ℕ)
    → length payload < 4294967296
    → read_head (write_frame op payload) ≡ head true (code op) false (length payload) payload
unfolding write_frame
read_head-write_frame op payload h = elim (Bool-cases (ltb (length payload) 126)) [
  | inl small ↦ rw small (read_short op (length payload) payload (ground arith))
  | inr larger ↦ elim (Bool-cases (leb (length payload) 65535)) [
    | inl middle ↦ rw (larger, middle) (read_middle op (length payload) payload (ground arith))
    | inr large ↦ rw (larger, large) (read_long op (length payload) payload h)
  ]
]
