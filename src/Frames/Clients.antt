-- ===== src/Frames/Clients.antt =====
-- What a client sends to src/direct-rpc.ts: text frames, masked as the protocol asks, and the
-- texts that `FrameParser` reads out of them.
use obelisk_sfu.Prelude.{
  ℕ, true, List, [], ◌∷◌, ◌++◌, some, ◌≡◌, ◌<◌, ◌+◌, ◌/◌, ◌%◌, ◌∙◌, sym, ap, subst, refl, inl, inr,
  arith, if◌then◌else◌, ltb, leb, length, Bool-cases, All,
}
use obelisk_sfu.Frames.{head, read_head, read_length, read_16, read_64, join_16, join_32}
use obelisk_sfu.Frames.Masks.{unmask, unmask-unmask, length-unmask}
use obelisk_sfu.Frames.Parser.{
  split_at, takes, read_body, read_masked, read_frame, Signal, text, signal_of, prepend, drain,
}
use obelisk_sfu.Frames.Rounds.{after, drain-step}
use obelisk_sfu.Frames.Chunks.{IsData, pushes, concat, pushes-concat}

-- A message of a client: the four bytes of its mask, and the bytes of its text.
pub record Message : Type 0 where
  pub a : ℕ
  pub b : ℕ
  pub c : ℕ
  pub d : ℕ
  pub payload : List ℕ

-- The bytes of a frame's length, with the bit of a masked frame.
abbrev pub masked_length : ℕ → List ℕ → List ℕ
masked_length n rest =
    if ltb n 126
    then (128 + n) ∷ rest
    else if leb n 65535
    then 254 ∷ n / 256 % 256 ∷ n % 256 ∷ rest
    else 255 ∷ 0 ∷ 0 ∷ 0 ∷ 0 ∷ n / 16777216 % 256 ∷ n / 65536 % 256 ∷ n / 256 % 256 ∷ n % 256 ∷ rest

-- The frame of a message, and what follows it in the stream.
abbrev pub send : Message → List ℕ → List ℕ
send m rest =
    129
    ∷ masked_length (length m.payload)
        (m.a ∷ m.b ∷ m.c ∷ m.d ∷ (unmask m.a m.b m.c m.d m.payload ++ rest))

abbrev pub send_all : List Message → List ℕ
send_all [] = []
send_all (m ∷ ms) = send m (send_all ms)

abbrev pub texts : List Message → List Signal
texts [] = []
texts (m ∷ ms) = text m.payload ∷ texts ms

abbrev pub IsShort : Message → Type 0
IsShort m = length m.payload < 4294967296

read_short_lem :
    (n : ℕ) (rest : List ℕ) → n < 126 → read_head (129 ∷ (128 + n) ∷ rest) ≡ head true 1 true n rest
unfolding read_head read_length
read_short_lem n rest h = ground arith

read_masked_length :
    (n : ℕ) (rest : List ℕ)
    → n < 4294967296
    → read_head (129 ∷ masked_length n rest) ≡ head true 1 true n rest
unfolding read_head read_length read_16 read_64
read_masked_length n rest h = elim (Bool-cases (ltb n 126)) [
  | inl small ↦ rw small (read_short_lem n rest (ground arith))
  | inr larger ↦ elim (Bool-cases (leb n 65535)) [
    | inl middle ↦
        rw (larger, middle) (ap (λ k. head true 1 true k rest) (join_16 n (ground arith)))
    | inr large ↦ rw (larger, large) (ap (λ k. head true 1 true k rest) (join_32 n h))
  ]
]

split_at-length : (xs ys : List ℕ) → split_at (length xs) (xs ++ ys) ≡ some (xs, ys)
unfolding split_at
split_at-length [] ys = refl
split_at-length (x ∷ xs) ys = rw (split_at-length xs ys) refl

read_frame-send :
    (m : Message) (rest : List ℕ) → IsShort m → read_frame (send m rest) ≡ takes 1 m.payload rest
unfolding read_frame
read_frame-send m rest h =
    let hidden = unmask m.a m.b m.c m.d m.payload in
    let size = length-unmask m.a m.b m.c m.d m.payload in
    let cut : split_at (length m.payload) (hidden ++ rest) ≡ some (hidden, rest) =
      ap (λ n. split_at n (hidden ++ rest)) (sym size) ∙ split_at-length hidden rest in
    ap read_masked
      (read_masked_length (length m.payload) (m.a ∷ m.b ∷ m.c ∷ m.d ∷ (hidden ++ rest)) h)
    ∙ rw (read_masked, read_body, cut, unmask-unmask m.a m.b m.c m.d m.payload) refl

drain-send_all : (ms : List Message) → All IsShort ms → drain (send_all ms) ≡ (texts ms, [])
unfolding drain signal_of
drain-send_all [] h = refl
drain-send_all (m ∷ ms) h =
    drain-step (send m (send_all ms))
    ∙ ap (λ r. after r (send m (send_all ms))) (read_frame-send m (send_all ms) h.0)
    ∙ ap (prepend (text m.payload)) (drain-send_all ms h.1)

texts-IsData : (ms : List Message) → All IsData (texts ms)
texts-IsData [] = tt
texts-IsData (m ∷ ms) = (tt, texts-IsData ms)

-- The messages of a client, each a masked text frame of less than 4 GiB, with any masks, are read
-- back as just their texts in their order, in whatever chunks the bytes arrive; nothing is left in
-- the buffer.
pub pushes-send_all :
    (ms : List Message) (chunks : List (List ℕ))
    → All IsShort ms
    → concat chunks ≡ send_all ms
    → pushes [] chunks ≡ (texts ms, [])
pushes-send_all ms chunks h e =
    let whole : drain (concat chunks) ≡ (texts ms, []) = ap drain e ∙ drain-send_all ms h in
    pushes-concat chunks (subst (λ d. All IsData d.0) (sym whole) (texts-IsData ms)) ∙ whole
