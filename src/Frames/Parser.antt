-- ===== src/Frames/Parser.antt =====
-- The class `FrameParser` of src/direct-rpc.ts: its buffer, and the loop of `push`.
use obelisk_sfu.Prelude.{
  ℕ, zero, suc, Bool, true, false, not, List, [], ◌∷◌, ◌++◌, Option, none, some, ◌||◌,
  if◌then◌else◌, nat_eq, length,
}
use obelisk_sfu.Frames.{Head, head, read_head}
use obelisk_sfu.Frames.Masks.{unmask}

-- The first `n` elements and the rest, if there are so many.
unfoldable pub split_at : ℕ → List ℕ → Option (List ℕ × List ℕ)
split_at zero xs = some ([], xs)
split_at (suc n) [] = none
split_at (suc n) (x ∷ xs) = elim (split_at n xs) [ none ↦ none | some s ↦ some (x ∷ s.0, s.1) ]

-- One round of the loop: it returns for more bytes, it gives up, or it takes a frame off the
-- buffer.
pub data Round : Type 0 where
  waits rejects : Round
  takes : ℕ → List ℕ → List ℕ → Round

unfoldable pub read_body : ℕ → ℕ → List ℕ → Round
unfolding split_at unmask
read_body opcode len (a ∷ b ∷ c ∷ d ∷ rest) = elim (split_at len rest) [
  | none ↦ waits
  | some s ↦ takes opcode (unmask a b c d s.0) s.1
]
read_body opcode len _ = waits

unfoldable pub read_masked : Head → Round
unfolding read_body
read_masked Head.more = waits
read_masked Head.unsupported = rejects
read_masked (head fin opcode masked len rest) =
    if not masked || not fin then rejects else read_body opcode len rest

unfoldable pub read_frame : List ℕ → Round
unfolding read_masked
read_frame buffer = read_masked (read_head buffer)

-- The calls of `onText`, `onClose`, `onPing` and `onUnsupported`.
pub data Signal : Type 0 where
  text : List ℕ → Signal
  close ping unsupported : Signal

-- What a frame does: a call, and whether the loop goes on.
unfoldable pub signal_of : ℕ → List ℕ → Signal × Bool
signal_of opcode payload =
    if nat_eq opcode 1
    then (text payload, true)
    else if nat_eq opcode 8
    then (close, false)
    else if nat_eq opcode 9
    then (ping, true)
    else (unsupported, false)

abbrev pub Drained : Type 0
Drained = List Signal × List ℕ

abbrev pub prepend : Signal → Drained → Drained
prepend s d = (s ∷ d.0, d.1)

-- The loop, for at most so many rounds.
unfoldable pub drain_rounds : ℕ → List ℕ → Drained
unfolding read_frame signal_of
drain_rounds zero buffer = ([], buffer)
drain_rounds (suc n) buffer = elim (read_frame buffer) [
  | waits ↦ ([], buffer)
  | rejects ↦ (unsupported ∷ [], buffer)
  | takes opcode payload rest ↦
      if (signal_of opcode payload).1
      then prepend (signal_of opcode payload).0 (drain_rounds n rest)
      else ((signal_of opcode payload).0 ∷ [], rest)
]

-- Every round takes bytes off, so that there are not more rounds than bytes.
unfoldable pub drain : List ℕ → Drained
unfolding drain_rounds
drain buffer = drain_rounds (length buffer) buffer

-- `push`
unfoldable pub push : List ℕ → List ℕ → Drained
unfolding drain
push buffer chunk = drain (buffer ++ chunk)
