-- ===== src/Frames/Rounds.antt =====
-- The rounds of the parser's loop: each takes bytes off, so that the loop ends.
use obelisk_sfu.Prelude.{
  ℕ, zero, suc, Bool, not, List, [], ◌∷◌, some, ◌≡◌, ◌≤◌, ◌<◌, ◌+◌, ◌||◌, ◌⊎◌, ◌/◌, ◌%◌, sym, subst,
  refl, inl, inr, arith, if◌then◌else◌, nat_eq, length, Option-cases, Bool-cases,
}
use obelisk_sfu.Frames.{Head, head, read_head, read_length, read_16, read_64}
use obelisk_sfu.Frames.Parser.{
  split_at, Round, waits, rejects, takes, read_body, read_masked, read_frame, unsupported,
  signal_of, Drained, prepend, drain_rounds, drain,
}

-- A round that takes a frame leaves fewer bytes.
abbrev Shrinks : ℕ → Round → Type 0
Shrinks n waits = Unit {0}
Shrinks n rejects = Unit {0}
Shrinks n (takes opcode payload rest) = length rest < n

length-split_at :
    (n : ℕ) (xs : List ℕ) (s : List ℕ × List ℕ)
    → split_at n xs ≡ some s
    → length xs ≡ length s.0 + length s.1
unfolding split_at
length-split_at zero xs s h = ground arith
length-split_at (suc n) [] s h = absurd cc
length-split_at (suc n) (x ∷ xs) s h = elim (Option-cases (split_at n xs)) [
  | inl e ↦ absurd (ground (arith, h, e))
  | inr (t, e) ↦ ground (arith, h, e, length-split_at n xs t e)
]

abbrev Remains : ℕ → Head → Type 0
Remains n Head.more = Unit {0}
Remains n Head.unsupported = Unit {0}
Remains n (head fin opcode masked len rest) = length rest ≤ n

read_16-Remains :
    (fin masked : Bool) (opcode : ℕ) (xs : List ℕ)
    → Remains (length xs) (read_16 fin opcode masked xs)
unfolding read_16
read_16-Remains fin masked opcode [] = tt
read_16-Remains fin masked opcode (a ∷ []) = tt
read_16-Remains fin masked opcode (a ∷ b ∷ rest) = omega arith

read_64-Remains :
    (fin masked : Bool) (opcode : ℕ) (xs : List ℕ)
    → Remains (length xs) (read_64 fin opcode masked xs)
unfolding read_64
read_64-Remains fin masked opcode (a ∷ b ∷ c ∷ d ∷ e ∷ f ∷ g ∷ h ∷ rest) = ground arith
read_64-Remains fin masked opcode [] = tt
read_64-Remains fin masked opcode (a ∷ []) = tt
read_64-Remains fin masked opcode (a ∷ b ∷ []) = tt
read_64-Remains fin masked opcode (a ∷ b ∷ c ∷ []) = tt
read_64-Remains fin masked opcode (a ∷ b ∷ c ∷ d ∷ []) = tt
read_64-Remains fin masked opcode (a ∷ b ∷ c ∷ d ∷ e ∷ []) = tt
read_64-Remains fin masked opcode (a ∷ b ∷ c ∷ d ∷ e ∷ f ∷ []) = tt
read_64-Remains fin masked opcode (a ∷ b ∷ c ∷ d ∷ e ∷ f ∷ g ∷ []) = tt

read_length-Remains :
    (fin masked : Bool) (opcode len : ℕ) (xs : List ℕ)
    → Remains (length xs) (read_length fin opcode masked len xs)
unfolding read_length
read_length-Remains fin masked opcode len xs = elim (Bool-cases (nat_eq len 126)) [
  | inl short ↦ rw short (read_16-Remains fin masked opcode xs)
  | inr other ↦ elim (Bool-cases (nat_eq len 127)) [
    | inl long ↦ rw (other, long) (read_64-Remains fin masked opcode xs)
    | inr direct ↦ rw (other, direct) (omega arith)
  ]
]

read_body-Shrinks :
    (opcode len : ℕ) (xs : List ℕ) (n : ℕ) → length xs ≤ n → Shrinks n (read_body opcode len xs)
unfolding read_body
read_body-Shrinks opcode len [] n h = tt
read_body-Shrinks opcode len (a ∷ []) n h = tt
read_body-Shrinks opcode len (a ∷ b ∷ []) n h = tt
read_body-Shrinks opcode len (a ∷ b ∷ c ∷ []) n h = tt
read_body-Shrinks opcode len (a ∷ b ∷ c ∷ d ∷ rest) n h = elim (Option-cases (split_at len rest)) [
  | inl e ↦ rw (e, read_body, Shrinks) tt
  | inr (s, e) ↦ rw (e, read_body) (omega (arith, length-split_at len rest s e, h))
]

read_masked-Shrinks : (n : ℕ) (x : Head) → Remains n x → Shrinks n (read_masked x)
unfolding read_masked
read_masked-Shrinks n Head.more h = tt
read_masked-Shrinks n Head.unsupported h = tt
read_masked-Shrinks n (head fin opcode masked len rest) h =
    elim (Bool-cases (not masked || not fin)) [
      | inl bad ↦ rw bad tt
      | inr good ↦ rw good (read_body-Shrinks opcode len rest n h)
    ]

wider : (n k : ℕ) (x : Head) → n ≤ k → Remains n x → Remains k x
wider n k Head.more l h = tt
wider n k Head.unsupported l h = tt
wider n k (head fin opcode masked len r) l h = omega arith

read_head-Remains : (xs : List ℕ) → Remains (length xs) (read_head xs)
unfolding read_head
read_head-Remains [] = tt
read_head-Remains (a ∷ []) = tt
read_head-Remains (a ∷ b ∷ rest) =
    let inner =
      read_length-Remains (nat_eq (a / 128 % 2) 1) (nat_eq (b / 128 % 2) 1) (a % 16) (b % 128)
        rest in
    wider (length rest) (length (a ∷ b ∷ rest)) (read_head (a ∷ b ∷ rest)) (omega arith) inner

read_frame-Shrinks : (xs : List ℕ) → Shrinks (length xs) (read_frame xs)
unfolding read_frame
read_frame-Shrinks xs = read_masked-Shrinks (length xs) (read_head xs) (read_head-Remains xs)

pub Round-cases :
    (r : Round)
    → (r ≡ waits)
      ⊎ (r ≡ rejects)
      ⊎ ((opcode : ℕ) × (payload : List ℕ) × (rest : List ℕ) × (r ≡ takes opcode payload rest))
Round-cases waits = inl refl
Round-cases rejects = inr (inl refl)
Round-cases (takes opcode payload rest) = inr (inr (opcode, payload, rest, refl))

pub length-takes :
    (xs : List ℕ) (opcode : ℕ) (payload rest : List ℕ)
    → read_frame xs ≡ takes opcode payload rest
    → length rest < length xs
length-takes xs opcode payload rest e = subst (Shrinks (length xs)) e (read_frame-Shrinks xs)

drain_rounds-nil : (n : ℕ) → drain_rounds n [] ≡ ([], [])
unfolding drain_rounds read_frame read_head read_masked
drain_rounds-nil zero = refl
drain_rounds-nil (suc n) = refl

-- At least as many rounds as there are bytes are enough: the loop of `push` ends by itself, and
-- further rounds make no difference.
pub drain_rounds-enough :
    (n k : ℕ) (xs : List ℕ) → length xs ≤ n → length xs ≤ k → drain_rounds n xs ≡ drain_rounds k xs
unfolding drain_rounds
drain_rounds-enough zero k [] hn hk = sym (drain_rounds-nil k)
drain_rounds-enough zero k (x ∷ xs) hn hk = absurd (omega arith)
drain_rounds-enough (suc n) zero [] hn hk = drain_rounds-nil (suc n)
drain_rounds-enough (suc n) zero (x ∷ xs) hn hk = absurd (omega arith)
drain_rounds-enough (suc n) (suc k) xs hn hk = elim (Round-cases (read_frame xs)) [
  | inl e ↦ rw (e, drain_rounds) refl
  | inr (inl e) ↦ rw (e, drain_rounds) refl
  | inr (inr (opcode, payload, rest, e)) ↦
      let shorter = length-takes xs opcode payload rest e in
      let same = drain_rounds-enough n k rest (omega arith) (omega arith) in
      rw (e, drain_rounds, same) refl
]

-- The loop, one round at a time.
abbrev pub after : Round → List ℕ → Drained
after waits buffer = ([], buffer)
after rejects buffer = (unsupported ∷ [], buffer)
after (takes opcode payload rest) buffer =
    if (signal_of opcode payload).1
    then prepend (signal_of opcode payload).0 (drain rest)
    else ((signal_of opcode payload).0 ∷ [], rest)

pub drain-step : (xs : List ℕ) → drain xs ≡ after (read_frame xs) xs
unfolding drain drain_rounds read_frame read_head read_masked
drain-step [] = refl
drain-step (x ∷ xs) = elim (Round-cases (read_frame (x ∷ xs))) [
  | inl e ↦ rw (e, drain_rounds, after) refl
  | inr (inl e) ↦ rw (e, drain_rounds, after) refl
  | inr (inr (opcode, payload, rest, e)) ↦
      let shorter = length-takes (x ∷ xs) opcode payload rest e in
      let same = drain_rounds-enough (length xs) (length rest) rest (omega arith) (omega arith) in
      rw (e, drain_rounds, after, same) refl
]
