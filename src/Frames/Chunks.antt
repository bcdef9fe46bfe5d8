-- ===== src/Frames/Chunks.antt =====
-- The parser does not depend on how the stream is cut into chunks.
use mathlib.Core.List.{append_assoc, append-nil}
use obelisk_sfu.Prelude.{
  ℕ, zero, suc, Bool, true, false, not, List, [], ◌∷◌, ◌++◌, some, ◌≡◌, ◌+◌, ◌*◌, ◌||◌, ◌∙◌, sym,
  ap, subst, refl, inl, inr, arith, if◌then◌else◌, nat_eq, length, Option-cases, Bool-cases, All,
  ◌/◌, ◌%◌, ◌<◌,
}
use obelisk_sfu.Frames.{Head, head, read_head, read_length, read_16, read_64}
use obelisk_sfu.Frames.Parser.{
  split_at, Round, waits, rejects, takes, read_body, read_masked, read_frame, Signal, text, close,
  ping, unsupported, signal_of, Drained, prepend, drain_rounds, drain, push,
}
use obelisk_sfu.Frames.Rounds.{Round-cases, length-takes, after, drain-step}

-- What more bytes behind can make of a head: nothing, once there is one.
abbrev ExtendsHead : List ℕ → Head → Head → Type 0
ExtendsHead ys Head.more x = Unit {0}
ExtendsHead ys Head.unsupported x = x ≡ Head.unsupported
ExtendsHead ys (head fin opcode masked len rest) x = x ≡ head fin opcode masked len (rest ++ ys)

read_16-append :
    (fin masked : Bool) (opcode : ℕ) (xs ys : List ℕ)
    → ExtendsHead ys (read_16 fin opcode masked xs) (read_16 fin opcode masked (xs ++ ys))
unfolding read_16
read_16-append fin masked opcode [] ys = tt
read_16-append fin masked opcode (a ∷ []) ys = tt
read_16-append fin masked opcode (a ∷ b ∷ rest) ys = refl

read_64-append :
    (fin masked : Bool) (opcode : ℕ) (xs ys : List ℕ)
    → ExtendsHead ys (read_64 fin opcode masked xs) (read_64 fin opcode masked (xs ++ ys))
unfolding read_64
read_64-append fin masked opcode (a ∷ b ∷ c ∷ d ∷ e ∷ f ∷ g ∷ h ∷ rest) ys =
    elim (Bool-cases (nat_eq (((a * 256 + b) * 256 + c) * 256 + d) 0)) [
      | inl small ↦ rw small refl
      | inr large ↦ rw large refl
    ]
read_64-append fin masked opcode [] ys = tt
read_64-append fin masked opcode (a ∷ []) ys = tt
read_64-append fin masked opcode (a ∷ b ∷ []) ys = tt
read_64-append fin masked opcode (a ∷ b ∷ c ∷ []) ys = tt
read_64-append fin masked opcode (a ∷ b ∷ c ∷ d ∷ []) ys = tt
read_64-append fin masked opcode (a ∷ b ∷ c ∷ d ∷ e ∷ []) ys = tt
read_64-append fin masked opcode (a ∷ b ∷ c ∷ d ∷ e ∷ f ∷ []) ys = tt
read_64-append fin masked opcode (a ∷ b ∷ c ∷ d ∷ e ∷ f ∷ g ∷ []) ys = tt

read_length-append :
    (fin masked : Bool) (opcode len : ℕ) (xs ys : List ℕ)
    → ExtendsHead ys
        (read_length fin opcode masked len xs)
        (read_length fin opcode masked len (xs ++ ys))
unfolding read_length
read_length-append fin masked opcode len xs ys = elim (Bool-cases (nat_eq len 126)) [
  | inl short ↦ rw short (read_16-append fin masked opcode xs ys)
  | inr other ↦ elim (Bool-cases (nat_eq len 127)) [
    | inl long ↦ rw (other, long) (read_64-append fin masked opcode xs ys)
    | inr direct ↦ rw (other, direct) refl
  ]
]

read_head-append : (xs ys : List ℕ) → ExtendsHead ys (read_head xs) (read_head (xs ++ ys))
unfolding read_head
read_head-append [] ys = tt
read_head-append (a ∷ []) ys = tt
read_head-append (a ∷ b ∷ rest) ys =
    read_length-append (nat_eq (a / 128 % 2) 1) (nat_eq (b / 128 % 2) 1) (a % 16) (b % 128) rest ys

split_at-append :
    (n : ℕ) (xs ys : List ℕ) (s : List ℕ × List ℕ)
    → split_at n xs ≡ some s
    → split_at n (xs ++ ys) ≡ some (s.0, s.1 ++ ys)
unfolding split_at
split_at-append zero xs ys s h = ground arith
split_at-append (suc n) [] ys s h = absurd cc
split_at-append (suc n) (x ∷ xs) ys s h = elim (Option-cases (split_at n xs)) [
  | inl e ↦ absurd (ground (arith, h, e))
  | inr (t, e) ↦ ground (arith, h, e, split_at-append n xs ys t e)
]

-- The same for a round.
abbrev Extends : List ℕ → Round → Round → Type 0
Extends ys waits r = Unit {0}
Extends ys rejects r = r ≡ rejects
Extends ys (takes opcode payload rest) r = r ≡ takes opcode payload (rest ++ ys)

read_body-append :
    (opcode len : ℕ) (xs ys : List ℕ)
    → Extends ys (read_body opcode len xs) (read_body opcode len (xs ++ ys))
unfolding read_body
read_body-append opcode len [] ys = tt
read_body-append opcode len (a ∷ []) ys = tt
read_body-append opcode len (a ∷ b ∷ []) ys = tt
read_body-append opcode len (a ∷ b ∷ c ∷ []) ys = tt
read_body-append opcode len (a ∷ b ∷ c ∷ d ∷ rest) ys = elim (Option-cases (split_at len rest)) [
  | inl e ↦ rw (e, read_body, Extends) tt
  | inr (s, e) ↦ rw (e, read_body, Extends, split_at-append len rest ys s e) refl
]

read_masked-append :
    (ys : List ℕ) (x y : Head) → ExtendsHead ys x y → Extends ys (read_masked x) (read_masked y)
unfolding read_masked
read_masked-append ys Head.more y h = tt
read_masked-append ys Head.unsupported y h = rw h refl
read_masked-append ys (head fin opcode masked len rest) y h =
    elim (Bool-cases (not masked || not fin)) [
      | inl bad ↦ rw (h, bad) refl
      | inr good ↦ rw (h, good) (read_body-append opcode len rest ys)
    ]

read_frame-append : (xs ys : List ℕ) → Extends ys (read_frame xs) (read_frame (xs ++ ys))
unfolding read_frame
read_frame-append xs ys =
    read_masked-append ys (read_head xs) (read_head (xs ++ ys)) (read_head-append xs ys)

-- Frames that do not stop the loop.
abbrev pub IsData : Signal → Type 0
IsData (text payload) = Unit {0}
IsData close = ⊥
IsData ping = Unit {0}
IsData unsupported = ⊥

-- What comes first, and then the rest.
abbrev pub join : Drained → List ℕ → Drained
join d ys = (d.0 ++ (push d.1 ys).0, (push d.1 ys).1)

stops-IsData :
    (opcode : ℕ) (payload : List ℕ)
    → (signal_of opcode payload).1 ≡ false
    → IsData (signal_of opcode payload).0
    → ⊥
unfolding signal_of
stops-IsData opcode payload h d = ground arith

takes-append :
    (xs ys : List ℕ) (opcode : ℕ) (payload rest : List ℕ)
    → read_frame xs ≡ takes opcode payload rest
    → read_frame (xs ++ ys) ≡ takes opcode payload (rest ++ ys)
takes-append xs ys opcode payload rest e =
    subst (λ r. Extends ys r (read_frame (xs ++ ys))) e (read_frame-append xs ys)

after-takes :
    (xs : List ℕ) (opcode : ℕ) (payload rest : List ℕ)
    → read_frame xs ≡ takes opcode payload rest
    → drain xs ≡ after (takes opcode payload rest) xs
after-takes xs opcode payload rest e = drain-step xs ∙ ap (λ r. after r xs) e

-- A frame among data frames does not stop the loop.
goes_on :
    (opcode : ℕ) (payload rest xs : List ℕ)
    → All IsData (after (takes opcode payload rest) xs).0
    → ((signal_of opcode payload).1 ≡ true)
      × IsData (signal_of opcode payload).0
      × All IsData (drain rest).0
goes_on opcode payload rest xs h = elim (Bool-cases (signal_of opcode payload).1) [
  | inl on ↦
      let q : All IsData (prepend (signal_of opcode payload).0 (drain rest)).0 =
        subst
          (λ b.
            All IsData
              (if b
                then prepend (signal_of opcode payload).0 (drain rest)
                else ((signal_of opcode payload).0 ∷ [], rest)).0)
          on h in
      (on, q.0, q.1)
  | inr stop ↦
      let q : All IsData ((signal_of opcode payload).0 ∷ []) =
        subst
          (λ b.
            All IsData
              (if b
                then prepend (signal_of opcode payload).0 (drain rest)
                else ((signal_of opcode payload).0 ∷ [], rest)).0)
          stop h in
      absurd (stops-IsData opcode payload stop q.0)
]

whole-takes :
    (xs ys : List ℕ) (opcode : ℕ) (payload rest : List ℕ)
    → read_frame xs ≡ takes opcode payload rest
    → drain (xs ++ ys) ≡ after (takes opcode payload (rest ++ ys)) (xs ++ ys)
whole-takes xs ys opcode payload rest e =
    after-takes (xs ++ ys) opcode payload (rest ++ ys) (takes-append xs ys opcode payload rest e)

on-after :
    (opcode : ℕ) (payload rest xs : List ℕ)
    → (signal_of opcode payload).1 ≡ true
    → after (takes opcode payload rest) xs ≡ prepend (signal_of opcode payload).0 (drain rest)
on-after opcode payload rest xs on = rw (on) refl

-- If the whole stream has only data frames, so has its beginning.
drain-IsData_below :
    (n : ℕ) (xs ys : List ℕ)
    → length xs < n
    → All IsData (drain (xs ++ ys)).0
    → All IsData (drain xs).0
drain-IsData_below zero xs ys h q = absurd (omega arith)
drain-IsData_below (suc n) xs ys h q = elim (Round-cases (read_frame xs)) [
  | inl e ↦ rw (drain-step xs, e) tt
  | inr (inl e) ↦
      let again : read_frame (xs ++ ys) ≡ rejects =
        subst (λ r. Extends ys r (read_frame (xs ++ ys))) e (read_frame-append xs ys) in
      let whole = drain-step (xs ++ ys) ∙ ap (λ r. after r (xs ++ ys)) again in
      absurd (subst (λ d. All IsData d.0) whole q).0
  | inr (inr (opcode, payload, rest, e)) ↦
      let shorter = length-takes xs opcode payload rest e in
      let whole = whole-takes xs ys opcode payload rest e in
      let (on, here, behind) =
        goes_on opcode payload (rest ++ ys) (xs ++ ys) (subst (λ d. All IsData d.0) whole q) in
      let path = after-takes xs opcode payload rest e ∙ on-after opcode payload rest xs on in
      subst (λ d. All IsData d.0) (sym path)
        (here, drain-IsData_below n rest ys (omega arith) behind)
]

drain-append_below :
    (n : ℕ) (xs ys : List ℕ)
    → length xs < n
    → All IsData (drain xs).0
    → drain (xs ++ ys) ≡ join (drain xs) ys
unfolding push
drain-append_below zero xs ys h q = absurd (omega arith)
drain-append_below (suc n) xs ys h q = elim (Round-cases (read_frame xs)) [
  | inl e ↦ rw (drain-step xs, e, push) refl
  | inr (inl e) ↦ absurd (subst (λ d. All IsData d.0) (drain-step xs ∙ ap (λ r. after r xs) e) q).0
  | inr (inr (opcode, payload, rest, e)) ↦
      let shorter = length-takes xs opcode payload rest e in
      let part = after-takes xs opcode payload rest e in
      let (on, here, behind) =
        goes_on opcode payload rest xs (subst (λ d. All IsData d.0) part q) in
      let ih = drain-append_below n rest ys (omega arith) behind in
      whole-takes xs ys opcode payload rest e
      ∙ on-after opcode payload (rest ++ ys) (xs ++ ys) on
      ∙ ap (prepend (signal_of opcode payload).0) ih
      ∙ ap (λ d. join d ys) (sym (part ∙ on-after opcode payload rest xs on))
]

abbrev join_parts : List Signal → Drained → Drained
join_parts before d = (before ++ d.0, d.1)

-- The chunks of a stream, one `push` after another.
abbrev pub pushes : List ℕ → List (List ℕ) → Drained
pushes buffer [] = ([], buffer)
pushes buffer (chunk ∷ chunks) =
    let d = push buffer chunk in let rest = pushes d.1 chunks in (d.0 ++ rest.0, rest.1)

abbrev pub concat : List (List ℕ) → List ℕ
concat [] = []
concat (c ∷ cs) = c ++ concat cs

All-behind : (xs ys : List Signal) → All IsData (xs ++ ys) → All IsData ys
All-behind [] ys h = h
All-behind (x ∷ xs) ys h = All-behind xs ys h.1

pushes-concat_behind :
    (buffer chunk : List ℕ) (chunks : List (List ℕ))
    → All IsData (drain (buffer ++ (chunk ++ concat chunks))).0
    → pushes buffer (chunk ∷ chunks) ≡ drain (buffer ++ (chunk ++ concat chunks))
unfolding push
pushes-concat_behind buffer chunk [] h =
    rw (append-nil chunk, append-nil (drain (buffer ++ chunk)).0) refl
pushes-concat_behind buffer chunk (c ∷ cs) h =
    let xs = buffer ++ chunk in
    let h' =
      subst (λ l. All IsData (drain l).0) (sym (append_assoc buffer chunk (c ++ concat cs))) h in
    let first = drain-IsData_below (suc (length xs)) xs (c ++ concat cs) (omega arith) h' in
    let cut = drain-append_below (suc (length xs)) xs (c ++ concat cs) (omega arith) first in
    let behind =
      All-behind (drain xs).0 (drain ((drain xs).1 ++ (c ++ concat cs))).0
        (subst (λ d. All IsData d.0) cut h') in
    ap (join_parts (drain xs).0) (pushes-concat_behind (drain xs).1 c cs behind)
    ∙ sym cut
    ∙ ap drain (append_assoc buffer chunk (c ++ concat cs))

-- A stream of text and ping frames that arrives in chunks, cut anywhere, is read as the same calls
-- as the whole stream at once, and leaves the same bytes in the buffer.
pub pushes-concat :
    (chunks : List (List ℕ))
    → All IsData (drain (concat chunks)).0
    → pushes [] chunks ≡ drain (concat chunks)
unfolding drain drain_rounds
pushes-concat [] h = refl
pushes-concat (chunk ∷ chunks) h = pushes-concat_behind [] chunk chunks h
