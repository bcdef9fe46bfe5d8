-- ===== src/Room/Notices/Recipients.antt =====
-- A notification to a user goes to the sessions of that user, and to no others.
use Prim.Native.String
use text.Mathlib.Text.{starts_with}
use text.Mathlib.TextEquality.{starts_with_iff}
use text.Mathlib.TextLemmas.{append_assoc, append_inj}
use obelisk_sfu.Prelude.{
  ℕ, String, false, List, [], ◌∷◌, ◌++◌, nat_eq, any, ◌≡◌, ◌∙◌, refl, sym, ap, arith, value_or,
  Bool-cases, ◌==◌, eq_iff, eq_refl, inl, inr,
}
use obelisk_sfu.Map.{Map, get, set, delete}
use obelisk_sfu.Map.Laws.{get-set_self}
use obelisk_sfu.Room.{peer_key}
use obelisk_sfu.Room.Notices.{insert, without, register, unregister, put_back, recipients}

-- Public keys of one length: a key of a peer begins with the one user only.
starts_with-peer_key :
    (to from client_id : String)
    → String.count to ≡ String.count from
    → (to == from) ≡ false
    → starts_with (peer_key from client_id) (String.◌++◌ to "|") ≡ false
unfolding peer_key
starts_with-peer_key to from client_id e h =
    elim (Bool-cases (starts_with (peer_key from client_id) (String.◌++◌ to "|"))) [
      | inr off ↦ off
      | inl on ↦
          let begins = (starts_with_iff (peer_key from client_id) (String.◌++◌ to "|")).0 on in
          let same =
            append_inj {s₁ = to} {s₂ = from} (sym (append_assoc to "|" begins.0) ∙ begins.1) e in
          ground (arith, h, (eq_iff to from).1 same.0)
    ]

recipients-set :
    (to key : String) (sends : List ℕ) (m : Map (List ℕ))
    → starts_with key (String.◌++◌ to "|") ≡ false
    → recipients to (set key sends m) ≡ recipients to m
unfolding recipients set
recipients-set to key sends [] h = rw h refl
recipients-set to key sends ((j, ts) ∷ m) h =
    ground (arith, h, recipients-set to key sends m h, eq_iff j key)

-- A session that opens for one user changes nothing for the others: a notification to another
-- public key of the same length goes to the same sessions as before.
pub recipients-register :
    (to from client_id : String) (send : ℕ) (m : Map (List ℕ))
    → String.count to ≡ String.count from
    → (to == from) ≡ false
    → recipients to (register (peer_key from client_id) send m) ≡ recipients to m
unfolding register
recipients-register to from client_id send m e h =
    recipients-set to (peer_key from client_id)
      (insert send (value_or (get (peer_key from client_id) m) [])) m
      (starts_with-peer_key to from client_id e h)

without-append :
    (s : ℕ) (ts : List ℕ) → any (λ t. nat_eq t s) ts ≡ false → without s (ts ++ s ∷ []) ≡ ts
unfolding without
without-append s [] h = ground arith
without-append s (t ∷ ts) h = ground (arith, h, without-append s ts)

-- No key of the map is without sessions.
abbrev pub IsFilled : Map (List ℕ) → Type 0
IsFilled [] = Unit {0}
IsFilled ((key, []) ∷ m) = ⊥
IsFilled ((key, s ∷ ss) ∷ m) = IsFilled m

abbrev pub sessions_of : String → Map (List ℕ) → List ℕ
sessions_of key m = value_or (get key m) []

insert_new : (s : ℕ) (ts : List ℕ) → any (λ t. nat_eq t s) ts ≡ false → insert s ts ≡ ts ++ s ∷ []
unfolding insert
insert_new s ts h = rw h refl

put_back-cons :
    (key j : String) (w cur : List ℕ) (m : Map (List ℕ))
    → (j == key) ≡ false
    → put_back key cur ((j, w) ∷ m) ≡ (j, w) ∷ put_back key cur m
unfolding set delete
put_back-cons key j w [] m h = rw h refl
put_back-cons key j w (c ∷ cs) m h = rw h refl

put_back-set :
    (key : String) (v : List ℕ) (m : Map (List ℕ))
    → IsFilled m
    → put_back key (sessions_of key m) (set key v m) ≡ m
unfolding set delete get
put_back-set key v [] h = rw (eq_refl key) refl
put_back-set key v ((j, []) ∷ m) h = absurd h
put_back-set key v ((j, t ∷ ts) ∷ m) h = elim (Bool-cases (j == key)) [
  | inl same ↦ rw (same, set, same) refl
  | inr other ↦ rw other (
      put_back-cons key j (t ∷ ts) (sessions_of key m) (set key v m) other
      ∙ ap (λ r. (j, t ∷ ts) ∷ r) (put_back-set key v m h))
]

-- What `registerDirectSession` returns takes the registration back: the table of sessions is as
-- it was before, if the callback is a new one and no user has an empty set of sessions.
pub unregister-register :
    (key : String) (send : ℕ) (m : Map (List ℕ))
    → IsFilled m
    → any (λ t. nat_eq t send) (sessions_of key m) ≡ false
    → unregister key send (register key send m) ≡ m
unfolding unregister register
unregister-register key send m filled new =
    let cur = sessions_of key m in
    let v = insert send cur in
    let back : without send v ≡ cur =
      ap (without send) (insert_new send cur new) ∙ without-append send cur new in
    rw (unregister, get-set_self key v m)
      (ap (λ l. put_back key l (set key v m)) back ∙ put_back-set key v m filled)
