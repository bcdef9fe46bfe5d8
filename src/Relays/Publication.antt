-- ===== src/Relays/Publication.antt =====
-- Which relays took a publication, against what the pool notes of them.
use obelisk_sfu.Prelude.{
  ℕ, String, Bool, true, false, List, [], ◌∷◌, Option, some, ◌≡◌, ◌∙◌, ◌||◌, ◌&&◌, ap, refl, arith,
  if◌then◌else◌, any, All, eq_refl,
}
use obelisk_sfu.Map.{get}
use obelisk_sfu.StringSet.{includes}
use obelisk_sfu.Relays.{
  RelayPool, Role, write, Answer, acks, rejects, settled, note, note_all, publish, health_of,
  is_relay_access_denied,
}
use obelisk_sfu.Relays.Access.{Notes, notes, noted, notes-note_all}

abbrev pub is_ack : Answer → Bool
is_ack acks = true
is_ack (rejects msg) = false

-- Every relay of a list is one of it.
includes_more :
    (x : String) (ys xs : List String)
    → All (λ u. includes u ys ≡ true) xs
    → All (λ u. includes u (x ∷ ys) ≡ true) xs
unfolding includes
includes_more x ys [] h = tt
includes_more x ys (u ∷ us) h = (ground (arith, h.0), includes_more x ys us h.1)

includes_self : (xs : List String) → All (λ u. includes u xs ≡ true) xs
unfolding includes
includes_self [] = tt
includes_self (x ∷ xs) = (ground (arith, eq_refl x), includes_more x xs xs (includes_self xs))

note_same :
    (now : ℕ) (u : String) (a : Answer) (p : RelayPool)
    → (note now u a p).write_relays ≡ p.write_relays
unfolding note
note_same now u acks p = refl
note_same now u (rejects msg) p = refl

-- The answer tells of denied access, after which the server authenticates and tries again.
abbrev pub denies : Answer → Bool
denies acks = false
denies (rejects msg) = is_relay_access_denied msg

-- The relay takes the event, at once or after the authentication.
abbrev pub is_taken : (String → Answer) → (String → Answer) → String → Bool
is_taken first retry url = is_ack (first url) || (denies (first url) && is_ack (retry url))

is_ack-settled :
    (a again : Answer) → is_ack (settled a again) ≡ (is_ack a || (denies a && is_ack again))
unfolding settled
is_ack-settled acks again = refl
is_ack-settled (rejects msg) acks = ground arith
is_ack-settled (rejects msg) (rejects text) = ground arith

-- A test of the time at which a relay last took an event.
module _ (f : Option ℕ → Bool) (now : ℕ) (first retry : String → Answer) where
  abbrev pub acked : Role → RelayPool → String → Bool
  acked role pool url = f (health_of role pool url).last_publish_ok

  noted_now :
      (a : Answer) (n : Notes)
      → f (some now) ≡ true
      → f n.0 ≡ false
      → f (noted now a n).0 ≡ is_ack a
  noted_now acks n l h = l
  noted_now (rejects msg) n l h = h

  pub any-taken :
      (pool : RelayPool) (ws : List String)
      → f (some now) ≡ true
      → All (λ u. includes u pool.write_relays ≡ true) ws
      → All (λ u. f (get u pool.last_publish_ok) ≡ false) ws
      → any (acked write (publish now first retry pool)) ws ≡ any (is_taken first retry) ws
  unfolding health_of publish
  any-taken pool [] l hw ho = refl
  any-taken pool (w ∷ ws) l hw ho =
      let answer = settled (first w) (retry w) in
      let after =
        notes-note_all now first retry w pool.write_relays pool
        ∙ ap (λ b. if b then noted now answer (notes w pool) else notes w pool) hw.0 in
      let here : acked write (publish now first retry pool) w ≡ is_taken first retry w =
        ap (λ (n : Notes). f n.0) after
        ∙ noted_now answer (notes w pool) l ho.0
        ∙ is_ack-settled (first w) (retry w) in
      ap (λ b. b || any (acked write (publish now first retry pool)) ws) here
      ∙ ap (λ b. is_taken first retry w || b) (any-taken pool ws l hw.1 ho.1)

  pub same_relays :
      (urls : List String) (p : RelayPool)
      → (note_all now first retry urls p).write_relays ≡ p.write_relays
  unfolding note_all
  same_relays [] p = refl
  same_relays (u ∷ urls) p =
      let a = settled (first u) (retry u) in same_relays urls (note now u a p) ∙ note_same now u a p

  -- After a publication, some relay that is written to passes the test exactly when one took it.
  pub any-publish :
      (pool : RelayPool)
      → f (some now) ≡ true
      → All (λ u. f (get u pool.last_publish_ok) ≡ false) pool.write_relays
      → any (acked write (publish now first retry pool)) (publish now first retry pool).write_relays
        ≡ any (is_taken first retry) pool.write_relays
  unfolding publish
  any-publish pool l h =
      ap (any (acked write (publish now first retry pool))) (same_relays pool.write_relays pool)
      ∙ any-taken pool pool.write_relays l (includes_self pool.write_relays) h
