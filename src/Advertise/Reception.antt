-- ===== src/Advertise/Reception.antt =====
-- What the advertiser believes of a publication, against what the relays answered.
use obelisk_sfu.Prelude.{
  ℕ, String, true, false, List, [], ◌∷◌, ◌++◌, map, Option, none, some, ◌≡◌, ◌<◌, ◌≤◌, ◌∙◌, ◌||◌,
  ap, refl, arith, if◌then◌else◌, any, All, value_or, Bool-cases, inl, inr,
}
use obelisk_sfu.Map.{get}
use obelisk_sfu.Relays.{
  RelayPool, RelayHealth, write, read, Answer, publish, health_of, get_relay_health,
}
use obelisk_sfu.Relays.Publication.{is_taken, any-publish}
use obelisk_sfu.Advertise.{Advertiser, is_since, is_acked, publish_once}

any-health :
    (started : ℕ) (pool : RelayPool) (ws rs : List String)
    → any
        (λ (h : RelayHealth). is_since started h.last_publish_ok)
        (map (health_of write pool) ws ++ map (health_of read pool) rs)
      ≡ any (λ u. is_since started (health_of write pool u).last_publish_ok) ws
unfolding health_of
any-health started pool [] [] = refl
any-health started pool [] (r ∷ rs) = any-health started pool [] rs
any-health started pool (w ∷ ws) rs =
    ap (λ b. is_since started (health_of write pool w).last_publish_ok || b)
      (any-health started pool ws rs)

is_since-before :
    (started : ℕ) (at : Option ℕ) → value_or at 0 < started → is_since started at ≡ false
is_since-before started none h = refl
is_since-before started (some at) h = ground arith

each_before :
    (started : ℕ) (pool : RelayPool) (ws : List String)
    → All (λ u. value_or (get u pool.last_publish_ok) 0 < started) ws
    → All (λ u. is_since started (get u pool.last_publish_ok) ≡ false) ws
each_before started pool [] h = tt
each_before started pool (w ∷ ws) h =
    (is_since-before started (get w pool.last_publish_ok) h.0, each_before started pool ws h.1)

is_since_now : (started now : ℕ) → started ≤ now → is_since started (some now) ≡ true
is_since_now started now l = ground arith

module _ (started now : ℕ) (first retry : String → Answer) where
  is_acked-publish :
      (pool : RelayPool)
      → started ≤ now
      → All (λ u. value_or (get u pool.last_publish_ok) 0 < started) pool.write_relays
      → is_acked started (publish now first retry pool)
        ≡ any (is_taken first retry) pool.write_relays
  unfolding is_acked get_relay_health
  is_acked-publish pool l h =
      let pool' = publish now first retry pool in
      any-health started pool' pool'.write_relays pool'.read_only_relays
      ∙ any-publish (is_since started) now first retry pool (is_since_now started now l)
          (each_before started pool pool.write_relays h)

  -- Where no relay that is written to had taken an event since the publication began: afterwards
  -- the advertiser holds the time of its end as that of the last success exactly when some such
  -- relay took the event, at once or after the authentication, and otherwise as that of the last
  -- failure; the other time is as it was.
  pub publish_once-status :
      (ended : ℕ) (a : Advertiser) (pool : RelayPool)
      → started ≤ now
      → All (λ u. value_or (get u pool.last_publish_ok) 0 < started) pool.write_relays
      → let a' = (publish_once started now ended first retry a pool).0 in
        let taken = any (is_taken first retry) pool.write_relays in
        (a'.last_publish_at ≡ (if taken then some ended else a.last_publish_at))
        × (a'.last_publish_err_at ≡ (if taken then a.last_publish_err_at else some ended))
  unfolding publish_once
  publish_once-status ended a pool l h =
      let path = is_acked-publish pool l h in
      elim (Bool-cases (any (is_taken first retry) pool.write_relays)) [
        | inl on ↦ rw (on, path ∙ on) (refl, refl)
        | inr off ↦ rw (off, path ∙ off) (refl, refl)
      ]
