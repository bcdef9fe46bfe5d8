-- ===== src/Http/Health.antt =====
-- src/http-server.ts: `handleHealth`, which tells whether the server still reaches its relays.
use obelisk_sfu.Prelude.{
  ℕ, suc, String, Bool, true, false, not, ◌&&◌, List, [], ◌∷◌, ◌++◌, map, Option, none, some, ◌≡◌,
  ◌<◌, ◌+◌, ◌-◌, ◌∙◌, ◌||◌, ap, refl, arith, if◌then◌else◌, ltb, any, keep, length, All,
}
use obelisk_sfu.Map.{get}
use obelisk_sfu.Relays.{
  RelayPool, RelayHealth, write, read, Answer, publish, health_of, get_relay_health,
}
use obelisk_sfu.Relays.Publication.{is_taken, any-publish, same_relays}

abbrev pub healthz_all_relays_dead_sec : ℕ
healthz_all_relays_dead_sec = 900

abbrev is_write : RelayHealth → Bool
is_write h = elim h.role [ write ↦ true | read ↦ false ]

-- A relay has taken an event less than so many seconds before.
abbrev pub is_alive : ℕ → Option ℕ → Bool
is_alive now none = false
is_alive now (some at) = ltb (now - at) healthz_all_relays_dead_sec

-- The status of `handleHealth`.
unfoldable pub handle_health : Bool → ℕ → ℕ → RelayPool → ℕ
unfolding get_relay_health
handle_health shutting_down booted_at now pool =
    let write_relays = keep is_write (get_relay_health pool) in
    if shutting_down
    then 503
    else if ltb healthz_all_relays_dead_sec (now - booted_at)
        && (ltb 0 (length write_relays)
            && not (any (λ h. is_alive now h.last_publish_ok) write_relays))
    then 503
    else 200

keep-read :
    (pool : RelayPool) (rs : List String) → keep is_write (map (health_of read pool) rs) ≡ []
unfolding health_of
keep-read pool [] = refl
keep-read pool (r ∷ rs) = keep-read pool rs

keep-write :
    (pool : RelayPool) (ws rs : List String)
    → keep is_write (map (health_of write pool) ws ++ map (health_of read pool) rs)
      ≡ map (health_of write pool) ws
unfolding health_of
keep-write pool [] rs = keep-read pool rs
keep-write pool (w ∷ ws) rs = ap (λ l. health_of write pool w ∷ l) (keep-write pool ws rs)

any-map :
    (now : ℕ) (pool : RelayPool) (ws : List String)
    → any (λ (h : RelayHealth). is_alive now h.last_publish_ok) (map (health_of write pool) ws)
      ≡ any (λ u. is_alive now (health_of write pool u).last_publish_ok) ws
any-map now pool [] = refl
any-map now pool (w ∷ ws) =
    ap (λ b. is_alive now (health_of write pool w).last_publish_ok || b) (any-map now pool ws)

length-map :
    (pool : RelayPool) (ws : List String) → length (map (health_of write pool) ws) ≡ length ws
length-map pool [] = refl
length-map pool (w ∷ ws) = ap suc (length-map pool ws)

-- The status by the relays that are written to, for a server that is not shutting down.
abbrev status_by : ℕ → ℕ → List RelayHealth → ℕ
status_by booted_at now hs =
    if ltb healthz_all_relays_dead_sec (now - booted_at)
      && (ltb 0 (length hs) && not (any (λ h. is_alive now h.last_publish_ok) hs))
    then 503
    else 200

by_count :
    (booted_at now : ℕ) (hs : List RelayHealth) (alive : Bool)
    → healthz_all_relays_dead_sec < now - booted_at
    → 0 < length hs
    → any (λ h. is_alive now h.last_publish_ok) hs ≡ alive
    → status_by booted_at now hs ≡ (if alive then 200 else 503)
by_count booted_at now hs alive up pos e = ground (arith, up, pos, e)

module _ (at : ℕ) (first retry : String → Answer) where
  -- A server that is not shutting down, has been up for more than 900 seconds, writes to some relay
  -- and has heard of no success within 900 seconds before the check: where it then published less
  -- than 900 seconds before the check, it answers 200 if some relay took the event, at once or
  -- after the authentication, and 503 if none did.
  pub handle_health-publish :
      (booted_at now : ℕ) (pool : RelayPool)
      → healthz_all_relays_dead_sec < now - booted_at
      → now < at + healthz_all_relays_dead_sec
      → 0 < length pool.write_relays
      → All (λ u. is_alive now (get u pool.last_publish_ok) ≡ false) pool.write_relays
      → handle_health false booted_at now (publish at first retry pool)
        ≡ (if any (is_taken first retry) pool.write_relays then 200 else 503)
  unfolding handle_health get_relay_health publish
  handle_health-publish booted_at now pool up recent some_relay deaf =
      let pool' = publish at first retry pool in
      let kept = keep-write pool' pool'.write_relays pool'.read_only_relays in
      let count : length pool'.write_relays ≡ length pool.write_relays =
        ap (λ (l : List String). length l)
          (same_relays (is_alive now) at first retry pool.write_relays pool) in
      let alive =
        any-map now pool' pool'.write_relays
        ∙ any-publish (is_alive now) at first retry pool (ground (arith, recent)) deaf in
      let hs = map (health_of write pool') pool'.write_relays in
      ap (status_by booted_at now) kept
      ∙ by_count booted_at now hs (any (is_taken first retry) pool.write_relays) up
          (omega (arith, length-map pool' pool'.write_relays, count, some_relay)) alive
