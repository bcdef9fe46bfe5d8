-- ===== src/Sessions/Expiry.antt =====
-- What has expired does not count.
use obelisk_sfu.Prelude.{
  ℕ, String, [], ◌∷◌, Option, none, some, ◌≡◌, ◌≤◌, refl, arith, eq_iff, if◌then◌else◌, leb, leb→le,
}
use obelisk_sfu.Map.{Map, get}
use obelisk_sfu.Map.Laws.{Nodup}
use obelisk_sfu.Sessions.{StoredSession, unexpired}

-- The session that counts at a time.
abbrev pub live : ℕ → Option StoredSession → Option String
live now none = none
live now (some s) = if leb s.expires_at now then none else some s.pubkey

get-unexpired-none :
    (at : ℕ) (h : String) (m : Map StoredSession) → get h m ≡ none → get h (unexpired at m) ≡ none
unfolding get unexpired
get-unexpired-none at h [] e = e
get-unexpired-none at h ((j, s) ∷ m) e = ground (arith, get-unexpired-none at h m)

pub Nodup-unexpired : (at : ℕ) (m : Map StoredSession) → Nodup m → Nodup (unexpired at m)
unfolding unexpired
Nodup-unexpired at [] n = n
Nodup-unexpired at ((j, s) ∷ m) n =
    ground (arith, Nodup-unexpired at m n.1, get-unexpired-none at j m n.0)

-- Dropping what has expired changes nothing that counts later.
pub live-unexpired :
    (at now : ℕ) (h : String) (m : Map StoredSession)
    → at ≤ now
    → Nodup m
    → live now (get h (unexpired at m)) ≡ live now (get h m)
unfolding get unexpired
live-unexpired at now h [] late n = refl
live-unexpired at now h ((j, s) ∷ m) late n = ground (
  arith,
  live-unexpired at now h m late n.1,
  get-unexpired-none at j m n.0,
  eq_iff j h,
  leb→le s.expires_at at,
  leb→le s.expires_at now,
)
