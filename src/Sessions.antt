-- ===== src/Sessions.antt =====
-- src/admin-session.ts: the sessions of the web console. `hash` is SHA-256 in hex; tokens are
-- those that `randomBytes` made or that `readCookie` found. Times are in seconds.
pub mod Expiry
pub mod Histories
use obelisk_sfu.Prelude.{
  ℕ, String, List, [], ◌∷◌, Option, none, some, ◌+◌, if◌then◌else◌, is_some, leb,
}
use obelisk_sfu.Map.{Map, get, set, delete, has}

abbrev pub session_ttl : ℕ
session_ttl = 43200

pub record StoredSession : Type 0 where
  pub pubkey : String
  pub expires_at : ℕ

-- `saved` is what the file holds; writing it is taken to succeed.
pub record AdminSessions : Type 0 where
  pub sessions : Map StoredSession
  pub saved : Map StoredSession

-- The loop of `save`, and the filter of `load`.
unfoldable pub unexpired : ℕ → Map StoredSession → Map StoredSession
unexpired now [] = []
unexpired now ((h, s) ∷ rest) =
    let kept = unexpired now rest in if leb s.expires_at now then kept else (h, s) ∷ kept

unfoldable pub save : ℕ → Map StoredSession → AdminSessions
unfolding unexpired
save now m = let kept = unexpired now m in record { sessions = kept; saved = kept }

-- The constructor, at a start of the server.
unfoldable pub load : ℕ → Map StoredSession → AdminSessions
unfolding unexpired
load now saved = record { sessions = unexpired now saved; saved = saved }

module _ (hash : String → String) where
  unfoldable pub issue : ℕ → String → String → AdminSessions → AdminSessions
  unfolding save
  issue now token pubkey a =
      save now
        (set (hash token) (record { pubkey = pubkey; expires_at = now + session_ttl }) a.sessions)

  -- `lookup` once the cookie is read: the answer and the state it leaves.
  unfoldable pub lookup : ℕ → Option String → AdminSessions → Option String × AdminSessions
  unfolding save
  lookup now none a = (none, a)
  lookup now (some token) a = elim (get (hash token) a.sessions) [
    | none ↦ (none, a)
    | some s ↦
        if leb s.expires_at now
        then (none, save now (delete (hash token) a.sessions))
        else (some s.pubkey, a)
  ]

  -- `revoke` once the cookie is read.
  unfoldable pub revoke : ℕ → Option String → AdminSessions → AdminSessions
  unfolding save
  revoke now none a = a
  revoke now (some token) a =
      if has (hash token) a.sessions then save now (delete (hash token) a.sessions) else a
