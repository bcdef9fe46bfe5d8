-- ===== src/Room/Notices.antt =====
-- The sessions over WebSockets in src/room-mediasoup.ts: `registerDirectSession`, what it
-- returns, and the recipients of `sendNotification`. A `send` callback is its identity.
pub mod Recipients
use Prim.Native.String
use text.Mathlib.Text.{starts_with}
use obelisk_sfu.Prelude.{
  ℕ, String, Bool, true, List, [], ◌∷◌, ◌++◌, Option, none, some, nat_eq, any, if◌then◌else◌,
  value_or,
}
use obelisk_sfu.Map.{Map, get, set, delete}
use obelisk_sfu.Room.{Room, peer_key}

-- A `Set` of callbacks: `add` and `delete`.
unfoldable pub insert : ℕ → List ℕ → List ℕ
insert s ss = if any (λ t. nat_eq t s) ss then ss else ss ++ s ∷ []

unfoldable pub without : ℕ → List ℕ → List ℕ
without s [] = []
without s (t ∷ ts) = if nat_eq t s then ts else t ∷ without s ts

-- `registerDirectSession`
unfoldable pub register : String → ℕ → Map (List ℕ) → Map (List ℕ)
unfolding insert
register key send m = set key (insert send (value_or (get key m) [])) m

abbrev put_back : String → List ℕ → Map (List ℕ) → Map (List ℕ)
put_back key [] m = delete key m
put_back key (t ∷ ts) m = set key (t ∷ ts) m

-- The function that it returns.
unfoldable pub unregister : String → ℕ → Map (List ℕ) → Map (List ℕ)
unfolding without
unregister key send m = elim (get key m) [
  | none ↦ m
  | some current ↦ put_back key (without send current) m
]

unfoldable pub register_direct_session : String → String → ℕ → Room → Room
unfolding register
register_direct_session pubkey client_id send r = record r {
  direct_sessions = register (peer_key pubkey client_id) send r.direct_sessions;
}

unfoldable pub unregister_direct_session : String → String → ℕ → Room → Room
unfolding unregister
unregister_direct_session pubkey client_id send r = record r {
  direct_sessions = unregister (peer_key pubkey client_id) send r.direct_sessions;
}

-- The callbacks that `sendNotification` calls, in their order.
unfoldable pub recipients : String → Map (List ℕ) → List ℕ
recipients to [] = []
recipients to ((key, sends) ∷ rest) =
    if starts_with key (String.◌++◌ to "|") then sends ++ recipients to rest else recipients to rest
