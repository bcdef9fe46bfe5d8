-- ===== src/Room/Roster/Departures.antt =====
-- The two ways in which a device leaves, compared.
use obelisk_sfu.Prelude.{ℕ, false, arith, some, ◌≡◌, any}
use obelisk_sfu.Map.{get, delete, values}
use obelisk_sfu.Config.{Config}
use obelisk_sfu.Room.{Room, PeerState, key_of}
use obelisk_sfu.Room.Roster.{has_pubkey, is_current, handle_peer_left, drop_stale_peer}

-- Of a peer that is in the table and whose user has no other device there, `dropStalePeer` makes
-- what `handlePeerLeft` makes: the table, the timers, and all that is sent, in the same order.
pub drop_stale_peer-eq-handle_peer_left :
    (cfg : Config) (now : ℕ) (p : PeerState) (r : Room)
    → get (key_of p) r.peers ≡ some p
    → any (has_pubkey p.pubkey) (values (delete (key_of p) r.peers)) ≡ false
    → drop_stale_peer cfg now p r ≡ handle_peer_left cfg now p r
unfolding drop_stale_peer handle_peer_left is_current
drop_stale_peer-eq-handle_peer_left cfg now p r there alone =
    rw (there, handle_peer_left, is_current, alone) (ground arith)
