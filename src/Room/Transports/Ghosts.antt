-- ===== src/Room/Transports/Ghosts.antt =====
-- A transport that is ready after its peer has left.
use obelisk_sfu.Prelude.{
  String, false, List, [], ◌∷◌, ◌++◌, ◌≡◌, refl, inl, inr, arith, any, keep, map, Option-cases,
  nat_eq,
}
use obelisk_sfu.Map.{get, values}
use obelisk_sfu.StringSet.{distinct}
use obelisk_sfu.Room.{
  Room, PeerState, WebRtcTransport, answer, participant_list, peer_joined, fan_out, emit, key_of,
}
use obelisk_sfu.Room.Roster.{has_pubkey, is_current}
use obelisk_sfu.Room.Transports.{
  recv, with_transport, update_peer, strangers, announce_all, welcome, create_end,
}

absent_count :
    (from : String) (ps : List PeerState)
    → any (has_pubkey from) ps ≡ false
    → keep (has_pubkey from) ps ≡ []
absent_count from [] h = refl
absent_count from (p ∷ ps) h = ground (arith, absent_count from ps)

all_strangers :
    (from : String) (ps : List PeerState)
    → any (has_pubkey from) ps ≡ false
    → strangers from ps ≡ ps
all_strangers from [] h = refl
all_strangers from (p ∷ ps) h = ground (arith, all_strangers from ps)

detached-update_peer :
    (f : PeerState → PeerState) (p : PeerState) (r : Room)
    → is_current p r.peers ≡ false
    → update_peer f p r ≡ r
unfolding update_peer is_current
detached-update_peer f p r gone = elim (Option-cases (get (key_of p) r.peers)) [
  | inl e ↦ rw (e, update_peer) refl
  | inr (q, e) ↦
      let other : nat_eq q.ref p.ref ≡ false = ground (arith, gone, e) in
      rw (e, update_peer, other) refl
]

-- A receiving transport that becomes ready after its peer has left the table, and while its user
-- has no other device there, does not enter the table; yet every user who can receive is told
-- that the user joined.
pub create_end-detached :
    (from : String) (p : PeerState) (t : WebRtcTransport) (r : Room)
    → is_current p r.peers ≡ false
    → any (has_pubkey from) (values r.peers) ≡ false
    → create_end from recv p t r
      ≡ emit
          (answer (participant_list (distinct (map (λ q. q.pubkey) (values r.peers))))
            ∷ (announce_all from (values r.peers) ++ fan_out (peer_joined from) (values r.peers)))
          r
unfolding create_end welcome
create_end-detached from p t r gone absent =
    rw
      (
        detached-update_peer (with_transport recv t) p r gone,
        absent_count from (values r.peers) absent,
        all_strangers from (values r.peers) absent,
      )
      refl
