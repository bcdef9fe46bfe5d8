-- ===== src/Room/Transports.antt =====
-- The WebRTC transports of a peer: created, connected, watched, closed. A handler is cut at its
-- `await`, with what mediasoup returned as an argument of the second part.
pub mod Renewal
pub mod Ghosts
use obelisk_sfu.Prelude.{
  ℕ, String, not, List, [], ◌∷◌, ◌++◌, map, Option, none, some, ◌==◌, ◌&&◌, if◌then◌else◌, is_some,
  leb, nat_eq, keep, length,
}
use obelisk_sfu.Map.{Map, get, set, delete, has, values}
use obelisk_sfu.StringSet.{distinct}
use obelisk_sfu.Config.{Config}
use obelisk_sfu.Room.{
  Room, PeerState, WebRtcTransport, Producer, AppData, DtlsState, new_producer, peer_joined,
  participant_list, Effect, answer, close_transport, peer_key, key_of, emit, fan_out,
}
use obelisk_sfu.Room.Roster.{
  is_current, has_pubkey, handle_peer_left, drop_stale_peer, get_or_create_peer, Admission,
  admitted, refused, RpcCode, no_router, no_peer, no_transport, transport_not_connectable,
}

pub data Direction : Type 0 where
  send recv : Direction

-- A write to the object `p`. One that is no longer in the table is seen by nobody.
unfoldable pub update_peer : (PeerState → PeerState) → PeerState → Room → Room
unfolding is_current
update_peer f p r = elim (get (key_of p) r.peers) [
  | none ↦ r
  | some q ↦ if nat_eq q.ref p.ref then record r { peers = set (key_of p) (f q) r.peers } else r
]

abbrev pub transport_of : Direction → PeerState → Option WebRtcTransport
transport_of send p = p.send_transport
transport_of recv p = p.recv_transport

abbrev pub has_id : String → Option WebRtcTransport → Option WebRtcTransport
has_id id none = none
has_id id (some t) = if t.id == id then some t else none

-- The handlers that run inside a transport's `close()`: the `transportclose` of its producers or
-- consumers, and the first half of its close observer.
abbrev pub transport_gone : Direction → PeerState → PeerState
transport_gone send p = record p { send_transport = none; producers = []; producer_app_data = [] }
transport_gone recv p = record p { recv_transport = none; consumers = [] }

-- The close observer once the transport is taken off the peer.
unfoldable pub transport_closed : Config → ℕ → Direction → PeerState → Room → Room
unfolding update_peer handle_peer_left is_current
transport_closed cfg now direction p r =
    let p' = transport_gone direction p in
    let r' = update_peer (λ q. transport_gone direction q) p r in
    if not (is_some p'.send_transport) && not (is_some p'.recv_transport) && is_current p r.peers
    then handle_peer_left cfg now p' r'
    else r'

-- A transport that closes by itself: the observer acts on the one that the peer still holds.
unfoldable pub transport_close_event : Config → ℕ → Direction → String → PeerState → Room → Room
unfolding transport_closed
transport_close_event cfg now direction id p r = elim (get (key_of p) r.peers) [
  | none ↦ r
  | some q ↦
      if nat_eq q.ref p.ref && is_some (has_id id (transport_of direction q))
      then transport_closed cfg now direction q r
      else r
]

-- `existing.close()` in `createWebRtcTransport`. The loops after it find the maps empty.
unfoldable pub close_existing : Config → ℕ → Direction → PeerState → Room → Room
unfolding transport_closed
close_existing cfg now direction p r = elim (transport_of direction p) [
  | none ↦ r
  | some t ↦ transport_closed cfg now direction p (emit (close_transport t.id ∷ []) r)
]

-- `createWebRtcTransport` up to its `await`: the peer that waits for the transport.
unfoldable pub create_begin : Config → ℕ → String → String → Direction → Room → Admission
unfolding get_or_create_peer close_existing
create_begin cfg now from client_id direction r =
    if not r.router then refused no_router else elim (get_or_create_peer cfg now from client_id r) [
      | refused e ↦ refused e
      | admitted p r' ↦ admitted p (close_existing cfg now direction p r')
    ]

abbrev pub with_transport : Direction → WebRtcTransport → PeerState → PeerState
with_transport send t p = record p { send_transport = some t }
with_transport recv t p = record p { recv_transport = some t }

-- The producers of the other users, as they are told to a newcomer.
abbrev announce : Map AppData → List Producer → List Effect
announce app_data producers =
    map (λ q. answer (new_producer q.id q.kind (get q.id app_data))) producers

unfoldable pub announce_all : String → List PeerState → List Effect
announce_all from [] = []
announce_all from (other ∷ others) =
    if other.pubkey == from
    then announce_all from others
    else announce other.producer_app_data (values other.producers) ++ announce_all from others

-- The peers of the other users.
abbrev pub strangers : String → List PeerState → List PeerState
strangers from = keep (λ p. not (p.pubkey == from))

-- What a new receiving transport sets off.
unfoldable pub welcome : String → List PeerState → List Effect
unfolding announce_all
welcome from peers =
    let others = map (λ p. p.pubkey) (strangers from peers) in
    let joined =
      if leb (length (keep (has_pubkey from) peers)) 1
      then fan_out (peer_joined from) (strangers from peers)
      else [] in
    answer (participant_list (distinct others)) ∷ (announce_all from peers ++ joined)

abbrev greeting : Direction → String → List PeerState → List Effect
greeting send from peers = []
greeting recv from peers = welcome from peers

-- `createWebRtcTransport` after its `await`.
unfoldable pub create_end : String → Direction → PeerState → WebRtcTransport → Room → Room
unfolding update_peer welcome
create_end from direction p t r =
    let r' = update_peer (with_transport direction t) p r in
    emit (greeting direction from (values r'.peers)) r'

-- Which transport `connectWebRtcTransport` means.
abbrev pub find_transport : String → PeerState → Option WebRtcTransport
find_transport id p = elim (has_id id p.send_transport) [
  | some t ↦ some t
  | none ↦ has_id id p.recv_transport
]

pub data Connect : Type 0 where
  -- `transport.connect` is to be called
  connects done : Connect
  fails : RpcCode → Connect

-- `connectWebRtcTransport` up to its `await`.
unfoldable pub connect_begin : String → String → String → Room → Connect
connect_begin from client_id id r = elim (get (peer_key from client_id) r.peers) [
  | none ↦ fails no_peer
  | some p ↦ elim (find_transport id p) [
    | none ↦ fails no_transport
    | some t ↦ elim t.dtls_state [
      | DtlsState.new ↦ connects
      | DtlsState.connecting ↦ done
      | DtlsState.connected ↦ done
      | _ ↦ fails transport_not_connectable
    ]
  ]
]

-- `armUnhealthyTimer`
unfoldable pub arm_unhealthy_timer : String → String → PeerState → Room → Room
unfolding update_peer
arm_unhealthy_timer transport_id cause = update_peer λ q.
    if has transport_id q.unhealthy_timers
    then q
    else record q { unhealthy_timers = set transport_id cause q.unhealthy_timers }

-- `cancelUnhealthyTimer`
unfoldable pub cancel_unhealthy_timer : String → PeerState → Room → Room
unfolding update_peer
cancel_unhealthy_timer transport_id =
    update_peer λ q. record q { unhealthy_timers = delete transport_id q.unhealthy_timers }

pub data IceState : Type 0 where
  new connected completed disconnected closed : IceState

-- The handlers of `icestatechange` and `dtlsstatechange`.
unfoldable pub ice_state_change : String → IceState → PeerState → Room → Room
unfolding arm_unhealthy_timer cancel_unhealthy_timer
ice_state_change id IceState.disconnected p r = arm_unhealthy_timer id "ice=disconnected" p r
ice_state_change id IceState.connected p r = cancel_unhealthy_timer id p r
ice_state_change id IceState.completed p r = cancel_unhealthy_timer id p r
ice_state_change id _ p r = r

unfoldable pub dtls_state_change : String → DtlsState → PeerState → Room → Room
unfolding arm_unhealthy_timer cancel_unhealthy_timer
dtls_state_change id DtlsState.failed p r = arm_unhealthy_timer id "dtls=failed" p r
dtls_state_change id DtlsState.connected p r = cancel_unhealthy_timer id p r
dtls_state_change id DtlsState.closed p r = cancel_unhealthy_timer id p r
dtls_state_change id _ p r = r

-- The callback of the timer.
unfoldable pub unhealthy_timer_fires : Config → ℕ → String → PeerState → Room → Room
unfolding cancel_unhealthy_timer drop_stale_peer
unhealthy_timer_fires cfg now transport_id p r =
    drop_stale_peer cfg now p (cancel_unhealthy_timer transport_id p r)
