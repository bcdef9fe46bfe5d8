-- ===== src/Room/Roster.antt =====
-- The peer table of a room: who enters, who leaves, and what the others are told.
pub mod Capacity
pub mod Kicks
pub mod Departures
use obelisk_sfu.Prelude.{
  ℕ, suc, String, Bool, true, false, not, List, [], ◌∷◌, ◌++◌, map, Option, none, some, ◌==◌, ◌&&◌,
  ◌+◌, ◌*◌, if◌then◌else◌, is_some, leb, nat_eq, value_or, any, keep, length,
}
use obelisk_sfu.Map.{Map, get, set, delete, values, keys}
use obelisk_sfu.StringSet.{includes}
use obelisk_sfu.Types.{RoomStatus, active}
use obelisk_sfu.Config.{Config}
use obelisk_sfu.Room.{
  Room, PeerState, WebRtcTransport, Notification, producer_closed, peer_left, kicked, Effect,
  notify, close_consumer, close_producer, close_plain_transport, close_transport, peer_key, key_of,
  participants, emit, publish_active, fan_out, fan_out_all,
}

abbrev pub is_active : RoomStatus → Bool
is_active active = true
is_active _ = false

abbrev pub is_empty {ℓ} : {A : Type ℓ} → List A → Bool
is_empty [] = true
is_empty (x ∷ xs) = false

abbrev pub has_pubkey : String → PeerState → Bool
has_pubkey pubkey p = p.pubkey == pubkey

-- `maybeStartEmptyTimer`; `now` is in milliseconds.
unfoldable pub maybe_start_empty_timer : Config → ℕ → Room → Room
unfolding publish_active
maybe_start_empty_timer cfg now r =
    if not (is_active r.status)
    then r
    else if not (is_empty r.peers)
    then r
    else if is_some r.empty_timer
    then r
    else record (publish_active r) { empty_timer = some (now + cfg.empty_grace_seconds * 1000) }

unfoldable pub cancel_empty_timer : Room → Room
cancel_empty_timer r = record r { empty_timer = none }

abbrev transport_close : Option WebRtcTransport → List Effect
transport_close none = []
transport_close (some t) = close_transport t.id ∷ []

-- What `closePeerMedia` closes, for a peer that is no longer in the table: the observers of its
-- transports then change nothing that can be seen.
unfoldable pub close_peer_media : PeerState → List Effect
close_peer_media p =
    map (λ c. close_consumer c.id) (values p.consumers)
    ++ (map (λ q. close_producer q.id) (values p.producers)
        ++ (map close_plain_transport (values p.plain_transports)
            ++ (transport_close p.send_transport ++ transport_close p.recv_transport)))

-- The `producerClosed` notifications for every producer of a peer.
abbrev pub closed_producers : PeerState → List Notification
closed_producers p = map producer_closed (keys p.producers)

-- `handlePeerLeft`
unfoldable pub handle_peer_left : Config → ℕ → PeerState → Room → Room
unfolding fan_out_all close_peer_media maybe_start_empty_timer
handle_peer_left cfg now p r = elim (get (key_of p) r.peers) [
  | none ↦ r
  | some _ ↦
      let rest = delete (key_of p) r.peers in
      let others = values rest in
      let left =
        if any (has_pubkey p.pubkey) others then [] else fan_out (peer_left p.pubkey) others in
      maybe_start_empty_timer cfg now (
        emit (fan_out_all (closed_producers p) others ++ (left ++ close_peer_media p))
          (record r { peers = rest }))
]

-- `this.peers.get(peerKey(peer.pubkey, peer.clientId)) === peer`
unfoldable pub is_current : PeerState → Map PeerState → Bool
is_current p peers = elim (get (key_of p) peers) [ none ↦ false | some q ↦ nat_eq q.ref p.ref ]

-- `dropStalePeer`
unfoldable pub drop_stale_peer : Config → ℕ → PeerState → Room → Room
unfolding fan_out_all close_peer_media maybe_start_empty_timer is_current
drop_stale_peer cfg now p r =
    if not (is_current p r.peers)
    then r
    else let rest = delete (key_of p) r.peers in
      let others = values rest in
      maybe_start_empty_timer cfg now (
        emit
          (fan_out_all (closed_producers p) others
            ++ (fan_out (peer_left p.pubkey) others ++ close_peer_media p))
          (record r { peers = rest }))

-- The loop of `kick` over the peers that were found.
unfoldable pub kick_each : List PeerState → Room → Room
unfolding fan_out_all close_peer_media
kick_each [] r = r
kick_each (p ∷ ps) r =
    let rest = delete (key_of p) r.peers in
    kick_each ps (
      emit (fan_out_all (closed_producers p) (values rest) ++ close_peer_media p)
        (record r { peers = rest }))

-- `kick` up to its `await`, which follows the call of `sendNotification`.
unfoldable pub kick_begin : String → Option String → Room → Room
unfolding kick_each
kick_begin target reason r =
    emit (notify target (kicked reason) ∷ [])
      (kick_each (keep (has_pubkey target) (values r.peers)) r)

-- The rest of it.
unfoldable pub kick_end : Config → ℕ → String → Room → Room
unfolding fan_out maybe_start_empty_timer
kick_end cfg now target r =
    maybe_start_empty_timer cfg now (emit (fan_out (peer_left target) (values r.peers)) r)

-- `kick`, with nothing happening during its `await`.
unfoldable pub kick : Config → ℕ → String → Option String → Room → Room
unfolding kick_begin kick_end
kick cfg now target reason r =
    if is_empty (keep (has_pubkey target) (values r.peers))
    then r
    else kick_end cfg now target (kick_begin target reason r)

-- The errors that an `RpcError` carries, by their `code`; `other` is any other exception.
pub data RpcCode : Type 0 where
  room_not_active dial_rejected method_not_found no_router room_full no_peer no_transport : RpcCode
  transport_not_connectable no_recv_transport cannot_consume no_consumer no_producer other : RpcCode

pub data Admission : Type 0 where
  admitted : PeerState → Room → Admission
  refused : RpcCode → Admission

abbrev pub new_peer : ℕ → ℕ → String → String → PeerState
new_peer ref now pubkey client_id = record {
  ref = ref;
  pubkey = pubkey;
  client_id = client_id;
  send_transport = none;
  recv_transport = none;
  producers = [];
  consumers = [];
  plain_transports = [];
  producer_app_data = [];
  unhealthy_timers = [];
  last_inbound_packet_at = now;
  last_seen_packet_count = 0;
  joined_at = now;
}

-- `this._rules.maxParticipants ?? this.cfg.maxParticipantsPerRoom`
abbrev pub capacity : Config → Room → ℕ
capacity cfg r = value_or r.rules.max_participants cfg.max_participants_per_room

unfoldable pub get_or_create_peer : Config → ℕ → String → String → Room → Admission
unfolding participants cancel_empty_timer
get_or_create_peer cfg now pubkey client_id r = elim (get (peer_key pubkey client_id) r.peers) [
  | some p ↦ admitted p r
  | none ↦
      let distinct_pubkeys = participants r.peers in
      if not (includes pubkey distinct_pubkeys) && leb (capacity cfg r) (length distinct_pubkeys)
      then refused room_full
      else let p = new_peer r.next_ref now pubkey client_id in
        admitted p (
          cancel_empty_timer (record r {
            peers = set (peer_key pubkey client_id) p r.peers;
            next_ref = suc r.next_ref;
          }))
]
