-- ===== src/Room/Injection.antt =====
-- src/room-mediasoup.ts: `injectTestProducer`, in one piece: with nothing happening to the room
-- while mediasoup makes the plain transport and the producer.
use obelisk_sfu.Prelude.{ℕ, suc, String, none, some, if◌then◌else◌}
use obelisk_sfu.Map.{get, set, values}
use obelisk_sfu.Room.{
  Room, PeerState, Producer, AppData, new_producer, peer_joined, peer_key, emit, fan_out,
}
use obelisk_sfu.Room.Roster.{new_peer, cancel_empty_timer}
use obelisk_sfu.Room.Transports.{update_peer, strangers}

-- `SYNTHETIC_CLIENT_ID`
abbrev pub synthetic_client_id : String
synthetic_client_id = "_synthetic"

-- What is asked for, and what mediasoup makes of it: the producer and the id of its transport.
pub record Injection : Type 0 where
  pub meta : AppData
  pub producer : Producer
  pub transport_id : String

abbrev pub tracked : Injection → PeerState → PeerState
tracked i p = record p {
  producers = set i.producer.id i.producer p.producers;
  plain_transports = set i.producer.id i.transport_id p.plain_transports;
  producer_app_data = set i.producer.id i.meta p.producer_app_data;
}

-- The synthetic peer and the room, before the producer is tracked.
unfoldable pub track_new : ℕ → Injection → Room → Room
unfolding cancel_empty_timer update_peer fan_out
track_new now i r =
    let origin = i.meta.origin_pubkey in
    let synthetic = new_peer r.next_ref now origin synthetic_client_id in
    let entered = cancel_empty_timer (record r {
      peers = set (peer_key origin synthetic_client_id) synthetic r.peers;
      next_ref = suc r.next_ref;
    }) in
    let r' = update_peer (tracked i) synthetic entered in
    emit (fan_out (peer_joined origin) (strangers origin (values r'.peers))) r'

-- `injectTestProducer`; without a router it throws.
unfoldable pub inject_test_producer : ℕ → Injection → Room → Room
unfolding fan_out update_peer track_new
inject_test_producer now i r =
    if r.router
    then (let announced =
          emit (fan_out (new_producer i.producer.id i.producer.kind (some i.meta)) (values r.peers))
            r in
        elim (get (peer_key i.meta.origin_pubkey synthetic_client_id) r.peers) [
          | some p ↦ update_peer (tracked i) p announced
          | none ↦ track_new now i announced
        ])
    else r
