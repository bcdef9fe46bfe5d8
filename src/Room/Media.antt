-- ===== src/Room/Media.antt =====
-- Producers and consumers. A handler is cut at its `await`, with what mediasoup returned as an
-- argument of the second part.
use obelisk_sfu.Prelude.{
  ℕ, String, Bool, true, false, not, List, [], ◌∷◌, ◌++◌, Option, none, some, ◌==◌, if◌then◌else◌,
  is_some, nat_eq, keep,
}
use obelisk_sfu.Map.{get, set, delete, has, values}
use obelisk_sfu.Config.{Config}
use obelisk_sfu.Room.{
  Room, PeerState, Producer, Consumer, AppData, MediaKind, VoiceKind, new_producer, producer_closed,
  Effect, notify, close_producer, close_plain_transport, peer_key, emit, fan_out,
}
use obelisk_sfu.Room.Roster.{
  RpcCode, no_router, no_peer, no_transport, no_recv_transport, cannot_consume, no_producer,
  no_consumer, drop_stale_peer,
}
use obelisk_sfu.Room.Transports.{update_peer, has_id, strangers}

abbrev fallback : MediaKind → VoiceKind
fallback MediaKind.audio = VoiceKind.audio
fallback MediaKind.video = VoiceKind.camera

-- `sanitizeVoiceKind`: `raw` is `none` unless it is a text.
unfoldable pub sanitize_voice_kind : Option String → MediaKind → VoiceKind
sanitize_voice_kind none media_kind = fallback media_kind
sanitize_voice_kind (some k) media_kind =
    if k == "audio"
    then VoiceKind.audio
    else if k == "camera"
    then VoiceKind.camera
    else if k == "screen"
    then VoiceKind.screen
    else if k == "screen-audio"
    then VoiceKind.screen_audio
    else fallback media_kind

-- A request that fails, or the peer on whose behalf it waits.
pub data Pending : Type 0 where
  fails : RpcCode → Pending
  waits : PeerState → Pending

-- `produce` up to its `await`.
unfoldable pub produce_begin : String → String → String → Room → Pending
produce_begin from client_id transport_id r = elim (get (peer_key from client_id) r.peers) [
  | none ↦ fails no_peer
  | some p ↦ if is_some (has_id transport_id p.send_transport) then waits p else fails no_transport
]

-- The rest of it, for the producer that mediasoup made. Its `kind` is the one asked for.
unfoldable pub produce_end : String → Option String → PeerState → Producer → Room → Room
unfolding update_peer sanitize_voice_kind fan_out
produce_end from raw_kind p producer r =
    let app_data : AppData = record {
      kind = sanitize_voice_kind raw_kind producer.kind;
      origin_pubkey = from;
    } in
    let add = λ (q : PeerState). record q {
      producers = set producer.id producer q.producers;
      producer_app_data = set producer.id app_data q.producer_app_data;
    } in
    let r' = update_peer add p r in
    emit
      (fan_out (new_producer producer.id producer.kind (some app_data))
        (strangers from (values r'.peers)))
      r'

-- `consume` up to its `await`; `can_consume` is the router's answer.
unfoldable pub consume_begin : String → String → Bool → Room → Pending
consume_begin from client_id can_consume r = elim (get (peer_key from client_id) r.peers) [
  | none ↦ fails no_peer
  | some p ↦
      if not (is_some p.recv_transport)
      then fails no_recv_transport
      else if not r.router
      then fails no_router
      else if not can_consume
      then fails cannot_consume
      else waits p
]

-- What the room knows of a producer, whoever owns it.
unfoldable pub find_meta : String → List PeerState → Option AppData
find_meta producer_id [] = none
find_meta producer_id (p ∷ ps) =
    if has producer_id p.producers
    then get producer_id p.producer_app_data
    else find_meta producer_id ps

-- The rest of `consume`, for the consumer that mediasoup made, but for the interval at which a
-- consumer of video asks for a key frame.
unfoldable pub consume_end : String → PeerState → Consumer → Room → Room
unfolding update_peer
consume_end producer_id p consumer =
    update_peer (λ q. record q { consumers = set producer_id consumer q.consumers }) p

-- The consumer's handlers of `transportclose` and `producerclose`.
unfoldable pub consumer_transport_close : String → PeerState → Room → Room
unfolding update_peer
consumer_transport_close producer_id =
    update_peer λ q. record q { consumers = delete producer_id q.consumers }

unfoldable pub consumer_producer_close : String → PeerState → Room → Room
unfolding update_peer
consumer_producer_close producer_id p r =
    emit (notify p.pubkey (producer_closed producer_id) ∷ [])
      (update_peer (λ q. record q { consumers = delete producer_id q.consumers }) p r)

abbrev has_consumer_id : String → List Consumer → Bool
has_consumer_id id [] = false
has_consumer_id id (c ∷ cs) = if c.id == id then true else has_consumer_id id cs

-- `resumeConsumer` up to its `await`.
unfoldable pub resume_begin : String → String → String → Room → Pending
resume_begin from client_id consumer_id r = elim (get (peer_key from client_id) r.peers) [
  | none ↦ fails no_peer
  | some p ↦ if has_consumer_id consumer_id (values p.consumers) then waits p else fails no_consumer
]

abbrev close_plain : Option String → List Effect
close_plain none = []
close_plain (some t) = close_plain_transport t ∷ []

pub data Closing : Type 0 where
  fails : RpcCode → Closing
  closes : Room → Closing

-- The part of `closeProducer` after its lookups.
unfoldable pub close_found : String → PeerState → Room → Room
unfolding update_peer fan_out
close_found producer_id p r =
    let drop = λ (q : PeerState). record q {
      producers = delete producer_id q.producers;
      producer_app_data = delete producer_id q.producer_app_data;
      plain_transports = delete producer_id q.plain_transports;
    } in
    let r' = update_peer drop p r in
    let others = keep (λ q. not (nat_eq q.ref p.ref)) (values r'.peers) in
    emit
      (close_producer producer_id
        ∷ (close_plain (get producer_id p.plain_transports)
            ++ fan_out (producer_closed producer_id) others))
      r'

-- `closeProducer`, which does not wait.
unfoldable pub close_producer_request : String → String → String → Room → Closing
unfolding close_found
close_producer_request from client_id producer_id r = elim (get (peer_key from client_id) r.peers) [
  | none ↦ fails no_peer
  | some p ↦ elim (get producer_id p.producers) [
    | none ↦ fails no_producer
    | some _ ↦ closes (close_found producer_id p r)
  ]
]

-- `leave`, which always succeeds.
unfoldable pub leave : Config → ℕ → String → String → Room → Room
unfolding drop_stale_peer
leave cfg now from client_id r = elim (get (peer_key from client_id) r.peers) [
  | none ↦ r
  | some p ↦ drop_stale_peer cfg now p r
]

-- `handleDirectDisconnect`
unfoldable pub handle_direct_disconnect : Config → ℕ → String → String → Room → Room
unfolding drop_stale_peer
handle_direct_disconnect cfg now pubkey client_id r =
    elim (get (peer_key pubkey client_id) r.peers) [
      | none ↦ r
      | some p ↦ drop_stale_peer cfg now p r
    ]
