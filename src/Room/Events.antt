-- ===== src/Room/Events.antt =====
-- Everything that can happen to a started room, as one type of events: requests, what mediasoup
-- reports, timers and calls from outside. An event may carry an object that has left the
-- table. A kick, a close, a round of the reaper and a test injection are one event each, with nothing
-- between the parts that their waits separate.
pub mod Parts
pub mod Histories
pub mod Absence
pub mod Remainder
pub mod Entry
pub mod Injected
use obelisk_sfu.Prelude.{ℕ, String, List, [], ◌∷◌, Option, if◌then◌else◌}
use obelisk_sfu.Config.{Config}
use obelisk_sfu.Types.{RoomRules}
use obelisk_sfu.Room.{
  Room, PeerState, WebRtcTransport, Producer, Consumer, DtlsState, publish_active, publish_beacons,
}
use obelisk_sfu.Room.Roster.{kick}
use obelisk_sfu.Room.Lifetime.{
  is_closed, close, update_rules, rearm_duration_limit, empty_timer_fires, ends_at_timer_fires,
}
use obelisk_sfu.Room.Transports.{
  Direction, IceState, create_end, ice_state_change, dtls_state_change, transport_close_event,
  unhealthy_timer_fires,
}
use obelisk_sfu.Room.Media.{
  produce_end, consume_end, consumer_transport_close, consumer_producer_close,
  handle_direct_disconnect,
}
use obelisk_sfu.Room.Reaper.{Stats, reap}
use obelisk_sfu.Room.Injection.{Injection, inject_test_producer}
use obelisk_sfu.Room.Dispatch.{Method, dispatch_rpc_request}

pub data Event : Type 0 where
  requests : List String → String → String → Method → Event
  transport_made : String → Direction → PeerState → WebRtcTransport → Event
  producer_made : String → Option String → PeerState → Producer → Event
  consumer_made : String → PeerState → Consumer → Event
  consumer_transport_closes consumer_producer_closes : String → PeerState → Event
  ice_changes : String → IceState → PeerState → Event
  dtls_changes : String → DtlsState → PeerState → Event
  transport_closes : Direction → String → PeerState → Event
  stays_unhealthy : String → PeerState → Event
  reaps : Stats → Event
  kicks : String → Option String → Event
  updates : RoomRules → Event
  rearms grace_ends call_ends closes beacon_tick active_call_tick : Event
  disconnects : String → String → Event
  injects : Injection → Event

unfoldable pub step : Config → ℕ → Event → Room → Room
step cfg now (requests members from client_id method) r =
    (dispatch_rpc_request cfg now members from client_id method r).1
step cfg now (transport_made from direction p t) r = create_end from direction p t r
step cfg now (producer_made from raw_kind p q) r = produce_end from raw_kind p q r
step cfg now (consumer_made producer_id p c) r = consume_end producer_id p c r
step cfg now (consumer_transport_closes producer_id p) r = consumer_transport_close producer_id p r
step cfg now (consumer_producer_closes producer_id p) r = consumer_producer_close producer_id p r
step cfg now (ice_changes id state p) r = ice_state_change id state p r
step cfg now (dtls_changes id state p) r = dtls_state_change id state p r
step cfg now (transport_closes direction id p) r = transport_close_event cfg now direction id p r
step cfg now (stays_unhealthy id p) r = unhealthy_timer_fires cfg now id p r
step cfg now (reaps stats) r = reap cfg now stats r
step cfg now (kicks target reason) r = kick cfg now target reason r
step cfg now (updates rules) r = update_rules cfg now rules r
step cfg now rearms r = rearm_duration_limit cfg now r
step cfg now grace_ends r = empty_timer_fires cfg now r
step cfg now call_ends r = ends_at_timer_fires cfg now r
step cfg now closes r = close cfg now r
step cfg now beacon_tick r = publish_beacons r
step cfg now active_call_tick r = publish_active r
step cfg now (disconnects pubkey client_id) r = handle_direct_disconnect cfg now pubkey client_id r
-- A room that has closed is in no table for `POST /test/inject` to find.
step cfg now (injects i) r = if is_closed r.status then r else inject_test_producer now i r

-- The configuration may change between events, and each event has its time.
unfoldable pub run : List (Config × ℕ × Event) → Room → Room
unfolding step
run [] r = r
run ((cfg, now, e) ∷ rest) r = run rest (step cfg now e r)
