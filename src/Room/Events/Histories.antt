-- ===== src/Room/Events/Histories.antt =====
-- Every event keeps the invariant, so every history of a started room does.
use obelisk_sfu.Prelude.{
  ℕ, String, true, not, List, [], ◌∷◌, Option, none, some, ◌≡◌, ◌&&◌, refl, inl, inr, Option-cases,
  Bool-cases, is_some, ltb, nat_eq, ◌-◌,
}
use obelisk_sfu.Map.{get, values}
use obelisk_sfu.Config.{Config}
use obelisk_sfu.Types.{RoomRules}
use obelisk_sfu.Room.{Room, PeerState, key_of, peer_key, publish_active, publish_beacons, new_room}
use obelisk_sfu.Room.Roster.{is_active, is_empty, Admission, admitted, refused}
use obelisk_sfu.Room.Lifetime.{start_end, rearm_duration_limit, ends_at_timer_fires}
use obelisk_sfu.Room.Media.{close_found, close_producer_request, handle_direct_disconnect}
use obelisk_sfu.Room.Reaper.{
  Stats, reap, reap_each, reap_peer, judge, total_packets, no_producer_timeout_ms,
  rtp_inactivity_timeout_ms,
}
use obelisk_sfu.Room.Dispatch.{
  get_router_rtp_capabilities, create_web_rtc_transport, connect_web_rtc_transport, produce,
  consume, resume_consumer, close_producer, leaves, unknown,
}
use obelisk_sfu.Room.Dispatch.{
  Method, from_closing, from_admission, handle, dispatch_rpc_request, is_leave, passes, dial,
}
use obelisk_sfu.Room.Invariant.{IsValid}
use obelisk_sfu.Room.Invariant.Leaving.{
  emit-IsValid, drop_stale_peer-IsValid, kick-IsValid, leave-IsValid,
}
use obelisk_sfu.Room.Invariant.Entering.{OnAdmitted, update_peer-IsValid, create_begin-IsValid}
use obelisk_sfu.Room.Invariant.Closing.{
  close-IsValid, schedule_ends_at-IsValid, update_rules-IsValid, empty_timer_fires-IsValid,
  start_end-IsValid,
}
use obelisk_sfu.Room.Lifetime.{is_closed}
use obelisk_sfu.Room.Events.Injected.{inject_test_producer-IsValid}
use obelisk_sfu.Room.Events.Parts.{
  create_end-IsValid, produce_end-IsValid, consume_end-IsValid, consumer_transport_close-IsValid,
  consumer_producer_close-IsValid, ice_state_change-IsValid, dtls_state_change-IsValid,
  transport_close_event-IsValid, unhealthy_timer_fires-IsValid,
}
use obelisk_sfu.Room.Events.{
  Event, step, run, requests, transport_made, producer_made, consumer_made,
  consumer_transport_closes, consumer_producer_closes, ice_changes, dtls_changes, transport_closes,
  stays_unhealthy, reaps, kicks, updates, rearms, grace_ends, call_ends, closes, beacon_tick,
  injects, active_call_tick, disconnects,
}

judge-IsValid :
    (cfg : Config) (now : ℕ) (p : PeerState) (total : Option ℕ) (r : Room)
    → IsValid r
    → IsValid (judge cfg now p total r)
unfolding judge
judge-IsValid cfg now p none r v = v
judge-IsValid cfg now p (some total) r v = elim (Bool-cases (ltb p.last_seen_packet_count total)) [
  | inl more ↦ rw more (
      update_peer-IsValid _ p r
        (record { ref = λ q. refl; pubkey = λ q. refl; client_id = λ q. refl }) v)
  | inr same ↦ elim (Bool-cases (ltb rtp_inactivity_timeout_ms (now - p.last_inbound_packet_at))) [
    | inl late ↦ rw (same, late) (drop_stale_peer-IsValid cfg now p r v)
    | inr early ↦ rw (same, early) v
  ]
]

close_found-IsValid :
    (id : String) (p : PeerState) (r : Room) → IsValid r → IsValid (close_found id p r)
unfolding close_found
close_found-IsValid id p r v = emit-IsValid _ _ (
    update_peer-IsValid _ p r
      (record { ref = λ q. refl; pubkey = λ q. refl; client_id = λ q. refl }) v)

reap_peer-IsValid :
    (cfg : Config) (now : ℕ) (stats : Stats) (p : PeerState) (r : Room)
    → IsValid r
    → IsValid (reap_peer cfg now stats p r)
unfolding reap_peer
reap_peer-IsValid cfg now stats p r v =
    let dropped = drop_stale_peer-IsValid cfg now p r v in
    elim (Bool-cases (is_empty p.producers)) [
      | inr busy ↦
          rw busy (judge-IsValid cfg now p (total_packets stats none (values p.producers)) r v)
      | inl idle ↦ elim (Bool-cases (is_some p.recv_transport)) [
        | inl listens ↦ rw (idle, listens) v
        | inr deaf ↦ elim (Bool-cases (ltb no_producer_timeout_ms (now - p.joined_at))) [
          | inl late ↦ rw (idle, deaf, late) dropped
          | inr early ↦ rw (idle, deaf, early) v
        ]
      ]
    ]

reap_each-IsValid :
    (cfg : Config) (now : ℕ) (stats : Stats) (ps : List PeerState) (r : Room)
    → IsValid r
    → IsValid (reap_each cfg now stats ps r)
unfolding reap_each
reap_each-IsValid cfg now stats [] r v = v
reap_each-IsValid cfg now stats (p ∷ ps) r v =
    reap_each-IsValid cfg now stats ps _ (elim (Option-cases (get (key_of p) r.peers)) [
      | inl e ↦ rw e v
      | inr (q, e) ↦ elim (Bool-cases (nat_eq q.ref p.ref)) [
        | inl same ↦ rw (e, same) (reap_peer-IsValid cfg now stats q r v)
        | inr other ↦ rw (e, other) v
      ]
    ])

reap-IsValid :
    (cfg : Config) (now : ℕ) (stats : Stats) (r : Room) → IsValid r → IsValid (reap cfg now stats r)
unfolding reap
reap-IsValid cfg now stats r v = elim (Bool-cases (is_active r.status)) [
  | inl a ↦ rw a (reap_each-IsValid cfg now stats (values r.peers) r v)
  | inr idle ↦ rw idle v
]

close_producer_request-IsValid :
    (from client_id id : String) (r : Room)
    → IsValid r
    → IsValid (from_closing r (close_producer_request from client_id id r)).1
unfolding close_producer_request
close_producer_request-IsValid from client_id id r v =
    elim (Option-cases (get (peer_key from client_id) r.peers)) [
      | inl e ↦ rw (e, close_producer_request) v
      | inr (p, e) ↦ elim (Option-cases (get id p.producers)) [
        | inl f ↦ rw (e, close_producer_request, f) v
        | inr (q, f) ↦ rw (e, close_producer_request, f) (close_found-IsValid id p r v)
      ]
    ]

create_outcome-IsValid :
    (r : Room) (a : Admission)
    → IsValid r
    → OnAdmitted (λ _ r'. IsValid r') a
    → IsValid (from_admission r a).1
create_outcome-IsValid r (refused e) v h = v
create_outcome-IsValid r (admitted p r') v h = h

handle-IsValid :
    (cfg : Config) (now : ℕ) (from client_id : String) (method : Method) (r : Room)
    → is_active r.status ≡ true
    → IsValid r
    → IsValid (handle cfg now from client_id method r).1
unfolding handle
handle-IsValid cfg now from client_id get_router_rtp_capabilities r a v = v
handle-IsValid cfg now from client_id (create_web_rtc_transport direction) r a v =
    create_outcome-IsValid r _ v (create_begin-IsValid cfg now from client_id direction r a v)
handle-IsValid cfg now from client_id (connect_web_rtc_transport id) r a v = v
handle-IsValid cfg now from client_id (produce id kind raw) r a v = v
handle-IsValid cfg now from client_id (consume id can) r a v = v
handle-IsValid cfg now from client_id (resume_consumer id) r a v = v
handle-IsValid cfg now from client_id (close_producer id) r a v =
    close_producer_request-IsValid from client_id id r v
handle-IsValid cfg now from client_id leaves r a v = leave-IsValid cfg now from client_id r v
handle-IsValid cfg now from client_id (unknown name) r a v = v

dispatch_rpc_request-IsValid :
    (cfg : Config) (now : ℕ) (members : List String) (from client_id : String) (method : Method)
    (r : Room)
    → IsValid r
    → IsValid (dispatch_rpc_request cfg now members from client_id method r).1
unfolding dispatch_rpc_request
dispatch_rpc_request-IsValid cfg now members from client_id method r v =
    elim (Bool-cases (is_active r.status)) [
      | inr idle ↦ rw idle v
      | inl a ↦ elim (Bool-cases (not (is_leave method) && not (passes (dial members from r)))) [
        | inl denied ↦ rw (a, denied) v
        | inr may ↦ rw (a, may) (handle-IsValid cfg now from client_id method r a v)
      ]
    ]

handle_direct_disconnect-IsValid :
    (cfg : Config) (now : ℕ) (pubkey client_id : String) (r : Room)
    → IsValid r
    → IsValid (handle_direct_disconnect cfg now pubkey client_id r)
unfolding handle_direct_disconnect
handle_direct_disconnect-IsValid cfg now pubkey client_id r v =
    elim (Option-cases (get (peer_key pubkey client_id) r.peers)) [
      | inl e ↦ rw (e, handle_direct_disconnect) v
      | inr (p, e) ↦ rw (e, handle_direct_disconnect) (drop_stale_peer-IsValid cfg now p r v)
    ]

step-IsValid :
    (cfg : Config) (now : ℕ) (e : Event) (r : Room) → IsValid r → IsValid (step cfg now e r)
unfolding step publish_active publish_beacons rearm_duration_limit ends_at_timer_fires
step-IsValid cfg now (requests members from client_id method) r v =
    dispatch_rpc_request-IsValid cfg now members from client_id method r v
step-IsValid cfg now (transport_made from direction p t) r v =
    create_end-IsValid from direction p t r v
step-IsValid cfg now (producer_made from raw p q) r v = produce_end-IsValid from raw p q r v
step-IsValid cfg now (consumer_made id p c) r v = consume_end-IsValid id p c r v
step-IsValid cfg now (consumer_transport_closes id p) r v =
    consumer_transport_close-IsValid id p r v
step-IsValid cfg now (consumer_producer_closes id p) r v = consumer_producer_close-IsValid id p r v
step-IsValid cfg now (ice_changes id s p) r v = ice_state_change-IsValid id s p r v
step-IsValid cfg now (dtls_changes id s p) r v = dtls_state_change-IsValid id s p r v
step-IsValid cfg now (transport_closes direction id p) r v =
    transport_close_event-IsValid cfg now direction id p r v
step-IsValid cfg now (stays_unhealthy id p) r v = unhealthy_timer_fires-IsValid cfg now id p r v
step-IsValid cfg now (reaps stats) r v = reap-IsValid cfg now stats r v
step-IsValid cfg now (kicks target reason) r v = kick-IsValid cfg now target reason r v
step-IsValid cfg now (updates rules) r v = update_rules-IsValid cfg now rules r v
step-IsValid cfg now rearms r v = schedule_ends_at-IsValid cfg now r v
step-IsValid cfg now grace_ends r v = empty_timer_fires-IsValid cfg now r v
step-IsValid cfg now call_ends r v = close-IsValid cfg now r v
step-IsValid cfg now closes r v = close-IsValid cfg now r v
step-IsValid cfg now beacon_tick r v = emit-IsValid _ r v
step-IsValid cfg now active_call_tick r v = emit-IsValid _ r v
step-IsValid cfg now (disconnects pubkey client_id) r v =
    handle_direct_disconnect-IsValid cfg now pubkey client_id r v
step-IsValid cfg now (injects i) r v = elim (Bool-cases (is_closed r.status)) [
  | inl gone ↦ rw gone v
  | inr up ↦ rw up (inject_test_producer-IsValid now i r up v)
]

run-keeps : (es : List (Config × ℕ × Event)) (r : Room) → IsValid r → IsValid (run es r)
unfolding run
run-keeps [] r v = v
run-keeps ((cfg, now, e) ∷ es) r v = run-keeps es _ (step-IsValid cfg now e r v)

-- After a room is made and started, whatever requests, media events, timers and calls follow, in
-- any order and at any times, where a kick, a close, a round of the reaper and a test injection
-- each run to their end as one event, the room satisfies `IsValid`: every peer stands once and under its own key;
-- the grace timer is armed only in an empty room, and always in an active room that somebody has
-- entered and nobody is left in; a closed room has no peers and no armed timer.
pub run-IsValid :
    (cfg : Config) (now : ℕ) (channel_id host_pubkey : String) (rules : RoomRules)
    (es : List (Config × ℕ × Event))
    → IsValid (run es (start_end cfg now (new_room channel_id host_pubkey rules)))
run-IsValid cfg now channel_id host_pubkey rules es =
    run-keeps es _ (start_end-IsValid cfg now channel_id host_pubkey rules)
