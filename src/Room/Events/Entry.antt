-- ===== src/Room/Events/Entry.antt =====
-- The only ways into a room.
use obelisk_sfu.Prelude.{
  ℕ, String, true, not, List, none, some, ◌≡◌, ◌==◌, ◌&&◌, ◌⊎◌, ◌∙◌, ap, refl, inl, inr, arith,
  eq_iff, false, leb, length, Option-cases, Bool-cases,
}
use obelisk_sfu.Map.{get}
use obelisk_sfu.Config.{Config}
use obelisk_sfu.Room.{Room, PeerState, peer_key, publish_active, publish_beacons, participants}
use obelisk_sfu.Room.Roster.{is_active, get_or_create_peer, capacity, new_peer, cancel_empty_timer}
use obelisk_sfu.Room.Lifetime.{is_closed, update_rules, rearm_duration_limit, ends_at_timer_fires}
use obelisk_sfu.Room.Media.{
  produce_end, consume_end, consumer_transport_close, consumer_producer_close,
}
use obelisk_sfu.Room.Dispatch.{
  get_router_rtp_capabilities, create_web_rtc_transport, connect_web_rtc_transport, produce,
  consume, resume_consumer, close_producer, leaves, unknown,
}
use obelisk_sfu.Room.Dispatch.{
  Method, from_admission, handle, dispatch_rpc_request, is_leave, passes, dial,
}
use obelisk_sfu.Room.Events.{
  Event, step, requests, transport_made, producer_made, consumer_made, consumer_transport_closes,
  consumer_producer_closes, ice_changes, dtls_changes, transport_closes, stays_unhealthy, reaps,
  kicks, updates, rearms, grace_ends, call_ends, closes, beacon_tick, injects, active_call_tick,
  disconnects,
}
use obelisk_sfu.Room.Transports.{
  Direction, create_begin, create_end, with_transport, cancel_unhealthy_timer,
  unhealthy_timer_fires,
}
use obelisk_sfu.Room.Injection.{Injection, synthetic_client_id}
use obelisk_sfu.Room.Events.Injected.{inject_test_producer-IsAbsent}
use obelisk_sfu.Room.Events.Absence.{
  IsAbsent, update_peer-IsAbsent, drop_stale_peer-IsAbsent, kick-IsAbsent, close-IsAbsent,
  schedule_ends_at-IsAbsent, empty_timer_fires-IsAbsent, transport_close_event-IsAbsent,
  close_existing-IsAbsent,
}
use obelisk_sfu.Room.Events.Remainder.{
  reap-IsAbsent, ice_state_change-IsAbsent, dtls_state_change-IsAbsent,
  close_producer_request-IsAbsent, leave-IsAbsent, handle_direct_disconnect-IsAbsent,
}
use obelisk_sfu.Map.Laws.{get-set_ne}
use obelisk_sfu.StringSet.{includes}

-- A request that went on and is no leave has passed the door.
asked :
    (members : List String) (from : String) (method : Method) (direction : Direction) (r : Room)
    → method ≡ create_web_rtc_transport direction
    → (not (is_leave method) && not (passes (dial members from r))) ≡ false
    → passes (dial members from r) ≡ true
asked members from method direction r asks may =
    let other : is_leave method ≡ false = rw asks refl in ground (arith, other, may)

-- The event is a request for a transport that the door lets pass.
abbrev pub IsEntry : Config → ℕ → Event → String → Room → Type 0
IsEntry cfg now e k r =
    (members : List String) × (from : String) × (client_id : String) × (direction : Direction) × (e
      ≡ requests members from client_id (create_web_rtc_transport direction))
    × (k ≡ peer_key from client_id)
    × (is_active r.status ≡ true)
    × (passes (dial members from r) ≡ true)

-- The event is a test injection under the key of its synthetic peer.
abbrev pub IsInjection : Event → String → Room → Type 0
IsInjection e k r =
    (i : Injection) × (e ≡ injects i)
    × (k ≡ peer_key i.meta.origin_pubkey synthetic_client_id)
    × (is_closed r.status ≡ false)

module _ (k : String) where
  create_begin-IsAbsent :
      (cfg : Config) (now : ℕ) (from client_id : String) (direction : Direction) (r : Room)
      → (peer_key from client_id == k) ≡ false
      → IsAbsent k r
      → IsAbsent k (from_admission r (create_begin cfg now from client_id direction r)).1
  unfolding create_begin get_or_create_peer cancel_empty_timer
  create_begin-IsAbsent cfg now from client_id direction r apart h = elim (Bool-cases r.router) [
    | inr not_ready ↦ rw not_ready h
    | inl ready ↦ elim (Option-cases (get (peer_key from client_id) r.peers)) [
      | inr (p, e) ↦
          rw (ready, e, get_or_create_peer) (close_existing-IsAbsent k cfg now direction p r h)
      | inl e ↦
          elim (Bool-cases (
            not (includes from (participants r.peers))
            && leb (capacity cfg r) (length (participants r.peers)))) [
              | inl full ↦ rw (ready, e, get_or_create_peer, full) h
              | inr space ↦
                  rw (ready, e, get_or_create_peer, space)
                    (close_existing-IsAbsent k cfg now direction
                      (new_peer r.next_ref now from client_id) _
                      (get-set_ne (peer_key from client_id) k _ r.peers apart ∙ h))
            ]
    ]
  ]

  handle-IsAbsent :
      (cfg : Config) (now : ℕ) (from client_id : String) (method : Method) (r : Room)
      → IsAbsent k r
      → IsAbsent k (handle cfg now from client_id method r).1
        ⊎ ((direction : Direction) × (method ≡ create_web_rtc_transport direction)
            × (k ≡ peer_key from client_id))
  unfolding handle
  handle-IsAbsent cfg now from client_id get_router_rtp_capabilities r h = inl h
  handle-IsAbsent cfg now from client_id (create_web_rtc_transport direction) r h =
      elim (Bool-cases (peer_key from client_id == k)) [
        | inl same ↦ inr (direction, refl, ground (arith, eq_iff (peer_key from client_id) k, same))
        | inr apart ↦ inl (create_begin-IsAbsent cfg now from client_id direction r apart h)
      ]
  handle-IsAbsent cfg now from client_id (connect_web_rtc_transport id) r h = inl h
  handle-IsAbsent cfg now from client_id (produce id kind raw) r h = inl h
  handle-IsAbsent cfg now from client_id (consume id can) r h = inl h
  handle-IsAbsent cfg now from client_id (resume_consumer id) r h = inl h
  handle-IsAbsent cfg now from client_id (close_producer id) r h =
      inl (close_producer_request-IsAbsent k from client_id id r h)
  handle-IsAbsent cfg now from client_id leaves r h =
      inl (leave-IsAbsent k cfg now from client_id r h)
  handle-IsAbsent cfg now from client_id (unknown name) r h = inl h

  request-IsAbsent :
      (cfg : Config) (now : ℕ) (members : List String) (from client_id : String) (method : Method)
      (r : Room)
      → IsAbsent k r
      → IsAbsent k (dispatch_rpc_request cfg now members from client_id method r).1
        ⊎ IsEntry cfg now (requests members from client_id method) k r
  unfolding dispatch_rpc_request
  request-IsAbsent cfg now members from client_id method r h =
      elim (Bool-cases (is_active r.status)) [
        | inr idle ↦ rw idle (inl h)
        | inl a ↦ elim (Bool-cases (not (is_leave method) && not (passes (dial members from r)))) [
          | inl denied ↦ rw (a, denied) (inl h)
          | inr may ↦ elim (handle-IsAbsent cfg now from client_id method r h) [
            | inl still ↦ rw (a, may) (inl still)
            | inr (direction, asks, own) ↦ inr (
              members,
              from,
              client_id,
              direction,
              ap (requests members from client_id) asks,
              own,
              a,
              asked members from method direction r asks may,
            )
          ]
        ]
      ]

  step-IsAbsent :
      (cfg : Config) (now : ℕ) (e : Event) (r : Room)
      → IsAbsent k r
      → IsAbsent k (step cfg now e r) ⊎ IsEntry cfg now e k r ⊎ IsInjection e k r
  unfolding step publish_active publish_beacons rearm_duration_limit ends_at_timer_fires
      update_rules create_end produce_end consume_end consumer_transport_close
      consumer_producer_close unhealthy_timer_fires cancel_unhealthy_timer
  step-IsAbsent cfg now (requests members from client_id method) r h =
      elim (request-IsAbsent cfg now members from client_id method r h) [
        | inl still ↦ inl still
        | inr entry ↦ inr (inl entry)
      ]
  step-IsAbsent cfg now (injects i) r h = elim (Bool-cases (is_closed r.status)) [
    | inl gone ↦ rw gone (inl h)
    | inr up ↦
        let key = peer_key i.meta.origin_pubkey synthetic_client_id in
        elim (Bool-cases (key == k)) [
          | inl same ↦ inr (inr (i, refl, ground (arith, eq_iff key k, same), up))
          | inr apart ↦ rw up (inl (inject_test_producer-IsAbsent k now i r apart h))
        ]
  ]
  step-IsAbsent cfg now (transport_made from direction p t) r h =
      inl (update_peer-IsAbsent k (with_transport direction t) p r h)
  step-IsAbsent cfg now (producer_made from raw p q) r h = inl (update_peer-IsAbsent k _ p r h)
  step-IsAbsent cfg now (consumer_made id p c) r h = inl (update_peer-IsAbsent k _ p r h)
  step-IsAbsent cfg now (consumer_transport_closes id p) r h = inl (update_peer-IsAbsent k _ p r h)
  step-IsAbsent cfg now (consumer_producer_closes id p) r h = inl (update_peer-IsAbsent k _ p r h)
  step-IsAbsent cfg now (ice_changes id s p) r h = inl (ice_state_change-IsAbsent k id s p r h)
  step-IsAbsent cfg now (dtls_changes id s p) r h = inl (dtls_state_change-IsAbsent k id s p r h)
  step-IsAbsent cfg now (transport_closes direction id p) r h =
      inl (transport_close_event-IsAbsent k cfg now direction id p r h)
  step-IsAbsent cfg now (stays_unhealthy id p) r h =
      inl (drop_stale_peer-IsAbsent k cfg now p _ (update_peer-IsAbsent k _ p r h))
  step-IsAbsent cfg now (reaps stats) r h = inl (reap-IsAbsent k cfg now stats r h)
  step-IsAbsent cfg now (kicks target reason) r h = inl (kick-IsAbsent k cfg now target reason r h)
  step-IsAbsent cfg now (updates rules) r h =
      inl (schedule_ends_at-IsAbsent k cfg now (record r { rules = rules }) h)
  step-IsAbsent cfg now rearms r h = inl (schedule_ends_at-IsAbsent k cfg now r h)
  step-IsAbsent cfg now grace_ends r h = inl (empty_timer_fires-IsAbsent k cfg now r h)
  step-IsAbsent cfg now call_ends r h = inl (close-IsAbsent k cfg now r h)
  step-IsAbsent cfg now closes r h = inl (close-IsAbsent k cfg now r h)
  step-IsAbsent cfg now beacon_tick r h = inl h
  step-IsAbsent cfg now active_call_tick r h = inl h
  step-IsAbsent cfg now (disconnects pubkey client_id) r h =
      inl (handle_direct_disconnect-IsAbsent k cfg now pubkey client_id r h)

-- The only ways into a room, whatever happens to it: if nobody stood under a key and somebody does
-- after an event, either the event is a request for a transport, made under just that key by a
-- sender whom the rules let pass, while the room was active, or it is a test injection into a room
-- that has not closed, and the key is that of its origin's synthetic peer.
pub step-IsEntry :
    (cfg : Config) (now : ℕ) (e : Event) (k : String) (p : PeerState) (r : Room)
    → get k r.peers ≡ none
    → get k (step cfg now e r).peers ≡ some p
    → IsEntry cfg now e k r ⊎ IsInjection e k r
step-IsEntry cfg now e k p r before after = elim (step-IsAbsent k cfg now e r before) [
  | inr entry ↦ entry
  | inl still ↦ absurd (ground (arith, still, after))
]
