-- ===== src/Room/Events/Parts.antt =====
-- The events of a peer's transports, producers and consumers keep the invariant.
use obelisk_sfu.Prelude.{
  ℕ, String, Option, ◌&&◌, refl, inl, inr, arith, Option-cases, Bool-cases, is_some, nat_eq,
  if◌then◌else◌,
}
use obelisk_sfu.Map.{get, set, has}
use obelisk_sfu.Config.{Config}
use obelisk_sfu.Room.{Room, PeerState, WebRtcTransport, Producer, Consumer, DtlsState, key_of}
use obelisk_sfu.Room.Transports.{
  Direction, send, recv, IceState, with_transport, create_end, ice_state_change, dtls_state_change,
  arm_unhealthy_timer, cancel_unhealthy_timer, transport_close_event, transport_of, has_id,
  unhealthy_timer_fires,
}
use obelisk_sfu.Room.Media.{
  produce_end, consume_end, consumer_transport_close, consumer_producer_close,
}
use obelisk_sfu.Room.Invariant.{IsValid}
use obelisk_sfu.Room.Invariant.Leaving.{emit-IsValid, drop_stale_peer-IsValid}
use obelisk_sfu.Room.Invariant.Entering.{Keeps, update_peer-IsValid, transport_closed-IsValid}

with_transport-Keeps :
    (direction : Direction) (t : WebRtcTransport) → Keeps (with_transport direction t)
with_transport-Keeps send t = record { ref = λ p. refl; pubkey = λ p. refl; client_id = λ p. refl }
with_transport-Keeps recv t = record { ref = λ p. refl; pubkey = λ p. refl; client_id = λ p. refl }

pub create_end-IsValid :
    (from : String) (direction : Direction) (p : PeerState) (t : WebRtcTransport) (r : Room)
    → IsValid r
    → IsValid (create_end from direction p t r)
unfolding create_end
create_end-IsValid from direction p t r v =
    emit-IsValid _ _
      (update_peer-IsValid (with_transport direction t) p r (with_transport-Keeps direction t) v)

pub produce_end-IsValid :
    (from : String) (raw_kind : Option String) (p : PeerState) (q : Producer) (r : Room)
    → IsValid r
    → IsValid (produce_end from raw_kind p q r)
unfolding produce_end
produce_end-IsValid from raw_kind p q r v = emit-IsValid _ _ (
    update_peer-IsValid _ p r
      (record { ref = λ p. refl; pubkey = λ p. refl; client_id = λ p. refl }) v)

pub consume_end-IsValid :
    (producer_id : String) (p : PeerState) (c : Consumer) (r : Room)
    → IsValid r
    → IsValid (consume_end producer_id p c r)
unfolding consume_end
consume_end-IsValid producer_id p c r v =
    update_peer-IsValid _ p r
      (record { ref = λ p. refl; pubkey = λ p. refl; client_id = λ p. refl }) v

pub consumer_transport_close-IsValid :
    (producer_id : String) (p : PeerState) (r : Room)
    → IsValid r
    → IsValid (consumer_transport_close producer_id p r)
unfolding consumer_transport_close
consumer_transport_close-IsValid producer_id p r v =
    update_peer-IsValid _ p r
      (record { ref = λ p. refl; pubkey = λ p. refl; client_id = λ p. refl }) v

pub consumer_producer_close-IsValid :
    (producer_id : String) (p : PeerState) (r : Room)
    → IsValid r
    → IsValid (consumer_producer_close producer_id p r)
unfolding consumer_producer_close
consumer_producer_close-IsValid producer_id p r v = emit-IsValid _ _ (
    update_peer-IsValid _ p r
      (record { ref = λ p. refl; pubkey = λ p. refl; client_id = λ p. refl }) v)

timer-Keeps :
    (id cause : String)
    → Keeps (λ (q : PeerState).
      if has id q.unhealthy_timers
      then q
      else record q { unhealthy_timers = set id cause q.unhealthy_timers })
timer-Keeps id cause = record {
  ref = λ q. (ground arith);
  pubkey = λ q. (ground arith);
  client_id = λ q. (ground arith);
}

arm_unhealthy_timer-IsValid :
    (id cause : String) (p : PeerState) (r : Room)
    → IsValid r
    → IsValid (arm_unhealthy_timer id cause p r)
unfolding arm_unhealthy_timer
arm_unhealthy_timer-IsValid id cause p r v = update_peer-IsValid _ p r (timer-Keeps id cause) v

cancel_unhealthy_timer-IsValid :
    (id : String) (p : PeerState) (r : Room) → IsValid r → IsValid (cancel_unhealthy_timer id p r)
unfolding cancel_unhealthy_timer
cancel_unhealthy_timer-IsValid id p r v =
    update_peer-IsValid _ p r
      (record { ref = λ p. refl; pubkey = λ p. refl; client_id = λ p. refl }) v

pub ice_state_change-IsValid :
    (id : String) (s : IceState) (p : PeerState) (r : Room)
    → IsValid r
    → IsValid (ice_state_change id s p r)
unfolding ice_state_change
ice_state_change-IsValid id IceState.new p r v = v
ice_state_change-IsValid id IceState.connected p r v = cancel_unhealthy_timer-IsValid id p r v
ice_state_change-IsValid id IceState.completed p r v = cancel_unhealthy_timer-IsValid id p r v
ice_state_change-IsValid id IceState.disconnected p r v =
    arm_unhealthy_timer-IsValid id "ice=disconnected" p r v
ice_state_change-IsValid id IceState.closed p r v = v

pub dtls_state_change-IsValid :
    (id : String) (s : DtlsState) (p : PeerState) (r : Room)
    → IsValid r
    → IsValid (dtls_state_change id s p r)
unfolding dtls_state_change
dtls_state_change-IsValid id DtlsState.new p r v = v
dtls_state_change-IsValid id DtlsState.connecting p r v = v
dtls_state_change-IsValid id DtlsState.connected p r v = cancel_unhealthy_timer-IsValid id p r v
dtls_state_change-IsValid id DtlsState.failed p r v =
    arm_unhealthy_timer-IsValid id "dtls=failed" p r v
dtls_state_change-IsValid id DtlsState.closed p r v = cancel_unhealthy_timer-IsValid id p r v

pub transport_close_event-IsValid :
    (cfg : Config) (now : ℕ) (direction : Direction) (id : String) (p : PeerState) (r : Room)
    → IsValid r
    → IsValid (transport_close_event cfg now direction id p r)
unfolding transport_close_event
transport_close_event-IsValid cfg now direction id p r v =
    elim (Option-cases (get (key_of p) r.peers)) [
      | inl e ↦ rw (e, transport_close_event) v
      | inr (q, e) ↦
          elim (Bool-cases (nat_eq q.ref p.ref && is_some (has_id id (transport_of direction q)))) [
            | inl held ↦
                rw (e, transport_close_event, held)
                  (transport_closed-IsValid cfg now direction q r v)
            | inr other ↦ rw (e, transport_close_event, other) v
          ]
    ]

pub unhealthy_timer_fires-IsValid :
    (cfg : Config) (now : ℕ) (id : String) (p : PeerState) (r : Room)
    → IsValid r
    → IsValid (unhealthy_timer_fires cfg now id p r)
unfolding unhealthy_timer_fires
unhealthy_timer_fires-IsValid cfg now id p r v =
    drop_stale_peer-IsValid cfg now p _ (cancel_unhealthy_timer-IsValid id p r v)
