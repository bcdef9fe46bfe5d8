-- ===== src/Room/Events/Remainder.antt =====
-- The reaper, the handlers but one, and the events of transports put nobody into the table.
use obelisk_sfu.Prelude.{
  ℕ, String, List, [], ◌∷◌, Option, none, some, inl, inr, Option-cases, Bool-cases, is_some, ltb,
  nat_eq, ◌-◌,
}
use obelisk_sfu.Map.{get, values}
use obelisk_sfu.Config.{Config}
use obelisk_sfu.Room.{Room, PeerState, key_of, peer_key, DtlsState}
use obelisk_sfu.Room.Roster.{is_active, is_empty}
use obelisk_sfu.Room.Media.{close_found, close_producer_request, handle_direct_disconnect}
use obelisk_sfu.Room.Reaper.{
  Stats, reap, reap_each, reap_peer, judge, total_packets, no_producer_timeout_ms,
  rtp_inactivity_timeout_ms,
}
use obelisk_sfu.Room.Dispatch.{from_closing}
use obelisk_sfu.Room.Transports.{
  IceState, ice_state_change, dtls_state_change, arm_unhealthy_timer, cancel_unhealthy_timer,
}
use obelisk_sfu.Room.Events.Absence.{IsAbsent, update_peer-IsAbsent, drop_stale_peer-IsAbsent}
use obelisk_sfu.Room.Media.{leave}

module _ (k : String) where
  judge-IsAbsent :
      (cfg : Config) (now : ℕ) (p : PeerState) (total : Option ℕ) (r : Room)
      → IsAbsent k r
      → IsAbsent k (judge cfg now p total r)
  unfolding judge
  judge-IsAbsent cfg now p none r h = h
  judge-IsAbsent cfg now p (some total) r h =
      elim (Bool-cases (ltb p.last_seen_packet_count total)) [
        | inl more ↦ rw more (update_peer-IsAbsent k _ p r h)
        | inr same ↦
            elim (Bool-cases (ltb rtp_inactivity_timeout_ms (now - p.last_inbound_packet_at))) [
              | inl late ↦ rw (same, late) (drop_stale_peer-IsAbsent k cfg now p r h)
              | inr early ↦ rw (same, early) h
            ]
      ]

  reap_peer-IsAbsent :
      (cfg : Config) (now : ℕ) (stats : Stats) (p : PeerState) (r : Room)
      → IsAbsent k r
      → IsAbsent k (reap_peer cfg now stats p r)
  unfolding reap_peer
  reap_peer-IsAbsent cfg now stats p r h =
      let dropped = drop_stale_peer-IsAbsent k cfg now p r h in
      elim (Bool-cases (is_empty p.producers)) [
        | inr busy ↦
            rw busy (judge-IsAbsent cfg now p (total_packets stats none (values p.producers)) r h)
        | inl idle ↦ elim (Bool-cases (is_some p.recv_transport)) [
          | inl listens ↦ rw (idle, listens) h
          | inr deaf ↦ elim (Bool-cases (ltb no_producer_timeout_ms (now - p.joined_at))) [
            | inl late ↦ rw (idle, deaf, late) dropped
            | inr early ↦ rw (idle, deaf, early) h
          ]
        ]
      ]

  reap_each-IsAbsent :
      (cfg : Config) (now : ℕ) (stats : Stats) (ps : List PeerState) (r : Room)
      → IsAbsent k r
      → IsAbsent k (reap_each cfg now stats ps r)
  unfolding reap_each
  reap_each-IsAbsent cfg now stats [] r h = h
  reap_each-IsAbsent cfg now stats (p ∷ ps) r h =
      reap_each-IsAbsent cfg now stats ps _ (elim (Option-cases (get (key_of p) r.peers)) [
        | inl e ↦ rw e h
        | inr (q, e) ↦ elim (Bool-cases (nat_eq q.ref p.ref)) [
          | inl same ↦ rw (e, same) (reap_peer-IsAbsent cfg now stats q r h)
          | inr other ↦ rw (e, other) h
        ]
      ])

  pub reap-IsAbsent :
      (cfg : Config) (now : ℕ) (stats : Stats) (r : Room)
      → IsAbsent k r
      → IsAbsent k (reap cfg now stats r)
  unfolding reap
  reap-IsAbsent cfg now stats r h = elim (Bool-cases (is_active r.status)) [
    | inl a ↦ rw a (reap_each-IsAbsent cfg now stats (values r.peers) r h)
    | inr idle ↦ rw idle h
  ]

  pub ice_state_change-IsAbsent :
      (id : String) (s : IceState) (p : PeerState) (r : Room)
      → IsAbsent k r
      → IsAbsent k (ice_state_change id s p r)
  unfolding ice_state_change arm_unhealthy_timer cancel_unhealthy_timer
  ice_state_change-IsAbsent id IceState.new p r h = h
  ice_state_change-IsAbsent id IceState.connected p r h = update_peer-IsAbsent k _ p r h
  ice_state_change-IsAbsent id IceState.completed p r h = update_peer-IsAbsent k _ p r h
  ice_state_change-IsAbsent id IceState.disconnected p r h = update_peer-IsAbsent k _ p r h
  ice_state_change-IsAbsent id IceState.closed p r h = h

  pub dtls_state_change-IsAbsent :
      (id : String) (s : DtlsState) (p : PeerState) (r : Room)
      → IsAbsent k r
      → IsAbsent k (dtls_state_change id s p r)
  unfolding dtls_state_change arm_unhealthy_timer cancel_unhealthy_timer
  dtls_state_change-IsAbsent id DtlsState.new p r h = h
  dtls_state_change-IsAbsent id DtlsState.connecting p r h = h
  dtls_state_change-IsAbsent id DtlsState.connected p r h = update_peer-IsAbsent k _ p r h
  dtls_state_change-IsAbsent id DtlsState.failed p r h = update_peer-IsAbsent k _ p r h
  dtls_state_change-IsAbsent id DtlsState.closed p r h = update_peer-IsAbsent k _ p r h

  pub close_producer_request-IsAbsent :
      (from client_id id : String) (r : Room)
      → IsAbsent k r
      → IsAbsent k (from_closing r (close_producer_request from client_id id r)).1
  unfolding close_producer_request close_found
  close_producer_request-IsAbsent from client_id id r h =
      elim (Option-cases (get (peer_key from client_id) r.peers)) [
        | inl e ↦ rw (e, close_producer_request) h
        | inr (p, e) ↦ elim (Option-cases (get id p.producers)) [
          | inl f ↦ rw (e, close_producer_request, f) h
          | inr (q, f) ↦ rw (e, close_producer_request, f) (update_peer-IsAbsent k _ p r h)
        ]
      ]

  pub leave-IsAbsent :
      (cfg : Config) (now : ℕ) (from client_id : String) (r : Room)
      → IsAbsent k r
      → IsAbsent k (leave cfg now from client_id r)
  unfolding leave
  leave-IsAbsent cfg now from client_id r h =
      elim (Option-cases (get (peer_key from client_id) r.peers)) [
        | inl e ↦ rw (e, leave) h
        | inr (p, e) ↦ rw (e, leave) (drop_stale_peer-IsAbsent k cfg now p r h)
      ]

  pub handle_direct_disconnect-IsAbsent :
      (cfg : Config) (now : ℕ) (pubkey client_id : String) (r : Room)
      → IsAbsent k r
      → IsAbsent k (handle_direct_disconnect cfg now pubkey client_id r)
  unfolding handle_direct_disconnect
  handle_direct_disconnect-IsAbsent cfg now pubkey client_id r h =
      elim (Option-cases (get (peer_key pubkey client_id) r.peers)) [
        | inl e ↦ rw (e, handle_direct_disconnect) h
        | inr (p, e) ↦ rw (e, handle_direct_disconnect) (drop_stale_peer-IsAbsent k cfg now p r h)
      ]
