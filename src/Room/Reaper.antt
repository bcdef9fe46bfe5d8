-- ===== src/Room/Reaper.antt =====
-- The reaper of silent peers. `stats` is what `producer.getStats()` returns for a producer, each
-- entry with its `packetCount` if it has one, or `none` where the call throws.
pub mod Packets
pub mod Turns
pub mod Verdicts
use obelisk_sfu.Prelude.{
  ℕ, String, not, List, [], ◌∷◌, Option, none, some, ◌+◌, ◌-◌, if◌then◌else◌, is_some, ltb, nat_eq,
}
use obelisk_sfu.Map.{get, values}
use obelisk_sfu.Config.{Config}
use obelisk_sfu.Room.{Room, PeerState, Producer, key_of}
use obelisk_sfu.Room.Roster.{is_active, is_empty, drop_stale_peer}
use obelisk_sfu.Room.Transports.{update_peer}

abbrev pub rtp_inactivity_timeout_ms : ℕ
rtp_inactivity_timeout_ms = 30000

abbrev pub no_producer_timeout_ms : ℕ
no_producer_timeout_ms = 45000

abbrev pub Stats : Type 0
Stats = String → Option (List (Option ℕ))

-- The packets counted so far; `none` until an entry with a count was seen.
abbrev pub count_packets : Option ℕ → List (Option ℕ) → Option ℕ
count_packets total [] = total
count_packets total (none ∷ rest) = count_packets total rest
count_packets none (some n ∷ rest) = count_packets (some n) rest
count_packets (some t) (some n ∷ rest) = count_packets (some (t + n)) rest

abbrev pub count_stats : Option ℕ → Option (List (Option ℕ)) → Option ℕ
count_stats total none = total
count_stats total (some entries) = count_packets total entries

unfoldable pub total_packets : Stats → Option ℕ → List Producer → Option ℕ
total_packets stats total [] = total
total_packets stats total (q ∷ qs) = total_packets stats (count_stats total (stats q.id)) qs

-- The decision on a peer that has producers.
unfoldable pub judge : Config → ℕ → PeerState → Option ℕ → Room → Room
unfolding update_peer drop_stale_peer
judge cfg now p none r = r
judge cfg now p (some total) r =
    if ltb p.last_seen_packet_count total
    then update_peer
        (λ q. record q { last_seen_packet_count = total; last_inbound_packet_at = now }) p r
    else if ltb rtp_inactivity_timeout_ms (now - p.last_inbound_packet_at)
    then drop_stale_peer cfg now p r
    else r

-- The body of the loop, for an object that is still in the table.
unfoldable pub reap_peer : Config → ℕ → Stats → PeerState → Room → Room
unfolding judge total_packets drop_stale_peer
reap_peer cfg now stats p r =
    if is_empty p.producers
    then (if is_some p.recv_transport
        then r
        else if ltb no_producer_timeout_ms (now - p.joined_at)
        then drop_stale_peer cfg now p r
        else r)
    else judge cfg now p (total_packets stats none (values p.producers)) r

-- The loop over the snapshot of the table; what an object holds is read when its turn comes.
unfoldable pub reap_each : Config → ℕ → Stats → List PeerState → Room → Room
unfolding reap_peer
reap_each cfg now stats [] r = r
reap_each cfg now stats (p ∷ ps) r =
    let next : Room = elim (get (key_of p) r.peers) [
      | none ↦ r
      | some q ↦ if nat_eq q.ref p.ref then reap_peer cfg now stats q r else r
    ] in
    reap_each cfg now stats ps next

-- `reap`, with nothing happening while it waits for the statistics.
unfoldable pub reap : Config → ℕ → Stats → Room → Room
unfolding reap_each
reap cfg now stats r =
    if not (is_active r.status) then r else reap_each cfg now stats (values r.peers) r
