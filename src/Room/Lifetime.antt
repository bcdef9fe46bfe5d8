-- ===== src/Room/Lifetime.antt =====
-- Start, end and the timers of a room. A method that waits is cut at its `await`: the part up to
-- it, and the part after it. `now` is in milliseconds.
pub mod Limits
use obelisk_sfu.Prelude.{
  ℕ, String, Bool, true, false, not, List, [], ◌∷◌, ◌++◌, Option, none, some, ◌&&◌, ◌||◌, ◌+◌, ◌-◌,
  ◌*◌, ◌/◌, if◌then◌else◌, is_some, leb, ltb, min,
}
use obelisk_sfu.Map.{values}
use obelisk_sfu.Types.{RoomRules, RoomStatus, starting, active, closed}
use obelisk_sfu.Config.{Config}
use obelisk_sfu.Room.{
  Room, PeerState, Effect, request_router, close_router, subscribe_signals, unsubscribe_signals,
  watch_membership, release_membership, on_closed, emit, publish_active, publish_beacons,
}
use obelisk_sfu.Room.Roster.{
  is_active, is_empty, is_current, close_peer_media, handle_peer_left, cancel_empty_timer,
}

abbrev pub is_closed : RoomStatus → Bool
is_closed closed = true
is_closed _ = false

abbrev pub is_starting : RoomStatus → Bool
is_starting starting = true
is_starting _ = false

-- A peer whose media `closePeerMedia` has closed.
abbrev pub stripped : PeerState → PeerState
stripped p = record p {
  send_transport = none;
  recv_transport = none;
  producers = [];
  consumers = [];
  plain_transports = [];
  producer_app_data = [];
  unhealthy_timers = [];
}

abbrev pub has_transport : PeerState → Bool
has_transport p = is_some p.send_transport || is_some p.recv_transport

-- `closePeerMedia` on a peer that is still in the table: mediasoup runs a transport's close
-- observer inside `close()`, and the observer of the last transport calls `handlePeerLeft`.
unfoldable pub close_peer_in_table : Config → ℕ → PeerState → Room → Room
unfolding close_peer_media handle_peer_left is_current
close_peer_in_table cfg now p r =
    let r' = emit (close_peer_media p) r in
    if has_transport p && is_current p r.peers then handle_peer_left cfg now (stripped p) r' else r'

unfoldable pub close_peers : Config → ℕ → List PeerState → Room → Room
unfolding close_peer_in_table
close_peers cfg now [] r = r
close_peers cfg now (p ∷ ps) r = close_peers cfg now ps (close_peer_in_table cfg now p r)

-- `close` up to the `await` of `closeRouter`.
unfoldable pub close_begin : Config → ℕ → Room → Room
unfolding close_peers cancel_empty_timer
close_begin cfg now r =
    let stopped = record r {
      status = closed;
      beacon_timer = false;
      active_call_timer = false;
      reaper_timer = false;
      ends_at_timer = none;
      empty_timer = none;
      signal_unsub = false;
    } in
    let unsubscribed = emit (if r.signal_unsub then unsubscribe_signals ∷ [] else []) stopped in
    let emptied = close_peers cfg now (values r.peers) unsubscribed in
    emit (close_router ∷ []) (record emptied { peers = [] })

-- The rest of it, the publication included.
unfoldable pub close_end : Room → Room
unfolding publish_active
close_end r =
    let published = publish_active (record r { router = false }) in
    let release = if r.membership_release then release_membership ∷ [] else [] in
    emit (release ++ on_closed r.channel_id ∷ []) (record published { membership_release = false })

-- `close`, with nothing happening during its two `await`s.
unfoldable pub close : Config → ℕ → Room → Room
unfolding close_begin close_end
close cfg now r = if is_closed r.status then r else close_end (close_begin cfg now r)

-- `startedAt + cfg.maxCallDurationSeconds`, where the cap is not switched off
abbrev pub cap : Config → Room → Option ℕ
cap cfg r =
    if ltb 0 cfg.max_call_duration_seconds
    then some (r.started_at + cfg.max_call_duration_seconds)
    else none

-- The earlier of two times that may be missing.
unfoldable pub earliest : Option ℕ → Option ℕ → Option ℕ
earliest none rules_end = rules_end
earliest (some cap) none = some cap
earliest (some cap) (some rules_end) = some (min rules_end cap)

-- The rest of `scheduleEndsAt` once the time is known, in seconds. The timer holds that time, also
-- where it is more than 2^31 - 1 milliseconds away and Node's `setTimeout` would fire at once.
unfoldable pub arm_ends_at : Config → ℕ → Option ℕ → Room → Room
unfolding close
arm_ends_at cfg now none r = r
arm_ends_at cfg now (some ends_at) r =
    if leb ends_at (now / 1000)
    then close cfg now r
    else record r { ends_at_timer = some (now + (ends_at - now / 1000) * 1000) }

-- `scheduleEndsAt`
unfoldable pub schedule_ends_at : Config → ℕ → Room → Room
unfolding arm_ends_at earliest
schedule_ends_at cfg now r =
    let cleared = record r { ends_at_timer = none } in
    if not (is_active r.status)
    then cleared
    else arm_ends_at cfg now (earliest (cap cfg r) r.rules.ends_at) cleared

unfoldable pub update_rules : Config → ℕ → RoomRules → Room → Room
unfolding schedule_ends_at
update_rules cfg now rules r = schedule_ends_at cfg now (record r { rules = rules })

unfoldable pub rearm_duration_limit : Config → ℕ → Room → Room
unfolding schedule_ends_at
rearm_duration_limit = schedule_ends_at

-- `start` up to its `await`; `none` is the exception "already started".
unfoldable pub start_begin : Room → Option Room
start_begin r = if is_starting r.status then some (emit (request_router ∷ []) r) else none

-- The rest of it, once there is a router, but for the last line.
unfoldable pub opened : ℕ → Room → Room
unfolding publish_active publish_beacons
opened now r =
    let active_room = record r { router = true; status = active; started_at = now / 1000 } in
    let watching = record (emit (subscribe_signals ∷ watch_membership ∷ []) active_room) {
      signal_unsub = true;
      membership_release = true;
    } in
    let published = publish_active (publish_beacons watching) in
    record published { beacon_timer = true; active_call_timer = true; reaper_timer = true }

unfoldable pub start_end : Config → ℕ → Room → Room
unfolding opened schedule_ends_at
start_end cfg now r = schedule_ends_at cfg now (opened now r)

-- The callback of the grace timer.
unfoldable pub empty_timer_fires : Config → ℕ → Room → Room
unfolding close
empty_timer_fires cfg now r =
    let fired = record r { empty_timer = none } in
    if is_empty r.peers && is_active r.status then close cfg now fired else fired

-- The callback of the end-of-call timer.
unfoldable pub ends_at_timer_fires : Config → ℕ → Room → Room
unfolding close
ends_at_timer_fires = close
