-- ===== src/Tests/Meeting.antt =====
-- The theorems on a room, at the sample room.
use obelisk_sfu.Prelude.{
  ℕ, false, List, [], ◌∷◌, none, some, ◌≡◌, ◌↔◌, ◌⊎◌, ◌≤◌, ◌==◌, if◌then◌else◌, refl, inr, any, max,
  length,
}
use obelisk_sfu.Map.{get, set, delete, values}
use obelisk_sfu.Config.{Config}
use obelisk_sfu.Room.{Room, new_room, peer_key, key_of, participants}
use obelisk_sfu.Room.Roster.{
  kick, get_or_create_peer, admitted, refused, drop_stale_peer, handle_peer_left, has_pubkey,
  capacity, new_peer,
}
use obelisk_sfu.Room.Roster.Capacity.{get_or_create_peer-capacity}
use obelisk_sfu.Room.Roster.Kicks.{without, get-kick, get-leave}
use obelisk_sfu.Room.Roster.Departures.{drop_stale_peer-eq-handle_peer_left}
use obelisk_sfu.Room.Lifetime.{start_end, schedule_ends_at}
use obelisk_sfu.Room.Lifetime.Limits.{IsLimited, schedule_ends_at-limits}
use obelisk_sfu.Room.Transports.{close_existing, recv, create_begin}
use obelisk_sfu.Prelude.{map, ◌++◌}
use obelisk_sfu.Room.{PeerState, answer, participant_list, peer_joined, fan_out, emit}
use obelisk_sfu.Room.Roster.{is_current}
use obelisk_sfu.Room.Transports.{create_end, announce_all}
use obelisk_sfu.Room.Transports.Ghosts.{create_end-detached}
use obelisk_sfu.Room.Transports.Renewal.{create_begin-detaches}
use obelisk_sfu.Room.Media.{leave}
use obelisk_sfu.Room.Reaper.{Stats, reap}
use obelisk_sfu.Room.Reaper.Verdicts.{IsSilent, reap-drops_iff}
use obelisk_sfu.Room.Dispatch.{dispatch_rpc_request, handle, create_web_rtc_transport, leaves}
use obelisk_sfu.Room.Events.{Event, run, step, requests, transport_made, grace_ends}
use obelisk_sfu.Room.Events.Entry.{IsEntry, IsInjection, step-IsEntry}
use obelisk_sfu.Room.Roster.{cancel_empty_timer}
use obelisk_sfu.Auth.{can_dial_room}
use obelisk_sfu.StringSet.{includes, distinct, add_all, add}
use obelisk_sfu.Room.Events.Histories.{run-IsValid}
use obelisk_sfu.Room.Invariant.{IsValid}
use obelisk_sfu.Room.Invariant.Entering.{OnAdmitted}
use obelisk_sfu.Tests.Samples.{cfg, rules, transport, phone, tablet, room, room-IsTable}

-- Somebody enters, is connected and leaves, and the grace time passes.
abbrev history : List (Config × ℕ × Event)
history =
    (cfg, 6000, requests [] "alice" "phone" (create_web_rtc_transport recv))
    ∷ (cfg, 6100, transport_made "alice" recv (new_peer 0 6000 "alice" "phone") transport)
    ∷ (cfg, 7000, requests [] "alice" "phone" leaves)
    ∷ (cfg, 37000, grace_ends)
    ∷ []

run-IsValid_example : IsValid (run history (start_end cfg 5000 (new_room "channel" "alice" rules)))
run-IsValid_example = run-IsValid cfg 5000 "channel" "alice" rules history

-- A second device of bob asks for a transport.
abbrev asking : Event
asking = requests [] "bob" "phone" (create_web_rtc_transport recv)

not_yet : get "bob|phone" room.peers ≡ none
unfolding get
not_yet = refl

now_there : get "bob|phone" (step cfg 9000 asking room).peers ≡ some (new_peer 3 9000 "bob" "phone")
unfolding step dispatch_rpc_request handle create_begin get_or_create_peer close_existing get set
    peer_key can_dial_room includes participants distinct add_all add cancel_empty_timer
now_there = refl

step-IsEntry_example :
    IsEntry cfg 9000 asking "bob|phone" room ⊎ IsInjection asking "bob|phone" room
step-IsEntry_example =
    step-IsEntry cfg 9000 asking "bob|phone" (new_peer 3 9000 "bob" "phone") room not_yet now_there

get-kick_example :
    get "alice|phone" (kick cfg 9000 "alice" none room).peers
    ≡ without "alice" (get "alice|phone" room.peers)
get-kick_example = get-kick cfg 9000 "alice" none room "alice|phone" room-IsTable

get-leave_example :
    get "alice|laptop" (leave cfg 9000 "alice" "phone" room).peers
    ≡ (if peer_key "alice" "phone" == "alice|laptop" then none else get "alice|laptop" room.peers)
get-leave_example = get-leave cfg 9000 "alice" "phone" room "alice|laptop" room-IsTable

-- A room of three users takes a third one.
abbrev roomy : Config
roomy = record cfg { max_participants_per_room = 3 }

abbrev carol : PeerState
carol = new_peer 3 9000 "carol" "phone"

abbrev joined : Room
joined = elim (get_or_create_peer roomy 9000 "carol" "phone" room) [
  | admitted p r' ↦ r'
  | refused e ↦ room
]

carol_admitted : get_or_create_peer roomy 9000 "carol" "phone" room ≡ admitted carol joined
unfolding get_or_create_peer get participants distinct add_all add includes peer_key
carol_admitted = refl

three : length (participants joined.peers) ≡ 3
unfolding get_or_create_peer get set participants distinct add_all add includes peer_key
    cancel_empty_timer
three = refl

get_or_create_peer-capacity_example :
    length (participants joined.peers)
    ≤ max (length (participants room.peers)) (capacity roomy room)
get_or_create_peer-capacity_example =
    get_or_create_peer-capacity roomy 9000 "carol" "phone" room joined carol carol_admitted

bob_alone : any (has_pubkey tablet.pubkey) (values (delete (key_of tablet) room.peers)) ≡ false
unfolding peer_key delete
bob_alone = refl

bob_there : get (key_of tablet) room.peers ≡ some tablet
unfolding peer_key get
bob_there = refl

drop_stale_peer-eq-handle_peer_left_example :
    drop_stale_peer cfg 9000 tablet room ≡ handle_peer_left cfg 9000 tablet room
drop_stale_peer-eq-handle_peer_left_example =
    drop_stale_peer-eq-handle_peer_left cfg 9000 tablet room bob_there bob_alone

schedule_ends_at-limits_example : IsLimited 9000 100 (schedule_ends_at cfg 9000 room)
schedule_ends_at-limits_example = schedule_ends_at-limits cfg 9000 100 room refl (inr refl)

-- No packet has come in.
abbrev stats : Stats
stats id = some (some 0 ∷ none ∷ [])

reap-drops_iff_example :
    (get (key_of tablet) (reap cfg 40000 stats room).peers ≡ none) ↔ IsSilent 40000 stats tablet
reap-drops_iff_example =
    reap-drops_iff cfg 40000 stats (key_of tablet) tablet room refl room-IsTable bob_there

phone_there : get (peer_key "alice" "phone") room.peers ≡ some phone
unfolding peer_key get
phone_there = refl

create_begin-detaches_example :
    OnAdmitted
      (λ _ r'. get (peer_key "alice" "phone") r'.peers ≡ none)
      (create_begin cfg 9000 "alice" "phone" recv room)
create_begin-detaches_example =
    create_begin-detaches cfg 9000 "alice" "phone" recv phone transport room room-IsTable refl
      phone_there refl refl

-- The sample room without carol's phone, for which a transport is ready.
abbrev left_phone : PeerState
left_phone = new_peer 9 8000 "carol" "phone"

phone_left : is_current left_phone room.peers ≡ false
unfolding is_current get peer_key
phone_left = refl

create_end-detached_example :
    create_end "carol" recv left_phone transport room
    ≡ emit
        (answer (participant_list (distinct (map (λ q. q.pubkey) (values room.peers))))
          ∷ (announce_all "carol" (values room.peers)
              ++ fan_out (peer_joined "carol") (values room.peers)))
        room
create_end-detached_example = create_end-detached "carol" left_phone transport room phone_left refl
