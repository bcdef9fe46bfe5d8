-- ===== src/Tests/Sockets.antt =====
-- The frames of two clients, and a connection from its authentication to an answered request.
use obelisk_sfu.Prelude.{
  ℕ, String, Bool, true, List, [], ◌∷◌, Option, none, some, ◌≡◌, refl, arith, if◌then◌else◌,
}
use obelisk_sfu.Nostr.{Event, find_tag}
use obelisk_sfu.Rooms.{RoomHandle, RoomManager, empty, start_ready}
use obelisk_sfu.Room.{peer_key, new_room}
use obelisk_sfu.Room.Dispatch.{get_router_rtp_capabilities}
use obelisk_sfu.Room.Notices.{register, unregister, recipients}
use obelisk_sfu.Room.Notices.Recipients.{recipients-register, unregister-register}
use obelisk_sfu.Frames.{read_head}
use obelisk_sfu.Frames.Masks.{unmask}
use obelisk_sfu.Map.{get, set}
use obelisk_sfu.StringSet.{includes}
use obelisk_sfu.Texts.{is_hex64, to_lower_case}
use obelisk_sfu.Room.Lifetime.{start_begin, start_end}
use obelisk_sfu.Frames.Parser.{drain, drain_rounds}
use obelisk_sfu.Frames.Rounds.{drain_rounds-enough}
use obelisk_sfu.Frames.Chunks.{pushes, concat, pushes-concat}
use obelisk_sfu.Frames.Clients.{Message, send_all, texts, pushes-send_all}
use obelisk_sfu.Direct.{Url}
use obelisk_sfu.Direct.Connection.{Incoming, object, Connection, opened, default_rules, cleanup}
use obelisk_sfu.Direct.Steps.{
  Setting, Input, text, turn, started, answered, close_received, unsupported_received,
  socket_closed, step, run,
}
use obelisk_sfu.Direct.Guard.{Shown}
use obelisk_sfu.Direct.Guard.Histories.{answers-Shown}
use obelisk_sfu.Direct.Closing.{closes, closes-run}
use obelisk_sfu.Direct.Wire.{receive_all}
use obelisk_sfu.Direct.Wire.Arrival.{receive_all-send_all}
use obelisk_sfu.Direct.Leaks.{IsRegistered, unregister-started}
use obelisk_sfu.Tests.Samples

-- "hi" and "", each with its mask.
abbrev messages : List Message
messages =
    record { a = 1; b = 2; c = 3; d = 4; payload = 104 ∷ 105 ∷ [] }
    ∷ record { a = 250; b = 0; c = 7; d = 9; payload = [] }
    ∷ []

-- The same bytes, cut inside the head of the first frame and inside the mask of the second.
abbrev chunks : List (List ℕ)
chunks =
    (129 ∷ []) ∷ (130 ∷ 1 ∷ 2 ∷ 3 ∷ 4 ∷ 105 ∷ 107 ∷ 129 ∷ 128 ∷ 250 ∷ []) ∷ (0 ∷ 7 ∷ 9 ∷ []) ∷ []

drain_rounds-enough_example :
    drain_rounds 14 (send_all messages) ≡ drain_rounds 20 (send_all messages)
unfolding unmask
drain_rounds-enough_example =
    drain_rounds-enough 14 20 (send_all messages) (omega arith) (omega arith)

pushes-concat_example : pushes [] chunks ≡ drain (concat chunks)
unfolding drain read_head
pushes-concat_example = pushes-concat chunks (tt, (tt, tt))

pushes-send_all_example : pushes [] chunks ≡ (texts messages, [])
unfolding unmask
pushes-send_all_example = pushes-send_all messages chunks (omega arith) refl

abbrev alice : String
alice = "a11ce00000000000000000000000000000000000000000000000000000000000"

abbrev bob : String
bob = "b0b0000000000000000000000000000000000000000000000000000000000000"

abbrev sessions : List (String × List ℕ)
sessions = (peer_key bob "phone", 7 ∷ []) ∷ []

recipients-register_example :
    recipients bob (register (peer_key alice "tab") 8 sessions) ≡ recipients bob sessions
recipients-register_example = recipients-register bob alice "tab" 8 sessions refl refl

unregister-register_example :
    unregister (peer_key bob "phone") 8 (register (peer_key bob "phone") 8 sessions) ≡ sessions
unfolding peer_key get
unregister-register_example = unregister-register (peer_key bob "phone") 8 sessions tt refl

abbrev setting : Setting
setting = record {
  cfg = record Samples.cfg { allowed_pubkeys = alice ∷ [] };
  sfu_pubkey = "5f";
  channel_id = "0a";
  challenge = "challenge";
  expected_url = "wss://sfu/rpc?channelId=0a";
  id = 8;
}

abbrev event : Event String
event = record {
  id = "1";
  pubkey = alice;
  kind = 22242;
  created_at = 100;
  tags =
      ("challenge" ∷ "challenge" ∷ [])
      ∷ ("e" ∷ "0a" ∷ [])
      ∷ ("relay" ∷ "wss://sfu/rpc?channelId=0a" ∷ [])
      ∷ [];
  content = some "";
}

abbrev verify_event : Event String → Bool
verify_event ev = true

abbrev parse_url : String → Option Url
parse_url s = none

abbrev auth : Incoming
auth = object (record {
  type = some "auth";
  client_id = some "tab";
  event = some event;
  method = get_router_rtp_capabilities;
})

abbrev request : Incoming
request = object (record {
  type = some "request";
  client_id = none;
  event = none;
  method = get_router_rtp_capabilities;
})

abbrev history : List Input
history =
    text auth
    ∷ turn 100 100000 []
    ∷ text request
    ∷ started 100001
    ∷ turn 101 101000 []
    ∷ answered
    ∷ unsupported_received
    ∷ close_received
    ∷ []

abbrev Anything : Input → Type 0
Anything i = Unit {0}

answers-Shown_example :
    (pk : String) × ((run verify_event parse_url setting history (opened empty)).pubkey ≡ some pk)
    × Shown verify_event parse_url setting Anything pk
unfolding run opened find_tag is_hex64 to_lower_case includes get start_begin new_room set start_end
answers-Shown_example =
    answers-Shown verify_event parse_url setting Anything history empty (omega arith) refl

closes-run_example :
    closes (run verify_event parse_url setting history (opened empty)).sent
    ≡ (if (run verify_event parse_url setting history (opened empty)).closing then 1 else 0)
closes-run_example = closes-run setting verify_event parse_url history empty

-- The socket closes while the room of alice starts.
abbrev closed : Connection
closed =
    run verify_event parse_url setting (text auth ∷ turn 100 100000 [] ∷ socket_closed 100000 ∷ [])
      (opened empty)

abbrev ready : RoomManager
ready = start_ready setting.cfg 100001 "0a" 0 closed.rooms

abbrev hosted : RoomHandle
hosted = elim (get "0a" ready.rooms) [
  | some h ↦ h
  | none ↦ record { ref = 9; room = new_room "0a" alice default_rules }
]

unregister-started_example :
    let c' = step verify_event parse_url setting (started 100001) closed in
    let c'' = run verify_event parse_url setting (socket_closed 100002 ∷ []) c' in
    IsRegistered setting alice "tab" c'.rooms
    × (c''.unregister ≡ true)
    × (step verify_event parse_url setting (socket_closed 100003) c'' ≡ c'')
unfolding run step opened find_tag is_hex64 to_lower_case includes get set start_begin new_room
    start_end start_ready cleanup
unregister-started_example =
    unregister-started setting verify_event parse_url 100001 100003 0 alice "tab" hosted closed
      (socket_closed 100002 ∷ []) refl refl refl refl refl

-- The text is the request, whatever its bytes.
abbrev decode : List ℕ → Incoming
decode payload = request

receive_all-send_all_example :
    receive_all verify_event parse_url setting decode chunks (opened empty, [])
    ≡ (record (opened empty) { chain = request ∷ request ∷ [] }, [])
unfolding unmask opened
receive_all-send_all_example =
    receive_all-send_all verify_event parse_url setting decode messages chunks (opened empty)
      (omega arith) refl
