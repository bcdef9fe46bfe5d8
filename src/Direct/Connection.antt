-- ===== src/Direct/Connection.antt =====
-- src/direct-rpc.ts: one connection of `handleUpgrade`. `handleText` is cut at its `await`s, and
-- the chain of promises, which runs one text at a time, is a queue. `id` is the identity of the
-- connection's `send` callback. What the room sends to this client by `notify` is among its own
-- effects.
use obelisk_sfu.Prelude.{
  ℕ, String, Bool, true, false, not, List, [], ◌∷◌, ◌++◌, Option, none, some, is_text, leb, length,
  nat_eq, if◌then◌else◌,
}
use obelisk_sfu.Config.{Config}
use obelisk_sfu.Types.{RoomRules}
use obelisk_sfu.Nostr.{Event}
use obelisk_sfu.Map.{get}
use obelisk_sfu.Room.{Room}
use obelisk_sfu.Room.Roster.{room_not_active}
use obelisk_sfu.Room.Media.{handle_direct_disconnect}
use obelisk_sfu.Room.Dispatch.{Method, Outcome, fails, dispatch_rpc_request}
use obelisk_sfu.Room.Notices.{register_direct_session, unregister_direct_session}
use obelisk_sfu.Rooms.{RoomManager, settle, start_begin}

abbrev pub default_rules : RoomRules
default_rules = record {
  video = true;
  screen = true;
  allow = none;
  deny = [];
  max_participants = none;
  ends_at = none;
}

-- The object of a message. A `clientId` that is no string counts as absent; `method` is the
-- request that it is.
pub record Body : Type 0 where
  pub type : Option String
  pub client_id : Option String
  pub event : Option (Event String)
  pub method : Method

-- What `JSON.parse` makes of a text.
pub data Incoming : Type 0 where
  invalid_json invalid_message : Incoming
  object : Body → Incoming

-- What goes over the socket.
pub data Sent : Type 0 where
  auth_challenge pong : Sent
  auth_ok : String → String → Sent
  response : Outcome → Sent
  close_frame : ℕ → String → Sent

-- What `handleText` awaits: nothing, the start of a room for a user, or the room's answer.
pub data Wait : Type 0 where
  idle : Wait
  starts : String → String → ℕ → Wait
  asks : Outcome → Wait

pub record Connection : Type 0 where
  pub closing : Bool
  pub cleaned : Bool
  pub authed : Bool
  pub pubkey : Option String
  pub client_id : Option String
  pub room : Option ℕ
  pub unregister : Bool
  pub timer : Bool
  pub chain : List Incoming
  pub wait : Wait
  pub sent : List Sent
  pub rooms : RoomManager

unfoldable pub opened : RoomManager → Connection
opened rooms = record {
  closing = false;
  cleaned = false;
  authed = false;
  pubkey = none;
  client_id = none;
  room = none;
  unregister = false;
  timer = true;
  chain = [];
  wait = idle;
  sent = auth_challenge ∷ [];
  rooms = rooms;
}

abbrev pub send : Sent → Connection → Connection
send x c = record c { sent = c.sent ++ x ∷ [] }

-- `closeWith`
unfoldable pub close_with : ℕ → String → Connection → Connection
close_with code reason c =
    if c.closing then c else send (close_frame code reason) (record c { closing = true })

-- A method of the room object `ref`, which is that of the table or one that has closed.
unfoldable pub on_room : String → ℕ → (Room → Room) → RoomManager → RoomManager
unfolding settle
on_room channel_id ref f m = elim (get channel_id m.rooms) [
  | none ↦ m
  | some h ↦ if nat_eq h.ref ref then settle channel_id h (f h.room) m else m
]

module _ (cfg : Config) (channel_id : String) (id : ℕ) where
  -- The rooms after the calls of `cleanup`.
  unfoldable pub leave_room : ℕ → Connection → RoomManager
  unfolding on_room unregister_direct_session handle_direct_disconnect
  leave_room now c = elim c.pubkey [
    | none ↦ c.rooms
    | some pubkey ↦ elim c.client_id [
      | none ↦ c.rooms
      | some client_id ↦ elim c.room [
        | none ↦ c.rooms
        | some ref ↦
            let left =
              if c.unregister
              then on_room channel_id ref (unregister_direct_session pubkey client_id id) c.rooms
              else c.rooms in
            if c.authed
            then on_room channel_id ref (handle_direct_disconnect cfg now pubkey client_id) left
            else left
      ]
    ]
  ]

  -- `cleanup`
  unfoldable pub cleanup : ℕ → Connection → Connection
  unfolding leave_room
  cleanup now c =
      if c.cleaned
      then c
      else record c { cleaned = true; timer = false; unregister = false; rooms = leave_room now c }

  -- `handleText` from the registration on.
  unfoldable pub admit : String → String → ℕ → Connection → Connection
  unfolding on_room register_direct_session
  admit pubkey client_id ref c = send (auth_ok pubkey client_id) (record c {
    pubkey = some pubkey;
    client_id = some client_id;
    room = some ref;
    rooms = on_room channel_id ref (register_direct_session pubkey client_id id) c.rooms;
    unregister = true;
    authed = true;
    timer = false;
  })

  -- The room to enter: the one of the channel, or a new one.
  unfoldable pub enter : String → String → Connection → Connection
  unfolding close_with admit start_begin
  enter verified client_id c = elim (get channel_id c.rooms.rooms) [
    | some h ↦ admit verified client_id h.ref c
    | none ↦
        if c.rooms.draining
        then close_with 4403 "sfu draining" c
        else if leb cfg.max_rooms (length c.rooms.rooms)
        then close_with 4403 "max rooms reached" c
        else elim (start_begin channel_id verified default_rules c.rooms) [
          | none ↦ close_with 1011 "handler error" c
          | some m ↦ record c { wait = starts verified client_id c.rooms.next_room; rooms = m }
        ]
  ]

  -- The request goes to the room object of this session.
  unfoldable pub ask : ℕ → List String → String → String → ℕ → Method → Connection → Connection
  unfolding settle dispatch_rpc_request
  ask now members pubkey client_id ref method c = elim (get channel_id c.rooms.rooms) [
    | none ↦ record c { wait = asks (fails room_not_active) }
    | some h ↦
        if nat_eq h.ref ref
        then (let answer = dispatch_rpc_request cfg now members pubkey client_id method h.room in
            record c { wait = asks answer.0; rooms = settle channel_id h answer.1 c.rooms })
        else record c { wait = asks (fails room_not_active) }
  ]

  unfoldable pub handle_request : ℕ → List String → Body → Connection → Connection
  unfolding close_with ask
  handle_request now members body c =
      if not (is_text body.type "request")
      then close_with 1003 "expected request" c
      else elim c.pubkey [
        | none ↦ close_with 1011 "session not ready" c
        | some pubkey ↦ elim c.client_id [
          | none ↦ close_with 1011 "session not ready" c
          | some client_id ↦ elim c.room [
            | none ↦ close_with 1011 "session not ready" c
            | some ref ↦ ask now members pubkey client_id ref body.method c
          ]
        ]
      ]
