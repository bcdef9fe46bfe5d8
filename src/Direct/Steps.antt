-- ===== src/Direct/Steps.antt =====
-- src/direct-rpc.ts: the texts of a connection, one after another, and what else happens to it
-- between: the callbacks of the frame parser, the timer, the end of the socket, and the rooms,
-- which others change too.
use obelisk_sfu.Prelude.{
  ℕ, String, Bool, false, not, List, [], ◌∷◌, ◌++◌, Option, none, some, is_text, value_or,
  if◌then◌else◌,
}
use obelisk_sfu.Config.{Config}
use obelisk_sfu.Nostr.{Event}
use obelisk_sfu.Auth.{is_allowed_to_start}
use obelisk_sfu.Rooms.{RoomManager, start_ready, start_fails}
use obelisk_sfu.Direct.{Url, is_client_id, verify_auth_event}
use obelisk_sfu.Direct.Connection.{
  Body, Incoming, invalid_json, invalid_message, object, pong, response, Wait, idle, starts, asks,
  Connection, send, close_with, cleanup, admit, enter, handle_request,
}

-- What a connection is given: the limits, the key of the server, the challenge that was sent, and
-- the URL of the request.
pub record Setting : Type 0 where
  pub cfg : Config
  pub sfu_pubkey : String
  pub channel_id : String
  pub challenge : String
  pub expected_url : String
  pub id : ℕ

pub data Input : Type 0 where
  text : Incoming → Input
  -- the next text of the chain is handled; `now` in seconds, then in milliseconds
  turn : ℕ → ℕ → List String → Input
  started : ℕ → Input
  start_failed answered : Input
  close_received ping_received unsupported_received : Input
  auth_timeout : Input
  socket_closed : ℕ → Input
  rooms_change : RoomManager → Input

module _ (verify_event : Event String → Bool) (parse_url : String → Option Url) (k : Setting) where
  -- The user that an authentication event shows.
  unfoldable pub verified : ℕ → Body → Option String
  unfolding verify_auth_event
  verified now body =
      verify_auth_event verify_event parse_url now k.challenge k.channel_id k.expected_url
        body.event

  unfoldable pub enter_if_allowed : ℕ → String → Option String → Connection → Connection
  unfolding close_with enter is_allowed_to_start
  enter_if_allowed now client_id none c = close_with 4401 "bad auth" c
  enter_if_allowed now client_id (some pubkey) c =
      if not (is_allowed_to_start k.cfg now k.sfu_pubkey pubkey)
      then close_with 4403 "not whitelisted" c
      else enter k.cfg k.channel_id k.id pubkey client_id c

  unfoldable pub handle_auth : ℕ → Body → Connection → Connection
  unfolding close_with is_client_id verified enter_if_allowed
  handle_auth now body c =
      if not (is_text body.type "auth")
      then close_with 4401 "auth required" c
      else if not (is_client_id (value_or body.client_id ""))
      then close_with 4401 "invalid client id" c
      else enter_if_allowed now (value_or body.client_id "") (verified now body) c

  -- `handleText` up to its first `await`
  unfoldable pub handle_text : ℕ → ℕ → List String → Incoming → Connection → Connection
  unfolding close_with handle_auth handle_request
  handle_text now now_ms members invalid_json c = close_with 1007 "invalid json" c
  handle_text now now_ms members invalid_message c = close_with 1007 "invalid message" c
  handle_text now now_ms members (object body) c =
      if c.authed
      then handle_request k.cfg k.channel_id k.id now_ms members body c
      else handle_auth now body c

  unfoldable pub take_turn : ℕ → ℕ → List String → Wait → List Incoming → Connection → Connection
  unfolding handle_text
  take_turn now now_ms members idle (t ∷ ts) c =
      handle_text now now_ms members t (record c { chain = ts })
  take_turn now now_ms members w ts c = c

  unfoldable pub resume : ℕ → Wait → Connection → Connection
  unfolding admit start_ready
  resume now_ms (starts pubkey client_id ref) c =
      admit k.cfg k.channel_id k.id pubkey client_id ref
        (record c { wait = idle; rooms = start_ready k.cfg now_ms k.channel_id ref c.rooms })
  resume now_ms w c = c

  unfoldable pub fail : Wait → Connection → Connection
  unfolding close_with start_fails
  fail (starts pubkey client_id ref) c =
      close_with 1011 "handler error"
        (record c { wait = idle; rooms = start_fails k.channel_id c.rooms })
  fail w c = c

  unfoldable pub reply : Wait → Connection → Connection
  reply (asks o) c = send (response o) (record c { wait = idle })
  reply w c = c

  unfoldable pub step : Input → Connection → Connection
  unfolding take_turn resume fail reply close_with cleanup
  step (text t) c = record c { chain = c.chain ++ t ∷ [] }
  step (turn now now_ms members) c = take_turn now now_ms members c.wait c.chain c
  step (started now_ms) c = resume now_ms c.wait c
  step start_failed c = fail c.wait c
  step answered c = reply c.wait c
  step close_received c = close_with 1000 "client closed" c
  step ping_received c = send pong c
  step unsupported_received c = close_with 1003 "unsupported frame" c
  step auth_timeout c =
      if c.timer then close_with 4401 "auth timeout" (record c { timer = false }) else c
  step (socket_closed now_ms) c = cleanup k.cfg k.channel_id k.id now_ms c
  step (rooms_change m) c = record c { rooms = m }

  -- Inputs one after another, the earliest first.
  unfoldable pub run : List Input → Connection → Connection
  unfolding step
  run [] c = c
  run (i ∷ is) c = run is (step i c)
