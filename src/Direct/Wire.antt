-- ===== src/Direct/Wire.antt =====
-- src/direct-rpc.ts: the socket's bytes, through the frame parser, to the connection. `decode` is
-- what UTF-8 and `JSON.parse` make of a payload.
pub mod Arrival
use obelisk_sfu.Prelude.{ℕ, String, Bool, List, [], ◌∷◌, map, Option}
use obelisk_sfu.Nostr.{Event}
use obelisk_sfu.Frames.Parser.{Signal, push}
use obelisk_sfu.Direct.{Url}
use obelisk_sfu.Direct.Connection.{Incoming, Connection}
use obelisk_sfu.Direct.Steps.{
  Setting, Input, text, close_received, ping_received, unsupported_received, run,
}

-- The callbacks that the parser is given.
abbrev pub callback : (List ℕ → Incoming) → Signal → Input
callback decode (Signal.text payload) = text (decode payload)
callback decode Signal.close = close_received
callback decode Signal.ping = ping_received
callback decode Signal.unsupported = unsupported_received

-- A connection and the buffer of its parser.
abbrev pub Wire : Type 0
Wire = Connection × List ℕ

module _ (verify_event : Event String → Bool) (parse_url : String → Option Url) (k : Setting)
    (decode : List ℕ → Incoming) where
  -- `socket.on('data', (chunk) => parser.push(chunk))`
  unfoldable pub receive : List ℕ → Wire → Wire
  unfolding push run
  receive chunk w =
      let d = push w.1 chunk in (run verify_event parse_url k (map (callback decode) d.0) w.0, d.1)

  unfoldable pub receive_all : List (List ℕ) → Wire → Wire
  unfolding receive
  receive_all [] w = w
  receive_all (chunk ∷ chunks) w = receive_all chunks (receive chunk w)
