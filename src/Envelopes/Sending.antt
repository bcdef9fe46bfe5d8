-- ===== src/Envelopes/Sending.antt =====
-- What is sent is read back.
use obelisk_sfu.Prelude.{String, true, false, Option, none, some, ◌==◌, ◌≡◌, ap, refl}
use obelisk_sfu.Envelopes.{
  Json, text, boolean, object, Members, nil, member, RpcEnvelope, request, response, error_response,
  notification, parse_error, parse_envelope,
}

-- `JSON.stringify` leaves out what is undefined.
abbrev pub with : String → Option Json → Members → Members
with key none rest = rest
with key (some v) rest = member key v rest

abbrev pub texts : Option String → Option Json
texts none = none
texts (some s) = some (text s)

-- The object of an envelope, its members in the order of the source.
abbrev pub send : RpcEnvelope → Json
send (request id method content client_id) = object (
    member "type" (text "request") (
      member "requestId" (text id) (
        member "method" (text method)
          (with "data" content (with "clientId" (texts client_id) nil)))))
send (response id content) = object (
    member "type" (text "response")
      (member "requestId" (text id) (member "ok" (boolean true) (with "data" content nil))))
send (error_response id error) = object (
    member "type" (text "response") (
      member "requestId" (text id) (
        member "ok" (boolean false) (
          member "error"
            (object (member "message" (text error.message) (with "code" (texts error.code) nil)))
            nil))))
send (notification method content) =
    object (
      member "type" (text "notification") (member "method" (text method) (with "data" content nil)))

-- A request has no empty client id.
abbrev pub IsNamed : RpcEnvelope → Type 0
IsNamed (request id method content none) = Unit {0}
IsNamed (request id method content (some c)) = (c == "") ≡ false
IsNamed (response id content) = Unit {0}
IsNamed (error_response id error) = Unit {0}
IsNamed (notification method content) = Unit {0}

parse_error-send :
    (message : String) (code : Option String)
    → parse_error (member "message" (text message) (with "code" (texts code) nil))
      ≡ record { message = message; code = code }
unfolding parse_error
parse_error-send message none = refl
parse_error-send message (some c) = refl

-- Every envelope that is sent, if it is not a request with an empty client id, is read back as it
-- is, its data and its error included.
pub parse_envelope-send : (e : RpcEnvelope) → IsNamed e → parse_envelope (some (send e)) ≡ some e
unfolding parse_envelope
parse_envelope-send (request id method none none) h = refl
parse_envelope-send (request id method (some v) none) h = refl
parse_envelope-send (request id method none (some c)) h = rw h refl
parse_envelope-send (request id method (some v) (some c)) h = rw h refl
parse_envelope-send (response id none) h = refl
parse_envelope-send (response id (some v)) h = refl
parse_envelope-send (error_response id error) h =
    ap (λ x. some (error_response id x)) (parse_error-send error.message error.code)
parse_envelope-send (notification method none) h = refl
parse_envelope-send (notification method (some v)) h = refl
