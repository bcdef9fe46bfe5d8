-- ===== src/Envelopes.antt =====
-- src/nostr-rpc.ts: the envelopes of requests, responses and notifications, read from JSON values
-- and sent as such, and `dispatchRequest`.
pub mod Sending
use Prim.Native.String
use obelisk_sfu.Prelude.{
  String, Bool, true, false, Option, none, some, ◌==◌, if◌then◌else◌, value_or,
}

-- A JSON value: a number is its text, an object has its members in order.
mutual
  pub data Json : Type 0 where
    null : Json
    boolean : Bool → Json
    number : String → Json
    text : String → Json
    array : Members → Json
    object : Members → Json

  pub data Members : Type 0 where
    nil : Members
    member : String → Json → Members → Members

-- `obj[key]`
unfoldable pub field : String → Members → Option Json
field key nil = none
field key (member k v rest) = if k == key then some v else field key rest

-- `typeof x === 'string' ? x : undefined`
abbrev pub as_text : Option Json → Option String
as_text (some (text s)) = some s
as_text (some null) = none
as_text (some (boolean b)) = none
as_text (some (number n)) = none
as_text (some (array m)) = none
as_text (some (object m)) = none
as_text none = none

-- `typeof x === 'boolean' ? x : undefined`
abbrev pub as_boolean : Option Json → Option Bool
as_boolean (some (boolean b)) = some b
as_boolean (some null) = none
as_boolean (some (text s)) = none
as_boolean (some (number n)) = none
as_boolean (some (array m)) = none
as_boolean (some (object m)) = none
as_boolean none = none

-- `(x as Record<string, unknown> | undefined) ?? {}`
abbrev pub as_members : Option Json → Members
as_members (some (object m)) = m
as_members (some null) = nil
as_members (some (boolean b)) = nil
as_members (some (text s)) = nil
as_members (some (number n)) = nil
as_members (some (array m)) = nil
as_members none = nil

pub record RpcError : Type 0 where
  pub message : String
  pub code : Option String

-- Absent data is `none`.
pub data RpcEnvelope : Type 0 where
  request : String → String → Option Json → Option String → RpcEnvelope
  response : String → Option Json → RpcEnvelope
  error_response : String → RpcError → RpcEnvelope
  notification : String → Option Json → RpcEnvelope

-- An empty `clientId` counts as absent.
abbrev pub unless_empty : Option String → Option String
unless_empty none = none
unless_empty (some s) = if s == "" then none else some s

unfoldable pub parse_request : Members → Option String → Option String → Option RpcEnvelope
unfolding field
parse_request obj (some id) (some method) =
    some (request id method (field "data" obj) (unless_empty (as_text (field "clientId" obj))))
parse_request obj (some id) none = none
parse_request obj none method = none

unfoldable pub parse_error : Members → RpcError
unfolding field
parse_error err = record {
  message = value_or (as_text (field "message" err)) "unknown error";
  code = as_text (field "code" err);
}

unfoldable pub parse_response : Members → Option String → Option Bool → Option RpcEnvelope
unfolding field parse_error
parse_response obj (some id) (some true) = some (response id (field "data" obj))
parse_response obj (some id) (some false) =
    some (error_response id (parse_error (as_members (field "error" obj))))
parse_response obj (some id) none = none
parse_response obj none is_ok = none

unfoldable pub parse_notification : Members → Option String → Option RpcEnvelope
unfolding field
parse_notification obj (some method) = some (notification method (field "data" obj))
parse_notification obj none = none

unfoldable pub parse_typed : Members → String → Option RpcEnvelope
unfolding parse_request parse_response parse_notification
parse_typed obj type =
    if type == "request"
    then parse_request obj (as_text (field "requestId" obj)) (as_text (field "method" obj))
    else if type == "response"
    then parse_response obj (as_text (field "requestId" obj)) (as_boolean (field "ok" obj))
    else if type == "notification"
    then parse_notification obj (as_text (field "method" obj))
    else none

-- `parseEnvelope`; `none` is a text that `JSON.parse` refuses.
unfoldable pub parse_envelope : Option Json → Option RpcEnvelope
unfolding parse_typed
parse_envelope (some (object obj)) = parse_typed obj (value_or (as_text (field "type" obj)) "")
parse_envelope (some null) = none
parse_envelope (some (boolean b)) = none
parse_envelope (some (text s)) = none
parse_envelope (some (number n)) = none
parse_envelope (some (array m)) = none
parse_envelope none = none

-- What a handler does: it returns data, or throws.
pub data Result : Type 0 where
  returns : Option Json → Result
  throws : String → Option String → Result

-- The response for what the handler of the method does, `none` where there is no such handler. An
-- empty code counts as none.
unfoldable pub dispatch_request : String → String → Option Result → RpcEnvelope
dispatch_request id method none =
    error_response id
      (record { message = String.◌++◌ "unknown method: " method; code = some "METHOD_NOT_FOUND" })
dispatch_request id method (some (returns result)) = response id result
dispatch_request id method (some (throws message code)) =
    error_response id (record { message = message; code = unless_empty code })
