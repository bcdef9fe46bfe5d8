-- ===== src/Room/Dispatch.antt =====
-- The door of the room: `dispatchRpcRequest` with the table of handlers, up to the first `await`
-- of the handler, and `dispatchRequest` of src/nostr-rpc.ts, which turns errors into responses.
use obelisk_sfu.Prelude.{ℕ, String, Bool, true, false, not, ◌&&◌, List, Option, if◌then◌else◌}
use obelisk_sfu.Config.{Config}
use obelisk_sfu.Auth.{DialDecision, ok, can_dial_room}
use obelisk_sfu.Room.{Room, PeerState, MediaKind}
use obelisk_sfu.Room.Roster.{
  is_active, Admission, admitted, refused, RpcCode, room_not_active, dial_rejected, no_router,
  method_not_found,
}
use obelisk_sfu.Room.Transports.{Direction, create_begin, Connect, connects, done, connect_begin}
use obelisk_sfu.Room.Media.{
  Pending, waits, produce_begin, consume_begin, resume_begin, Closing, closes,
  close_producer_request, leave,
}

-- The methods and their data. `can_consume` is what the router answers to `canConsume`.
pub data Method : Type 0 where
  get_router_rtp_capabilities : Method
  create_web_rtc_transport : Direction → Method
  connect_web_rtc_transport : String → Method
  produce : String → MediaKind → Option String → Method
  consume : String → Bool → Method
  resume_consumer : String → Method
  close_producer : String → Method
  leaves : Method
  unknown : String → Method

-- The response at once, or the peer for which mediasoup is asked, beside the new state.
pub data Outcome : Type 0 where
  fails : RpcCode → Outcome
  succeeds : Outcome
  waits_for : PeerState → Outcome
  waits_to_connect : Outcome

abbrev pub is_leave : Method → Bool
is_leave leaves = true
is_leave _ = false

abbrev pub from_admission : Room → Admission → Outcome × Room
from_admission r (refused e) = (fails e, r)
from_admission r (admitted p r') = (waits_for p, r')

abbrev from_connect : Connect → Outcome
from_connect connects = waits_to_connect
from_connect done = succeeds
from_connect (Connect.fails e) = fails e

abbrev from_pending : Pending → Outcome
from_pending (Pending.fails e) = fails e
from_pending (waits p) = waits_for p

abbrev pub from_closing : Room → Closing → Outcome × Room
from_closing r (Closing.fails e) = (fails e, r)
from_closing r (closes r') = (succeeds, r')

module _ (cfg : Config) (now : ℕ) (from client_id : String) where
  -- `handlers[method]`
  unfoldable pub handle : Method → Room → Outcome × Room
  unfolding create_begin connect_begin produce_begin consume_begin resume_begin
      close_producer_request leave
  handle get_router_rtp_capabilities r = (if r.router then succeeds else fails no_router, r)
  handle (create_web_rtc_transport direction) r =
      from_admission r (create_begin cfg now from client_id direction r)
  handle (connect_web_rtc_transport id) r = (from_connect (connect_begin from client_id id r), r)
  handle (produce transport_id kind raw_kind) r =
      (from_pending (produce_begin from client_id transport_id r), r)
  handle (consume producer_id can_consume) r =
      (from_pending (consume_begin from client_id can_consume r), r)
  handle (resume_consumer id) r = (from_pending (resume_begin from client_id id r), r)
  handle (close_producer id) r = from_closing r (close_producer_request from client_id id r)
  handle leaves r = (succeeds, leave cfg now from client_id r)
  handle (unknown name) r = (fails method_not_found, r)

-- What `canDialRoom` says of a sender; `members` is what the membership tracker knows.
abbrev pub dial : List String → String → Room → DialDecision
dial members from r =
    can_dial_room
      (record { rules = r.rules; members = members; host_pubkey = r.host_pubkey; sender = from })

abbrev pub passes : DialDecision → Bool
passes ok = true
passes _ = false

-- `dispatchRpcRequest`
unfoldable pub dispatch_rpc_request :
    Config → ℕ → List String → String → String → Method → Room → Outcome × Room
unfolding handle
dispatch_rpc_request cfg now members from client_id method r =
    if not (is_active r.status)
    then (fails room_not_active, r)
    else if not (is_leave method) && not (passes (dial members from r))
    then (fails dial_rejected, r)
    else handle cfg now from client_id method r
