-- ===== src/Room.antt =====
-- src/room-mediasoup.ts, the class `MediasoupRoom`: its state, and what it sends.
pub mod Roster
pub mod Lifetime
pub mod Transports
pub mod Media
pub mod Reaper
pub mod Injection
pub mod Dispatch
pub mod Invariant
pub mod Events
pub mod Notices
use Prim.Native.String
use obelisk_sfu.Prelude.{
  ℕ, String, Bool, false, List, [], ◌∷◌, ◌++◌, map, Option, none, some, is_some, length,
  if◌then◌else◌,
}
use obelisk_sfu.Map.{Map, values}
use obelisk_sfu.StringSet.{distinct}
use obelisk_sfu.Types.{RoomRules, RoomStatus, starting, RoomSnapshot}

pub data MediaKind : Type 0 where
  audio video : MediaKind

pub data VoiceKind : Type 0 where
  audio camera screen screen_audio : VoiceKind

pub data DtlsState : Type 0 where
  new connecting connected failed closed : DtlsState

-- The objects of mediasoup, as far as the room reads them.
pub record WebRtcTransport : Type 0 where
  pub id : String
  pub dtls_state : DtlsState

pub record Producer : Type 0 where
  pub id : String
  pub kind : MediaKind

pub record Consumer : Type 0 where
  pub id : String
  pub kind : MediaKind

pub record AppData : Type 0 where
  pub kind : VoiceKind
  pub origin_pubkey : String

-- `PeerState`. `ref` is the identity of the object, which `===` compares; an armed timer of
-- `unhealthyTimers` holds its cause, and a plain transport its id.
pub record PeerState : Type 0 where
  pub ref : ℕ
  pub pubkey : String
  pub client_id : String
  pub send_transport : Option WebRtcTransport
  pub recv_transport : Option WebRtcTransport
  pub producers : Map Producer
  pub consumers : Map Consumer
  pub plain_transports : Map String
  pub producer_app_data : Map AppData
  pub unhealthy_timers : Map String
  pub last_inbound_packet_at : ℕ
  pub last_seen_packet_count : ℕ
  pub joined_at : ℕ

-- The notifications, by their `method` and `data`.
pub data Notification : Type 0 where
  new_producer : String → MediaKind → Option AppData → Notification
  producer_closed : String → Notification
  peer_joined : String → Notification
  peer_left : String → Notification
  participant_list : List String → Notification
  kicked : Option String → Notification

-- What the room does to the world outside, in order. `notify to` is a call of `sendNotification`,
-- `answer` one of the `notify` of the request's context.
pub data Effect : Type 0 where
  notify : String → Notification → Effect
  answer : Notification → Effect
  publish_active_call : RoomStatus → ℕ → Effect
  publish_beacon : List String → Effect
  close_consumer close_producer close_plain_transport close_transport : String → Effect
  request_router close_router : Effect
  subscribe_signals unsubscribe_signals : Effect
  watch_membership release_membership : Effect
  on_closed : String → Effect

-- A timer holds the time in milliseconds at which it fires; the periodic ones are just armed or
-- not. `next_ref` is the next identity of a peer object.
pub record Room : Type 0 where
  pub channel_id : String
  pub host_pubkey : String
  pub rules : RoomRules
  pub router : Bool
  pub peers : Map PeerState
  pub direct_sessions : Map (List ℕ)
  pub signal_unsub : Bool
  pub membership_release : Bool
  pub beacon_timer : Bool
  pub active_call_timer : Bool
  pub reaper_timer : Bool
  pub empty_timer : Option ℕ
  pub ends_at_timer : Option ℕ
  pub status : RoomStatus
  pub started_at : ℕ
  pub next_ref : ℕ
  pub effects : List Effect

-- The constructor.
unfoldable pub new_room : String → String → RoomRules → Room
new_room channel_id host_pubkey rules = record {
  channel_id = channel_id;
  host_pubkey = host_pubkey;
  rules = rules;
  router = false;
  peers = [];
  direct_sessions = [];
  signal_unsub = false;
  membership_release = false;
  beacon_timer = false;
  active_call_timer = false;
  reaper_timer = false;
  empty_timer = none;
  ends_at_timer = none;
  status = starting;
  started_at = 0;
  next_ref = 0;
  effects = [];
}

-- `peerKey`
unfoldable pub peer_key : String → String → String
peer_key pubkey client_id = String.◌++◌ pubkey (String.◌++◌ "|" client_id)

abbrev pub key_of : PeerState → String
key_of p = peer_key p.pubkey p.client_id

-- `Array.from(new Set(Array.from(this.peers.values()).map((p) => p.pubkey)))`
unfoldable pub participants : Map PeerState → List String
participants peers = distinct (map (λ p. p.pubkey) (values peers))

unfoldable pub snapshot : Room → RoomSnapshot
unfolding participants
snapshot r = record {
  channel_id = r.channel_id;
  host_pubkey = r.host_pubkey;
  status = r.status;
  started_at = r.started_at;
  rules = r.rules;
  participants = participants r.peers;
}

abbrev pub emit : List Effect → Room → Room
emit es r = record r { effects = r.effects ++ es }

unfoldable pub publish_active : Room → Room
unfolding participants
publish_active r = emit (publish_active_call r.status (length (participants r.peers)) ∷ []) r

unfoldable pub publish_beacons : Room → Room
unfolding participants
publish_beacons r = emit (publish_beacon (participants r.peers) ∷ []) r

-- `for (const other of peers) if (other.recvTransport) void sendNotification(other.pubkey, n)`
unfoldable pub fan_out : Notification → List PeerState → List Effect
fan_out n [] = []
fan_out n (other ∷ others) =
    if is_some other.recv_transport
    then notify other.pubkey n ∷ fan_out n others
    else fan_out n others

-- The same for each of several notifications.
unfoldable pub fan_out_all : List Notification → List PeerState → List Effect
unfolding fan_out
fan_out_all [] others = []
fan_out_all (n ∷ ns) others = fan_out n others ++ fan_out_all ns others
