-- ===== src/Tests/Samples.antt =====
-- A configuration, a room with three devices of two users, and control events.
use obelisk_sfu.Prelude.{String, true, false, [], ◌∷◌, none, some, refl, arith}
use obelisk_sfu.Config.{Config}
use obelisk_sfu.Types.{RoomRules, active, SfuControlPayload, SfuControlAction}
use obelisk_sfu.Nostr.{Event}
use obelisk_sfu.Map.{get}
use obelisk_sfu.Channels.{ChannelRegistry}
use obelisk_sfu.Room.{Room, PeerState, WebRtcTransport, DtlsState, MediaKind, peer_key}
use obelisk_sfu.Room.Roster.{new_peer}
use obelisk_sfu.Room.Invariant.{IsTable}
use obelisk_sfu.Rooms.{RoomManager}

abbrev pub cfg : Config
cfg = record {
  nsec_hex = "00";
  operator_pubkey = some "operator";
  admin_pubkeys = [];
  allowed_pubkeys = "alice" ∷ [];
  trusted_referent_pubkeys = [];
  follow_allowed_pubkeys = [];
  follow_relays = [];
  follow_allow_file_path = "";
  allow_all = false;
  whitelist_bypass_until = none;
  require_allowed_pubkey = true;
  relays = "wss://one" ∷ "wss://two" ∷ [];
  trusted_author_relays = "wss://one" ∷ [];
  max_participants_per_room = 2;
  max_rooms = 1;
  empty_grace_seconds = 30;
  max_call_duration_seconds = 3600;
  http_port = 8080;
  public_ip = none;
  rtp_port_min = 40000;
  rtp_port_max = 49999;
  stun_urls = [];
  turn_urls = [];
  turn_username = none;
  turn_credential = none;
  public_url = none;
  region = none;
  allow_file_path = "";
}

abbrev pub rules : RoomRules
rules = record {
  video = true;
  screen = true;
  allow = some ("alice" ∷ "bob" ∷ []);
  deny = "mallory" ∷ [];
  max_participants = none;
  ends_at = some 100;
}

abbrev pub transport : WebRtcTransport
transport = record { id = "t1"; dtls_state = DtlsState.connected }

abbrev pub phone : PeerState
phone = record (new_peer 0 5000 "alice" "phone") { recv_transport = some transport }

abbrev pub laptop : PeerState
laptop = new_peer 1 5000 "alice" "laptop"

abbrev pub tablet : PeerState
tablet = record (new_peer 2 5000 "bob" "tablet") {
  send_transport = some transport;
  producers = ("mic", record { id = "mic"; kind = MediaKind.audio }) ∷ [];
}

-- An active room that began at second 5.
abbrev pub room : Room
room = record {
  channel_id = "channel";
  host_pubkey = "alice";
  rules = rules;
  router = true;
  peers = ("alice|phone", phone) ∷ ("alice|laptop", laptop) ∷ ("bob|tablet", tablet) ∷ [];
  direct_sessions = [];
  signal_unsub = true;
  membership_release = true;
  beacon_timer = true;
  active_call_timer = true;
  reaper_timer = true;
  empty_timer = none;
  ends_at_timer = none;
  status = active;
  started_at = 5;
  next_ref = 3;
  effects = [];
}

pub room-IsTable : IsTable room.next_ref room.peers
unfolding get peer_key
room-IsTable = record {
  nodup = (refl, (refl, (refl, tt)));
  keyed = ((refl, omega arith), ((refl, omega arith), ((refl, omega arith), tt)));
}

abbrev pub registry : ChannelRegistry
registry = record { subscribed = true; channels = [] }

abbrev pub manager : RoomManager
manager = record {
  rooms = ("channel", record { ref = 0; room = room }) ∷ [];
  draining = false;
  next_room = 1;
  gone = [];
}

-- A request to end the call of `channel`, addressed to the server.
abbrev pub ending : String → String → Event SfuControlPayload
ending id sender = record {
  id = id;
  pubkey = sender;
  kind = 25052;
  created_at = 6;
  tags = ("p" ∷ "server" ∷ []) ∷ ("e" ∷ "channel" ∷ []) ∷ [];
  content = some (record { action = SfuControlAction.end; params = none });
}

-- A request to start a call in `other`.
abbrev pub starting : String → String → Event SfuControlPayload
starting id sender = record {
  id = id;
  pubkey = sender;
  kind = 25052;
  created_at = 6;
  tags = ("p" ∷ "server" ∷ []) ∷ ("e" ∷ "other" ∷ []) ∷ [];
  content = some (record { action = SfuControlAction.start; params = none });
}
