-- ===== src/Calls.antt =====
-- src/call-listener.ts: the control events of kind 25052, from the relays to the rooms. `pubkey`
-- is the server's own key; `now` is in milliseconds.
pub mod Rules
pub mod Once
pub mod Access
pub mod Rights
pub mod Capacity
pub mod Feeds
use obelisk_sfu.Prelude.{
  ℕ, String, Bool, true, false, not, List, [], ◌∷◌, Option, none, some, ◌==◌, ◌&&◌, ◌||◌, ◌+◌, ◌/◌,
  if◌then◌else◌, is_some, is_text, leb, ltb, any,
}
use obelisk_sfu.Map.{Map, get, set, delete, has, keys, size}
use obelisk_sfu.Nostr.{Event, value, is_named, find_tag}
use obelisk_sfu.Nostr.Integers.{ℤ, parse_int, is_below}
use obelisk_sfu.Texts.{is_hex64, to_lower_case}
use obelisk_sfu.Config.{Config}
use obelisk_sfu.Auth.{is_allowed_to_start, is_trusted_author_relay, can_manage_room}
use obelisk_sfu.Types.{
  RoomRules, SfuControlPayload, SfuControlParams, SfuControlAction, start, kick, update, unknown,
}
use obelisk_sfu.Channels.{ChannelRegistry, ChannelRecord, get_channel, is_voice_sfu}
use obelisk_sfu.Room.Roster
use obelisk_sfu.Room.Lifetime.{update_rules}
use obelisk_sfu.Rooms.{RoomManager, with_room, start_begin, end}
use obelisk_sfu.Calls.Rules.{starting_rules, merge_rules}

abbrev ControlEvent : Type 0
ControlEvent = Event SfuControlPayload

-- `gcSeen`: the ids by their time of expiry, in seconds.
unfoldable pub drop_expired : ℕ → Map ℕ → Map ℕ
drop_expired now [] = []
drop_expired now ((id, exp) ∷ seen) =
    let rest = drop_expired now seen in if ltb exp now then rest else (id, exp) ∷ rest

unfoldable pub gc_seen : ℕ → Map ℕ → Map ℕ
unfolding drop_expired
gc_seen now seen = if ltb (size seen) 256 then seen else drop_expired now seen

-- `rememberEvent`; `now` is in seconds.
unfoldable pub remember_event : ℕ → String → Map ℕ → Bool × Map ℕ
unfolding gc_seen
remember_event now id seen =
    let kept = gc_seen now seen in
    if has id kept then (false, kept) else (true, set id (now + 300) kept)

abbrev expires_before : ℕ → Option ℤ → Bool
expires_before now none = false
expires_before now (some ts) = is_below ts now

-- `isExpired`, for the value of the tag; `now` is in seconds.
unfoldable pub is_expired : ℕ → Option String → Bool
is_expired now none = false
is_expired now (some tag) = expires_before now (parse_int tag)

abbrev pub targets : String → List (List String) → Bool
targets pubkey = any (λ t. is_named "p" t && is_text (value t) pubkey)

abbrev pub is_other_kind : Option ChannelRecord → Bool
is_other_kind none = false
is_other_kind (some channel) = not (is_voice_sfu channel.kind)

module _ (cfg : Config) (pubkey : String) (now : ℕ) where
  -- `authorized` in `handleStart`
  abbrev pub is_authorized : String → Bool → Bool
  is_authorized sender from_trusted =
      let passes_allow_list = is_allowed_to_start cfg (now / 1000) pubkey sender in
      if cfg.require_allowed_pubkey then passes_allow_list else from_trusted || passes_allow_list

  -- `handleStart` up to the `await` in `RoomManager.start`
  unfoldable pub handle_start :
      ChannelRegistry → String → String → SfuControlPayload → Bool → RoomManager → RoomManager
  handle_start channels sender channel_id payload from_trusted m =
      if not (is_authorized sender from_trusted)
      then m
      else if has channel_id m.rooms
      then m
      else if leb cfg.max_rooms (size m.rooms)
      then m
      else if is_other_kind (get_channel channels channel_id)
      then m
      else elim (start_begin channel_id sender (merge_rules starting_rules payload.params) m) [
        | none ↦ m
        | some m' ↦ m'
      ]

  -- `handleEnd`
  unfoldable pub handle_end : String → String → RoomManager → RoomManager
  handle_end sender channel_id m = elim (get channel_id m.rooms) [
    | none ↦ m
    | some h ↦
        if not (can_manage_room cfg pubkey sender h.room.host_pubkey)
        then m
        else end cfg now channel_id m
  ]

  abbrev pub target_of : Option SfuControlParams → Option String
  target_of none = none
  target_of (some params) = params.target

  abbrev pub reason_of : Option SfuControlParams → Option String
  reason_of none = none
  reason_of (some params) = params.reason

  -- `handleKick` once the sender may manage the room
  unfoldable pub kick_target : String → Option String → Option String → RoomManager → RoomManager
  kick_target channel_id none reason m = m
  kick_target channel_id (some target) reason m =
      if not (is_hex64 target)
      then m
      else with_room channel_id (Roster.kick cfg now (to_lower_case target) reason) m

  unfoldable pub handle_kick : String → String → SfuControlPayload → RoomManager → RoomManager
  unfolding kick_target
  handle_kick sender channel_id payload m = elim (get channel_id m.rooms) [
    | none ↦ m
    | some h ↦
        if not (can_manage_room cfg pubkey sender h.room.host_pubkey)
        then m
        else kick_target channel_id (target_of payload.params) (reason_of payload.params) m
  ]

  -- `handleUpdate`
  unfoldable pub handle_update : String → String → SfuControlPayload → RoomManager → RoomManager
  handle_update sender channel_id payload m = elim (get channel_id m.rooms) [
    | none ↦ m
    | some h ↦
        if not (can_manage_room cfg pubkey sender h.room.host_pubkey)
        then m
        else with_room channel_id (λ r. update_rules cfg now (merge_rules r.rules payload.params) r)
            m
  ]

  -- The `switch` of `handle`.
  unfoldable pub act :
      ChannelRegistry
      → SfuControlAction
      → String
      → String
      → SfuControlPayload
      → Bool
      → RoomManager
      → RoomManager
  unfolding handle_start handle_end handle_kick handle_update
  act channels start sender id payload trusted m = handle_start channels sender id payload trusted m
  act channels SfuControlAction.end sender id payload trusted m = handle_end sender id m
  act channels kick sender id payload trusted m = handle_kick sender id payload m
  act channels update sender id payload trusted m = handle_update sender id payload m
  act channels unknown sender id payload trusted m = m

  -- The part of `handle` behind the duplicate gate.
  unfoldable pub accept : ChannelRegistry → ControlEvent → String → RoomManager → RoomManager
  unfolding act is_expired find_tag
  accept channels ev source m = elim (find_tag "e" ev.tags) [
    | none ↦ m
    | some id ↦
        if id == ""
        then m
        else if is_expired (now / 1000) (find_tag "expiration" ev.tags)
        then m
        else elim ev.content [
          | none ↦ m
          | some payload ↦
              act channels payload.action ev.pubkey id payload (is_trusted_author_relay cfg source)
                m
        ]
  ]

  -- `handle`, on the ids that were seen and the rooms.
  unfoldable pub handle :
      ChannelRegistry → ControlEvent → String → Map ℕ × RoomManager → Map ℕ × RoomManager
  unfolding accept remember_event
  handle channels ev source (seen, m) =
      if not (targets pubkey ev.tags)
      then (seen, m)
      else let first = remember_event (now / 1000) ev.id seen in
        (first.1, if first.0 then accept channels ev source m else m)
