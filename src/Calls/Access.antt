-- ===== src/Calls/Access.antt =====
-- What a control event comes to: the cases of its handlers.
use obelisk_sfu.Prelude.{
  ℕ, suc, String, Bool, true, false, [], ◌∷◌, Option, none, some, ◌≡◌, ◌<◌, ◌/◌, ◌==◌, refl, inl,
  inr, arith, Option-cases, Bool-cases, leb, ◌⊎◌,
}
use obelisk_sfu.Map.{Map, get, set, has, size}
use obelisk_sfu.Config.{Config}
use obelisk_sfu.Auth.{can_manage_room, is_trusted_author_relay}
use obelisk_sfu.Types.{RoomRules, SfuControlPayload, SfuControlAction, start, kick, update, unknown}
use obelisk_sfu.Nostr.{Event, find_tag}
use obelisk_sfu.Texts.{is_hex64, to_lower_case}
use obelisk_sfu.Channels.{ChannelRegistry, get_channel}
use obelisk_sfu.Room.{Room, new_room, emit, request_router}
use obelisk_sfu.Room.Lifetime
use obelisk_sfu.Room.Lifetime.{close, update_rules}
use obelisk_sfu.Room.Roster
use obelisk_sfu.Rooms.{RoomHandle, RoomManager, start_begin, end, with_room}
use obelisk_sfu.Calls.Rules.{starting_rules, merge_rules}
use obelisk_sfu.Calls.{
  target_of, reason_of, is_authorized, is_other_kind, handle_start, handle_end, handle_kick,
  handle_update, kick_target, act, accept, handle, targets, remember_event, is_expired,
}

-- What the manager is once a room is made.
abbrev pub made : String → String → RoomRules → RoomManager → RoomManager
made id host rules m = record m {
  rooms =
      set id
        (record { ref = m.next_room; room = emit (request_router ∷ []) (new_room id host rules) })
        m.rooms;
  next_room = suc m.next_room;
}

start_begin-made :
    (id host : String) (rules : RoomRules) (m : RoomManager)
    → has id m.rooms ≡ false
    → start_begin id host rules m ≡ some (made id host rules m)
unfolding start_begin Lifetime.start_begin new_room
start_begin-made id host rules m h = rw h refl

-- Either nothing happens, or a room is made for a channel that has none, and there was space.
handle_start-cases :
    (cfg : Config) (pubkey : String) (now : ℕ) (channels : ChannelRegistry) (sender id : String)
    (payload : SfuControlPayload) (trusted : Bool) (m : RoomManager)
    → (handle_start cfg pubkey now channels sender id payload trusted m ≡ m)
      ⊎ ((is_authorized cfg pubkey now sender trusted ≡ true)
          × (get id m.rooms ≡ none)
          × (size m.rooms < cfg.max_rooms)
          × (handle_start cfg pubkey now channels sender id payload trusted m
              ≡ made id sender (merge_rules starting_rules payload.params) m))
unfolding handle_start
handle_start-cases cfg pubkey now channels sender id payload trusted m =
    elim (Bool-cases (is_authorized cfg pubkey now sender trusted)) [
      | inr stranger ↦ rw stranger (inl refl)
      | inl may ↦ elim (Bool-cases (has id m.rooms)) [
        | inl there ↦ rw (may, there) (inl refl)
        | inr absent ↦ elim (Bool-cases (leb cfg.max_rooms (size m.rooms))) [
          | inl full ↦ rw (may, absent, full) (inl refl)
          | inr space ↦ elim (Bool-cases (is_other_kind (get_channel channels id))) [
            | inl other ↦ rw (may, absent, space, other) (inl refl)
            | inr fine ↦
                rw
                  (
                    may,
                    absent,
                    space,
                    fine,
                    start_begin-made id sender (merge_rules starting_rules payload.params) m absent,
                  )
                  (inr (refl, ground arith, ground arith, refl))
          ]
        ]
      ]
    ]

-- Each of the other three actions calls a method of the channel's room, for a sender who may
-- manage it, or does nothing.
abbrev pub Manages : Config → String → String → String → RoomManager → Type 0
Manages cfg pubkey sender id m =
    (h : RoomHandle) × (get id m.rooms ≡ some h)
    × (can_manage_room cfg pubkey sender h.room.host_pubkey ≡ true)

abbrev pub Acts : Config → String → String → String → RoomManager → RoomManager → Type 0
Acts cfg pubkey sender id m m' =
    (m' ≡ m) ⊎ (Manages cfg pubkey sender id m × ((f : Room → Room) × (m' ≡ with_room id f m)))

handle_end-cases :
    (cfg : Config) (pubkey : String) (now : ℕ) (sender id : String) (m : RoomManager)
    → Acts cfg pubkey sender id m (handle_end cfg pubkey now sender id m)
unfolding handle_end end
handle_end-cases cfg pubkey now sender id m = elim (Option-cases (get id m.rooms)) [
  | inl e ↦ rw (e, handle_end) (inl refl)
  | inr (h, e) ↦ elim (Bool-cases (can_manage_room cfg pubkey sender h.room.host_pubkey)) [
    | inr may_not ↦ rw (e, handle_end, may_not) (inl refl)
    | inl may ↦ rw (e, handle_end, may) (inr ((h, refl, may), (close cfg now, refl)))
  ]
]

kick_target-cases :
    (cfg : Config) (pubkey : String) (now : ℕ) (id : String) (target reason : Option String)
    (m : RoomManager)
    → (kick_target cfg pubkey now id target reason m ≡ m)
      ⊎ ((f : Room → Room) × (kick_target cfg pubkey now id target reason m ≡ with_room id f m))
unfolding kick_target
kick_target-cases cfg pubkey now id none reason m = inl refl
kick_target-cases cfg pubkey now id (some target) reason m = elim (Bool-cases (is_hex64 target)) [
  | inr bad ↦ rw bad (inl refl)
  | inl good ↦ rw good (inr (Roster.kick cfg now (to_lower_case target) reason, refl))
]

handle_kick-cases :
    (cfg : Config) (pubkey : String) (now : ℕ) (sender id : String) (payload : SfuControlPayload)
    (m : RoomManager)
    → Acts cfg pubkey sender id m (handle_kick cfg pubkey now sender id payload m)
unfolding handle_kick
handle_kick-cases cfg pubkey now sender id payload m = elim (Option-cases (get id m.rooms)) [
  | inl e ↦ rw (e, handle_kick) (inl refl)
  | inr (h, e) ↦ elim (Bool-cases (can_manage_room cfg pubkey sender h.room.host_pubkey)) [
    | inr may_not ↦ rw (e, handle_kick, may_not) (inl refl)
    | inl may ↦
        elim (kick_target-cases cfg pubkey now id (target_of cfg pubkey now payload.params)
          (reason_of cfg pubkey now payload.params) m) [
            | inl same ↦ rw (e, handle_kick, may, same) (inl refl)
            | inr (f, call) ↦ rw (e, handle_kick, may, call) (inr ((h, refl, may), (f, refl)))
          ]
  ]
]

handle_update-cases :
    (cfg : Config) (pubkey : String) (now : ℕ) (sender id : String) (payload : SfuControlPayload)
    (m : RoomManager)
    → Acts cfg pubkey sender id m (handle_update cfg pubkey now sender id payload m)
unfolding handle_update
handle_update-cases cfg pubkey now sender id payload m = elim (Option-cases (get id m.rooms)) [
  | inl e ↦ rw (e, handle_update) (inl refl)
  | inr (h, e) ↦ elim (Bool-cases (can_manage_room cfg pubkey sender h.room.host_pubkey)) [
    | inr may_not ↦ rw (e, handle_update, may_not) (inl refl)
    | inl may ↦
        rw (e, handle_update, may)
          (inr (
            (h, refl, may),
            ((λ r. update_rules cfg now (merge_rules r.rules payload.params) r), refl),
          ))
  ]
]

act-cases :
    (cfg : Config) (pubkey : String) (now : ℕ) (channels : ChannelRegistry)
    (action : SfuControlAction) (sender id : String) (payload : SfuControlPayload) (trusted : Bool)
    (m : RoomManager)
    → Acts cfg pubkey sender id m (act cfg pubkey now channels action sender id payload trusted m)
      ⊎ ((is_authorized cfg pubkey now sender trusted ≡ true)
          × (get id m.rooms ≡ none)
          × (size m.rooms < cfg.max_rooms)
          × (act cfg pubkey now channels action sender id payload trusted m
              ≡ made id sender (merge_rules starting_rules payload.params) m))
unfolding act
act-cases cfg pubkey now channels start sender id payload trusted m =
    elim (handle_start-cases cfg pubkey now channels sender id payload trusted m) [
      | inl same ↦ inl (inl same)
      | inr new ↦ inr new
    ]
act-cases cfg pubkey now channels SfuControlAction.end sender id payload trusted m =
    inl (handle_end-cases cfg pubkey now sender id m)
act-cases cfg pubkey now channels kick sender id payload trusted m =
    inl (handle_kick-cases cfg pubkey now sender id payload m)
act-cases cfg pubkey now channels update sender id payload trusted m =
    inl (handle_update-cases cfg pubkey now sender id payload m)
act-cases cfg pubkey now channels unknown sender id payload trusted m = inl (inl refl)

-- A control event, as a whole: nothing, a room that its sender may manage is called, or a room is
-- made for a channel that has none.
abbrev pub Outcomes :
    Config → String → ℕ → Event SfuControlPayload → String → RoomManager → RoomManager → Type 0
Outcomes cfg pubkey now ev source m m' =
    (m' ≡ m)
    ⊎ ((id : String) × (payload : SfuControlPayload) × (find_tag "e" ev.tags ≡ some id)
        × (Acts cfg pubkey ev.pubkey id m m'
            ⊎ ((is_authorized cfg pubkey now ev.pubkey (is_trusted_author_relay cfg source) ≡ true)
                × (get id m.rooms ≡ none)
                × (size m.rooms < cfg.max_rooms)
                × (m' ≡ made id ev.pubkey (merge_rules starting_rules payload.params) m))))

-- Behind the gate: nothing, or the action on the channel that the event names.
accept-cases :
    (cfg : Config) (pubkey : String) (now : ℕ) (channels : ChannelRegistry)
    (ev : Event SfuControlPayload) (source : String) (m : RoomManager)
    → Outcomes cfg pubkey now ev source m (accept cfg pubkey now channels ev source m)
unfolding accept
accept-cases cfg pubkey now channels ev source m = elim (Option-cases (find_tag "e" ev.tags)) [
  | inl e ↦ rw (e, accept) (inl refl)
  | inr (id, e) ↦ elim (Bool-cases (id == "")) [
    | inl empty ↦ rw (e, accept, empty) (inl refl)
    | inr named ↦ elim (Bool-cases (is_expired (now / 1000) (find_tag "expiration" ev.tags))) [
      | inl late ↦ rw (e, accept, named, late) (inl refl)
      | inr timely ↦ elim (Option-cases ev.content) [
        | inl bad ↦ rw (e, accept, named, timely, bad) (inl refl)
        | inr (payload, good) ↦
            rw (e, accept, named, timely, good)
              (inr (
                id,
                payload,
                refl,
                act-cases cfg pubkey now channels payload.action ev.pubkey id payload
                    (is_trusted_author_relay cfg source) m,
              ))
      ]
    ]
  ]
]

pub handle-cases :
    (cfg : Config) (pubkey : String) (now : ℕ) (channels : ChannelRegistry)
    (ev : Event SfuControlPayload) (source : String) (s : Map ℕ × RoomManager)
    → Outcomes cfg pubkey now ev source s.1 (handle cfg pubkey now channels ev source s).1
unfolding handle
handle-cases cfg pubkey now channels ev source (seen, m) =
    elim (Bool-cases (targets pubkey ev.tags)) [
      | inr aside ↦ rw aside (inl refl)
      | inl ours ↦ elim (Bool-cases (remember_event (now / 1000) ev.id seen).0) [
        | inr known ↦ rw (ours, known) (inl refl)
        | inl first ↦ rw (ours, first) (accept-cases cfg pubkey now channels ev source m)
      ]
    ]
