-- ===== src/Calls/Capacity.antt =====
-- The number of rooms over the life of the server.
use obelisk_sfu.Prelude.{
  ℕ, suc, String, List, [], ◌∷◌, none, some, ◌≡◌, ◌≤◌, ◌+◌, ap, Option, ◌∙◌, refl, sym, inl, inr,
  arith, Option-cases, Bool-cases, leb, length, nat_eq,
}
use obelisk_sfu.Map.{Map, get, set, keys, size}
use obelisk_sfu.Map.Laws.{size-set_new, size-delete-le}
use obelisk_sfu.Config.{Config}
use obelisk_sfu.Types.{RoomRules, SfuControlPayload}
use obelisk_sfu.Nostr.{Event}
use obelisk_sfu.Channels.{ChannelRegistry}
use obelisk_sfu.Room.{Room, new_room, emit, request_router}
use obelisk_sfu.Room.Lifetime
use obelisk_sfu.Room.Lifetime.{rearm_duration_limit}
use obelisk_sfu.Rooms.{
  RoomHandle, RoomManager, start_begin, empty, with_room, start_ready, start_fails,
  rearm_duration_limits, rearm_each, close_all,
}
use obelisk_sfu.Rooms.Bounds.{with_room-size-le, start_ready-size-le, settle-size-le}
use obelisk_sfu.Room.Notices.{register_direct_session}
use obelisk_sfu.Direct.Connection.{Connection, default_rules, on_room, close_with, admit, enter}
use obelisk_sfu.Calls.{handle}
use obelisk_sfu.Calls.Access.{Outcomes, handle-cases}

-- What reaches the manager: control events, sessions that are let in over a connection, which open
-- a room where there is none, the two endings of a start, calls of a room's methods (requests,
-- timers, media), and the calls of the administration.
pub data Change : Type 0 where
  delivers : ChannelRegistry → Event SfuControlPayload → String → Change
  is_ready : String → ℕ → Change
  fails : String → Change
  calls : String → (Room → Room) → Change
  -- a session of this user and client, authenticated over a connection with this identity
  enters : String → ℕ → String → String → Connection → Change
  rearms shuts_down : Change

abbrev pub Rooms : Type 0
Rooms = Map ℕ × RoomManager

unfoldable pub change : Config → String → ℕ → Change → Rooms → Rooms
change cfg pubkey now (delivers channels ev source) s = handle cfg pubkey now channels ev source s
change cfg pubkey now (is_ready id ref) (seen, m) = (seen, start_ready cfg now id ref m)
change cfg pubkey now (fails id) (seen, m) = (seen, start_fails id m)
change cfg pubkey now (calls id f) (seen, m) = (seen, with_room id f m)
change cfg pubkey now (enters id conn user client_id c) (seen, m) =
    (seen, (enter cfg id conn user client_id (record c { rooms = m })).rooms)
change cfg pubkey now rearms (seen, m) = (seen, rearm_duration_limits cfg now m)
change cfg pubkey now shuts_down (seen, m) = (seen, close_all cfg now m)

-- The configuration may change between them.
unfoldable pub changes : String → List (Config × ℕ × Change) → Rooms → Rooms
unfolding change
changes pubkey [] s = s
changes pubkey ((cfg, now, c) ∷ cs) s = changes pubkey cs (change cfg pubkey now c s)

abbrev pub Allows : ℕ → List (Config × ℕ × Change) → Type 0
Allows max [] = Unit {0}
Allows max ((cfg, now, c) ∷ cs) = (cfg.max_rooms ≤ max) × Allows max cs

rearm_each-size-le :
    (cfg : Config) (now : ℕ) (ids : List String) (m : RoomManager)
    → size (rearm_each cfg now ids m).rooms ≤ size m.rooms
unfolding rearm_each
rearm_each-size-le cfg now [] m = omega arith
rearm_each-size-le cfg now (id ∷ ids) m =
    let one = with_room id (rearm_duration_limit cfg now) m in
    omega (
      arith,
      rearm_each-size-le cfg now ids one,
      with_room-size-le id (rearm_duration_limit cfg now) m,
    )

Outcomes-size-le :
    (cfg : Config) (pubkey : String) (now max : ℕ) (ev : Event SfuControlPayload) (source : String)
    (m m' : RoomManager)
    → cfg.max_rooms ≤ max
    → size m.rooms ≤ max
    → Outcomes cfg pubkey now ev source m m'
    → size m'.rooms ≤ max
Outcomes-size-le cfg pubkey now max ev source m m' allows h (inl same) = rw same h
Outcomes-size-le cfg pubkey now max ev source m m' allows h (inr (i, payload, f, inl (inl same))) =
    rw same h
Outcomes-size-le cfg pubkey now max ev source m m' allows h
      (inr (i, payload, f, inl (inr (may, (call, same))))) =
    rw same (omega (arith, with_room-size-le i call m, h))
Outcomes-size-le cfg pubkey now max ev source m m' allows h
      (inr (i, payload, f, inr (may, absent, space, same))) =
    rw same (omega (arith, size-set_new i _ m.rooms absent, space, allows))

on_room-size-le :
    (id : String) (ref : ℕ) (f : Room → Room) (m : RoomManager)
    → size (on_room id ref f m).rooms ≤ size m.rooms
unfolding on_room
on_room-size-le id ref f m = elim (Option-cases (get id m.rooms)) [
  | inl e ↦ rw (e, on_room) (omega arith)
  | inr (h, e) ↦ elim (Bool-cases (nat_eq h.ref ref)) [
    | inl same ↦ rw (e, on_room, same) (settle-size-le id h (f h.room) m e)
    | inr other ↦ rw (e, on_room, other) (omega arith)
  ]
]

rooms_of : Option RoomManager → ℕ
rooms_of none = 0
rooms_of (some m) = size m.rooms

start_begin-size :
    (id host : String) (rules : RoomRules) (m m' : RoomManager)
    → start_begin id host rules m ≡ some m'
    → size m'.rooms ≡ size m.rooms + 1
unfolding start_begin Lifetime.start_begin new_room rooms_of
start_begin-size id host rules m m' e = elim (Option-cases (get id m.rooms)) [
  | inl absent ↦
      let hosted : RoomHandle = record {
        ref = m.next_room;
        room = emit (request_router ∷ []) (new_room id host rules);
      } in
      let begun : start_begin id host rules m
          ≡ some (record m { rooms = set id hosted m.rooms; next_room = suc m.next_room }) =
        rw (absent, start_begin) refl in
      sym (ap rooms_of (sym begun ∙ e)) ∙ size-set_new id hosted m.rooms absent
  | inr (h, there) ↦
      let refused : start_begin id host rules m ≡ none = rw (there, start_begin) refl in
      let clash = sym refused ∙ e in absurd (ground (arith, clash))
]

enter-size-le :
    (cfg : Config) (id : String) (conn : ℕ) (user client_id : String) (max : ℕ) (c : Connection)
    → cfg.max_rooms ≤ max
    → size c.rooms.rooms ≤ max
    → size (enter cfg id conn user client_id c).rooms.rooms ≤ max
unfolding enter close_with admit
enter-size-le cfg id conn user client_id max c allows h =
    elim (Option-cases (get id c.rooms.rooms)) [
      | inr (hosted, e) ↦
          rw (e, enter)
            (omega (
              arith,
              on_room-size-le id hosted.ref (register_direct_session user client_id conn) c.rooms,
              h,
            ))
      | inl e ↦ elim (Bool-cases (leb cfg.max_rooms (length c.rooms.rooms))) [
        | inl full ↦ rw (e, enter, full) (ground (arith, h))
        | inr space ↦ elim (Option-cases (start_begin id user default_rules c.rooms)) [
          | inl refused ↦ rw (e, enter, space, refused) (ground (arith, h))
          | inr (m, begun) ↦
              rw (e, enter, space, begun)
                (ground (arith, h, start_begin-size id user default_rules c.rooms m begun, allows))
        ]
      ]
    ]

change-size-le :
    (cfg : Config) (pubkey : String) (now max : ℕ) (c : Change) (s : Rooms)
    → cfg.max_rooms ≤ max
    → size s.1.rooms ≤ max
    → size (change cfg pubkey now c s).1.rooms ≤ max
unfolding change start_fails rearm_duration_limits close_all
change-size-le cfg pubkey now max (delivers channels ev source) s allows h =
    Outcomes-size-le cfg pubkey now max ev source s.1 _ allows h
      (handle-cases cfg pubkey now channels ev source s)
change-size-le cfg pubkey now max (is_ready id ref) (seen, m) allows h =
    omega (arith, start_ready-size-le cfg now id ref m, h)
change-size-le cfg pubkey now max (fails id) (seen, m) allows h =
    omega (arith, size-delete-le id m.rooms, h)
change-size-le cfg pubkey now max (calls id f) (seen, m) allows h =
    omega (arith, with_room-size-le id f m, h)
change-size-le cfg pubkey now max (enters id conn user client_id c) (seen, m) allows h =
    enter-size-le cfg id conn user client_id max (record c { rooms = m }) allows h
change-size-le cfg pubkey now max rearms (seen, m) allows h =
    omega (arith, rearm_each-size-le cfg now (keys m.rooms) m, h)
change-size-le cfg pubkey now max shuts_down (seen, m) allows h = omega arith

changes-keep :
    (pubkey : String) (max : ℕ) (cs : List (Config × ℕ × Change)) (s : Rooms)
    → Allows max cs
    → size s.1.rooms ≤ max
    → size (changes pubkey cs s).1.rooms ≤ max
unfolding changes
changes-keep pubkey max [] s allows h = h
changes-keep pubkey max ((cfg, now, c) ∷ cs) s allows h =
    changes-keep pubkey max cs _ allows.1 (change-size-le cfg pubkey now max c s allows.0 h)

-- From an empty manager on, whatever control events, sessions over connections, starts that succeed or fail, calls of the rooms
-- and calls of the administration follow, there are never more rooms than the greatest
-- `max_rooms` that the configuration had.
pub changes-size-le :
    (pubkey : String) (max : ℕ) (cs : List (Config × ℕ × Change))
    → Allows max cs
    → size (changes pubkey cs ([], empty)).1.rooms ≤ max
changes-size-le pubkey max cs allows = changes-keep pubkey max cs ([], empty) allows (omega arith)
