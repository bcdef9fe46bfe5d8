-- ===== src/Rooms.antt =====
-- src/room-manager.ts: the rooms by their channel. `start` is cut at its `await`; a room that
-- closes calls `onClosed` at the end of `close`.
pub mod Bounds
use obelisk_sfu.Prelude.{
  ℕ, suc, String, Bool, true, false, List, [], ◌∷◌, map, Option, none, some, if◌then◌else◌, nat_eq,
}
use obelisk_sfu.Map.{Map, get, set, delete, has, keys, values}
use obelisk_sfu.Config.{Config}
use obelisk_sfu.Types.{RoomRules, RoomSnapshot}
use obelisk_sfu.Room.{Room, new_room, snapshot}
use obelisk_sfu.Room.Lifetime
use obelisk_sfu.Room.Lifetime.{is_closed, start_end, close, rearm_duration_limit}

-- `ref` is the identity of the room object.
pub record RoomHandle : Type 0 where
  pub ref : ℕ
  pub room : Room

-- `gone` keeps the rooms that have closed, with what they sent, the latest first.
pub record RoomManager : Type 0 where
  pub rooms : Map RoomHandle
  pub draining : Bool
  pub next_room : ℕ
  pub gone : List Room

abbrev pub empty : RoomManager
empty = record { rooms = []; draining = false; next_room = 0; gone = [] }

-- `onClosed`
unfoldable pub on_closed : String → RoomManager → RoomManager
on_closed id m = record m { rooms = delete id m.rooms }

-- What a call of a method leaves of the room of the table.
unfoldable pub settle : String → RoomHandle → Room → RoomManager → RoomManager
unfolding on_closed
settle id h r m =
    if is_closed r.status
    then on_closed id (record m { gone = r ∷ m.gone })
    else record m { rooms = set id (record h { room = r }) m.rooms }

-- `this.rooms.get(id)` and a call of one of its methods
unfoldable pub with_room : String → (Room → Room) → RoomManager → RoomManager
unfolding settle
with_room id f m = elim (get id m.rooms) [ none ↦ m | some h ↦ settle id h (f h.room) m ]

-- `start` up to its `await`; `none` is the exception "room already active".
unfoldable pub start_begin : String → String → RoomRules → RoomManager → Option RoomManager
start_begin id host rules m =
    if has id m.rooms then none else elim (Lifetime.start_begin (new_room id host rules)) [
      | none ↦ none
      | some r ↦ some (record m {
        rooms = set id (record { ref = m.next_room; room = r }) m.rooms;
        next_room = suc m.next_room;
      })
    ]

-- The rest of it for the room object `ref`, when its router is there, and when there is none. A
-- room that has closed meanwhile stays closed here, while the code goes on with its start outside
-- the table.
unfoldable pub start_ready : Config → ℕ → String → ℕ → RoomManager → RoomManager
unfolding settle
start_ready cfg now id ref m = elim (get id m.rooms) [
  | none ↦ m
  | some h ↦ if nat_eq h.ref ref then settle id h (start_end cfg now h.room) m else m
]

unfoldable pub start_fails : String → RoomManager → RoomManager
start_fails id m = record m { rooms = delete id m.rooms }

-- `end`
unfoldable pub end : Config → ℕ → String → RoomManager → RoomManager
unfolding with_room
end cfg now id = with_room id (close cfg now)

unfoldable pub rearm_each : Config → ℕ → List String → RoomManager → RoomManager
unfolding with_room
rearm_each cfg now [] m = m
rearm_each cfg now (id ∷ ids) m =
    rearm_each cfg now ids (with_room id (rearm_duration_limit cfg now) m)

-- `rearmDurationLimits`
unfoldable pub rearm_duration_limits : Config → ℕ → RoomManager → RoomManager
unfolding rearm_each
rearm_duration_limits cfg now m = rearm_each cfg now (keys m.rooms) m

unfoldable pub close_each : Config → ℕ → List String → RoomManager → RoomManager
unfolding with_room
close_each cfg now [] m = m
close_each cfg now (id ∷ ids) m = close_each cfg now ids (with_room id (close cfg now) m)

-- `closeAll`
unfoldable pub close_all : Config → ℕ → RoomManager → RoomManager
unfolding close_each
close_all cfg now m = record (close_each cfg now (keys m.rooms) m) { rooms = [] }

unfoldable pub set_draining : RoomManager → RoomManager
set_draining m = record m { draining = true }

-- `list`
unfoldable pub list : RoomManager → List RoomSnapshot
list m = map (λ h. snapshot h.room) (values m.rooms)
