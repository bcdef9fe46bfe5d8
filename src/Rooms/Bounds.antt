-- ===== src/Rooms/Bounds.antt =====
-- What the operations do to the table of rooms as a whole.
use obelisk_sfu.Prelude.{
  ℕ, String, false, some, ◌≡◌, ◌≤◌, ◌==◌, refl, inl, inr, arith, Option-cases, Bool-cases, nat_eq,
}
use obelisk_sfu.Map.{get, size}
use obelisk_sfu.Map.Laws.{get-set, get-delete_ne, size-set_old, size-delete-le}
use obelisk_sfu.Config.{Config}
use obelisk_sfu.Room.{Room}
use obelisk_sfu.Room.Lifetime.{start_end}
use obelisk_sfu.Rooms.{RoomHandle, RoomManager, on_closed, settle, with_room, start_ready}

pub settle-size-le :
    (id : String) (h : RoomHandle) (r : Room) (m : RoomManager)
    → get id m.rooms ≡ some h
    → size (settle id h r m).rooms ≤ size m.rooms
unfolding settle on_closed
settle-size-le id h r m e =
    ground (arith, size-set_old id (record h { room = r }) h m.rooms e, size-delete-le id m.rooms)

pub with_room-size-le :
    (id : String) (f : Room → Room) (m : RoomManager) → size (with_room id f m).rooms ≤ size m.rooms
unfolding with_room
with_room-size-le id f m = elim (Option-cases (get id m.rooms)) [
  | inl e ↦ rw (e, with_room) (omega arith)
  | inr (h, e) ↦ rw (e, with_room) (settle-size-le id h (f h.room) m e)
]

pub start_ready-size-le :
    (cfg : Config) (now : ℕ) (id : String) (ref : ℕ) (m : RoomManager)
    → size (start_ready cfg now id ref m).rooms ≤ size m.rooms
unfolding start_ready
start_ready-size-le cfg now id ref m = elim (Option-cases (get id m.rooms)) [
  | inl e ↦ rw (e, start_ready) (omega arith)
  | inr (h, e) ↦ elim (Bool-cases (nat_eq h.ref ref)) [
    | inl same ↦ rw (e, start_ready, same) (settle-size-le id h (start_end cfg now h.room) m e)
    | inr other ↦ rw (e, start_ready, other) (omega arith)
  ]
]

settle-get_ne :
    (id j : String) (h : RoomHandle) (r : Room) (m : RoomManager)
    → (id == j) ≡ false
    → get j (settle id h r m).rooms ≡ get j m.rooms
unfolding settle on_closed
settle-get_ne id j h r m ne =
    ground (arith, get-set id j (record h { room = r }) m.rooms, get-delete_ne id j m.rooms ne)

-- A call of a room's method leaves the other rooms as they are.
pub with_room-get_ne :
    (id j : String) (f : Room → Room) (m : RoomManager)
    → (id == j) ≡ false
    → get j (with_room id f m).rooms ≡ get j m.rooms
unfolding with_room
with_room-get_ne id j f m ne = elim (Option-cases (get id m.rooms)) [
  | inl e ↦ rw (e, with_room) refl
  | inr (h, e) ↦ rw (e, with_room) (settle-get_ne id j h (f h.room) m ne)
]
