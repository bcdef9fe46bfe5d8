-- ===== src/Room/Invariant.antt =====
-- What holds of a room between any two events.
pub mod Tables
pub mod Leaving
pub mod Entering
pub mod Closing
use obelisk_sfu.Prelude.{ℕ, String, Bool, true, false, List, [], Option, none, ◌≡◌, ◌<◌, is_some}
use obelisk_sfu.Map.{Map}
use obelisk_sfu.Map.Laws.{Nodup}
use obelisk_sfu.Map.Values.{Each}
use obelisk_sfu.Types.{RoomStatus}
use obelisk_sfu.Room.{Room, PeerState, key_of}
use obelisk_sfu.Room.Roster.{is_active, is_empty}
use obelisk_sfu.Room.Lifetime.{is_closed}

-- Every object stands under its own key, and was made before the next one.
abbrev pub IsKeyed : ℕ → String → PeerState → Type 0
IsKeyed next_ref k p = (k ≡ key_of p) × (p.ref < next_ref)

pub record IsTable (next_ref : ℕ) (peers : Map PeerState) : Type 0 where
  pub nodup : Nodup peers
  pub keyed : Each (IsKeyed next_ref) peers

-- No timer of a closed room is armed.
pub record IsShut (r : Room) : Type 0 where
  pub peers : r.peers ≡ []
  pub empty_timer : r.empty_timer ≡ none
  pub ends_at_timer : r.ends_at_timer ≡ none
  pub beacon_timer : r.beacon_timer ≡ false
  pub active_call_timer : r.active_call_timer ≡ false
  pub reaper_timer : r.reaper_timer ≡ false

-- The invariant but for the grace timer of a room that has just become empty.
pub record IsSettling (r : Room) : Type 0 where
  pub table : IsTable r.next_ref r.peers
  -- The grace timer is armed in an empty room only.
  pub off : is_empty r.peers ≡ false → r.empty_timer ≡ none
  pub shut : is_closed r.status ≡ true → IsShut r

pub record IsValid (r : Room) : Type 0 where
  pub settling : IsSettling r
  -- An active room that somebody has entered and where nobody is left has its grace timer armed.
  pub armed :
      is_active r.status ≡ true
      → is_empty r.peers ≡ true
      → 0 < r.next_ref
      → is_some r.empty_timer ≡ true
