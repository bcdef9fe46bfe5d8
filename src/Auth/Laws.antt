-- ===== src/Auth/Laws.antt =====
-- Who may start a call, enter it and manage it.
use obelisk_sfu.Prelude.{
  ℕ, String, true, false, none, some, List, ◌≡◌, ◌<◌, ◌⊎◌, ◌↔◌, arith, eq_iff, value_or,
}
use obelisk_sfu.StringSet.{includes}
use obelisk_sfu.Config.{Config}
use obelisk_sfu.Auth.{DialContext, ok, can_dial_room, is_allowed_to_start, can_manage_room}

-- A sender passes the dial check exactly when it is not on the deny list and, where an allow list
-- is set, stands on that list; the members and the host play no part.
pub can_dial_room-eq-ok_iff :
    (ctx : DialContext)
    → (can_dial_room ctx ≡ ok) ↔ (
        (includes ctx.sender ctx.rules.deny ≡ false)
        × ((ctx.rules.allow ≡ none)
            ⊎ ((allow : List String) × (ctx.rules.allow ≡ some allow)
                × (includes ctx.sender allow ≡ true))))
unfolding can_dial_room
can_dial_room-eq-ok_iff ctx = ground arith

-- A sender may start a call exactly when the list is switched off, a bypass is still running, or
-- it is the operator or on one of the two lists.
pub is_allowed_to_start_iff :
    (cfg : Config) (now : ℕ) (sfu_pubkey sender : String)
    → (is_allowed_to_start cfg now sfu_pubkey sender ≡ true) ↔ (
        (cfg.allow_all ≡ true)
        ⊎ ((until : ℕ) × (cfg.whitelist_bypass_until ≡ some until) × (now < until))
        ⊎ (sender ≡ value_or cfg.operator_pubkey sfu_pubkey)
        ⊎ (includes sender cfg.allowed_pubkeys ≡ true)
        ⊎ (includes sender cfg.follow_allowed_pubkeys ≡ true))
unfolding is_allowed_to_start
is_allowed_to_start_iff cfg now sfu_pubkey sender =
    ground (arith, eq_iff sender (value_or cfg.operator_pubkey sfu_pubkey))

-- The host and the operator may manage a room, and nobody else.
pub can_manage_room_iff :
    (cfg : Config) (sfu_pubkey sender host_pubkey : String)
    → (can_manage_room cfg sfu_pubkey sender host_pubkey ≡ true)
      ↔ ((sender ≡ host_pubkey) ⊎ (sender ≡ value_or cfg.operator_pubkey sfu_pubkey))
unfolding can_manage_room
can_manage_room_iff cfg sfu_pubkey sender host_pubkey =
    ground
      (arith, eq_iff sender host_pubkey, eq_iff sender (value_or cfg.operator_pubkey sfu_pubkey))
