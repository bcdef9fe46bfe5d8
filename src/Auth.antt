-- ===== src/Auth.antt =====
-- src/auth.ts. `now` is `Math.floor(Date.now() / 1000)`.
pub mod Laws
use obelisk_sfu.Prelude.{
  ℕ, String, Bool, true, false, not, Option, none, some, List, ◌==◌, ◌||◌, ltb, value_or,
  if◌then◌else◌,
}
use obelisk_sfu.StringSet.{includes}
use obelisk_sfu.Types.{RoomRules}
use obelisk_sfu.Config.{Config}

unfoldable pub is_operator : Config → String → String → Bool
is_operator cfg sfu_pubkey sender = sender == value_or cfg.operator_pubkey sfu_pubkey

unfoldable pub is_whitelist_bypass_active : Config → ℕ → Bool
is_whitelist_bypass_active cfg now = elim cfg.whitelist_bypass_until [
  | none ↦ false
  | some until ↦ ltb now until
]

unfoldable pub is_allowed_to_start : Config → ℕ → String → String → Bool
unfolding is_operator is_whitelist_bypass_active
is_allowed_to_start cfg now sfu_pubkey sender =
    if cfg.allow_all
    then true
    else if is_whitelist_bypass_active cfg now
    then true
    else is_operator cfg sfu_pubkey sender
      || includes sender cfg.allowed_pubkeys
      || includes sender cfg.follow_allowed_pubkeys

unfoldable pub is_trusted_author_relay : Config → String → Bool
is_trusted_author_relay cfg source_relay = includes source_relay cfg.trusted_author_relays

pub record DialContext : Type 0 where
  pub rules : RoomRules
  pub members : List String
  pub host_pubkey : String
  pub sender : String

pub data DialDecision : Type 0 where
  ok denied not_in_allow : DialDecision

unfoldable pub can_dial_room : DialContext → DialDecision
can_dial_room ctx = if includes ctx.sender ctx.rules.deny then denied else elim ctx.rules.allow [
  | none ↦ ok
  | some allow ↦ if not (includes ctx.sender allow) then not_in_allow else ok
]

unfoldable pub can_manage_room : Config → String → String → String → Bool
unfolding is_operator
can_manage_room cfg sfu_pubkey sender host_pubkey =
    sender == host_pubkey || is_operator cfg sfu_pubkey sender
