-- ===== src/Types.antt =====
-- src/types.ts: the rules of a call, the control payload of a kind 25052 event, and the states
-- of a room.
use obelisk_sfu.Prelude.{ℕ, String, Bool, List, Option}

-- `maxParticipants` and `endsAt` are non-negative integers here.
pub record RoomRules : Type 0 where
  pub video : Bool
  pub screen : Bool
  pub allow : Option (List String)
  pub deny : List String
  pub max_participants : Option ℕ
  pub ends_at : Option ℕ

-- A member of `params`. `none` is an absent member; `some none` is `null` where that is allowed.
pub record SfuControlParams : Type 0 where
  pub video : Option Bool
  pub screen : Option Bool
  pub allow : Option (Option (List String))
  pub deny : Option (List String)
  pub max_participants : Option (Option ℕ)
  pub ends_at : Option (Option ℕ)
  pub target : Option String
  pub reason : Option String

pub data SfuControlAction : Type 0 where
  start end kick update : SfuControlAction
  -- any other text, or no action at all
  unknown : SfuControlAction

pub record SfuControlPayload : Type 0 where
  pub action : SfuControlAction
  pub params : Option SfuControlParams

pub data RoomStatus : Type 0 where
  starting active ending closed : RoomStatus

pub record RoomSnapshot : Type 0 where
  pub channel_id : String
  pub host_pubkey : String
  pub status : RoomStatus
  pub started_at : ℕ
  pub rules : RoomRules
  pub participants : List String
