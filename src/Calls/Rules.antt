-- ===== src/Calls/Rules.antt =====
-- `STARTING_RULES` and `mergeRules` of src/call-listener.ts.
use obelisk_sfu.Prelude.{true, [], Option, none, some, value_or}
use obelisk_sfu.Types.{RoomRules, SfuControlParams}

abbrev pub starting_rules : RoomRules
starting_rules = record {
  video = true;
  screen = true;
  allow = none;
  deny = [];
  max_participants = none;
  ends_at = none;
}

unfoldable pub merge_rules : RoomRules → Option SfuControlParams → RoomRules
merge_rules base none = base
merge_rules base (some params) = record {
  video = value_or params.video base.video;
  screen = value_or params.screen base.screen;
  allow = value_or params.allow base.allow;
  deny = value_or params.deny base.deny;
  max_participants = value_or params.max_participants base.max_participants;
  ends_at = value_or params.ends_at base.ends_at;
}
