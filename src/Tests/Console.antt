-- ===== src/Tests/Console.antt =====
-- Requests of an operator and of a stranger, and the contact lists of two referents.
use obelisk_sfu.Prelude.{
  ℕ, String, Bool, true, false, List, [], ◌∷◌, Option, none, some, ◌≡◌, ◌↔◌, refl,
}
use obelisk_sfu.Nostr.{Event, find_tag}
use obelisk_sfu.Rooms
use obelisk_sfu.Texts.{to_lower_case}
use obelisk_sfu.Admin.{verify_nip98}
use obelisk_sfu.StringSet.{includes}
use obelisk_sfu.Direct.{Url}
use obelisk_sfu.Follows.{derived}
use obelisk_sfu.Follows.Latest.{newest, follows, includes-derived}
use obelisk_sfu.Admin.Overrides.{
  RuntimeOverrides, no_voids, merge_patch, merge, number, apply_overrides,
}
use obelisk_sfu.Http.{Request, HttpMethod, Route}
use obelisk_sfu.Map.{get}
use obelisk_sfu.Http.Handlers.{Server, Moment, handle}
use obelisk_sfu.Http.Overriding.{IsConsistent, handle-IsConsistent}
use obelisk_sfu.Texts.{is_hex, is_hex64}
use obelisk_sfu.Tests.Samples

abbrev nothing : RuntimeOverrides
nothing = record {
  relays = none;
  trusted_author_relays = none;
  allowed = none;
  trusted_referent_pubkeys = none;
  whitelist_bypass_until = none;
  allow_all = none;
  require_allowed_pubkey = none;
  public_url = none;
  region = none;
  operator_pubkey = none;
  admins = none;
  max_call_duration_seconds = none;
}

abbrev patch : RuntimeOverrides
patch = record nothing {
  relays = some ("wss://three" ∷ []);
  max_call_duration_seconds = some (number 600 false);
}

abbrev server : Server
server = record {
  cfg = Samples.cfg;
  sfu_pubkey = "5f";
  sessions = record { sessions = []; saved = [] };
  rooms = Rooms.empty;
  overrides = nothing;
  effects = [];
}

abbrev page_status : Route → ℕ
page_status r = 200

abbrev moment : Moment
moment = record {
  now = 100;
  now_ms = 100000;
  fresh = "t";
  contacts = none;
  page = page_status;
  made = record { producer = "p9"; transport = "t9" };
}

abbrev signed : Event String
signed = record {
  id = "1";
  pubkey = "operator";
  kind = 27235;
  created_at = 90;
  tags = ("u" ∷ "https://sfu/admin/state" ∷ []) ∷ ("method" ∷ "PUT" ∷ []) ∷ [];
  content = some "";
}

abbrev put_state : Request
put_state = record {
  method = HttpMethod.put;
  url = "/admin/state";
  token = none;
  authorization = some "Nostr e30";
  full_url = "https://sfu/admin/state";
  patch = some (record { given = patch; voids = no_voids });
  injection = none;
}

abbrev verify_event : Event String → Bool
verify_event ev = true

abbrev parse_url : String → Option Url
parse_url s = none

abbrev decode : String → Option (Event String)
decode s = some signed

abbrev plain : String → String
plain s = s

handle-IsConsistent_example :
    IsConsistent Samples.cfg
      (handle verify_event parse_url decode plain plain moment put_state server).1
unfolding apply_overrides
handle-IsConsistent_example =
    handle-IsConsistent verify_event parse_url decode plain plain Samples.cfg moment put_state
      server refl ((tt, tt, tt, tt, tt, tt, tt), refl)

abbrev key : String
key = "a11ce00000000000000000000000000000000000000000000000000000000000"

abbrev contact_list : ℕ → String → Event String
contact_list at pk = record {
  id = "2";
  pubkey = "referent";
  kind = 3;
  created_at = at;
  tags = ("p" ∷ pk ∷ []) ∷ ("t" ∷ "voice" ∷ []) ∷ [];
  content = some "";
}

abbrev answers : List (Event String)
answers = contact_list 5 "gone" ∷ contact_list 9 key ∷ []

includes-derived_example : (includes key (derived answers) ≡ true) ↔ (
    (author : String) × (ev : Event String) × (newest author answers ≡ some ev)
    × (follows key ev ≡ true))
includes-derived_example = includes-derived key answers

-- The operator's patch is applied: the statements above are about it.
accepted : (handle verify_event parse_url decode plain plain moment put_state server).0 ≡ 200
unfolding handle verify_nip98 to_lower_case find_tag
accepted = refl

-- Anyone puts a synthetic peer into a room.
abbrev busy : Server
busy = record server {
  rooms = record Rooms.empty { rooms = ("c0de", record { ref = 0; room = Samples.room }) ∷ [] };
}

abbrev inject : Request
inject = record put_state {
  method = HttpMethod.post;
  url = "/test/inject";
  authorization = none;
  injection = some (record {
    channel_id = some "c0de";
    is_video = false;
    voice_kind = none;
    origin_pubkey = some key;
  });
}

injected : (handle verify_event parse_url decode plain plain moment inject busy).0 ≡ 200
unfolding handle is_hex is_hex64 get
injected = refl

-- `{"relays": null}` is let through and hides the relays that are stored: they stay those of the
-- running configuration, and a restart would take those of the environment.
abbrev once : Server
once = (handle verify_event parse_url decode plain plain moment put_state server).1

abbrev put_null : Request
put_null = record put_state {
  patch = some (record { given = nothing; voids = record no_voids { relays = true } });
}

abbrev twice : Server
twice = (handle verify_event parse_url decode plain plain moment put_null once).1

relays_run : twice.cfg.relays ≡ "wss://three" ∷ []
unfolding handle verify_nip98 to_lower_case find_tag merge_patch merge apply_overrides
relays_run = refl

relays_restart :
    (apply_overrides twice.overrides Samples.cfg).relays ≡ "wss://one" ∷ "wss://two" ∷ []
unfolding handle verify_nip98 to_lower_case find_tag merge_patch merge apply_overrides
relays_restart = refl
