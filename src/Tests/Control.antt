-- ===== src/Tests/Control.antt =====
-- The theorems on the control events, on who may do what, and on the watchdog.
use obelisk_sfu.Prelude.{
  ℕ, String, true, false, List, [], ◌∷◌, none, some, ◌≡◌, ◌↔◌, ◌≤◌, ◌<◌, ◌⊎◌, refl, arith, value_or,
  eq_iff, inr,
}
use obelisk_sfu.Map.{get, set, size}
use obelisk_sfu.Map.Values.{Each-get}
use obelisk_sfu.StringSet.{includes, distinct, add_all, add}
use obelisk_sfu.Config.{Config}
use obelisk_sfu.Types.{SfuControlParams}
use obelisk_sfu.Nostr.{find_tag}
use obelisk_sfu.Auth.{
  DialContext, ok, can_dial_room, can_manage_room, is_allowed_to_start, is_trusted_author_relay,
}
use obelisk_sfu.Auth.Laws.{can_dial_room-eq-ok_iff, can_manage_room_iff, is_allowed_to_start_iff}
use obelisk_sfu.Rooms.{RoomHandle, empty}
use obelisk_sfu.Calls.{is_authorized, handle}
use obelisk_sfu.Calls.Once.{Delivery, deliver, deliver_all, at_most_once}
use obelisk_sfu.Calls.Rights.{handle-get_ne, handle-no_right}
use obelisk_sfu.Direct.Connection.{opened}
use obelisk_sfu.Calls.Capacity.{Change, delivers, is_ready, enters, changes, changes-size-le}
use obelisk_sfu.Calls.Feeds.{Feeds, tick_watchdog, start, hears}
use obelisk_sfu.Calls.Feeds.Starting.{Happening, heard, ticks, goes_on}
use obelisk_sfu.Calls.Feeds.Streams.{is_open, IsOrderly}
use obelisk_sfu.Calls.Feeds.Renewal.{IsRenewed, tick_watchdog-renews, tick_watchdog-keeps}
use obelisk_sfu.Tests.Samples.{cfg, rules, registry, manager, ending, starting}

abbrev dialing : DialContext
dialing = record { rules = rules; members = []; host_pubkey = "alice"; sender = "mallory" }

can_dial_room_example : (can_dial_room dialing ≡ ok) ↔ (
    (includes "mallory" rules.deny ≡ false)
    × ((rules.allow ≡ none)
        ⊎ ((allow : List String) × (rules.allow ≡ some allow) × (includes "mallory" allow ≡ true))))
can_dial_room_example = can_dial_room-eq-ok_iff dialing

abbrev alice : String
alice = "alice"

is_allowed_to_start_example : (is_allowed_to_start cfg 9 "server" "alice" ≡ true) ↔ (
    (cfg.allow_all ≡ true)
    ⊎ ((until : ℕ) × (cfg.whitelist_bypass_until ≡ some until) × (9 < until))
    ⊎ (alice ≡ value_or cfg.operator_pubkey "server")
    ⊎ (includes "alice" cfg.allowed_pubkeys ≡ true)
    ⊎ (includes "alice" cfg.follow_allowed_pubkeys ≡ true))
is_allowed_to_start_example = is_allowed_to_start_iff cfg 9 "server" "alice"

abbrev bob : String
bob = "bob"

can_manage_room_example :
    (can_manage_room cfg "server" bob "alice" ≡ true)
    ↔ ((bob ≡ "alice") ⊎ (bob ≡ value_or cfg.operator_pubkey "server"))
can_manage_room_example = can_manage_room_iff cfg "server" bob "alice"

-- `video` is switched off, then the end is taken away.
abbrev first_params : SfuControlParams
first_params = record {
  video = some false;
  screen = none;
  allow = none;
  deny = none;
  max_participants = none;
  ends_at = some (some 7);
  target = none;
  reason = none;
}

abbrev next_params : SfuControlParams
next_params = record first_params { video = none; ends_at = some none }

abbrev delivery : ℕ → String → Delivery
delivery now source = record {
  now = now;
  cfg = cfg;
  channels = registry;
  event = starting "e1" "alice";
  source = source;
}

abbrev between : List Delivery
between = record (delivery 7000 "wss://one") { event = ending "e2" "alice" } ∷ []

at_most_once_example :
    let s' =
      deliver_all "server" between (deliver "server" (delivery 6000 "wss://one") ([], empty)) in
    (deliver "server" (delivery 8000 "wss://two") s').1 ≡ s'.1
unfolding get
at_most_once_example =
    at_most_once "server" (delivery 6000 "wss://one") (delivery 8000 "wss://two") between
      ([], empty) refl refl refl (omega arith, tt) (omega arith)

named_channel : find_tag "e" (ending "e3" "alice").tags ≡ some "channel"
unfolding find_tag
named_channel = refl

handle-get_ne_example :
    get "other"
      (handle cfg "server" 9000 registry (ending "e3" "alice") "wss://one" ([], manager)).1.rooms
    ≡ get "other" manager.rooms
handle-get_ne_example =
    handle-get_ne cfg "server" 9000 registry (ending "e3" "alice") "wss://one" ([], manager)
      "channel" "other" named_channel refl

-- A sender that is neither on a list nor the host of the one room.
stranger_cannot_start :
    is_authorized cfg "server" 9000 "mallory" (is_trusted_author_relay cfg "wss://one") ≡ false
unfolding is_allowed_to_start is_trusted_author_relay includes
stranger_cannot_start = refl

stranger_cannot_manage :
    (id : String) (h : RoomHandle)
    → get id manager.rooms ≡ some h
    → can_manage_room cfg "server" "mallory" h.room.host_pubkey ≡ false
unfolding can_manage_room
stranger_cannot_manage id h e =
    Each-get (λ _ x. can_manage_room cfg "server" "mallory" x.room.host_pubkey ≡ false) id h
      manager.rooms (refl, tt) e

handle-no_right_example :
    (handle cfg "server" 9000 registry (ending "e3" "mallory") "wss://one" ([], manager)).1
    ≡ manager
handle-no_right_example =
    handle-no_right cfg "server" 9000 registry (ending "e3" "mallory") "wss://one" ([], manager)
      stranger_cannot_start stranger_cannot_manage

abbrev story : List (Config × ℕ × Change)
story =
    (cfg, 6000, delivers registry (starting "e1" "alice") "wss://one")
    ∷ (cfg, 6500, is_ready "other" 0)
    ∷ (cfg, 6600, enters "third" 3 "alice" "tab" (opened empty))
    ∷ (
      cfg,
      7000,
      delivers registry
          (record (starting "e4" "alice") {
            tags = ("p" ∷ "server" ∷ []) ∷ ("e" ∷ "third" ∷ []) ∷ [];
          })
          "wss://one",
    )
    ∷ []

changes-size-le_example : size (changes "server" story ([], empty)).1.rooms ≤ 1
changes-size-le_example =
    changes-size-le "server" 1 story (omega arith, (omega arith, (omega arith, (omega arith, tt))))

-- Two subscriptions: the one to the first relay has been silent for 400 seconds.
abbrev feeds : Feeds
feeds = record {
  subscriptions = ("wss://one", some 0) ∷ ("wss://two", some 1) ∷ [];
  filter_since = some 40;
  watchdog = true;
  last_event_at = ("wss://one", 100) ∷ ("wss://two", 450) ∷ [];
  pool_closed = false;
  open_streams = 0 ∷ 1 ∷ [];
  next_stream = 2;
}

of_feeds :
    (url : String) (n : ℕ)
    → get url feeds.subscriptions ≡ some (some n)
    → (is_open n feeds ≡ true) × (n < 2)
unfolding get
of_feeds url n e = ground (arith, eq_iff "wss://one" url, eq_iff "wss://two" url)

feeds-IsOrderly : IsOrderly feeds
unfolding get
feeds-IsOrderly = record {
  opened = λ url n e. (of_feeds url n e).0;
  below = λ url n e. (of_feeds url n e).1;
  apart = λ a b n e f. ground (
    arith,
    eq_iff a b,
    eq_iff "wss://one" a,
    eq_iff "wss://two" a,
    eq_iff "wss://one" b,
    eq_iff "wss://two" b,
  );
}

tick_watchdog-renews_example : IsRenewed 500 2 "wss://one" (tick_watchdog 500 feeds)
unfolding includes get
tick_watchdog-renews_example =
    tick_watchdog-renews 500 "wss://one" feeds (record { pool = refl; filter = (40, refl) })
      feeds-IsOrderly refl (inr (100, refl, omega arith))

tick_watchdog-keeps_example :
    (get "wss://two" (tick_watchdog 500 feeds).subscriptions ≡ some (some 1))
    × (is_open 1 (tick_watchdog 500 feeds) ≡ true)
unfolding get
tick_watchdog-keeps_example =
    tick_watchdog-keeps 500 "wss://two" 1 450 feeds (record { pool = refl; filter = (40, refl) })
      feeds-IsOrderly refl refl (omega arith)

abbrev unstarted : Feeds
unstarted = record feeds { subscriptions = []; filter_since = none; open_streams = [] }

abbrev happenings : List (ℕ × Happening)
happenings = (130, heard "wss://two") ∷ (401, ticks) ∷ (600, ticks) ∷ []

-- The first relay has been silent for 301 seconds at the first tick, the other one at the second.
renewed :
    (goes_on happenings (start cfg 100 unstarted)).subscriptions
    ≡ ("wss://one", some 4) ∷ ("wss://two", some 5) ∷ []
unfolding start tick_watchdog hears set get includes distinct add_all add
renewed = refl
