-- ===== src/Relays.antt =====
-- src/relay.ts: what the pool notes about its relays, and the access that it tells from it. The
-- streams of its subscriptions are in Calls/Feeds.
pub mod Access
pub mod Publication
use Prim.Native.String
use text.Mathlib.Text.{starts_with}
use obelisk_sfu.Prelude.{
  ℕ, zero, suc, String, Bool, true, false, not, ◌&&◌, ◌||◌, List, [], ◌∷◌, ◌++◌, map, Option, none,
  some, ◌==◌, if◌then◌else◌, ltb, leb, max, keep, any, value_or,
}
use obelisk_sfu.Texts.{to_lower_case}
use obelisk_sfu.Map.{Map, get, set}
use obelisk_sfu.StringSet.{includes}

pub data Role : Type 0 where
  write read : Role

pub data RelayAccess : Type 0 where
  ok denied closed unknown : RelayAccess

pub record RelayHealth : Type 0 where
  pub url : String
  pub role : Role
  pub access : RelayAccess
  pub access_detail : Option String
  pub last_publish_ok : Option ℕ
  pub last_publish_err : Option ℕ
  pub last_publish_err_msg : Option String
  pub last_subscribe_close : Option ℕ
  pub last_subscribe_close_msg : Option String
  pub last_event_at : Option ℕ

pub record RelayPool : Type 0 where
  pub is_closed : Bool
  pub write_relays : List String
  pub read_only_relays : List String
  pub last_publish_ok : Map ℕ
  pub last_publish_err : Map ℕ
  pub last_publish_err_msg : Map String
  pub last_subscribe_close : Map ℕ
  pub last_subscribe_close_msg : Map String
  pub last_event_at : Map ℕ

-- The constructor.
unfoldable pub new_pool : List String → List String → RelayPool
new_pool relays read_only_relays = record {
  is_closed = false;
  write_relays = relays;
  read_only_relays = keep (λ r. not (includes r relays)) read_only_relays;
  last_publish_ok = [];
  last_publish_err = [];
  last_publish_err_msg = [];
  last_subscribe_close = [];
  last_subscribe_close_msg = [];
  last_event_at = [];
}

-- `s.slice(0, n)`, counted in characters
unfoldable pub slice : ℕ → String → String
slice zero s = ""
slice (suc n) String.[] = ""
slice (suc n) (String.◌∷◌ c s) = String.◌∷◌ c (slice n s)

-- `s.includes(needle)`
unfoldable pub contains : String → String → Bool
contains String.[] needle = needle == ""
contains (String.◌∷◌ c s) needle = starts_with (String.◌∷◌ c s) needle || contains s needle

abbrev pub needles : List String
needles =
    "auth-required" ∷ "auth was required" ∷ "restricted" ∷ "not authorized" ∷ "not authorised"
    ∷ "not allowed" ∷ "forbidden" ∷ "permission" ∷ "blocked" ∷ "whitelist" ∷ "blacklist"
    ∷ "access denied" ∷ "acl" ∷ []

-- `isRelayAccessDenied` of a text
unfoldable pub is_relay_access_denied : String → Bool
unfolding contains
is_relay_access_denied reason = any (contains (to_lower_case reason)) needles

-- `isLocalSubscriptionClose`
unfoldable pub is_local_subscription_close : String → Bool
is_local_subscription_close reason =
    let lower = to_lower_case reason in
    lower == "closed by caller" || lower == "relay connection closed by us" || lower == "<aborted>"

-- How a relay answers to an event.
pub data Answer : Type 0 where
  acks : Answer
  rejects : String → Answer

-- The answer that counts: where access is denied, that after the authentication.
unfoldable pub settled : Answer → Answer → Answer
unfolding is_relay_access_denied
settled acks retry = acks
settled (rejects msg) retry = if is_relay_access_denied msg then retry else rejects msg

unfoldable pub note : ℕ → String → Answer → RelayPool → RelayPool
unfolding slice
note now url acks p = record p { last_publish_ok = set url now p.last_publish_ok }
note now url (rejects msg) p = record p {
  last_publish_err = set url now p.last_publish_err;
  last_publish_err_msg = set url (slice 200 msg) p.last_publish_err_msg;
}

unfoldable pub note_all :
    ℕ → (String → Answer) → (String → Answer) → List String → RelayPool → RelayPool
unfolding note settled
note_all now first retry [] p = p
note_all now first retry (url ∷ urls) p =
    note_all now first retry urls (note now url (settled (first url) (retry url)) p)

-- `publish`, with the answers of each relay to the event and to its retry.
unfoldable pub publish : ℕ → (String → Answer) → (String → Answer) → RelayPool → RelayPool
unfolding note_all
publish now first retry p = note_all now first retry p.write_relays p

-- `recordSubscribeClose`; an empty reason counts as 'subscription closed'.
unfoldable pub record_subscribe_close : ℕ → String → String → RelayPool → RelayPool
unfolding slice is_local_subscription_close
record_subscribe_close now url reason p =
    let msg = slice 200 (if reason == "" then "subscription closed" else reason) in
    if is_local_subscription_close msg then p else record p {
      last_subscribe_close = set url now p.last_subscribe_close;
      last_subscribe_close_msg = set url msg p.last_subscribe_close_msg;
    }

abbrev pub if_write {ℓ} : {A : Type ℓ} → Role → Option A → Option A
if_write write x = x
if_write read x = none

-- A failure is its time and its message.
abbrev pub Failure : Type 0
Failure = ℕ × Option String

abbrev pub at_time : Option ℕ → Option String → Option Failure
at_time none msg = none
at_time (some at) msg = some (at, msg)

-- The first of the two after sorting by time, the latest first.
abbrev pub latest : Option Failure → Option Failure → Option Failure
latest none b = b
latest (some a) none = some a
latest (some a) (some b) = if ltb a.0 b.0 then some b else some a

abbrev pub is_denial : Option String → Bool
is_denial none = false
is_denial (some msg) = is_relay_access_denied msg

-- The verdict from the latest good sign and the latest failure.
unfoldable pub judge : ℕ → Option Failure → RelayAccess × Option String
unfolding is_relay_access_denied
judge last_ok none = if ltb 0 last_ok then (ok, none) else (unknown, none)
judge last_ok (some failure) =
    if ltb 0 last_ok && leb failure.0 last_ok
    then (ok, none)
    else if is_denial failure.1
    then (denied, failure.1)
    else (closed, failure.1)

-- `relayAccess`
unfoldable pub relay_access : String → Role → RelayPool → RelayAccess × Option String
unfolding judge
relay_access url role p =
    judge
      (max (value_or (get url p.last_event_at) 0)
        (value_or (if_write role (get url p.last_publish_ok)) 0))
      (latest
        (at_time (if_write role (get url p.last_publish_err))
          (if_write role (get url p.last_publish_err_msg)))
        (at_time (get url p.last_subscribe_close) (get url p.last_subscribe_close_msg)))

unfoldable pub health_of : Role → RelayPool → String → RelayHealth
unfolding relay_access
health_of role p url = record {
  url = url;
  role = role;
  access = (relay_access url role p).0;
  access_detail = (relay_access url role p).1;
  last_publish_ok = if_write role (get url p.last_publish_ok);
  last_publish_err = if_write role (get url p.last_publish_err);
  last_publish_err_msg = if_write role (get url p.last_publish_err_msg);
  last_subscribe_close = get url p.last_subscribe_close;
  last_subscribe_close_msg = get url p.last_subscribe_close_msg;
  last_event_at = get url p.last_event_at;
}

-- `getRelayHealth`
unfoldable pub get_relay_health : RelayPool → List RelayHealth
unfolding health_of
get_relay_health p =
    map (health_of write p) p.write_relays ++ map (health_of read p) p.read_only_relays
