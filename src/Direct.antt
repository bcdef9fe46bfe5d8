-- ===== src/Direct.antt =====
-- src/direct-rpc.ts: who may open a session over a WebSocket. `verify_event` is that of
-- nostr-tools, and `parse_url` gives the path and the query of what `new URL` accepts.
pub mod Connection
pub mod Steps
pub mod Induction
pub mod Guard
pub mod Closing
pub mod Leaks
pub mod Wire
use Prim.Native.Char.{code}
use Prim.Native.String
use obelisk_sfu.Prelude.{
  ℕ, String, Bool, true, false, not, ◌&&◌, ◌||◌, Option, none, some, ◌==◌, ◌+◌, ◌-◌, if◌then◌else◌,
  ltb, leb, nat_eq, is_text,
}
use obelisk_sfu.Texts.{to_lower_case, is_hex64, char_count}
use obelisk_sfu.Nostr.{Event, find_tag}

-- `pathname` and `search` of a URL.
pub record Url : Type 0 where
  pub pathname : String
  pub search : String

abbrev pub auth_kind : ℕ
auth_kind = 22242

abbrev pub auth_max_age_seconds : ℕ
auth_max_age_seconds = 300

abbrev is_client_char : ℕ → Bool
is_client_char c =
    (leb b'a' c && leb c b'z')
    || (leb b'A' c && leb c b'Z')
    || (leb b'0' c && leb c b'9')
    || nat_eq c b'.'
    || nat_eq c b'_'
    || nat_eq c b':'
    || nat_eq c b'-'

all_client_chars : String → Bool
all_client_chars String.[] = true
all_client_chars (String.◌∷◌ c s) = is_client_char (code c) && all_client_chars s

-- `/^[a-zA-Z0-9._:-]{1,80}$/.test(s)`
unfoldable pub is_client_id : String → Bool
unfolding all_client_chars char_count
is_client_id s = leb 1 (char_count s) && leb (char_count s) 80 && all_client_chars s

-- `Math.abs(a - b)`
abbrev pub distance : ℕ → ℕ → ℕ
distance a b = (a - b) + (b - a)

module _ (parse_url : String → Option Url) where
  -- `samePathAndSearch`
  unfoldable pub same_path_and_search : String → String → Bool
  same_path_and_search a b = elim (parse_url a) [
    | none ↦ a == b
    | some ua ↦ elim (parse_url b) [
      | none ↦ a == b
      | some ub ↦ ua.pathname == ub.pathname && ua.search == ub.search
    ]
  ]

  -- `relayTag && samePathAndSearch(relayTag, expectedUrl)`
  unfoldable pub names_relay : String → Option String → Bool
  unfolding same_path_and_search
  names_relay expected_url none = false
  names_relay expected_url (some t) = not (t == "") && same_path_and_search t expected_url

module _ (verify_event : Event String → Bool) (parse_url : String → Option Url) where
  -- `verifyAuthEvent`
  unfoldable pub verify_auth_event :
      ℕ → String → String → String → Option (Event String) → Option String
  unfolding names_relay
  verify_auth_event now challenge channel_id expected_url none = none
  verify_auth_event now challenge channel_id expected_url (some ev) =
      if not (nat_eq ev.kind auth_kind)
      then none
      else if not (verify_event ev)
      then none
      else if ltb auth_max_age_seconds (distance now ev.created_at)
      then none
      else if not (is_text (find_tag "challenge" ev.tags) challenge)
      then none
      else if not (is_text (find_tag "e" ev.tags) channel_id)
      then none
      else if not (names_relay parse_url expected_url (find_tag "relay" ev.tags))
      then none
      else if is_hex64 ev.pubkey
      then some (to_lower_case ev.pubkey)
      else none
