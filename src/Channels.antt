-- ===== src/Channels.antt =====
-- src/channel-registry.ts: the newest-wins cache of the relays' kind 39000 events.
pub mod Parsing
pub mod Newest
use package.text.Mathlib.Text.{is_lt}
use Prim.Native.String.{compare}
use obelisk_sfu.Prelude.{
  ℕ, String, Bool, true, false, not, List, [], ◌∷◌, ◌++◌, map, Option, none, some, ◌==◌, ◌&&◌, ◌||◌,
  ◌+◌, if◌then◌else◌, ltb, nat_eq, length, keep, is_text, value_or,
}
use obelisk_sfu.Map.{Map, get, set, values}
use obelisk_sfu.StringSet.{add, distinct}
use obelisk_sfu.Sorting.{sort}
use obelisk_sfu.Nostr.{Event, name, value, is_named}

pub data RelayChannelKind : Type 0 where
  text voice voice_sfu forum : RelayChannelKind

-- `ChannelRecord`: `relays` is a set. `RelayChannelInfo` has the same fields, with the relays as
-- a sorted list.
pub record ChannelRecord : Type 0 where
  pub id : String
  pub kind : RelayChannelKind
  pub title : Option String
  pub about : Option String
  pub is_public : Bool
  pub is_open : Bool
  pub updated_at : ℕ
  pub relays : List String

pub record ParsedMetadata : Type 0 where
  pub id : Option String
  pub title : Option String
  pub about : Option String
  pub is_public : Bool
  pub is_open : Bool
  pub kind : RelayChannelKind

pub record ChannelRegistryStatus : Type 0 where
  pub subscribed : Bool
  pub relays : ℕ
  pub total_channels : ℕ
  pub voice_channels : ℕ
  pub mesh_voice_channels : ℕ
  pub sfu_voice_channels : ℕ

-- `subscribed` is `unsubscribe !== null`.
pub record ChannelRegistry : Type 0 where
  pub subscribed : Bool
  pub channels : Map ChannelRecord

-- The local variables of `parseGroupMetadataTags`.
pub record TagScan : Type 0 where
  pub id : Option String
  pub title : Option String
  pub about : Option String
  pub is_public : Bool
  pub is_open : Bool
  pub has_voice_sfu : Bool
  pub has_voice : Bool
  pub has_forum : Bool

-- `if (x === null && value) x = value`
unfoldable pub first_value : Option String → Option String → Option String
first_value (some x) new = some x
first_value none none = none
first_value none (some v) = if v == "" then none else some v

-- The body of the loop.
unfoldable pub scan_tag : TagScan → List String → TagScan
unfolding first_value
scan_tag s tag =
    if is_named "d" tag
    then record s { id = first_value s.id (value tag) }
    else if is_named "name" tag
    then record s { title = first_value s.title (value tag) }
    else if is_named "about" tag
    then record s { about = first_value s.about (value tag) }
    else if is_named "public" tag
    then record s { is_public = true }
    else if is_named "open" tag
    then record s { is_open = true }
    else if is_named "t" tag
    then (if is_text (value tag) "voice-sfu"
        then record s { has_voice_sfu = true }
        else if is_text (value tag) "voice"
        then record s { has_voice = true }
        else if is_text (value tag) "forum"
        then record s { has_forum = true }
        else s)
    else s

unfoldable pub scan_tags : TagScan → List (List String) → TagScan
scan_tags s [] = s
scan_tags s (tag ∷ tags) = scan_tags (scan_tag s tag) tags

abbrev pub no_tags : TagScan
no_tags = record {
  id = none;
  title = none;
  about = none;
  is_public = false;
  is_open = false;
  has_voice_sfu = false;
  has_voice = false;
  has_forum = false;
}

abbrev pub channel_kind : Bool → Bool → Bool → RelayChannelKind
channel_kind has_voice_sfu has_voice has_forum =
    if has_voice_sfu
    then voice_sfu
    else if has_voice
    then voice
    else if has_forum
    then forum
    else text

unfoldable pub parse_group_metadata_tags : List (List String) → ParsedMetadata
parse_group_metadata_tags tags =
    let s = scan_tags no_tags tags in
    record {
      id = s.id;
      title = s.title;
      about = s.about;
      is_public = s.is_public;
      is_open = s.is_open;
      kind = channel_kind s.has_voice_sfu s.has_voice s.has_forum;
    }

abbrev pub new_record : String → ParsedMetadata → ℕ → String → ChannelRecord
new_record id parsed created_at source_relay = record {
  id = id;
  kind = parsed.kind;
  title = parsed.title;
  about = parsed.about;
  is_public = parsed.is_public;
  is_open = parsed.is_open;
  updated_at = created_at;
  relays = source_relay ∷ [];
}

-- `ingest` once the id is known to be a text with characters in it; `found` is the entry under it.
unfoldable pub ingest_parsed :
    ChannelRegistry → String → ParsedMetadata → ℕ → String → Option ChannelRecord → ChannelRegistry
ingest_parsed reg id parsed created_at source_relay none = record reg {
  channels = set id (new_record id parsed created_at source_relay) reg.channels;
}
ingest_parsed reg id parsed created_at source_relay (some prev) =
    if ltb created_at prev.updated_at
    then reg
    else if nat_eq created_at prev.updated_at
    then record reg {
      channels = set id (record prev { relays = add source_relay prev.relays }) reg.channels;
    }
    else record reg {
      channels = set id (new_record id parsed created_at source_relay) reg.channels;
    }

unfoldable pub ingest : {C : Type 0} → ChannelRegistry → Event C → String → ChannelRegistry
unfolding ingest_parsed
ingest reg ev source_relay =
    let parsed = parse_group_metadata_tags ev.tags in
    elim parsed.id [
      | none ↦ reg
      | some id ↦ ingest_parsed reg id parsed ev.created_at source_relay (get id reg.channels)
    ]

-- The relays that `start` subscribes on, beside the new state.
unfoldable pub start : List String → ChannelRegistry → ChannelRegistry × List String
start all_relays reg =
    if reg.subscribed then (reg, []) else (record reg { subscribed = true }, all_relays)

unfoldable pub stop : ChannelRegistry → ChannelRegistry
stop reg = record reg { subscribed = false }

abbrev not_after : String → String → Bool
not_after s t = not (is_lt (compare t s))

unfoldable pub snapshot : ChannelRecord → ChannelRecord
snapshot rec = record rec { relays = sort not_after rec.relays }

unfoldable pub get_channel : ChannelRegistry → String → Option ChannelRecord
unfolding snapshot
get_channel reg channel_id = elim (get channel_id reg.channels) [
  | none ↦ none
  | some rec ↦ some (snapshot rec)
]

abbrev pub is_voice : RelayChannelKind → Bool
is_voice voice = true
is_voice _ = false

abbrev pub is_voice_sfu : RelayChannelKind → Bool
is_voice_sfu voice_sfu = true
is_voice_sfu _ = false

-- `locale_le s t` is `s.localeCompare(t) <= 0`, the host's collation.
unfoldable pub list_voice_channels : (String → String → Bool) → ChannelRegistry → List ChannelRecord
unfolding snapshot
list_voice_channels locale_le reg =
    sort (λ a b. locale_le (value_or a.title a.id) (value_or b.title b.id))
      (map snapshot (keep (λ c. is_voice c.kind || is_voice_sfu c.kind) (values reg.channels)))

unfoldable pub get_status : List String → ChannelRegistry → ChannelRegistryStatus
get_status all_relays reg =
    let all = values reg.channels in
    let mesh = length (keep (λ c. is_voice c.kind) all) in
    let sfu = length (keep (λ c. is_voice_sfu c.kind) all) in
    record {
      subscribed = reg.subscribed;
      relays = length all_relays;
      total_channels = length all;
      voice_channels = mesh + sfu;
      mesh_voice_channels = mesh;
      sfu_voice_channels = sfu;
    }
