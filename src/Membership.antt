-- ===== src/Membership.antt =====
-- src/membership.ts: the admin and member lists of the channels that are watched.
pub mod Counting
pub mod Subscriptions
use obelisk_sfu.Prelude.{
  ℕ, suc, String, Bool, true, false, List, [], ◌∷◌, map, Option, none, some, ◌==◌, ◌&&◌, ◌-◌, ◌+◌,
  if◌then◌else◌, ltb, nat_eq, keep, is_text, not,
}
use obelisk_sfu.Map.{Map, get, set, delete}
use obelisk_sfu.StringSet.{distinct}
use obelisk_sfu.Texts.{is_hex64, to_lower_case}
use obelisk_sfu.Nostr.{Event, value, is_named, kind_nip29_group_admins, kind_nip29_group_members}

-- The promise `ready`, and whether its timeout is armed.
pub data Ready : Type 0 where
  pending resolved rejected : Ready

-- `sub` identifies the relay subscription that `unsub` closes, and with it the object.
pub record ChannelState : Type 0 where
  pub members : List String
  pub members_at : ℕ
  pub admins : List String
  pub admins_at : ℕ
  pub ready : Ready
  pub sub : ℕ
  pub refcount : ℕ

-- `open_subs` holds the relay subscriptions that are open, `next_sub` the next identity.
pub record MembershipTracker : Type 0 where
  pub channels : Map ChannelState
  pub open_subs : List ℕ
  pub next_sub : ℕ

abbrev pub init : MembershipTracker
init = record { channels = []; open_subs = []; next_sub = 0 }

abbrev hex_value : Option String → Bool
hex_value none = false
hex_value (some s) = is_hex64 s

abbrev lowered : Option String → String
lowered none = ""
lowered (some s) = to_lower_case s

-- `pubkeysFromTags`
unfoldable pub pubkeys_from_tags : List (List String) → List String
pubkeys_from_tags tags =
    map (λ t. lowered (value t)) (keep (λ t. is_named "p" t && hex_value (value t)) tags)

unfoldable pub watch : String → MembershipTracker → MembershipTracker
watch channel_id m = elim (get channel_id m.channels) [
  | some existing ↦ record m {
    channels = set channel_id (record existing { refcount = suc existing.refcount }) m.channels;
  }
  | none ↦
      let state : ChannelState = record {
        members = [];
        members_at = 0;
        admins = [];
        admins_at = 0;
        ready = pending;
        sub = m.next_sub;
        refcount = 1;
      } in
      record {
        channels = set channel_id state m.channels;
        open_subs = m.next_sub ∷ m.open_subs;
        next_sub = suc m.next_sub;
      }
]

-- A promise settles once.
abbrev resolve : Ready → Ready
resolve pending = resolved
resolve r = r

-- The body of `ingest` after the lookup; an event older than the list of its kind is dropped
-- before `resolveReady`.
unfoldable pub ingest_state : {C : Type 0} → Event C → ChannelState → ChannelState
ingest_state ev state =
    let pubkeys = pubkeys_from_tags ev.tags in
    if nat_eq ev.kind kind_nip29_group_members
    then (if ltb ev.created_at state.members_at then state else record state {
      members = distinct pubkeys;
      members_at = ev.created_at;
      ready = resolve state.ready;
    })
    else if nat_eq ev.kind kind_nip29_group_admins
    then (if ltb ev.created_at state.admins_at then state else record state {
      admins = distinct pubkeys;
      admins_at = ev.created_at;
      ready = resolve state.ready;
    })
    else record state { ready = resolve state.ready }

unfoldable pub ingest : {C : Type 0} → String → Event C → MembershipTracker → MembershipTracker
ingest channel_id ev m = elim (get channel_id m.channels) [
  | none ↦ m
  | some state ↦ record m { channels = set channel_id (ingest_state ev state) m.channels }
]

-- The timeout that `watch` arms on the object with the given identity: it rejects the promise if
-- both lists are empty. Settling the promise clears the timeout.
abbrev is_empty : List String → Bool
is_empty [] = true
is_empty (x ∷ xs) = false

abbrev reject : Ready → Ready
reject pending = rejected
reject r = r

unfoldable pub ready_timeout : String → ℕ → MembershipTracker → MembershipTracker
ready_timeout channel_id sub m = elim (get channel_id m.channels) [
  | none ↦ m
  | some state ↦
      if nat_eq state.sub sub && is_empty state.members && is_empty state.admins
      then record m {
        channels = set channel_id (record state { ready = reject state.ready }) m.channels;
      }
      else m
]

-- `unsub()` closes the subscription of the state.
unfoldable pub close_sub : ℕ → List ℕ → List ℕ
close_sub sub [] = []
close_sub sub (s ∷ ss) = if nat_eq s sub then ss else s ∷ close_sub sub ss

unfoldable pub release : String → MembershipTracker → MembershipTracker
release channel_id m = elim (get channel_id m.channels) [
  | none ↦ m
  | some state ↦
      if ltb 0 (state.refcount - 1)
      then record m {
        channels = set channel_id (record state { refcount = state.refcount - 1 }) m.channels;
      }
      else record m {
        channels = delete channel_id m.channels;
        open_subs = close_sub state.sub m.open_subs;
      }
]

unfoldable pub get_members : String → MembershipTracker → List String
get_members channel_id m = elim (get channel_id m.channels) [
  | none ↦ []
  | some state ↦ state.members
]

unfoldable pub get_admins : String → MembershipTracker → List String
get_admins channel_id m = elim (get channel_id m.channels) [ none ↦ [] | some state ↦ state.admins ]
