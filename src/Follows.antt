-- ===== src/Follows.antt =====
-- src/follow-whitelist.ts: the keys that the trusted referents follow. `answers` are the contact
-- lists that the relays return.
pub mod Latest
use obelisk_sfu.Prelude.{String, Bool, true, List, [], ◌∷◌, Option, none, some, if◌then◌else◌, ltb}
use obelisk_sfu.Texts.{to_lower_case, is_hex64}
use obelisk_sfu.Map.{Map, get, set, values}
use obelisk_sfu.StringSet.{add}
use obelisk_sfu.Config.{Config}
use obelisk_sfu.Nostr.{Event, value, is_named}

-- `prev === undefined || prev.created_at < ev.created_at`
abbrev pub is_newer : Event String → Option (Event String) → Bool
is_newer ev none = true
is_newer ev (some prev) = ltb prev.created_at ev.created_at

-- The contact list of each author with the greatest `created_at`, the first of them.
unfoldable pub latest_of : List (Event String) → Map (Event String) → Map (Event String)
latest_of [] m = m
latest_of (ev ∷ evs) m =
    latest_of evs (if is_newer ev (get ev.pubkey m) then set ev.pubkey ev m else m)

-- What one tag adds to the set.
unfoldable pub follow_tag : List String → List String → List String
follow_tag tag s =
    if is_named "p" tag
    then (elim (value tag) [
      | none ↦ s
      | some pk ↦ if is_hex64 (to_lower_case pk) then add (to_lower_case pk) s else s
    ])
    else s

unfoldable pub follow_tags : List (List String) → List String → List String
unfolding follow_tag
follow_tags [] s = s
follow_tags (t ∷ ts) s = follow_tags ts (follow_tag t s)

unfoldable pub follow_lists : List (Event String) → List String → List String
unfolding follow_tags
follow_lists [] s = s
follow_lists (ev ∷ evs) s = follow_lists evs (follow_tags ev.tags s)

unfoldable pub derived : List (Event String) → List String
unfolding latest_of follow_lists
derived answers = follow_lists (values (latest_of answers [])) []

-- The keys for these referents. `none` is a query that throws.
unfoldable pub follows_of : List String → Option (List (Event String)) → Option (List String)
unfolding derived
follows_of [] answers = some []
follows_of (pk ∷ pks) none = none
follows_of (pk ∷ pks) (some evs) = some (derived evs)

abbrev pub with_follows : Option (List String) → Config → Option Config
with_follows none cfg = none
with_follows (some keys) cfg = some (record cfg { follow_allowed_pubkeys = keys })

-- `syncTrustedReferentFollows`, but for the file of the keys.
unfoldable pub sync_trusted_referent_follows : Option (List (Event String)) → Config → Option Config
unfolding follows_of
sync_trusted_referent_follows answers cfg =
    with_follows (follows_of cfg.trusted_referent_pubkeys answers) cfg
