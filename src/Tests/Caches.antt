-- ===== src/Tests/Caches.antt =====
-- The theorems on the channel list, the membership tracker, the sessions of the console and the
-- frames.
use obelisk_sfu.Prelude.{
  ℕ, true, false, String, List, [], ◌∷◌, none, some, refl, arith, ◌≡◌, ◌↔◌, any, if◌then◌else◌,
}
use obelisk_sfu.Map.{get}
use obelisk_sfu.Nostr.{Event}
use obelisk_sfu.Channels.{parse_group_metadata_tags, voice_sfu, voice, forum, text}
use obelisk_sfu.Channels.Parsing.{marks, kind-parse}
use obelisk_sfu.Channels.Newest
use obelisk_sfu.Channels.Newest.{expected, get-replay}
use obelisk_sfu.Membership.Counting.{
  Call, watches, releases, times_out, replay, holders, refcount_of, refcount-replay,
}
use obelisk_sfu.Frames.{pong, head, read_head, write_frame, read_head-write_frame}
use obelisk_sfu.Sessions.{lookup}
use obelisk_sfu.Sessions.Histories
use obelisk_sfu.Sessions.Histories.{issues, looks, revokes, restarts, lookup-replay}
use obelisk_sfu.Membership.Subscriptions.{count, count_entries, replay-IsCovered}

abbrev metadata : ℕ → List (List String) → Event Unit
metadata at more = record {
  id = "m";
  pubkey = "relay";
  kind = 39000;
  created_at = at;
  tags = ("d" ∷ "channel" ∷ []) ∷ more;
  content = none;
}

-- The latest delivery, of an older event, stands first.
abbrev deliveries : List (Event Unit × String)
deliveries =
    (metadata 5 [], "wss://two") ∷ (metadata 9 (("t" ∷ "voice-sfu" ∷ []) ∷ []), "wss://one") ∷ []

get-replay_example :
    get "channel" (Newest.replay deliveries).channels ≡ expected "channel" deliveries
get-replay_example = get-replay "channel" deliveries

abbrev mixed : List (List String)
mixed = ("t" ∷ "voice" ∷ []) ∷ ("t" ∷ "voice-sfu" ∷ []) ∷ []

kind-parse_example : (parse_group_metadata_tags mixed).kind ≡ (
    if any (marks "voice-sfu") mixed
    then voice_sfu
    else if any (marks "voice") mixed
    then voice
    else if any (marks "forum") mixed
    then forum
    else text)
kind-parse_example = kind-parse mixed

abbrev watching : List (Call Unit)
watching = releases "channel" ∷ times_out "channel" 0 ∷ watches "channel" ∷ watches "channel" ∷ []

refcount-replay_example :
    (refcount_of (get "channel" (replay watching).channels) ≡ holders "channel" watching)
    × ((get "channel" (replay watching).channels ≡ none) ↔ (holders "channel" watching ≡ 0))
refcount-replay_example = refcount-replay "channel" watching

replay-IsCovered_example :
    count 0 (replay watching).open_subs ≡ count_entries 0 (replay watching).channels
replay-IsCovered_example = replay-IsCovered watching 0

-- A hash without collisions.
abbrev plain : String → String
plain token = token

-- One session is revoked, the other lasts across a restart.
abbrev calls : List Histories.Call
calls = restarts 90 ∷ revokes 80 (some "t1") ∷ issues 70 "t2" "bob" ∷ issues 60 "t1" "alice" ∷ []

lookup-replay_example :
    (lookup plain 100 (some "t2") (Histories.replay plain (λ s t. refl) calls)).0
    ≡ Histories.expected "t2" 100 calls
lookup-replay_example =
    lookup-replay plain (λ s t. refl) 100 "t2" calls
      (omega arith, (omega arith, (omega arith, (omega arith, tt))))
      (
        (omega arith, (omega arith, (omega arith, tt))),
        ((omega arith, (omega arith, tt)), ((omega arith, tt), (tt, tt))),
      )

read_head-write_frame_example :
    read_head (write_frame pong (7 ∷ 8 ∷ [])) ≡ head true 10 false 2 (7 ∷ 8 ∷ [])
read_head-write_frame_example = read_head-write_frame pong (7 ∷ 8 ∷ []) (omega arith)
