-- ===== src/Tests/Workers.antt =====
-- An engine of two workers, and the relays of a pool.
use obelisk_sfu.Prelude.{String, true, List, [], ◌∷◌, ◌≡◌, ◌==◌, refl, arith, length, if◌then◌else◌}
use obelisk_sfu.Texts.{to_lower_case}
use obelisk_sfu.StringSet.{includes}
use obelisk_sfu.Map.{get, set}
use obelisk_sfu.Relays.{
  write, ok, denied, RelayPool, new_pool, Answer, acks, rejects, publish, relay_access,
}
use obelisk_sfu.Relays.Access.{access_shown, relay_access-publish}
use obelisk_sfu.Engine.{booted, Call, gets, closes, gets_created, gets_failed, run}
use obelisk_sfu.Engine.Rotation.{turns, asked-run}
use obelisk_sfu.Engine.Overlaps.{is_live, overlapping, is_live-overlapping}

abbrev calls : List Call
calls = gets "one" ∷ gets_created 0 ∷ gets "two" ∷ gets_failed 0 ∷ closes "one" ∷ gets "one" ∷ []

asked-run_example : (run calls (booted 2)).asked ≡ turns 2 (length (run calls (booted 2)).asked)
asked-run_example = asked-run 2 calls (omega arith)

is_live-overlapping_example : is_live 0 (run calls (run (overlapping "one") (booted 2))) ≡ true
unfolding booted get
is_live-overlapping_example = is_live-overlapping "one" calls (booted 2) refl refl tt tt

abbrev pool : RelayPool
pool = new_pool ("wss://one" ∷ "wss://two" ∷ []) ("wss://two" ∷ "wss://read" ∷ [])

-- The first answer of every relay denies access, and so does the second one of one relay.
abbrev first : String → Answer
first url = rejects "restricted: not whitelisted"

abbrev retry : String → Answer
retry url = if url == "wss://one" then acks else rejects "restricted: still not whitelisted"

relay_access-publish_example :
    relay_access "wss://two" write (publish 100 first retry pool)
    ≡ access_shown 100 first retry "wss://two" (first "wss://two") (retry "wss://two")
unfolding new_pool includes get
relay_access-publish_example =
    relay_access-publish 100 first retry "wss://two" pool refl (omega arith, omega arith, tt, tt)

one_works : (relay_access "wss://one" write (publish 100 first retry pool)).0 ≡ ok
unfolding relay_access publish new_pool get set to_lower_case
one_works = refl

two_is_denied : (relay_access "wss://two" write (publish 100 first retry pool)).0 ≡ denied
unfolding relay_access publish new_pool get set to_lower_case
two_is_denied = refl
