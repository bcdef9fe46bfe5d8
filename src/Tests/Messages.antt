-- ===== src/Tests/Messages.antt =====
-- An advertisement that one of two relays takes, and a request with its data.
use obelisk_sfu.Prelude.{
  String, true, [], ◌∷◌, none, some, ◌≡◌, ◌==◌, refl, arith, if◌then◌else◌, any,
}
use obelisk_sfu.Prelude.{false}
use obelisk_sfu.Map.{get, set}
use obelisk_sfu.Texts.{to_lower_case}
use obelisk_sfu.Relays.{
  RelayPool, new_pool, Answer, acks, rejects, publish, get_relay_health, health_of, note_all, note,
  settled, is_relay_access_denied,
}
use obelisk_sfu.Http.Health.{handle_health, handle_health-publish}
use obelisk_sfu.Advertise.{Advertiser, publish_once}
use obelisk_sfu.Relays.Publication.{is_taken}
use obelisk_sfu.Advertise.Reception.{publish_once-status}
use obelisk_sfu.Envelopes.{RpcEnvelope, request, object, nil, member, text, parse_envelope}
use obelisk_sfu.Envelopes.Sending.{send, parse_envelope-send}

abbrev pool : RelayPool
pool = new_pool ("wss://one" ∷ "wss://two" ∷ []) []

abbrev answers : String → Answer
answers url = if url == "wss://two" then acks else rejects "rate-limited"

abbrev advertiser : Advertiser
advertiser = record {
  timer = true;
  session_id = "0123";
  booted_at = 10;
  last_publish_at = none;
  last_publish_err_at = some 20;
}

publish_once-status_example :
    let a' = (publish_once 100 101 102 answers answers advertiser pool).0 in
    let taken = any (is_taken answers answers) pool.write_relays in
    (a'.last_publish_at ≡ (if taken then some 102 else none))
    × (a'.last_publish_err_at ≡ (if taken then some 20 else some 102))
unfolding new_pool get
publish_once-status_example =
    publish_once-status 100 101 answers answers 102 advertiser pool (omega arith)
      (omega arith, (omega arith, tt))

abbrev message : RpcEnvelope
message = request "1" "consume" (some (object (member "producerId" (text "p1") nil))) (some "phone")

parse_envelope-send_example : parse_envelope (some (send message)) ≡ some message
parse_envelope-send_example = parse_envelope-send message refl

handle_health-publish_example :
    handle_health false 0 1500 (publish 1000 answers answers pool)
    ≡ (if any (is_taken answers answers) pool.write_relays then 200 else 503)
unfolding new_pool get
handle_health-publish_example =
    handle_health-publish 1000 answers answers 0 1500 pool (omega arith) (omega arith) (omega arith)
      (refl, (refl, tt))

-- A relay that limits the rate has not taken the event, and is not asked again.
abbrev limits : String → Answer
limits url = rejects "rate-limited"

abbrev taking : String → Answer
taking url = acks

none_took : any (is_taken limits taking) pool.write_relays ≡ false
unfolding new_pool is_relay_access_denied to_lower_case
none_took = refl

page_fails : handle_health false 0 1500 (publish 1000 limits taking pool) ≡ 503
unfolding handle_health get_relay_health health_of publish note_all note settled new_pool get set
    is_relay_access_denied to_lower_case
page_fails = refl
