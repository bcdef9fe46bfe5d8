-- ===== src/Advertise.antt =====
-- src/advertise.ts: the advertisement of the server, its tags and what is known of its reception.
-- `show` prints a number. The profile of kind 0 is left.
pub mod Reception
use obelisk_sfu.Prelude.{
  ℕ, String, Bool, true, false, not, List, [], ◌∷◌, ◌++◌, map, Option, none, some, ◌==◌,
  if◌then◌else◌, leb, any, value_or,
}
use obelisk_sfu.Config.{Config}
use obelisk_sfu.Relays.{RelayPool, RelayHealth, Answer, publish, get_relay_health}

abbrev pub refresh_interval_ms : ℕ
refresh_interval_ms = 300000

pub record Advertiser : Type 0 where
  pub timer : Bool
  pub session_id : String
  pub booted_at : ℕ
  pub last_publish_at : Option ℕ
  pub last_publish_err_at : Option ℕ

-- `if (x) tags.push([k, x])`
unfoldable pub tag_if : String → Option String → List (List String)
tag_if k none = []
tag_if k (some x) = if x == "" then [] else (k ∷ x ∷ []) ∷ []

abbrev pub tag_each : String → List String → List (List String)
tag_each k xs = map (λ x. k ∷ x ∷ []) xs

-- The tags of `publishOnce`; `pubkey` is that of the server.
unfoldable pub tags_of : (ℕ → String) → Config → String → Advertiser → List (List String)
unfolding tag_if
tags_of show cfg pubkey a =
    ("d" ∷ "obelisk-sfu" ∷ [])
    ∷ ("t" ∷ "obelisk-sfu-advertisement" ∷ [])
    ∷ ("cap" ∷ show cfg.max_participants_per_room ∷ [])
    ∷ ("max_rooms" ∷ show cfg.max_rooms ∷ [])
    ∷ ("version" ∷ "1" ∷ [])
    ∷ ("session" ∷ a.session_id ∷ [])
    ∷ ("booted_at" ∷ show a.booted_at ∷ [])
    ∷ (tag_if "url" cfg.public_url
        ++ (tag_each "relay" cfg.relays
            ++ (tag_each "trusted_relay" cfg.trusted_author_relays
                ++ (("codec" ∷ "opus" ∷ [])
                    ∷ ("codec" ∷ "vp8" ∷ [])
                    ∷ (tag_each "allow" cfg.allowed_pubkeys
                        ++ (("operator" ∷ value_or cfg.operator_pubkey pubkey ∷ [])
                            ∷ tag_if "region" cfg.region))))))

abbrev pub is_since : ℕ → Option ℕ → Bool
is_since started none = false
is_since started (some at) = leb started at

-- A relay has taken an event since the publication began.
unfoldable pub is_acked : ℕ → RelayPool → Bool
unfolding get_relay_health
is_acked started pool = any (λ h. is_since started h.last_publish_ok) (get_relay_health pool)

-- `publishOnce`, which begins, publishes and ends at three times, with the answers of the relays
-- to the event and to its retry.
unfoldable pub publish_once :
    ℕ
    → ℕ
    → ℕ
    → (String → Answer)
    → (String → Answer)
    → Advertiser
    → RelayPool
    → Advertiser × RelayPool
unfolding is_acked publish
publish_once started now ended first retry a pool =
    let pool' = publish now first retry pool in
    (
      if is_acked started pool'
          then record a { last_publish_at = some ended }
          else record a { last_publish_err_at = some ended },
      pool',
    )

-- `start` after the first publication, and `stop`.
unfoldable pub start : Advertiser → Advertiser
start a = record a { timer = true }

unfoldable pub stop : Advertiser → Advertiser
stop a = record a { timer = false }
