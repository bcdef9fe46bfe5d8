-- ===== src/Config.antt =====
-- The `Config` object of src/config.ts. Times and limits are natural numbers.
use obelisk_sfu.Prelude.{ℕ, String, Bool, List, Option}

pub record Config : Type 0 where
  pub nsec_hex : String
  pub operator_pubkey : Option String
  pub admin_pubkeys : List String
  pub allowed_pubkeys : List String
  pub trusted_referent_pubkeys : List String
  pub follow_allowed_pubkeys : List String
  pub follow_relays : List String
  pub follow_allow_file_path : String
  pub allow_all : Bool
  pub whitelist_bypass_until : Option ℕ
  pub require_allowed_pubkey : Bool
  pub relays : List String
  pub trusted_author_relays : List String
  pub max_participants_per_room : ℕ
  pub max_rooms : ℕ
  pub empty_grace_seconds : ℕ
  pub max_call_duration_seconds : ℕ
  pub http_port : ℕ
  pub public_ip : Option String
  pub rtp_port_min : ℕ
  pub rtp_port_max : ℕ
  pub stun_urls : List String
  pub turn_urls : List String
  pub turn_username : Option String
  pub turn_credential : Option String
  pub public_url : Option String
  pub region : Option String
  pub allow_file_path : String
