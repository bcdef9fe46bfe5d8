-- ===== src/Admin.antt =====
-- src/admin.ts: the overrides of the configuration, the NIP-98 authentication and the console's
-- admins. `parse_url`, `verify_event` and `decode` (base64 and `JSON.parse`) stand for the
-- libraries. A JSON body has the types to which the source casts it.
pub mod Overrides
pub mod Validation
pub mod Restart
use Prim.Native.String
use Prim.Native.Char.{code}
use text.Mathlib.Text.{starts_with}
use obelisk_sfu.Prelude.{
  ℕ, String, Bool, true, false, not, ◌&&◌, ◌||◌, Option, none, some, ◌==◌, if◌then◌else◌, ltb,
  nat_eq, value_or,
}
use obelisk_sfu.Texts.{to_lower_case}
use obelisk_sfu.StringSet.{includes}
use obelisk_sfu.Config.{Config}
use obelisk_sfu.Nostr.{Event, find_tag}
use obelisk_sfu.Direct.{Url, distance}

abbrev pub nip98_kind : ℕ
nip98_kind = 27235

abbrev pub nip98_max_age : ℕ
nip98_max_age = 60

-- `s.replace(/\/$/, '')`
unfoldable pub strip_slash : String → String
strip_slash String.[] = ""
strip_slash (String.◌∷◌ c String.[]) = if nat_eq (code c) b'/' then "" else String.◌∷◌ c String.[]
strip_slash (String.◌∷◌ c (String.◌∷◌ d s)) = String.◌∷◌ c (strip_slash (String.◌∷◌ d s))

-- `s || '/'`
abbrev or_root : String → String
or_root s = if s == "" then "/" else s

-- `urlsMatch`
unfoldable pub urls_match : (String → Option Url) → String → String → Bool
unfolding strip_slash
urls_match parse_url a b = elim (parse_url a) [
  | none ↦ a == b
  | some ua ↦ elim (parse_url b) [
    | none ↦ a == b
    | some ub ↦
        or_root (strip_slash ua.pathname) == or_root (strip_slash ub.pathname)
        && ua.search == ub.search
  ]
]

-- The answer of `verifyNip98`: the signer, or the status of the `AuthError` that is thrown.
pub data Verdict : Type 0 where
  signed_by : String → Verdict
  auth_error : ℕ → Verdict

abbrev pub is_nostr_header : String → Bool
is_nostr_header header = starts_with (to_lower_case header) "nostr "

module _ (verify_event : Event String → Bool) (parse_url : String → Option Url)
    (decode : String → Option (Event String)) (to_upper_case : String → String) where
  -- The checks of an event once it has both tags, which are no empty texts.
  unfoldable pub check_tags : String → String → String → String → Event String → Verdict
  unfolding urls_match
  check_tags method full_url tag_u tag_method ev =
      if tag_u == "" || tag_method == ""
      then auth_error 401
      else if not (to_upper_case tag_method == to_upper_case method)
      then auth_error 401
      else if not (urls_match parse_url tag_u full_url)
      then auth_error 401
      else if not (verify_event ev)
      then auth_error 401
      else signed_by (to_lower_case ev.pubkey)

  unfoldable pub check_event : ℕ → String → String → Event String → Verdict
  unfolding check_tags
  check_event now method full_url ev =
      if not (nat_eq ev.kind nip98_kind)
      then auth_error 401
      else if ltb nip98_max_age (distance now ev.created_at)
      then auth_error 401
      else check_tags method full_url (value_or (find_tag "u" ev.tags) "")
          (value_or (find_tag "method" ev.tags) "") ev

  unfoldable pub check_decoded : ℕ → String → String → Option (Event String) → Verdict
  unfolding check_event
  check_decoded now method full_url none = auth_error 400
  check_decoded now method full_url (some ev) = check_event now method full_url ev

  -- `verifyNip98`
  unfoldable pub verify_nip98 : ℕ → Option String → String → String → Verdict
  unfolding check_decoded
  verify_nip98 now none method full_url = auth_error 401
  verify_nip98 now (some header) method full_url =
      if not (is_nostr_header header)
      then auth_error 401
      else check_decoded now method full_url (decode header)

-- `effectiveOperator`
unfoldable pub effective_operator : Config → String → String
effective_operator cfg sfu_pubkey = to_lower_case (value_or cfg.operator_pubkey sfu_pubkey)

-- `isConsoleAdmin`
unfoldable pub is_console_admin : Config → String → String → Bool
unfolding effective_operator
is_console_admin cfg sfu_pubkey pubkey =
    let pk = to_lower_case pubkey in
    pk == effective_operator cfg sfu_pubkey || includes pk cfg.admin_pubkeys
