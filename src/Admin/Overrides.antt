-- ===== src/Admin/Overrides.antt =====
-- src/admin.ts: `RuntimeOverrides`, their merge with those of `runtime.json`, and `applyOverrides`.
use obelisk_sfu.Prelude.{
  ℕ, String, Bool, true, false, List, [], ◌∷◌, Option, none, some, ◌&&◌, ◌||◌, if◌then◌else◌, ltb,
  nat_eq,
}
use obelisk_sfu.Texts.{to_lower_case, is_hex64}
use obelisk_sfu.StringSet.{add}
use obelisk_sfu.Config.{Config}

-- A JSON value where a number is expected: `number n part` is `n`, or between `n` and `n + 1` if
-- it has a part; the others are negative or no numbers.
pub data Amount : Type 0 where
  number : ℕ → Bool → Amount
  other : Amount

-- `x > k`
abbrev pub exceeds : ℕ → Bool → ℕ → Bool
exceeds n part k = ltb k n || (nat_eq n k && part)

-- An absent member is `none`; `some none` is `null` where that is allowed.
pub record RuntimeOverrides : Type 0 where
  pub relays : Option (List String)
  pub trusted_author_relays : Option (List String)
  pub allowed : Option (List String)
  pub trusted_referent_pubkeys : Option (List String)
  pub whitelist_bypass_until : Option (Option Amount)
  pub allow_all : Option Bool
  pub require_allowed_pubkey : Option Bool
  pub public_url : Option (Option String)
  pub region : Option (Option String)
  pub operator_pubkey : Option (Option String)
  pub admins : Option (List String)
  pub max_call_duration_seconds : Option Amount

-- The member of the patch where it has one.
abbrev pub over {ℓ} : {A : Type ℓ} → Option A → Option A → Option A
over old none = old
over old (some x) = some x

-- `{ ...old, ...patch }`
unfoldable pub merge : RuntimeOverrides → RuntimeOverrides → RuntimeOverrides
merge old patch = record {
  relays = over old.relays patch.relays;
  trusted_author_relays = over old.trusted_author_relays patch.trusted_author_relays;
  allowed = over old.allowed patch.allowed;
  trusted_referent_pubkeys = over old.trusted_referent_pubkeys patch.trusted_referent_pubkeys;
  whitelist_bypass_until = over old.whitelist_bypass_until patch.whitelist_bypass_until;
  allow_all = over old.allow_all patch.allow_all;
  require_allowed_pubkey = over old.require_allowed_pubkey patch.require_allowed_pubkey;
  public_url = over old.public_url patch.public_url;
  region = over old.region patch.region;
  operator_pubkey = over old.operator_pubkey patch.operator_pubkey;
  admins = over old.admins patch.admins;
  max_call_duration_seconds = over old.max_call_duration_seconds patch.max_call_duration_seconds;
}

-- The members that a patch has with `null`, or with another value that the checks let pass and
-- `applyOverrides` ignores.
pub record Voids : Type 0 where
  pub relays : Bool
  pub trusted_author_relays : Bool
  pub allowed : Bool
  pub trusted_referent_pubkeys : Bool
  pub allow_all : Bool
  pub require_allowed_pubkey : Bool
  pub admins : Bool

-- A patch that may have such members: `given` has the others.
pub record Patch : Type 0 where
  pub given : RuntimeOverrides
  pub voids : Voids

abbrev pub no_voids : Voids
no_voids = record {
  relays = false;
  trusted_author_relays = false;
  allowed = false;
  trusted_referent_pubkeys = false;
  allow_all = false;
  require_allowed_pubkey = false;
  admins = false;
}

abbrev pub drops {ℓ} : {A : Type ℓ} → Bool → Option A → Option A
drops true x = none
drops false x = x

-- What such members hide of the overrides below them.
abbrev pub voided : Voids → RuntimeOverrides → RuntimeOverrides
voided v old = record old {
  relays = drops v.relays old.relays;
  trusted_author_relays = drops v.trusted_author_relays old.trusted_author_relays;
  allowed = drops v.allowed old.allowed;
  trusted_referent_pubkeys = drops v.trusted_referent_pubkeys old.trusted_referent_pubkeys;
  allow_all = drops v.allow_all old.allow_all;
  require_allowed_pubkey = drops v.require_allowed_pubkey old.require_allowed_pubkey;
  admins = drops v.admins old.admins;
}

-- `{ ...old, ...patch }` of a patch that may have such members. One that stands in `runtime.json`
-- counts as absent, since nothing reads it.
unfoldable pub merge_patch : RuntimeOverrides → Patch → RuntimeOverrides
unfolding merge
merge_patch old p = merge (voided p.voids old) p.given

-- The set of the keys that are 64 hex digits, in lower case.
unfoldable pub keep_keys : List String → List String → List String
keep_keys [] s = s
keep_keys (pk ∷ pks) s = keep_keys pks (if is_hex64 pk then add (to_lower_case pk) s else s)

abbrev pub if_given {ℓ κ} : {A : Type ℓ} {B : Type κ} → Option A → (A → B) → B → B
if_given none f b = b
if_given (some a) f b = f a

-- `o.relays && o.relays.length > 0`
abbrev pub if_some : List String → List String → List String
if_some [] old = old
if_some (x ∷ xs) old = x ∷ xs

-- `x == null ? null : Math.floor(x)`. A negative time or no number, which only a file edited by
-- hand can hold, leaves the bypass inactive like `null`.
abbrev pub floor_or_null : Option Amount → Option ℕ
floor_or_null none = none
floor_or_null (some (number n part)) = some n
floor_or_null (some other) = none

-- `typeof x === 'number' && Number.isFinite(x) && x >= 0`
abbrev pub floor_or : Amount → ℕ → ℕ
floor_or (number n part) old = n
floor_or other old = old

-- `applyOverrides`
unfoldable pub apply_overrides : RuntimeOverrides → Config → Config
unfolding keep_keys
apply_overrides o cfg = record cfg {
  relays = if_given o.relays (λ xs. if_some xs cfg.relays) cfg.relays;
  trusted_author_relays = if_given o.trusted_author_relays (λ xs. xs) cfg.trusted_author_relays;
  trusted_referent_pubkeys =
      if_given o.trusted_referent_pubkeys (λ xs. keep_keys xs []) cfg.trusted_referent_pubkeys;
  whitelist_bypass_until =
      if_given o.whitelist_bypass_until floor_or_null cfg.whitelist_bypass_until;
  public_url = if_given o.public_url (λ x. x) cfg.public_url;
  region = if_given o.region (λ x. x) cfg.region;
  operator_pubkey = if_given o.operator_pubkey (λ x. x) cfg.operator_pubkey;
  allow_all = if_given o.allow_all (λ x. x) cfg.allow_all;
  require_allowed_pubkey = if_given o.require_allowed_pubkey (λ x. x) cfg.require_allowed_pubkey;
  max_call_duration_seconds =
      if_given o.max_call_duration_seconds (λ x. floor_or x cfg.max_call_duration_seconds)
        cfg.max_call_duration_seconds;
  admin_pubkeys = if_given o.admins (λ xs. keep_keys xs []) cfg.admin_pubkeys;
  allowed_pubkeys = if_given o.allowed (λ xs. keep_keys xs []) cfg.allowed_pubkeys;
}
