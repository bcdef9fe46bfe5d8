-- ===== src/Nostr.antt =====
-- Nostr events (the `Event` of nostr-tools as far as the source reads it) and the readers of
-- their tags; src/nip-kinds.ts.
pub mod Integers
use obelisk_sfu.Prelude.{
  ℕ, String, Bool, true, false, List, [], ◌∷◌, Option, none, some, ◌==◌, if◌then◌else◌, is_text,
}

-- `content` is what `JSON.parse` makes of the text, at the type to which the source casts it, and
-- `none` where it throws.
pub record Event (C : Type 0) : Type 0 where
  pub id : String
  pub pubkey : String
  pub kind : ℕ
  pub created_at : ℕ
  pub tags : List (List String)
  pub content : Option C

-- `tag[0]`
abbrev pub name : List String → Option String
name [] = none
name (k ∷ rest) = some k

-- `tag[1]`
abbrev pub value : List String → Option String
value [] = none
value (k ∷ []) = none
value (k ∷ v ∷ rest) = some v

-- `tag[0] === k`
abbrev pub is_named : String → List String → Bool
is_named k tag = is_text (name tag) k

-- `tags.find((t) => t[0] === k)?.[1]`: the value of the first tag of that name, even if it is
-- undefined there and not in a later one.
unfoldable pub find_tag : String → List (List String) → Option String
find_tag k [] = none
find_tag k (t ∷ ts) = if is_named k t then value t else find_tag k ts

abbrev pub kind_nip29_group_metadata : ℕ
kind_nip29_group_metadata = 39000

abbrev pub kind_nip29_group_admins : ℕ
kind_nip29_group_admins = 39001

abbrev pub kind_nip29_group_members : ℕ
kind_nip29_group_members = 39002

abbrev pub kind_voice_presence : ℕ
kind_voice_presence = 20078

abbrev pub kind_voice_signal : ℕ
kind_voice_signal = 25050

abbrev pub kind_sfu_active_call : ℕ
kind_sfu_active_call = 31314
