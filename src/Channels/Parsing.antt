-- ===== src/Channels/Parsing.antt =====
-- What `parseGroupMetadataTags` finds, whatever the order of the tags.
use obelisk_sfu.Prelude.{
  String, Bool, true, false, List, [], ◌∷◌, ◌==◌, ◌&&◌, ◌||◌, if◌then◌else◌, ◌≡◌, refl, any,
  is_text, arith, eq_iff, inl, inr, Bool-cases,
}
use obelisk_sfu.Nostr.{value, is_named}
use obelisk_sfu.Channels.{
  TagScan, scan_tag, scan_tags, no_tags, parse_group_metadata_tags, voice_sfu, voice, forum, text,
}

-- The tag is `["t", k, …]`.
abbrev pub marks : String → List String → Bool
marks k tag = is_named "t" tag && is_text (value tag) k

abbrev KindsAfter : TagScan → List String → TagScan → Type 0
KindsAfter s tag s' =
    (s'.has_voice_sfu ≡ (s.has_voice_sfu || marks "voice-sfu" tag))
    × (s'.has_voice ≡ (s.has_voice || marks "voice" tag))
    × (s'.has_forum ≡ (s.has_forum || marks "forum" tag))

or_true : (b : Bool) → true ≡ (b || true)
or_true true = refl
or_true false = refl

or_false : (b : Bool) → b ≡ (b || false)
or_false true = refl
or_false false = refl

scan_t-KindsAfter :
    (s : TagScan) (v : String) (rest : List String)
    → KindsAfter s ("t" ∷ v ∷ rest) (scan_tag s ("t" ∷ v ∷ rest))
unfolding scan_tag
scan_t-KindsAfter s v rest = elim (Bool-cases (v == "voice-sfu")) [
  | inl e ↦
      rw ((eq_iff v "voice-sfu").0 e)
        (or_true s.has_voice_sfu, or_false s.has_voice, or_false s.has_forum)
  | inr e ↦ rw e (elim (Bool-cases (v == "voice")) [
    | inl f ↦
        rw ((eq_iff v "voice").0 f)
          (or_false s.has_voice_sfu, or_true s.has_voice, or_false s.has_forum)
    | inr f ↦ rw f (ground arith)
  ])
]

scan_tag-KindsAfter : (s : TagScan) (tag : List String) → KindsAfter s tag (scan_tag s tag)
unfolding scan_tag
scan_tag-KindsAfter s [] = ground arith
scan_tag-KindsAfter s (k ∷ []) = ground arith
scan_tag-KindsAfter s (k ∷ v ∷ rest) = elim (Bool-cases (k == "t")) [
  | inl e ↦ rw ((eq_iff k "t").0 e) (scan_t-KindsAfter s v rest)
  | inr e ↦ ground arith
]

scan_tags-KindsAfter :
    (s : TagScan) (tags : List (List String))
    → let s' = scan_tags s tags in
      (s'.has_voice_sfu ≡ (s.has_voice_sfu || any (marks "voice-sfu") tags))
      × (s'.has_voice ≡ (s.has_voice || any (marks "voice") tags))
      × (s'.has_forum ≡ (s.has_forum || any (marks "forum") tags))
unfolding scan_tags
scan_tags-KindsAfter s [] = (or_false _, or_false _, or_false _)
scan_tags-KindsAfter s (tag ∷ tags) =
    ground (arith, scan_tag-KindsAfter s tag, scan_tags-KindsAfter (scan_tag s tag) tags)

-- The kind is voice-sfu if any tag says so, else voice if any says so, else forum if any says so,
-- else text: the precedence does not depend on the order of the tags.
pub kind-parse :
    (tags : List (List String))
    → (parse_group_metadata_tags tags).kind ≡ (
        if any (marks "voice-sfu") tags
        then voice_sfu
        else if any (marks "voice") tags
        then voice
        else if any (marks "forum") tags
        then forum
        else text)
unfolding parse_group_metadata_tags
kind-parse tags = ground (arith, scan_tags-KindsAfter no_tags tags)
