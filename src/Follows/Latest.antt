-- ===== src/Follows/Latest.antt =====
-- Whose keys the trusted referents follow: those in the newest contact list of each.
use obelisk_sfu.Prelude.{
  String, Bool, true, false, List, [], ◌∷◌, Option, none, some, ◌==◌, ◌&&◌, ◌||◌, ◌≡◌, ◌↔◌, ◌∙◌, ap,
  sym, refl, arith, inl, inr, if◌then◌else◌, ltb, any, eq_iff, Bool-cases, Option-cases, if-rule,
}
use obelisk_sfu.Texts.{to_lower_case, is_hex64}
use obelisk_sfu.Map.{Map, get, set, values}
use obelisk_sfu.Map.Laws.{get-set, Nodup, Nodup-set}
use obelisk_sfu.StringSet.{includes}
use obelisk_sfu.StringSet.Laws.{includes-add}
use obelisk_sfu.Nostr.{Event, value, is_named}
use obelisk_sfu.Follows.{is_newer, latest_of, follow_tag, follow_tags, follow_lists, derived}

-- The newer of two contact lists, the first one if they are of the same time.
abbrev better : Option (Event String) → Option (Event String) → Option (Event String)
better none y = y
better (some x) none = some x
better (some x) (some y) = if ltb x.created_at y.created_at then some y else some x

-- The contact list of an author that was made last, the first such in the answers.
abbrev pub newest : String → List (Event String) → Option (Event String)
newest author [] = none
newest author (ev ∷ evs) =
    let later = newest author evs in if ev.pubkey == author then better (some ev) later else later

-- A tag `p` holds the key, in any case of its letters.
abbrev pub names : String → List String → Bool
names k tag = is_named "p" tag && elim (value tag) [
  | none ↦ false
  | some pk ↦ is_hex64 (to_lower_case pk) && to_lower_case pk == k
]

abbrev pub follows : String → Event String → Bool
follows k ev = any (names k) ev.tags

better_assoc : (x y z : Option (Event String)) → better (better x y) z ≡ better x (better y z)
better_assoc none y z = refl
better_assoc (some x) none z = refl
better_assoc (some x) (some y) none = ground arith
better_assoc (some x) (some y) (some z) = ground arith

put_newer :
    (author : String) (ev : Event String) (m : Map (Event String))
    → get author (if is_newer ev (get ev.pubkey m) then set ev.pubkey ev m else m)
      ≡ (if ev.pubkey == author then better (get author m) (some ev) else get author m)
put_newer author ev m = elim (Bool-cases (ev.pubkey == author)) [
  | inr other ↦ ground (arith, other, get-set ev.pubkey author ev m)
  | inl same ↦ elim (Option-cases (get author m)) [
    | inl e ↦ ground (arith, same, e, eq_iff ev.pubkey author, get-set ev.pubkey author ev m)
    | inr (old, e) ↦ ground (arith, same, e, eq_iff ev.pubkey author, get-set ev.pubkey author ev m)
  ]
]

get-latest_of :
    (author : String) (evs : List (Event String)) (m : Map (Event String))
    → get author (latest_of evs m) ≡ better (get author m) (newest author evs)
unfolding latest_of
get-latest_of author [] m = elim (Option-cases (get author m)) [
  | inl e ↦ rw e refl
  | inr (old, e) ↦ rw e refl
]
get-latest_of author (ev ∷ evs) m =
    let m' = if is_newer ev (get ev.pubkey m) then set ev.pubkey ev m else m in
    get-latest_of author evs m'
    ∙ ap (λ o. better o (newest author evs)) (put_newer author ev m)
    ∙ elim (Bool-cases (ev.pubkey == author)) [
      | inl same ↦ rw same (better_assoc (get author m) (some ev) (newest author evs))
      | inr other ↦ rw other refl
    ]

latest_of-Nodup :
    (evs : List (Event String)) (m : Map (Event String)) → Nodup m → Nodup (latest_of evs m)
unfolding latest_of
latest_of-Nodup [] m n = n
latest_of-Nodup (ev ∷ evs) m n =
    latest_of-Nodup evs (if is_newer ev (get ev.pubkey m) then set ev.pubkey ev m else m) (
      if-rule (λ (m : Map (Event String)). Nodup m) (is_newer ev (get ev.pubkey m)) _ _
        (λ on. Nodup-set ev.pubkey ev m n) (λ off. n))

includes-follow_tag :
    (k : String) (tag s : List String)
    → includes k (follow_tag tag s) ≡ (names k tag || includes k s)
unfolding follow_tag
includes-follow_tag k tag s = elim (Bool-cases (is_named "p" tag)) [
  | inr other ↦ rw other refl
  | inl p ↦ elim (Option-cases (value tag)) [
    | inl e ↦ rw (p, e, follow_tag) refl
    | inr (pk, e) ↦ elim (Bool-cases (is_hex64 (to_lower_case pk))) [
      | inl hex ↦ rw (p, e, follow_tag, hex) (includes-add k (to_lower_case pk) s)
      | inr bad ↦ rw (p, e, follow_tag, bad) refl
    ]
  ]
]

includes-follow_tags :
    (k : String) (tags : List (List String)) (s : List String)
    → includes k (follow_tags tags s) ≡ (any (names k) tags || includes k s)
unfolding follow_tags
includes-follow_tags k [] s = refl
includes-follow_tags k (t ∷ ts) s =
    ground (arith, includes-follow_tags k ts (follow_tag t s), includes-follow_tag k t s)

includes-follow_lists :
    (k : String) (evs : List (Event String)) (s : List String)
    → includes k (follow_lists evs s) ≡ (any (follows k) evs || includes k s)
unfolding follow_lists
includes-follow_lists k [] s = refl
includes-follow_lists k (ev ∷ evs) s =
    ground
      (arith, includes-follow_lists k evs (follow_tags ev.tags s), includes-follow_tags k ev.tags s)

any-values :
    (p : Event String → Bool) (m : Map (Event String))
    → Nodup m
    → any p (values m) ≡ true
    → (author : String) × (ev : Event String) × (get author m ≡ some ev) × (p ev ≡ true)
unfolding get
any-values p [] n h = absurd cc
any-values p ((a, ev) ∷ m) n h = elim (Bool-cases (p ev)) [
  | inl here ↦ (a, ev, ground (arith, eq_iff a a), here)
  | inr not_here ↦
      let (b, found, e, q) = any-values p m n.1 (ground (arith, h, not_here)) in
      (b, found, ground (arith, e, n.0, eq_iff a b), q)
]

values-any :
    (p : Event String → Bool) (author : String) (ev : Event String) (m : Map (Event String))
    → get author m ≡ some ev
    → p ev ≡ true
    → any p (values m) ≡ true
unfolding get
values-any p author ev [] e q = absurd cc
values-any p author ev ((a, x) ∷ m) e q = elim (Bool-cases (a == author)) [
  | inl same ↦ ground (arith, same, e, q)
  | inr other ↦ ground (arith, other, q, values-any p author ev m (ground (arith, e, other)) q)
]

-- A key is among those that are derived from the answers of the relays exactly when some author's
-- newest contact list among them, the first such if several are equally new, names it in a tag `p`.
pub includes-derived :
    (k : String) (evs : List (Event String))
    → (includes k (derived evs) ≡ true) ↔ (
        (author : String) × (ev : Event String) × (newest author evs ≡ some ev)
        × (follows k ev ≡ true))
unfolding derived includes get
includes-derived k evs =
    let m = latest_of evs [] in
    let found = includes-follow_lists k (values m) [] in
    (
      (λ h.
          let (author, ev, e, q) =
            any-values (follows k) m (latest_of-Nodup evs [] tt) (ground (arith, h, found)) in
          (author, ev, sym (get-latest_of author evs []) ∙ e, q)),
      (λ h.
          let e = get-latest_of h.0 evs [] ∙ h.2 in
          found ∙ ground (arith, values-any (follows k) h.0 h.1 m e h.3)),
    )
