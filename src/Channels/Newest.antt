-- ===== src/Channels/Newest.antt =====
-- The cache against the history of deliveries: the newest event of each channel wins.
use obelisk_sfu.Prelude.{
  ℕ, String, true, false, List, [], ◌∷◌, Option, none, some, ◌==◌, ◌&&◌, ◌≡◌, sym, ◌<◌, refl, max,
  is_text, ◌⊎◌, if◌then◌else◌, arith, eq_iff, nat_eq, ltb, value_or, inl, inr, Bool-cases,
  Option-cases,
}
use obelisk_sfu.Map.{get}
use obelisk_sfu.Map.Laws.{get-set}
use obelisk_sfu.StringSet.{add, includes}
use obelisk_sfu.Nostr.{Event}
use obelisk_sfu.Channels.{
  ChannelRecord, ChannelRegistry, parse_group_metadata_tags, ingest, ingest_parsed, new_record,
}

abbrev pub empty : ChannelRegistry
empty = record { subscribed = true; channels = [] }

max-zero : (c : ℕ) → max c 0 ≡ c
max-zero c = omega arith

max_self : (t : ℕ) → max t t ≡ t
max_self t = omega arith

max-right : (c t : ℕ) → c < t → max c t ≡ t
max-right c t h = omega arith

max-left : (c t : ℕ) → t < c → max c t ≡ c
max-left c t h = omega arith

order-cases : (c t : ℕ) → (((c < t) ⊎ (c ≡ t)) ⊎ (t < c))
order-cases c t = grind arith

module _ {C : Type 0} where
  -- The channel that an event is about.
  abbrev pub channel_of : Event C → Option String
  channel_of ev = (parse_group_metadata_tags ev.tags).id

  -- The registry after a history of events and the relays that delivered them, latest first.
  pub replay : List (Event C × String) → ChannelRegistry
  replay [] = empty
  replay ((ev, relay) ∷ older) = ingest (replay older) ev relay

  -- The greatest `created_at` of the events about a channel.
  pub latest : String → List (Event C × String) → Option ℕ
  latest id [] = none
  latest id ((ev, relay) ∷ older) =
      if is_text (channel_of ev) id
      then some (max ev.created_at (value_or (latest id older) 0))
      else latest id older

  -- The event about a channel with the given `created_at` that was delivered first.
  pub first_at : String → ℕ → List (Event C × String) → Option (Event C)
  first_at id t [] = none
  first_at id t ((ev, relay) ∷ older) =
      let here = if is_text (channel_of ev) id && nat_eq ev.created_at t then some ev else none in
      elim (first_at id t older) [ some found ↦ some found | none ↦ here ]

  -- The relays that delivered events about a channel with the given `created_at`.
  pub relays_at : String → ℕ → List (Event C × String) → List String
  relays_at id t [] = []
  relays_at id t ((ev, relay) ∷ older) =
      let rest = relays_at id t older in
      if is_text (channel_of ev) id && nat_eq ev.created_at t then add relay rest else rest

  abbrev described : String → ℕ → List String → Option (Event C) → Option ChannelRecord
  described id t relays none = none
  described id t relays (some ev) =
      let parsed = parse_group_metadata_tags ev.tags in
      some (record {
        id = id;
        kind = parsed.kind;
        title = parsed.title;
        about = parsed.about;
        is_public = parsed.is_public;
        is_open = parsed.is_open;
        updated_at = t;
        relays = relays;
      })

  abbrev at_time : String → List (Event C × String) → Option ℕ → Option ChannelRecord
  at_time id history none = none
  at_time id history (some t) = described id t (relays_at id t history) (first_at id t history)

  -- What the history says that the entry of a channel should be.
  abbrev pub expected : String → List (Event C × String) → Option ChannelRecord
  expected id history = at_time id history (latest id history)

  abbrev merged : String → Event C → String → Option ChannelRecord → ChannelRecord
  merged id ev relay none = new_record id (parse_group_metadata_tags ev.tags) ev.created_at relay
  merged id ev relay (some prev) =
      if ltb ev.created_at prev.updated_at
      then prev
      else if nat_eq ev.created_at prev.updated_at
      then record prev { relays = add relay prev.relays }
      else new_record id (parse_group_metadata_tags ev.tags) ev.created_at relay

  get-ingest_parsed :
      (reg : ChannelRegistry) (ev : Event C) (relay id j : String) (found : Option ChannelRecord)
      → get id reg.channels ≡ found
      → get j
          (ingest_parsed reg id
            (parse_group_metadata_tags ev.tags)
            ev.created_at
            relay
            found).channels
        ≡ (if id == j then some (merged id ev relay found) else get j reg.channels)
  unfolding ingest_parsed
  get-ingest_parsed reg ev relay id j none h = get-set id j _ reg.channels
  get-ingest_parsed reg ev relay id j (some prev) h = ground (
    arith,
    eq_iff id j,
    get-set id j (record prev { relays = add relay prev.relays }) reg.channels,
    get-set id j (new_record id (parse_group_metadata_tags ev.tags) ev.created_at relay)
        reg.channels,
  )

  get-ingest :
      (reg : ChannelRegistry) (ev : Event C) (relay j : String)
      → get j (ingest reg ev relay).channels ≡ (
          if is_text (channel_of ev) j
          then some (merged j ev relay (get j reg.channels))
          else get j reg.channels)
  unfolding ingest
  get-ingest reg ev relay j = elim (Option-cases (channel_of ev)) [
    | inl e ↦ rw (e, ingest) refl
    | inr (id, e) ↦
        rw (e, ingest)
          (ground
            (arith, eq_iff id j, get-ingest_parsed reg ev relay id j (get id reg.channels) refl))
  ]

  latest-none :
      (id : String) (h : List (Event C × String)) (t : ℕ)
      → latest id h ≡ none
      → (first_at id t h ≡ none) × (relays_at id t h ≡ [])
  unfolding latest first_at relays_at
  latest-none id [] t e = (refl, refl)
  latest-none id ((ev, relay) ∷ older) t e = ground (arith, latest-none id older t)

  after-latest :
      (id : String) (h : List (Event C × String)) (t c : ℕ)
      → latest id h ≡ some t
      → t < c
      → (first_at id c h ≡ none) × (relays_at id c h ≡ [])
  unfolding latest first_at relays_at
  after-latest id [] t c e l = ground arith
  after-latest id ((ev, relay) ∷ older) t c e l =
      ground (arith, latest-none id older c, after-latest id older (value_or (latest id older) 0) c)

  first_at-latest :
      (id : String) (h : List (Event C × String)) (t : ℕ)
      → latest id h ≡ some t
      → (ev : Event C) × (first_at id t h ≡ some ev)
  unfolding latest first_at relays_at
  first_at-latest id [] t e = ground arith
  first_at-latest id ((ev, relay) ∷ older) t e = elim (Option-cases (first_at id t older)) [
    | inr (ev', h) ↦ (ev', ground arith)
    | inl h ↦ (ev, ground (arith, first_at-latest id older t))
  ]

  expected-eq :
      (id : String) (h : List (Event C × String)) (t : ℕ) (w : Event C) (rs : List String)
      → latest id h ≡ some t
      → first_at id t h ≡ some w
      → relays_at id t h ≡ rs
      → expected id h ≡ described id t rs (some w)
  expected-eq id h t w rs l f r = rw (l, f, r)

  -- One more delivery about the channel, after a history whose newest event has the time `t`.
  module _ (id relay : String) (ev w : Event C) (older : List (Event C × String)) (t : ℕ)
      (about : is_text (channel_of ev) id ≡ true) (l : latest id older ≡ some t)
      (f : first_at id t older ≡ some w) where
    stale :
        ev.created_at < t
        → expected id ((ev, relay) ∷ older) ≡ described id t (relays_at id t older) (some w)
    unfolding latest first_at relays_at
    stale before =
        expected-eq id ((ev, relay) ∷ older) t w (relays_at id t older) (ground arith)
          (ground (arith, f)) (ground arith)

    repeated :
        ev.created_at ≡ t
        → expected id ((ev, relay) ∷ older)
          ≡ described id t (add relay (relays_at id t older)) (some w)
    unfolding latest first_at relays_at
    repeated same =
        expected-eq id ((ev, relay) ∷ older) t w (add relay (relays_at id t older)) (ground arith)
          (ground (arith, f)) (ground arith)

    newer :
        t < ev.created_at
        → expected id ((ev, relay) ∷ older)
          ≡ some (new_record id (parse_group_metadata_tags ev.tags) ev.created_at relay)
    unfolding latest first_at relays_at add includes
    newer after =
        let (gone, none_yet) = after-latest id older t ev.created_at l after in
        expected-eq id ((ev, relay) ∷ older) ev.created_at ev (relay ∷ []) (ground arith)
          (ground (arith, gone)) (ground (arith, none_yet))

    one_more :
        some (merged id ev relay (described id t (relays_at id t older) (some w)))
        ≡ expected id ((ev, relay) ∷ older)
    one_more = elim (order-cases ev.created_at t) [
      | inl (inl before) ↦ rw (stale before) (ground arith)
      | inl (inr same) ↦ rw (repeated same) (ground arith)
      | inr after ↦ rw (newer after) (ground arith)
    ]

  first_one :
      (id relay : String) (ev : Event C) (older : List (Event C × String))
      → is_text (channel_of ev) id ≡ true
      → latest id older ≡ none
      → expected id ((ev, relay) ∷ older)
        ≡ some (new_record id (parse_group_metadata_tags ev.tags) ev.created_at relay)
  unfolding latest first_at relays_at add includes
  first_one id relay ev older about n =
      let (gone, none_yet) = latest-none id older ev.created_at n in
      expected-eq id ((ev, relay) ∷ older) ev.created_at ev (relay ∷ []) (ground arith)
        (ground (arith, gone)) (ground (arith, none_yet))

  latest_elsewhere :
      (id relay : String) (ev : Event C) (older : List (Event C × String))
      → is_text (channel_of ev) id ≡ false
      → latest id ((ev, relay) ∷ older) ≡ latest id older
  unfolding latest
  latest_elsewhere id relay ev older other = rw other

  expected_elsewhere :
      (id relay : String) (ev : Event C) (older : List (Event C × String))
      → is_text (channel_of ev) id ≡ false
      → expected id ((ev, relay) ∷ older) ≡ expected id older
  unfolding first_at relays_at
  expected_elsewhere id relay ev older other =
      rw (latest_elsewhere id relay ev older other)
        (elim (Option-cases (latest id older)) [ inl n ↦ rw n | inr (t, l) ↦ rw l (ground arith) ])

  -- After any history of deliveries, the entry of a channel is the one that the history calls for:
  -- its time is the greatest `created_at` of the events about the channel, its data are those of
  -- the event that came first with that time, and its relays are those that delivered an event with
  -- that time. Without such an event there is no entry.
  pub get-replay :
      (id : String) (history : List (Event C × String))
      → get id (replay history).channels ≡ expected id history
  unfolding replay
  get-replay id [] = unfold get latest in refl
  get-replay id ((ev, relay) ∷ older) =
      rw (get-ingest (replay older) ev relay id, get-replay id older)
        (elim (Bool-cases (is_text (channel_of ev) id)) [
          | inr other ↦ rw other (sym (expected_elsewhere id relay ev older other))
          | inl about ↦ rw about (elim (Option-cases (latest id older)) [
            | inl n ↦ rw n (sym (first_one id relay ev older about n))
            | inr (t, l) ↦
                let (w, f) = first_at-latest id older t l in
                rw (l, f) (one_more id relay ev w older t about l f)
          ])
        ])
