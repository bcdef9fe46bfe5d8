-- ===== src/Calls/Feeds/Renewal.antt =====
-- Which streams a tick of the watchdog renews, and which it leaves alone.
use obelisk_sfu.Prelude.{
  ℕ, String, true, false, List, [], ◌∷◌, none, some, ◌≡◌, ◌<◌, ◌≤◌, ◌+◌, ◌==◌, ◌⊎◌, ◌∙◌, refl, sym,
  ap, inl, inr, arith, eq_iff, Bool-cases, subst,
}
use obelisk_sfu.Map.{get, keys}
use obelisk_sfu.Map.Laws.{get-set_self, get-set_ne}
use obelisk_sfu.StringSet.{includes}
use obelisk_sfu.Calls.Feeds.{Feeds, subscribe_relay, is_stale, tick_each, tick_watchdog}
use obelisk_sfu.Calls.Feeds.Watchdog.{
  IsListening, turn, last-subscribe_relay, turn-IsListening, turn-fresh, turn_self, tick_each-keeps,
}
use obelisk_sfu.Calls.Feeds.Streams.{
  is_open, IsOrderly, subscriptions-subscribe_relay, next-subscribe_relay,
  subscribe_relay-IsOrderly,
}

module _ (now : ℕ) where
  turn-IsOrderly :
      (url : String) (s : Feeds) → IsListening s → IsOrderly s → IsOrderly (turn now url s)
  turn-IsOrderly url s l o = elim (Bool-cases (is_stale now (get url s.last_event_at))) [
    | inl old ↦ rw old (subscribe_relay-IsOrderly now url s l o)
    | inr new ↦ rw new o
  ]

  next-turn :
      (url : String) (s : Feeds) → IsListening s → s.next_stream ≤ (turn now url s).next_stream
  next-turn url s l = elim (Bool-cases (is_stale now (get url s.last_event_at))) [
    | inl old ↦ rw old (omega (arith, next-subscribe_relay now url s l))
    | inr new ↦ rw new (omega arith)
  ]

  pub tick_each-IsOrderly :
      (urls : List String) (s : Feeds)
      → IsListening s
      → IsOrderly s
      → IsOrderly (tick_each now urls s)
  unfolding tick_each
  tick_each-IsOrderly [] s l o = o
  tick_each-IsOrderly (url ∷ urls) s l o =
      tick_each-IsOrderly urls _ (turn-IsListening now url s l) (turn-IsOrderly url s l o)

  last-turn :
      (url other : String) (s : Feeds)
      → IsListening s
      → (url == other) ≡ false
      → get other (turn now url s).last_event_at ≡ get other s.last_event_at
  last-turn url other s l ne = elim (Bool-cases (is_stale now (get url s.last_event_at))) [
    | inl old ↦
        rw (old, last-subscribe_relay now url s l) (get-set_ne url other now s.last_event_at ne)
    | inr new ↦ rw new refl
  ]

  turn-last_fresh :
      (url other : String) (s : Feeds)
      → IsListening s
      → is_stale now (get other s.last_event_at) ≡ false
      → get other (turn now url s).last_event_at ≡ get other s.last_event_at
  turn-last_fresh url other s l h = elim (Bool-cases (url == other)) [
    | inr differ ↦ last-turn url other s l differ
    | inl same ↦ rw ((eq_iff url other).0 same, h) refl
  ]

  tick_each-last :
      (urls : List String) (other : String) (s : Feeds)
      → IsListening s
      → is_stale now (get other s.last_event_at) ≡ false
      → get other (tick_each now urls s).last_event_at ≡ get other s.last_event_at
  unfolding tick_each
  tick_each-last [] other s l h = refl
  tick_each-last (url ∷ urls) other s l h =
      tick_each-last urls other _ (turn-IsListening now url s l) (turn-fresh now url other s l h)
      ∙ turn-last_fresh url other s l h

  -- The relay has a stream that is open, numbered from this number on, and its silence begins now.
  abbrev pub IsRenewed : ℕ → String → Feeds → Type 0
  IsRenewed next url s' =
      ((n : ℕ) × (get url s'.subscriptions ≡ some (some n)) × (next ≤ n) × (is_open n s' ≡ true))
      × (get url s'.last_event_at ≡ some now)

  tick_each-first :
      (url : String) (urls : List String) (s : Feeds)
      → IsListening s
      → IsOrderly s
      → is_stale now (get url s.last_event_at) ≡ true
      → IsRenewed s.next_stream url (tick_each now urls (turn now url s))
  tick_each-first url urls s l o old =
      let t = turn now url s in
      let l' = turn-IsListening now url s l in
      let fresh = turn_self now url s l in
      let renewal : t ≡ subscribe_relay now url s = rw old refl in
      let stream : get url t.subscriptions ≡ some (some s.next_stream) =
        ap (λ x. get url x.subscriptions) renewal
        ∙ ap (λ m. get url m) (subscriptions-subscribe_relay now url s l)
        ∙ get-set_self url (some s.next_stream) s.subscriptions in
      let after = tick_each-keeps now urls url t l' fresh ∙ stream in
      let heard =
        ap (λ x. get url x.last_event_at) renewal
        ∙ ap (λ m. get url m) (last-subscribe_relay now url s l)
        ∙ get-set_self url now s.last_event_at in
      let orderly = tick_each-IsOrderly urls t l' (turn-IsOrderly url s l o) in
      (
        (s.next_stream, after, omega arith, orderly.opened url s.next_stream after),
        tick_each-last urls url t l' fresh ∙ heard,
      )

  tick_each-renews :
      (urls : List String) (url : String) (s : Feeds)
      → IsListening s
      → IsOrderly s
      → includes url urls ≡ true
      → is_stale now (get url s.last_event_at) ≡ true
      → IsRenewed s.next_stream url (tick_each now urls s)
  unfolding tick_each includes
  tick_each-renews [] url s l o h old = absurd cc
  tick_each-renews (u ∷ urls) url s l o h old = elim (Bool-cases (u == url)) [
    | inl same ↦
        let e : u ≡ url = (eq_iff u url).0 same in
        subst (λ x. IsRenewed s.next_stream url (tick_each now urls (turn now x s))) (sym e)
          (tick_each-first url urls s l o old)
    | inr differ ↦
        let rest =
          tick_each-renews urls url (turn now u s) (turn-IsListening now u s l)
            (turn-IsOrderly u s l o) (ground (arith, h, differ))
            (rw (last-turn u url s l differ) old) in
        ((rest.0.0, rest.0.1, omega (arith, rest.0.2, next-turn u s l), rest.0.3), rest.1)
  ]

  -- A tick of the watchdog of a listener that is started and whose pool is open, where every
  -- subscription has a stream of its own: a relay that it is subscribed to and that was never
  -- heard, or last heard more than 300 seconds ago, has afterwards a stream that this tick opened,
  -- that is open, and that was heard now, so that it has another 300 seconds.
  pub tick_watchdog-renews :
      (url : String) (s : Feeds)
      → IsListening s
      → IsOrderly s
      → includes url (keys s.subscriptions) ≡ true
      → (get url s.last_event_at ≡ none)
        ⊎ ((last : ℕ) × (get url s.last_event_at ≡ some last) × (last + 300 < now))
      → IsRenewed s.next_stream url (tick_watchdog now s)
  unfolding tick_watchdog is_stale
  tick_watchdog-renews url s l o h (inl never) =
      tick_each-renews (keys s.subscriptions) url s l o h (rw never refl)
  tick_watchdog-renews url s l o h (inr (last, heard, late)) =
      tick_each-renews (keys s.subscriptions) url s l o h (rw heard (ground (arith, late)))

  -- A tick of the watchdog of a listener that is started and whose pool is open, where every
  -- subscription has a stream of its own: a relay that was heard within the last 300 seconds has
  -- afterwards the stream that it had, and that stream is open.
  pub tick_watchdog-keeps :
      (url : String) (n last : ℕ) (s : Feeds)
      → IsListening s
      → IsOrderly s
      → get url s.subscriptions ≡ some (some n)
      → get url s.last_event_at ≡ some last
      → now ≤ last + 300
      → (get url (tick_watchdog now s).subscriptions ≡ some (some n))
        × (is_open n (tick_watchdog now s) ≡ true)
  unfolding tick_watchdog is_stale
  tick_watchdog-keeps url n last s l o stream heard recent =
      let fresh : is_stale now (get url s.last_event_at) ≡ false =
        rw heard (ground (arith, recent)) in
      let after = tick_each-keeps now (keys s.subscriptions) url s l fresh ∙ stream in
      let orderly = tick_each-IsOrderly (keys s.subscriptions) s l o in
      (after, orderly.opened url n after)
