-- ===== src/Calls/Feeds/Watchdog.antt =====
-- What the turns of the watchdog's loop leave of the subscriptions and of the times.
use obelisk_sfu.Prelude.{
  ℕ, String, true, false, List, [], ◌∷◌, Option, none, some, ◌≡◌, ◌==◌, ◌∙◌, refl, inl, inr, arith,
  eq_iff, Bool-cases, if◌then◌else◌,
}
use obelisk_sfu.Map.{Map, get, set}
use obelisk_sfu.Map.Laws.{get-set, get-set_self, get-set_ne}
use obelisk_sfu.Calls.Feeds.{
  Feeds, subscribe_relay, subscribe_one_relay, unsubscribe, is_stale, tick_each,
}

-- The pool is open, and a filter is set.
pub record IsListening (s : Feeds) : Type 0 where
  pub pool : s.pool_closed ≡ false
  pub filter : (since : ℕ) × (s.filter_since ≡ some since)

pub pool-unsubscribe :
    (u : Option (Option ℕ)) (s : Feeds) → (unsubscribe u s).pool_closed ≡ s.pool_closed
unfolding unsubscribe
pool-unsubscribe none s = refl
pool-unsubscribe (some none) s = refl
pool-unsubscribe (some (some n)) s = refl

pub filter-unsubscribe :
    (u : Option (Option ℕ)) (s : Feeds) → (unsubscribe u s).filter_since ≡ s.filter_since
unfolding unsubscribe
filter-unsubscribe none s = refl
filter-unsubscribe (some none) s = refl
filter-unsubscribe (some (some n)) s = refl

last-unsubscribe :
    (u : Option (Option ℕ)) (s : Feeds) → (unsubscribe u s).last_event_at ≡ s.last_event_at
unfolding unsubscribe
last-unsubscribe none s = refl
last-unsubscribe (some none) s = refl
last-unsubscribe (some (some n)) s = refl

pub subscribe_relay-IsListening :
    (now : ℕ) (url : String) (s : Feeds) → IsListening s → IsListening (subscribe_relay now url s)
unfolding subscribe_relay subscribe_one_relay
subscribe_relay-IsListening now url s l =
    let pool = pool-unsubscribe (get url s.subscriptions) s ∙ l.pool in
    let filter = filter-unsubscribe (get url s.subscriptions) s ∙ l.filter.1 in
    rw (l.filter.1, subscribe_relay, pool) (record { pool = refl; filter = (l.filter.0, filter) })

pub last-subscribe_relay :
    (now : ℕ) (url : String) (s : Feeds)
    → IsListening s
    → (subscribe_relay now url s).last_event_at ≡ set url now s.last_event_at
unfolding subscribe_relay subscribe_one_relay
last-subscribe_relay now url s l =
    let pool = pool-unsubscribe (get url s.subscriptions) s ∙ l.pool in
    rw (l.filter.1, subscribe_relay, pool) (rw (last-unsubscribe (get url s.subscriptions) s) refl)

pub subscriptions-unsubscribe :
    (u : Option (Option ℕ)) (s : Feeds) → (unsubscribe u s).subscriptions ≡ s.subscriptions
unfolding unsubscribe
subscriptions-unsubscribe none s = refl
subscriptions-unsubscribe (some none) s = refl
subscriptions-unsubscribe (some (some n)) s = refl

-- A renewal of one relay leaves the subscriptions to the others.
subscribe_relay-get_ne :
    (now : ℕ) (url other : String) (s : Feeds)
    → IsListening s
    → (url == other) ≡ false
    → get other (subscribe_relay now url s).subscriptions ≡ get other s.subscriptions
unfolding subscribe_relay subscribe_one_relay
subscribe_relay-get_ne now url other s l ne =
    let pool = pool-unsubscribe (get url s.subscriptions) s ∙ l.pool in
    rw (l.filter.1, subscribe_relay, pool, subscriptions-unsubscribe (get url s.subscriptions) s)
      (get-set_ne url other _ s.subscriptions ne)

-- One turn of the watchdog's loop.
abbrev pub turn : ℕ → String → Feeds → Feeds
turn now url s = if is_stale now (get url s.last_event_at) then subscribe_relay now url s else s

pub turn-IsListening :
    (now : ℕ) (url : String) (s : Feeds) → IsListening s → IsListening (turn now url s)
turn-IsListening now url s l = elim (Bool-cases (is_stale now (get url s.last_event_at))) [
  | inl old ↦ rw old (subscribe_relay-IsListening now url s l)
  | inr new ↦ rw new l
]

set-is_stale :
    (now : ℕ) (url other : String) (m : Map ℕ)
    → is_stale now (get other m) ≡ false
    → is_stale now (get other (set url now m)) ≡ false
unfolding is_stale
set-is_stale now url other m h = ground (arith, get-set url other now m, h)

-- A relay that is not stale does not become so in the turn of another, nor lose its subscription.
pub turn-fresh :
    (now : ℕ) (url other : String) (s : Feeds)
    → IsListening s
    → is_stale now (get other s.last_event_at) ≡ false
    → is_stale now (get other (turn now url s).last_event_at) ≡ false
turn-fresh now url other s l h = elim (Bool-cases (is_stale now (get url s.last_event_at))) [
  | inl old ↦
      rw (old, last-subscribe_relay now url s l) (set-is_stale now url other s.last_event_at h)
  | inr new ↦ rw new h
]

pub turn-keeps :
    (now : ℕ) (url other : String) (s : Feeds)
    → IsListening s
    → is_stale now (get other s.last_event_at) ≡ false
    → get other (turn now url s).subscriptions ≡ get other s.subscriptions
turn-keeps now url other s l h = elim (Bool-cases (is_stale now (get url s.last_event_at))) [
  | inr new ↦ rw new refl
  | inl old ↦ rw old (subscribe_relay-get_ne now url other s l (apart old))
]
  where
    apart : is_stale now (get url s.last_event_at) ≡ true → (url == other) ≡ false
    apart old = elim (Bool-cases (url == other)) [
      | inr differ ↦ differ
      | inl same ↦ absurd (ground (arith, eq_iff url other, old, h))
    ]

pub fresh : (t : ℕ) → is_stale t (some t) ≡ false
unfolding is_stale
fresh t = ground arith

pub turn_self :
    (now : ℕ) (url : String) (s : Feeds)
    → IsListening s
    → is_stale now (get url (turn now url s).last_event_at) ≡ false
turn_self now url s l = elim (Bool-cases (is_stale now (get url s.last_event_at))) [
  | inr new ↦ rw new new
  | inl old ↦
      rw (old, last-subscribe_relay now url s l, get-set_self url now s.last_event_at) (fresh now)
]

pub tick_each-fresh :
    (now : ℕ) (urls : List String) (other : String) (s : Feeds)
    → IsListening s
    → is_stale now (get other s.last_event_at) ≡ false
    → is_stale now (get other (tick_each now urls s).last_event_at) ≡ false
unfolding tick_each
tick_each-fresh now [] other s l h = h
tick_each-fresh now (url ∷ urls) other s l h =
    tick_each-fresh now urls other _ (turn-IsListening now url s l) (turn-fresh now url other s l h)

pub tick_each-keeps :
    (now : ℕ) (urls : List String) (other : String) (s : Feeds)
    → IsListening s
    → is_stale now (get other s.last_event_at) ≡ false
    → get other (tick_each now urls s).subscriptions ≡ get other s.subscriptions
unfolding tick_each
tick_each-keeps now [] other s l h = refl
tick_each-keeps now (url ∷ urls) other s l h =
    tick_each-keeps now urls other _ (turn-IsListening now url s l) (turn-fresh now url other s l h)
    ∙ turn-keeps now url other s l h
