-- ===== src/Calls/Feeds.antt =====
-- The subscriptions of the call listener, one per relay, and the watchdog that renews the silent
-- ones: src/call-listener.ts, with `subscribeOneRelay` and `lastEventAt` of src/relay.ts.
pub mod Watchdog
pub mod Streams
pub mod Renewal
pub mod Starting
use obelisk_sfu.Prelude.{
  ℕ, suc, String, Bool, true, false, not, List, [], ◌∷◌, ◌++◌, Option, none, some, ◌≡◌, ◌≤◌, ◌+◌,
  ◌-◌, ◌*◌, ◌==◌, ◌∙◌, refl, inl, inr, arith, eq_iff, Option-cases, Bool-cases, if◌then◌else◌, ltb,
  ltb→lt, map, keep, nat_eq,
}
use obelisk_sfu.Map.{Map, get, set, keys, values, size}
use obelisk_sfu.Map.Laws.{get-set, get-set_self}
use obelisk_sfu.StringSet.{distinct}
use obelisk_sfu.Config.{Config}

-- A subscription stands for the function that ends it: the number of an open stream, or `none`
-- for the function that does nothing. Times are in seconds.
pub record Feeds : Type 0 where
  pub subscriptions : Map (Option ℕ)
  pub filter_since : Option ℕ
  pub watchdog : Bool
  pub last_event_at : Map ℕ
  pub pool_closed : Bool
  pub open_streams : List ℕ
  pub next_stream : ℕ

-- `subscribeOneRelay`
unfoldable pub subscribe_one_relay : ℕ → String → Feeds → Option ℕ × Feeds
subscribe_one_relay now url s = if s.pool_closed then (none, s) else (
  some s.next_stream,
  record s {
    last_event_at = set url now s.last_event_at;
    open_streams = s.open_streams ++ s.next_stream ∷ [];
    next_stream = suc s.next_stream;
  },
)

unfoldable pub unsubscribe : Option (Option ℕ) → Feeds → Feeds
unsubscribe (some (some stream)) s = record s {
  open_streams = keep (λ n. not (nat_eq n stream)) s.open_streams;
}
unsubscribe _ s = s

-- `subscribeRelay`
unfoldable pub subscribe_relay : ℕ → String → Feeds → Feeds
unfolding unsubscribe subscribe_one_relay
subscribe_relay now url s = elim s.filter_since [
  | none ↦ s
  | some since ↦
      let opened = subscribe_one_relay now url (unsubscribe (get url s.subscriptions) s) in
      record (opened.1) { subscriptions = set url (opened.0) opened.1.subscriptions }
]

unfoldable pub subscribe_each : ℕ → List String → Feeds → Feeds
unfolding subscribe_relay
subscribe_each now [] s = s
subscribe_each now (url ∷ urls) s = subscribe_each now urls (subscribe_relay now url s)

-- `start`
unfoldable pub start : Config → ℕ → Feeds → Feeds
unfolding subscribe_each distinct
start cfg now s =
    if ltb 0 (size s.subscriptions)
    then s
    else record (subscribe_each now (distinct (cfg.relays ++ cfg.trusted_author_relays))
        (record s { filter_since = some (now - 60) })) { watchdog = true }

unfoldable pub unsubscribe_each : List (Option ℕ) → Feeds → Feeds
unfolding unsubscribe
unsubscribe_each [] s = s
unsubscribe_each (u ∷ us) s = unsubscribe_each us (unsubscribe (some u) s)

-- `stop`
unfoldable pub stop : Feeds → Feeds
unfolding unsubscribe_each
stop s = record (unsubscribe_each (values s.subscriptions) (record s { watchdog = false })) {
  subscriptions = [];
  filter_since = none;
}

-- An event or the end of the stored ones from a relay.
unfoldable pub hears : ℕ → String → Feeds → Feeds
hears now url s = record s { last_event_at = set url now s.last_event_at }

-- `WATCHDOG_STALENESS_MS / 1000`
abbrev pub staleness : ℕ
staleness = 300

unfoldable pub is_stale : ℕ → Option ℕ → Bool
is_stale now none = true
is_stale now (some last) = ltb (last + staleness) now

unfoldable pub tick_each : ℕ → List String → Feeds → Feeds
unfolding is_stale subscribe_relay
tick_each now [] s = s
tick_each now (url ∷ urls) s =
    tick_each now urls
      (if is_stale now (get url s.last_event_at) then subscribe_relay now url s else s)

-- `tickWatchdog`
unfoldable pub tick_watchdog : ℕ → Feeds → Feeds
unfolding tick_each
tick_watchdog now s = tick_each now (keys s.subscriptions) s
