-- ===== src/Calls/Feeds/Starting.antt =====
-- The streams of a listener from its start on.
use obelisk_sfu.Prelude.{ℕ, String, List, [], ◌∷◌}
use obelisk_sfu.Config.{Config}
use obelisk_sfu.Calls.Feeds.{Feeds, hears, tick_watchdog}

-- What happens to a listener that has started: an event or the end of the stored ones comes from a
-- relay, or the watchdog ticks.
pub data Happening : Type 0 where
  heard : String → Happening
  ticks : Happening

abbrev pub happen : ℕ → Happening → Feeds → Feeds
happen now (heard url) s = hears now url s
happen now ticks s = tick_watchdog now s

-- The earliest first, each at its time.
abbrev pub goes_on : List (ℕ × Happening) → Feeds → Feeds
goes_on [] s = s
goes_on ((now, h) ∷ hs) s = goes_on hs (happen now h s)
