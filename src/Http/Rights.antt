-- ===== src/Http/Rights.antt =====
-- Who may change the server through its HTTP interface.
use obelisk_sfu.Prelude.{String, Bool, true, Option, some, ◌≡◌, ◌⊎◌, if-rule, if-rule}
use obelisk_sfu.Nostr.{Event}
use obelisk_sfu.Sessions.{lookup}
use obelisk_sfu.Direct.{Url}
use obelisk_sfu.Admin.{signed_by, is_console_admin}
use obelisk_sfu.Http.{Request, Route, test_inject, rooms}
use obelisk_sfu.Http.Inject.{IsInjected}
use obelisk_sfu.Http.Handlers.{Server, Moment, signer}

-- The configuration, its overrides, the test peers and the process are as before, and so are the
-- rooms, unless the route is `/test/inject`: then they may be as before but for the injection.
abbrev pub IsUntouched : Moment → Route → Request → Server → Server → Type 0
IsUntouched t r req s s' =
    (s'.cfg ≡ s.cfg)
    × (s'.overrides ≡ s.overrides)
    × (s'.effects ≡ s.effects)
    × ((s'.rooms ≡ s.rooms)
        ⊎ ((r ≡ test_inject) × IsInjected t.made t.now_ms req.injection s.rooms s'.rooms))

module _ (verify_event : Event String → Bool) (parse_url : String → Option Url)
    (decode : String → Option (Event String)) (to_upper_case hash : String → String) where
  -- The request shows a console admin, by its session or by a signature for this request.
  abbrev pub ShowsAdmin : Moment → Request → Server → Type 0
  ShowsAdmin t req s =
      (pubkey : String) × (is_console_admin s.cfg s.sfu_pubkey pubkey ≡ true)
      × (((lookup hash t.now req.token s.sessions).0 ≡ some pubkey)
          ⊎ ((method : String) × (signer verify_event parse_url decode to_upper_case hash t method
                  req
                ≡ signed_by pubkey)))
