-- ===== src/Http/Handlers.antt =====
-- src/http-server.ts: the handlers that change the state of the server or guard it: `authOrFail`,
-- the console's sessions, the overrides and the restart. Of the handlers of the test peers only
-- their guard is here, and what comes after it is an effect.
use obelisk_sfu.Prelude.{
  ℕ, String, Bool, true, false, not, ◌&&◌, List, ◌∷◌, Option, none, some, nat_eq, if◌then◌else◌,
}
use obelisk_sfu.Nostr.{Event}
use obelisk_sfu.Config.{Config}
use obelisk_sfu.Sessions.{AdminSessions, issue, lookup, revoke}
use obelisk_sfu.Rooms.{RoomManager, rearm_duration_limits}
use obelisk_sfu.Direct.{Url}
use obelisk_sfu.Follows.{sync_trusted_referent_follows}
use obelisk_sfu.Admin.{Verdict, signed_by, auth_error, verify_nip98, is_console_admin}
use obelisk_sfu.Admin.Overrides.{RuntimeOverrides, Patch, merge_patch, apply_overrides}
use obelisk_sfu.Admin.Validation.{Problem, check_patch}
use obelisk_sfu.Http.{
  Request, Route, test_inject, session_get, session_post, session_delete, admin_get, admin_put,
  admin_restart, admin_sync_follows, test_peer_list, test_peer_spawn, test_peer_stop,
  method_not_allowed, not_found, route,
}
use obelisk_sfu.Http.Inject.{MadeIds, handle_test_inject}

-- What goes on to the test peers, and the exit of the process.
pub data Effect : Type 0 where
  lists_peers spawns_peer stops_peer exits : Effect

-- `overrides` is what `runtime.json` holds.
pub record Server : Type 0 where
  pub cfg : Config
  pub sfu_pubkey : String
  pub sessions : AdminSessions
  pub rooms : RoomManager
  pub overrides : RuntimeOverrides
  pub effects : List Effect

-- What a request meets: the times in seconds and milliseconds, a fresh token, and what the relays
-- answer when they are asked for contact lists; `page` is the status with which a page that only
-- reads, or an effect, answers.
pub record Moment : Type 0 where
  pub now : ℕ
  pub now_ms : ℕ
  pub fresh : String
  pub contacts : Option (List (Event String))
  pub page : Route → ℕ
  pub made : MadeIds

-- The status of the response, and the state after it.
abbrev pub Response : Type 0
Response = ℕ × Server

abbrev pub exit : Server → Server
exit s = record s { effects = exits ∷ s.effects }

abbrev pub given {ℓ} : {A : Type ℓ} → Option A → Bool
given none = false
given (some a) = true

abbrev pub or_else : Option Config → Config → Config
or_else none cfg = cfg
or_else (some cfg') cfg = cfg'

-- `handleAdminPut` once the patch has passed the checks. A sync of follows that fails is logged.
unfoldable pub override : Moment → Patch → Server → Server
unfolding merge_patch apply_overrides sync_trusted_referent_follows rearm_duration_limits
override t patch s =
    let merged = merge_patch s.overrides patch in
    let applied = apply_overrides merged s.cfg in
    let cfg =
      if given patch.given.trusted_referent_pubkeys
      then or_else (sync_trusted_referent_follows t.contacts applied) applied
      else applied in
    let is_rearmed =
      given patch.given.max_call_duration_seconds
      && not (nat_eq cfg.max_call_duration_seconds s.cfg.max_call_duration_seconds) in
    record s {
      cfg = cfg;
      overrides = merged;
      rooms = if is_rearmed then rearm_duration_limits cfg t.now_ms s.rooms else s.rooms;
    }

unfoldable pub put_checked : Moment → Patch → Option Problem → Server → Response
unfolding override
put_checked t patch (some problem) s = (400, s)
put_checked t patch none s = (200, override t patch s)

unfoldable pub put_patch : Moment → Option Patch → Server → Response
unfolding put_checked check_patch
put_patch t none s = (400, s)
put_patch t (some patch) s = put_checked t patch (check_patch t.now patch.given) s

unfoldable pub sync_follows : Moment → Server → Response
unfolding sync_trusted_referent_follows
sync_follows t s = elim (sync_trusted_referent_follows t.contacts s.cfg) [
  | none ↦ (500, s)
  | some cfg ↦ (200, record s { cfg = cfg })
]

abbrev pub does : Moment → Route → Effect → Server → Response
does t r e s = (t.page r, record s { effects = e ∷ s.effects })

module _ (verify_event : Event String → Bool) (parse_url : String → Option Url)
    (decode : String → Option (Event String)) (to_upper_case hash : String → String) where
  -- The signer of the request's `Authorization` header.
  abbrev pub signer : Moment → String → Request → Verdict
  signer t method req =
      verify_nip98 verify_event parse_url decode to_upper_case t.now req.authorization method
        req.full_url

  -- The second half of `authOrFail`: `none` is leave to go on.
  unfoldable pub refusal : Server → Verdict → Option ℕ
  unfolding is_console_admin
  refusal s (auth_error status) = some status
  refusal s (signed_by pubkey) =
      if is_console_admin s.cfg s.sfu_pubkey pubkey then none else some 403

  abbrev pub has_session : Server → Option String → Bool
  has_session s none = false
  has_session s (some pubkey) = is_console_admin s.cfg s.sfu_pubkey pubkey

  -- `authOrFail`: the state after the lookup of the session, and the refusal.
  unfoldable pub auth_or_fail : Moment → String → Request → Server → Server × Option ℕ
  unfolding lookup refusal
  auth_or_fail t method req s =
      let found = lookup hash t.now req.token s.sessions in
      (
        record s { sessions = found.1 },
        if has_session s found.0 then none else refusal s (signer t method req),
      )

  abbrev pub go_on : Option ℕ → Response → Response → Response
  go_on none yes_then no_then = yes_then
  go_on (some status) yes_then no_then = (status, no_then.1)

  -- `if (!this.authOrFail(req, res, method)) return;` and the rest of a handler.
  unfoldable pub guarded : Moment → String → (Server → Response) → Request → Server → Response
  unfolding auth_or_fail
  guarded t method rest req s =
      let auth = auth_or_fail t method req s in go_on auth.1 (rest auth.0) (0, auth.0)

  unfoldable pub handle_session_get : Moment → Request → Server → Response
  unfolding lookup
  handle_session_get t req s =
      (200, record s { sessions = (lookup hash t.now req.token s.sessions).1 })

  unfoldable pub open_session : Moment → Server → Verdict → Response
  unfolding issue is_console_admin
  open_session t s (auth_error status) = (status, s)
  open_session t s (signed_by pubkey) =
      if is_console_admin s.cfg s.sfu_pubkey pubkey
      then (200, record s { sessions = issue hash t.now t.fresh pubkey s.sessions })
      else (403, s)

  unfoldable pub handle_session_post : Moment → Request → Server → Response
  unfolding open_session
  handle_session_post t req s = open_session t s (signer t "POST" req)

  unfoldable pub handle_session_delete : Moment → Request → Server → Response
  unfolding revoke
  handle_session_delete t req s =
      (200, record s { sessions = revoke hash t.now req.token s.sessions })

  unfoldable pub handle_route : Moment → Route → Request → Server → Response
  unfolding guarded handle_session_get handle_session_post handle_session_delete put_patch
      sync_follows handle_test_inject
  handle_route t test_inject req s =
      let injected = handle_test_inject t.made t.now_ms req.injection s.rooms in
      (injected.0, record s { rooms = injected.1 })
  handle_route t session_get req s = handle_session_get t req s
  handle_route t session_post req s = handle_session_post t req s
  handle_route t session_delete req s = handle_session_delete t req s
  handle_route t admin_get req s = guarded t "GET" (λ s. (200, s)) req s
  handle_route t admin_put req s = guarded t "PUT" (put_patch t req.patch) req s
  handle_route t admin_restart req s = guarded t "POST" (λ s. (200, exit s)) req s
  handle_route t admin_sync_follows req s = guarded t "POST" (sync_follows t) req s
  handle_route t test_peer_list req s = guarded t "GET" (does t test_peer_list lists_peers) req s
  handle_route t test_peer_spawn req s = guarded t "POST" (does t test_peer_spawn spawns_peer) req s
  handle_route t test_peer_stop req s = guarded t "POST" (does t test_peer_stop stops_peer) req s
  handle_route t method_not_allowed req s = (405, s)
  handle_route t not_found req s = (404, s)
  handle_route t page req s = (t.page page, s)

  -- `handle`
  unfoldable pub handle : Moment → Request → Server → Response
  unfolding route handle_route
  handle t req s = handle_route t (route req.method req.url) req s
