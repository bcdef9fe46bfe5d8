-- ===== src/Http.antt =====
-- src/http-server.ts: the requests and the table of routes.
pub mod Inject
pub mod Handlers
pub mod Rights
pub mod Overriding
pub mod Health
use Prim.Native.String
use text.Mathlib.Text.{starts_with}
use obelisk_sfu.Prelude.{
  ℕ, String, Bool, true, false, not, ◌&&◌, ◌||◌, List, Option, ◌==◌, if◌then◌else◌,
}
use obelisk_sfu.Nostr.{Event}
use obelisk_sfu.Config.{Config}
use obelisk_sfu.Sessions.{AdminSessions}
use obelisk_sfu.Room.{VoiceKind}
use obelisk_sfu.Rooms.{RoomManager}
use obelisk_sfu.Admin.Overrides.{Patch}

-- The body of `/test/inject`: `is_video` is `kind === 'video'`, and a kind of voice is one of the
-- four.
pub record InjectBody : Type 0 where
  pub channel_id : Option String
  pub is_video : Bool
  pub voice_kind : Option VoiceKind
  pub origin_pubkey : Option String

pub data HttpMethod : Type 0 where
  get head post put delete : HttpMethod
  other : String → HttpMethod

-- The text of the method, as `req.method` has it.
abbrev pub method_text : HttpMethod → String
method_text get = "GET"
method_text head = "HEAD"
method_text post = "POST"
method_text put = "PUT"
method_text delete = "DELETE"
method_text (other m) = m

-- `token` is what `readCookie` finds, `full_url` what `fullUrl` makes, and `patch` what
-- `JSON.parse` makes of the body, `none` where it throws. `injection` is what it makes of the body
-- of `/test/inject`.
pub record Request : Type 0 where
  pub method : HttpMethod
  pub url : String
  pub token : Option String
  pub authorization : Option String
  pub full_url : String
  pub patch : Option Patch
  pub injection : Option InjectBody

pub data Route : Type 0 where
  test_inject admin_ui : Route
  session_get session_post session_delete : Route
  admin_get admin_put admin_restart admin_sync_follows : Route
  test_peer_list test_peer_spawn test_peer_stop : Route
  root info health rooms channel_resolve channels : Route
  method_not_allowed not_found : Route

abbrev is_get : HttpMethod → Bool
is_get get = true
is_get _ = false

abbrev is_post : HttpMethod → Bool
is_post post = true
is_post _ = false

abbrev is_read : HttpMethod → Bool
is_read get = true
is_read head = true
is_read _ = false

-- `url === path || url.startsWith(path + '?')`
unfoldable pub is_at : String → String → Bool
is_at url path = url == path || starts_with url (String.◌++◌ path "?")

abbrev session_route : HttpMethod → Route
session_route get = session_get
session_route post = session_post
session_route delete = session_delete
session_route _ = method_not_allowed

abbrev state_route : HttpMethod → Route
state_route get = admin_get
state_route put = admin_put
state_route _ = method_not_allowed

-- The pages that anyone may read.
unfoldable pub public_route : HttpMethod → String → Route
unfolding is_at
public_route method url =
    if not (is_read method)
    then method_not_allowed
    else if url == "/" || starts_with url "/?"
    then root
    else if is_at url "/info"
    then info
    else if is_at url "/healthz"
    then health
    else if is_at url "/rooms"
    then rooms
    else if is_at url "/channels/resolve"
    then channel_resolve
    else if is_at url "/channels"
    then channels
    else not_found

unfoldable pub route : HttpMethod → String → Route
unfolding public_route
route method url =
    if is_post method && is_at url "/test/inject"
    then test_inject
    else if url == "/admin"
        || url == "/admin/"
        || starts_with url "/admin/ui"
        || starts_with url "/admin/assets/"
    then admin_ui
    else if url == "/admin/session"
    then session_route method
    else if is_at url "/admin/state"
    then state_route method
    else if url == "/admin/restart" && is_post method
    then admin_restart
    else if url == "/admin/sync-follows" && is_post method
    then admin_sync_follows
    else if url == "/admin/test-peers" && is_get method
    then test_peer_list
    else if url == "/admin/test-peer/spawn" && is_post method
    then test_peer_spawn
    else if url == "/admin/test-peer/stop" && is_post method
    then test_peer_stop
    else public_route method url
