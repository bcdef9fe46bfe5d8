-- ===== src/Lib.antt =====
-- The selective forwarding unit of Obelisk: a server that is driven by Nostr events and forwards
-- the media of group calls through mediasoup. This library models its logic and proves what makes
-- it correct. Paths below are from the repository's root.
--
-- The parts and how they interact. Relays deliver control events (kind 25052) to the call listener
-- (src/call-listener.ts: Calls), which drops duplicates, checks the sender (src/auth.ts: Auth),
-- looks the channel up in the channel registry (src/channel-registry.ts: Channels) and starts,
-- ends, kicks or updates rooms in the room manager (src/room-manager.ts: Rooms). A room
-- (src/room-mediasoup.ts: Room) answers the requests of its peers, watches their transports, and
-- ends by its timers. It holds a watch of its channel's lists in the membership tracker
-- (src/membership.ts: Membership).
--
-- A client may also speak to a room over a WebSocket (src/direct-rpc.ts): Frames has the frames
-- and their parser, Direct the authentication, Direct/Connection and Direct/Steps the connection,
-- which starts rooms in the room manager and puts requests to the door of a room. The web console
-- configures the server over HTTP (src/http-server.ts: Http): its admins sign a request or hold a
-- session (src/admin-session.ts: Sessions), and their overrides (src/admin.ts: Admin) are checked,
-- stored and applied. The keys that trusted accounts follow are allowed too
-- (src/follow-whitelist.ts: Follows). The routers of the rooms come from the workers of mediasoup
-- (src/mediasoup-server.ts: Engine). What the server publishes goes to the relay pool, which notes
-- how the relays answer (src/relay.ts: Relays), its advertisement among it (src/advertise.ts:
-- Advertise). Requests and responses travel in envelopes (src/nostr-rpc.ts: Envelopes).
--
-- How code corresponds to definitions. A class is a record of its fields; a method is a function
-- of the same name on that record, in snake_case. What a method sends or closes outside is
-- appended to `effects`, in order. A method that waits is cut at its `await`: `kick_begin` and
-- `kick_end`, `create_begin` and `create_end`, `start_begin` and `start_end`, so that other events
-- can stand in between, except for kick, close, the reaper and a test injection in Room/Events;
-- the object it holds across the wait is an argument of the second part, and `ref` is its
-- identity, so that a write to an object that has left the table changes nothing. Timers are
-- fields that hold the time at which they fire, and their callbacks are functions. A `Map` or
-- `Set` of JavaScript is a list in insertion order (Map, StringSet). Times and limits are natural
-- numbers, in milliseconds or seconds as in the code; the difference of two times stops at 0,
-- which is what the comparisons with a positive bound need.
--
-- The files. Prelude has the shared helpers; Map, StringSet and Sorting the containers; Texts,
-- Nostr and Nostr/Integers the readers of keys, tags and numbers; Types and Config the records of
-- src/types.ts and src/config.ts. Room has the state of a room, Room/Roster its peer table,
-- Room/Lifetime start, end and timers, Room/Transports and Room/Media the handlers, Room/Reaper
-- the reaper of silent peers, Room/Injection the injection of test producers, Room/Dispatch the
-- door; Room/Invariant what holds between events, Room/Events all that can happen, with
-- Room/Events/Histories on what every history keeps and Room/Events/Entry on the ways in.
-- Calls/Rules merges rules, Calls/Once is about duplicates, Calls/Rights and Calls/Capacity about
-- the rooms a control event can touch, Calls/Feeds about the subscriptions and their watchdog,
-- whose streams are the subject of Calls/Feeds/Streams, Calls/Feeds/Renewal and
-- Calls/Feeds/Starting. Frames/Parser has the loop of the parser, Frames/Rounds its end,
-- Frames/Chunks and Frames/Clients what it reads. Direct/Induction carries a property through
-- every history of a connection, for Direct/Closing and Direct/Leaks; Direct/Guard is about who is
-- answered, Direct/Wire joins the parser to the connection. Room/Notices has the sessions to which
-- a room's notifications go. Admin/Overrides, Admin/Validation and Admin/Restart are about the
-- overrides, Http/Handlers about the requests, Http/Inject about the one that puts a test producer
-- into a room, Http/Rights about who may change what, Http/Overriding about what a change leaves,
-- Http/Health about the health page. Engine/Rotation is about the turns of the workers,
-- Engine/Overlaps about calls that overlap, Relays/Access about the access that a publication
-- shows, Advertise/Reception about what the advertiser learns from it, Envelopes/Sending about
-- reading what was sent. Sessions/Histories compares the sessions with the calls so far, with
-- `hash` for SHA-256 as a parameter. Tests has sample data and the theorems at them.
--
-- Only the loop of the frame parser runs on fuel, as many rounds as the buffer has bytes, of which
-- each round takes some off. Every other loop is by recursion on a list, so that all functions are
-- total.
--
-- Parameters of the model. `JSON.parse` is not modelled: an event carries its parsed content, or
-- `none` where the parse throws. The objects of mediasoup are arguments of the parts that follow
-- an `await`, and what `canConsume` and `getStats` answer are arguments too. Of mediasoup the
-- model uses that closing a transport runs its close observer, and the `transportclose` handlers
-- of its producers or consumers, before `close()` returns. The order of the host's collation is an
-- argument of `list_voice_channels`. The signature check of nostr-tools, the URL parser, base64,
-- `toUpperCase` and SHA-256 are arguments where they are used. What relays answer to a query for
-- contact lists is an argument of the request that asks.
--
-- Not modelled: logging, the publication of a room's events and its retries beyond that it
-- happens, the HTTP upgrade of a WebSocket, the test peers, the pages that the HTTP server only
-- reads out, the JSON texts of envelopes, the server's profile and its beacons, the options of
-- transports, the interval at which a consumer of video asks for a key frame, and the legacy
-- engine, which the server does not start. A room that closes while it starts stays closed in
-- Rooms, where the code resumes the start outside the table of rooms. A timer holds the time for
-- which it is set, also beyond 2^31 - 1 milliseconds, where Node fires at once. The pubkeys that
-- control events carry are compared as texts, as the code does.
pub mod Prelude
pub mod Map
pub mod StringSet
pub mod Nostr
pub mod Types
pub mod Config
pub mod Auth
pub mod Sorting
pub mod Channels
pub mod Texts
pub mod Membership
pub mod Room
pub mod Rooms
pub mod Calls
pub mod Sessions
pub mod Frames
pub mod Direct
pub mod Admin
pub mod Follows
pub mod Http
pub mod Engine
pub mod Relays
pub mod Advertise
pub mod Envelopes
pub mod Tests
