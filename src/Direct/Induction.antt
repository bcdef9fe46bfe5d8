-- ===== src/Direct/Induction.antt =====
-- What every part of a connection keeps, each history keeps.
use obelisk_sfu.Prelude.{
  ℕ, String, Bool, true, false, not, List, [], ◌∷◌, ◌++◌, Option, none, some, ◌≡◌, refl, arith,
  if-rule, is_text, value_or, leb, length, nat_eq, Option-cases, inl, inr,
}
use obelisk_sfu.Nostr.{Event}
use obelisk_sfu.Map.{get}
use obelisk_sfu.Room.Roster.{room_not_active}
use obelisk_sfu.Room.Dispatch.{fails, dispatch_rpc_request}
use obelisk_sfu.Rooms.{RoomManager, settle, start_begin, start_ready, start_fails}
use obelisk_sfu.Direct.{Url, is_client_id}
use obelisk_sfu.Direct.Connection.{
  Sent, auth_challenge, pong, auth_ok, response, close_frame, Wait, idle, starts, asks, Incoming,
  invalid_json, invalid_message, object, Body, Connection, default_rules, send, close_with, cleanup,
  admit, enter, ask, handle_request,
}
use obelisk_sfu.Direct.Steps.{
  Setting, Input, text, turn, started, start_failed, answered, close_received, ping_received,
  unsupported_received, auth_timeout, socket_closed, rooms_change, enter_if_allowed, handle_auth,
  handle_text, take_turn, resume, fail, reply, step, run, verified,
}

abbrev pub is_close : Sent → Bool
is_close (close_frame code reason) = true
is_close auth_challenge = false
is_close pong = false
is_close (auth_ok p c) = false
is_close (response o) = false

-- The waiting, the chain, the timer and the rooms are for others to change.
abbrev pub moved : Wait → List Incoming → Bool → RoomManager → Connection → Connection
moved w ts on m c = record c { wait = w; chain = ts; timer = on; rooms = m }

module _ (k : Setting) (Q : Connection → Type 0)
    (closes : (code : ℕ) (reason : String) (c : Connection) → Q c → Q (close_with code reason c))
    (admits : (pubkey client_id : String) (ref : ℕ) (c : Connection)
      → Q c
      → Q (admit k.cfg k.channel_id k.id pubkey client_id ref c))
    (sends : (x : Sent) (c : Connection) → is_close x ≡ false → Q c → Q (send x c))
    (moves : (w : Wait) (ts : List Incoming) (on : Bool) (m : RoomManager) (c : Connection)
      → Q c
      → Q (moved w ts on m c))
    (cleans : (now : ℕ) (c : Connection) → Q c → Q (cleanup k.cfg k.channel_id k.id now c)) where
  enter-keeps :
      (pubkey client_id : String) (c : Connection)
      → Q c
      → Q (enter k.cfg k.channel_id k.id pubkey client_id c)
  unfolding enter
  enter-keeps pubkey client_id c h = elim (Option-cases (get k.channel_id c.rooms.rooms)) [
    | inr (room, e) ↦ rw (e, enter) (admits pubkey client_id room.ref c h)
    | inl e ↦
        rw (e, enter)
          (if-rule Q c.rooms.draining _ _ (λ on. closes 4403 "sfu draining" c h)
            (λ off.
              if-rule Q (leb k.cfg.max_rooms (length c.rooms.rooms)) _ _
                (λ full. closes 4403 "max rooms reached" c h)
                (λ free.
                  elim (Option-cases (start_begin k.channel_id pubkey default_rules c.rooms)) [
                    | inl f ↦ rw f (closes 1011 "handler error" c h)
                    | inr (m, f) ↦
                        rw f
                          (moves (starts pubkey client_id c.rooms.next_room) c.chain c.timer m c h)
                  ])))
  ]

  ask-keeps :
      (now : ℕ) (members : List String) (pubkey client_id : String) (ref : ℕ) (body : Body)
      (c : Connection)
      → Q c
      → Q (ask k.cfg k.channel_id k.id now members pubkey client_id ref body.method c)
  unfolding ask
  ask-keeps now members pubkey client_id ref body c h =
      elim (Option-cases (get k.channel_id c.rooms.rooms)) [
        | inl e ↦ rw (e, ask) (moves (asks (fails room_not_active)) c.chain c.timer c.rooms c h)
        | inr (room, e) ↦
            rw (e, ask)
              (if-rule Q (nat_eq room.ref ref) _ _
                (λ same.
                  let answer =
                    dispatch_rpc_request k.cfg now members pubkey client_id body.method room.room in
                  moves (asks answer.0) c.chain c.timer (settle k.channel_id room answer.1 c.rooms)
                    c h)
                (λ other. (moves (asks (fails room_not_active)) c.chain c.timer c.rooms c h)))
      ]

  handle_request-keeps :
      (now : ℕ) (members : List String) (body : Body) (c : Connection)
      → Q c
      → Q (handle_request k.cfg k.channel_id k.id now members body c)
  unfolding handle_request
  handle_request-keeps now members body c h =
      let unready = closes 1011 "session not ready" c h in
      if-rule Q (not (is_text body.type "request")) _ _
        (λ other. closes 1003 "expected request" c h)
        (λ request.
          elim c.pubkey
            as (λ p. Q (elim p [
              | none ↦ close_with 1011 "session not ready" c
              | some pubkey ↦ elim c.client_id [
                | none ↦ close_with 1011 "session not ready" c
                | some client_id ↦ elim c.room [
                  | none ↦ close_with 1011 "session not ready" c
                  | some ref ↦
                      ask k.cfg k.channel_id k.id now members pubkey client_id ref body.method c
                ]
              ]
            ])) [
              | none ↦ unready
              | some pubkey ↦
                  elim c.client_id
                    as (λ p. Q (elim p [
                      | none ↦ close_with 1011 "session not ready" c
                      | some client_id ↦ elim c.room [
                        | none ↦ close_with 1011 "session not ready" c
                        | some ref ↦
                            ask k.cfg k.channel_id k.id now members pubkey client_id ref body.method
                              c
                      ]
                    ])) [
                      | none ↦ unready
                      | some client_id ↦
                          elim c.room
                            as (λ p. Q (elim p [
                              | none ↦ close_with 1011 "session not ready" c
                              | some ref ↦
                                  ask k.cfg k.channel_id k.id now members pubkey client_id ref
                                    body.method c
                            ])) [
                              | none ↦ unready
                              | some ref ↦ ask-keeps now members pubkey client_id ref body c h
                            ]
                    ]
            ])

  module _ (verify_event : Event String → Bool) (parse_url : String → Option Url) where
    enter_if_allowed-keeps :
        (now : ℕ) (client_id : String) (shown : Option String) (c : Connection)
        → Q c
        → Q (enter_if_allowed verify_event parse_url k now client_id shown c)
    unfolding enter_if_allowed
    enter_if_allowed-keeps now client_id none c h = closes 4401 "bad auth" c h
    enter_if_allowed-keeps now client_id (some pubkey) c h =
        ground (arith, closes 4403 "not whitelisted" c h, enter-keeps pubkey client_id c h)

    handle_auth-keeps :
        (now : ℕ) (body : Body) (c : Connection)
        → Q c
        → Q (handle_auth verify_event parse_url k now body c)
    unfolding handle_auth
    handle_auth-keeps now body c h =
        if-rule Q (not (is_text body.type "auth")) _ _ (λ other. closes 4401 "auth required" c h)
          (λ auth.
            if-rule Q (not (is_client_id (value_or body.client_id ""))) _ _
              (λ bad. closes 4401 "invalid client id" c h)
              (λ good.
                enter_if_allowed-keeps now (value_or body.client_id "")
                  (verified verify_event parse_url k now body) c h))

    handle_text-keeps :
        (now now_ms : ℕ) (members : List String) (t : Incoming) (c : Connection)
        → Q c
        → Q (handle_text verify_event parse_url k now now_ms members t c)
    unfolding handle_text
    handle_text-keeps now now_ms members invalid_json c h = closes 1007 "invalid json" c h
    handle_text-keeps now now_ms members invalid_message c h = closes 1007 "invalid message" c h
    handle_text-keeps now now_ms members (object body) c h =
        if-rule Q c.authed _ _ (λ on. handle_request-keeps now_ms members body c h)
          (λ off. handle_auth-keeps now body c h)

    take_turn-keeps :
        (now now_ms : ℕ) (members : List String) (w : Wait) (ts : List Incoming) (c : Connection)
        → Q c
        → Q (take_turn verify_event parse_url k now now_ms members w ts c)
    unfolding take_turn
    take_turn-keeps now now_ms members idle [] c h = h
    take_turn-keeps now now_ms members idle (t ∷ ts) c h =
        handle_text-keeps now now_ms members t (record c { chain = ts })
          (moves c.wait ts c.timer c.rooms c h)
    take_turn-keeps now now_ms members (starts p q r) ts c h = h
    take_turn-keeps now now_ms members (asks o) ts c h = h

    resume-keeps :
        (now : ℕ) (w : Wait) (c : Connection) → Q c → Q (resume verify_event parse_url k now w c)
    unfolding resume
    resume-keeps now idle c h = h
    resume-keeps now (starts p q r) c h =
        admits p q r
          (record c { wait = idle; rooms = start_ready k.cfg now k.channel_id r c.rooms })
          (moves idle c.chain c.timer (start_ready k.cfg now k.channel_id r c.rooms) c h)
    resume-keeps now (asks o) c h = h

    fail-keeps : (w : Wait) (c : Connection) → Q c → Q (fail verify_event parse_url k w c)
    unfolding fail
    fail-keeps idle c h = h
    fail-keeps (starts p q r) c h =
        closes 1011 "handler error"
          (record c { wait = idle; rooms = start_fails k.channel_id c.rooms })
          (moves idle c.chain c.timer (start_fails k.channel_id c.rooms) c h)
    fail-keeps (asks o) c h = h

    reply-keeps : (w : Wait) (c : Connection) → Q c → Q (reply verify_event parse_url k w c)
    unfolding reply
    reply-keeps idle c h = h
    reply-keeps (starts p q r) c h = h
    reply-keeps (asks o) c h =
        sends (response o) (record c { wait = idle }) refl (moves idle c.chain c.timer c.rooms c h)

    step-keeps : (i : Input) (c : Connection) → Q c → Q (step verify_event parse_url k i c)
    unfolding step
    step-keeps (text t) c h = moves c.wait (c.chain ++ t ∷ []) c.timer c.rooms c h
    step-keeps (turn now now_ms members) c h = take_turn-keeps now now_ms members c.wait c.chain c h
    step-keeps (started now) c h = resume-keeps now c.wait c h
    step-keeps start_failed c h = fail-keeps c.wait c h
    step-keeps answered c h = reply-keeps c.wait c h
    step-keeps close_received c h = closes 1000 "client closed" c h
    step-keeps ping_received c h = sends pong c refl h
    step-keeps unsupported_received c h = closes 1003 "unsupported frame" c h
    step-keeps auth_timeout c h =
        if-rule Q c.timer _ _
          (λ on.
            closes 4401 "auth timeout" (record c { timer = false })
              (moves c.wait c.chain false c.rooms c h))
          (λ off. h)
    step-keeps (socket_closed now) c h = cleans now c h
    step-keeps (rooms_change m) c h = moves c.wait c.chain c.timer m c h

    pub run-keeps : (is : List Input) (c : Connection) → Q c → Q (run verify_event parse_url k is c)
    unfolding run
    run-keeps [] c h = h
    run-keeps (i ∷ is) c h = run-keeps is (step verify_event parse_url k i c) (step-keeps i c h)
