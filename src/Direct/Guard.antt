-- ===== src/Direct/Guard.antt =====
-- Nothing is answered on a connection before its user has shown who they are. `P` is any property
-- of what arrives.
pub mod Histories
use obelisk_sfu.Prelude.{
  ℕ, String, Bool, true, false, not, List, [], ◌∷◌, ◌++◌, Option, none, some, ◌≡◌, ◌&&◌, refl,
  arith, inl, inr, if-rule, Option-cases, is_text, value_or, leb, nat_eq, length, All, All-append,
  subst, sym,
}
use obelisk_sfu.Nostr.{Event}
use obelisk_sfu.Auth.{is_allowed_to_start}
use obelisk_sfu.Map.{get}
use obelisk_sfu.Rooms.{RoomManager, start_begin, start_ready, start_fails}
use obelisk_sfu.Direct.{Url, is_client_id}
use obelisk_sfu.Direct.Connection.{
  Sent, auth_challenge, pong, auth_ok, response, close_frame, Wait, idle, starts, asks, Incoming,
  invalid_json, invalid_message, object, Body, Connection, opened, default_rules, close_with,
  cleanup, admit, enter, ask, handle_request,
}
use obelisk_sfu.Direct.Steps.{
  Setting, Input, text, turn, started, start_failed, answered, close_received, ping_received,
  unsupported_received, auth_timeout, socket_closed, rooms_change, enter_if_allowed, handle_auth,
  handle_text, take_turn, resume, fail, reply, step, run, verified,
}

-- Neither an `auth_ok` nor a response is among what was sent.
abbrev pub is_silent : List Sent → Bool
is_silent [] = true
is_silent (auth_challenge ∷ xs) = is_silent xs
is_silent (pong ∷ xs) = is_silent xs
is_silent (close_frame code reason ∷ xs) = is_silent xs
is_silent (auth_ok p c ∷ xs) = false
is_silent (response o ∷ xs) = false

is_silent-append : (xs ys : List Sent) → is_silent (xs ++ ys) ≡ (is_silent xs && is_silent ys)
is_silent-append [] ys = refl
is_silent-append (auth_challenge ∷ xs) ys = is_silent-append xs ys
is_silent-append (pong ∷ xs) ys = is_silent-append xs ys
is_silent-append (close_frame code reason ∷ xs) ys = is_silent-append xs ys
is_silent-append (auth_ok p c ∷ xs) ys = refl
is_silent-append (response o ∷ xs) ys = refl

module _ (verify_event : Event String → Bool) (parse_url : String → Option Url) (k : Setting)
    (P : Input → Type 0) where
  -- A text that arrived, at the time when its turn came, has a valid authentication event of this
  -- user, who may start a call.
  abbrev pub Shown : String → Type 0
  Shown pubkey =
      (now : ℕ) × (now_ms : ℕ) × (members : List String) × (body : Body) × P
        (turn now now_ms members)
      × P (text (object body))
      × (verified verify_event parse_url k now body ≡ some pubkey)
      × (is_allowed_to_start k.cfg now k.sfu_pubkey pubkey ≡ true)

  abbrev WaitIsGuarded : Bool → Wait → Type 0
  WaitIsGuarded authed idle = Unit {0}
  WaitIsGuarded authed (starts pubkey client_id ref) = Shown pubkey
  WaitIsGuarded authed (asks o) = authed ≡ true

  abbrev UserIsShown : Option String → Type 0
  UserIsShown none = Unit {0}
  UserIsShown (some pubkey) = Shown pubkey

  -- Before the authentication nothing was answered; after it the user is known.
  abbrev AnswersAreGuarded : Bool → Option String → List Sent → Type 0
  AnswersAreGuarded false pubkey sent = is_silent sent ≡ true
  AnswersAreGuarded true pubkey sent = (pk : String) × (pubkey ≡ some pk)

  abbrev IsGuarded : Connection → Type 0
  IsGuarded c =
      All (λ t. P (text t)) c.chain
      × WaitIsGuarded c.authed c.wait
      × UserIsShown c.pubkey
      × AnswersAreGuarded c.authed c.pubkey c.sent

  says :
      (authed : Bool) (pubkey : Option String) (xs : List Sent) (x : Sent)
      → is_silent (x ∷ []) ≡ true
      → AnswersAreGuarded authed pubkey xs
      → AnswersAreGuarded authed pubkey (xs ++ x ∷ [])
  says false pubkey xs x e h = ground (arith, h, e, is_silent-append xs (x ∷ []))
  says true pubkey xs x e h = h

  answers :
      (authed : Bool) (pubkey : Option String) (xs ys : List Sent)
      → authed ≡ true
      → AnswersAreGuarded authed pubkey xs
      → AnswersAreGuarded authed pubkey ys
  answers true pubkey xs ys on h = h
  answers false pubkey xs ys on h = absurd cc

  close_with-IsGuarded :
      (code : ℕ) (reason : String) (c : Connection)
      → IsGuarded c
      → IsGuarded (close_with code reason c)
  unfolding close_with
  close_with-IsGuarded code reason c h =
      if-rule IsGuarded c.closing _ _ (λ on. h)
        (λ off. (h.0, h.1, h.2, says c.authed c.pubkey c.sent (close_frame code reason) refl h.3))

  admit-IsGuarded :
      (pubkey client_id : String) (ref : ℕ) (c : Connection)
      → All (λ t. P (text t)) c.chain
      → WaitIsGuarded true c.wait
      → Shown pubkey
      → IsGuarded (admit k.cfg k.channel_id k.id pubkey client_id ref c)
  unfolding admit
  admit-IsGuarded pubkey client_id ref c hc hw hs = (hc, hw, hs, (pubkey, refl))

  known : (authed : Bool) (w : Wait) → WaitIsGuarded authed w → WaitIsGuarded true w
  known authed idle h = tt
  known authed (starts pubkey client_id ref) h = h
  known authed (asks o) h = refl

  enter-IsGuarded :
      (pubkey client_id : String) (c : Connection)
      → Shown pubkey
      → IsGuarded c
      → IsGuarded (enter k.cfg k.channel_id k.id pubkey client_id c)
  unfolding enter
  enter-IsGuarded pubkey client_id c s h = elim (Option-cases (get k.channel_id c.rooms.rooms)) [
    | inr (room, e) ↦
        rw (e, enter)
          (admit-IsGuarded pubkey client_id room.ref c h.0 (known c.authed c.wait h.1) s)
    | inl e ↦
        rw (e, enter)
          (if-rule IsGuarded c.rooms.draining _ _
            (λ on. close_with-IsGuarded 4403 "sfu draining" c h)
            (λ off.
              if-rule IsGuarded (leb k.cfg.max_rooms (length c.rooms.rooms)) _ _
                (λ full. close_with-IsGuarded 4403 "max rooms reached" c h)
                (λ free.
                  elim (Option-cases (start_begin k.channel_id pubkey default_rules c.rooms)) [
                    | inl f ↦ rw f (close_with-IsGuarded 1011 "handler error" c h)
                    | inr (m, f) ↦ rw f (h.0, s, h.2, h.3)
                  ])))
  ]

  ask-IsGuarded :
      (now : ℕ) (members : List String) (pubkey client_id : String) (ref : ℕ) (body : Body)
      (c : Connection)
      → c.authed ≡ true
      → IsGuarded c
      → IsGuarded (ask k.cfg k.channel_id k.id now members pubkey client_id ref body.method c)
  unfolding ask
  ask-IsGuarded now members pubkey client_id ref body c on h =
      elim (Option-cases (get k.channel_id c.rooms.rooms)) [
        | inl e ↦ rw (e, ask) (h.0, on, h.2, h.3)
        | inr (room, e) ↦
            rw (e, ask)
              (if-rule IsGuarded (nat_eq room.ref ref) _ _ (λ same. (h.0, on, h.2, h.3))
                (λ other. (h.0, on, h.2, h.3)))
      ]

  handle_request-IsGuarded :
      (now : ℕ) (members : List String) (body : Body) (c : Connection)
      → c.authed ≡ true
      → IsGuarded c
      → IsGuarded (handle_request k.cfg k.channel_id k.id now members body c)
  unfolding handle_request
  handle_request-IsGuarded now members body c on h =
      let unready = close_with-IsGuarded 1011 "session not ready" c h in
      if-rule IsGuarded (not (is_text body.type "request")) _ _
        (λ other. close_with-IsGuarded 1003 "expected request" c h)
        (λ request.
          elim c.pubkey
            as (λ p. IsGuarded (elim p [
              | none ↦ close_with 1011 "session not ready" c
              | some pubkey ↦ elim c.client_id [
                | none ↦ close_with 1011 "session not ready" c
                | some client_id ↦ elim c.room [
                  | none ↦ close_with 1011 "session not ready" c
                  | some ref ↦
                      ask k.cfg k.channel_id k.id now members pubkey client_id ref body.method c
                ]
              ]
            ])) [
              | none ↦ unready
              | some pubkey ↦
                  elim c.client_id
                    as (λ p. IsGuarded (elim p [
                      | none ↦ close_with 1011 "session not ready" c
                      | some client_id ↦ elim c.room [
                        | none ↦ close_with 1011 "session not ready" c
                        | some ref ↦
                            ask k.cfg k.channel_id k.id now members pubkey client_id ref body.method
                              c
                      ]
                    ])) [
                      | none ↦ unready
                      | some client_id ↦
                          elim c.room
                            as (λ p. IsGuarded (elim p [
                              | none ↦ close_with 1011 "session not ready" c
                              | some ref ↦
                                  ask k.cfg k.channel_id k.id now members pubkey client_id ref
                                    body.method c
                            ])) [
                              | none ↦ unready
                              | some ref ↦
                                  ask-IsGuarded now members pubkey client_id ref body c on h
                            ]
                    ]
            ])
