-- ===== src/Direct/Guard/Histories.antt =====
-- Whatever a connection is told: who is answered has shown who they are.
use obelisk_sfu.Prelude.{
  ℕ, String, Bool, true, false, not, List, [], ◌∷◌, ◌++◌, Option, none, some, ◌≡◌, refl, arith, inl,
  inr, if-rule, Option-cases, is_text, value_or, All, All-append, subst, sym,
}
use obelisk_sfu.Nostr.{Event}
use obelisk_sfu.Auth.{is_allowed_to_start}
use obelisk_sfu.Rooms.{RoomManager, start_ready, start_fails}
use obelisk_sfu.Direct.{Url, is_client_id}
use obelisk_sfu.Direct.Connection.{
  Sent, pong, response, Wait, idle, starts, asks, Incoming, invalid_json, invalid_message, object,
  Body, Connection, opened, cleanup,
}
use obelisk_sfu.Direct.Steps.{
  Setting, Input, text, turn, started, start_failed, answered, close_received, ping_received,
  unsupported_received, auth_timeout, socket_closed, rooms_change, enter_if_allowed, handle_auth,
  handle_text, take_turn, resume, fail, reply, step, run, verified,
}
use obelisk_sfu.Direct.Guard.{
  is_silent, Shown, WaitIsGuarded, UserIsShown, AnswersAreGuarded, IsGuarded, says, answers,
  close_with-IsGuarded, admit-IsGuarded, enter-IsGuarded, handle_request-IsGuarded,
}

module _ (verify_event : Event String → Bool) (parse_url : String → Option Url) (k : Setting)
    (P : Input → Type 0) where
  enter_if_allowed-IsGuarded :
      (now now_ms : ℕ) (members : List String) (client_id : String) (body : Body) (c : Connection)
      → P (turn now now_ms members)
      → P (text (object body))
      → IsGuarded verify_event parse_url k P c
      → IsGuarded verify_event parse_url k P (
          enter_if_allowed verify_event parse_url k now client_id
            (verified verify_event parse_url k now body)
            c)
  unfolding enter_if_allowed
  enter_if_allowed-IsGuarded now now_ms members client_id body c pt pb h =
      elim (Option-cases (verified verify_event parse_url k now body)) [
        | inl e ↦
            rw (e, enter_if_allowed)
              (close_with-IsGuarded verify_event parse_url k P 4401 "bad auth" c h)
        | inr (pubkey, e) ↦
            subst
              (λ shown.
                IsGuarded verify_event parse_url k P
                  (enter_if_allowed verify_event parse_url k now client_id shown c))
              (sym e)
              (if-rule (IsGuarded verify_event parse_url k P)
                (not (is_allowed_to_start k.cfg now k.sfu_pubkey pubkey)) _ _
                (λ other.
                  close_with-IsGuarded verify_event parse_url k P 4403 "not whitelisted" c h)
                (λ allowed.
                  enter-IsGuarded verify_event parse_url k P pubkey client_id c
                    (now, now_ms, members, body, pt, pb, e, ground (arith, allowed)) h))
      ]

  handle_auth-IsGuarded :
      (now now_ms : ℕ) (members : List String) (body : Body) (c : Connection)
      → P (turn now now_ms members)
      → P (text (object body))
      → IsGuarded verify_event parse_url k P c
      → IsGuarded verify_event parse_url k P (handle_auth verify_event parse_url k now body c)
  unfolding handle_auth
  handle_auth-IsGuarded now now_ms members body c pt pb h =
      if-rule (IsGuarded verify_event parse_url k P) (not (is_text body.type "auth")) _ _
        (λ other. close_with-IsGuarded verify_event parse_url k P 4401 "auth required" c h)
        (λ auth.
          if-rule (IsGuarded verify_event parse_url k P)
            (not (is_client_id (value_or body.client_id ""))) _ _
            (λ bad. close_with-IsGuarded verify_event parse_url k P 4401 "invalid client id" c h)
            (λ good.
              enter_if_allowed-IsGuarded now now_ms members (value_or body.client_id "") body c pt
                pb h))

  handle_text-IsGuarded :
      (now now_ms : ℕ) (members : List String) (t : Incoming) (c : Connection)
      → P (turn now now_ms members)
      → P (text t)
      → IsGuarded verify_event parse_url k P c
      → IsGuarded verify_event parse_url k P
          (handle_text verify_event parse_url k now now_ms members t c)
  unfolding handle_text
  handle_text-IsGuarded now now_ms members invalid_json c pt p h =
      close_with-IsGuarded verify_event parse_url k P 1007 "invalid json" c h
  handle_text-IsGuarded now now_ms members invalid_message c pt p h =
      close_with-IsGuarded verify_event parse_url k P 1007 "invalid message" c h
  handle_text-IsGuarded now now_ms members (object body) c pt p h =
      if-rule (IsGuarded verify_event parse_url k P) c.authed _ _
        (λ on. handle_request-IsGuarded verify_event parse_url k P now_ms members body c on h)
        (λ off. handle_auth-IsGuarded now now_ms members body c pt p h)

  take_turn-IsGuarded :
      (now now_ms : ℕ) (members : List String) (w : Wait) (ts : List Incoming) (c : Connection)
      → P (turn now now_ms members)
      → All (λ t. P (text t)) ts
      → IsGuarded verify_event parse_url k P c
      → IsGuarded verify_event parse_url k P
          (take_turn verify_event parse_url k now now_ms members w ts c)
  unfolding take_turn
  take_turn-IsGuarded now now_ms members idle [] c pt ps h = h
  take_turn-IsGuarded now now_ms members idle (t ∷ ts) c pt ps h =
      handle_text-IsGuarded now now_ms members t (record c { chain = ts }) pt ps.0
        (ps.1, h.1, h.2, h.3)
  take_turn-IsGuarded now now_ms members (starts p q r) ts c pt ps h = h
  take_turn-IsGuarded now now_ms members (asks o) ts c pt ps h = h

  resume-IsGuarded :
      (now : ℕ) (w : Wait) (c : Connection)
      → WaitIsGuarded verify_event parse_url k P c.authed w
      → IsGuarded verify_event parse_url k P c
      → IsGuarded verify_event parse_url k P (resume verify_event parse_url k now w c)
  unfolding resume
  resume-IsGuarded now idle c hw h = h
  resume-IsGuarded now (starts p q r) c hw h =
      admit-IsGuarded verify_event parse_url k P p q r
        (record c { wait = idle; rooms = start_ready k.cfg now k.channel_id r c.rooms }) h.0 tt hw
  resume-IsGuarded now (asks o) c hw h = h

  fail-IsGuarded :
      (w : Wait) (c : Connection)
      → IsGuarded verify_event parse_url k P c
      → IsGuarded verify_event parse_url k P (fail verify_event parse_url k w c)
  unfolding fail
  fail-IsGuarded idle c h = h
  fail-IsGuarded (starts p q r) c h =
      close_with-IsGuarded verify_event parse_url k P 1011 "handler error"
        (record c { wait = idle; rooms = start_fails k.channel_id c.rooms }) (h.0, tt, h.2, h.3)
  fail-IsGuarded (asks o) c h = h

  reply-IsGuarded :
      (w : Wait) (c : Connection)
      → WaitIsGuarded verify_event parse_url k P c.authed w
      → IsGuarded verify_event parse_url k P c
      → IsGuarded verify_event parse_url k P (reply verify_event parse_url k w c)
  unfolding reply
  reply-IsGuarded idle c hw h = h
  reply-IsGuarded (starts p q r) c hw h = h
  reply-IsGuarded (asks o) c hw h = (
    h.0,
    tt,
    h.2,
    answers verify_event parse_url k P c.authed c.pubkey c.sent (c.sent ++ response o ∷ []) hw h.3,
  )

  step-IsGuarded :
      (i : Input) (c : Connection)
      → P i
      → IsGuarded verify_event parse_url k P c
      → IsGuarded verify_event parse_url k P (step verify_event parse_url k i c)
  unfolding step cleanup
  step-IsGuarded (text t) c p h =
      (All-append (λ t. P (text t)) c.chain (t ∷ []) h.0 (p, tt), h.1, h.2, h.3)
  step-IsGuarded (turn now now_ms members) c p h =
      take_turn-IsGuarded now now_ms members c.wait c.chain c p h.0 h
  step-IsGuarded (started now) c p h = resume-IsGuarded now c.wait c h.1 h
  step-IsGuarded start_failed c p h = fail-IsGuarded c.wait c h
  step-IsGuarded answered c p h = reply-IsGuarded c.wait c h.1 h
  step-IsGuarded close_received c p h =
      close_with-IsGuarded verify_event parse_url k P 1000 "client closed" c h
  step-IsGuarded ping_received c p h =
      (h.0, h.1, h.2, says verify_event parse_url k P c.authed c.pubkey c.sent pong refl h.3)
  step-IsGuarded unsupported_received c p h =
      close_with-IsGuarded verify_event parse_url k P 1003 "unsupported frame" c h
  step-IsGuarded auth_timeout c p h =
      if-rule (IsGuarded verify_event parse_url k P) c.timer _ _
        (λ on.
          close_with-IsGuarded verify_event parse_url k P 4401 "auth timeout"
            (record c { timer = false }) h)
        (λ off. h)
  step-IsGuarded (socket_closed now) c p h =
      if-rule (IsGuarded verify_event parse_url k P) c.cleaned _ _ (λ on. h)
        (λ off. (h.0, h.1, h.2, h.3))
  step-IsGuarded (rooms_change m) c p h = (h.0, h.1, h.2, h.3)

  run-IsGuarded :
      (is : List Input) (c : Connection)
      → All P is
      → IsGuarded verify_event parse_url k P c
      → IsGuarded verify_event parse_url k P (run verify_event parse_url k is c)
  unfolding run
  run-IsGuarded [] c ps h = h
  run-IsGuarded (i ∷ is) c ps h =
      run-IsGuarded is (step verify_event parse_url k i c) ps.1 (step-IsGuarded i c ps.0 h)

  known_user :
      (authed : Bool) (pubkey : Option String) (sent : List Sent)
      → UserIsShown verify_event parse_url k P pubkey
      → AnswersAreGuarded verify_event parse_url k P authed pubkey sent
      → is_silent sent ≡ false
      → (pk : String) × (pubkey ≡ some pk) × Shown verify_event parse_url k P pk
  known_user true none sent u h e = absurd cc
  known_user true (some pk) sent u h e = (pk, refl, u)
  known_user false pubkey sent u h e = absurd cc

  -- In every history of a connection, if the server has sent an `auth_ok` or a response, then its
  -- user is some public key for which a text arrived, and got its turn at a time when: its event
  -- verified as an authentication of that key for this challenge and channel, and the key was
  -- allowed to start calls. Whatever holds of all that arrived, holds of this text and this turn.
  pub answers-Shown :
      (is : List Input) (m : RoomManager)
      → All P is
      → is_silent (run verify_event parse_url k is (opened m)).sent ≡ false
      → (pk : String) × ((run verify_event parse_url k is (opened m)).pubkey ≡ some pk)
        × Shown verify_event parse_url k P pk
  unfolding opened
  answers-Shown is m ps e =
      let c = run verify_event parse_url k is (opened m) in
      let h = run-IsGuarded is (opened m) ps (tt, tt, tt, refl) in
      known_user c.authed c.pubkey c.sent h.2 h.3 e
