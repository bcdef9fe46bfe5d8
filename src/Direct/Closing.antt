-- ===== src/Direct/Closing.antt =====
-- What a connection sends when it ends, and what is left of it.
use obelisk_sfu.Prelude.{
  ℕ, suc, String, Bool, false, List, [], ◌∷◌, ◌++◌, Option, ◌≡◌, ◌+◌, refl, arith, if◌then◌else◌,
  if-rule,
}
use obelisk_sfu.Direct.Induction.{run-keeps, is_close}
use obelisk_sfu.Nostr.{Event}
use obelisk_sfu.Rooms.{RoomManager}
use obelisk_sfu.Direct.{Url}
use obelisk_sfu.Direct.Connection.{
  Sent, auth_challenge, pong, auth_ok, response, close_frame, Connection, opened, send, close_with,
  cleanup, admit,
}
use obelisk_sfu.Direct.Steps.{Setting, Input, run}

-- The close frames among what was sent.
abbrev pub closes : List Sent → ℕ
closes [] = 0
closes (close_frame code reason ∷ xs) = suc (closes xs)
closes (auth_challenge ∷ xs) = closes xs
closes (pong ∷ xs) = closes xs
closes (auth_ok p c ∷ xs) = closes xs
closes (response o ∷ xs) = closes xs

closes-append : (xs ys : List Sent) → closes (xs ++ ys) ≡ closes xs + closes ys
closes-append [] ys = omega arith
closes-append (close_frame code reason ∷ xs) ys = omega (arith, closes-append xs ys)
closes-append (auth_challenge ∷ xs) ys = closes-append xs ys
closes-append (pong ∷ xs) ys = closes-append xs ys
closes-append (auth_ok p c ∷ xs) ys = closes-append xs ys
closes-append (response o ∷ xs) ys = closes-append xs ys

abbrev pub ClosesOnce : Connection → Type 0
ClosesOnce c = closes c.sent ≡ (if c.closing then 1 else 0)

close_with-ClosesOnce :
    (code : ℕ) (reason : String) (c : Connection)
    → ClosesOnce c
    → ClosesOnce (close_with code reason c)
unfolding close_with
close_with-ClosesOnce code reason c h =
    ground (arith, h, closes-append c.sent (close_frame code reason ∷ []))

send-ClosesOnce :
    (x : Sent) (c : Connection) → is_close x ≡ false → ClosesOnce c → ClosesOnce (send x c)
send-ClosesOnce (close_frame code reason) c e h = absurd cc
send-ClosesOnce auth_challenge c e h = omega (arith, h, closes-append c.sent (auth_challenge ∷ []))
send-ClosesOnce pong c e h = omega (arith, h, closes-append c.sent (pong ∷ []))
send-ClosesOnce (auth_ok p q) c e h = omega (arith, h, closes-append c.sent (auth_ok p q ∷ []))
send-ClosesOnce (response o) c e h = omega (arith, h, closes-append c.sent (response o ∷ []))

module _ (k : Setting) where
  admit-ClosesOnce :
      (pubkey client_id : String) (ref : ℕ) (c : Connection)
      → ClosesOnce c
      → ClosesOnce (admit k.cfg k.channel_id k.id pubkey client_id ref c)
  unfolding admit
  admit-ClosesOnce pubkey client_id ref c h =
      omega (arith, h, closes-append c.sent (auth_ok pubkey client_id ∷ []))

  cleanup-ClosesOnce :
      (now : ℕ) (c : Connection) → ClosesOnce c → ClosesOnce (cleanup k.cfg k.channel_id k.id now c)
  unfolding cleanup
  cleanup-ClosesOnce now c h = if-rule ClosesOnce c.cleaned _ _ (λ on. h) (λ off. h)

  -- In every history of a connection, whatever arrives in whatever order, the server sends no
  -- close frame while it is open, and exactly one once it is closing.
  pub closes-run :
      (verify_event : Event String → Bool) (parse_url : String → Option Url) (is : List Input)
      (m : RoomManager)
      → let c = run verify_event parse_url k is (opened m) in
        closes c.sent ≡ (if c.closing then 1 else 0)
  unfolding opened
  closes-run verify_event parse_url is m =
      run-keeps k ClosesOnce close_with-ClosesOnce admit-ClosesOnce send-ClosesOnce
        (λ w ts on m c h. h) cleanup-ClosesOnce verify_event parse_url is (opened m) refl
