-- ===== src/Direct/Leaks.antt =====
-- A socket that closes while its room is starting: the session is registered afterwards, and
-- `cleanup` has had its turn.
use obelisk_sfu.Prelude.{
  ℕ, String, Bool, true, false, List, [], ◌∷◌, ◌++◌, Option, some, ◌≡◌, refl, if-rule, any, nat_eq,
  arith, Bool-cases, inl, inr,
}
use obelisk_sfu.Map.{get, set}
use obelisk_sfu.Map.Laws.{get-set_self}
use obelisk_sfu.Room.{Room, peer_key}
use obelisk_sfu.Room.Lifetime.{is_closed}
use obelisk_sfu.Room.Notices.{insert, register, register_direct_session}
use obelisk_sfu.Room.Notices.Recipients.{sessions_of}
use obelisk_sfu.Rooms.{RoomHandle, RoomManager, settle, start_ready}
use obelisk_sfu.Nostr.{Event}
use obelisk_sfu.Direct.{Url}
use obelisk_sfu.Direct.Connection.{starts, Connection, close_with, cleanup, admit, on_room}
use obelisk_sfu.Direct.Steps.{Setting, Input, started, socket_closed, resume, step, run}
use obelisk_sfu.Direct.Induction.{run-keeps}

any_last : (n : ℕ) (xs : List ℕ) → any (λ x. nat_eq x n) (xs ++ n ∷ []) ≡ true
any_last n [] = ground arith
any_last n (x ∷ xs) = ground (arith, any_last n xs)

abbrev IsLeaked : Connection → Type 0
IsLeaked c = (c.cleaned ≡ true) × (c.unregister ≡ true)

close_with-IsLeaked :
    (code : ℕ) (reason : String) (c : Connection) → IsLeaked c → IsLeaked (close_with code reason c)
unfolding close_with
close_with-IsLeaked code reason c h = if-rule IsLeaked c.closing _ _ (λ on. h) (λ off. h)

module _ (k : Setting) where
  admit-IsLeaked :
      (pubkey client_id : String) (ref : ℕ) (c : Connection)
      → IsLeaked c
      → IsLeaked (admit k.cfg k.channel_id k.id pubkey client_id ref c)
  unfolding admit
  admit-IsLeaked pubkey client_id ref c h = (h.0, refl)

  cleanup-IsLeaked :
      (now : ℕ) (c : Connection) → IsLeaked c → IsLeaked (cleanup k.cfg k.channel_id k.id now c)
  unfolding cleanup
  cleanup-IsLeaked now c h = if-rule IsLeaked c.cleaned _ _ (λ on. h) (λ off. absurd cc)

  started-IsLeaked :
      (verify_event : Event String → Bool) (parse_url : String → Option Url) (now ref : ℕ)
      (pubkey client_id : String) (c : Connection)
      → c.cleaned ≡ true
      → c.wait ≡ starts pubkey client_id ref
      → IsLeaked (step verify_event parse_url k (started now) c)
  unfolding step resume admit
  started-IsLeaked verify_event parse_url now ref pubkey client_id c h e = rw (e, resume) (h, refl)

  insert-includes : (s : ℕ) (ts : List ℕ) → any (λ t. nat_eq t s) (insert s ts) ≡ true
  unfolding insert
  insert-includes s ts = elim (Bool-cases (any (λ t. nat_eq t s) ts)) [
    | inl there ↦ rw there there
    | inr absent ↦ rw absent (any_last s ts)
  ]

  -- The room of the table under the channel has the session among its own.
  abbrev pub IsRegistered : String → String → RoomManager → Type 0
  IsRegistered pubkey client_id m =
      (h : RoomHandle) × (get k.channel_id m.rooms ≡ some h)
      × (any (λ t. nat_eq t k.id) (sessions_of (peer_key pubkey client_id) h.room.direct_sessions)
          ≡ true)

  on_room-IsRegistered :
      (pubkey client_id : String) (ref : ℕ) (h : RoomHandle) (m : RoomManager)
      → get k.channel_id m.rooms ≡ some h
      → h.ref ≡ ref
      → is_closed h.room.status ≡ false
      → IsRegistered pubkey client_id
          (on_room k.channel_id ref (register_direct_session pubkey client_id k.id) m)
  unfolding on_room settle register_direct_session register
  on_room-IsRegistered pubkey client_id ref h m there own up =
      let key = peer_key pubkey client_id in
      let before = sessions_of key h.room.direct_sessions in
      let room : Room = record h.room {
        direct_sessions = set key (insert k.id before) h.room.direct_sessions;
      } in
      let same : nat_eq h.ref ref ≡ true = ground (arith, own) in
      rw (there, on_room, same, up)
        (
          record h { room = room },
          get-set_self k.channel_id (record h { room = room }) m.rooms,
          rw (get-set_self key (insert k.id before) h.room.direct_sessions)
              (insert-includes k.id before),
        )

  cleanup_twice :
      (now : ℕ) (c : Connection) → c.cleaned ≡ true → cleanup k.cfg k.channel_id k.id now c ≡ c
  unfolding cleanup
  cleanup_twice now c h = rw h refl

  -- If the socket has closed, and been cleaned up after, while the room of an authentication is
  -- still starting, and the room then starts and stands in the table: the session is registered in
  -- that room all the same, and whatever else happens to the connection, it still has the call
  -- that unregisters the session to make, and the end of the socket does not make it but leaves
  -- the rooms as they are.
  pub unregister-started :
      (verify_event : Event String → Bool) (parse_url : String → Option Url) (now later ref : ℕ)
      (pubkey client_id : String) (h : RoomHandle) (c : Connection) (is : List Input)
      → c.cleaned ≡ true
      → c.wait ≡ starts pubkey client_id ref
      → get k.channel_id (start_ready k.cfg now k.channel_id ref c.rooms).rooms ≡ some h
      → h.ref ≡ ref
      → is_closed h.room.status ≡ false
      → let c' = step verify_event parse_url k (started now) c in
        let c'' = run verify_event parse_url k is c' in
        IsRegistered pubkey client_id c'.rooms
        × (c''.unregister ≡ true)
        × (step verify_event parse_url k (socket_closed later) c'' ≡ c'')
  unfolding step resume admit
  unregister-started verify_event parse_url now later ref pubkey client_id h c is gone e there own
        up =
      let leaked =
        run-keeps k IsLeaked close_with-IsLeaked admit-IsLeaked (λ x c f q. q) (λ w ts on m c q. q)
          cleanup-IsLeaked verify_event parse_url is (step verify_event parse_url k (started now) c)
          (started-IsLeaked verify_event parse_url now ref pubkey client_id c gone e) in
      let m = start_ready k.cfg now k.channel_id ref c.rooms in
      (
        rw (e, resume) (on_room-IsRegistered pubkey client_id ref h m there own up),
        leaked.1,
        cleanup_twice later _ leaked.0,
      )
