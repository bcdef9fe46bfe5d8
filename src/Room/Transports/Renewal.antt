-- ===== src/Room/Transports/Renewal.antt =====
-- A transport that is asked for again.
use obelisk_sfu.Prelude.{
  ℕ, String, true, not, none, some, ◌≡◌, ◌∙◌, ap, sym, refl, Bool, arith, is_some, nat_eq, ◌&&◌,
}
use obelisk_sfu.Map.{get, set}
use obelisk_sfu.Map.Laws.{get-delete_self, Nodup-set, get-set_self, Nodup}
use obelisk_sfu.Config.{Config}
use obelisk_sfu.Room.{Room, PeerState, WebRtcTransport, peer_key, key_of}
use obelisk_sfu.Room.Roster.{handle_peer_left, is_current, get_or_create_peer}
use obelisk_sfu.Room.Roster.Kicks.{peers-maybe_start_empty_timer, is_current_self}
use obelisk_sfu.Room.Transports.{
  Direction, send, recv, transport_of, transport_gone, transport_closed, close_existing,
  create_begin, update_peer,
}
use obelisk_sfu.Room.Invariant.{IsTable}
use obelisk_sfu.Room.Invariant.Tables.{get-IsKeyed}
use obelisk_sfu.Room.Invariant.Entering.{OnAdmitted}

abbrev pub opposite : Direction → Direction
opposite send = recv
opposite recv = send

gone-handle_peer_left :
    (cfg : Config) (now : ℕ) (p q : PeerState) (r : Room)
    → Nodup r.peers
    → get (key_of p) r.peers ≡ some q
    → get (key_of p) (handle_peer_left cfg now p r).peers ≡ none
unfolding handle_peer_left
gone-handle_peer_left cfg now p q r n there =
    rw (there, handle_peer_left, peers-maybe_start_empty_timer cfg now)
      (get-delete_self (key_of p) r.peers n)

peers-update_peer :
    (f : PeerState → PeerState) (p : PeerState) (r : Room)
    → get (key_of p) r.peers ≡ some p
    → (update_peer f p r).peers ≡ set (key_of p) (f p) r.peers
unfolding update_peer
peers-update_peer f p r there =
    let same : nat_eq p.ref p.ref ≡ true = ground arith in rw (there, update_peer, same) refl

-- The guard of the close observer.
abbrev is_last : Direction → PeerState → Room → Bool
is_last direction p r =
    not (is_some (transport_gone direction p).send_transport)
    && not (is_some (transport_gone direction p).recv_transport)
    && is_current p r.peers

is_last_alone :
    (direction : Direction) (p : PeerState) (r : Room)
    → is_current p r.peers ≡ true
    → transport_of (opposite direction) p ≡ none
    → is_last direction p r ≡ true
is_last_alone send p r current alone = ground arith
is_last_alone recv p r current alone = ground arith

key_of-transport_gone :
    (direction : Direction) (p : PeerState) → key_of (transport_gone direction p) ≡ key_of p
key_of-transport_gone send p = refl
key_of-transport_gone recv p = refl

last-transport_closed :
    (cfg : Config) (now : ℕ) (direction : Direction) (p : PeerState) (r : Room)
    → is_last direction p r ≡ true
    → transport_closed cfg now direction p r
      ≡ handle_peer_left cfg now
          (transport_gone direction p)
          (update_peer (λ q. transport_gone direction q) p r)
unfolding transport_closed
last-transport_closed cfg now direction p r last = rw last refl

gone-transport_closed :
    (cfg : Config) (now : ℕ) (direction : Direction) (p : PeerState) (r : Room)
    → Nodup r.peers
    → get (key_of p) r.peers ≡ some p
    → transport_of (opposite direction) p ≡ none
    → get (key_of p) (transport_closed cfg now direction p r).peers ≡ none
gone-transport_closed cfg now direction p r n there alone =
    let gone = transport_gone direction p in
    let written = peers-update_peer (λ q. transport_gone direction q) p r there in
    let last = is_last_alone direction p r (is_current_self p r.peers there) alone in
    let same = key_of-transport_gone direction p in
    let r' = update_peer (λ q. transport_gone direction q) p r in
    let nodup : Nodup r'.peers = rw written (Nodup-set (key_of p) gone r.peers n) in
    let found : get (key_of gone) r'.peers ≡ some gone =
      rw (written, same) (get-set_self (key_of p) gone r.peers) in
    ap (λ x. get (key_of p) x.peers) (last-transport_closed cfg now direction p r last)
    ∙ (ap (λ k. get k (handle_peer_left cfg now gone r').peers) (sym same)
        ∙ gone-handle_peer_left cfg now gone gone r' nodup found)

-- A peer that holds one transport and asks for it again is taken out of the table before the new
-- transport is made: closing the old one runs the close observer, which sees no transport left.
pub create_begin-detaches :
    (cfg : Config) (now : ℕ) (from client_id : String) (direction : Direction) (p : PeerState)
    (t : WebRtcTransport) (r : Room)
    → IsTable r.next_ref r.peers
    → r.router ≡ true
    → get (peer_key from client_id) r.peers ≡ some p
    → transport_of direction p ≡ some t
    → transport_of (opposite direction) p ≡ none
    → OnAdmitted
        (λ _ r'. get (peer_key from client_id) r'.peers ≡ none)
        (create_begin cfg now from client_id direction r)
unfolding create_begin get_or_create_peer close_existing
create_begin-detaches cfg now from client_id direction p t r table ready there held alone =
    let own = (get-IsKeyed (peer_key from client_id) p r.peers table there).0 in
    rw (ready, there, get_or_create_peer, held, close_existing, own)
      (gone-transport_closed cfg now direction p _ table.nodup (rw (← own) there) alone)
