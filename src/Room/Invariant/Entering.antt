-- ===== src/Room/Invariant/Entering.antt =====
-- The ways in, and the writes to a peer, keep the invariant.
use obelisk_sfu.Prelude.{
  ℕ, suc, String, Bool, true, false, not, [], ◌∷◌, none, some, ◌≡◌, ◌&&◌, ◌<◌, ◌∙◌, refl, inl, inr,
  arith, Option-cases, Bool-cases, nat_eq, leb, length, is_some,
}
use obelisk_sfu.Map.{get, set}
use obelisk_sfu.Map.Laws.{get-set_self}
use obelisk_sfu.Types.{RoomStatus}
use obelisk_sfu.StringSet.{includes}
use obelisk_sfu.Config.{Config}
use obelisk_sfu.Room.{Room, PeerState, peer_key, key_of, close_transport, participants}
use obelisk_sfu.Room.Roster.{
  is_active, is_empty, is_current, get_or_create_peer, capacity, new_peer, cancel_empty_timer,
  Admission, admitted, refused,
}
use obelisk_sfu.Room.Lifetime.{is_closed, is_closed}
use obelisk_sfu.Room.Transports.{
  Direction, send, recv, update_peer, transport_gone, transport_closed, close_existing,
  create_begin, transport_of,
}
use obelisk_sfu.Room.Invariant.{IsSettling, IsValid}
use obelisk_sfu.Room.Invariant.Tables.{
  set-IsTable, suc-IsTable, get-IsKeyed, is_empty-set, is_empty-get,
}
use obelisk_sfu.Room.Invariant.Leaving.{active_closed, emit-IsValid, handle_peer_left-IsValid}

-- A write keeps the identity of the object and its key.
pub record Keeps (f : PeerState → PeerState) : Type 0 where
  pub ref : (p : PeerState) → (f p).ref ≡ p.ref
  pub pubkey : (p : PeerState) → (f p).pubkey ≡ p.pubkey
  pub client_id : (p : PeerState) → (f p).client_id ≡ p.client_id

not_set : {b : Bool} → b ≡ false → b ≡ true → ⊥
not_set f t = cc

not_shut : (r : Room) → is_empty r.peers ≡ false → r.peers ≡ [] → ⊥
not_shut r i s = ground arith

-- Writing an entry into a table of a room that is not shut.
set-IsSettling :
    (k : String) (p : PeerState) (r : Room)
    → k ≡ key_of p
    → p.ref < r.next_ref
    → r.empty_timer ≡ none
    → is_closed r.status ≡ false
    → IsSettling r
    → IsSettling (record r { peers = set k p r.peers })
set-IsSettling k p r e h off open_room s = record {
  table = set-IsTable k p r.peers e h s.table;
  off = λ _. off;
  shut = λ c. absurd (not_set open_room c);
}

set-IsValid :
    (k : String) (p : PeerState) (r : Room)
    → k ≡ key_of p
    → p.ref < r.next_ref
    → r.empty_timer ≡ none
    → is_closed r.status ≡ false
    → IsSettling r
    → IsValid (record r { peers = set k p r.peers })
set-IsValid k p r e h off open_room s = record {
  settling = set-IsSettling k p r e h off open_room s;
  armed = λ a empty n. absurd (not_set (is_empty-set k p r.peers) empty);
}

active_open : (s : RoomStatus) → is_active s ≡ true → is_closed s ≡ false
active_open s a = elim (Bool-cases (is_closed s)) [
  | inl c ↦ absurd (active_closed s a c)
  | inr o ↦ o
]

-- A room with somebody in it is not closed.
inside_open : (r : Room) → is_empty r.peers ≡ false → IsSettling r → is_closed r.status ≡ false
inside_open r i s = elim (Bool-cases (is_closed r.status)) [
  | inl c ↦ absurd (not_shut r i (s.shut c).peers)
  | inr o ↦ o
]

key_of-write : (f : PeerState → PeerState) (q : PeerState) → Keeps f → key_of q ≡ key_of (f q)
key_of-write f q kept = rw (kept.pubkey q, kept.client_id q)

pub update_peer-IsValid :
    (f : PeerState → PeerState) (p : PeerState) (r : Room)
    → Keeps f
    → IsValid r
    → IsValid (update_peer f p r)
unfolding update_peer
update_peer-IsValid f p r kept v = elim (Option-cases (get (key_of p) r.peers)) [
  | inl e ↦ rw (e, update_peer) v
  | inr (q, e) ↦ elim (Bool-cases (nat_eq q.ref p.ref)) [
    | inr other ↦ rw (e, update_peer, other) v
    | inl same ↦
        let inside = is_empty-get (key_of p) q r.peers e in
        let k = get-IsKeyed (key_of p) q r.peers v.settling.table e in
        rw (e, update_peer, same)
          (set-IsValid (key_of p) (f q) r (k.0 ∙ key_of-write f q kept)
            (omega (arith, k.1, kept.ref q)) (v.settling.off inside)
            (inside_open r inside v.settling) v.settling)
  ]
]

-- A condition on the room in which a request goes on.
abbrev pub OnAdmitted : (PeerState → Room → Type 0) → Admission → Type 0
OnAdmitted P (refused e) = Unit
OnAdmitted P (admitted p r) = P p r

abbrev pub Enters : PeerState → Room → Type 0
Enters p r = IsValid r × (get (key_of p) r.peers ≡ some p)

pub new_peer-Enters :
    (now : ℕ) (pubkey client_id : String) (r : Room)
    → is_closed r.status ≡ false
    → IsValid r
    → let p = new_peer r.next_ref now pubkey client_id in
      Enters p (
        cancel_empty_timer (record r {
          peers = set (peer_key pubkey client_id) p r.peers;
          next_ref = suc r.next_ref;
        }))
unfolding cancel_empty_timer
new_peer-Enters now pubkey client_id r up v =
    let p = new_peer r.next_ref now pubkey client_id in
    let later = record r { empty_timer = none; next_ref = suc r.next_ref } in
    let settled : IsSettling later = record {
      table = suc-IsTable r.peers v.settling.table;
      off = λ _. refl;
      shut = λ c. absurd (not_set up c);
    } in
    (
      set-IsValid (key_of p) p later refl (omega arith) refl up settled,
      get-set_self (key_of p) p r.peers,
    )

pub get_or_create_peer-Enters :
    (cfg : Config) (now : ℕ) (pubkey client_id : String) (r : Room)
    → is_active r.status ≡ true
    → IsValid r
    → OnAdmitted Enters (get_or_create_peer cfg now pubkey client_id r)
unfolding get_or_create_peer
get_or_create_peer-Enters cfg now pubkey client_id r act v =
    elim (Option-cases (get (peer_key pubkey client_id) r.peers)) [
      | inr (p, e) ↦
          let k = get-IsKeyed (peer_key pubkey client_id) p r.peers v.settling.table e in
          rw (e, get_or_create_peer) (v, rw (← k.0) e)
      | inl e ↦
          rw (e, get_or_create_peer)
            (elim (Bool-cases (
              not (includes pubkey (participants r.peers))
              && leb (capacity cfg r) (length (participants r.peers)))) [
                | inl full ↦ rw full tt
                | inr room_left ↦
                    rw room_left
                      (new_peer-Enters now pubkey client_id r (active_open r.status act) v)
              ])
    ]

transport_gone-Keeps : (direction : Direction) → Keeps (transport_gone direction)
transport_gone-Keeps send = record { ref = λ p. refl; pubkey = λ p. refl; client_id = λ p. refl }
transport_gone-Keeps recv = record { ref = λ p. refl; pubkey = λ p. refl; client_id = λ p. refl }

pub transport_closed-IsValid :
    (cfg : Config) (now : ℕ) (direction : Direction) (p : PeerState) (r : Room)
    → IsValid r
    → IsValid (transport_closed cfg now direction p r)
unfolding transport_closed
transport_closed-IsValid cfg now direction p r v =
    let kept =
      update_peer-IsValid (λ q. transport_gone direction q) p r (transport_gone-Keeps direction)
        v in
    elim (Bool-cases (
      not (is_some (transport_gone direction p).send_transport)
      && not (is_some (transport_gone direction p).recv_transport)
      && is_current p r.peers)) [
        | inl last ↦ rw last (handle_peer_left-IsValid cfg now (transport_gone direction p) _ kept)
        | inr other ↦ rw other kept
      ]

pub close_existing-IsValid :
    (cfg : Config) (now : ℕ) (direction : Direction) (p : PeerState) (r : Room)
    → IsValid r
    → IsValid (close_existing cfg now direction p r)
unfolding close_existing
close_existing-IsValid cfg now direction p r v = elim (Option-cases (transport_of direction p)) [
  | inl e ↦ rw (e, close_existing) v
  | inr (t, e) ↦
      rw (e, close_existing)
        (transport_closed-IsValid cfg now direction p _
          (emit-IsValid (close_transport t.id ∷ []) r v))
]

pub create_begin-IsValid :
    (cfg : Config) (now : ℕ) (from client_id : String) (direction : Direction) (r : Room)
    → is_active r.status ≡ true
    → IsValid r
    → OnAdmitted (λ _ r'. IsValid r') (create_begin cfg now from client_id direction r)
unfolding create_begin
create_begin-IsValid cfg now from client_id direction r act v = elim (Bool-cases r.router) [
  | inr absent ↦ rw absent tt
  | inl ready ↦ rw ready (
      after (get_or_create_peer cfg now from client_id r)
        (get_or_create_peer-Enters cfg now from client_id r act v))
]
  where
    after :
        (a : Admission)
        → OnAdmitted Enters a
        → OnAdmitted
            (λ _ r'. IsValid r')
            (elim a [
              | refused e ↦ refused e
              | admitted p r' ↦ admitted p (close_existing cfg now direction p r')
            ])
    after (refused e) h = tt
    after (admitted p r') h = close_existing-IsValid cfg now direction p r' h.0
