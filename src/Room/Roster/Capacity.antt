-- ===== src/Room/Roster/Capacity.antt =====
-- The cap on the users of a room.
use obelisk_sfu.Prelude.{
  ℕ, String, false, not, List, [], ◌∷◌, ◌++◌, map, none, ◌≡◌, ◌≤◌, ◌&&◌, refl, inl, inr, arith, max,
  Option-cases, Bool-cases, length, subst, length-append, leb,
}
use obelisk_sfu.Map.{Map, get, set, values}
use obelisk_sfu.StringSet.{includes, add, add_all, distinct}
use obelisk_sfu.Config.{Config}
use obelisk_sfu.Room.{Room, PeerState, peer_key, participants}
use obelisk_sfu.Room.Roster.{get_or_create_peer, admitted, capacity, new_peer, cancel_empty_timer}
use obelisk_sfu.Room.Invariant.Entering.{OnAdmitted}

map-append :
    (f : PeerState → String) (xs ys : List PeerState) → map f (xs ++ ys) ≡ map f xs ++ map f ys
map-append f [] ys = refl
map-append f (x ∷ xs) ys = rw (map-append f xs ys) refl

values-set_new :
    (k : String) (p : PeerState) (m : Map PeerState)
    → get k m ≡ none
    → values (set k p m) ≡ values m ++ p ∷ []
unfolding get set
values-set_new k p [] h = refl
values-set_new k p ((j, q) ∷ m) h = ground (arith, values-set_new k p m)

add_all-append : (xs ys s : List String) → add_all (xs ++ ys) s ≡ add_all ys (add_all xs s)
unfolding add_all
add_all-append [] ys s = refl
add_all-append (x ∷ xs) ys s = add_all-append xs ys (add x s)

-- A newcomer is added to the users, unless another of its devices is there.
participants-set_new :
    (k : String) (p : PeerState) (m : Map PeerState)
    → get k m ≡ none
    → participants (set k p m) ≡ add p.pubkey (participants m)
unfolding participants distinct add_all
participants-set_new k p m h =
    rw (values-set_new k p m h, map-append (λ q. q.pubkey) (values m) (p ∷ []))
      (add_all-append (map (λ q. q.pubkey) (values m)) (p.pubkey ∷ []) [])

length-add_le :
    (k : String) (s : List String) (n : ℕ)
    → (not (includes k s) && leb n (length s)) ≡ false
    → length (add k s) ≤ max (length s) n
unfolding add
length-add_le k s n h = ground (arith, length-append s (k ∷ []))

get_or_create_peer-OnAdmitted :
    (cfg : Config) (now : ℕ) (pubkey client_id : String) (r : Room)
    → OnAdmitted
        (λ _ r'.
          length (participants r'.peers) ≤ max (length (participants r.peers)) (capacity cfg r))
        (get_or_create_peer cfg now pubkey client_id r)
unfolding get_or_create_peer cancel_empty_timer
get_or_create_peer-OnAdmitted cfg now pubkey client_id r =
    elim (Option-cases (get (peer_key pubkey client_id) r.peers)) [
      | inr (p, e) ↦ rw (e, get_or_create_peer) (omega arith)
      | inl e ↦
          elim (Bool-cases (
            not (includes pubkey (participants r.peers))
            && leb (capacity cfg r) (length (participants r.peers)))) [
              | inl full ↦ rw (e, get_or_create_peer, full) tt
              | inr space ↦
                  rw
                    (
                      e,
                      get_or_create_peer,
                      space,
                      participants-set_new (peer_key pubkey client_id)
                          (new_peer r.next_ref now pubkey client_id) r.peers e,
                    )
                    (length-add_le pubkey (participants r.peers) (capacity cfg r) space)
            ]
    ]

-- A request that is let into a room leaves it with at most as many users as it had, or as the cap
-- of its rules allows (of the configuration, where they have none), whichever is more: devices of
-- a user who is already there do not count.
pub get_or_create_peer-capacity :
    (cfg : Config) (now : ℕ) (pubkey client_id : String) (r r' : Room) (p : PeerState)
    → get_or_create_peer cfg now pubkey client_id r ≡ admitted p r'
    → length (participants r'.peers) ≤ max (length (participants r.peers)) (capacity cfg r)
get_or_create_peer-capacity cfg now pubkey client_id r r' p e =
    subst
      (OnAdmitted (λ _ t.
        length (participants t.peers) ≤ max (length (participants r.peers)) (capacity cfg r)))
      e (get_or_create_peer-OnAdmitted cfg now pubkey client_id r)
