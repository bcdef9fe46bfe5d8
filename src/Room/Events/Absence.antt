-- ===== src/Room/Events/Absence.antt =====
-- Which operations put nobody into the table.
use obelisk_sfu.Prelude.{
  ℕ, String, not, List, [], ◌∷◌, Option, none, some, ◌==◌, ◌≡◌, ◌&&◌, ◌∙◌, refl, inl, inr, arith,
  eq_iff, Option-cases, Bool-cases, is_some, leb, nat_eq, keep, ◌/◌,
}
use obelisk_sfu.Map.{Map, get, set, delete, values}
use obelisk_sfu.Map.Laws.{get-set_ne}
use obelisk_sfu.Config.{Config}
use obelisk_sfu.Room.{Room, PeerState, key_of, publish_active, emit, close_transport}
use obelisk_sfu.Room.Roster.{
  is_active, is_empty, is_current, has_pubkey, handle_peer_left, drop_stale_peer, kick, kick_each,
  kick_begin, kick_end,
}
use obelisk_sfu.Room.Roster.Kicks.{peers-maybe_start_empty_timer}
use obelisk_sfu.Room.Lifetime.{
  is_closed, close, close_begin, close_end, schedule_ends_at, arm_ends_at, cap, earliest,
  empty_timer_fires,
}
use obelisk_sfu.Room.Transports.{
  Direction, update_peer, transport_of, transport_gone, transport_closed, transport_close_event,
  close_existing, has_id,
}

get-delete_absent {ℓ} :
    {V : Type ℓ} (j k : String) (m : Map V) → get k m ≡ none → get k (delete j m) ≡ none
unfolding get delete
get-delete_absent j k [] h = h
get-delete_absent j k ((i, v) ∷ m) h = ground (arith, get-delete_absent j k m)

get-set_absent {ℓ} :
    {V : Type ℓ} (j k : String) (u v : V) (m : Map V)
    → get j m ≡ some u
    → get k m ≡ none
    → get k (set j v m) ≡ none
get-set_absent j k u v m there h = elim (Bool-cases (j == k)) [
  | inr apart ↦ get-set_ne j k v m apart ∙ h
  | inl same ↦
      let e : j ≡ k = ground (arith, eq_iff j k, same) in absurd (ground (arith, e, there, h))
]

-- Nobody stands under the key.
abbrev pub IsAbsent : String → Room → Type 0
IsAbsent k r = get k r.peers ≡ none

module _ (k : String) where
  pub update_peer-IsAbsent :
      (f : PeerState → PeerState) (p : PeerState) (r : Room)
      → IsAbsent k r
      → IsAbsent k (update_peer f p r)
  unfolding update_peer
  update_peer-IsAbsent f p r h = elim (Option-cases (get (key_of p) r.peers)) [
    | inl e ↦ rw (e, update_peer) h
    | inr (q, e) ↦ elim (Bool-cases (nat_eq q.ref p.ref)) [
      | inr other ↦ rw (e, update_peer, other) h
      | inl same ↦ rw (e, update_peer, same) (get-set_absent (key_of p) k q (f q) r.peers e h)
    ]
  ]

  pub handle_peer_left-IsAbsent :
      (cfg : Config) (now : ℕ) (p : PeerState) (r : Room)
      → IsAbsent k r
      → IsAbsent k (handle_peer_left cfg now p r)
  unfolding handle_peer_left
  handle_peer_left-IsAbsent cfg now p r h = elim (Option-cases (get (key_of p) r.peers)) [
    | inl e ↦ rw (e, handle_peer_left) h
    | inr (q, e) ↦
        rw (e, handle_peer_left, peers-maybe_start_empty_timer cfg now)
          (get-delete_absent (key_of p) k r.peers h)
  ]

  pub drop_stale_peer-IsAbsent :
      (cfg : Config) (now : ℕ) (p : PeerState) (r : Room)
      → IsAbsent k r
      → IsAbsent k (drop_stale_peer cfg now p r)
  unfolding drop_stale_peer
  drop_stale_peer-IsAbsent cfg now p r h = elim (Bool-cases (is_current p r.peers)) [
    | inr gone ↦ rw gone h
    | inl e ↦
        rw (e, peers-maybe_start_empty_timer cfg now) (get-delete_absent (key_of p) k r.peers h)
  ]

  kick_each-IsAbsent : (ps : List PeerState) (r : Room) → IsAbsent k r → IsAbsent k (kick_each ps r)
  unfolding kick_each
  kick_each-IsAbsent [] r h = h
  kick_each-IsAbsent (p ∷ ps) r h =
      kick_each-IsAbsent ps _ (get-delete_absent (key_of p) k r.peers h)

  pub kick-IsAbsent :
      (cfg : Config) (now : ℕ) (target : String) (reason : Option String) (r : Room)
      → IsAbsent k r
      → IsAbsent k (kick cfg now target reason r)
  unfolding kick kick_begin kick_end
  kick-IsAbsent cfg now target reason r h =
      elim (Bool-cases (is_empty (keep (has_pubkey target) (values r.peers)))) [
        | inl nobody ↦ rw nobody h
        | inr found ↦
            rw (found, peers-maybe_start_empty_timer cfg now)
              (kick_each-IsAbsent (keep (has_pubkey target) (values r.peers)) r h)
      ]

  pub close-IsAbsent :
      (cfg : Config) (now : ℕ) (r : Room) → IsAbsent k r → IsAbsent k (close cfg now r)
  unfolding close close_end close_begin publish_active get
  close-IsAbsent cfg now r h = elim (Bool-cases (is_closed r.status)) [
    | inl c ↦ rw c h
    | inr o ↦ rw o refl
  ]

  arm_ends_at-IsAbsent :
      (cfg : Config) (now : ℕ) (t : Option ℕ) (r : Room)
      → IsAbsent k r
      → IsAbsent k (arm_ends_at cfg now t r)
  unfolding arm_ends_at
  arm_ends_at-IsAbsent cfg now none r h = h
  arm_ends_at-IsAbsent cfg now (some t) r h = elim (Bool-cases (leb t (now / 1000))) [
    | inl past ↦ rw past (close-IsAbsent cfg now r h)
    | inr later ↦ rw later h
  ]

  pub schedule_ends_at-IsAbsent :
      (cfg : Config) (now : ℕ) (r : Room) → IsAbsent k r → IsAbsent k (schedule_ends_at cfg now r)
  unfolding schedule_ends_at
  schedule_ends_at-IsAbsent cfg now r h = elim (Bool-cases (is_active r.status)) [
    | inr idle ↦ rw idle h
    | inl act ↦ rw act (
        arm_ends_at-IsAbsent cfg now (earliest (cap cfg r) r.rules.ends_at)
          (record r { ends_at_timer = none }) h)
  ]

  pub empty_timer_fires-IsAbsent :
      (cfg : Config) (now : ℕ) (r : Room) → IsAbsent k r → IsAbsent k (empty_timer_fires cfg now r)
  unfolding empty_timer_fires
  empty_timer_fires-IsAbsent cfg now r h =
      elim (Bool-cases (is_empty r.peers && is_active r.status)) [
        | inl over ↦ rw over (close-IsAbsent cfg now (record r { empty_timer = none }) h)
        | inr on ↦ rw on h
      ]

  pub transport_closed-IsAbsent :
      (cfg : Config) (now : ℕ) (direction : Direction) (p : PeerState) (r : Room)
      → IsAbsent k r
      → IsAbsent k (transport_closed cfg now direction p r)
  unfolding transport_closed
  transport_closed-IsAbsent cfg now direction p r h =
      let kept = update_peer-IsAbsent (λ q. transport_gone direction q) p r h in
      elim (Bool-cases (
        not (is_some (transport_gone direction p).send_transport)
        && not (is_some (transport_gone direction p).recv_transport)
        && is_current p r.peers)) [
          | inl last ↦
              rw last (handle_peer_left-IsAbsent cfg now (transport_gone direction p) _ kept)
          | inr other ↦ rw other kept
        ]

  pub transport_close_event-IsAbsent :
      (cfg : Config) (now : ℕ) (direction : Direction) (id : String) (p : PeerState) (r : Room)
      → IsAbsent k r
      → IsAbsent k (transport_close_event cfg now direction id p r)
  unfolding transport_close_event
  transport_close_event-IsAbsent cfg now direction id p r h =
      elim (Option-cases (get (key_of p) r.peers)) [
        | inl e ↦ rw (e, transport_close_event) h
        | inr (q, e) ↦
            elim (Bool-cases
              (nat_eq q.ref p.ref && is_some (has_id id (transport_of direction q)))) [
                | inl held ↦
                    rw (e, transport_close_event, held)
                      (transport_closed-IsAbsent cfg now direction q r h)
                | inr other ↦ rw (e, transport_close_event, other) h
              ]
      ]

  pub close_existing-IsAbsent :
      (cfg : Config) (now : ℕ) (direction : Direction) (p : PeerState) (r : Room)
      → IsAbsent k r
      → IsAbsent k (close_existing cfg now direction p r)
  unfolding close_existing
  close_existing-IsAbsent cfg now direction p r h = elim (Option-cases (transport_of direction p)) [
    | inl e ↦ rw (e, close_existing) h
    | inr (t, e) ↦
        rw (e, close_existing)
          (transport_closed-IsAbsent cfg now direction p (emit (close_transport t.id ∷ []) r) h)
  ]
