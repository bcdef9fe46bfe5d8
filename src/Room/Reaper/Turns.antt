-- ===== src/Room/Reaper/Turns.antt =====
-- A turn of the reaper's loop touches nothing but the key of its object.
use obelisk_sfu.Prelude.{
  ℕ, String, true, false, Option, none, some, ◌≡◌, ◌==◌, ◌⊎◌, ◌-◌, refl, inl, inr, arith,
  Bool-cases, is_some, ltb, nat_eq,
}
use obelisk_sfu.Map.{Map, get, set, delete, values}
use obelisk_sfu.Map.Laws.{get-set_ne, get-delete_ne}
use obelisk_sfu.Config.{Config}
use obelisk_sfu.Room.{Room, PeerState, key_of}
use obelisk_sfu.Room.Roster.{is_empty}
use obelisk_sfu.Room.Roster.Kicks.{peers-drop_stale_peer, is_current_self}
use obelisk_sfu.Room.Transports.{update_peer}
use obelisk_sfu.Room.Invariant.{IsTable, IsKeyed}
use obelisk_sfu.Room.Invariant.Tables.{delete-IsTable, set-IsTable, get-IsKeyed}
use obelisk_sfu.Room.Reaper.{
  Stats, total_packets, judge, reap_peer, no_producer_timeout_ms, rtp_inactivity_timeout_ms,
}

-- One table is another, but for what stands under a key.
abbrev pub IsTouched : ℕ → String → Map PeerState → Map PeerState → Type 0
IsTouched n k m m' =
    (m' ≡ m) ⊎ (m' ≡ delete k m) ⊎ ((q : PeerState) × IsKeyed n k q × (m' ≡ set k q m))

pub IsTouched-get :
    (n : ℕ) (k j : String) (m m' : Map PeerState)
    → (k == j) ≡ false
    → IsTouched n k m m'
    → get j m' ≡ get j m
IsTouched-get n k j m m' h (inl e) = rw e refl
IsTouched-get n k j m m' h (inr (inl e)) = rw e (get-delete_ne k j m h)
IsTouched-get n k j m m' h (inr (inr (q, own, e))) = rw e (get-set_ne k j q m h)

pub IsTouched-IsTable :
    (n : ℕ) (k : String) (m m' : Map PeerState) → IsTable n m → IsTouched n k m m' → IsTable n m'
IsTouched-IsTable n k m m' t (inl e) = rw e t
IsTouched-IsTable n k m m' t (inr (inl e)) = rw e (delete-IsTable k m t)
IsTouched-IsTable n k m m' t (inr (inr (q, own, e))) = rw e (set-IsTable k q m own.0 own.1 t)

module _ (cfg : Config) (now : ℕ) (stats : Stats) (n : ℕ) (p : PeerState) (r : Room) where
  judge-IsTouched :
      (total : Option ℕ)
      → IsTable n r.peers
      → get (key_of p) r.peers ≡ some p
      → IsTouched n (key_of p) r.peers (judge cfg now p total r).peers
  unfolding judge update_peer
  judge-IsTouched none t there = inl refl
  judge-IsTouched (some total) t there = elim (Bool-cases (ltb p.last_seen_packet_count total)) [
    | inl more ↦
        let same : nat_eq p.ref p.ref ≡ true = ground arith in
        rw (more, there, update_peer, same)
          (inr (inr (_, get-IsKeyed (key_of p) p r.peers t there, refl)))
    | inr none_new ↦
        elim (Bool-cases (ltb rtp_inactivity_timeout_ms (now - p.last_inbound_packet_at))) [
          | inl late ↦
              rw
                (
                  none_new,
                  late,
                  peers-drop_stale_peer cfg now p r (is_current_self p r.peers there),
                )
                (inr (inl refl))
          | inr early ↦ rw (none_new, early) (inl refl)
        ]
  ]

  pub reap_peer-IsTouched :
      IsTable n r.peers
      → get (key_of p) r.peers ≡ some p
      → IsTouched n (key_of p) r.peers (reap_peer cfg now stats p r).peers
  unfolding reap_peer
  reap_peer-IsTouched t there = elim (Bool-cases (is_empty p.producers)) [
    | inr busy ↦ rw busy (judge-IsTouched (total_packets stats none (values p.producers)) t there)
    | inl idle ↦ elim (Bool-cases (is_some p.recv_transport)) [
      | inl listens ↦ rw (idle, listens) (inl refl)
      | inr deaf ↦ elim (Bool-cases (ltb no_producer_timeout_ms (now - p.joined_at))) [
        | inl late ↦
            rw
              (
                idle,
                deaf,
                late,
                peers-drop_stale_peer cfg now p r (is_current_self p r.peers there),
              )
              (inr (inl refl))
        | inr early ↦ rw (idle, deaf, early) (inl refl)
      ]
    ]
  ]
