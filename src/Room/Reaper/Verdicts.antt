-- ===== src/Room/Reaper/Verdicts.antt =====
-- Whom the reaper takes.
use obelisk_sfu.Prelude.{
  ℕ, String, true, false, List, [], ◌∷◌, Option, none, some, ◌≡◌, ◌≤◌, ◌<◌, ◌⊎◌, ◌↔◌, ◌-◌, ◌+◌,
  ◌==◌, ◌∙◌, refl, sym, ap, subst, inl, inr, arith, eq_iff, Bool-cases, Option-cases, nat_eq, All,
  if◌then◌else◌,
}
use obelisk_sfu.Map.{Map, get, values}
use obelisk_sfu.Map.Laws.{get-set_self, get-delete_self}
use obelisk_sfu.Map.Values.{Each}
use obelisk_sfu.Config.{Config}
use obelisk_sfu.Room.{Room, PeerState, key_of}
use obelisk_sfu.Room.Roster.{is_active, is_empty, drop_stale_peer}
use obelisk_sfu.Room.Roster.Kicks.{peers-drop_stale_peer, is_current_self}
use obelisk_sfu.Room.Transports.{update_peer}
use obelisk_sfu.Room.Invariant.{IsTable, IsKeyed}
use obelisk_sfu.Room.Invariant.Tables.{get-IsKeyed}
use obelisk_sfu.Room.Reaper.{Stats, judge, reap_peer, reap_each, reap}
use obelisk_sfu.Room.Reaper.Packets.{all_counts, sum, adds, total_packets-adds}
use obelisk_sfu.Room.Reaper.Turns.{IsTouched, IsTouched-get, IsTouched-IsTable, reap_peer-IsTouched}

-- When a peer is to be taken: it neither sends nor listens, and entered more than 45 seconds ago;
-- or its producers have counted packets, all together no more than were last seen, and the last
-- ones came in more than 30 seconds ago.
abbrev pub IsSilent : ℕ → Stats → PeerState → Type 0
IsSilent now stats p =
    let seen = all_counts stats (values p.producers) in
    ((is_empty p.producers ≡ true) × (p.recv_transport ≡ none) × (45000 < now - p.joined_at))
    ⊎ ((is_empty p.producers ≡ false)
        × (is_empty seen ≡ false)
        × (sum seen ≤ p.last_seen_packet_count)
        × (30000 < now - p.last_inbound_packet_at))

dropped :
    (cfg : Config) (now : ℕ) (p : PeerState) (r : Room) (n : ℕ)
    → IsTable n r.peers
    → get (key_of p) r.peers ≡ some p
    → get (key_of p) (drop_stale_peer cfg now p r).peers ≡ none
dropped cfg now p r n t there =
    rw (peers-drop_stale_peer cfg now p r (is_current_self p r.peers there))
      (get-delete_self (key_of p) r.peers t.nodup)

updated :
    (f : PeerState → PeerState) (p : PeerState) (r : Room)
    → get (key_of p) r.peers ≡ some p
    → get (key_of p) (update_peer f p r).peers ≡ some (f p)
unfolding update_peer
updated f p r there =
    let same : nat_eq p.ref p.ref ≡ true = ground arith in
    rw (there, update_peer, same) (get-set_self (key_of p) (f p) r.peers)

reap_peer-drops_iff :
    (cfg : Config) (now : ℕ) (stats : Stats) (p : PeerState) (r : Room) (n : ℕ)
    → IsTable n r.peers
    → get (key_of p) r.peers ≡ some p
    → (get (key_of p) (reap_peer cfg now stats p r).peers ≡ none) ↔ IsSilent now stats p
unfolding reap_peer judge
reap_peer-drops_iff cfg now stats p r n t there =
    let gone = dropped cfg now p r n t there in
    let added = total_packets-adds stats none (values p.producers) in
    elim (Bool-cases (is_empty p.producers)) [
      | inl idle ↦ rw idle (ground (arith, gone, there))
      | inr busy ↦ rw (busy, added) (by_counts (all_counts stats (values p.producers)) gone)
    ]
  where
    by_counts :
        (seen : List ℕ)
        → get (key_of p) (drop_stale_peer cfg now p r).peers ≡ none
        → (get (key_of p) (judge cfg now p (adds none seen) r).peers ≡ none) ↔ (
            ((false ≡ true) × (p.recv_transport ≡ none) × (45000 < now - p.joined_at))
            ⊎ ((false ≡ false)
                × (is_empty seen ≡ false)
                × (sum seen ≤ p.last_seen_packet_count)
                × (30000 < now - p.last_inbound_packet_at)))
    by_counts [] gone = ground (arith, there)
    by_counts (x ∷ xs) gone =
        let noted =
          updated
            (λ q. record q { last_seen_packet_count = x + sum xs; last_inbound_packet_at = now }) p
            r there in
        ground (arith, gone, there, noted)

module _ (cfg : Config) (now : ℕ) (stats : Stats) (n : ℕ) where
  -- One turn of the loop.
  abbrev turn : PeerState → Room → Room
  turn p r = elim (get (key_of p) r.peers) [
    | none ↦ r
    | some q ↦ if nat_eq q.ref p.ref then reap_peer cfg now stats q r else r
  ]

  turn_by : Option PeerState → PeerState → Room → Room
  turn_by none p r = r
  turn_by (some q) p r = if nat_eq q.ref p.ref then reap_peer cfg now stats q r else r

  turn_by-IsTouched :
      (o : Option PeerState) (p : PeerState) (r : Room)
      → IsTable n r.peers
      → get (key_of p) r.peers ≡ o
      → IsTouched n (key_of p) r.peers (turn_by o p r).peers
  unfolding turn_by
  turn_by-IsTouched none p r t e = inl refl
  turn_by-IsTouched (some q) p r t e = elim (Bool-cases (nat_eq q.ref p.ref)) [
    | inr other ↦ rw other (inl refl)
    | inl same ↦
        let own = (get-IsKeyed (key_of p) q r.peers t e).0 in
        rw same (
          subst (λ k. IsTouched n k r.peers (reap_peer cfg now stats q r).peers) (sym own)
            (reap_peer-IsTouched cfg now stats n q r t (sym (ap (λ k. get k r.peers) own) ∙ e)))
  ]

  turn-IsTouched :
      (p : PeerState) (r : Room)
      → IsTable n r.peers
      → IsTouched n (key_of p) r.peers (turn p r).peers
  unfolding turn_by
  turn-IsTouched p r t = elim (Option-cases (get (key_of p) r.peers)) [
    | inl e ↦ rw (e, turn) (inl refl)
    | inr (q, e) ↦
        let same : turn p r ≡ turn_by (some q) p r = rw (e, turn) refl in
        subst (λ (x : Room). IsTouched n (key_of p) r.peers x.peers) (sym same)
          (turn_by-IsTouched (some q) p r t e)
  ]

  reap_each-get :
      (k : String) (ps : List PeerState) (r : Room)
      → All (λ p. (key_of p == k) ≡ false) ps
      → IsTable n r.peers
      → get k (reap_each cfg now stats ps r).peers ≡ get k r.peers
  unfolding reap_each
  reap_each-get k [] r h t = refl
  reap_each-get k (p ∷ ps) r h t =
      let one = turn-IsTouched p r t in
      reap_each-get k ps (turn p r) h.1 (IsTouched-IsTable n (key_of p) r.peers _ t one)
      ∙ IsTouched-get n (key_of p) k r.peers _ h.0 one

  others :
      (k : String) (m : Map PeerState)
      → get k m ≡ none
      → Each (IsKeyed n) m
      → All (λ p. (key_of p == k) ≡ false) (values m)
  unfolding get
  others k [] h e = tt
  others k ((j, q) ∷ m) h e = elim (Bool-cases (j == k)) [
    | inl same ↦ absurd (ground (arith, h, same))
    | inr apart ↦ (rw (← e.0.0) apart, others k m (ground (arith, h, apart)) e.1)
  ]

  turn_current :
      (p : PeerState) (r : Room)
      → get (key_of p) r.peers ≡ some p
      → turn p r ≡ reap_peer cfg now stats p r
  turn_current p r there =
      let same : nat_eq p.ref p.ref ≡ true = ground arith in rw (there, turn, same) refl

  reap_each-first :
      (p : PeerState) (ps : List PeerState) (r : Room)
      → All (λ q. (key_of q == key_of p) ≡ false) ps
      → IsTable n r.peers
      → get (key_of p) r.peers ≡ some p
      → (get (key_of p) (reap_each cfg now stats (p ∷ ps) r).peers ≡ none) ↔ IsSilent now stats p
  unfolding reap_each
  reap_each-first p ps r far t there =
      let kept =
        reap_each-get (key_of p) ps (turn p r) far
          (IsTouched-IsTable n (key_of p) r.peers _ t (turn-IsTouched p r t))
        ∙ ap (λ x. get (key_of p) x.peers) (turn_current p r there) in
      subst (λ (x : Option PeerState). (x ≡ none) ↔ IsSilent now stats p) (sym kept)
        (reap_peer-drops_iff cfg now stats p r n t there)

  -- The loop over the objects of a table, of which the room still has this one.
  reap_each-drops_iff :
      (k : String) (p : PeerState) (m : Map PeerState) (r : Room)
      → IsTable n m
      → IsTable n r.peers
      → get k m ≡ some p
      → get k r.peers ≡ some p
      → (get k (reap_each cfg now stats (values m) r).peers ≡ none) ↔ IsSilent now stats p
  unfolding reap_each get
  reap_each-drops_iff k p [] r tm t h there = absurd (ground arith)
  reap_each-drops_iff k p ((j, q) ∷ m) r tm t h there = elim (Bool-cases (j == k)) [
    | inl same ↦
        let own : key_of q ≡ k = sym tm.keyed.0.0 ∙ (eq_iff j k).0 same in
        let found : q ≡ p = ground (arith, h, same) in
        let here = (ap (λ x. get x r.peers) own ∙ there) ∙ ap some (sym found) in
        let far =
          subst (λ x. All (λ z. (key_of z == x) ≡ false) (values m)) tm.keyed.0.0
            (others j m tm.nodup.0 tm.keyed.1) in
        subst
          (λ x.
            (get k (reap_each cfg now stats (q ∷ values m) r).peers ≡ none) ↔ IsSilent now stats x)
          found
          (subst
            (λ x.
              (get x (reap_each cfg now stats (q ∷ values m) r).peers ≡ none)
              ↔ IsSilent now stats q)
            own (reap_each-first q (values m) r far t here))
    | inr apart ↦
        let one = turn-IsTouched q r t in
        let far : (key_of q == k) ≡ false = rw (← tm.keyed.0.0) apart in
        reap_each-drops_iff k p m (turn q r) (record { nodup = tm.nodup.1; keyed = tm.keyed.1 })
          (IsTouched-IsTable n (key_of q) r.peers _ t one) (ground (arith, h, apart))
          (IsTouched-get n (key_of q) k r.peers _ far one ∙ there)
  ]

-- In an active room the reaper takes a peer of the table out exactly when it is silent, whatever
-- it does to the other peers.
pub reap-drops_iff :
    (cfg : Config) (now : ℕ) (stats : Stats) (k : String) (p : PeerState) (r : Room)
    → is_active r.status ≡ true
    → IsTable r.next_ref r.peers
    → get k r.peers ≡ some p
    → (get k (reap cfg now stats r).peers ≡ none) ↔ IsSilent now stats p
unfolding reap
reap-drops_iff cfg now stats k p r act t there =
    rw act (reap_each-drops_iff cfg now stats r.next_ref k p r.peers r t t there there)
