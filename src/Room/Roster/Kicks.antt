-- ===== src/Room/Roster/Kicks.antt =====
-- Who is left in the table after a kick and after a leave.
use obelisk_sfu.Prelude.{
  ℕ, String, Bool, true, false, List, [], ◌∷◌, Option, none, some, ◌≡◌, ◌==◌, ◌∙◌, ap, sym, refl,
  inl, inr, arith, Option-cases, Bool-cases, any, keep, eq_iff, if◌then◌else◌,
}
use obelisk_sfu.Map.{Map, get, delete, values}
use obelisk_sfu.Map.Laws.{Nodup, get-delete_ne, get-delete_self, Nodup-delete}
use obelisk_sfu.Map.Values.{Each}
use obelisk_sfu.Config.{Config}
use obelisk_sfu.Room.{Room, PeerState, key_of, peer_key}
use obelisk_sfu.Room.Roster.{
  is_empty, is_current, has_pubkey, kick_each, kick_begin, kick_end, kick, drop_stale_peer,
  maybe_start_empty_timer,
}
use obelisk_sfu.Room.Media.{leave}
use obelisk_sfu.Room.Invariant.{IsKeyed, IsTable}
use obelisk_sfu.Room.Invariant.Tables.{get-IsKeyed}

pub peers-maybe_start_empty_timer :
    (cfg : Config) (now : ℕ) (r : Room) → (maybe_start_empty_timer cfg now r).peers ≡ r.peers
unfolding maybe_start_empty_timer
peers-maybe_start_empty_timer cfg now r = ground arith

pub get-delete {ℓ} :
    {V : Type ℓ} (j k : String) (m : Map V)
    → Nodup m
    → get k (delete j m) ≡ (if j == k then none else get k m)
get-delete j k m n = elim (Bool-cases (j == k)) [
  | inr apart ↦ rw apart (get-delete_ne j k m apart)
  | inl same ↦
      let e : j ≡ k = ground (arith, eq_iff j k, same) in rw (same, e) (get-delete_self k m n)
]

abbrev stands : String → PeerState → Bool
stands k p = key_of p == k

get-kick_each :
    (k : String) (ps : List PeerState) (r : Room)
    → Nodup r.peers
    → get k (kick_each ps r).peers ≡ (if any (stands k) ps then none else get k r.peers)
unfolding kick_each
get-kick_each k [] r n = refl
get-kick_each k (p ∷ ps) r n =
    let rest = get-kick_each k ps _ (Nodup-delete (key_of p) r.peers n) in
    let one = get-delete (key_of p) k r.peers n in
    elim (Bool-cases (key_of p == k)) [
      | inl same ↦ rest ∙ ground (arith, one, same)
      | inr apart ↦ rest ∙ ground (arith, one, apart)
    ]

-- Whether one of the devices of the user stands under the key.
found : String → String → Map PeerState → Bool
found target k m = any (stands k) (keep (has_pubkey target) (values m))

abbrev pub without : String → Option PeerState → Option PeerState
without target none = none
without target (some p) = if p.pubkey == target then none else some p

found_absent :
    (n : ℕ) (target k : String) (m : Map PeerState)
    → Each (IsKeyed n) m
    → get k m ≡ none
    → found target k m ≡ false
unfolding found get
found_absent n target k [] e h = refl
found_absent n target k ((j, q) ∷ m) e h =
    let here : j ≡ key_of q = e.0.0 in
    let rest = found_absent n target k m e.1 in
    ground (arith, here, rest, eq_iff j k, eq_iff (key_of q) k, h)

found_present :
    (n : ℕ) (target k : String) (p : PeerState) (m : Map PeerState)
    → Nodup m
    → Each (IsKeyed n) m
    → get k m ≡ some p
    → found target k m ≡ (p.pubkey == target)
unfolding found get
found_present n target k p [] u e h = absurd cc
found_present n target k p ((j, q) ∷ m) u e h =
    let here : j ≡ key_of q = e.0.0 in
    elim (Bool-cases (j == k)) [
      | inr apart ↦
          let rest = found_present n target k p m u.1 e.1 (ground (arith, h, apart)) in
          ground (arith, here, rest, apart, eq_iff j k, eq_iff (key_of q) k)
      | inl same ↦
          let eq : j ≡ k = ground (arith, eq_iff j k, same) in
          let absent : get k m ≡ none = rw (← eq) u.0 in
          let rest = found_absent n target k m e.1 absent in
          ground (arith, here, rest, same, h, eq_iff j k, eq_iff (key_of q) k)
    ]

get-without :
    (n : ℕ) (target k : String) (m : Map PeerState)
    → IsTable n m
    → (if found target k m then none else get k m) ≡ without target (get k m)
get-without n target k m t = elim (Option-cases (get k m)) [
  | inl e ↦ rw (e, found_absent n target k m t.keyed e) refl
  | inr (p, e) ↦ rw (e, found_present n target k p m t.nodup t.keyed e) refl
]

empty-found :
    (target k : String) (m : Map PeerState)
    → is_empty (keep (has_pubkey target) (values m)) ≡ true
    → found target k m ≡ false
unfolding found
empty-found target k m h = go (keep (has_pubkey target) (values m)) h
  where
    go : (ps : List PeerState) → is_empty ps ≡ true → any (stands k) ps ≡ false
    go [] h = refl
    go (p ∷ ps) h = absurd cc

peers-kick_end :
    (cfg : Config) (now : ℕ) (target : String) (r : Room)
    → (kick_end cfg now target r).peers ≡ r.peers
unfolding kick_end
peers-kick_end cfg now target r = peers-maybe_start_empty_timer cfg now _

-- A kick takes exactly the devices of the target out of the table: every other key is as it was.
pub get-kick :
    (cfg : Config) (now : ℕ) (target : String) (reason : Option String) (r : Room) (k : String)
    → IsTable r.next_ref r.peers
    → get k (kick cfg now target reason r).peers ≡ without target (get k r.peers)
unfolding kick kick_begin found
get-kick cfg now target reason r k t =
    let ends = get-without r.next_ref target k r.peers t in
    elim (Bool-cases (is_empty (keep (has_pubkey target) (values r.peers)))) [
      | inl nobody ↦ rw nobody (
          ap (λ b. if b then none else get k r.peers) (sym (empty-found target k r.peers nobody))
          ∙ ends)
      | inr some_body ↦
          rw (some_body, peers-kick_end cfg now target (kick_begin target reason r))
            (get-kick_each k (keep (has_pubkey target) (values r.peers)) r t.nodup ∙ ends)
    ]

pub peers-drop_stale_peer :
    (cfg : Config) (now : ℕ) (p : PeerState) (r : Room)
    → is_current p r.peers ≡ true
    → (drop_stale_peer cfg now p r).peers ≡ delete (key_of p) r.peers
unfolding drop_stale_peer
peers-drop_stale_peer cfg now p r h = rw h (peers-maybe_start_empty_timer cfg now _)

pub is_current_self :
    (p : PeerState) (m : Map PeerState) → get (key_of p) m ≡ some p → is_current p m ≡ true
unfolding is_current
is_current_self p m h = rw (h, is_current) (ground arith)

-- A leave takes exactly the sender's device out of the table: every other key is as it was.
pub get-leave :
    (cfg : Config) (now : ℕ) (from client_id : String) (r : Room) (k : String)
    → IsTable r.next_ref r.peers
    → get k (leave cfg now from client_id r).peers
      ≡ (if peer_key from client_id == k then none else get k r.peers)
unfolding leave
get-leave cfg now from client_id r k t =
    elim (Option-cases (get (peer_key from client_id) r.peers)) [
      | inl e ↦ elim (Bool-cases (peer_key from client_id == k)) [
        | inr apart ↦ rw (e, leave, apart) refl
        | inl same ↦
            let eq : peer_key from client_id ≡ k =
              ground (arith, eq_iff (peer_key from client_id) k, same) in
            rw (e, leave, same) (rw (← eq) e)
      ]
      | inr (p, e) ↦
          let own = (get-IsKeyed (peer_key from client_id) p r.peers t e).0 in
          let current = is_current_self p r.peers (rw (← own) e) in
          rw (e, leave, peers-drop_stale_peer cfg now p r current, ← own)
            (get-delete (peer_key from client_id) k r.peers t.nodup)
    ]
