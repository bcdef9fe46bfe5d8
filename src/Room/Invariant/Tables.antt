-- ===== src/Room/Invariant/Tables.antt =====
-- The table of a room under the writes of its operations.
use obelisk_sfu.Prelude.{ℕ, suc, String, false, [], ◌∷◌, some, ◌≡◌, ◌<◌, refl, arith}
use obelisk_sfu.Map.{Map, get, set, delete}
use obelisk_sfu.Map.Laws.{Nodup-set, Nodup-delete}
use obelisk_sfu.Map.Values.{Each-set, Each-delete, Each-mono, Each-get}
use obelisk_sfu.Room.{PeerState, key_of}
use obelisk_sfu.Room.Roster.{is_empty}
use obelisk_sfu.Room.Invariant.{IsKeyed, IsTable}

module _ {ℓ} {V : Type ℓ} where
  pub is_empty-delete :
      (k : String) (m : Map V) → is_empty (delete k m) ≡ false → is_empty m ≡ false
  unfolding delete
  is_empty-delete k [] h = h
  is_empty-delete k (e ∷ m) h = refl

  pub is_empty-set : (k : String) (v : V) (m : Map V) → is_empty (set k v m) ≡ false
  unfolding set
  is_empty-set k v [] = refl
  is_empty-set k v ((j, w) ∷ m) = ground arith

  pub is_empty-get : (k : String) (v : V) (m : Map V) → get k m ≡ some v → is_empty m ≡ false
  unfolding get
  is_empty-get k v [] h = ground arith
  is_empty-get k v (e ∷ m) h = refl

  pub eq-nil_of_delete : (k : String) (m : Map V) → m ≡ [] → delete k m ≡ []
  unfolding delete
  eq-nil_of_delete k m h = rw h

pub delete-IsTable : {n : ℕ} (k : String) (m : Map PeerState) → IsTable n m → IsTable n (delete k m)
delete-IsTable {n} k m t = record {
  nodup = Nodup-delete k m t.nodup;
  keyed = Each-delete (IsKeyed n) k m t.keyed;
}

pub set-IsTable :
    {n : ℕ} (k : String) (p : PeerState) (m : Map PeerState)
    → k ≡ key_of p
    → p.ref < n
    → IsTable n m
    → IsTable n (set k p m)
set-IsTable {n} k p m e h t = record {
  nodup = Nodup-set k p m t.nodup;
  keyed = Each-set (IsKeyed n) k p m (e, h) t.keyed;
}

pub suc-IsTable : {n : ℕ} (m : Map PeerState) → IsTable n m → IsTable (suc n) m
suc-IsTable {n} m t = record {
  nodup = t.nodup;
  keyed = Each-mono (IsKeyed n) (IsKeyed (suc n)) m (λ k p h. (h.0, omega arith)) t.keyed;
}

-- What is found under a key stands under its own key.
pub get-IsKeyed :
    {n : ℕ} (k : String) (p : PeerState) (m : Map PeerState)
    → IsTable n m
    → get k m ≡ some p
    → IsKeyed n k p
get-IsKeyed {n} k p m t h = Each-get (IsKeyed n) k p m t.keyed h
