-- ===== src/Map/Values.antt =====
-- A property of every entry of a map, and how the operations keep it.
use obelisk_sfu.Prelude.{String, [], ◌∷◌, some, ◌≡◌, arith, eq_iff}
use obelisk_sfu.Map.{Map, get, set, delete}

module _ {ℓ} {V : Type ℓ} (P : String → V → Type 0) where
  abbrev pub Each : Map V → Type 0
  Each [] = Unit {0}
  Each ((k, v) ∷ m) = P k v × Each m

  pub Each-set : (k : String) (v : V) (m : Map V) → P k v → Each m → Each (set k v m)
  unfolding set
  Each-set k v [] p e = (p, tt)
  Each-set k v ((i, w) ∷ m) p e = ground (arith, eq_iff i k, Each-set k v m p e.1)

  pub Each-delete : (k : String) (m : Map V) → Each m → Each (delete k m)
  unfolding delete
  Each-delete k [] e = tt
  Each-delete k ((i, w) ∷ m) e = ground (arith, Each-delete k m e.1)

  pub Each-get : (k : String) (v : V) (m : Map V) → Each m → get k m ≡ some v → P k v
  unfolding get
  Each-get k v [] e h = ground arith
  Each-get k v ((i, w) ∷ m) e h = ground (arith, eq_iff i k, Each-get k v m e.1)

pub Each-mono {ℓ} :
    {V : Type ℓ} (P Q : String → V → Type 0) (m : Map V)
    → ((k : String) (v : V) → P k v → Q k v)
    → Each P m
    → Each Q m
Each-mono P Q [] f e = tt
Each-mono P Q ((k, v) ∷ m) f e = (f k v e.0, Each-mono P Q m f e.1)
