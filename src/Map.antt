-- ===== src/Map.antt =====
-- JavaScript's `Map` with string keys: the pairs in insertion order, each key once.
pub mod Laws
pub mod Values
use obelisk_sfu.Prelude.{
  ℕ, String, Bool, List, [], ◌∷◌, map, Option, none, some, ◌==◌, if◌then◌else◌, is_some, length,
}

abbrev pub Map {ℓ} : Type ℓ → Type ℓ
Map V = List (String × V)

module _ {ℓ} {V : Type ℓ} where
  -- `m.get(k)`
  unfoldable pub get : String → Map V → Option V
  get k [] = none
  get k ((j, v) ∷ m) = if j == k then some v else get k m

  -- `m.has(k)`
  abbrev pub has : String → Map V → Bool
  has k m = is_some (get k m)

  -- `m.set(k, v)`: a known key keeps its place.
  unfoldable pub set : String → V → Map V → Map V
  set k v [] = (k, v) ∷ []
  set k v ((j, w) ∷ m) = if j == k then (j, v) ∷ m else (j, w) ∷ set k v m

  -- `m.delete(k)`
  unfoldable pub delete : String → Map V → Map V
  delete k [] = []
  delete k ((j, v) ∷ m) = if j == k then m else (j, v) ∷ delete k m

  -- `m.size`
  abbrev pub size : Map V → ℕ
  size m = length m

  -- `m.values()`
  abbrev pub values : Map V → List V
  values m = map (λ e. e.1) m

  -- `m.keys()`
  abbrev pub keys : Map V → List String
  keys m = map (λ e. e.0) m
