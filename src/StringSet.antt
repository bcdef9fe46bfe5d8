-- ===== src/StringSet.antt =====
-- JavaScript's `Set` of strings and `Array.includes`: lists in insertion order.
pub mod Laws
use obelisk_sfu.Prelude.{
  ℕ, String, Bool, false, List, [], ◌∷◌, ◌++◌, ◌==◌, ◌||◌, if◌then◌else◌, length,
}

-- `xs.includes(k)`, and `s.has(k)`
unfoldable pub includes : String → List String → Bool
includes k [] = false
includes k (x ∷ xs) = x == k || includes k xs

-- `s.add(k)`
unfoldable pub add : String → List String → List String
add k s = if includes k s then s else s ++ k ∷ []

-- `for (const x of xs) s.add(x)`
unfoldable pub add_all : List String → List String → List String
add_all [] s = s
add_all (x ∷ xs) s = add_all xs (add x s)

-- `Array.from(new Set(xs))`
unfoldable pub distinct : List String → List String
distinct xs = add_all xs []

-- `s.delete(k)`
unfoldable pub remove : String → List String → List String
remove k [] = []
remove k (x ∷ xs) = if x == k then xs else x ∷ remove k xs
