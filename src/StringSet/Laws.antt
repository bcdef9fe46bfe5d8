-- ===== src/StringSet/Laws.antt =====
-- Membership after each operation, and that a set built from a list has each string once.
use obelisk_sfu.Prelude.{String, false, List, [], ◌∷◌, ◌++◌, ◌==◌, ◌||◌, ◌≡◌, refl, arith, eq_iff}
use obelisk_sfu.StringSet.{includes, add, add_all, distinct, remove}

-- Each string stands once.
abbrev pub Nodup : List String → Type 0
Nodup [] = Unit
Nodup (x ∷ xs) = (includes x xs ≡ false) × Nodup xs

pub includes-append :
    (k : String) (xs ys : List String) → includes k (xs ++ ys) ≡ (includes k xs || includes k ys)
unfolding includes
includes-append k [] ys = refl
includes-append k (x ∷ xs) ys = ground (arith, includes-append k xs ys)

pub includes-add :
    (j k : String) (s : List String) → includes j (add k s) ≡ (k == j || includes j s)
unfolding add includes
includes-add j k s = ground (arith, includes-append j s (k ∷ []), eq_iff k j)

pub includes-add_all :
    (j : String) (xs s : List String) → includes j (add_all xs s) ≡ (includes j xs || includes j s)
unfolding add_all includes
includes-add_all j [] s = refl
includes-add_all j (x ∷ xs) s = ground (arith, includes-add_all j xs (add x s), includes-add j x s)

pub includes-distinct : (j : String) (xs : List String) → includes j (distinct xs) ≡ includes j xs
unfolding distinct includes
includes-distinct j xs = ground (arith, includes-add_all j xs [])

append-Nodup : (s : List String) (k : String) → Nodup s → includes k s ≡ false → Nodup (s ++ k ∷ [])
unfolding includes
append-Nodup [] k n h = (refl, tt)
append-Nodup (x ∷ xs) k n h =
    ground (arith, append-Nodup xs k n.1, includes-append x xs (k ∷ []), eq_iff x k, eq_iff k x)

pub add-Nodup : (k : String) (s : List String) → Nodup s → Nodup (add k s)
unfolding add
add-Nodup k s n = ground (arith, append-Nodup s k n)

pub add_all-Nodup : (xs s : List String) → Nodup s → Nodup (add_all xs s)
unfolding add_all
add_all-Nodup [] s n = n
add_all-Nodup (x ∷ xs) s n = add_all-Nodup xs (add x s) (add-Nodup x s n)

pub distinct-Nodup : (xs : List String) → Nodup (distinct xs)
unfolding distinct
distinct-Nodup xs = add_all-Nodup xs [] tt

pub remove_absent : (k : String) (s : List String) → includes k s ≡ false → remove k s ≡ s
unfolding remove includes
remove_absent k [] h = refl
remove_absent k (x ∷ xs) h = ground (arith, remove_absent k xs)

pub includes-remove_self :
    (k : String) (s : List String) → Nodup s → includes k (remove k s) ≡ false
unfolding remove includes
includes-remove_self k [] n = refl
includes-remove_self k (x ∷ xs) n = ground (arith, eq_iff x k, includes-remove_self k xs n.1)
