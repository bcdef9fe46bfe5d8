-- ===== src/Map/Laws.antt =====
-- Reads after writes, sizes, and distinctness of the keys.
use obelisk_sfu.Prelude.{
  String, false, [], ◌∷◌, none, some, ◌==◌, ◌≡◌, ◌+◌, ◌≤◌, refl, if◌then◌else◌, arith, eq_iff,
  eq_refl, inl, inr, Bool-cases,
}
use obelisk_sfu.Map.{Map, get, set, delete, size}

-- No later entry has the key of an earlier one.
abbrev pub Nodup {ℓ} : {V : Type ℓ} → Map V → Type ℓ
Nodup [] = Unit
Nodup ((k, v) ∷ m) = (get k m ≡ none) × Nodup m

module _ {ℓ} {V : Type ℓ} where
  pub get-set :
      (k j : String) (v : V) (m : Map V) → get j (set k v m) ≡ (if k == j then some v else get j m)
  unfolding get set
  get-set k j v [] = refl
  get-set k j v ((i, w) ∷ m) = ground (arith, eq_iff k j, eq_iff i k, eq_iff i j, get-set k j v m)

  pub get-set_self : (k : String) (v : V) (m : Map V) → get k (set k v m) ≡ some v
  get-set_self k v m = ground (arith, get-set k k v m, eq_refl k)

  pub get-set_ne :
      (k j : String) (v : V) (m : Map V) → (k == j) ≡ false → get j (set k v m) ≡ get j m
  get-set_ne k j v m h = ground (arith, get-set k j v m, h)

  pub get-delete_ne : (k j : String) (m : Map V) → (k == j) ≡ false → get j (delete k m) ≡ get j m
  unfolding get delete
  get-delete_ne k j [] h = refl
  get-delete_ne k j ((i, w) ∷ m) h =
      ground (arith, eq_iff k j, eq_iff i k, eq_iff i j, get-delete_ne k j m h)

  pub get-delete_self : (k : String) (m : Map V) → Nodup m → get k (delete k m) ≡ none
  unfolding get delete
  get-delete_self k [] n = refl
  get-delete_self k ((i, w) ∷ m) n = elim (Bool-cases (i == k)) [
    | inl same ↦ ground (arith, eq_iff i k)
    | inr other ↦ ground (arith, get-delete_self k m n.1)
  ]

  pub Nodup-set : (k : String) (v : V) (m : Map V) → Nodup m → Nodup (set k v m)
  unfolding set get
  Nodup-set k v [] n = (refl, tt)
  Nodup-set k v ((i, w) ∷ m) n =
      ground (arith, eq_iff i k, eq_iff k i, get-set k i v m, Nodup-set k v m n.1)

  pub Nodup-delete : (k : String) (m : Map V) → Nodup m → Nodup (delete k m)
  unfolding delete get
  Nodup-delete k [] n = tt
  Nodup-delete k ((i, w) ∷ m) n =
      ground (arith, eq_iff i k, eq_iff k i, get-delete_ne k i m, Nodup-delete k m n.1)

  pub size-set_new :
      (k : String) (v : V) (m : Map V) → get k m ≡ none → size (set k v m) ≡ size m + 1
  unfolding set get
  size-set_new k v [] h = refl
  size-set_new k v ((i, w) ∷ m) h = ground (arith, size-set_new k v m)

  pub size-set_old :
      (k : String) (v u : V) (m : Map V) → get k m ≡ some u → size (set k v m) ≡ size m
  unfolding set get
  size-set_old k v u [] h = ground arith
  size-set_old k v u ((i, w) ∷ m) h = ground (arith, size-set_old k v u m)

  pub size-delete-le : (k : String) (m : Map V) → size (delete k m) ≤ size m
  unfolding delete
  size-delete-le k [] = omega arith
  size-delete-le k ((i, w) ∷ m) = ground (arith, size-delete-le k m)

  pub size-delete :
      (k : String) (v : V) (m : Map V) → get k m ≡ some v → size m ≡ size (delete k m) + 1
  unfolding delete get
  size-delete k v [] h = ground arith
  size-delete k v ((i, w) ∷ m) h = ground (arith, size-delete k v m)

  pub delete_absent : (k : String) (m : Map V) → get k m ≡ none → delete k m ≡ m
  unfolding delete get
  delete_absent k [] h = refl
  delete_absent k ((i, w) ∷ m) h = ground (arith, delete_absent k m)
