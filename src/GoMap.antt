-- ===== src/GoMap.antt =====
-- Go's `map[string]V` as a list of entries. The list's order stands for the order in which `range`
-- happens to visit the map: the theorems hold for every order.
use mayastor_e2e.Prelude.{
  ◌≡◌, refl, String, ◌==◌, eq_iff, List, [], ◌∷◌, Option, none, some, arith, if◌then◌else◌,
}

module _ {ℓ} {V : Type ℓ} where
  -- `m[key]`, with whether the key is there.
  unfoldable pub lookup : String → List (String × V) → Option V
  lookup key [] = none
  lookup key ((i, x) ∷ rest) = if i == key then some x else lookup key rest

  -- `delete(m, key)`
  unfoldable pub erase : String → List (String × V) → List (String × V)
  erase key [] = []
  erase key ((i, x) ∷ rest) = if i == key then rest else (i, x) ∷ erase key rest

  -- `m[key] = value`
  unfoldable pub insert : String → V → List (String × V) → List (String × V)
  insert key value [] = (key, value) ∷ []
  insert key value ((i, x) ∷ rest) =
      if i == key then (key, value) ∷ rest else (i, x) ∷ insert key value rest

  -- No key stands twice.
  abbrev pub Distinct : List (String × V) → Type ℓ
  Distinct [] = Unit
  Distinct ((j, v) ∷ m) = (lookup j m ≡ none) × Distinct m

  pub lookup-insert :
      (key i : String) (value : V) (entries : List (String × V))
      → lookup i (insert key value entries) ≡ (if key == i then some value else lookup i entries)
  unfolding lookup insert
  lookup-insert key i value [] = refl
  lookup-insert key i value ((h, x) ∷ rest) =
      ground (arith, lookup-insert key i value rest, eq_iff h i, eq_iff key i, eq_iff h key)

  pub lookup-erase :
      (k j : String) (m : List (String × V))
      → Distinct m
      → lookup j (erase k m) ≡ (if k == j then none else lookup j m)
  unfolding lookup erase
  lookup-erase k j [] d = ground arith
  lookup-erase k j ((i, w) ∷ m) d =
      ground (arith, eq_iff k j, eq_iff i k, eq_iff i j, lookup-erase k j m d.1)

  pub insert-Distinct :
      (k : String) (v : V) (m : List (String × V)) → Distinct m → Distinct (insert k v m)
  unfolding insert lookup
  insert-Distinct k v [] d = (refl, tt)
  insert-Distinct k v ((j, w) ∷ m) d =
      ground (arith, eq_iff j k, eq_iff k j, lookup-insert k j v m, insert-Distinct k v m d.1)

  pub erase-Distinct : (k : String) (m : List (String × V)) → Distinct m → Distinct (erase k m)
  unfolding erase lookup
  erase-Distinct k [] d = tt
  erase-Distinct k ((j, w) ∷ m) d =
      ground (arith, eq_iff k j, lookup-erase k j m d.1, erase-Distinct k m d.1)
