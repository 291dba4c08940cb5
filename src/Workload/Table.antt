-- ===== src/Workload/Table.antt =====
-- The form of the workload monitor's table (workload_monitor/list/workload_list.go under
-- src/tools/extended-test-framework): what entries a well-formed one has, and that single writes
-- keep it.
use mayastor_e2e.Prelude.{
  ◌≡◌, refl, sym, subst, text_cases, ◌∙◌, ap, inl, inr, String, eq_iff, [], ◌∷◌, Option, none, some,
  arith,
}
use mayastor_e2e.GoMap.{lookup, insert, erase, Distinct, lookup-insert, lookup-erase}
use mayastor_e2e.Workload.{WorkloadListItem, Items, WorkloadMap, or_empty}

-- Every inner map has distinct keys; each entry carries its registrant and, as its workload's id,
-- its own key.
abbrev pub ItemsOf : String → Items → Type 0
ItemsOf r [] = Unit {0}
ItemsOf r ((w, i) ∷ items) =
    ((i.rid ≡ r) × (i.wl.id ≡ w) × (lookup w items ≡ none)) × ItemsOf r items

abbrev pub IsTable : WorkloadMap → Type 0
IsTable [] = Unit {0}
IsTable ((r, items) ∷ m) = ((lookup r m ≡ none) × ItemsOf r items) × IsTable m

pub ItemsOf-Distinct : (r : String) (items : Items) → ItemsOf r items → Distinct items
ItemsOf-Distinct r [] h = tt
ItemsOf-Distinct r ((w, i) ∷ items) h = (h.0.2, ItemsOf-Distinct r items h.1)

pub IsTable-Distinct : (m : WorkloadMap) → IsTable m → Distinct m
IsTable-Distinct [] h = tt
IsTable-Distinct ((r, items) ∷ m) h = (h.0.0, IsTable-Distinct m h.1)

pub IsTable-lookup :
    (r : String) (m : WorkloadMap) (items : Items)
    → IsTable m
    → lookup r m ≡ some items
    → ItemsOf r items
unfolding lookup
IsTable-lookup r [] items h e = cc
IsTable-lookup r ((q, js) ∷ m) items h e = elim (text_cases q r) [
  | inl (t, p) ↦ subst (λ x. ItemsOf x items) p (subst (ItemsOf q) (ground (arith, t)) h.0.1)
  | inr (t, n) ↦ IsTable-lookup r m items h.1 (ground (arith, t))
]

pub insert-ItemsOf :
    (r w : String) (i : WorkloadListItem) (items : Items)
    → i.rid ≡ r
    → i.wl.id ≡ w
    → ItemsOf r items
    → ItemsOf r (insert w i items)
unfolding insert lookup
insert-ItemsOf r w i [] a b h = ((a, b, refl), tt)
insert-ItemsOf r w i ((v, j) ∷ items) a b h =
    ground
      (arith, eq_iff v w, eq_iff w v, lookup-insert w v i items, insert-ItemsOf r w i items a b h.1)

pub insert-IsTable :
    (r : String) (items : Items) (m : WorkloadMap)
    → ItemsOf r items
    → IsTable m
    → IsTable (insert r items m)
unfolding insert lookup
insert-IsTable r items [] a h = ((refl, a), tt)
insert-IsTable r items ((q, js) ∷ m) a h = elim (text_cases q r) [
  | inl (t, p) ↦ rw t ((ap (λ x. lookup x m) (sym p) ∙ h.0.0, a), h.1)
  | inr (t, n) ↦ rw t (
    (ground (arith, lookup-insert r q items m, eq_iff r q, eq_iff q r), h.0.1),
    insert-IsTable r items m a h.1,
  )
]

pub erase-ItemsOf : (r w : String) (items : Items) → ItemsOf r items → ItemsOf r (erase w items)
unfolding erase
erase-ItemsOf r w [] h = tt
erase-ItemsOf r w ((v, j) ∷ items) h = ground (
  arith,
  eq_iff w v,
  lookup-erase w v items (ItemsOf-Distinct r items h.1),
  erase-ItemsOf r w items h.1,
)

pub erase-IsTable : (r : String) (m : WorkloadMap) → IsTable m → IsTable (erase r m)
unfolding erase
erase-IsTable r [] h = tt
erase-IsTable r ((q, js) ∷ m) h =
    ground (arith, eq_iff r q, lookup-erase r q m (IsTable-Distinct m h.1), erase-IsTable r m h.1)

-- What the list holds of a registrant is well formed, also where that is nothing.
pub or_empty-ItemsOf :
    (r : String) (m : WorkloadMap) → IsTable m → ItemsOf r (or_empty (lookup r m))
or_empty-ItemsOf r m h = go (lookup r m) refl
  where
    go : (o : Option Items) → lookup r m ≡ o → ItemsOf r (or_empty o)
    go none e = tt
    go (some items) e = IsTable-lookup r m items h e
