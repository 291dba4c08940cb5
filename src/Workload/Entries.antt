-- ===== src/Workload/Entries.antt =====
-- The entries of the monitor's table (workload_monitor/list/workload_list.go) as one list.
use mayastor_e2e.Prelude.{◌≡◌, ◌≢◌, refl, ap, String, List, [], ◌∷◌, ◌++◌, text_cases, inl, inr}
use mayastor_e2e.Workload.{
  Items, WorkloadListItem, WorkloadMap, item_values, get_workload_item_list, delete_by_id,
  delete_workload_by_id,
}

abbrev pub items_of : Items → List WorkloadListItem
items_of [] = []
items_of (e ∷ items) = e.1 ∷ items_of items

-- The entries of each registrant, one registrant after the other.
abbrev pub entries : WorkloadMap → List WorkloadListItem
entries [] = []
entries (e ∷ m) = items_of e.1 ++ entries m

-- The second list is the first without the entries of the workload with the id.
pub data Without (id : String) : List WorkloadListItem → List WorkloadListItem → Type 0 where
  ended : Without id [] []
  kept :
      (x : WorkloadListItem) (xs ys : List WorkloadListItem)
      → x.wl.id ≢ id
      → Without id xs ys
      → Without id (x ∷ xs) (x ∷ ys)
  dropped :
      (x : WorkloadListItem) (xs ys : List WorkloadListItem)
      → x.wl.id ≡ id
      → Without id xs ys
      → Without id (x ∷ xs) ys

item_values-items_of : (items : Items) → item_values items ≡ items_of items
item_values-items_of [] = refl
item_values-items_of (e ∷ items) = ap (λ l. e.1 ∷ l) (item_values-items_of items)

pub get_workload_item_list-entries : (m : WorkloadMap) → get_workload_item_list m ≡ entries m
unfolding get_workload_item_list
get_workload_item_list-entries [] = refl
get_workload_item_list-entries ((rid, items) ∷ m) =
    rw (item_values-items_of items, get_workload_item_list-entries m) refl

-- The entries of one registrant, before those of the others.
delete_by_id-Without :
    (id : String) (items : Items) (xs ys : List WorkloadListItem)
    → Without id xs ys
    → Without id (items_of items ++ xs) (items_of (delete_by_id id items) ++ ys)
unfolding delete_by_id
delete_by_id-Without id [] xs ys h = h
delete_by_id-Without id ((wid, x) ∷ items) xs ys h = elim (text_cases x.wl.id id) [
  | inl (t, q) ↦ rw (delete_by_id, t) (dropped x _ _ q (delete_by_id-Without id items xs ys h))
  | inr (t, d) ↦ rw (delete_by_id, t) (kept x _ _ d (delete_by_id-Without id items xs ys h))
]

pub delete_workload_by_id-Without :
    (id : String) (m : WorkloadMap) → Without id (entries m) (entries (delete_workload_by_id id m))
unfolding delete_workload_by_id
delete_workload_by_id-Without id [] = ended
delete_workload_by_id-Without id ((rid, items) ∷ m) =
    delete_by_id-Without id items _ _ (delete_workload_by_id-Without id m)
