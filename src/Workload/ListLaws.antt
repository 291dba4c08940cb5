-- ===== src/Workload/ListLaws.antt =====
-- The list of the workload monitor (workload_monitor/list/workload_list.go under
-- src/tools/extended-test-framework): what each operation leaves, entry by entry.
use mayastor_e2e.Prelude.{
  ℕ, ◌≡◌, refl, String, ◌==◌, eq_iff, [], ◌∷◌, Option, none, some, true, false, ◌&&◌, arith,
  if◌then◌else◌, length, map_option,
}
use mayastor_e2e.GoMap.{lookup, insert, erase, lookup-insert, lookup-erase}
use mayastor_e2e.Workload.{
  Workload, WorkloadListItem, Items, WorkloadMap, or_empty, add_to_workload_list, get_item,
  set_workload_list_item_restarts, delete_workload, delete_workloads, delete_by_id,
  delete_workload_by_id,
}
use mayastor_e2e.Workload.Table.{
  ItemsOf, IsTable, ItemsOf-Distinct, IsTable-Distinct, IsTable-lookup,
}

lookup-nil : (w : String) → (let empty : Items = [] in lookup w empty) ≡ none
unfolding lookup
lookup-nil w = refl

-- After a workload is listed the list holds it, with no restarts, under its registrant and id, and
-- otherwise what it held.
pub get_item-add :
    (wl : Workload) (r w r' w' : String) (m : WorkloadMap)
    → get_item r' w' (add_to_workload_list wl r w m) ≡ (
        if r == r' && w == w'
        then some (record { restarts = 0; wl = wl; rid = r })
        else get_item r' w' m)
unfolding get_item add_to_workload_list
get_item-add wl r w r' w' m = go (lookup r m) refl
  where
    item : WorkloadListItem
    item = record { restarts = 0; wl = wl; rid = r }

    go :
        (o : Option Items)
        → lookup r m ≡ o
        → get_item r' w' (add_to_workload_list wl r w m)
          ≡ (if r == r' && w == w' then some item else get_item r' w' m)
    go none e = ground (
      arith,
      eq_iff r r',
      lookup-insert r r' (insert w item []) m,
      lookup-insert w w' item [],
      lookup-nil w',
    )
    go (some items) e = ground (
      arith,
      eq_iff r r',
      lookup-insert r r' (insert w item items) m,
      lookup-insert w w' item items,
    )

-- The restarts of an entry are set if it is there, which is what the answer says; nothing else
-- changes.
pub get_item-set_restarts :
    (r w r' w' : String) (n : ℕ) (m : WorkloadMap)
    → let (m', found) = set_workload_list_item_restarts r w n m in
      (get_item r' w' m' ≡ (
        if r == r' && w == w'
        then map_option (λ (i : WorkloadListItem). record i { restarts = n }) (get_item r w m)
        else get_item r' w' m))
      × (found ≡ elim (get_item r w m) [ none ↦ false | some _ ↦ true ])
unfolding get_item set_workload_list_item_restarts
get_item-set_restarts r w r' w' n m = go (lookup r m) refl
  where
    Goal : Type 0
    Goal =
        let (m', found) = set_workload_list_item_restarts r w n m in
        (get_item r' w' m' ≡ (
          if r == r' && w == w'
          then map_option (λ (i : WorkloadListItem). record i { restarts = n }) (get_item r w m)
          else get_item r' w' m))
        × (found ≡ elim (get_item r w m) [ none ↦ false | some _ ↦ true ])

    inner :
        (items : Items)
        → lookup r m ≡ some items
        → (o : Option WorkloadListItem) → lookup w items ≡ o
        → Goal
    inner items e none e2 = ground (arith, eq_iff r r', eq_iff w w')
    inner items e (some i) e2 = ground (
      arith,
      eq_iff r r',
      eq_iff w w',
      lookup-insert r r' (insert w (record i { restarts = n }) items) m,
      lookup-insert w w' (record i { restarts = n }) items,
    )

    go : (o : Option Items) → lookup r m ≡ o → Goal
    go none e = ground (arith, eq_iff r r', eq_iff w w')
    go (some items) e = inner items e (lookup w items) refl

-- In a well-formed table, a workload that is deleted is no longer there, and all others are.
pub get_item-delete_workload :
    (r w r' w' : String) (m : WorkloadMap)
    → IsTable m
    → get_item r' w' (delete_workload r w m)
      ≡ (if r == r' && w == w' then none else get_item r' w' m)
unfolding get_item delete_workload
get_item-delete_workload r w r' w' m h = go (lookup r m) refl
  where
    go :
        (o : Option Items)
        → lookup r m ≡ o
        → get_item r' w' (delete_workload r w m)
          ≡ (if r == r' && w == w' then none else get_item r' w' m)
    go none e = ground (arith, eq_iff r r')
    go (some items) e = ground (
      arith,
      eq_iff r r',
      lookup-insert r r' (erase w items) m,
      lookup-erase w w' items (ItemsOf-Distinct r items (IsTable-lookup r m items h e)),
    )

pub lookup-delete_by_id :
    (r id w : String) (items : Items)
    → ItemsOf r items
    → lookup w (delete_by_id id items) ≡ (if id == w then none else lookup w items)
unfolding lookup delete_by_id
lookup-delete_by_id r id w [] h = ground arith
lookup-delete_by_id r id w ((v, i) ∷ items) h =
    ground (arith, eq_iff i.wl.id id, eq_iff id w, eq_iff v w, lookup-delete_by_id r id w items h.1)

-- In a well-formed table, deleting by id deletes the workload of every registrant, and only it.
pub get_item-delete_by_id :
    (id r w : String) (m : WorkloadMap)
    → IsTable m
    → get_item r w (delete_workload_by_id id m) ≡ (if id == w then none else get_item r w m)
unfolding get_item lookup delete_workload_by_id
get_item-delete_by_id id r w [] h = ground arith
get_item-delete_by_id id r w ((q, items) ∷ m) h =
    ground (
      arith,
      eq_iff q r,
      lookup-delete_by_id q id w items h.0.1,
      get_item-delete_by_id id r w m h.1,
    )

-- In a well-formed table, all workloads of a registrant are deleted, and no others; the answer is
-- how many they were.
pub get_item-delete_workloads :
    (r r' w' : String) (m : WorkloadMap)
    → IsTable m
    → let (n, m') = delete_workloads r m in
      (get_item r' w' m' ≡ (if r == r' then none else get_item r' w' m))
      × (n ≡ length (or_empty (lookup r m)))
unfolding get_item delete_workloads
get_item-delete_workloads r r' w' m h =
    ground (arith, eq_iff r r', lookup-erase r r' m (IsTable-Distinct m h))
