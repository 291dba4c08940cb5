-- ===== src/Workload/Invariant.antt =====
-- The form of the workload monitor's table, which requests and passes keep (workload_monitor/handlers
-- and workload_monitor/wm under src/tools/extended-test-framework).
use mayastor_e2e.Prelude.{
  ℕ, String, List, [], ◌∷◌, Option, none, some, Outcome, ok, err, panic, arith, ◌≡◌, refl, sym,
  subst, ap, ◌∙◌, if_cases, length, map_option, eq_iff,
}
use mayastor_e2e.GoMap.{lookup}
use mayastor_e2e.Kubernetes.{Listing, get_pod_name_and_namespace}
use mayastor_e2e.Workload.{
  Violation, Workload, WorkloadListItem, Items, WorkloadMap, add_to_workload_list,
  set_workload_list_item_restarts, get_workload, delete_workload, delete_workloads, delete_by_id,
  delete_workload_by_id,
}
use mayastor_e2e.Workload.Table.{
  ItemsOf, IsTable, IsTable-lookup, insert-ItemsOf, insert-IsTable, erase-ItemsOf, erase-IsTable,
  or_empty-ItemsOf,
}
use mayastor_e2e.Workload.ListLaws.{lookup-delete_by_id}
use mayastor_e2e.Workload.Handlers.{
  Request, put_workload_by_registrant, get_workload_by_registrant, get_workloads_by_registrant,
  get_workloads, delete_workload_by_registrant, delete_workloads_by_registrant, put_workload, serve,
  delete_workload_handle, delete_workloads_handle,
}
use mayastor_e2e.Workload.Monitor.{
  Surroundings, Monitor, send_event_fail, report_and_drop, monitor_pass,
}
use mayastor_e2e.Workload.MonitorSteps.{
  MonitorStep, called, counted, dropped, MonitorPath, stop, step, monitor_pass-MonitorPath,
}

add-IsTable :
    (wl : Workload) (r : String) (m : WorkloadMap)
    → IsTable m
    → IsTable (add_to_workload_list wl r wl.id m)
unfolding add_to_workload_list
add-IsTable wl r m h =
    insert-IsTable r _ m (insert-ItemsOf r wl.id _ _ refl refl (or_empty-ItemsOf r m h)) h

ItemsOf-lookup :
    (r w : String) (items : Items) (i : WorkloadListItem)
    → ItemsOf r items
    → lookup w items ≡ some i
    → (i.rid ≡ r) × (i.wl.id ≡ w)
unfolding lookup
ItemsOf-lookup r w [] i h e = cc
ItemsOf-lookup r w ((v, j) ∷ items) i h e =
    ground (arith, eq_iff v w, ItemsOf-lookup r w items i h.1)

set_restarts-IsTable :
    (r w : String) (n : ℕ) (m : WorkloadMap)
    → IsTable m
    → IsTable (set_workload_list_item_restarts r w n m).0
unfolding set_workload_list_item_restarts
set_restarts-IsTable r w n m h = go (lookup r m) refl
  where
    Goal : Type 0
    Goal = IsTable (set_workload_list_item_restarts r w n m).0

    inner :
        (items : Items)
        → lookup r m ≡ some items
        → (o : Option WorkloadListItem) → lookup w items ≡ o
        → Goal
    inner items e none e2 = rw (e, e2, set_workload_list_item_restarts) h
    inner items e (some i) e2 =
        let a : ItemsOf r items = IsTable-lookup r m items h e in
        let b : (i.rid ≡ r) × (i.wl.id ≡ w) = ItemsOf-lookup r w items i a e2 in
        rw (e, e2, set_workload_list_item_restarts)
          (insert-IsTable r _ m (insert-ItemsOf r w _ items b.0 b.1 a) h)

    go : (o : Option Items) → lookup r m ≡ o → Goal
    go none e = rw (e, set_workload_list_item_restarts) h
    go (some items) e = inner items e (lookup w items) refl

delete_workload-IsTable :
    (r w : String) (m : WorkloadMap) → IsTable m → IsTable (delete_workload r w m)
unfolding delete_workload
delete_workload-IsTable r w m h = go (lookup r m) refl
  where
    go : (o : Option Items) → lookup r m ≡ o → IsTable (delete_workload r w m)
    go none e = rw (e, delete_workload) h
    go (some items) e =
        rw (e, delete_workload)
          (insert-IsTable r _ m (erase-ItemsOf r w items (IsTable-lookup r m items h e)) h)

delete_workloads-IsTable :
    (r : String) (m : WorkloadMap) → IsTable m → IsTable (delete_workloads r m).1
unfolding delete_workloads
delete_workloads-IsTable r m h = go (lookup r m) refl
  where
    go : (o : Option Items) → lookup r m ≡ o → IsTable (delete_workloads r m).1
    go none e = rw (e, delete_workloads) h
    go (some items) e = rw (e, delete_workloads) (erase-IsTable r m h)

delete_by_id-ItemsOf :
    (r id : String) (items : Items) → ItemsOf r items → ItemsOf r (delete_by_id id items)
unfolding delete_by_id
delete_by_id-ItemsOf r id [] h = tt
delete_by_id-ItemsOf r id ((v, i) ∷ items) h =
    ground (arith, lookup-delete_by_id r id v items h.1, delete_by_id-ItemsOf r id items h.1)

lookup-delete_workload_by_id :
    (id r : String) (m : WorkloadMap)
    → lookup r (delete_workload_by_id id m) ≡ map_option (delete_by_id id) (lookup r m)
unfolding lookup delete_workload_by_id
lookup-delete_workload_by_id id r [] = refl
lookup-delete_workload_by_id id r ((q, items) ∷ m) =
    ground (arith, lookup-delete_workload_by_id id r m)

delete_workload_by_id-IsTable :
    (id : String) (m : WorkloadMap) → IsTable m → IsTable (delete_workload_by_id id m)
unfolding delete_workload_by_id
delete_workload_by_id-IsTable id [] h = tt
delete_workload_by_id-IsTable id ((q, items) ∷ m) h = (
  (
    lookup-delete_workload_by_id id q m ∙ ap (map_option (delete_by_id id)) h.0.0,
    delete_by_id-ItemsOf q id items h.0.1,
  ),
  delete_workload_by_id-IsTable id m h.1,
)

put_workload-IsTable :
    (l : Listing) (rid wid : String) (body : Option (List Violation)) (m : WorkloadMap)
    → IsTable m
    → IsTable (put_workload l rid wid body m).1
unfolding put_workload
put_workload-IsTable l rid wid none m h = h
put_workload-IsTable l rid wid (some vs) m h = go (get_pod_name_and_namespace l wid) refl
  where
    go :
        (o : Outcome (String × String))
        → get_pod_name_and_namespace l wid ≡ o
        → IsTable (put_workload l rid wid (some vs) m).1
    go (ok (name, namespace)) e =
        rw (e, put_workload)
          (add-IsTable (record { id = wid; name = name; namespace = namespace; violations = vs })
            rid m h)
    go (err t) e = rw (e, put_workload) h
    go panic e = rw (e, put_workload) h

delete_workload_handle-IsTable :
    (rid wid : String) (m : WorkloadMap) → IsTable m → IsTable (delete_workload_handle rid wid m).1
unfolding delete_workload_handle
delete_workload_handle-IsTable rid wid m h = go (get_workload rid wid m) refl
  where
    go :
        (o : Option Workload)
        → get_workload rid wid m ≡ o
        → IsTable (delete_workload_handle rid wid m).1
    go none e = rw (e, delete_workload_handle) h
    go (some wl) e = rw (e, delete_workload_handle) (delete_workload-IsTable rid wid m h)

-- Whatever the API server answers, a request leaves a well-formed table well formed: entries are
-- filed under their own registrant and their own workload's id, each once.
pub serve-IsTable :
    (l : Listing) (q : Request) (m : WorkloadMap) → IsTable m → IsTable (serve l q m).1
unfolding serve delete_workloads_handle
serve-IsTable l (put_workload_by_registrant rid wid body) m h =
    put_workload-IsTable l rid wid body m h
serve-IsTable l (get_workload_by_registrant rid wid) m h = h
serve-IsTable l (get_workloads_by_registrant rid) m h = h
serve-IsTable l get_workloads m h = h
serve-IsTable l (delete_workload_by_registrant rid wid) m h =
    delete_workload_handle-IsTable rid wid m h
serve-IsTable l (delete_workloads_by_registrant rid) m h = delete_workloads-IsTable rid m h

MonitorStep-IsTable :
    (s : Surroundings) (m n : Monitor) → MonitorStep s m n → IsTable m.table → IsTable n.table
unfolding send_event_fail report_and_drop
MonitorStep-IsTable _ _ _ (called s m) h = h
MonitorStep-IsTable _ _ _ (counted s wli message n m m' e) h =
    set_restarts-IsTable wli.rid wli.wl.id n m'.table (subst (λ x. IsTable x.table) (sym e) h)
MonitorStep-IsTable _ _ _ (dropped s wli message m) h =
    if_cases IsTable (s.takes (length m.reports)) _ _
      (λ t. delete_workload_by_id-IsTable wli.wl.id m.table h) (λ t. h)

MonitorPath-IsTable :
    (s : Surroundings) (m n : Monitor) → MonitorPath s m n → IsTable m.table → IsTable n.table
MonitorPath-IsTable _ _ _ (stop s m) h = h
MonitorPath-IsTable _ _ _ (step s l m n a p) h =
    MonitorPath-IsTable s m n p (MonitorStep-IsTable s l m a h)

-- Whatever the surroundings answer, a pass of the monitor leaves a well-formed table well formed:
-- entries are filed under their own registrant and their own workload's id, each once.
pub monitor_pass-IsTable :
    (s : Surroundings) (m : Monitor) → IsTable m.table → IsTable (monitor_pass s m).table
monitor_pass-IsTable s m h = MonitorPath-IsTable s m _ (monitor_pass-MonitorPath s m) h
