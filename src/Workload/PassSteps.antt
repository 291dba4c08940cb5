-- ===== src/Workload/PassSteps.antt =====
-- A pass of the workload monitor (Workload/Monitor.antt) against a description of it: one check for each
-- violation of each entry, with what the check may do.
use mayastor_e2e.Prelude.{
  ℕ, suc, String, List, [], ◌∷◌, ◌++◌, Option, none, some, Outcome, ok, err, panic, Bool, true,
  false, ◌≡◌, ◌≢◌, refl, sym, subst, ◌∙◌, arith, if◌then◌else◌, eqb, length, concat, ◌==◌, ◌&&◌,
  map_option,
}
use mayastor_e2e.Kubernetes.{
  PodPhase, pending, pod_running, succeeded, pod_failed, unknown, Pod, Listing, get_pod_by_uuid,
  get_pod_status, get_pod_exists_by_uuid, restart_count,
}
use mayastor_e2e.Kubernetes.Lookup.{
  IsThere, IsAbsent, get_pod_by_uuid-IsThere, get_pod_by_uuid_there, get_pod_status-failed,
  get_pod_status_there, get_pod_exists_by_uuid-true, get_pod_exists_by_uuid-false,
}
use mayastor_e2e.Workload.ListLaws.{get_item-set_restarts}
use mayastor_e2e.Workload.Entries.{
  entries, Without, get_workload_item_list-entries, delete_workload_by_id-Without,
}
use mayastor_e2e.Workload.{
  Violation, restarted, terminated, not_present, WorkloadListItem, WorkloadMap, get_item,
  get_workload_item_list, delete_workload_by_id,
}
use mayastor_e2e.Workload.Monitor.{
  Surroundings, Monitor, send_event_fail, restart_text, compare_restarts, check_restarted,
  report_and_drop, check_terminated, check_not_present, check_violation, check_violations,
  check_items, monitor_pass,
}

-- The pods that are listed show no violation of the kind.
abbrev pub IsFine : Violation → WorkloadListItem → Listing → Type 0
IsFine restarted wli l =
    (pod : Pod) → IsThere wli.wl.id l pod → restart_count pod.restart_counts 0 ≡ wli.restarts
IsFine terminated wli l = (pod : Pod) → IsThere wli.wl.id l pod → pod.phase ≢ pod_failed
IsFine not_present wli l = (pod : Pod) × IsThere wli.wl.id l pod

-- The pod has failed, or is not listed (or no list could be had), and the message says so.
abbrev pub IsLost : Violation → WorkloadListItem → Listing → String → Type 0
IsLost restarted wli l message = ⊥
IsLost terminated wli l message =
    ((pod : Pod) × IsThere wli.wl.id l pod × (pod.phase ≡ pod_failed))
    × (message ≡ concat ("pod " ∷ wli.wl.name ∷ " terminated" ∷ []))
IsLost not_present wli l message =
    IsAbsent wli.wl.id l × (message ≡ concat ("pod " ∷ wli.wl.name ∷ " absent" ∷ []))

-- What becomes of the table with a report of a workload that is lost: its entries are dropped if the
-- report is taken.
abbrev pub IsPruned : Bool → String → WorkloadMap → WorkloadMap → Type 0
IsPruned true id m m' = Without id (entries m) (entries m')
IsPruned false id m m' = m' ≡ m

-- The second table has the number for the restarts of the entry, if it is there, and is otherwise as
-- the first.
abbrev pub IsRecounted : WorkloadListItem → ℕ → WorkloadMap → WorkloadMap → Type 0
IsRecounted wli n m m' =
    (r w : String)
    → get_item r w m' ≡ (
        if wli.rid == r && wli.wl.id == w
        then map_option (λ (i : WorkloadListItem). record i { restarts = n })
            (get_item wli.rid wli.wl.id m)
        else get_item r w m)

-- The monitor after a list call and a report, with the table that it then has.
abbrev pub reported : Surroundings → String → String → WorkloadMap → Monitor → Monitor
reported s rid message table m = record {
  table = table;
  calls = suc m.calls;
  reports =
      m.reports
      ++ (record { source = rid; message = message; taken = s.takes (length m.reports) } ∷ []);
}

-- The check of one violation of an entry lists the pods. Where they show none, it does no more. A count
-- of restarts that is not the entry's is reported, and kept in the table and in the loop's copy of the
-- entry. A pod that has failed or is not there is reported, and its workload dropped if and only if the
-- report is taken.
pub data PassStep (s : Surroundings)
    : Violation → WorkloadListItem → WorkloadListItem → Monitor → Monitor → Type 0 where
  fine :
      (v : Violation) (wli : WorkloadListItem) (m : Monitor)
      → IsFine v wli (s.answers m.calls)
      → PassStep s v wli wli m (record m { calls = suc m.calls })
  recounted :
      (wli : WorkloadListItem) (pod : Pod) (n : ℕ) (table : WorkloadMap) (m : Monitor)
      → IsThere wli.wl.id (s.answers m.calls) pod
      → n ≡ restart_count pod.restart_counts 0
      → n ≢ wli.restarts
      → IsRecounted wli n m.table table
      → PassStep s restarted wli
          (record wli { restarts = n })
          m
          (reported s wli.rid (restart_text s wli.wl.name n) table m)
  lost :
      (v : Violation) (wli : WorkloadListItem) (message : String) (table : WorkloadMap)
      (m : Monitor)
      → IsLost v wli (s.answers m.calls) message
      → IsPruned (s.takes (length m.reports)) wli.wl.id m.table table
      → PassStep s v wli wli m (reported s wli.rid message table m)

-- The checks of an entry: its violations, one after the other.
pub data EntryPath (s : Surroundings)
    : List Violation → WorkloadListItem → Monitor → Monitor → Type 0 where
  checked : (wli : WorkloadListItem) (m : Monitor) → EntryPath s [] wli m m
  check :
      (v : Violation) (vs : List Violation) (wli wli' : WorkloadListItem) (m m' n : Monitor)
      → PassStep s v wli wli' m m'
      → EntryPath s vs wli' m' n
      → EntryPath s (v ∷ vs) wli m n

-- The checks of a list of entries, one after the other.
pub data PassPath (s : Surroundings) : List WorkloadListItem → Monitor → Monitor → Type 0 where
  passed : (m : Monitor) → PassPath s [] m m
  entry :
      (wli : WorkloadListItem) (items : List WorkloadListItem) (m m' n : Monitor)
      → EntryPath s wli.wl.violations wli m m'
      → PassPath s items m' n
      → PassPath s (wli ∷ items) m n

same : (p q : Pod) → ok (some p) ≡ ok (some q) → p ≡ q
same p q h = cc h

pruned :
    (b : Bool) (id : String) (m : WorkloadMap)
    → IsPruned b id m (if b then delete_workload_by_id id m else m)
pruned true id m = delete_workload_by_id-Without id m
pruned false id m = refl

module _ (s : Surroundings) where
  abbrev Did : Violation → WorkloadListItem → Monitor → WorkloadListItem × Monitor → Type 0
  Did v wli m t = PassStep s v wli t.0 m t.1

  check_restarted-PassStep :
      (wli : WorkloadListItem) (m : Monitor) → Did restarted wli m (check_restarted s wli m)
  unfolding check_restarted compare_restarts send_event_fail
  check_restarted-PassStep wli m = go (get_pod_by_uuid (s.answers m.calls) wli.wl.id) refl
    where
      compared :
          (pod : Pod) (b : Bool)
          → get_pod_by_uuid (s.answers m.calls) wli.wl.id ≡ ok (some pod)
          → eqb (restart_count pod.restart_counts 0) wli.restarts ≡ b
          → Did restarted wli m (check_restarted s wli m)
      compared pod true e q =
          rw (check_restarted, e, compare_restarts, q)
            (fine restarted wli m (λ x r.
              subst (λ (y : Pod). restart_count y.restart_counts 0 ≡ wli.restarts)
                (same pod x (sym e ∙ get_pod_by_uuid_there _ _ x r)) (ground (arith, q))))
      compared pod false e q =
          rw (check_restarted, e, compare_restarts, q)
            (recounted wli pod _ _ m (get_pod_by_uuid-IsThere _ _ pod e) refl
              (λ r. ground (arith, q, r))
              (λ r w. (get_item-set_restarts wli.rid wli.wl.id r w _ m.table).0))

      go :
          (o : Outcome (Option Pod))
          → get_pod_by_uuid (s.answers m.calls) wli.wl.id ≡ o
          → Did restarted wli m (check_restarted s wli m)
      go (ok none) e =
          rw (check_restarted, e)
            (fine restarted wli m (λ pod q. cc (e, get_pod_by_uuid_there _ _ pod q)))
      go (err t) e =
          rw (check_restarted, e)
            (fine restarted wli m (λ pod q. cc (e, get_pod_by_uuid_there _ _ pod q)))
      go panic e =
          rw (check_restarted, e)
            (fine restarted wli m (λ pod q. cc (e, get_pod_by_uuid_there _ _ pod q)))
      go (ok (some pod)) e =
          compared pod (eqb (restart_count pod.restart_counts 0) wli.restarts) e refl

  check_terminated-PassStep :
      (wli : WorkloadListItem) (m : Monitor) → Did terminated wli m (check_terminated s wli m)
  unfolding check_terminated report_and_drop send_event_fail
  check_terminated-PassStep wli m = go (get_pod_status (s.answers m.calls) wli.wl.id) refl
    where
      go :
          (o : Option PodPhase)
          → get_pod_status (s.answers m.calls) wli.wl.id ≡ o
          → Did terminated wli m (check_terminated s wli m)
      go none e =
          rw (check_terminated, e)
            (fine terminated wli m (λ pod t q. cc (e, get_pod_status_there _ _ pod t, q)))
      go (some pending) e =
          rw (check_terminated, e)
            (fine terminated wli m (λ pod t q. cc (e, get_pod_status_there _ _ pod t, q)))
      go (some pod_running) e =
          rw (check_terminated, e)
            (fine terminated wli m (λ pod t q. cc (e, get_pod_status_there _ _ pod t, q)))
      go (some succeeded) e =
          rw (check_terminated, e)
            (fine terminated wli m (λ pod t q. cc (e, get_pod_status_there _ _ pod t, q)))
      go (some unknown) e =
          rw (check_terminated, e)
            (fine terminated wli m (λ pod t q. cc (e, get_pod_status_there _ _ pod t, q)))
      go (some pod_failed) e =
          rw (check_terminated, e)
            (lost terminated wli _ _ m (get_pod_status-failed _ _ e, refl)
              (pruned _ wli.wl.id m.table))

  check_not_present-PassStep :
      (wli : WorkloadListItem) (m : Monitor) → Did not_present wli m (check_not_present s wli m)
  unfolding check_not_present report_and_drop send_event_fail
  check_not_present-PassStep wli m = go (get_pod_exists_by_uuid (s.answers m.calls) wli.wl.id) refl
    where
      go :
          (b : Bool)
          → get_pod_exists_by_uuid (s.answers m.calls) wli.wl.id ≡ b
          → Did not_present wli m (check_not_present s wli m)
      go true e =
          rw (check_not_present, e) (fine not_present wli m (get_pod_exists_by_uuid-true _ _ e))
      go false e =
          rw (check_not_present, e)
            (lost not_present wli _ _ m (get_pod_exists_by_uuid-false _ _ e, refl)
              (pruned _ wli.wl.id m.table))

  check_violation-PassStep :
      (v : Violation) (wli : WorkloadListItem) (m : Monitor)
      → Did v wli m (check_violation s v wli m)
  unfolding check_violation
  check_violation-PassStep restarted wli m = check_restarted-PassStep wli m
  check_violation-PassStep terminated wli m = check_terminated-PassStep wli m
  check_violation-PassStep not_present wli m = check_not_present-PassStep wli m

  check_violations-EntryPath :
      (vs : List Violation) (wli : WorkloadListItem) (m : Monitor)
      → EntryPath s vs wli m (check_violations s vs wli m)
  unfolding check_violations
  check_violations-EntryPath [] wli m = checked wli m
  check_violations-EntryPath (v ∷ vs) wli m =
      check v vs wli _ m _ _ (check_violation-PassStep v wli m) (check_violations-EntryPath vs _ _)

  check_items-PassPath :
      (items : List WorkloadListItem) (m : Monitor) → PassPath s items m (check_items s items m)
  unfolding check_items
  check_items-PassPath [] m = passed m
  check_items-PassPath (wli ∷ items) m =
      entry wli items m _ _ (check_violations-EntryPath wli.wl.violations wli m)
        (check_items-PassPath items _)

-- A pass of the monitor checks each violation of each entry that the table has at its start, once and
-- in order, and does what a check may do: where the pods that are then listed show no violation,
-- nothing; a changed count of restarts is reported and kept; a pod that has failed is reported as
-- terminated, and one that is not listed, or where no list could be had, as absent, and then the
-- entries of its workload are dropped from the table if and only if the report is taken.
pub monitor_pass-PassPath :
    (s : Surroundings) (m : Monitor) → PassPath s (entries m.table) m (monitor_pass s m)
unfolding monitor_pass
monitor_pass-PassPath s m =
    rw (sym (get_workload_item_list-entries m.table))
      (check_items-PassPath s (get_workload_item_list m.table) m)
