-- ===== src/Workload/MonitorSteps.antt =====
-- A pass of the workload monitor (Workload/Monitor.antt) as a sequence of steps.
use mayastor_e2e.Prelude.{
  ℕ, suc, String, List, [], ◌∷◌, Option, none, some, Outcome, ok, err, panic, ◌≡◌, refl, if_cases,
  eqb, not,
}
use mayastor_e2e.Kubernetes.{
  PodPhase, Pod, get_pod_by_uuid, get_pod_status, get_pod_exists_by_uuid, restart_count,
}
use mayastor_e2e.Workload.{
  Violation, restarted, terminated, not_present, WorkloadListItem, set_workload_list_item_restarts,
  get_workload_item_list,
}
use mayastor_e2e.Workload.Monitor.{
  Surroundings, Monitor, send_event_fail, compare_restarts, check_restarted, report_and_drop,
  check_terminated, check_not_present, check_violation, check_violations, check_items, monitor_pass,
  is_failed,
}

-- What a pass does at a time: list the pods, report a restart and keep the new count, or report a
-- workload and drop it if the report is taken.
pub data MonitorStep : Surroundings → Monitor → Monitor → Type 0 where
  called : (s : Surroundings) (m : Monitor) → MonitorStep s m (record m { calls = suc m.calls })
  counted :
      (s : Surroundings) (wli : WorkloadListItem) (message : String) (n : ℕ) (m m' : Monitor)
      → m' ≡ (send_event_fail s wli.rid message m).1
      → MonitorStep s m
          (record m' { table = (set_workload_list_item_restarts wli.rid wli.wl.id n m'.table).0 })
  dropped :
      (s : Surroundings) (wli : WorkloadListItem) (message : String) (m : Monitor)
      → MonitorStep s m (report_and_drop s message wli m).1

pub data MonitorPath : Surroundings → Monitor → Monitor → Type 0 where
  stop : (s : Surroundings) (m : Monitor) → MonitorPath s m m
  step :
      (s : Surroundings) (l m n : Monitor)
      → MonitorStep s l m
      → MonitorPath s m n
      → MonitorPath s l n

join_paths :
    (s : Surroundings) (l m n : Monitor) → MonitorPath s l m → MonitorPath s m n → MonitorPath s l n
join_paths s _ _ n (stop _ m) q = q
join_paths s _ _ n (step _ l k m a p) q = step s l k n a (join_paths s k m n p q)

one : (s : Surroundings) (m n : Monitor) → MonitorStep s m n → MonitorPath s m n
one s m n a = step s m n n a (stop s n)

compare_restarts-MonitorPath :
    (s : Surroundings) (pod : Pod) (wli : WorkloadListItem) (m : Monitor)
    → MonitorPath s m (compare_restarts s pod wli m).1
unfolding compare_restarts
compare_restarts-MonitorPath s pod wli m =
    if_cases (λ (t : WorkloadListItem × Monitor). MonitorPath s m t.1)
      (eqb (restart_count pod.restart_counts 0) wli.restarts) _ _ (λ e. stop s m)
      (λ e. one s m _ (counted s wli _ _ m _ refl))

check_restarted-MonitorPath :
    (s : Surroundings) (wli : WorkloadListItem) (m : Monitor)
    → MonitorPath s m (check_restarted s wli m).1
unfolding check_restarted get_pod_by_uuid
check_restarted-MonitorPath s wli m = go (get_pod_by_uuid (s.answers m.calls) wli.wl.id) refl
  where
    m1 : Monitor
    m1 = record m { calls = suc m.calls }

    go :
        (o : Outcome (Option Pod))
        → get_pod_by_uuid (s.answers m.calls) wli.wl.id ≡ o
        → MonitorPath s m (check_restarted s wli m).1
    go (ok none) e = rw e (one s m m1 (called s m))
    go (ok (some pod)) e =
        rw e (step s m m1 _ (called s m) (compare_restarts-MonitorPath s pod wli m1))
    go (err t) e = rw e (one s m m1 (called s m))
    go panic e = rw e (one s m m1 (called s m))

check_terminated-MonitorPath :
    (s : Surroundings) (wli : WorkloadListItem) (m : Monitor)
    → MonitorPath s m (check_terminated s wli m).1
unfolding check_terminated
check_terminated-MonitorPath s wli m = go (get_pod_status (s.answers m.calls) wli.wl.id) refl
  where
    m1 : Monitor
    m1 = record m { calls = suc m.calls }

    go :
        (o : Option PodPhase)
        → get_pod_status (s.answers m.calls) wli.wl.id ≡ o
        → MonitorPath s m (check_terminated s wli m).1
    go none e = rw (e, check_terminated) (one s m m1 (called s m))
    go (some phase) e =
        rw (e, check_terminated)
          (if_cases (λ (t : WorkloadListItem × Monitor). MonitorPath s m t.1) (is_failed phase) _ _
            (λ t. step s m m1 _ (called s m) (one s m1 _ (dropped s wli _ m1)))
            (λ t. one s m m1 (called s m)))

check_not_present-MonitorPath :
    (s : Surroundings) (wli : WorkloadListItem) (m : Monitor)
    → MonitorPath s m (check_not_present s wli m).1
unfolding check_not_present
check_not_present-MonitorPath s wli m =
    if_cases (λ (t : WorkloadListItem × Monitor). MonitorPath s m t.1)
      (not (get_pod_exists_by_uuid (s.answers m.calls) wli.wl.id)) _ _
      (λ e. step s m m1 _ (called s m) (one s m1 _ (dropped s wli _ m1)))
      (λ e. one s m m1 (called s m))
  where
    m1 : Monitor
    m1 = record m { calls = suc m.calls }

check_violation-MonitorPath :
    (s : Surroundings) (v : Violation) (wli : WorkloadListItem) (m : Monitor)
    → MonitorPath s m (check_violation s v wli m).1
unfolding check_violation check_restarted
check_violation-MonitorPath s restarted wli m = check_restarted-MonitorPath s wli m
check_violation-MonitorPath s terminated wli m = check_terminated-MonitorPath s wli m
check_violation-MonitorPath s not_present wli m = check_not_present-MonitorPath s wli m

check_violations-MonitorPath :
    (s : Surroundings) (vs : List Violation) (wli : WorkloadListItem) (m : Monitor)
    → MonitorPath s m (check_violations s vs wli m)
unfolding check_violations
check_violations-MonitorPath s [] wli m = stop s m
check_violations-MonitorPath s (v ∷ vs) wli m =
    join_paths s m _ _ (check_violation-MonitorPath s v wli m)
      (check_violations-MonitorPath s vs _ _)

check_items-MonitorPath :
    (s : Surroundings) (items : List WorkloadListItem) (m : Monitor)
    → MonitorPath s m (check_items s items m)
unfolding check_items
check_items-MonitorPath s [] m = stop s m
check_items-MonitorPath s (wli ∷ items) m =
    join_paths s m _ _ (check_violations-MonitorPath s wli.wl.violations wli m)
      (check_items-MonitorPath s items _)

-- A pass of the monitor is a sequence of steps, each of which lists the pods, or reports a restart
-- and keeps the new count, or reports a workload and drops it if the report is taken.
pub monitor_pass-MonitorPath : (s : Surroundings) (m : Monitor) → MonitorPath s m (monitor_pass s m)
unfolding monitor_pass
monitor_pass-MonitorPath s m = check_items-MonitorPath s (get_workload_item_list m.table) m
