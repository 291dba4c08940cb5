-- ===== src/Workload/Watch.antt =====
-- The workloads that a pass of the monitor goes on watching (StartMonitor of
-- src/tools/extended-test-framework/workload_monitor/wm/workload_monitor.go).
use mayastor_e2e.Prelude.{ℕ, String, Option, false, arith, ◌≡◌, refl, ap, ◌∙◌, length, eq_iff}
use mayastor_e2e.Workload.{
  WorkloadListItem, WorkloadMap, get_item, set_workload_list_item_restarts, get_workload,
}
use mayastor_e2e.Workload.ListLaws.{get_item-set_restarts}
use mayastor_e2e.Workload.Monitor.{
  Surroundings, Monitor, send_event_fail, report_and_drop, monitor_pass,
}
use mayastor_e2e.Workload.MonitorSteps.{
  MonitorStep, called, counted, dropped, MonitorPath, stop, step, monitor_pass-MonitorPath,
}
use mayastor_e2e.Workload.ListLaws.{get_item-set_restarts}

get_workload-set_restarts :
    (r w r' w' : String) (n : ℕ) (m : WorkloadMap)
    → get_workload r' w' (set_workload_list_item_restarts r w n m).0 ≡ get_workload r' w' m
unfolding get_workload
get_workload-set_restarts r w r' w' n m = go (get_item r w m) refl
  where
    go :
        (o : Option WorkloadListItem)
        → get_item r w m ≡ o
        → get_workload r' w' (set_workload_list_item_restarts r w n m).0 ≡ get_workload r' w' m
    go o e = ground (arith, eq_iff r r', eq_iff w w', (get_item-set_restarts r w r' w' n m).0)

MonitorStep-get_workload :
    (s : Surroundings) (m n : Monitor)
    → MonitorStep s m n
    → ((k : ℕ) → s.takes k ≡ false)
    → (r w : String) → get_workload r w n.table ≡ get_workload r w m.table
unfolding send_event_fail report_and_drop
MonitorStep-get_workload _ _ _ (called s m) quiet r w = refl
MonitorStep-get_workload _ _ _ (counted s wli message n m m' e) quiet r w =
    get_workload-set_restarts wli.rid wli.wl.id r w n m'.table
    ∙ ap (λ x. get_workload r w x.table) e
MonitorStep-get_workload _ _ _ (dropped s wli message m) quiet r w =
    rw (quiet (length m.reports)) refl

MonitorPath-get_workload :
    (s : Surroundings) (m n : Monitor)
    → MonitorPath s m n
    → ((k : ℕ) → s.takes k ≡ false)
    → (r w : String) → get_workload r w n.table ≡ get_workload r w m.table
MonitorPath-get_workload _ _ _ (stop s m) quiet r w = refl
MonitorPath-get_workload _ _ _ (step s l m n a p) quiet r w =
    MonitorPath-get_workload s m n p quiet r w ∙ MonitorStep-get_workload s l m a quiet r w

-- While the test director takes no event, a pass of the monitor forgets no workload and adds none:
-- whatever the API server answers, each registrant has the workloads that it had.
pub monitor_pass-get_workload :
    (s : Surroundings) (m : Monitor)
    → ((k : ℕ) → s.takes k ≡ false)
    → (r w : String) → get_workload r w (monitor_pass s m).table ≡ get_workload r w m.table
monitor_pass-get_workload s m quiet r w =
    MonitorPath-get_workload s m _ (monitor_pass-MonitorPath s m) quiet r w
