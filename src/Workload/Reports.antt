-- ===== src/Workload/Reports.antt =====
-- What the check of absence reports and deletes (StartMonitor of
-- src/tools/extended-test-framework/workload_monitor/wm/workload_monitor.go), and what a listed
-- workload is (handlers/workload_handler.go).
use mayastor_e2e.Prelude.{
  String, List, [], ◌∷◌, ◌++◌, none, some, true, ◌≡◌, refl, length, ◌==◌, ◌&&◌, if◌then◌else◌,
  concat,
}
use mayastor_e2e.Kubernetes.{
  Pod, listed, failed, find_pod, get_pod_by_uuid, get_pod_exists_by_uuid,
  get_pod_name_and_namespace,
}
use mayastor_e2e.Workload.{Violation, Workload, WorkloadListItem, WorkloadMap, get_item}
use mayastor_e2e.Workload.Table.{IsTable}
use mayastor_e2e.Workload.ListLaws.{get_item-add, get_item-delete_by_id}
use mayastor_e2e.Workload.Handlers.{found, put_workload}
use mayastor_e2e.Workload.Monitor.{
  Surroundings, Report, Monitor, send_event_fail, report_and_drop, check_not_present, list_pods,
}

-- If the API server lists a pod with the workload's id, the workload is listed with the first such
-- pod's name and namespace and no restarts, under its registrant and id; the answer holds it, and
-- no other entry changes.
pub put_workload_lem :
    (pods : List Pod) (pod : Pod) (rid wid r w : String) (vs : List Violation) (m : WorkloadMap)
    → find_pod wid pods ≡ some pod
    → let (response, m') = put_workload (listed pods) rid wid (some vs) m in
      let wl : Workload = record {
        id = wid;
        name = pod.name;
        namespace = pod.namespace;
        violations = vs;
      } in
      (response ≡ found wl)
      × (get_item r w m' ≡ (
          if rid == r && wid == w
          then some (record { restarts = 0; wl = wl; rid = rid })
          else get_item r w m))
unfolding put_workload get_pod_name_and_namespace get_pod_by_uuid
put_workload_lem pods pod rid wid r w vs m e =
    rw (e, put_workload) (refl, get_item-add _ rid wid r w m)

-- In a well-formed table: where the API server fails a list call, a workload that is watched for
-- absence is reported absent; if the report is taken, its entry is deleted for every registrant,
-- and no other entry is.
pub check_not_present_unreachable :
    (s : Surroundings) (wli : WorkloadListItem) (m : Monitor) (e r w : String)
    → s.answers m.calls ≡ failed e
    → s.takes (length m.reports) ≡ true
    → IsTable m.table
    → let m' = (check_not_present s wli m).1 in
      let report : Report = record {
        source = wli.rid;
        message = concat ("pod " ∷ wli.wl.name ∷ " absent" ∷ []);
        taken = true;
      } in
      (m'.reports ≡ m.reports ++ (report ∷ []))
      × (get_item r w m'.table ≡ (if wli.wl.id == w then none else get_item r w m.table))
unfolding check_not_present report_and_drop send_event_fail list_pods get_pod_exists_by_uuid
    get_pod_by_uuid concat
check_not_present_unreachable s wli m e r w a t h =
    rw (a, t) (refl, get_item-delete_by_id wli.wl.id r w m.table h)
