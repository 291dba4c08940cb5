-- ===== src/Workload/Monitor.antt =====
-- The loop of the workload monitor
-- (StartMonitor of src/tools/extended-test-framework/workload_monitor/wm/workload_monitor.go): one
-- pass over the entries of the list, with the lock held. A report is a call of SendEventFail.
use mayastor_e2e.Prelude.{
  ℕ, suc, String, List, [], ◌∷◌, ◌++◌, none, some, ok, err, panic, Bool, true, false, not, eqb,
  if◌then◌else◌, length, concat,
}
use mayastor_e2e.Kubernetes.{
  PodPhase, pending, pod_running, succeeded, pod_failed, unknown, Pod, Listing, get_pod_by_uuid,
  get_pod_status, get_pod_exists_by_uuid, restart_count,
}
use mayastor_e2e.Workload.{
  Violation, restarted, terminated, not_present, WorkloadListItem, WorkloadMap,
  set_workload_list_item_restarts, get_workload_item_list, delete_workload_by_id,
}

-- What a pass finds outside: the API server's answer to the n-th list call, whether the test director
-- takes the n-th event, and `%d` of a restart count.
pub record Surroundings : Type 0 where
  pub answers : ℕ → Listing
  pub takes : ℕ → Bool
  pub decimal : ℕ → String

pub record Report : Type 0 where
  pub source : String  -- the registrant
  pub message : String
  pub taken : Bool

pub record Monitor : Type 0 where
  pub table : WorkloadMap
  pub calls : ℕ  -- list calls made
  pub reports : List Report

-- Whether the test director took the event, with the event noted.
unfoldable pub send_event_fail : Surroundings → String → String → Monitor → Bool × Monitor
send_event_fail s rid message m =
    let taken = s.takes (length m.reports) in
    (
      taken,
      record m {
        reports = m.reports ++ (record { source = rid; message = message; taken = taken } ∷ []);
      },
    )

-- The answer to the next list call.
unfoldable pub list_pods : Surroundings → Monitor → Listing × Monitor
list_pods s m = (s.answers m.calls, record m { calls = suc m.calls })

abbrev pub is_failed : PodPhase → Bool
is_failed pending = false
is_failed pod_running = false
is_failed succeeded = false
is_failed pod_failed = true
is_failed unknown = false

unfoldable pub restart_text : Surroundings → String → ℕ → String
unfolding concat
restart_text s name n = concat ("pod " ∷ name ∷ " restarted " ∷ s.decimal n ∷ " time(s)" ∷ [])

-- RESTARTED, of a pod that is present: the new count is kept whether or not the event is taken.
unfoldable pub compare_restarts :
    Surroundings → Pod → WorkloadListItem → Monitor → WorkloadListItem × Monitor
unfolding send_event_fail
compare_restarts s pod wli m =
    let n = restart_count pod.restart_counts 0 in
    if eqb n wli.restarts
    then (wli, m)
    else let (_, sent) = send_event_fail s wli.rid (restart_text s wli.wl.name n) m in
      (
        record wli { restarts = n },
        record sent { table = (set_workload_list_item_restarts wli.rid wli.wl.id n sent.table).0 },
      )

unfoldable pub check_restarted :
    Surroundings → WorkloadListItem → Monitor → WorkloadListItem × Monitor
unfolding list_pods
check_restarted s wli m =
    let (l, m1) = list_pods s m in
    elim (get_pod_by_uuid l wli.wl.id) [
      | ok found ↦ elim found [ none ↦ (wli, m1) | some pod ↦ compare_restarts s pod wli m1 ]
      | err e ↦ (wli, m1)
      | panic ↦ (wli, m1)
    ]

-- The event, and if it is taken the workload is no longer watched, for any registrant.
unfoldable pub report_and_drop :
    Surroundings → String → WorkloadListItem → Monitor → WorkloadListItem × Monitor
unfolding send_event_fail
report_and_drop s message wli m =
    let (taken, sent) = send_event_fail s wli.rid message m in
    (
      wli,
      record sent {
        table = if taken then delete_workload_by_id wli.wl.id sent.table else sent.table;
      },
    )

unfoldable pub check_terminated :
    Surroundings → WorkloadListItem → Monitor → WorkloadListItem × Monitor
unfolding list_pods concat
check_terminated s wli m =
    let (l, m1) = list_pods s m in
    elim (get_pod_status l wli.wl.id) [
      | none ↦ (wli, m1)
      | some phase ↦
          if is_failed phase
          then report_and_drop s (concat ("pod " ∷ wli.wl.name ∷ " terminated" ∷ [])) wli m1
          else (wli, m1)
    ]

unfoldable pub check_not_present :
    Surroundings → WorkloadListItem → Monitor → WorkloadListItem × Monitor
unfolding list_pods concat
check_not_present s wli m =
    let (l, m1) = list_pods s m in
    if not (get_pod_exists_by_uuid l wli.wl.id)
    then report_and_drop s (concat ("pod " ∷ wli.wl.name ∷ " absent" ∷ [])) wli m1
    else (wli, m1)

unfoldable pub check_violation :
    Surroundings → Violation → WorkloadListItem → Monitor → WorkloadListItem × Monitor
check_violation s restarted wli m = check_restarted s wli m
check_violation s terminated wli m = check_terminated s wli m
check_violation s not_present wli m = check_not_present s wli m

-- The inner loop: the violations of one entry. `wli` is the loop's copy of the entry.
unfoldable pub check_violations :
    Surroundings → List Violation → WorkloadListItem → Monitor → Monitor
unfolding check_violation
check_violations s [] wli m = m
check_violations s (v ∷ vs) wli m =
    let (wli', m') = check_violation s v wli m in check_violations s vs wli' m'

-- The outer loop, over a copy of the list.
unfoldable pub check_items : Surroundings → List WorkloadListItem → Monitor → Monitor
unfolding check_violations
check_items s [] m = m
check_items s (wli ∷ items) m = check_items s items (check_violations s wli.wl.violations wli m)

-- One pass.
unfoldable pub monitor_pass : Surroundings → Monitor → Monitor
unfolding check_items get_workload_item_list
monitor_pass s m = check_items s (get_workload_item_list m.table) m
