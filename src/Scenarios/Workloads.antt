-- ===== src/Scenarios/Workloads.antt =====
-- The properties of the workload monitor at concrete inputs.
use mayastor_e2e.Prelude.{
  List, ◌≡◌, refl, ok, [], ◌∷◌, ◌++◌, some, none, Bool, true, false, if◌then◌else◌, eqb,
}
use mayastor_e2e.GoMap.{lookup}
use mayastor_e2e.Kubernetes.{
  Pod, pod_running, Listing, listed, failed, find_pod, get_pod_by_uuid, restart_count,
}
use mayastor_e2e.Workload.{
  restarted, not_present, Workload, WorkloadListItem, WorkloadMap, get_item, get_workload,
}
use mayastor_e2e.Workload.Table.{IsTable}
use mayastor_e2e.Workload.Handlers.{put_workload_by_registrant}
use mayastor_e2e.Workload.Monitor.{
  Surroundings, Report, Monitor, restart_text, check_restarted, monitor_pass,
}
use mayastor_e2e.Workload.Entries.{entries}
use mayastor_e2e.Workload.PassSteps.{PassPath, monitor_pass-PassPath}
use mayastor_e2e.Workload.System.{Turn, request, pass, take_turns, started, system-IsTable}
use mayastor_e2e.Workload.Watch.{monitor_pass-get_workload}
use mayastor_e2e.Workload.Restarts.{check_restarted_lem}

abbrev pub pod : Pod
pod = record {
  uid = "w1";
  name = "io-engine";
  namespace = "mayastor";
  app_label = none;
  phase = pod_running;
  restart_counts = 1 ∷ 2 ∷ [];
}

abbrev pub workload : Workload
workload = record {
  id = "w1";
  name = "io-engine";
  namespace = "mayastor";
  violations = restarted ∷ not_present ∷ [];
}

abbrev item : WorkloadListItem
item = record { restarts = 0; wl = workload; rid = "r1" }

abbrev table : WorkloadMap
table = ("r1", ("w1", item) ∷ []) ∷ []

table-IsTable : IsTable table
unfolding lookup
table-IsTable = ((refl, ((refl, refl, refl), tt)), tt)

item_there : get_item "r1" "w1" table ≡ some item
unfolding get_item lookup
item_there = refl

-- The API server lists the pod or fails; the test director takes every event or none.
abbrev surroundings : Listing → Bool → Surroundings
surroundings l taken = record { answers = λ n. l; takes = λ n. taken; decimal = λ n. "3" }

abbrev monitor : Monitor
monitor = record { table = table; calls = 0; reports = [] }

pod_found : get_pod_by_uuid (listed (pod ∷ [])) "w1" ≡ ok (some pod)
unfolding get_pod_by_uuid find_pod
pod_found = refl

monitor_pass-PassPath_example :
    let s = surroundings (failed "timeout") true in
    PassPath s (entries table) monitor (monitor_pass s monitor)
monitor_pass-PassPath_example = monitor_pass-PassPath (surroundings (failed "timeout") true) monitor

monitor_pass-get_workload_example :
    get_workload "r1" "w1" (monitor_pass (surroundings (listed []) false) monitor).table
    ≡ get_workload "r1" "w1" table
monitor_pass-get_workload_example =
    monitor_pass-get_workload (surroundings (listed []) false) monitor (λ k. refl) "r1" "w1"

pod_first : find_pod "w1" (pod ∷ []) ≡ some pod
unfolding find_pod
pod_first = refl

check_restarted_lem_example :
    let n = restart_count (1 ∷ 2 ∷ []) 0 in
    let (wli', m') = check_restarted (surroundings (listed (pod ∷ [])) false) item monitor in
    let report : Report = record {
      source = "r1";
      message = restart_text (surroundings (listed (pod ∷ [])) false) "io-engine" n;
      taken = false;
    } in
    (get_item "r1" "w1" m'.table ≡ some (record item { restarts = n }))
    × (m'.reports ≡ (if eqb n 0 then [] else [] ++ (report ∷ [])))
    × (wli' ≡ record item { restarts = n })
check_restarted_lem_example =
    check_restarted_lem (surroundings (listed (pod ∷ [])) false) item pod monitor pod_found
      item_there

-- A pod is listed, a pass finds its restarts, and the pod disappears.
abbrev turns : List Turn
turns =
    request (listed (pod ∷ []))
      (put_workload_by_registrant "r1" "w1" (some (restarted ∷ not_present ∷ [])))
    ∷ pass (surroundings (listed (pod ∷ [])) false)
    ∷ pass (surroundings (listed []) true)
    ∷ []

system-IsTable_example : IsTable (take_turns turns started).table
system-IsTable_example = system-IsTable turns
