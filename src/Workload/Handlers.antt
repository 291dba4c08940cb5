-- ===== src/Workload/Handlers.antt =====
-- The requests of the workload monitor
-- (src/tools/extended-test-framework/workload_monitor/handlers/workload_handler.go). Each handler
-- holds the list's lock around its use of the list, so they are taken one at a time.
use mayastor_e2e.Prelude.{ℕ, String, List, Option, none, some, ok, err, panic}
use mayastor_e2e.Kubernetes.{Listing, get_pod_name_and_namespace}
use mayastor_e2e.Workload.{
  Violation, Workload, WorkloadMap, add_to_workload_list, get_workload, delete_workload,
  delete_workloads, get_workload_list_by_registrant, get_workload_list,
}

pub data Request : Type 0 where
  put_workload_by_registrant : String → String → Option (List Violation) → Request
  get_workload_by_registrant : String → String → Request
  get_workloads_by_registrant : String → Request
  get_workloads : Request
  delete_workload_by_registrant : String → String → Request
  delete_workloads_by_registrant : String → Request

pub data Response : Type 0 where
  found : Workload → Response
  found_all : List Workload → Response
  affected : ℕ → Response
  not_found crash : Response
  refused : String → Response

-- PutWorkloadByRegistrant: the pod gives the workload's name and namespace. With an error the list
-- is left.
unfoldable pub put_workload :
    Listing → String → String → Option (List Violation) → WorkloadMap → Response × WorkloadMap
put_workload l rid wid none m = (refused "Body not provided", m)
put_workload l rid wid (some violations) m = elim (get_pod_name_and_namespace l wid) [
  | ok (name, namespace) ↦
      let wl : Workload = record {
        id = wid;
        name = name;
        namespace = namespace;
        violations = violations;
      } in
      (found wl, add_to_workload_list wl rid wid m)
  | err e ↦ (refused e, m)
  | panic ↦ (crash, m)
]

-- GetWorkloadByRegistrant
unfoldable pub get_workload_handle : String → String → WorkloadMap → Response
get_workload_handle rid wid m = elim (get_workload rid wid m) [
  | none ↦ not_found
  | some wl ↦ found wl
]

-- DeleteWorkloadByRegistrant
unfoldable pub delete_workload_handle : String → String → WorkloadMap → Response × WorkloadMap
delete_workload_handle rid wid m = elim (get_workload rid wid m) [
  | none ↦ (not_found, m)
  | some wl ↦ (found wl, delete_workload rid wid m)
]

-- DeleteWorkloadsByRegistrant
unfoldable pub delete_workloads_handle : String → WorkloadMap → Response × WorkloadMap
delete_workloads_handle rid m = let (n, left) = delete_workloads rid m in (affected n, left)

-- The handler of each request, where the API server answers a list call with `l`.
unfoldable pub serve : Listing → Request → WorkloadMap → Response × WorkloadMap
serve l (put_workload_by_registrant rid wid body) m = put_workload l rid wid body m
serve l (get_workload_by_registrant rid wid) m = (get_workload_handle rid wid m, m)
serve l (get_workloads_by_registrant rid) m = (found_all (get_workload_list_by_registrant rid m), m)
serve l get_workloads m = (found_all (get_workload_list m), m)
serve l (delete_workload_by_registrant rid wid) m = delete_workload_handle rid wid m
serve l (delete_workloads_by_registrant rid) m = delete_workloads_handle rid m
