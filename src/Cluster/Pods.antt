-- ===== src/Cluster/Pods.antt =====
-- The pods of the product and of the tests (src/common/k8stest/util_testpods.go): what is said of their
-- health, and the restart of the product. A wait in seconds is not negative; what is asked for again
-- while it is waited for takes the n-th answer at its n-th time.
pub mod Laws
use mayastor_e2e.Prelude.{
  ℕ, zero, suc, ◌+◌, ◌-◌, String, ◌==◌, List, [], ◌∷◌, ◌++◌, Option, none, some, Outcome, ok, err,
  panic, Bool, true, false, not, ◌&&◌, ◌||◌, if◌then◌else◌, eqb, leb, concat, join, length,
  has_prefix, ℤ, is_zero,
}
use Prim.Native.Nat.{◌/◌}
use mayastor_e2e.Kubernetes.{
  PodPhase, pending, pod_running, succeeded, pod_failed, unknown, is_running,
}
use mayastor_e2e.GoMap.{insert}
use mayastor_e2e.Cluster.Cleanup.{is_swept}

-- Why a container is no longer running: the reason and the exit code.
pub record Terminated : Type 0 where
  pub reason : String
  pub exit_code : ℤ

pub record ContainerStatus : Type 0 where
  pub name : String
  pub ready : Bool
  pub terminated : Option Terminated
  pub restart_count : ℕ  -- int32, never negative

pub record Pod : Type 0 where
  pub name : String
  pub node : String
  pub phase : PodPhase
  pub created : ℕ
  pub deleted : Bool
  pub containers : List ContainerStatus

-- IsPodWithLabelsRunning: the loop, with the name of the last pod that it has seen.
unfoldable pub running_pod : List Pod → String → String × Bool
running_pod [] last = (last, false)
running_pod (p ∷ ps) last =
    let rest = running_pod ps p.name in if is_running p.phase then (p.name, true) else rest

-- ForceDeleteTerminatingPods: the pods that it deletes, up to the first that it cannot delete.
unfoldable pub force_delete : (String → Option String) → List Pod → List String × Option String
force_delete delete [] = ([], none)
force_delete delete (p ∷ ps) =
    let (names, e) = force_delete delete ps in
    if p.deleted
    then (elim (delete p.name) [ some e' ↦ (p.name ∷ [], some e') | none ↦ (p.name ∷ names, e) ])
    else (names, e)

unfoldable pub force_delete_terminating_pods :
    (String → Option String) → Outcome (List Pod) → Outcome (List String × Option String)
force_delete_terminating_pods delete (ok pods) = ok (force_delete delete pods)
force_delete_terminating_pods delete (err e) = ok ([], some e)
force_delete_terminating_pods delete panic = panic

-- IsPodRunning, by the phase of the pod where it can be read.
unfoldable pub is_pod_running : Option PodPhase → Bool
is_pod_running none = false
is_pod_running (some phase) = is_running phase

-- WaitPodRunning: the rounds of three seconds, rounded up, and the last look.
unfoldable pub running_rounds : (left n : ℕ) → (ℕ → Option PodPhase) → ℕ
running_rounds zero n answer = n
running_rounds (suc left) n answer =
    let rest = running_rounds left (suc n) answer in
    if is_pod_running (answer n) then suc n else rest

unfoldable pub wait_pod_running : ℕ → (ℕ → Option PodPhase) → Bool
wait_pod_running seconds answer =
    is_pod_running (answer (running_rounds ((seconds + 3 - 1) / 3) 0 answer))

-- isPodHealthCheckCandidate, where `product` is the namespace of the product.
unfoldable pub is_pod_health_check_candidate : (product name namespace : String) → Bool
is_pod_health_check_candidate product name namespace =
    if namespace == product then not (has_prefix "mayastor-etcd" name) else true

-- The phases that CheckTestPodsHealth reports, as they are printed.
unfoldable pub bad_phase : PodPhase → Option String
bad_phase pending = none
bad_phase pod_running = none
bad_phase succeeded = none
bad_phase pod_failed = some "Failed"
bad_phase unknown = some "Unknown"

-- CheckTestPodsHealth: the loop over the containers of a pod, where `decimal` is what `%d` prints.
unfoldable pub restart_error : (ℕ → String) → String → ℕ → List String
restart_error decimal name count =
    if eqb count 0 then [] else concat (name ∷ " restarted " ∷ decimal count ∷ " times" ∷ []) ∷ []

unfoldable pub phase_error : String → PodPhase → List String
phase_error name phase = elim (bad_phase phase) [
  | none ↦ []
  | some text ↦ concat (name ∷ " phase is " ∷ text ∷ []) ∷ []
]

unfoldable pub container_errors :
    (ℕ → String) → String → PodPhase → List ContainerStatus → List String
container_errors decimal name phase [] = []
container_errors decimal name phase (c ∷ cs) =
    restart_error decimal name c.restart_count
    ++ (phase_error name phase ++ container_errors decimal name phase cs)

-- CheckTestPodsHealth: the loop over the pods.
unfoldable pub pod_errors : (ℕ → String) → (product namespace : String) → List Pod → List String
pod_errors decimal product namespace [] = []
pod_errors decimal product namespace (p ∷ ps) =
    let rest = pod_errors decimal product namespace ps in
    if is_pod_health_check_candidate product p.name namespace
    then container_errors decimal p.name p.phase p.containers ++ rest
    else rest

unfoldable pub joined_errors : List String → Option String
joined_errors [] = none
joined_errors (e ∷ es) = some (join "; " (e ∷ es))

-- CheckTestPodsHealth; `none` is a list call that fails.
unfoldable pub check_test_pods_health :
    (ℕ → String) → (product namespace : String) → Option (List Pod) → Option String
check_test_pods_health decimal product namespace none = some "failed to list pods"
check_test_pods_health decimal product namespace (some pods) =
    joined_errors (pod_errors decimal product namespace pods)

-- CheckPodContainerCompleted: the loop, and the phase of the pod where no container decides.
unfoldable pub completed_phase : String → List ContainerStatus → PodPhase → PodPhase
completed_phase name [] phase = phase
completed_phase name (c ∷ cs) phase =
    let rest = completed_phase name cs phase in
    if c.name == name && not c.ready
    then (elim c.terminated [
      | none ↦ rest
      | some t ↦
          if t.reason == "Completed"
          then (if is_zero t.exit_code then succeeded else pod_failed)
          else rest
    ])
    else rest

unfoldable pub check_pod_container_completed :
    String → Outcome Pod → Outcome (PodPhase × Option String)
check_pod_container_completed name (ok p) = ok (completed_phase name p.containers p.phase, none)
check_pod_container_completed name (err e) = ok (unknown, some e)
check_pod_container_completed name panic = panic

-- listMayastorPods: whether a pod counts, by the timestamp where there is one.
unfoldable pub is_counted : Option ℕ → Pod → Bool
is_counted none p = true
is_counted (some timestamp) p = is_running p.phase && leb (suc timestamp) p.created

unfoldable pub product_pods : Option ℕ → List Pod → List String
product_pods timestamp [] = []
product_pods timestamp (p ∷ ps) =
    let rest = product_pods timestamp ps in
    if not (has_prefix "mayastor-etcd" p.name) && is_counted timestamp p
    then p.name ∷ rest
    else rest

unfoldable pub list_mayastor_pods : Option ℕ → Outcome (List Pod) → Outcome (List String)
list_mayastor_pods timestamp (ok pods) = ok (product_pods timestamp pods)
list_mayastor_pods timestamp (err e) = err e
list_mayastor_pods timestamp panic = panic

-- GetCoreAgentNodeName: the loop.
unfoldable pub core_agent_node : List Pod → String
core_agent_node [] = ""
core_agent_node (p ∷ ps) =
    let rest = core_agent_node ps in
    if has_prefix "core-agent" p.name && is_running p.phase then p.node else rest

-- GetNodeListForPods: the phase of the last pod on each node.
unfoldable pub phases_by_node : List Pod → List (String × PodPhase) → List (String × PodPhase)
phases_by_node [] m = m
phases_by_node (p ∷ ps) m = phases_by_node ps (insert p.node p.phase m)

-- CheckForTestPods: whether a namespace that is swept has pods, by their number where they can be listed.
unfoldable pub has_test_pods : (String → Option ℕ) → List String → Bool → Bool
has_test_pods pods [] found = found
has_test_pods pods (ns ∷ namespaces) found = has_test_pods pods namespaces (
    if is_swept ns
    then (elim (pods ns) [ none ↦ found | some n ↦ if eqb n 0 then found else true ])
    else found)

unfoldable pub check_for_test_pods :
    Outcome (List String) → (String → Option ℕ) → Outcome (Bool × Option String)
check_for_test_pods (ok namespaces) pods = ok (has_test_pods pods namespaces false, none)
check_for_test_pods (err e) pods = ok (false, some e)
check_for_test_pods panic pods = panic
