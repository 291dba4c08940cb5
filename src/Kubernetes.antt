-- ===== src/Kubernetes.antt =====
-- The cluster as the extended test framework reads it
-- (src/tools/extended-test-framework/common/k8sclient/lib_pod.go). The API server's answer to a list
-- call is a parameter: the pods, or an error.
pub mod Lookup
pub mod Waiting
use mayastor_e2e.Prelude.{
  ℕ, zero, suc, ◌+◌, String, ◌==◌, ◌&&◌, List, [], ◌∷◌, Option, none, some, Outcome, ok, err, panic,
  Bool, true, false, if◌then◌else◌, concat, ◌>>=◌,
}
use Prim.Native.Nat.{◌%◌}

pub data PodPhase : Type 0 where
  pending pod_running succeeded pod_failed unknown : PodPhase

pub record Pod : Type 0 where
  pub uid : String
  pub name : String
  pub namespace : String
  pub app_label : Option String  -- Labels["app"]
  pub phase : PodPhase
  pub restart_counts : List ℕ  -- of the containers, int32

pub data Listing : Type 0 where
  listed : List Pod → Listing
  failed : String → Listing

-- The first pod with the uid.
unfoldable pub find_pod : String → List Pod → Option Pod
find_pod uuid [] = none
find_pod uuid (pod ∷ pods) =
    let rest = find_pod uuid pods in if uuid == pod.uid then some pod else rest

-- GetPodByUuid: `none` is "not present".
unfoldable pub get_pod_by_uuid : Listing → String → Outcome (Option Pod)
unfolding concat
get_pod_by_uuid (listed pods) uuid = ok (find_pod uuid pods)
get_pod_by_uuid (failed e) uuid = err (concat ("list failed, error: " ∷ e ∷ []))

-- GetPodStatus: the phase of a pod that is present. With an error the pod is "not present".
unfoldable pub get_pod_status : Listing → String → Option PodPhase
get_pod_status l uuid = elim (get_pod_by_uuid l uuid) [
  | ok found ↦ elim found [ none ↦ none | some pod ↦ some pod.phase ]
  | err e ↦ none
  | panic ↦ none
]

-- GetPodExistsByUuid: with an error the pod is "not present".
unfoldable pub get_pod_exists_by_uuid : Listing → String → Bool
get_pod_exists_by_uuid l uuid = elim (get_pod_by_uuid l uuid) [
  | ok found ↦ elim found [ none ↦ false | some pod ↦ true ]
  | err e ↦ false
  | panic ↦ false
]

-- GetPodNameAndNamespaceFromUuid
unfoldable pub get_pod_name_and_namespace : Listing → String → Outcome (String × String)
unfolding concat
get_pod_name_and_namespace l uuid = elim (get_pod_by_uuid l uuid) [
  | ok found ↦ elim found [
    | none ↦ err (concat ("failed to find pod with uuid " ∷ uuid ∷ []))
    | some pod ↦ ok (pod.name, pod.namespace)
  ]
  | err e ↦ err (concat ("failed to get pod name from uuid, error: " ∷ e ∷ []))
  | panic ↦ panic
]

-- The sum of the containers' restarts, an int32 kept as its bit pattern.
unfoldable pub restart_count : List ℕ → ℕ → ℕ
restart_count [] n = n
restart_count (c ∷ cs) n = restart_count cs ((n + c) % 4294967296)

-- The first pod with the name.
unfoldable pub find_named : String → List Pod → Option Pod
find_named name [] = none
find_named name (pod ∷ pods) =
    let rest = find_named name pods in if pod.name == name then some pod else rest

-- GetPodIfPresent
unfoldable pub get_pod_if_present : Listing → String → Outcome (Option Pod)
unfolding concat
get_pod_if_present (listed pods) name = ok (find_named name pods)
get_pod_if_present (failed e) name = err (concat ("pod list failed, error: " ∷ e ∷ []))

-- GetPod
unfoldable pub get_pod : Listing → String → Outcome Pod
unfolding concat
get_pod (listed pods) name = elim (find_named name pods) [
  | none ↦ err (concat ("pod " ∷ name ∷ " not found" ∷ []))
  | some pod ↦ ok pod
]
get_pod (failed e) name = err (concat ("pod list failed, error: " ∷ e ∷ []))

-- GetPodsInNamespace
unfoldable pub get_pods_in_namespace : Listing → Outcome (List Pod)
unfolding concat
get_pods_in_namespace (listed pods) = ok pods
get_pods_in_namespace (failed e) = err (concat ("pod list failed, error: " ∷ e ∷ []))

abbrev pub is_running : PodPhase → Bool
is_running pending = false
is_running pod_running = true
is_running succeeded = false
is_running pod_failed = false
is_running unknown = false

-- The inner loop of WaitForPodReady.
unfoldable pub find_ready : String → List Pod → Option Pod
find_ready name [] = none
find_ready name (pod ∷ pods) =
    let rest = find_ready name pods in
    if name == pod.name && is_running pod.phase then some pod else rest

-- Its outer loop, with `r` rounds left of twelve; round `i` lists the pods once.
unfoldable pub wait_rounds : ℕ → ℕ → (ℕ → Listing) → String → Outcome Pod
unfolding concat find_ready
wait_rounds zero i lists name =
    err (concat ("timed out waiting for pod " ∷ name ∷ " to be running" ∷ []))
wait_rounds (suc r) i lists name = elim (lists i) [
  | failed e ↦ err (concat ("list failed, error: " ∷ e ∷ []))
  | listed pods ↦ elim (find_ready name pods) [
    | some pod ↦ ok pod
    | none ↦ wait_rounds r (suc i) lists name
  ]
]

-- WaitForPodReady, whose n-th list call is answered by `lists n`.
unfoldable pub wait_for_pod_ready : (ℕ → Listing) → String → Outcome Pod
unfolding wait_rounds
wait_for_pod_ready lists name = wait_rounds 12 0 lists name
