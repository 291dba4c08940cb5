-- ===== src/Cluster/Deployments.antt =====
-- Deployments, sets of pods and their readiness (src/common/k8stest/util.go). Calls that are repeated take
-- the n-th answer at their n-th time.
pub mod Laws
use mayastor_e2e.Prelude.{
  ℕ, zero, suc, ◌+◌, ◌-◌, String, ◌==◌, List, [], ◌∷◌, ◌++◌, Option, none, some, Outcome, ok, err,
  panic, Bool, true, false, not, ◌&&◌, ◌||◌, if◌then◌else◌, eqb, leb, concat, ◌>>=◌, length,
}
use Prim.Native.Nat.{◌/◌}
use mayastor_e2e.GoMap.{insert}
use mayastor_e2e.Kubernetes.{PodPhase, pending, pod_running, succeeded, pod_failed, unknown}

-- One round of SetDeploymentReplication: the error of Get, or that of Update.
pub data Attempt : Type 0 where
  get_failed : String → Attempt
  update_failed : String → Attempt
  replaced : Attempt

-- The loop of SetDeploymentReplication and of SetStatefulsetReplication: `err` inside it is another
-- variable than the one that is tested after it, which stays nil. The number of updates is counted.
unfoldable pub replication_rounds :
    (kind name namespace : String) (left n : ℕ) → (ℕ → Attempt) → Outcome (Unit {0}) × ℕ
replication_rounds kind name namespace zero n attempt = (ok tt, n)
replication_rounds kind name namespace (suc left) n attempt = elim (attempt n) [
  | get_failed e ↦ (
    err (
        concat (
          "failed to get " ∷ kind ∷ ", name: " ∷ name ∷ ", namespace: " ∷ namespace ∷ ", error: "
          ∷ e ∷ [])),
    n,
  )
  | replaced ↦ (ok tt, suc n)
  | update_failed e ↦ replication_rounds kind name namespace left (suc n) attempt
]

unfoldable pub set_deployment_replication :
    (name namespace : String) → (ℕ → Attempt) → Outcome (Unit {0}) × ℕ
set_deployment_replication name namespace attempt =
    replication_rounds "deployment" name namespace 10 0 attempt

unfoldable pub set_statefulset_replication :
    (name namespace : String) → (ℕ → Attempt) → Outcome (Unit {0}) × ℕ
set_statefulset_replication name namespace attempt =
    replication_rounds "statefulset" name namespace 10 0 attempt

-- SetReplication, by the names of the deployments and of the sets with the label.
unfoldable pub set_replication :
    (app namespace : String)
    → (deployments statefulsets : Outcome (List String)) → (String → ℕ → Attempt)
    → Outcome (Unit {0})
set_replication app namespace (err e) sts attempt =
    err (concat ("failed to list deployment, namespace: " ∷ namespace ∷ ", error: " ∷ e ∷ []))
set_replication app namespace panic sts attempt = panic
set_replication app namespace (ok ds) (err e) attempt =
    err (concat ("failed to list statefulset, namespace: " ∷ namespace ∷ ", error: " ∷ e ∷ []))
set_replication app namespace (ok ds) panic attempt = panic
set_replication app namespace (ok (d ∷ [])) (ok ss) attempt =
    (set_deployment_replication d namespace (attempt d)).0
set_replication app namespace (ok ds) (ok (s ∷ [])) attempt =
    (set_statefulset_replication s namespace (attempt s)).0
set_replication app namespace (ok ds) (ok ss) attempt =
    err (concat ("app " ∷ app ∷ " is not deployed as a deployment or sts" ∷ []))

-- The status of a deployment's conditions, of a daemon set and of a stateful set.
pub record DaemonStatus : Type 0 where
  pub desired_number_scheduled : ℕ
  pub current_number_scheduled : ℕ
  pub number_ready : ℕ
  pub number_available : ℕ

pub record SetStatus : Type 0 where
  pub replicas : ℕ
  pub ready_replicas : ℕ
  pub current_replicas : ℕ

-- The loop of DeploymentReady over the conditions: whether one is that it is available, and is true.
unfoldable pub has_available : List (String × String) → Bool
has_available [] = false
has_available ((kind, status) ∷ cs) = (kind == "Available" && status == "True") || has_available cs

-- DeploymentReady, DaemonSetReady and StatefulSetReady, by what Get finds.
unfoldable pub deployment_ready : Option (List (String × String)) → Bool
deployment_ready none = false
deployment_ready (some conditions) = has_available conditions

unfoldable pub daemon_set_ready : Option DaemonStatus → Bool
daemon_set_ready none = false
daemon_set_ready (some s) =
    eqb s.desired_number_scheduled s.current_number_scheduled
    && (eqb s.desired_number_scheduled s.number_ready
        && eqb s.desired_number_scheduled s.number_available)

unfoldable pub stateful_set_ready : Option SetStatus → Bool
stateful_set_ready none = false
stateful_set_ready (some s) =
    eqb s.replicas s.ready_replicas
    && (eqb s.ready_replicas s.current_replicas && not (eqb s.ready_replicas 0))

-- What one round of ControlPlaneReady lists: names with their readiness.
pub record Listing : Type 0 where
  pub deployments : List (String × Bool)
  pub daemon_sets : List (String × Bool)
  pub stateful_sets : List (String × Bool)

-- contains
unfoldable pub is_listed : List String → String → Bool
is_listed [] s = false
is_listed (e ∷ es) s = e == s || is_listed es s

-- The loops over what is listed, but for the components of the data plane.
unfoldable pub all_ready : List String → List (String × Bool) → Bool → Bool
all_ready skipped [] ready = ready
all_ready skipped ((name, r) ∷ rest) ready =
    all_ready skipped rest (if is_listed skipped name then ready else ready && r)

-- One round of ControlPlaneReady.
unfoldable pub round_ready : List String → Listing → Bool
round_ready skipped l =
    all_ready skipped l.stateful_sets
      (all_ready skipped l.daemon_sets (all_ready skipped l.deployments true))

-- The loop of ControlPlaneReady; `none` is a round in which a list call fails.
unfoldable pub ready_rounds : List String → (left n : ℕ) → (ℕ → Option Listing) → Bool
ready_rounds skipped zero n answer = false
ready_rounds skipped (suc left) n answer =
    let rest = ready_rounds skipped left (suc n) answer in
    elim (answer n) [ none ↦ rest | some l ↦ if round_ready skipped l then true else rest ]

-- ControlPlaneReady of the control plane of version 1: the rounds of `sleep` seconds, rounded up.
unfoldable pub control_plane_ready :
    List String → (sleep duration : ℕ) → (ℕ → Option Listing) → Bool
control_plane_ready skipped sleep duration answer =
    ready_rounds skipped ((duration + sleep - 1) / sleep) 0 answer

-- A pod as the functions on one node read it.
pub record PodOnNode : Type 0 where
  pub name : String
  pub node : String
  pub phase : PodPhase

-- The pods of the node whose names match the expression `matches`; getPodStatus takes the first.
unfoldable pub pod_on_node : (String → Bool) → String → List PodOnNode → Option PodOnNode
pod_on_node matches node [] = none
pod_on_node matches node (p ∷ ps) =
    let rest = pod_on_node matches node ps in
    if p.node == node && matches p.name then some p else rest

-- The loop of WaitForPodAbsentFromNode, with whether the pod was absent in the last round.
unfoldable pub absent_rounds :
    (String → Bool) → String → (left n : ℕ) → (ℕ → Option (List PodOnNode)) → Bool → Outcome Bool
absent_rounds matches node zero n answer absent = ok absent
absent_rounds matches node (suc left) n answer true = ok true
absent_rounds matches node (suc left) n answer false = elim (answer n) [
  | none ↦ err "failed to list pods"
  | some ps ↦ elim (pod_on_node matches node ps) [
    | none ↦ absent_rounds matches node left (suc n) answer true
    | some p ↦ absent_rounds matches node left (suc n) answer false
  ]
]

-- WaitForPodAbsentFromNode
unfoldable pub wait_for_pod_absent_from_node :
    (String → Bool) → String → (timeout : ℕ) → (ℕ → Option (List PodOnNode)) → Outcome (Unit {0})
wait_for_pod_absent_from_node matches node timeout answer =
    absent_rounds matches node timeout 0 answer false >>= λ absent.
    (if absent then ok tt else err "timed out waiting for pod")

unfoldable pub is_running : PodPhase → Bool
is_running pending = false
is_running pod_running = true
is_running succeeded = false
is_running pod_failed = false
is_running unknown = false

-- The loops of WaitForPodRunningOnNode and WaitForPodNotRunningOnNode, by the answers of getPodStatus:
-- `wanted` is the test of the status that ends the wait, `give_up` and `failing` make the errors.
unfoldable pub status_rounds :
    (Option PodPhase → Bool)
    → (give_up : String) (failing : String → String) (left n : ℕ) → (ℕ → Outcome (Option PodPhase))
    → Outcome (Unit {0})
status_rounds wanted give_up failing zero n answer = err give_up
status_rounds wanted give_up failing (suc left) n answer =
    let rest = status_rounds wanted give_up failing left (suc n) answer in
    elim (answer n) [
      | panic ↦ panic
      | err e ↦ err (failing e)
      | ok status ↦ if wanted status then ok tt else rest
    ]

abbrev pub status_running : Option PodPhase → Bool
status_running none = false
status_running (some p) = is_running p

unfoldable pub wait_for_pod_running_on_node :
    (failing : String → String) (timeout : ℕ) → (ℕ → Outcome (Option PodPhase)) → Outcome (Unit {0})
wait_for_pod_running_on_node failing timeout answer =
    status_rounds status_running "timed out waiting for pod to be running" failing timeout 0 answer

unfoldable pub wait_for_pod_not_running_on_node :
    (failing : String → String) (timeout : ℕ) → (ℕ → Outcome (Option PodPhase)) → Outcome (Unit {0})
wait_for_pod_not_running_on_node failing timeout answer =
    status_rounds (λ s. not (status_running s)) "timed out waiting for pod to stop running" failing
      timeout 0 answer

-- PodPresentOnNode
unfoldable pub pod_present_on_node :
    (failing : String → String) → (String → Bool) → String → Outcome (List PodOnNode) → Outcome Bool
pod_present_on_node failing matches node panic = panic
pod_present_on_node failing matches node (err e) = err (failing e)
pod_present_on_node failing matches node (ok ps) = elim (pod_on_node matches node ps) [
  | none ↦ ok false
  | some p ↦ ok true
]

-- A volume attachment: its name and its node.
pub record VolumeAttachment : Type 0 where
  pub name : String
  pub node : String

-- The loop of DeleteVolumeAttachments: the deletions that are called. It ends at the first that fails,
-- and returns the error of the list call, which is nil.
unfoldable pub delete_attachments :
    (String → Option String) → String → List VolumeAttachment → List String
delete_attachments delete node [] = []
delete_attachments delete node (a ∷ as_) =
    let rest = delete_attachments delete node as_ in
    if a.node == node
    then (elim (delete a.name) [ some e ↦ a.name ∷ [] | none ↦ a.name ∷ rest ])
    else rest

-- DeleteVolumeAttachments: the deletions and the error.
unfoldable pub delete_volume_attachments :
    (String → Option String)
    → String
    → Outcome (List VolumeAttachment)
    → List String × Option String
delete_volume_attachments delete node (ok l) = (delete_attachments delete node l, none)
delete_volume_attachments delete node (err e) =
    ([], some (concat ("failed to list volume attachments, error: " ∷ e ∷ [])))
delete_volume_attachments delete node panic = ([], none)

-- ApplyNodeSelectorToPodObject, on the map of node selectors, which may be nil.
unfoldable pub apply_node_selector :
    (label value : String) → Option (List (String × String)) → Option (List (String × String))
apply_node_selector label value none = some ((label, value) ∷ [])
apply_node_selector label value (some m) = some (insert label value m)
