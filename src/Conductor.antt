-- ===== src/Conductor.antt =====
-- The test conductor's calls of the workload monitor
-- (src/tools/extended-test-framework/test_conductor/tc/workload_monitor_lib.go). The generated client
-- is a parameter, as its answer to the n-th PUT; so is the answer to each list call of the API
-- server, one argument per call, in the order of the calls.
pub mod Retries
pub mod Coverage
use mayastor_e2e.Prelude.{
  ℕ, zero, suc, String, ◌==◌, List, [], ◌∷◌, ◌++◌, Option, none, some, Outcome, ok, err, panic,
  Bool, true, false, if◌then◌else◌, length, concat,
}
use mayastor_e2e.Kubernetes.{Pod, Listing, get_pod, get_pods_in_namespace}
use mayastor_e2e.Workload.{Violation, Workload}

-- A call that is made.
pub data Call : Type 0 where
  put_call : String → String → List Violation → Call
  delete_call : String → String → Call
  delete_all_call : String → Call

-- The loop of AddWorkload, with `r` rounds left of five: it ends at the first call that is answered
-- without an error, and otherwise returns the last error.
unfoldable pub put_rounds :
    ℕ
    → (ℕ → Outcome Workload)
    → Call
    → Outcome (Unit {0})
    → List Call
    → Outcome (Unit {0}) × List Call
put_rounds zero answers c last calls = (last, calls)
put_rounds (suc r) answers c last calls = elim (answers (length calls)) [
  | ok wl ↦ (ok tt, calls ++ (c ∷ []))
  | err e ↦ put_rounds r answers c (err e) (calls ++ (c ∷ []))
  | panic ↦ (panic, calls ++ (c ∷ []))
]

-- AddWorkload
unfoldable pub add_workload :
    Listing
    → Listing
    → (ℕ → Outcome Workload)
    → String
    → List Violation
    → List Call
    → Outcome (Unit {0}) × List Call
unfolding put_rounds concat
add_workload l1 l2 answers name violations calls = elim (get_pod l1 "test-conductor") [
  | err e ↦ (err (concat ("failed to get test-conductor pod, error: " ∷ e ∷ "\n" ∷ [])), calls)
  | panic ↦ (panic, calls)
  | ok tcpod ↦ elim (get_pod l2 name) [
    | err e ↦ (err (concat ("failed to get pod " ∷ name ∷ ", error: " ∷ e ∷ "\n" ∷ [])), calls)
    | panic ↦ (panic, calls)
    | ok pod ↦ put_rounds 5 answers (put_call tcpod.uid pod.uid violations) (ok tt) calls
  ]
]

-- The label of the pod is one of those excluded.
unfoldable pub is_excluded : Option String → List String → Bool
is_excluded none labels = false
is_excluded (some value) [] = false
is_excluded (some value) (label ∷ labels) =
    let rest = is_excluded (some value) labels in if value == label then true else rest

-- The loop of AddNamespaceWorkloads. A call that fails is logged with the members of its answer,
-- which is then nil, so that no second round is reached.
unfoldable pub put_pods :
    (ℕ → Outcome Workload)
    → String
    → List Violation
    → List String
    → List Pod
    → List Call
    → Outcome (Unit {0}) × List Call
unfolding is_excluded
put_pods answers rid violations exclusions [] calls = (ok tt, calls)
put_pods answers rid violations exclusions (pod ∷ pods) calls =
    elim (is_excluded pod.app_label exclusions) [
      | true ↦ put_pods answers rid violations exclusions pods calls
      | false ↦ elim (answers (length calls)) [
        | ok wl ↦
            put_pods answers rid violations exclusions pods
              (calls ++ (put_call rid pod.uid violations ∷ []))
        | err e ↦ (panic, calls ++ (put_call rid pod.uid violations ∷ []))
        | panic ↦ (panic, calls ++ (put_call rid pod.uid violations ∷ []))
      ]
    ]

-- AddNamespaceWorkloads
unfoldable pub add_namespace_workloads :
    Listing
    → (ℕ → Outcome Workload)
    → String
    → List Violation
    → String
    → List String
    → List Call
    → Outcome (Unit {0}) × List Call
unfolding put_pods concat
add_namespace_workloads l answers rid violations namespace exclusions calls =
    elim (get_pods_in_namespace l) [
      | ok pods ↦ put_pods answers rid violations exclusions pods calls
      | err e ↦ (
        err (concat ("failed to get pods in namespace " ∷ namespace ∷ ", error: " ∷ e ∷ "\n" ∷ [])),
        calls,
      )
      | panic ↦ (panic, calls)
    ]

-- What AddCommonWorkloadsWithExclusions returns for the pods of the namespace.
abbrev pub common_result : Outcome (Unit {0}) × List Call → Outcome (Unit {0}) × List Call
common_result (ok _, calls) = (ok tt, calls)
common_result (err e, calls) =
    (err (concat ("failed to add pods in namespace mayastor, error: " ∷ e ∷ "\n" ∷ [])), calls)
common_result (panic, calls) = (panic, calls)

-- AddCommonWorkloadsWithExclusions, from its first call of AddWorkload on.
unfoldable pub add_common_rest :
    Listing
    → (ℕ → Outcome Workload)
    → String
    → List Violation
    → List String
    → Outcome (Unit {0}) × List Call
    → Outcome (Unit {0}) × List Call
unfolding add_namespace_workloads concat
add_common_rest l answers rid violations exclusions (ok _, calls) =
    common_result (add_namespace_workloads l answers rid violations "mayastor" exclusions calls)
add_common_rest l answers rid violations exclusions (err e, calls) =
    (err (concat ("failed to inform workload monitor of test-conductor, error: " ∷ e ∷ [])), calls)
add_common_rest l answers rid violations exclusions (panic, calls) = (panic, calls)

-- AddCommonWorkloadsWithExclusions
unfoldable pub add_common_workloads_with_exclusions :
    Listing
    → Listing
    → Listing
    → Listing
    → (ℕ → Outcome Workload)
    → List Violation
    → List String
    → List Call
    → Outcome (Unit {0}) × List Call
unfolding add_common_rest add_workload concat
add_common_workloads_with_exclusions l1 l2 l3 l4 answers violations exclusions calls =
    elim (get_pod l1 "test-conductor") [
      | ok tcpod ↦
          add_common_rest l4 answers tcpod.uid violations exclusions
            (add_workload l2 l3 answers "test-conductor" violations calls)
      | err e ↦ (err (concat ("failed to get test-conductor pod, error: " ∷ e ∷ "\n" ∷ [])), calls)
      | panic ↦ (panic, calls)
    ]

-- AddCommonWorkloads
unfoldable pub add_common_workloads :
    Listing
    → Listing
    → Listing
    → Listing
    → (ℕ → Outcome Workload)
    → List Violation
    → List Call
    → Outcome (Unit {0}) × List Call
unfolding add_common_workloads_with_exclusions
add_common_workloads l1 l2 l3 l4 answers violations calls =
    add_common_workloads_with_exclusions l1 l2 l3 l4 answers violations [] calls

-- DeleteWorkload; `print` is `%v` of the error and of the nil answer.
unfoldable pub delete_workload :
    Listing
    → Listing
    → Outcome Workload
    → (String → String)
    → String
    → List Call
    → Outcome (Unit {0}) × List Call
unfolding concat
delete_workload l1 l2 answer print name calls = elim (get_pod l1 "test-conductor") [
  | err e ↦ (err (concat ("failed to get tc pod " ∷ name ∷ ", error: " ∷ e ∷ "\n" ∷ [])), calls)
  | panic ↦ (panic, calls)
  | ok tcpod ↦ elim (get_pod l2 name) [
    | err e ↦ (err (concat ("failed to get pod " ∷ name ∷ ", error: " ∷ e ∷ "\n" ∷ [])), calls)
    | panic ↦ (panic, calls)
    | ok pod ↦ elim answer [
      | ok wl ↦ (ok tt, calls ++ (delete_call tcpod.uid pod.uid ∷ []))
      | err e ↦ (
        err (concat ("failed to delete workload " ∷ print e ∷ "\n" ∷ [])),
        calls ++ (delete_call tcpod.uid pod.uid ∷ []),
      )
      | panic ↦ (panic, calls ++ (delete_call tcpod.uid pod.uid ∷ []))
    ]
  ]
]

-- DeleteWorkloads
unfoldable pub delete_workloads :
    Listing → Outcome (Unit {0}) → (String → String) → List Call → Outcome (Unit {0}) × List Call
unfolding concat
delete_workloads l answer print calls = elim (get_pod l "test-conductor") [
  | err e ↦ (err (concat ("failed to get tc pod, error: " ∷ e ∷ [])), calls)
  | panic ↦ (panic, calls)
  | ok tcpod ↦ elim answer [
    | ok _ ↦ (ok tt, calls ++ (delete_all_call tcpod.uid ∷ []))
    | err e ↦ (
      err (concat ("failed to delete workloads " ∷ print e ∷ "\n" ∷ [])),
      calls ++ (delete_all_call tcpod.uid ∷ []),
    )
    | panic ↦ (panic, calls ++ (delete_all_call tcpod.uid ∷ []))
  ]
]
