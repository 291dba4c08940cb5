-- ===== src/Scenarios/Clients.antt =====
-- The properties of the conductor, of the log monitor and of the clients at concrete inputs.
use mayastor_e2e.Prelude.{
  ◌≡◌, refl, ok, err, ℕ, zero, suc, ◌<◌, String, List, [], ◌∷◌, some, none, true, Outcome, arith,
  text_differs,
}
use mayastor_e2e.Scenarios.{plan}
use mayastor_e2e.Scenarios.Workloads.{pod, workload}
use mayastor_e2e.Models.{TestPlan}
use mayastor_e2e.Kubernetes.{
  Pod, Listing, listed, get_pod, find_named, find_ready, wait_for_pod_ready, wait_rounds,
}
use mayastor_e2e.Workload.{restarted, Workload}
use mayastor_e2e.Conductor.{Call, put_call, add_workload, add_namespace_workloads}
use mayastor_e2e.Conductor.Retries.{repeated, add_workload_retries}
use mayastor_e2e.Conductor.Coverage.{Due, add_namespace_workloads_all}
use mayastor_e2e.LogMonitor.{LoggedRun, Sight, executing_run, check_line}
use mayastor_e2e.LogMonitor.Reports.{check_line_silent}

abbrev conductor_pod : Pod
conductor_pod = record pod { uid = "r1"; name = "test-conductor"; namespace = "mayastor-e2e" }

conductor_there : get_pod (listed (conductor_pod ∷ [])) "test-conductor" ≡ ok conductor_pod
unfolding get_pod find_named
conductor_there = refl

pod_there : get_pod (listed (pod ∷ [])) "io-engine" ≡ ok pod
unfolding get_pod find_named
pod_there = refl

-- The monitor fails once.
abbrev answers : ℕ → Outcome Workload
answers zero = err "timeout"
answers (suc n) = ok workload

add_workload_retries_example :
    add_workload
      (listed (conductor_pod ∷ []))
      (listed (pod ∷ []))
      answers
      "io-engine"
      (restarted ∷ [])
      []
    ≡ (ok tt, repeated 2 (put_call "r1" "w1" (restarted ∷ [])))
add_workload_retries_example =
    (add_workload_retries (listed (conductor_pod ∷ [])) (listed (pod ∷ [])) answers "io-engine"
        (restarted ∷ []) conductor_pod pod conductor_there pod_there).0
      1 workload (omega arith) first_fails refl
  where
    first_fails : (i : ℕ) → i < 1 → (e : String) × (answers i ≡ err e)
    first_fails zero lt = ("timeout", refl)
    first_fails (suc i) lt = absurd (omega arith)

add_namespace_workloads_all_example :
    (calls : List Call) × Due "r1" (restarted ∷ []) ("etcd" ∷ []) (conductor_pod ∷ pod ∷ []) calls
    × (add_namespace_workloads
          (listed (conductor_pod ∷ pod ∷ []))
          (λ i. ok workload)
          "r1"
          (restarted ∷ [])
          "mayastor"
          ("etcd" ∷ [])
          []
        ≡ (ok tt, calls))
add_namespace_workloads_all_example =
    add_namespace_workloads_all (λ i. ok workload) "r1" "mayastor" (restarted ∷ []) ("etcd" ∷ [])
      (conductor_pod ∷ pod ∷ []) (λ n. (workload, refl))

-- The director has no plan at first.
abbrev plans : ℕ → Outcome (List TestPlan)
plans zero = err "not found"
plans (suc n) = ok (plan ∷ [])

-- The pod is there in the second list.
abbrev lists : ℕ → Listing
lists zero = listed []
lists (suc n) = listed (pod ∷ [])

ready : wait_for_pod_ready lists "io-engine" ≡ ok pod
unfolding wait_for_pod_ready wait_rounds find_ready
ready = refl

abbrev logged : String → LoggedRun
logged status = record {
  end_date_time = "";
  id = "r1";
  start_date_time = "";
  spec = record {
    text = "";
    status = status;
    test_exec_issue_id = "";
    test_id = "";
    test_key = "";
  };
}

-- A test director with one run, and an expression that matches every line.
abbrev sight : String → Sight
sight status = record {
  to_lower = λ s. s;
  match_string = λ s. some true;
  director_found = true;
  test_runs = some (logged status ∷ []);
}

logged_executing : executing_run (logged "EXECUTING" ∷ []) ≡ some (logged "EXECUTING")
unfolding executing_run
logged_executing = refl

check_line_silent_example : check_line (sight "") "level=error" ≡ none
check_line_silent_example =
    check_line_silent (sight "") "level=error" (logged "" ∷ []) refl
      (text_differs "" "EXECUTING" refl, tt)
