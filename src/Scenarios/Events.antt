-- ===== src/Scenarios/Events.antt =====
-- The properties of events at concrete inputs.
use mayastor_e2e.Prelude.{◌≡◌, ◌≢◌, refl, String, ◌==◌, [], ◌∷◌, some, if◌then◌else◌, map_option}
use mayastor_e2e.Scenarios.{config, world, run, with_run}
use mayastor_e2e.Scenarios.Plans.{initial-IsSound}
use mayastor_e2e.Scenarios.Runs.{run_there, told}
use mayastor_e2e.Cache.Reference.{reference}
use mayastor_e2e.Models.{
  complete_fail, executing, failed, EventSpec, fail, info, workload_monitor, log_monitor,
}
use mayastor_e2e.Client.{send_event_fail}
use mayastor_e2e.Reporting.{report_fails_plan}
use mayastor_e2e.Director.TestPlanCache
use mayastor_e2e.Director.TestRunCache
use mayastor_e2e.Director.TestPlans.{with_status}
use mayastor_e2e.Director.TestRuns.{add_text, with_run_status}
use mayastor_e2e.Director.Events.{event_text, noted, add_event}
use mayastor_e2e.Director.EventEffects.{add_event_runs, add_event_fails_plan}
use mayastor_e2e.Director.EventAnswers.{IsFailing, Kept, add_event_ends}

abbrev failure : EventSpec
failure = record {
  class = fail;
  details = "disk" ∷ [];
  message = "pod restarted";
  resource = "";
  source_class = workload_monitor;
  source_instance = "r1";
}

fail_ne_info : failure.class ≢ info
fail_ne_info e = cc e

add_event_runs_example :
    let b = noted failure (run executing) in
    ((b.status ≡ executing) × (b.text ≡ add_text "begun" (event_text failure)))
    × ((k : String)
        → TestRunCache.get reference
            (add_event reference (world "Test") config failure (with_run executing)).1.runs
            k
          ≡ (if "r1" == k then some b else TestRunCache.get reference (with_run executing).runs k))
add_event_runs_example =
    add_event_runs reference (world "Test") config failure (with_run executing) (run executing)
      fail_ne_info (run_there executing)

not_from_logs : failure.source_class ≢ log_monitor
not_from_logs e = cc e

add_event_fails_plan_example :
    TestPlanCache.get reference
      (add_event reference (world "Test") config failure (with_run executing)).1.plans
      "MQ-1"
    ≡ (if "MQ-1" == "MQ-1"
        then map_option
            (with_status complete_fail)
            (TestPlanCache.get reference (with_run executing).plans "MQ-1")
        else TestPlanCache.get reference (with_run executing).plans "MQ-1")
add_event_fails_plan_example =
    add_event_fails_plan reference (world "Test") config failure (with_run executing)
      (run executing) initial-IsSound (run_there executing) refl not_from_logs
      (told (with_run_status failed (noted failure (run executing)))) "MQ-1"

failing : IsFailing failure
failing = (refl, not_from_logs)

add_event_ends_example :
    Kept reference
      (world "Test")
      config
      failure
      (with_run executing)
      (add_event reference (world "Test") config failure (with_run executing))
add_event_ends_example =
    ((add_event_ends reference (world "Test") config failure (with_run executing)).2 (run executing)
        fail_ne_info (run_there executing)).2
      failing (told (with_run_status failed (noted failure (run executing))))

abbrev reported : EventSpec
reported = send_event_fail "10:00" "r1" "pod io-engine absent" workload_monitor

report_fails_plan_example :
    TestPlanCache.get reference
      (add_event reference (world "Test") config reported (with_run executing)).1.plans
      "MQ-1"
    ≡ (if "MQ-1" == "MQ-1"
        then map_option
            (with_status complete_fail)
            (TestPlanCache.get reference (with_run executing).plans "MQ-1")
        else TestPlanCache.get reference (with_run executing).plans "MQ-1")
report_fails_plan_example =
    report_fails_plan reference (world "Test") config "10:00" "r1" "pod io-engine absent"
      (with_run executing) (run executing) initial-IsSound (run_there executing)
      (told (with_run_status failed (noted reported (run executing)))) "MQ-1"
