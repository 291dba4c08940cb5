-- ===== src/Reporting.antt =====
-- From the workload monitor to the test director: a report is a call of SendEventFail
-- (src/tools/extended-test-framework/common/test_director_lib.go), whose event the director takes in
-- test_director/handlers/events_cache.go.
use mayastor_e2e.Prelude.{◌≡◌, refl, String, ◌==◌, some, if◌then◌else◌, ok, map_option}
use mayastor_e2e.Models.{TestRun, complete_fail, failed, workload_monitor}
use mayastor_e2e.World.{World}
use mayastor_e2e.Client.{event_body, send_event_fail}
use mayastor_e2e.Connectors.Xray
use mayastor_e2e.Director.{Platform, ServerConfig, State}
use mayastor_e2e.Director.TestPlanCache
use mayastor_e2e.Director.TestRunCache
use mayastor_e2e.Director.TestPlans.{with_status}
use mayastor_e2e.Director.TestRuns.{with_run_status}
use mayastor_e2e.Director.Events.{noted, add_event}
use mayastor_e2e.Director.SoundPlans.{IsSound}
use mayastor_e2e.Director.EventEffects.{add_event_fails_plan}

module _ (p : Platform) where
  -- If the plans are sound, what the workload monitor reports with SendEventFail about a registrant
  -- under whose id the director stores a run, once Xray has taken that run as failed, turns the plan
  -- whose key is the run's test key to COMPLETE_FAIL, and no other plan.
  pub report_fails_plan :
      (w : World) (cfg : ServerConfig) (now rid message : String) (st : State p) (a : TestRun)
      → IsSound p st.plans
      → TestRunCache.get p st.runs rid ≡ some a
      → let spec = send_event_fail now rid message workload_monitor in
        Xray.update_test_run w (with_run_status failed (noted spec a)) ≡ ok tt
        → (k : String)
        → TestPlanCache.get p (add_event p w cfg spec st).1.plans k ≡ (
            if a.test_key == k
            then map_option (with_status complete_fail) (TestPlanCache.get p st.plans k)
            else TestPlanCache.get p st.plans k)
  unfolding send_event_fail event_body
  report_fails_plan w cfg now rid message st a v e x k =
      add_event_fails_plan p w cfg (send_event_fail now rid message workload_monitor) st a v e refl
        (λ d. cc d) x k
