-- ===== src/Director/TestRuns.antt =====
-- src/tools/extended-test-framework/test_director/handlers/test_runs.go: the handlers for test runs.
use mayastor_e2e.Prelude.{
  String, ◌==◌, List, [], ◌∷◌, Option, none, some, Outcome, ok, err, panic, ◌>>=◌, deref, or_fail,
  require, Bool, true, false, not, ◌&&◌, if◌then◌else◌, concat,
}
use mayastor_e2e.Models.{
  TestPlan, TestPlanStatus, running, complete_pass, complete_fail, TestRun, TestRunSpec,
  TestRunStatus, todo, is_todo, is_executing, is_passed, is_failed, is_complete_fail,
}
use mayastor_e2e.World.{World}
use mayastor_e2e.Connectors.Jira.{get_jira_task_details}
use mayastor_e2e.Connectors.Xray
use mayastor_e2e.Director.{
  Platform, State, Response, run_list, run_body, refuse, no_content, not_found,
}
use mayastor_e2e.Director.TestPlanCache
use mayastor_e2e.Director.TestRunCache
use mayastor_e2e.Director.TestPlans.{with_status}

-- The id that is looked for is a pointer, read at each test of the plan.
unfoldable pub contains : List String → Option String → Outcome Bool
contains [] id = ok false
contains (t ∷ ts) id = do
  i ← deref id
  (let rest = contains ts id in if t == i then ok true else rest)

-- `if Data != "" { Data += ": " }; Data += more`
unfoldable pub add_text : String → String → String
unfolding concat
add_text old more = if old == "" then more else concat (old ∷ ": " ∷ more ∷ [])

-- The plan's status once one of its runs has ended.
unfoldable pub verdict : TestRunStatus → TestPlanStatus → TestPlanStatus
verdict run plan =
    if is_passed run && not (is_complete_fail plan) then complete_pass else complete_fail

abbrev pub with_run_status : TestRunStatus → TestRun → TestRun
with_run_status t run = record run { spec = record (run.spec) { status = t } }

-- The run as it starts.
unfoldable pub started : World → TestRun → TestRunSpec → TestRun
started w run spec = record run {
  spec = record (run.spec) { text = spec.text; status = spec.status };
  start_date_time = w.now;
}

-- The run as it ends in FAILED or PASSED.
unfoldable pub failed_with : World → TestRun → TestRunSpec → TestRun
failed_with w run spec = record run {
  spec = record (run.spec) { text = add_text run.text spec.text; status = spec.status };
  end_date_time = w.now;
}

unfoldable pub passed_with : World → TestRun → TestRunSpec → TestRun
passed_with w run spec = record run {
  spec = record (run.spec) { text = spec.text; status = spec.status };
  end_date_time = w.now;
}

module _ (p : Platform) where
  open p use {cache}

  unfoldable pub get_test_runs : State p → Response
  get_test_runs st = elim (TestRunCache.get_all p st.runs) [
    | none ↦ not_found
    | some runs ↦ run_list runs
  ]

  unfoldable pub get_test_run : String → State p → Response
  get_test_run id st = elim (TestRunCache.get p st.runs id) [
    | none ↦ not_found
    | some run ↦ run_body run
  ]

  unfoldable pub delete_test_run : String → State p → Outcome Response × State p
  delete_test_run id st = elim (TestRunCache.delete p st.runs id) [
    | ok runs ↦ (ok no_content, record st { runs = runs })
    | err e ↦ (ok not_found, st)
    | panic ↦ (panic, st)
  ]

  -- The plan that has the run's test key as its own key gets the verdict.
  unfoldable pub mark_plan : TestRun → State p → State p
  unfolding verdict
  mark_plan run st = elim (TestPlanCache.get p st.plans run.test_key) [
    | none ↦ st
    | some tp ↦ record st {
      plans = TestPlanCache.put p st.plans tp.key (with_status (verdict run.status tp.status) tp);
    }
  ]

  -- UpdateTestRun
  unfoldable pub update_test_run : World → TestRun → State p → Outcome (Unit {0}) × State p
  update_test_run w run st = elim (Xray.update_test_run w run) [
    | ok _ ↦ (ok tt, mark_plan run st)
    | err e ↦ (err e, st)
    | panic ↦ (panic, st)
  ]

  -- The end of the handler.
  unfoldable pub save_run : String → TestRun → State p → Outcome Response × State p
  save_run id run st = elim (TestRunCache.set p st.runs id run) [
    | ok runs ↦ (ok (run_body run), record st { runs = runs })
    | err e ↦ (ok (refuse e), st)
    | panic ↦ (panic, st)
  ]

  -- Xray is told first; then the active plan has to have the run's test.
  unfoldable pub check_start : World → TestRun → State p → Outcome TestPlan
  check_start w run st = do
    _ ← Xray.update_test_run w run
    tp ←
        or_fail (TestPlanCache.get_active p st.plans)
          "there is no active test plan belongs to test run"
    found ← contains tp.tests (some run.test_id)
    _ ← require found "there is no active test plan belongs to test run"
    ok tp

  unfoldable pub start_run : World → String → TestRun → State p → Outcome Response × State p
  start_run w id run st = elim (check_start w run st) [
    | ok tp ↦
        save_run id run
          (record st { plans = TestPlanCache.put p st.plans tp.key (with_status running tp) })
    | err e ↦ (ok (refuse e), st)
    | panic ↦ (panic, st)
  ]

  unfoldable pub save_updated :
      String → TestRun → Outcome (Unit {0}) × State p → Outcome Response × State p
  save_updated id run (ok _, st) = save_run id run st
  save_updated id run (err e, st) = (ok (refuse e), st)
  save_updated id run (panic, st) = (panic, st)

  unfoldable pub end_run : World → String → TestRun → State p → Outcome Response × State p
  unfolding save_updated
  end_run w id run st = save_updated id run (update_test_run w run st)

  -- A run that is not there yet, made from its Jira issue and Xray's new execution.
  unfoldable pub run_from_jira : World → TestRunSpec → State p → Outcome TestRun
  run_from_jira w spec st = do
    jt ← get_jira_task_details w spec.test_key
    issue_type ← deref jt.issue_type
    _ ← require (issue_type == "Test") "test doesn't have issueType 'Test'"
    tp ← or_fail (TestPlanCache.get_active p st.plans) "there is no active test plan"
    found ← contains tp.tests jt.id
    _ ← require found "test doesn't belong to active test plan"
    test_id ← deref jt.id
    execution ← Xray.create_test_execution w tp.jira_id test_id jt.key
    ok (record {
      spec = record {
        text = spec.text;
        status = todo;
        test_exec_issue_id = execution;
        test_id = test_id;
        test_key = spec.test_key;
      };
      id = execution;
      start_date_time = 0;
      end_date_time = 0;
    })

  -- putTestRunImpl.Handle for a run that is there.
  unfoldable pub put_existing :
      World → String → TestRun → TestRunSpec → State p → Outcome Response × State p
  put_existing w id run spec st =
      if is_todo run.status && is_executing spec.status
      then start_run w id (started w run spec) st
      else if not (is_todo run.status) && is_failed spec.status
      then end_run w id (failed_with w run spec) st
      else if not (is_todo run.status) && is_passed spec.status
      then end_run w id (passed_with w run spec) st
      else save_run id run st

  -- putTestRunImpl.Handle. The `id` under which a new run is saved is the request's: the `id` that
  -- Xray returns belongs to an inner block.
  unfoldable pub put_test_run : World → String → TestRunSpec → State p → Outcome Response × State p
  put_test_run w id spec st = elim (TestRunCache.get p st.runs id) [
    | some run ↦ put_existing w id run spec st
    | none ↦ elim (run_from_jira w spec st) [
      | ok run ↦ save_run id run st
      | err e ↦ (ok (refuse e), st)
      | panic ↦ (panic, st)
    ]
  ]
