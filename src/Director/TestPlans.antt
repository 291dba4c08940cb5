-- ===== src/Director/TestPlans.antt =====
-- src/tools/extended-test-framework/test_director/handlers/test_plans.go: the handlers for test plans.
use mayastor_e2e.Prelude.{
  String, ◌==◌, List, [], ◌∷◌, none, some, Outcome, ok, err, panic, ◌>>=◌, deref, demand, or_nil,
  true, false, ◌&&◌, ◌||◌, if◌then◌else◌,
}
use mayastor_e2e.Models.{
  TestPlan, TestPlanSpec, TestPlanStatus, is_not_started, is_running, is_complete_pass,
  is_complete_fail,
}
use mayastor_e2e.World.{World}
use mayastor_e2e.Connectors.Jira.{get_jira_task_details}
use mayastor_e2e.Director.{
  Platform, State, Response, plan_list, plan_body, outcome, refuse, no_content, not_found,
}
use mayastor_e2e.Director.TestPlanCache

abbrev pub with_status : TestPlanStatus → TestPlan → TestPlan
with_status t plan = record plan { spec = record (plan.spec) { status = t } }

abbrev pub deactivated : TestPlan → TestPlan
deactivated plan = record plan { is_active = false }

-- The status change of a plan that is there already: only from NOT_STARTED to RUNNING, and from
-- RUNNING to either end.
unfoldable pub advance : TestPlan → TestPlanStatus → TestPlan
advance plan t =
    if is_not_started plan.status && is_running t
    then record (with_status t plan) { is_active = true }
    else if is_running plan.status && (is_complete_fail t || is_complete_pass t)
    then record (with_status t plan) { is_active = true }
    else plan

-- A plan that is new here, made from its Jira issue. On another type of issue the code takes the
-- text of an error that is nil.
unfoldable pub plan_from_jira : World → String → TestPlanStatus → Outcome TestPlan
plan_from_jira w id status = do
  jt ← get_jira_task_details w id
  issue_type ← deref jt.issue_type
  _ ← demand (issue_type == "Test Plan")
  jira_id ← deref jt.id
  name ← deref jt.name
  ok (record {
    spec = record {
      assignee = jt.assignee;
      jira_id = jira_id;
      name = name;
      status = status;
      tests = [];
    };
    is_active = true;
    key = id;
  })

module _ (p : Platform) where
  open p use {cache}

  unfoldable pub get_test_plans : State p → Response
  get_test_plans st = elim (TestPlanCache.get_all p st.plans) [
    | none ↦ not_found
    | some plans ↦ plan_list plans
  ]

  unfoldable pub get_test_plan : String → State p → Response
  get_test_plan id st = elim (TestPlanCache.get p st.plans id) [
    | none ↦ not_found
    | some plan ↦ plan_body plan
  ]

  unfoldable pub delete_test_plan : String → State p → Outcome Response × State p
  delete_test_plan id st = elim (TestPlanCache.delete p st.plans id) [
    | ok plans ↦ (ok no_content, record st { plans = plans })
    | err e ↦ (ok not_found, st)
    | panic ↦ (panic, st)
  ]

  unfoldable pub delete_test_plans : State p → Outcome Response × State p
  delete_test_plans st =
      let (ro, plans) = TestPlanCache.delete_all p st.plans in
      (ok (outcome ro), record st { plans = plans })

  -- The loop that leaves no plan active; the errors of `Set` are dropped.
  unfoldable pub deactivate : List TestPlan → cache.Store → cache.Store
  deactivate [] s = s
  deactivate (item ∷ items) s = deactivate items (TestPlanCache.put p s item.key (deactivated item))

  -- The end of the handler: an active plan replaces the active one.
  unfoldable pub save_plan : String → TestPlan → State p → Outcome Response × State p
  save_plan id plan st =
      let s =
        if plan.is_active
        then deactivate (or_nil (TestPlanCache.get_all p st.plans)) st.plans
        else st.plans in
      elim (TestPlanCache.set p s id plan) [
        | ok plans ↦ (ok (plan_body plan), record st { plans = plans })
        | err e ↦ (ok (refuse e), record st { plans = s })
        | panic ↦ (panic, record st { plans = s })
      ]

  -- putTestPlanImpl.Handle
  unfoldable pub put_test_plan :
      World → String → TestPlanSpec → State p → Outcome Response × State p
  put_test_plan w id tps st = elim (TestPlanCache.get p st.plans id) [
    | some plan ↦ save_plan id (advance plan tps.status) st
    | none ↦ elim (plan_from_jira w id tps.status) [
      | ok plan ↦ save_plan id plan st
      | err e ↦ (ok (refuse e), st)
      | panic ↦ (panic, st)
    ]
  ]
