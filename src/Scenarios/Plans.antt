-- ===== src/Scenarios/Plans.antt =====
-- The properties of test plans at concrete inputs.
use mayastor_e2e.Prelude.{◌≡◌, refl, ok, String, [], ◌∷◌, some, none}
use mayastor_e2e.Scenarios.{config, issue, plan, world, initial}
use mayastor_e2e.Cache.Typed
use mayastor_e2e.Cache.Reference.{reference}
use mayastor_e2e.GoMap.{lookup, insert}
use mayastor_e2e.Models.{running, TestPlanSpec}
use mayastor_e2e.Connectors.Jira.{get_jira_task_details}
use mayastor_e2e.Connectors.Xray
use mayastor_e2e.Director.TestPlanCache
use mayastor_e2e.Director.{plan_body}
use mayastor_e2e.Director.TestPlans.{put_test_plan}
use mayastor_e2e.Director.PutPlan.{
  moved, Replaced, jira_plan, put_test_plan_existing, put_test_plan_new,
}
use mayastor_e2e.Director.SoundPlans.{IsSound}
use mayastor_e2e.Director.Histories.{director-IsSound}
use mayastor_e2e.Director.Server.{init, default_plan, put_plan, serve_all}

initial_ok : init reference (world "Test Plan") config ≡ ok initial
unfolding init default_plan get_jira_task_details Xray.get_test_plan Xray.send_xray_query
    Xray.wants_retry Xray.send_request
initial_ok = refl

abbrev asked_plan : TestPlanSpec
asked_plan = record { assignee = ""; jira_id = ""; name = ""; status = running; tests = [] }

pub initial-IsSound : IsSound reference initial.plans
unfolding serve_all
initial-IsSound = director-IsSound reference (world "Test Plan") config initial [] initial_ok

director-IsSound_example :
    IsSound reference
      (serve_all reference config
        ((world "Test Plan", put_plan "MQ-2" asked_plan) ∷ [])
        initial).plans
director-IsSound_example =
    director-IsSound reference (world "Test Plan") config initial
      ((world "Test Plan", put_plan "MQ-2" asked_plan) ∷ []) initial_ok

plan_there : TestPlanCache.get reference initial.plans "MQ-1" ≡ some plan
unfolding Typed.fetch Typed.put Typed.store lookup insert
plan_there = refl

not_there : TestPlanCache.get reference initial.plans "MQ-2" ≡ none
unfolding Typed.fetch Typed.put Typed.store lookup insert
not_there = refl

issue_there : (type : String) → get_jira_task_details (world type) "MQ-2" ≡ ok (issue type)
unfolding get_jira_task_details
issue_there type = refl

put_test_plan_existing_example :
    let b = moved running plan in
    let (r, st') = put_test_plan reference (world "Test Plan") "MQ-1" asked_plan initial in
    (r ≡ ok (plan_body b))
    × Replaced reference "MQ-1" b initial.plans st'.plans
    × (st'.runs ≡ initial.runs)
    × (st'.events ≡ initial.events)
put_test_plan_existing_example =
    put_test_plan_existing reference (world "Test Plan") "MQ-1" asked_plan initial plan
      initial-IsSound plan_there

put_test_plan_new_example :
    let a = jira_plan "MQ-2" running "ann" "10002" "smoke" in
    let (r, st') = put_test_plan reference (world "Test Plan") "MQ-2" asked_plan initial in
    (r ≡ ok (plan_body a))
    × Replaced reference "MQ-2" a initial.plans st'.plans
    × (st'.runs ≡ initial.runs)
    × (st'.events ≡ initial.events)
put_test_plan_new_example =
    put_test_plan_new reference (world "Test Plan") "MQ-2" asked_plan initial (issue "Test Plan")
      "10002" "smoke" initial-IsSound not_there (issue_there "Test Plan") refl refl refl
