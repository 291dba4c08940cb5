-- ===== src/Scenarios/NewRuns.antt =====
-- The properties of new test runs and of Xray's queries at concrete inputs.
use mathlib.Core.List.{Memᴰ}
use mayastor_e2e.Prelude.{
  ℕ, ◌<◌, inl, ◌≡◌, refl, ok, String, ◌==◌, some, none, if◌then◌else◌, arith, ℕ, text_differs,
}
use mayastor_e2e.Scenarios.{issue, plan, world, initial, run, asked}
use mayastor_e2e.Scenarios.Runs.{active}
use mayastor_e2e.Cache.Typed
use mayastor_e2e.Cache.Reference.{reference}
use mayastor_e2e.GoMap.{lookup}
use mayastor_e2e.Models.{executing}
use mayastor_e2e.World.{World, Exchange, replied}
use mayastor_e2e.Connectors.Jira.{get_jira_task_details}
use mayastor_e2e.Connectors.Xray
use mayastor_e2e.Connectors.Xray.Retry.{send_xray_query_first, IsRefusal, update_test_run_refused}
use mayastor_e2e.Director.{run_body, not_found}
use mayastor_e2e.Director.TestRunCache
use mayastor_e2e.Director.TestRuns.{put_test_run, run_from_jira, get_test_run, contains}
use mayastor_e2e.Director.NewRun.{created, put_test_run_new, put_test_run_new_lost}

pub absent : TestRunCache.get reference initial.runs "r1" ≡ none
unfolding Typed.fetch lookup
absent = refl

absent_too : TestRunCache.get reference initial.runs "20001" ≡ none
unfolding Typed.fetch lookup
absent_too = refl

issue_there : get_jira_task_details (world "Test") "MQ-1" ≡ ok (issue "Test")
unfolding get_jira_task_details
issue_there = refl

execution_made : Xray.create_test_execution (world "Test") "10002" "10002" "MQ-2" ≡ ok "20001"
unfolding Xray.create_test_execution Xray.send_xray_query Xray.wants_retry Xray.send_request
execution_made = refl

run_made :
    run_from_jira reference (world "Test") (asked executing) initial
    ≡ ok (created (asked executing) "10002" "20001")
unfolding run_from_jira contains
run_made = rw (issue_there, active, execution_made) refl

put_test_run_new_example :
    let (r, st') = put_test_run reference (world "Test") "r1" (asked executing) initial in
    (r ≡ ok (run_body (created (asked executing) "10002" "20001")))
    × ((k : String)
        → TestRunCache.get reference st'.runs k ≡ (
            if "r1" == k
            then some (created (asked executing) "10002" "20001")
            else TestRunCache.get reference initial.runs k))
    × (st'.plans ≡ initial.plans)
put_test_run_new_example =
    put_test_run_new reference (world "Test") "r1" (asked executing) initial (issue "Test") plan
      "10002" "20001" absent issue_there refl refl active (Memᴰ.head refl) execution_made

put_test_run_new_lost_example :
    let (r, st') = put_test_run reference (world "Test") "r1" (asked executing) initial in
    (r ≡ ok (run_body (created (asked executing) "10002" "20001")))
    × (get_test_run reference "20001" st' ≡ not_found)
put_test_run_new_lost_example =
    put_test_run_new_lost reference (world "Test") "r1" (asked executing) initial
      (created (asked executing) "10002" "20001") absent run_made (text_differs "20001" "r1" refl)
      absent_too

-- Xray authorises, and answers each query with a server error.
abbrev failing_exchange : Exchange
failing_exchange = record {
  auth = replied 200 "\"token\"";
  auth_again = replied 200 "\"token\"";
  answer = replied 503 "unavailable";
}

abbrev failing : World
failing = record (world "Test") { xray = λ query i. failing_exchange }

failing-IsRefusal : IsRefusal failing_exchange
failing-IsRefusal = record {
  first_body = "\"token\"";
  second_body = "\"token\"";
  code = 503;
  body = "unavailable";
  first_token = refl;
  second_token = refl;
  first_long = omega arith;
  second_long = omega arith;
  answered = refl;
  is_error = omega arith;
}

update_test_run_refused_example : Xray.update_test_run failing (run executing) ≡ ok tt
update_test_run_refused_example =
    update_test_run_refused failing (run executing) (λ q i. failing-IsRefusal)

send_xray_query_first_example :
    Xray.send_xray_query failing "q" ≡ Xray.send_request (failing.xray "q" 4)
unfolding Xray.send_request
send_xray_query_first_example =
    (send_xray_query_first failing "q").1 (λ (i : ℕ) (l : i < 5). inl refl)
