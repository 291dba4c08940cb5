-- ===== src/Connectors/Xray.antt =====
-- src/tools/extended-test-framework/test_director/connectors/xray/*.go: GraphQL queries to Xray, each
-- sent up to five times.
pub mod Retry
use Prim.Native.String.{len, slice}
use Prim.Native.String
use Prim.Native.Char.{code}
use mayastor_e2e.Prelude.{
  ℕ, zero, suc, ◌-◌, String, ◌==◌, List, [], ◌∷◌, Option, none, some, Outcome, ok, err, panic, Bool,
  true, false, if◌then◌else◌, eqb, ltb, leb, concat, ◌>>=◌,
}
use mayastor_e2e.Models.{DateTime, TestRun, TestRunStatus, unset, todo, executing, passed, failed}
use mayastor_e2e.World.{World, Exchange, Reply, unbuilt, refused, unread, replied}

-- The token between the quotes, `none` for nil. A body of less than two bytes is a slice out of
-- range.
authorize : Reply → Outcome (Option String)
authorize (unbuilt e) = ok none
authorize (refused e) = ok none
authorize (unread e) = ok none
authorize (replied code body) =
    if eqb code 200
    then (if ltb (len body) 2 then panic else ok (some (slice body 1 (len body - 1))))
    else ok none

-- `defer response.Body.Close()` reads the response before the error of client.Do is looked at.
read_answer : Reply → Outcome String
read_answer (unbuilt e) = err e
read_answer (refused e) = panic
read_answer (unread e) = err e
read_answer (replied code body) = if leb 300 code then ok "" else ok body

-- http.NewRequest comes first; then two authorisations, of which only the first is checked.
unfoldable pub send_request : Exchange → Outcome String
unfolding authorize read_answer
send_request x = elim x.answer [
  | unbuilt e ↦ err e
  | answer ↦ do
    token ← authorize x.auth
    elim token [
      | none ↦ err "authorization failed"
      | some _ ↦ do
        token' ← authorize x.auth_again
        elim token' [ none ↦ panic | some _ ↦ read_answer answer ]
    ]
]

-- `response == ""`: the loop goes on while nothing was received.
unfoldable pub wants_retry : Outcome String → Bool
wants_retry (ok s) = s == ""
wants_retry (err e) = true
wants_retry panic = false

-- `for response == "" && r > 0`, with `r` rounds left, from the attempt `i`.
unfoldable pub query_loop : ℕ → ℕ → (ℕ → Exchange) → Outcome String → Outcome String
query_loop zero i x last = last
query_loop (suc r) i x last =
    let rest = query_loop r (suc i) x (send_request (x i)) in
    if wants_retry last then rest else last

unfoldable pub send_xray_query : World → String → Outcome String
unfolding query_loop
send_xray_query w query = query_loop 5 0 (w.xray query) (ok "")

abbrev pub status_text : TestRunStatus → String
status_text unset = ""
status_text todo = "TO DO"
status_text executing = "EXECUTING"
status_text passed = "PASSED"
status_text failed = "FAILED"

-- getTestRun
get_test_run : World → String → String → Outcome String
unfolding concat
get_test_run w test_id test_execution_id = do
  json ← send_xray_query w (
      concat (
        "{getTestRun( testIssueId: \"" ∷ test_id ∷ "\", testExecIssueId: \"" ∷ test_execution_id
        ∷ "\") {id status {name color description}}}" ∷ []))
  ok (w.json_text json "data.getTestRun.id")

-- getRFC3339Format: the zero time is printed as nothing.
unfoldable pub get_rfc3339_format : World → DateTime → String
get_rfc3339_format w t = if eqb t 0 then "" else w.print_time t

-- UpdateTestRun: the run is found, its status set, then its comment and times.
unfoldable pub update_test_run : World → TestRun → Outcome (Unit {0})
unfolding get_test_run concat
update_test_run w run = do
  run_id ← get_test_run w run.test_id run.test_exec_issue_id
  _ ← send_xray_query w (
      concat (
        "mutation{updateTestRunStatus( id: \""
        ∷ run_id
        ∷ "\", status: \""
        ∷ status_text run.status
        ∷ "\")}"
        ∷ []))
  _ ← send_xray_query w (
      concat (
        "mutation{updateTestRun( id: \""
        ∷ run_id
        ∷ "\", comment: \""
        ∷ run.text
        ∷ "\", startedOn: \""
        ∷ get_rfc3339_format w run.start_date_time
        ∷ "\", finishedOn: \""
        ∷ get_rfc3339_format w run.end_date_time
        ∷ "\") {warnings}}"
        ∷ []))
  ok tt

-- `strings.Split(key, "-")[0]`
before_dash : String → String
before_dash String.[] = ""
before_dash (String.◌∷◌ c s) = if eqb (code c) b'-' then "" else String.◌∷◌ c (before_dash s)

-- addTestExecutionToTestPlan
add_test_execution_to_test_plan : World → String → String → Outcome (Unit {0})
unfolding concat
add_test_execution_to_test_plan w test_plan_id test_execution_id = do
  _ ← send_xray_query w (
      concat (
        "mutation{addTestExecutionsToTestPlan(issueId: \"" ∷ test_plan_id
        ∷ "\", testExecIssueIds: [\"" ∷ test_execution_id ∷ "\"]) {addedTestExecutions warning}}"
        ∷ []))
  ok tt

-- CreateTestExecution: the id of the new issue, once it is added to the plan.
unfoldable pub create_test_execution : World → String → String → String → Outcome String
unfolding before_dash add_test_execution_to_test_plan concat
create_test_execution w test_plan_id test_id test_jira_key = do
  json ← send_xray_query w (
      concat (
        "mutation{createTestExecution(testIssueIds:[\""
        ∷ test_id
        ∷ "\"] jira: {fields: {summary: \"Test Execution for "
        ∷ test_jira_key
        ∷ "\", project: {key: \""
        ∷ before_dash test_jira_key
        ∷ "\"}}}) {testExecution {issueId jira(fields: [\"key\"])} warnings createdTestEnvironments}}"
        ∷ []))
  let test_exec_id = w.json_text json "data.createTestExecution.testExecution.issueId"
  _ ← add_test_execution_to_test_plan w test_plan_id test_exec_id
  ok test_exec_id

-- DeleteTestExecution
unfoldable pub delete_test_execution : World → TestRun → Outcome (Unit {0})
unfolding concat
delete_test_execution w run = do
  _ ←
      send_xray_query w
        (concat ("mutation{deleteTestExecution(issueId: \"" ∷ run.test_exec_issue_id ∷ "\")}" ∷ []))
  ok tt

-- GetTestPlan: the issue ids of the plan's tests.
unfoldable pub get_test_plan : World → String → Outcome (List String)
unfolding concat
get_test_plan w test_plan_id = do
  json ← send_xray_query w (
      concat (
        "{getTestPlan(issueId: \"" ∷ test_plan_id ∷ "\") {tests(limit: 50) {results {issueId}}}}"
        ∷ []))
  (if json == ""
      then err "unable to fetch xray data"
      else ok (w.json_list json "data.getTestPlan.tests.results.#.issueId"))
