-- ===== src/Client.antt =====
-- The calls of the test director that its clients share
-- (src/tools/extended-test-framework/common/test_director_lib.go). The generated client is a
-- parameter, as its answer to the call; the clock is one, as the text of getTime.
pub mod Laws
use Prim.Native.String
use Prim.Native.String.{String}
use Prim.Native.Char.{code}
use mayastor_e2e.Prelude.{
  ℕ, zero, suc, List, [], ◌∷◌, Option, none, some, Outcome, ok, err, panic, Bool, true, false,
  if◌then◌else◌, eqb, concat,
}
use mayastor_e2e.Models.{
  TestPlan, TestRun, TestRunSpec, TestRunStatus, todo, executing, passed, failed, Event, EventSpec,
  EventClass, fail, info, warn, EventSourceClass,
}

-- `strings.ReplaceAll(input, "\n", ": ")`
unfoldable pub replace_newlines : String → String
replace_newlines String.[] = ""
replace_newlines (String.◌∷◌ c s) =
    let rest = replace_newlines s in
    if eqb (code c) b'\n' then String.◌∷◌ ":" (String.◌∷◌ " " rest) else String.◌∷◌ c rest

-- `strings.ReplaceAll(tmp, "\"", " ")`
unfoldable pub replace_quotes : String → String
replace_quotes String.[] = ""
replace_quotes (String.◌∷◌ c s) =
    let rest = replace_quotes s in
    if eqb (code c) b'"' then String.◌∷◌ " " rest else String.◌∷◌ c rest

-- removespecial
unfoldable pub remove_special : String → String
unfolding replace_newlines replace_quotes
remove_special input = replace_quotes (replace_newlines input)

-- The body that sendTestRunStatus puts, where the clock shows `now`.
unfoldable pub test_run_status_body : String → String → String → TestRunStatus → TestRunSpec
unfolding remove_special concat
test_run_status_body now message jira_key status = record {
  text = concat (now ∷ ": " ∷ remove_special message ∷ []);
  status = status;
  test_exec_issue_id = "";
  test_id = "";
  test_key = jira_key;
}

-- sendTestRunStatus, once the director has answered.
unfoldable pub test_run_status_result : (String → String) → Outcome TestRun → Outcome (Unit {0})
unfolding concat
test_run_status_result print (ok run) = ok tt
test_run_status_result print (err e) = err (concat ("failed to put event, error: " ∷ print e ∷ []))
test_run_status_result print panic = panic

-- SendTestRunCompletedOk, SendTestRunCompletedFail, SendTestRunStarted, SendTestRunToDo
unfoldable pub send_test_run_completed_ok : String → String → String → TestRunSpec
unfolding test_run_status_body
send_test_run_completed_ok now message jira_key = test_run_status_body now message jira_key passed

unfoldable pub send_test_run_completed_fail : String → String → String → TestRunSpec
unfolding test_run_status_body
send_test_run_completed_fail now message jira_key = test_run_status_body now message jira_key failed

unfoldable pub send_test_run_started : String → String → String → TestRunSpec
unfolding test_run_status_body
send_test_run_started now message jira_key = test_run_status_body now message jira_key executing

unfoldable pub send_test_run_to_do : String → String → String → TestRunSpec
unfolding test_run_status_body
send_test_run_to_do now message jira_key = test_run_status_body now message jira_key todo

-- GetTestRunStatus: the status and the error, FAILED where there is one.
unfoldable pub get_test_run_status :
    (String → String) → Outcome TestRun → Outcome (TestRunStatus × Option String)
unfolding concat
get_test_run_status print (ok run) = ok (run.status, none)
get_test_run_status print (err e) =
    ok (failed, some (concat ("failed to get test run, error: " ∷ print e ∷ [])))
get_test_run_status print panic = panic

-- The body that SendEvent posts.
unfoldable pub event_body : String → String → String → EventClass → EventSourceClass → EventSpec
unfolding remove_special concat
event_body now source_instance message class source_class = record {
  class = class;
  details = "" ∷ [];
  message = remove_special (concat (now ∷ ": " ∷ message ∷ []));
  resource = "";
  source_class = source_class;
  source_instance = source_instance;
}

-- SendEvent, once the director has answered: the first of the details is logged.
unfoldable pub event_result : (String → String) → Outcome Event → Outcome (Unit {0})
unfolding concat
event_result print (ok event) = elim event.details [ [] ↦ panic | d ∷ ds ↦ ok tt ]
event_result print (err e) = err (concat ("failed to put event, error: " ∷ print e ∷ []))
event_result print panic = panic

-- SendEventFail, SendEventInfo, SendEventWarn
unfoldable pub send_event_fail : String → String → String → EventSourceClass → EventSpec
unfolding event_body
send_event_fail now source message source_class = event_body now source message fail source_class

unfoldable pub send_event_info : String → String → String → EventSourceClass → EventSpec
unfolding event_body
send_event_info now source message source_class = event_body now source message info source_class

unfoldable pub send_event_warn : String → String → String → EventSourceClass → EventSpec
unfolding event_body
send_event_warn now source message source_class = event_body now source message warn source_class

abbrev pub has_plan : Outcome (List TestPlan) → Bool
has_plan (ok []) = false
has_plan (ok (tp ∷ tps)) = true
has_plan (err e) = false
has_plan panic = false

-- WaitTestDirector, whose loop has no bound: whether it has ended within `r` rounds, where `answers n`
-- is the answer to its n-th call.
unfoldable pub wait_test_director : ℕ → ℕ → (ℕ → Outcome (List TestPlan)) → Bool
wait_test_director zero i answers = false
wait_test_director (suc r) i answers =
    let rest = wait_test_director r (suc i) answers in if has_plan (answers i) then true else rest
