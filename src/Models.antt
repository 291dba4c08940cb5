-- ===== src/Models.antt =====
-- The records of the test director's API
-- (src/tools/extended-test-framework/test_director/models/*.go).
-- A pointer that the API's validation requires, or that every writer sets, is the value that it
-- points at. `DateTime` counts milliseconds, the precision of strfmt.DateTime, from Go's zero time.
use mayastor_e2e.Prelude.{ℕ, String, List, Bool, true, false}

pub data TestPlanStatus : Type 0 where
  not_started running complete_pass complete_fail : TestPlanStatus

pub record TestPlanSpec : Type 0 where
  pub assignee : String
  pub jira_id : String
  pub name : String
  pub status : TestPlanStatus
  pub tests : List String  -- the issue ids

pub record TestPlan : Type 0 where
  pub spec : TestPlanSpec
  pub open spec use *
  pub is_active : Bool
  pub key : String

-- `unset` is the empty status, which the API admits in a request.
pub data TestRunStatus : Type 0 where
  unset todo executing passed failed : TestRunStatus

abbrev pub DateTime : Type 0
DateTime = ℕ

pub record TestRunSpec : Type 0 where
  pub text : String  -- Data
  pub status : TestRunStatus
  pub test_exec_issue_id : String
  pub test_id : String
  pub test_key : String

pub record TestRun : Type 0 where
  pub spec : TestRunSpec
  pub open spec use *
  pub id : String
  pub start_date_time : DateTime
  pub end_date_time : DateTime

pub data EventClass : Type 0 where
  fail info warn : EventClass

pub data EventSourceClass : Type 0 where
  workload_monitor log_monitor resource_monitor test_conductor : EventSourceClass

pub record EventSpec : Type 0 where
  pub class : EventClass
  pub details : List String  -- Data
  pub message : String
  pub resource : String
  pub source_class : EventSourceClass
  pub source_instance : String

pub record Event : Type 0 where
  pub spec : EventSpec
  pub open spec use *
  pub id : String
  pub logged_date_time : DateTime

-- The tests `==` and `!=` of the code on statuses and classes.
abbrev pub is_not_started : TestPlanStatus → Bool
is_not_started not_started = true
is_not_started _ = false

abbrev pub is_running : TestPlanStatus → Bool
is_running running = true
is_running _ = false

abbrev pub is_complete_pass : TestPlanStatus → Bool
is_complete_pass complete_pass = true
is_complete_pass _ = false

abbrev pub is_complete_fail : TestPlanStatus → Bool
is_complete_fail complete_fail = true
is_complete_fail _ = false

abbrev pub is_todo : TestRunStatus → Bool
is_todo todo = true
is_todo _ = false

abbrev pub is_executing : TestRunStatus → Bool
is_executing executing = true
is_executing _ = false

abbrev pub is_passed : TestRunStatus → Bool
is_passed passed = true
is_passed _ = false

abbrev pub is_failed : TestRunStatus → Bool
is_failed failed = true
is_failed _ = false

abbrev pub is_fail : EventClass → Bool
is_fail fail = true
is_fail _ = false

abbrev pub is_info : EventClass → Bool
is_info info = true
is_info _ = false

abbrev pub is_log_monitor : EventSourceClass → Bool
is_log_monitor log_monitor = true
is_log_monitor _ = false
