-- ===== src/Scenarios.antt =====
-- A small system for the tests, and the properties at concrete inputs: one test plan with one test
-- (src/tools/extended-test-framework/test_director), and one watched pod (workload_monitor).
mod Plans
mod NewRuns
mod Events
mod Workloads
mod Clients
mod Nodes
mod Volumes
mod Checks
mod Restarts
mod Runs
use mayastor_e2e.Prelude.{
  ◌≡◌, refl, String, [], ◌∷◌, List, Option, none, some, Outcome, ok, ℕ, true,
}
use mayastor_e2e.GoMap.{lookup, insert}
use mayastor_e2e.Cache.Typed
use mayastor_e2e.Cache.Reference.{reference}
use mayastor_e2e.Models.{TestPlan, not_started, running, TestRun, TestRunStatus, TestRunSpec}
use mayastor_e2e.World.{World, JiraTask, Exchange, Reply, replied}
use mayastor_e2e.Director.{ServerConfig, State}
use mayastor_e2e.Director.TestPlanCache
use mayastor_e2e.Director.RunWrites.{put_run}
use mayastor_e2e.Director.Server.{init, empty}

abbrev config : ServerConfig
config = record {
  default_test_plan = "MQ-1";
  slack_notification = true;
  slack_web_hook = "https://hooks.example.com/1";
}

-- Jira's issue, of the given type.
abbrev issue : String → JiraTask
issue type = record {
  key = "MQ-2";
  id = some "10002";
  assignee = "ann";
  name = some "smoke";
  issue_type = some type;
}

-- Xray answers every query with the text.
abbrev answer : String → Exchange
answer text = record {
  auth = replied 200 "\"token\"";
  auth_again = replied 200 "\"token\"";
  answer = replied 200 text;
}

abbrev world : String → World
world type = record {
  jira = λ url. replied 200 "{}";
  decode_task = λ body. ok (issue type);
  xray = λ query i. answer "{}";
  json_text = λ json path. "20001";
  json_list = λ json path. "10002" ∷ [];
  print_time = λ t. "2021-11-05T10:00:00Z";
  now = 7;
  uuid = "e1";
}

abbrev plan : TestPlan
plan = record {
  spec = record {
    assignee = "ann";
    jira_id = "10002";
    name = "smoke";
    status = not_started;
    tests = "10002" ∷ [];
  };
  is_active = true;
  key = "MQ-1";
}

abbrev initial : State reference
initial = record (empty reference) {
  plans = TestPlanCache.put reference (reference.cache.new) "MQ-1" plan;
}

abbrev run : TestRunStatus → TestRun
run status = record {
  spec = record {
    text = "begun";
    status = status;
    test_exec_issue_id = "20001";
    test_id = "10002";
    test_key = "MQ-1";
  };
  id = "20001";
  start_date_time = 1;
  end_date_time = 0;
}

abbrev with_run : TestRunStatus → State reference
with_run status = record initial {
  runs = put_run reference (reference.cache.new) "r1" (run status);
}

abbrev asked : TestRunStatus → TestRunSpec
asked status = record {
  text = "now";
  status = status;
  test_exec_issue_id = "";
  test_id = "";
  test_key = "MQ-1";
}
