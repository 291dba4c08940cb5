-- ===== src/Director/Server.antt =====
-- The test director as a whole: its start (cmd/test-framework-server/main.go and the Init functions
-- of handlers/*_cache.go under src/tools/extended-test-framework/test_director), the requests of its API,
-- and any sequence of them. Requests are taken one at a time.
use mayastor_e2e.Prelude.{String, List, [], ◌∷◌, Outcome, ok, err, panic, ◌>>=◌, deref, true}
use mayastor_e2e.Models.{TestPlan, TestPlanSpec, not_started, TestRunSpec, EventSpec}
use mayastor_e2e.World.{World}
use mayastor_e2e.Connectors.Jira.{get_jira_task_details}
use mayastor_e2e.Connectors.Xray
use mayastor_e2e.Director.{Platform, ServerConfig, State, Response}
use mayastor_e2e.Director.TestPlanCache
use mayastor_e2e.Director.TestPlans.{
  get_test_plans, get_test_plan, delete_test_plan, delete_test_plans, put_test_plan,
}
use mayastor_e2e.Director.TestRuns.{get_test_runs, get_test_run, delete_test_run, put_test_run}
use mayastor_e2e.Director.Events.{get_events, add_event}

-- The plan that the server starts with.
unfoldable pub default_plan : World → String → Outcome TestPlan
default_plan w key = do
  jt ← get_jira_task_details w key
  jira_id ← deref jt.id
  tests ← Xray.get_test_plan w jira_id
  name ← deref jt.name
  ok (record {
    spec = record {
      assignee = jt.assignee;
      jira_id = jira_id;
      name = name;
      status = not_started;
      tests = tests;
    };
    is_active = true;
    key = key;
  })

pub data Request : Type 0 where
  read_plans read_runs read_events drop_plans : Request
  read_plan drop_plan read_run drop_run : String → Request
  put_plan : String → TestPlanSpec → Request
  put_run : String → TestRunSpec → Request
  post_event : EventSpec → Request

module _ (p : Platform) where
  open p use {cache}

  abbrev pub empty : State p
  empty = record { plans = cache.new; runs = cache.new; events = cache.new; posts = [] }

  -- InitEventCache, InitTestPlanCache and InitTestRunCache: without its default plan the server
  -- starts with no plan.
  unfoldable pub init : World → ServerConfig → Outcome (State p)
  init w cfg = elim (default_plan w cfg.default_test_plan) [
    | ok plan ↦
        ok (record empty { plans = TestPlanCache.put p cache.new cfg.default_test_plan plan })
    | err e ↦ ok empty
    | panic ↦ panic
  ]

  unfoldable pub serve : World → ServerConfig → Request → State p → Outcome Response × State p
  serve w cfg read_plans st = (ok (get_test_plans p st), st)
  serve w cfg read_runs st = (ok (get_test_runs p st), st)
  serve w cfg read_events st = (ok (get_events p st), st)
  serve w cfg drop_plans st = delete_test_plans p st
  serve w cfg (read_plan id) st = (ok (get_test_plan p id st), st)
  serve w cfg (drop_plan id) st = delete_test_plan p id st
  serve w cfg (read_run id) st = (ok (get_test_run p id st), st)
  serve w cfg (drop_run id) st = delete_test_run p id st
  serve w cfg (put_plan id spec) st = put_test_plan p w id spec st
  serve w cfg (put_run id spec) st = put_test_run p w id spec st
  serve w cfg (post_event spec) st = add_event p w cfg spec st

  -- A history: each request meets a world of its own. A panic ends the request, not the server.
  unfoldable pub serve_all : ServerConfig → List (World × Request) → State p → State p
  serve_all cfg [] st = st
  serve_all cfg ((w, r) ∷ rs) st = serve_all cfg rs (serve w cfg r st).1
