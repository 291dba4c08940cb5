-- ===== src/Director/NewRun.antt =====
-- PUT /testRuns/{id} of test_runs.go for a run that is not there.
use mathlib.Core.List.{Memᴰ}
use mayastor_e2e.Prelude.{
  ◌≡◌, ◌≢◌, refl, String, ◌==◌, eq_iff, none, some, if◌then◌else◌, arith, ok, panic, err, text_self,
}
use mayastor_e2e.Cache.Typed
use mayastor_e2e.Models.{TestPlan, TestRun, TestRunSpec, todo}
use mayastor_e2e.World.{World, JiraTask}
use mayastor_e2e.Connectors.Jira.{get_jira_task_details}
use mayastor_e2e.Connectors.Xray
use mayastor_e2e.Director.{Platform, State, run_body, refuse, not_found}
use mayastor_e2e.Director.TestPlanCache
use mayastor_e2e.Director.TestRunCache
use mayastor_e2e.Director.TestRuns.{run_from_jira, put_test_run, get_test_run}
use mayastor_e2e.Director.RunWrites.{put_run, save_run-put}
use mayastor_e2e.Director.RunEffects.{contains_of_mem}

-- A run as it is created: TO DO, whatever status was asked for.
abbrev pub created : TestRunSpec → String → String → TestRun
created spec test_id execution = record {
  spec = record {
    text = spec.text;
    status = todo;
    test_exec_issue_id = execution;
    test_id = test_id;
    test_key = spec.test_key;
  };
  id = execution;
  start_date_time = 0;
  end_date_time = 0;
}

module _ (p : Platform) where
  open p use {cache, run_codec}

  pub put_new :
      (w : World) (id : String) (spec : TestRunSpec) (st : State p) (run : TestRun)
      → TestRunCache.get p st.runs id ≡ none
      → run_from_jira p w spec st ≡ ok run
      → put_test_run p w id spec st
        ≡ (ok (run_body run), record st { runs = put_run p st.runs id run })
  unfolding put_test_run
  put_new w id spec st run e j = ground (arith, save_run-put p id run st)

  pub put_new_refused :
      (w : World) (id : String) (spec : TestRunSpec) (st : State p) (x : String)
      → TestRunCache.get p st.runs id ≡ none
      → run_from_jira p w spec st ≡ err x
      → put_test_run p w id spec st ≡ (ok (refuse x), st)
  unfolding put_test_run
  put_new_refused w id spec st x e j = ground arith

  pub put_new_panic :
      (w : World) (id : String) (spec : TestRunSpec) (st : State p)
      → TestRunCache.get p st.runs id ≡ none
      → run_from_jira p w spec st ≡ panic
      → put_test_run p w id spec st ≡ (panic, st)
  unfolding put_test_run
  put_new_panic w id spec st e j = ground arith

  -- A PUT on an id that is not there, for a Jira issue of type Test whose id is among the tests of
  -- the active plan, when Xray makes an execution: the run is stored, as TO DO, under the
  -- request's id and under no other, while the id that it carries is the execution's. No plan
  -- changes.
  pub put_test_run_new :
      (w : World) (id : String) (spec : TestRunSpec) (st : State p) (jt : JiraTask) (tp : TestPlan)
      (test_id execution : String)
      → TestRunCache.get p st.runs id ≡ none
      → get_jira_task_details w spec.test_key ≡ ok jt
      → jt.issue_type ≡ some "Test"
      → jt.id ≡ some test_id
      → TestPlanCache.get_active p st.plans ≡ some tp
      → Memᴰ test_id tp.tests
      → Xray.create_test_execution w tp.jira_id test_id jt.key ≡ ok execution
      → let (r, st') = put_test_run p w id spec st in
        (r ≡ ok (run_body (created spec test_id execution)))
        × ((k : String)
            → TestRunCache.get p st'.runs k ≡ (
                if id == k
                then some (created spec test_id execution)
                else TestRunCache.get p st.runs k))
        × (st'.plans ≡ st.plans)
  unfolding run_from_jira
  put_test_run_new w id spec st jt tp test_id execution e j ty i active m x =
      let found = contains_of_mem tp.tests test_id m in
      rw
        (put_new w id spec st (created spec test_id execution) e (ground (arith, text_self "Test")))
        (
          refl,
          (λ k. Typed.fetch-put cache run_codec st.runs id k (created spec test_id execution)),
          refl,
        )

  -- A PUT on an id that is not there, for which a run can be made, answers with the run. If the
  -- run's own id is another one, under which nothing is stored, a GET by that id then finds
  -- nothing.
  pub put_test_run_new_lost :
      (w : World) (id : String) (spec : TestRunSpec) (st : State p) (run : TestRun)
      → TestRunCache.get p st.runs id ≡ none
      → run_from_jira p w spec st ≡ ok run
      → run.id ≢ id
      → TestRunCache.get p st.runs run.id ≡ none
      → let (r, st') = put_test_run p w id spec st in
        (r ≡ ok (run_body run)) × (get_test_run p run.id st' ≡ not_found)
  unfolding get_test_run
  put_test_run_new_lost w id spec st run e j n q = rw (put_new w id spec st run e j) (
    refl,
    ground (arith, Typed.fetch-put cache run_codec st.runs id run.id run, eq_iff id run.id),
  )
