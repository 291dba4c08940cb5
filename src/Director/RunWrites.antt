-- ===== src/Director/RunWrites.antt =====
-- What the parts of PUT /testRuns/{id} (test_runs.go) answer and write, case by case.
use mayastor_e2e.Prelude.{◌≡◌, String, ok, err, panic, arith}
use mayastor_e2e.Cache.Typed
use mayastor_e2e.Models.{TestPlan, TestRun, running}
use mayastor_e2e.World.{World}
use mayastor_e2e.Connectors.Xray
use mayastor_e2e.Director.{Platform, State, run_body, refuse}
use mayastor_e2e.Director.TestPlanCache
use mayastor_e2e.Director.TestPlans.{with_status}
use mayastor_e2e.Director.TestRuns.{
  save_run, mark_plan, update_test_run, check_start, start_run, end_run,
}

module _ (p : Platform) where
  open p use {cache, run_codec}

  abbrev pub put_run : cache.Store → String → TestRun → cache.Store
  put_run = Typed.put cache run_codec

  pub save_run-put :
      (id : String) (run : TestRun) (st : State p)
      → save_run p id run st ≡ (ok (run_body run), record st { runs = put_run st.runs id run })
  unfolding save_run
  save_run-put id run st = ground (arith, Typed.store-put cache run_codec st.runs id run)

  pub start_run_ok :
      (w : World) (id : String) (run : TestRun) (st : State p) (tp : TestPlan)
      → check_start p w run st ≡ ok tp
      → start_run p w id run st ≡ (
        ok (run_body run),
        record st {
          plans = TestPlanCache.put p st.plans tp.key (with_status running tp);
          runs = put_run st.runs id run;
        },
      )
  unfolding start_run
  start_run_ok w id run st tp e = ground (
    arith,
    save_run-put id run
        (record st { plans = TestPlanCache.put p st.plans tp.key (with_status running tp) }),
  )

  pub start_run_err :
      (w : World) (id : String) (run : TestRun) (st : State p) (x : String)
      → check_start p w run st ≡ err x
      → start_run p w id run st ≡ (ok (refuse x), st)
  unfolding start_run
  start_run_err w id run st x e = ground arith

  pub start_run_panic :
      (w : World) (id : String) (run : TestRun) (st : State p)
      → check_start p w run st ≡ panic
      → start_run p w id run st ≡ (panic, st)
  unfolding start_run
  start_run_panic w id run st e = ground arith

  -- `mark_plan` writes plans only.
  pub runs-mark_plan : (run : TestRun) (st : State p) → (mark_plan p run st).runs ≡ st.runs
  unfolding mark_plan
  runs-mark_plan run st = ground arith

  pub update_test_run_ok :
      (w : World) (run : TestRun) (st : State p)
      → Xray.update_test_run w run ≡ ok tt
      → update_test_run p w run st ≡ (ok tt, mark_plan p run st)
  unfolding update_test_run
  update_test_run_ok w run st e = ground arith

  pub update_test_run_err :
      (w : World) (run : TestRun) (st : State p) (x : String)
      → Xray.update_test_run w run ≡ err x
      → update_test_run p w run st ≡ (err x, st)
  unfolding update_test_run
  update_test_run_err w run st x e = ground arith

  pub update_test_run_panic :
      (w : World) (run : TestRun) (st : State p)
      → Xray.update_test_run w run ≡ panic
      → update_test_run p w run st ≡ (panic, st)
  unfolding update_test_run
  update_test_run_panic w run st e = ground arith

  pub end_run_ok :
      (w : World) (id : String) (run : TestRun) (st : State p)
      → Xray.update_test_run w run ≡ ok tt
      → end_run p w id run st
        ≡ (ok (run_body run), record (mark_plan p run st) { runs = put_run st.runs id run })
  unfolding end_run
  end_run_ok w id run st e = ground (
    arith,
    update_test_run_ok w run st e,
    save_run-put id run (mark_plan p run st),
    runs-mark_plan run st,
  )

  pub end_run_err :
      (w : World) (id : String) (run : TestRun) (st : State p) (x : String)
      → Xray.update_test_run w run ≡ err x
      → end_run p w id run st ≡ (ok (refuse x), st)
  unfolding end_run
  end_run_err w id run st x e = ground (arith, update_test_run_err w run st x e)

  pub end_run_panic :
      (w : World) (id : String) (run : TestRun) (st : State p)
      → Xray.update_test_run w run ≡ panic
      → end_run p w id run st ≡ (panic, st)
  unfolding end_run
  end_run_panic w id run st e = ground (arith, update_test_run_panic w run st e)
