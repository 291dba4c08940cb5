-- ===== src/Director/RunMoves.antt =====
-- PUT /testRuns/{id} of test_runs.go on a run that is there: how its status may move.
use mayastor_e2e.Prelude.{
  ◌≡◌, ◌≢◌, refl, ◌∙◌, ap, inl, inr, ◌⊎◌, String, some, true, not, ◌&&◌, arith, Outcome, ok, err,
  panic, text_self, if_cases,
}
use mayastor_e2e.Cache.Typed
use mayastor_e2e.Models.{
  TestPlan, TestRun, TestRunSpec, TestRunStatus, todo, executing, passed, failed, is_todo,
  is_executing, is_passed, is_failed,
}
use mayastor_e2e.World.{World}
use mayastor_e2e.Director.{Platform, State, Response}
use mayastor_e2e.Director.TestRunCache
use mayastor_e2e.Connectors.Xray
use mayastor_e2e.Director.RunWrites.{
  put_run, save_run-put, start_run_ok, start_run_err, start_run_panic, end_run_ok, end_run_err,
  end_run_panic,
}
use mayastor_e2e.Director.TestRuns.{
  started, failed_with, passed_with, check_start, start_run, end_run, put_existing, put_test_run,
}

-- How the status of a stored run may change at one request.
pub data RunMove : TestRunStatus → TestRunStatus → Type 0 where
  stay : {s : TestRunStatus} → RunMove s s
  start : RunMove todo executing
  fail : {s : TestRunStatus} → s ≢ todo → RunMove s failed
  pass : {s : TestRunStatus} → s ≢ todo → RunMove s passed

not_todo : (s : TestRunStatus) → not (is_todo s) ≡ true → s ≢ todo
not_todo s h e = cc (rw e at h)

module _ (p : Platform) where
  open p use {cache, run_codec}

  -- The runs are as they were, or one run was written whose status moved as it may.
  abbrev pub Wrote : String → TestRunStatus → State p → State p → Type 0
  Wrote id s st st' =
      (st'.runs ≡ st.runs)
      ⊎ ((b : TestRun) × (st'.runs ≡ put_run p st.runs id b) × RunMove s b.status)

  start_run-Wrote :
      (w : World) (id : String) (b : TestRun) (s : TestRunStatus) (st : State p)
      → RunMove s b.status
      → Wrote id s st (start_run p w id b st).1
  start_run-Wrote w id b s st m = go (check_start p w b st) refl
    where
      go :
          (o : Outcome TestPlan)
          → check_start p w b st ≡ o
          → Wrote id s st (start_run p w id b st).1
      go (ok tp) e = rw (start_run_ok p w id b st tp e) (inr (b, refl, m))
      go (err x) e = rw (start_run_err p w id b st x e) (inl refl)
      go panic e = rw (start_run_panic p w id b st e) (inl refl)

  end_run-Wrote :
      (w : World) (id : String) (b : TestRun) (s : TestRunStatus) (st : State p)
      → RunMove s b.status
      → Wrote id s st (end_run p w id b st).1
  end_run-Wrote w id b s st m = go (Xray.update_test_run w b) refl
    where
      go :
          (o : Outcome (Unit {0}))
          → Xray.update_test_run w b ≡ o
          → Wrote id s st (end_run p w id b st).1
      go (ok _) e = rw (end_run_ok p w id b st e) (inr (b, refl, m))
      go (err x) e = rw (end_run_err p w id b st x e) (inl refl)
      go panic e = rw (end_run_panic p w id b st e) (inl refl)

  -- The four ways of the handler through a run that is there.
  pub put_existing-Wrote :
      (w : World) (id : String) (a : TestRun) (spec : TestRunSpec) (st : State p)
      → Wrote id a.status st (put_existing p w id a spec st).1
  unfolding put_existing started failed_with passed_with
  put_existing-Wrote w id a spec st =
      if_cases Q (is_todo a.status && is_executing spec.status) _ _
        (λ t.
          start_run-Wrote w id (started w a spec) a.status st
            (starts (started w a spec) (ground arith) (ground arith)))
        λ _.
          if_cases Q (not (is_todo a.status) && is_failed spec.status) _ _
            (λ t.
              end_run-Wrote w id (failed_with w a spec) a.status st
                (fails (failed_with w a spec) (ground arith) (ground arith)))
            λ _.
              if_cases Q (not (is_todo a.status) && is_passed spec.status) _ _
                (λ t.
                  end_run-Wrote w id (passed_with w a spec) a.status st
                    (passes (passed_with w a spec) (ground arith) (ground arith)))
                λ _. rw (save_run-put p id a st) (inr (a, refl, stay))
    where
      Q : Outcome Response × State p → Type 0
      Q r = Wrote id a.status st r.1

      starts : (b : TestRun) → a.status ≡ todo → b.status ≡ executing → RunMove a.status b.status
      starts b x y = rw (x, y) start

      fails : (b : TestRun) → a.status ≢ todo → b.status ≡ failed → RunMove a.status b.status
      fails b x y = rw y (fail x)

      passes : (b : TestRun) → a.status ≢ todo → b.status ≡ passed → RunMove a.status b.status
      passes b x y = rw y (pass x)

  pub put_test_run_existing :
      (w : World) (id : String) (spec : TestRunSpec) (st : State p) (a : TestRun)
      → TestRunCache.get p st.runs id ≡ some a
      → put_test_run p w id spec st ≡ put_existing p w id a spec st
  unfolding put_test_run
  put_test_run_existing w id spec st a e = ground arith

  -- A PUT on a run that is there leaves a run there, whose status is the same or moved from TO DO to
  -- EXECUTING, or from anything but TO DO to FAILED or PASSED.
  pub put_test_run-RunMove :
      (w : World) (id : String) (spec : TestRunSpec) (st : State p) (a : TestRun)
      → TestRunCache.get p st.runs id ≡ some a
      → (b : TestRun) × (TestRunCache.get p (put_test_run p w id spec st).1.runs id ≡ some b)
        × RunMove a.status b.status
  put_test_run-RunMove w id spec st a e =
      rw (put_test_run_existing w id spec st a e) (elim (put_existing-Wrote w id a spec st) [
        | inl same ↦ (a, ap (λ s. TestRunCache.get p s id) same ∙ e, stay)
        | inr (b, wrote, m) ↦ (
          b,
          ap (λ s. TestRunCache.get p s id) wrote
              ∙ ground (arith, Typed.fetch-put cache run_codec st.runs id id b, text_self id),
          m,
        )
      ])
