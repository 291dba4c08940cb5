-- ===== src/Director/Histories.antt =====
-- What holds of the test director after any history of requests.
use mayastor_e2e.Prelude.{
  ◌≡◌, refl, ◌∙◌, ap, inl, inr, String, eq_iff, List, [], ◌∷◌, Option, none, some, not, ◌&&◌, arith,
  Outcome, ok, err, panic, if_cases, Option-cases,
}
use mayastor_e2e.Cache.Typed
use mayastor_e2e.Models.{
  TestPlan, running, TestRun, TestRunSpec, failed, EventSpec, is_todo, is_executing, is_failed,
  is_passed,
}
use mayastor_e2e.World.{World}
use mayastor_e2e.Connectors.Xray
use mayastor_e2e.Director.{Platform, ServerConfig, State, Response}
use mayastor_e2e.Director.TestPlanCache
use mayastor_e2e.Director.TestRunCache
use mayastor_e2e.Director.TestPlans.{with_status}
use mayastor_e2e.Director.TestRuns.{
  with_run_status, update_test_run, started, failed_with, passed_with, check_start, start_run,
  end_run, put_existing, put_test_run, run_from_jira, delete_test_run,
}
use mayastor_e2e.Director.SoundPlans.{
  IsSound, new-IsSound, put-IsFiled, put_same-IsSound, get_active_found,
}
use mayastor_e2e.Director.PutPlan.{put_test_plan-IsSound}
use mayastor_e2e.Director.DeletePlans.{delete_test_plans_lem, delete_test_plan_lem}
use mayastor_e2e.Director.RunWrites
use mayastor_e2e.Director.RunWrites.{
  save_run-put, start_run_ok, start_run_err, start_run_panic, end_run_ok, end_run_err,
  end_run_panic,
}
use mayastor_e2e.Director.RunEnds.{mark_plan-IsSound}
use mayastor_e2e.Director.Events.{apply_event, fail_run, noted}
use mayastor_e2e.Director.EventEffects.{add_event_frame, note_on_run-put, note_on_run-none}
use mayastor_e2e.Director.Server.{
  Request, drop_plans, drop_plan, drop_run, put_plan, put_run, post_event, default_plan, init,
  serve, serve_all,
}

module _ (p : Platform) where
  open p use {cache, plan_codec}

  check_start_active :
      (w : World) (run : TestRun) (st : State p) (tp : TestPlan)
      → check_start p w run st ≡ ok tp
      → TestPlanCache.get_active p st.plans ≡ some tp
  unfolding check_start
  check_start_active w run st tp e = ground arith

  start_run-IsSound :
      (w : World) (id : String) (b : TestRun) (st : State p)
      → IsSound p st.plans
      → IsSound p (start_run p w id b st).1.plans
  start_run-IsSound w id b st v = go (check_start p w b st) refl
    where
      go :
          (o : Outcome TestPlan)
          → check_start p w b st ≡ o
          → IsSound p (start_run p w id b st).1.plans
      go (ok tp) e =
          let (k, q, x) = get_active_found p st.plans tp (check_start_active w b st tp e) in
          let key = v.filed.keyed k tp q in
          rw (start_run_ok p w id b st tp e) (
            put_same-IsSound p st.plans tp.key tp (with_status running tp)
              (ap (TestPlanCache.get p st.plans) key ∙ q) refl refl v)
      go (err x) e = rw (start_run_err p w id b st x e) v
      go panic e = rw (start_run_panic p w id b st e) v

  end_run-IsSound :
      (w : World) (id : String) (b : TestRun) (st : State p)
      → IsSound p st.plans
      → IsSound p (end_run p w id b st).1.plans
  end_run-IsSound w id b st v = go (Xray.update_test_run w b) refl
    where
      go :
          (o : Outcome (Unit {0}))
          → Xray.update_test_run w b ≡ o
          → IsSound p (end_run p w id b st).1.plans
      go (ok _) e = rw (end_run_ok p w id b st e) (mark_plan-IsSound p b st v)
      go (err x) e = rw (end_run_err p w id b st x e) v
      go panic e = rw (end_run_panic p w id b st e) v

  put_existing-IsSound :
      (w : World) (id : String) (a : TestRun) (spec : TestRunSpec) (st : State p)
      → IsSound p st.plans
      → IsSound p (put_existing p w id a spec st).1.plans
  unfolding put_existing
  put_existing-IsSound w id a spec st v =
      if_cases Q (is_todo a.status && is_executing spec.status) _ _
        (λ _. start_run-IsSound w id (started w a spec) st v)
        λ _.
          if_cases Q (not (is_todo a.status) && is_failed spec.status) _ _
            (λ _. end_run-IsSound w id (failed_with w a spec) st v)
            λ _.
              if_cases Q (not (is_todo a.status) && is_passed spec.status) _ _
                (λ _. end_run-IsSound w id (passed_with w a spec) st v)
                λ _. rw (save_run-put p id a st) v
    where
      Q : Outcome Response × State p → Type 0
      Q r = IsSound p r.1.plans

  put_test_run-IsSound :
      (w : World) (id : String) (spec : TestRunSpec) (st : State p)
      → IsSound p st.plans
      → IsSound p (put_test_run p w id spec st).1.plans
  unfolding put_test_run
  put_test_run-IsSound w id spec st v =
      go (TestRunCache.get p st.runs id) (run_from_jira p w spec st) refl refl
    where
      go :
          (o : Option TestRun) (n : Outcome TestRun)
          → TestRunCache.get p st.runs id ≡ o
          → run_from_jira p w spec st ≡ n
          → IsSound p (put_test_run p w id spec st).1.plans
      go (some a) n e f = rw (e, put_test_run) (put_existing-IsSound w id a spec st v)
      go none (ok run) e f = rw (e, f, put_test_run, save_run-put p id run st) v
      go none (err x) e f = rw (e, f, put_test_run) v
      go none panic e f = rw (e, f, put_test_run) v

  update_test_run-IsSound :
      (w : World) (run : TestRun) (st : State p)
      → IsSound p st.plans
      → IsSound p (update_test_run p w run st).1.plans
  unfolding update_test_run
  update_test_run-IsSound w run st v = ground (arith, mark_plan-IsSound p run st v)

  apply_event-IsSound :
      (w : World) (spec : EventSpec) (st : State p)
      → IsSound p st.plans
      → IsSound p (apply_event p w spec st).1.plans
  unfolding apply_event fail_run
  apply_event-IsSound w spec st v =
      elim (Option-cases (TestRunCache.get p st.runs spec.source_instance)) [
        | inl n ↦ ground (arith, note_on_run-none p spec st n)
        | inr (a, e) ↦
            let st' = record st {
              runs = RunWrites.put_run p st.runs spec.source_instance (noted spec a);
            } in
            ground (
              arith,
              note_on_run-put p spec st a e,
              update_test_run-IsSound w (with_run_status failed (noted spec a)) st' v,
            )
      ]

  -- Every request keeps the plans sound, whatever the other services answer.
  pub serve-IsSound :
      (w : World) (cfg : ServerConfig) (r : Request) (st : State p)
      → IsSound p st.plans
      → IsSound p (serve p w cfg r st).1.plans
  unfolding serve delete_test_run
  serve-IsSound w cfg (put_plan id spec) st v = put_test_plan-IsSound p w id spec st v
  serve-IsSound w cfg (put_run id spec) st v = put_test_run-IsSound w id spec st v
  serve-IsSound w cfg (post_event spec) st v =
      rw ((add_event_frame p w cfg spec st).1) (apply_event-IsSound w spec st v)
  serve-IsSound w cfg drop_plans st v = (delete_test_plans_lem p st v).2
  serve-IsSound w cfg (drop_plan id) st v = (delete_test_plan_lem p id st v).2
  serve-IsSound w cfg (drop_run id) st v = ground arith
  serve-IsSound w cfg _ st v = v

  serve_all-IsSound :
      (cfg : ServerConfig) (rs : List (World × Request)) (st : State p)
      → IsSound p st.plans
      → IsSound p (serve_all p cfg rs st).plans
  unfolding serve_all
  serve_all-IsSound cfg [] st v = v
  serve_all-IsSound cfg ((w, r) ∷ rs) st v = serve_all-IsSound cfg rs _ (serve-IsSound w cfg r st v)

  first-IsSound :
      (k : String) (a : TestPlan) → a.key ≡ k → IsSound p (TestPlanCache.put p cache.new k a)
  first-IsSound k a e = record {
    filed = put-IsFiled p cache.new k a e (new-IsSound p).filed;
    one_active = λ i j x y ei ej ax ay. ground (
      arith,
      Typed.fetch-put cache plan_codec cache.new k i a,
      Typed.fetch-put cache plan_codec cache.new k j a,
      Typed.fetch-new cache plan_codec i,
      Typed.fetch-new cache plan_codec j,
      eq_iff k i,
      eq_iff k j,
    );
  }

  default_plan-key :
      (w : World) (key : String) (a : TestPlan) → default_plan w key ≡ ok a → a.key ≡ key
  unfolding default_plan
  default_plan-key w key a e = ground arith

  init-IsSound :
      (w : World) (cfg : ServerConfig) (st : State p) → init p w cfg ≡ ok st → IsSound p st.plans
  unfolding init
  init-IsSound w cfg st e = go (default_plan w cfg.default_test_plan) refl
    where
      go : (o : Outcome TestPlan) → default_plan w cfg.default_test_plan ≡ o → IsSound p st.plans
      go (ok a) q = ground (
        arith,
        first-IsSound cfg.default_test_plan a (default_plan-key w cfg.default_test_plan a q),
      )
      go (err x) q = ground (arith, new-IsSound p)
      go panic q = absurd (ground arith)

  -- From its start on, after any requests and whatever the other services answer to them, the
  -- director holds each test plan under its own key, and at most one of them is active.
  pub director-IsSound :
      (w : World) (cfg : ServerConfig) (st : State p) (rs : List (World × Request))
      → init p w cfg ≡ ok st
      → IsSound p (serve_all p cfg rs st).plans
  director-IsSound w cfg st rs e = serve_all-IsSound cfg rs st (init-IsSound w cfg st e)
