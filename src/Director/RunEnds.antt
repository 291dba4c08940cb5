-- ===== src/Director/RunEnds.antt =====
-- PUT /testRuns/{id} of test_runs.go: what ending a run does to the caches.
use mayastor_e2e.Prelude.{
  ◌≡◌, ◌≢◌, refl, ◌∙◌, ap, inl, inr, String, ◌==◌, eq_iff, some, if◌then◌else◌, arith, ok,
  Option-cases, map_option,
}
use mayastor_e2e.Cache.Typed
use mayastor_e2e.Models.{
  TestPlan, complete_pass, complete_fail, is_complete_fail, TestRun, TestRunSpec, todo, passed,
  failed,
}
use mayastor_e2e.World.{World}
use mayastor_e2e.Connectors.Xray
use mayastor_e2e.Director.{Platform, State, run_body}
use mayastor_e2e.Director.TestPlanCache
use mayastor_e2e.Director.TestRunCache
use mayastor_e2e.Director.TestPlans.{with_status}
use mayastor_e2e.Director.TestRuns.{
  add_text, verdict, mark_plan, failed_with, passed_with, put_existing, put_test_run,
}
use mayastor_e2e.Director.RunWrites.{put_run, end_run_ok}
use mayastor_e2e.Director.RunMoves.{put_test_run_existing}
use mayastor_e2e.Director.SoundPlans.{IsSound, put_same-IsSound}

module _ (p : Platform) where
  open p use {cache, run_codec, plan_codec}

  abbrev with_verdict : TestRun → TestPlan → TestPlan
  with_verdict run tp = with_status (verdict run.status tp.status) tp

  -- The plan whose key is the run's test key, if there is one, gets the verdict; the others stay.
  pub get-mark_plan :
      (run : TestRun) (st : State p) (k : String)
      → IsSound p st.plans
      → TestPlanCache.get p (mark_plan p run st).plans k ≡ (
          if run.test_key == k
          then map_option (with_verdict run) (TestPlanCache.get p st.plans k)
          else TestPlanCache.get p st.plans k)
  unfolding mark_plan
  get-mark_plan run st k v = elim (Option-cases (TestPlanCache.get p st.plans run.test_key)) [
    | inl n ↦ ground (arith, n, eq_iff run.test_key k)
    | inr (tp, e) ↦ ground (
      arith,
      e,
      eq_iff run.test_key k,
      v.filed.keyed run.test_key tp e,
      Typed.fetch-put cache plan_codec st.plans tp.key k (with_verdict run tp),
    )
  ]

  pub mark_plan-IsSound :
      (run : TestRun) (st : State p) → IsSound p st.plans → IsSound p (mark_plan p run st).plans
  unfolding mark_plan
  mark_plan-IsSound run st v = elim (Option-cases (TestPlanCache.get p st.plans run.test_key)) [
    | inl n ↦ rw (n, mark_plan) v
    | inr (tp, e) ↦
        rw (e, mark_plan)
          (put_same-IsSound p st.plans tp.key tp (with_verdict run tp)
            (ap (TestPlanCache.get p st.plans) (v.filed.keyed run.test_key tp e) ∙ e) refl refl v)
  ]

  put_existing_end :
      (w : World) (id : String) (a : TestRun) (spec : TestRunSpec) (st : State p)
      → a.status ≢ todo
      → ((spec.status ≡ failed) × (Xray.update_test_run w (failed_with w a spec) ≡ ok tt)
          → put_existing p w id a spec st ≡ (
            ok (run_body (failed_with w a spec)),
            record (mark_plan p (failed_with w a spec) st) {
              runs = put_run p st.runs id (failed_with w a spec);
            },
          ))
        × ((spec.status ≡ passed) × (Xray.update_test_run w (passed_with w a spec) ≡ ok tt)
            → put_existing p w id a spec st ≡ (
              ok (run_body (passed_with w a spec)),
              record (mark_plan p (passed_with w a spec) st) {
                runs = put_run p st.runs id (passed_with w a spec);
              },
            ))
  unfolding put_existing
  put_existing_end w id a spec st n = (
    (λ (t, x). ground (arith, end_run_ok p w id (failed_with w a spec) st x)),
    (λ (t, x). ground (arith, end_run_ok p w id (passed_with w a spec) st x)),
  )

  -- If the plans are sound, a PUT of FAILED on a stored run that is past TO DO, whose update Xray
  -- takes: the run is stored as FAILED, its text extended by the request's and its end set to the
  -- present; the plan under the run's test key, if there is one, becomes COMPLETE_FAIL, and no
  -- other run or plan changes.
  pub put_test_run_fail :
      (w : World) (id : String) (spec : TestRunSpec) (st : State p) (a : TestRun)
      → IsSound p st.plans
      → TestRunCache.get p st.runs id ≡ some a
      → a.status ≢ todo
      → spec.status ≡ failed
      → Xray.update_test_run w (failed_with w a spec) ≡ ok tt
      → let b = failed_with w a spec in
        let (r, st') = put_test_run p w id spec st in
        (r ≡ ok (run_body b))
        × ((b.status ≡ failed) × (b.text ≡ add_text a.text spec.text) × (b.end_date_time ≡ w.now))
        × ((k : String)
            → TestRunCache.get p st'.runs k
              ≡ (if id == k then some b else TestRunCache.get p st.runs k))
        × ((k : String)
            → TestPlanCache.get p st'.plans k ≡ (
                if a.test_key == k
                then map_option (with_status complete_fail) (TestPlanCache.get p st.plans k)
                else TestPlanCache.get p st.plans k))
  unfolding failed_with verdict
  put_test_run_fail w id spec st a v e n t x =
      let b = failed_with w a spec in
      rw (put_test_run_existing p w id spec st a e ∙ (put_existing_end w id a spec st n).0 (t, x)) (
        refl,
        (t, refl, refl),
        (λ k. Typed.fetch-put cache run_codec st.runs id k b),
        (λ k. ground (arith, get-mark_plan b st k v)),
      )

  -- If the plans are sound, a PUT of PASSED on a stored run that is past TO DO, whose update Xray
  -- takes: the run is stored as PASSED, with the request's text and its end set to the present;
  -- the plan under the run's test key, if there is one, becomes COMPLETE_PASS unless it is
  -- COMPLETE_FAIL already, and no other run or plan changes.
  pub put_test_run_pass :
      (w : World) (id : String) (spec : TestRunSpec) (st : State p) (a : TestRun)
      → IsSound p st.plans
      → TestRunCache.get p st.runs id ≡ some a
      → a.status ≢ todo
      → spec.status ≡ passed
      → Xray.update_test_run w (passed_with w a spec) ≡ ok tt
      → let b = passed_with w a spec in
        let (r, st') = put_test_run p w id spec st in
        (r ≡ ok (run_body b))
        × ((b.status ≡ passed) × (b.text ≡ spec.text) × (b.end_date_time ≡ w.now))
        × ((k : String)
            → TestRunCache.get p st'.runs k
              ≡ (if id == k then some b else TestRunCache.get p st.runs k))
        × ((k : String)
            → TestPlanCache.get p st'.plans k ≡ (
                if a.test_key == k
                then map_option
                    (λ tp.
                      with_status
                        (if is_complete_fail tp.status then complete_fail else complete_pass)
                        tp)
                    (TestPlanCache.get p st.plans k)
                else TestPlanCache.get p st.plans k))
  unfolding passed_with verdict
  put_test_run_pass w id spec st a v e n t x =
      let b = passed_with w a spec in
      rw (put_test_run_existing p w id spec st a e ∙ (put_existing_end w id a spec st n).1 (t, x)) (
        refl,
        (t, refl, refl),
        (λ k. Typed.fetch-put cache run_codec st.runs id k b),
        (λ k. ground (arith, get-mark_plan b st k v)),
      )
