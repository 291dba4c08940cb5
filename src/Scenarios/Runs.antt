-- ===== src/Scenarios/Runs.antt =====
-- The properties of test runs and of Xray's queries at concrete inputs.
use mathlib.Core.List.{Memᴰ}
use mayastor_e2e.Prelude.{
  ◌≡◌, ◌≢◌, refl, ok, String, ◌==◌, List, [], ◌∷◌, some, none, if◌then◌else◌, map_option,
}
use mayastor_e2e.Scenarios.{config, plan, world, initial, run, with_run, asked}
use mayastor_e2e.Scenarios.Plans.{initial-IsSound}
use mayastor_e2e.Cache.Typed
use mayastor_e2e.Cache.Reference.{reference}
use mayastor_e2e.GoMap.{lookup, insert}
use mayastor_e2e.Models.{
  running, complete_pass, complete_fail, is_complete_fail, todo, executing, passed, failed, TestRun,
  TestRunStatus,
}
use mayastor_e2e.World.{World}
use mayastor_e2e.Connectors.Xray
use mayastor_e2e.Director.{State, run_body, refuse}
use mayastor_e2e.Director.TestPlanCache
use mayastor_e2e.Director.TestRunCache
use mayastor_e2e.Director.TestPlans.{with_status}
use mayastor_e2e.Director.TestRuns.{started, failed_with, passed_with, add_text, put_test_run}
use mayastor_e2e.Director.RunEffects.{put_test_run_start, put_test_run_start_refused}
use mayastor_e2e.Director.RunEnds.{put_test_run_fail, put_test_run_pass}
use mayastor_e2e.Director.RunHistories.{RunPath, serve_all-RunMove}
use mayastor_e2e.Director.RunMoves.{RunMove}
use mayastor_e2e.Director.Server.{Request, put_run, serve, serve_all}

pub run_there :
    (status : TestRunStatus)
    → TestRunCache.get reference (with_run status).runs "r1" ≡ some (run status)
unfolding Typed.fetch Typed.put Typed.store lookup insert
run_there status = refl

no_run :
    (st : State reference) → st.runs ≡ initial.runs → TestRunCache.get reference st.runs "r1" ≡ none
unfolding Typed.fetch lookup
no_run st e = rw e refl

pub told : (b : TestRun) → Xray.update_test_run (world "Test") b ≡ ok tt
unfolding Xray.update_test_run Xray.send_xray_query Xray.wants_retry Xray.send_request
told b = refl

pub active : TestPlanCache.get_active reference initial.plans ≡ some plan
unfolding TestPlanCache.get_active Typed.put insert
active = refl

put_test_run_start_example :
    let b = started (world "Test") (run todo) (asked executing) in
    let (r, st') = put_test_run reference (world "Test") "r1" (asked executing) (with_run todo) in
    (r ≡ ok (run_body b))
    × ((b.status ≡ executing) × (b.text ≡ "now") × (b.start_date_time ≡ 7))
    × ((k : String)
        → TestRunCache.get reference st'.runs k
          ≡ (if "r1" == k then some b else TestRunCache.get reference (with_run todo).runs k))
    × ((k : String)
        → TestPlanCache.get reference st'.plans k ≡ (
            if "MQ-1" == k
            then some (with_status running plan)
            else TestPlanCache.get reference (with_run todo).plans k))
put_test_run_start_example =
    put_test_run_start reference (world "Test") "r1" (asked executing) (with_run todo) (run todo)
      plan (run_there todo) refl refl (told (started (world "Test") (run todo) (asked executing)))
      active (Memᴰ.head refl)

-- A director that has the run and no plan.
abbrev planless : State reference
planless = record (with_run todo) { plans = reference.cache.new }

planless_inactive : TestPlanCache.get_active reference planless.plans ≡ none
unfolding TestPlanCache.get_active
planless_inactive = refl

put_test_run_start_refused_example :
    put_test_run reference (world "Test") "r1" (asked executing) planless
    ≡ (ok (refuse "there is no active test plan belongs to test run"), planless)
put_test_run_start_refused_example =
    put_test_run_start_refused reference (world "Test") "r1" (asked executing) planless (run todo)
      (run_there todo) refl refl (told (started (world "Test") (run todo) (asked executing)))
      (λ tp e. cc (e, planless_inactive))

executing_ne : executing ≢ todo
executing_ne e = cc e

put_test_run_fail_example :
    let b = failed_with (world "Test") (run executing) (asked failed) in
    let (r, st') = put_test_run reference (world "Test") "r1" (asked failed) (with_run executing) in
    (r ≡ ok (run_body b))
    × ((b.status ≡ failed) × (b.text ≡ add_text "begun" "now") × (b.end_date_time ≡ 7))
    × ((k : String)
        → TestRunCache.get reference st'.runs k
          ≡ (if "r1" == k then some b else TestRunCache.get reference (with_run executing).runs k))
    × ((k : String)
        → TestPlanCache.get reference st'.plans k ≡ (
            if "MQ-1" == k
            then map_option
                (with_status complete_fail)
                (TestPlanCache.get reference (with_run executing).plans k)
            else TestPlanCache.get reference (with_run executing).plans k))
put_test_run_fail_example =
    put_test_run_fail reference (world "Test") "r1" (asked failed) (with_run executing)
      (run executing) initial-IsSound (run_there executing) executing_ne refl
      (told (failed_with (world "Test") (run executing) (asked failed)))

put_test_run_pass_example :
    let b = passed_with (world "Test") (run executing) (asked passed) in
    let (r, st') = put_test_run reference (world "Test") "r1" (asked passed) (with_run executing) in
    (r ≡ ok (run_body b))
    × ((b.status ≡ passed) × (b.text ≡ "now") × (b.end_date_time ≡ 7))
    × ((k : String)
        → TestRunCache.get reference st'.runs k
          ≡ (if "r1" == k then some b else TestRunCache.get reference (with_run executing).runs k))
    × ((k : String)
        → TestPlanCache.get reference st'.plans k ≡ (
            if "MQ-1" == k
            then map_option
                (λ tp.
                  with_status
                    (if is_complete_fail tp.status then complete_fail else complete_pass)
                    tp)
                (TestPlanCache.get reference (with_run executing).plans k)
            else TestPlanCache.get reference (with_run executing).plans k))
put_test_run_pass_example =
    put_test_run_pass reference (world "Test") "r1" (asked passed) (with_run executing)
      (run executing) initial-IsSound (run_there executing) executing_ne refl
      (told (passed_with (world "Test") (run executing) (asked passed)))

abbrev history : List (World × Request)
history = (world "Test", put_run "r1" (asked executing)) ∷ []

serve_all-RunMove_example :
    (b c : TestRun) × (TestRunCache.get reference
        (serve_all reference config history (with_run todo)).runs
        "r1"
      ≡ some b)
    × RunPath todo b.status
    × (TestRunCache.get reference
          (serve reference
            (world "Test")
            config
            (put_run "r1" (asked passed))
            (serve_all reference config history (with_run todo))).1.runs
          "r1"
        ≡ some c)
    × RunMove b.status c.status
serve_all-RunMove_example =
    serve_all-RunMove reference config history (world "Test") (put_run "r1" (asked passed)) "r1"
      (with_run todo) (run todo) ((λ e. cc e), tt) (λ e. cc e) (run_there todo)
