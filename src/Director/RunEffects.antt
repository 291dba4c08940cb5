-- ===== src/Director/RunEffects.antt =====
-- PUT /testRuns/{id} of test_runs.go: what starting, ending and creating a run does to the caches.
use mathlib.Core.List.{Memᴰ}
use mayastor_e2e.Prelude.{
  ◌≡◌, refl, sym, ◌∙◌, inl, inr, String, ◌==◌, eq_iff, List, [], ◌∷◌, Option, none, some, true,
  false, if◌then◌else◌, arith, ok, err, Bool-cases,
}
use mayastor_e2e.Cache.Typed
use mayastor_e2e.Models.{TestPlan, running, TestRun, TestRunSpec, todo, executing}
use mayastor_e2e.World.{World}
use mayastor_e2e.Connectors.Xray
use mayastor_e2e.Director.{Platform, State, run_body, refuse}
use mayastor_e2e.Director.TestPlanCache
use mayastor_e2e.Director.TestRunCache
use mayastor_e2e.Director.TestPlans.{with_status}
use mayastor_e2e.Director.TestRuns.{contains, started, check_start, put_existing, put_test_run}
use mayastor_e2e.Director.RunWrites.{put_run, start_run_ok, start_run_err}
use mayastor_e2e.Director.RunMoves.{put_test_run_existing}

-- The code's search finds an id that is in the list.
pub contains_of_mem : (ts : List String) (i : String) → Memᴰ i ts → contains ts (some i) ≡ ok true
unfolding contains
contains_of_mem [] i m = elim m [ ]
contains_of_mem (t ∷ ts) i (Memᴰ.head e) = ground (arith, eq_iff t i, e)
contains_of_mem (t ∷ ts) i (Memᴰ.tail m) = ground (arith, contains_of_mem ts i m)

pub contains_of_not_mem :
    (ts : List String) (i : String) → ¬ Memᴰ i ts → contains ts (some i) ≡ ok false
unfolding contains
contains_of_not_mem [] i h = refl
contains_of_not_mem (t ∷ ts) i h = elim (Bool-cases (t == i)) [
  | inl e ↦ absurd (h (Memᴰ.head (sym ((eq_iff t i).0 e))))
  | inr e ↦ rw e (contains_of_not_mem ts i (λ m. h (Memᴰ.tail m)))
]

module _ (p : Platform) where
  open p use {cache, run_codec, plan_codec}

  put_existing_start :
      (w : World) (id : String) (a : TestRun) (spec : TestRunSpec) (st : State p) (tp : TestPlan)
      → a.status ≡ todo
      → spec.status ≡ executing
      → check_start p w (started w a spec) st ≡ ok tp
      → put_existing p w id a spec st ≡ (
        ok (run_body (started w a spec)),
        record st {
          plans = TestPlanCache.put p st.plans tp.key (with_status running tp);
          runs = put_run p st.runs id (started w a spec);
        },
      )
  unfolding put_existing
  put_existing_start w id a spec st tp s t e =
      ground (arith, start_run_ok p w id (started w a spec) st tp e)

  -- A PUT of EXECUTING on a stored run that is TO DO: if Xray takes the update and the active plan
  -- has the run's test, then the run is stored as EXECUTING with the request's text and the
  -- present time, and that plan, under its key, as RUNNING; no other plan and no other run
  -- changes.
  pub put_test_run_start :
      (w : World) (id : String) (spec : TestRunSpec) (st : State p) (a : TestRun) (tp : TestPlan)
      → TestRunCache.get p st.runs id ≡ some a
      → a.status ≡ todo
      → spec.status ≡ executing
      → Xray.update_test_run w (started w a spec) ≡ ok tt
      → TestPlanCache.get_active p st.plans ≡ some tp
      → Memᴰ a.test_id tp.tests
      → let b = started w a spec in
        let (r, st') = put_test_run p w id spec st in
        (r ≡ ok (run_body b))
        × ((b.status ≡ executing) × (b.text ≡ spec.text) × (b.start_date_time ≡ w.now))
        × ((k : String)
            → TestRunCache.get p st'.runs k
              ≡ (if id == k then some b else TestRunCache.get p st.runs k))
        × ((k : String)
            → TestPlanCache.get p st'.plans k ≡ (
                if tp.key == k
                then some (with_status running tp)
                else TestPlanCache.get p st.plans k))
  unfolding check_start started
  put_test_run_start w id spec st a tp e s t x active m =
      let found = contains_of_mem tp.tests a.test_id m in
      let check : check_start p w (started w a spec) st ≡ ok tp = ground arith in
      rw (put_test_run_existing p w id spec st a e ∙ put_existing_start w id a spec st tp s t check)
        (
          refl,
          (t, refl, refl),
          (λ k. Typed.fetch-put cache run_codec st.runs id k (started w a spec)),
          (λ k. Typed.fetch-put cache plan_codec st.plans tp.key k (with_status running tp)),
        )

  put_existing_unstarted :
      (w : World) (id : String) (a : TestRun) (spec : TestRunSpec) (st : State p) (x : String)
      → a.status ≡ todo
      → spec.status ≡ executing
      → check_start p w (started w a spec) st ≡ err x
      → put_existing p w id a spec st ≡ (ok (refuse x), st)
  unfolding put_existing
  put_existing_unstarted w id a spec st x s t e =
      ground (arith, start_run_err p w id (started w a spec) st x e)

  check_start_refused :
      (w : World) (a : TestRun) (spec : TestRunSpec) (st : State p) (o : Option TestPlan)
      → Xray.update_test_run w (started w a spec) ≡ ok tt
      → TestPlanCache.get_active p st.plans ≡ o
      → ((tp : TestPlan) → o ≡ some tp → ¬ Memᴰ a.test_id tp.tests)
      → check_start p w (started w a spec) st
        ≡ err "there is no active test plan belongs to test run"
  unfolding check_start started
  check_start_refused w a spec st none x q h = ground arith
  check_start_refused w a spec st (some tp) x q h =
      ground (arith, contains_of_not_mem tp.tests a.test_id (h tp refl))

  -- A PUT of EXECUTING on a stored run that is TO DO, where Xray takes the update: without an
  -- active plan, or with one that lacks the run's test, the request is refused and nothing is
  -- stored.
  pub put_test_run_start_refused :
      (w : World) (id : String) (spec : TestRunSpec) (st : State p) (a : TestRun)
      → TestRunCache.get p st.runs id ≡ some a
      → a.status ≡ todo
      → spec.status ≡ executing
      → Xray.update_test_run w (started w a spec) ≡ ok tt
      → ((tp : TestPlan)
          → TestPlanCache.get_active p st.plans ≡ some tp
          → ¬ Memᴰ a.test_id tp.tests)
      → put_test_run p w id spec st
        ≡ (ok (refuse "there is no active test plan belongs to test run"), st)
  put_test_run_start_refused w id spec st a e s t x h =
      put_test_run_existing p w id spec st a e
      ∙ put_existing_unstarted w id a spec st _ s t
          (check (TestPlanCache.get_active p st.plans) refl)
    where
      check :
          (o : Option TestPlan)
          → TestPlanCache.get_active p st.plans ≡ o
          → check_start p w (started w a spec) st
            ≡ err "there is no active test plan belongs to test run"
      check o q = check_start_refused w a spec st o x q (λ tp r. h tp (q ∙ r))
