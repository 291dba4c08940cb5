-- ===== src/Director/RunHistories.antt =====
-- The life of one test run through any history of requests to the director.
use mayastor_e2e.Prelude.{
  ◌≡◌, ◌≢◌, refl, ◌∙◌, ap, inl, inr, String, eq_iff, List, [], ◌∷◌, Option, none, some, arith,
  Outcome, ok, err, panic, text_cases, Option-cases, All,
}
use mayastor_e2e.Cache.Typed
use mayastor_e2e.Models.{
  TestPlanSpec, TestRun, TestRunSpec, TestRunStatus, EventSpec, EventClass, fail, info, warn,
}
use mayastor_e2e.World.{World}
use mayastor_e2e.Director.{Platform, ServerConfig, State}
use mayastor_e2e.Director.TestRunCache
use mayastor_e2e.Director.TestRuns.{put_test_run, run_from_jira, delete_test_run}
use mayastor_e2e.Director.TestPlans.{put_test_plan, save_plan, delete_test_plan, delete_test_plans}
use mayastor_e2e.Director.RunWrites.{put_run as write_run}
use mayastor_e2e.Director.RunMoves.{
  RunMove, stay, put_existing-Wrote, put_test_run_existing, put_test_run-RunMove,
}
use mayastor_e2e.Director.NewRun.{put_new, put_new_refused, put_new_panic}
use mayastor_e2e.Director.Events.{noted, apply_event, add_event}
use mayastor_e2e.Director.EventEffects.{add_event_unknown_run, add_event_runs, add_event_frame}
use mayastor_e2e.Director.Server.{
  Request, drop_plans, drop_plan, drop_run, put_plan, put_run, post_event, serve, serve_all,
}

-- Any number of moves.
pub data RunPath : TestRunStatus → TestRunStatus → Type 0 where
  here : {s : TestRunStatus} → RunPath s s
  next : {s t u : TestRunStatus} → RunMove s t → RunPath t u → RunPath s u

module _ (p : Platform) where
  open p use {cache, run_codec}

  -- Whether a run is stored under the id whose status can be reached by one move.
  abbrev Moved : String → TestRunStatus → cache.Store → Type 0
  Moved id s runs = (b : TestRun) × (TestRunCache.get p runs id ≡ some b) × RunMove s b.status

  same-Moved :
      (id : String) (a : TestRun) (s s' : cache.Store)
      → TestRunCache.get p s id ≡ some a
      → TestRunCache.get p s' id ≡ TestRunCache.get p s id
      → Moved id a.status s'
  same-Moved id a s s' e q = (a, q ∙ e, stay)

  -- A PUT on another id.
  put_test_run_other :
      (w : World) (k id : String) (spec : TestRunSpec) (st : State p)
      → k ≢ id
      → TestRunCache.get p (put_test_run p w k spec st).1.runs id ≡ TestRunCache.get p st.runs id
  put_test_run_other w k id spec st n =
      go (TestRunCache.get p st.runs k) refl (run_from_jira p w spec st) refl
    where
      wrote :
          (b : TestRun) (s : cache.Store)
          → s ≡ write_run p st.runs k b
          → TestRunCache.get p s id ≡ TestRunCache.get p st.runs id
      wrote b s q =
          ap (λ x. TestRunCache.get p x id) q
          ∙ ground (arith, Typed.fetch-put cache run_codec st.runs k id b, eq_iff k id)

      go :
          (o : Option TestRun)
          → TestRunCache.get p st.runs k ≡ o
          → (r : Outcome TestRun) → run_from_jira p w spec st ≡ r
          → TestRunCache.get p (put_test_run p w k spec st).1.runs id
            ≡ TestRunCache.get p st.runs id
      go (some a) e r f =
          rw (put_test_run_existing p w k spec st a e) (elim (put_existing-Wrote p w k a spec st) [
            | inl same ↦ ap (λ x. TestRunCache.get p x id) same
            | inr (b, q, _) ↦ wrote b _ q
          ])
      go none e (ok run) f = rw (put_new p w k spec st run e f) (wrote run _ refl)
      go none e (err x) f = rw (put_new_refused p w k spec st x e f)
      go none e panic f = rw (put_new_panic p w k spec st e f)

  add_event_info-runs :
      (w : World) (cfg : ServerConfig) (spec : EventSpec) (st : State p)
      → spec.class ≡ info
      → (add_event p w cfg spec st).1.runs ≡ st.runs
  unfolding apply_event
  add_event_info-runs w cfg spec st c = ground (arith, add_event_frame p w cfg spec st)

  noted_status : (spec : EventSpec) (a : TestRun) → (noted spec a).status ≡ a.status
  unfolding noted
  noted_status spec a = refl

  -- An event that is not INFO, for this run or for another.
  add_event_other-Moved :
      (w : World) (cfg : ServerConfig) (spec : EventSpec) (id : String) (st : State p) (a : TestRun)
      → spec.class ≢ info
      → TestRunCache.get p st.runs id ≡ some a
      → Moved id a.status (add_event p w cfg spec st).1.runs
  add_event_other-Moved w cfg spec id st a n e =
      elim (Option-cases (TestRunCache.get p st.runs spec.source_instance)) [
        | inl q ↦ rw (add_event_unknown_run p w cfg spec st n q) (a, e, stay)
        | inr (b, q) ↦ elim (text_cases spec.source_instance id) [
          | inl (t, r) ↦ (
            noted spec a,
            ground (
              arith,
              t,
              (add_event_runs p w cfg spec st b n q).1 id,
              ap (TestRunCache.get p st.runs) r,
            ),
            rw (noted_status spec a) stay,
          )
          | inr (t, r) ↦
              same-Moved id a st.runs _ e
                (ground (arith, t, (add_event_runs p w cfg spec st b n q).1 id))
        ]
      ]

  add_event-Moved :
      (w : World) (cfg : ServerConfig) (spec : EventSpec) (id : String) (st : State p) (a : TestRun)
      → TestRunCache.get p st.runs id ≡ some a
      → Moved id a.status (add_event p w cfg spec st).1.runs
  add_event-Moved w cfg spec id st a e = go spec.class refl
    where
      go : (c : EventClass) → spec.class ≡ c → Moved id a.status (add_event p w cfg spec st).1.runs
      go info q =
          same-Moved id a st.runs _ e
            (ap (λ x. TestRunCache.get p x id) (add_event_info-runs w cfg spec st q))
      go fail q = add_event_other-Moved w cfg spec id st a (λ r. cc (q, r)) e
      go warn q = add_event_other-Moved w cfg spec id st a (λ r. cc (q, r)) e

  runs-put_test_plan :
      (w : World) (id : String) (spec : TestPlanSpec) (st : State p)
      → (put_test_plan p w id spec st).1.runs ≡ st.runs
  unfolding put_test_plan save_plan
  runs-put_test_plan w id spec st = ground arith

  runs-delete_test_plan : (id : String) (st : State p) → (delete_test_plan p id st).1.runs ≡ st.runs
  unfolding delete_test_plan
  runs-delete_test_plan id st = ground arith

  delete_test_run_other :
      (k id : String) (st : State p)
      → k ≢ id
      → TestRunCache.get p (delete_test_run p k st).1.runs id ≡ TestRunCache.get p st.runs id
  unfolding delete_test_run Typed.remove
  delete_test_run_other k id st n =
      ground (arith, Typed.fetch-delete cache run_codec st.runs k id, eq_iff k id)

  -- One request, other than the deletion of the run.
  serve-Moved :
      (w : World) (cfg : ServerConfig) (r : Request) (id : String) (st : State p) (a : TestRun)
      → r ≢ drop_run id
      → TestRunCache.get p st.runs id ≡ some a
      → Moved id a.status (serve p w cfg r st).1.runs
  unfolding serve delete_test_plans
  serve-Moved w cfg (put_run k spec) id st a n e = elim (text_cases k id) [
    | inl (_, q) ↦ rw q (put_test_run-RunMove p w id spec st a e)
    | inr (_, d) ↦ same-Moved id a st.runs _ e (put_test_run_other w k id spec st d)
  ]
  serve-Moved w cfg (post_event spec) id st a n e = add_event-Moved w cfg spec id st a e
  serve-Moved w cfg (drop_run k) id st a n e =
      same-Moved id a st.runs _ e (delete_test_run_other k id st (λ q. n (ap drop_run q)))
  serve-Moved w cfg (put_plan k spec) id st a n e =
      same-Moved id a st.runs _ e
        (ap (λ x. TestRunCache.get p x id) (runs-put_test_plan w k spec st))
  serve-Moved w cfg (drop_plan k) id st a n e =
      same-Moved id a st.runs _ e (ap (λ x. TestRunCache.get p x id) (runs-delete_test_plan k st))
  serve-Moved w cfg drop_plans id st a n e = same-Moved id a st.runs _ e refl
  serve-Moved w cfg _ id st a n e = same-Moved id a st.runs _ e refl

  -- A run that no request of a history deletes is there at its end, and its status went by moves.
  pub serve_all-RunPath :
      (cfg : ServerConfig) (rs : List (World × Request)) (id : String) (st : State p) (a : TestRun)
      → All (λ (e : World × Request). e.1 ≢ drop_run id) rs
      → TestRunCache.get p st.runs id ≡ some a
      → (b : TestRun) × (TestRunCache.get p (serve_all p cfg rs st).runs id ≡ some b)
        × RunPath a.status b.status
  unfolding serve_all
  serve_all-RunPath cfg [] id st a h e = (a, e, here)
  serve_all-RunPath cfg ((w, r) ∷ rs) id st a h e =
      let (b, q, m) = serve-Moved w cfg r id st a h.0 e in
      let (c, f, path) = serve_all-RunPath cfg rs id (serve p w cfg r st).1 b h.1 q in
      (c, f, next m path)

  -- After any history of requests that does not delete a run, the run is still there, and the next
  -- request, unless it deletes the run, leaves it there, with the same status or one moved from TO DO
  -- to EXECUTING or from anything but TO DO to FAILED or PASSED; the status before that request was
  -- reached from the first by such moves.
  pub serve_all-RunMove :
      (cfg : ServerConfig) (rs : List (World × Request)) (w : World) (r : Request) (id : String)
      (st : State p) (a : TestRun)
      → All (λ (e : World × Request). e.1 ≢ drop_run id) rs
      → r ≢ drop_run id
      → TestRunCache.get p st.runs id ≡ some a
      → (b c : TestRun) × (TestRunCache.get p (serve_all p cfg rs st).runs id ≡ some b)
        × RunPath a.status b.status
        × (TestRunCache.get p (serve p w cfg r (serve_all p cfg rs st)).1.runs id ≡ some c)
        × RunMove b.status c.status
  serve_all-RunMove cfg rs w r id st a h n e =
      let (b, q, path) = serve_all-RunPath cfg rs id st a h e in
      let (c, f, m) = serve-Moved w cfg r id (serve_all p cfg rs st) b n q in (b, c, q, path, f, m)
