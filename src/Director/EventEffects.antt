-- ===== src/Director/EventEffects.antt =====
-- POST /events of events.go and events_cache.go: what an event does to the caches, to its test run
-- and to Slack.
use mayastor_e2e.Prelude.{
  ◌≡◌, ◌≢◌, refl, ◌∙◌, ap, inl, inr, String, ◌==◌, Option, none, some, if◌then◌else◌, arith, ok,
  panic, Option-cases, map_option,
}
use mayastor_e2e.Cache.Typed
use mayastor_e2e.Models.{complete_fail, TestRun, failed, Event, EventSpec, fail, info, log_monitor}
use mayastor_e2e.World.{World}
use mayastor_e2e.Connectors.Xray
use mayastor_e2e.Director.{Platform, ServerConfig, State}
use mayastor_e2e.Director.TestPlanCache
use mayastor_e2e.Director.TestRunCache
use mayastor_e2e.Director.TestPlans.{with_status}
use mayastor_e2e.Director.TestRuns.{add_text, with_run_status, verdict, mark_plan, update_test_run}
use mayastor_e2e.Director.RunWrites.{put_run, update_test_run_ok}
use mayastor_e2e.Director.RunEnds.{get-mark_plan}
use mayastor_e2e.Director.SoundPlans.{IsSound}
use mayastor_e2e.Director.Events.{
  event_text, noted, new_event, note_on_run, fails_run, fail_run, apply_event, keep_event,
  finish_event, set_event, event_response, add_event,
}

module _ (p : Platform) where
  open p use {cache, run_codec, plan_codec, event_codec}

  abbrev pub get_event : cache.Store → String → Option Event
  get_event = Typed.fetch cache event_codec

  -- A POST of an event that is not INFO and names no stored run panics, and changes nothing.
  pub add_event_unknown_run :
      (w : World) (cfg : ServerConfig) (spec : EventSpec) (st : State p)
      → spec.class ≢ info
      → TestRunCache.get p st.runs spec.source_instance ≡ none
      → add_event p w cfg spec st ≡ (panic, st)
  unfolding add_event event_response set_event finish_event apply_event fail_run note_on_run
      new_event
  add_event_unknown_run w cfg spec st n e =
      let (b, m, _) = event_codec.unmarshal-marshal (new_event w spec) in ground (arith, m)

  pub note_on_run-put :
      (spec : EventSpec) (st : State p) (a : TestRun)
      → TestRunCache.get p st.runs spec.source_instance ≡ some a
      → note_on_run p spec st ≡ (
        ok (noted spec a),
        record st { runs = put_run p st.runs spec.source_instance (noted spec a) },
      )
  unfolding note_on_run
  note_on_run-put spec st a e =
      ground (arith, Typed.store-put cache run_codec st.runs spec.source_instance (noted spec a))

  pub note_on_run-none :
      (spec : EventSpec) (st : State p)
      → TestRunCache.get p st.runs spec.source_instance ≡ none
      → note_on_run p spec st ≡ (panic, st)
  unfolding note_on_run
  note_on_run-none spec st e = ground arith

  -- UpdateTestRun writes plans only.
  update_test_run_frame :
      (w : World) (run : TestRun) (st : State p)
      → let st' = (update_test_run p w run st).1 in
        (st'.runs ≡ st.runs) × (st'.events ≡ st.events) × (st'.posts ≡ st.posts)
  unfolding update_test_run mark_plan
  update_test_run_frame w run st = ground arith

  -- What happens before the event is stored leaves events and messages alone.
  pub apply_event_frame :
      (w : World) (spec : EventSpec) (st : State p)
      → ((apply_event p w spec st).1.events ≡ st.events)
        × ((apply_event p w spec st).1.posts ≡ st.posts)
  unfolding apply_event fail_run
  apply_event_frame w spec st =
      elim (Option-cases (TestRunCache.get p st.runs spec.source_instance)) [
        | inl n ↦ ground (arith, note_on_run-none spec st n)
        | inr (a, e) ↦
            let st' = record st { runs = put_run p st.runs spec.source_instance (noted spec a) } in
            ground (
              arith,
              note_on_run-put spec st a e,
              update_test_run_frame w (with_run_status failed (noted spec a)) st',
            )
      ]

  apply_event_runs :
      (w : World) (spec : EventSpec) (st : State p) (a : TestRun)
      → spec.class ≢ info
      → TestRunCache.get p st.runs spec.source_instance ≡ some a
      → (apply_event p w spec st).1.runs ≡ put_run p st.runs spec.source_instance (noted spec a)
  unfolding apply_event fail_run
  apply_event_runs w spec st a n e =
      let st' = record st { runs = put_run p st.runs spec.source_instance (noted spec a) } in
      ground (
        arith,
        note_on_run-put spec st a e,
        update_test_run_frame w (with_run_status failed (noted spec a)) st',
      )

  -- Storing the event touches neither runs nor plans.
  pub add_event_frame :
      (w : World) (cfg : ServerConfig) (spec : EventSpec) (st : State p)
      → let st' = (apply_event p w spec st).1 in
        let st'' = (add_event p w cfg spec st).1 in
        (st''.runs ≡ st'.runs) × (st''.plans ≡ st'.plans)
  unfolding add_event event_response set_event finish_event keep_event new_event
  add_event_frame w cfg spec st =
      let (b, m, _) = event_codec.unmarshal-marshal (new_event w spec) in ground (arith, m)

  -- A POST of an event that is not INFO adds its text to the stored run that it names, and to no
  -- other. The stored status stays what it was, also when the event is a failure.
  pub add_event_runs :
      (w : World) (cfg : ServerConfig) (spec : EventSpec) (st : State p) (a : TestRun)
      → spec.class ≢ info
      → TestRunCache.get p st.runs spec.source_instance ≡ some a
      → let b = noted spec a in
        ((b.status ≡ a.status) × (b.text ≡ add_text a.text (event_text spec)))
        × ((k : String)
            → TestRunCache.get p (add_event p w cfg spec st).1.runs k
              ≡ (if spec.source_instance == k then some b else TestRunCache.get p st.runs k))
  unfolding noted
  add_event_runs w cfg spec st a n e = (
    (refl, refl),
    λ k.
        ap (λ s. TestRunCache.get p s k)
          ((add_event_frame w cfg spec st).0 ∙ apply_event_runs w spec st a n e)
        ∙ Typed.fetch-put cache run_codec st.runs spec.source_instance k (noted spec a),
  )

  -- If the plans are sound, a failure of a stored run that the log monitor did not send, once Xray
  -- has taken the run as failed, turns the plan whose key is the run's test key to COMPLETE_FAIL,
  -- and no other plan.
  pub add_event_fails_plan :
      (w : World) (cfg : ServerConfig) (spec : EventSpec) (st : State p) (a : TestRun)
      → IsSound p st.plans
      → TestRunCache.get p st.runs spec.source_instance ≡ some a
      → spec.class ≡ fail
      → spec.source_class ≢ log_monitor
      → Xray.update_test_run w (with_run_status failed (noted spec a)) ≡ ok tt
      → (k : String)
      → TestPlanCache.get p (add_event p w cfg spec st).1.plans k ≡ (
          if a.test_key == k
          then map_option (with_status complete_fail) (TestPlanCache.get p st.plans k)
          else TestPlanCache.get p st.plans k)
  unfolding apply_event fail_run fails_run noted verdict
  add_event_fails_plan w cfg spec st a v e f n x k =
      let b = with_run_status failed (noted spec a) in
      let st' = record st { runs = put_run p st.runs spec.source_instance (noted spec a) } in
      ground (
        arith,
        add_event_frame w cfg spec st,
        note_on_run-put spec st a e,
        update_test_run_ok p w b st' x,
        get-mark_plan p b st' k v,
      )
