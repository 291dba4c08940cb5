-- ===== src/Director/EventAnswers.antt =====
-- What POST /events (test_director/handlers/events.go and events_cache.go) answers, by what becomes of
-- the event's run.
use mayastor_e2e.Prelude.{
  true, false, not, ◌&&◌, Bool-cases, ◌≡◌, ◌≢◌, refl, sym, ap, String, ◌==◌, ◌∷◌, some, none, arith,
  Outcome, ok, err, panic, if◌then◌else◌,
}
use mayastor_e2e.Cache.Typed
use mayastor_e2e.Models.{
  TestRun, EventSpec, EventClass, EventSourceClass, fail, info, warn, log_monitor, failed, is_fail,
  is_info, is_log_monitor, workload_monitor, resource_monitor, test_conductor,
}
use mayastor_e2e.World.{World}
use mayastor_e2e.Connectors.Xray
use mayastor_e2e.Director.{Platform, ServerConfig, State, Response, event_body, refuse}
use mayastor_e2e.Director.TestRunCache
use mayastor_e2e.Director.TestRuns.{with_run_status, update_test_run}
use mayastor_e2e.Director.Events.{
  slack_post, noted, new_event, fails_run, fail_run, apply_event, keep_event, finish_event,
  set_event, event_response, add_event,
}
use mayastor_e2e.Director.EventEffects.{
  get_event, add_event_unknown_run, note_on_run-put, apply_event_frame, add_event_runs,
}

-- The event is to fail its run.
abbrev pub IsFailing : EventSpec → Type 0
IsFailing spec = (spec.class ≡ fail) × (spec.source_class ≢ log_monitor)

fails_run-true : (p : Platform) (spec : EventSpec) → IsFailing spec → fails_run p spec ≡ true
unfolding fails_run
fails_run-true p spec f = go spec.class spec.source_class f
  where
    go :
        (c : EventClass) (s : EventSourceClass)
        → (c ≡ fail) × (s ≢ log_monitor)
        → (is_fail c && not (is_log_monitor s)) ≡ true
    go fail log_monitor f = absurd (f.1 refl)
    go fail workload_monitor f = refl
    go fail resource_monitor f = refl
    go fail test_conductor f = refl
    go info s f = cc f.0
    go warn s f = cc f.0

fails_run-false : (p : Platform) (spec : EventSpec) → ¬ IsFailing spec → fails_run p spec ≡ false
unfolding fails_run
fails_run-false p spec f = go spec.class spec.source_class f
  where
    go :
        (c : EventClass) (s : EventSourceClass)
        → ¬ ((c ≡ fail) × (s ≢ log_monitor))
        → (is_fail c && not (is_log_monitor s)) ≡ false
    go fail log_monitor f = refl
    go fail workload_monitor f = absurd (f (refl, λ q. cc q))
    go fail resource_monitor f = absurd (f (refl, λ q. cc q))
    go fail test_conductor f = absurd (f (refl, λ q. cc q))
    go info s f = refl
    go warn s f = refl

module _ (p : Platform) where
  open p use {cache, run_codec, event_codec}

  -- The event is answered with and stored under its id, and nothing else is; there is a message to
  -- Slack if the server is set so.
  abbrev pub Kept : World → ServerConfig → EventSpec → State p → Outcome Response × State p → Type 0
  Kept w cfg spec st (r, st') =
      (r ≡ ok (event_body (new_event w spec)))
      × ((k : String)
          → get_event p st'.events k
            ≡ (if w.uuid == k then some (new_event w spec) else get_event p st.events k))
      × (st'.posts
          ≡ (if cfg.slack_notification then slack_post cfg w.now spec ∷ st.posts else st.posts))

  -- No event is stored and no message sent.
  abbrev pub Lost : Outcome Response → State p → Outcome Response × State p → Type 0
  Lost answer st (r, st') = (r ≡ answer) × (st'.events ≡ st.events) × (st'.posts ≡ st.posts)

  abbrev Answered :
      World
      → ServerConfig
      → EventSpec
      → State p
      → Outcome (Unit {0})
      → Outcome Response × State p
      → Type 0
  Answered w cfg spec st (ok _) t = Kept w cfg spec st t
  Answered w cfg spec st (err x) t = Lost (ok (refuse x)) st t
  Answered w cfg spec st panic t = Lost panic st t

  finish-Answered :
      (w : World) (cfg : ServerConfig) (spec : EventSpec) (st st' : State p) (b : p.Bytes)
      (o : Outcome (Unit {0}))
      → event_codec.unmarshal b ≡ some (new_event w spec)
      → st'.events ≡ st.events
      → st'.posts ≡ st.posts
      → Answered w cfg spec st o (
          event_response p
            (new_event w spec)
            (finish_event p w cfg w.uuid (new_event w spec) b (o, st')))
  unfolding event_response finish_event keep_event Typed.fetch new_event
  finish-Answered w cfg spec st st' b (ok _) d e f = (
    refl,
    (λ k. ground (arith, cache.get-set st'.events w.uuid k b, ap (λ s. cache.get s k) e)),
    ground arith,
  )
  finish-Answered w cfg spec st st' b (err x) d e f = (refl, e, f)
  finish-Answered w cfg spec st st' b panic d e f = (refl, e, f)

  add_event-Answered :
      (w : World) (cfg : ServerConfig) (spec : EventSpec) (st : State p) (o : Outcome (Unit {0}))
      → (apply_event p w spec st).0 ≡ o
      → Answered w cfg spec st o (add_event p w cfg spec st)
  unfolding add_event set_event new_event
  add_event-Answered w cfg spec st o q =
      let (b, m, d) = event_codec.unmarshal-marshal (new_event w spec) in
      let (e, f) = apply_event_frame p w spec st in
      rw (m, set_event, sym q)
        (finish-Answered w cfg spec st (apply_event p w spec st).1 b (apply_event p w spec st).0 d e
          f)

  apply_event_info :
      (w : World) (spec : EventSpec) (st : State p)
      → spec.class ≡ info
      → (apply_event p w spec st).0 ≡ ok tt
  unfolding apply_event
  apply_event_info w spec st c = ground (arith, c)

  apply_event_spared :
      (w : World) (spec : EventSpec) (st : State p) (a : TestRun)
      → TestRunCache.get p st.runs spec.source_instance ≡ some a
      → ¬ IsFailing spec
      → (apply_event p w spec st).0 ≡ ok tt
  unfolding apply_event fail_run
  apply_event_spared w spec st a e n = ground (
    arith,
    note_on_run-put p spec st a e,
    fails_run-false p spec n,
    Bool-cases (is_info spec.class),
  )

  apply_event_failing :
      (w : World) (spec : EventSpec) (st : State p) (a : TestRun) (o : Outcome (Unit {0}))
      → TestRunCache.get p st.runs spec.source_instance ≡ some a
      → IsFailing spec
      → Xray.update_test_run w (with_run_status failed (noted spec a)) ≡ o
      → (apply_event p w spec st).0 ≡ o
  unfolding apply_event fail_run update_test_run
  apply_event_failing w spec st a (ok _) e f x =
      ground (arith, note_on_run-put p spec st a e, fails_run-true p spec f, f.0, x)
  apply_event_failing w spec st a (err t) e f x =
      ground (arith, note_on_run-put p spec st a e, fails_run-true p spec f, f.0, x)
  apply_event_failing w spec st a panic e f x =
      ground (arith, note_on_run-put p spec st a e, fails_run-true p spec f, f.0, x)

  -- The text of the event is with the run that it names, and no other run has changed.
  abbrev pub Noted : EventSpec → TestRun → State p → State p → Type 0
  Noted spec a st st' =
      (k : String)
      → TestRunCache.get p st'.runs k
        ≡ (if spec.source_instance == k then some (noted spec a) else TestRunCache.get p st.runs k)

  -- The ends of a POST. An INFO event is answered with and stored under its id, with a message to Slack
  -- if the server is set so. Any other that names no stored run panics and changes nothing. One that
  -- names a stored run adds its text to that run and to no other, and is answered and stored in the same
  -- way if it is not a failure or comes from the log monitor, or if Xray takes the run as failed; if
  -- Xray refuses that, or its update panics, so does the POST: no event is stored and no message sent,
  -- though the run keeps the text.
  pub add_event_ends :
      (w : World) (cfg : ServerConfig) (spec : EventSpec) (st : State p)
      → (spec.class ≡ info → Kept w cfg spec st (add_event p w cfg spec st))
        × (spec.class ≢ info
            → TestRunCache.get p st.runs spec.source_instance ≡ none
            → add_event p w cfg spec st ≡ (panic, st))
        × ((a : TestRun)
            → spec.class ≢ info
            → TestRunCache.get p st.runs spec.source_instance ≡ some a
            → let t = add_event p w cfg spec st in
              let told = Xray.update_test_run w (with_run_status failed (noted spec a)) in
              Noted spec a st t.1
              × (¬ IsFailing spec → Kept w cfg spec st t)
              × (IsFailing spec → told ≡ ok tt → Kept w cfg spec st t)
              × ((x : String) → IsFailing spec → told ≡ err x → Lost (ok (refuse x)) st t)
              × (IsFailing spec → told ≡ panic → Lost panic st t))
  add_event_ends w cfg spec st = (
    λ c. add_event-Answered w cfg spec st (ok tt) (apply_event_info w spec st c),
    λ n q. add_event_unknown_run p w cfg spec st n q,
    λ a n e. (
      (add_event_runs p w cfg spec st a n e).1,
      λ f. add_event-Answered w cfg spec st (ok tt) (apply_event_spared w spec st a e f),
      λ f x.
          add_event-Answered w cfg spec st (ok tt) (apply_event_failing w spec st a (ok tt) e f x),
      λ x f q.
          add_event-Answered w cfg spec st (err x) (apply_event_failing w spec st a (err x) e f q),
      λ f q. add_event-Answered w cfg spec st panic (apply_event_failing w spec st a panic e f q),
    ),
  )
