-- ===== src/Director/Events.antt =====
-- src/tools/extended-test-framework/test_director/handlers/events.go and events_cache.go: events, their
-- effect on the test run that they name, and the message to Slack.
use mayastor_e2e.Prelude.{
  String, List, [], ◌∷◌, Option, none, some, Outcome, ok, err, panic, Bool, not, ◌&&◌,
  if◌then◌else◌, concat, join,
}
use mayastor_e2e.Models.{
  TestRun, failed, Event, EventSpec, EventClass, fail, info, warn, EventSourceClass,
  workload_monitor, log_monitor, resource_monitor, test_conductor, is_fail, is_info, is_log_monitor,
  DateTime,
}
use mayastor_e2e.World.{World}
use mayastor_e2e.Cache.Typed
use mayastor_e2e.Connectors.Slack.{Post, job_notification}
use mayastor_e2e.Director.{
  Platform, ServerConfig, State, Response, event_list, event_body, refuse, not_found,
}
use mayastor_e2e.Director.TestRunCache
use mayastor_e2e.Director.TestRuns.{add_text, with_run_status, update_test_run}

abbrev pub source_class_text : EventSourceClass → String
source_class_text workload_monitor = "workload-monitor"
source_class_text log_monitor = "log-monitor"
source_class_text resource_monitor = "resouce-monitor"
source_class_text test_conductor = "test-conductor"

abbrev pub class_text : EventClass → String
class_text fail = "FAIL"
class_text info = "INFO"
class_text warn = "WARN"

abbrev pub color : EventClass → String
color fail = "danger"
color warn = "warning"
color info = "good"

-- `*data.Message + " " + strings.Join(data.Data, ", ")`
unfoldable pub event_text : EventSpec → String
unfolding concat join
event_text spec = concat (spec.message ∷ " " ∷ join ", " spec.details ∷ [])

-- sendSlackNotification: a failure to post is only logged.
unfoldable pub slack_post : ServerConfig → DateTime → EventSpec → Post
unfolding event_text job_notification concat
slack_post cfg now spec =
    job_notification
      (record {
        web_hook_url = cfg.slack_web_hook;
        user_name = source_class_text spec.source_class;
        channel = "#test_director";
        time_out = 10;
      })
      now
      (record {
        color = color spec.class;
        icon_emoji = ":ghost:";
        details = event_text spec;
        text = concat (class_text spec.class ∷ " - TestRun ID: " ∷ spec.source_instance ∷ []);
      })

-- The run with the event's text.
unfoldable pub noted : EventSpec → TestRun → TestRun
noted spec run = record run {
  spec = record (run.spec) { text = add_text run.text (event_text spec) };
}

unfoldable pub new_event : World → EventSpec → Event
new_event w spec = record { spec = spec; id = w.uuid; logged_date_time = w.now }

module _ (p : Platform) where
  open p use {Bytes, cache, event_codec}

  abbrev pub get_all_events : cache.Store → Option (List Event)
  get_all_events = Typed.fetch_all cache event_codec

  unfoldable pub get_events : State p → Response
  get_events st = elim (get_all_events st.events) [
    | none ↦ not_found
    | some events ↦ event_list events
  ]

  -- The first write of `Set`: the event's text goes to its test run. Without such a run the code
  -- reads through a nil pointer.
  unfoldable pub note_on_run : EventSpec → State p → Outcome TestRun × State p
  note_on_run spec st = elim (TestRunCache.get p st.runs spec.source_instance) [
    | none ↦ (panic, st)
    | some run ↦ elim (TestRunCache.set p st.runs spec.source_instance (noted spec run)) [
      | ok runs ↦ (ok (noted spec run), record st { runs = runs })
      | err e ↦ (err e, st)
      | panic ↦ (panic, st)
    ]
  ]

  -- Whether the event fails its run: events of the log monitor do not.
  unfoldable pub fails_run : EventSpec → Bool
  fails_run spec = is_fail spec.class && not (is_log_monitor spec.source_class)

  -- The run's status is changed in this copy, which goes to Xray and is not saved.
  unfoldable pub fail_run :
      World → EventSpec → Outcome TestRun × State p → Outcome (Unit {0}) × State p
  fail_run w spec (ok run, st) =
      if fails_run spec then update_test_run p w (with_run_status failed run) st else (ok tt, st)
  fail_run w spec (err e, st) = (err e, st)
  fail_run w spec (panic, st) = (panic, st)

  -- What `Set` does to the test run.
  unfoldable pub apply_event : World → EventSpec → State p → Outcome (Unit {0}) × State p
  apply_event w spec st =
      if is_info spec.class then (ok tt, st) else fail_run w spec (note_on_run spec st)

  -- The last writes of `Set`.
  unfoldable pub keep_event : World → ServerConfig → String → Event → Bytes → State p → State p
  keep_event w cfg key event bytes st = record st {
    events = cache.set st.events key bytes;
    posts = if cfg.slack_notification then slack_post cfg w.now event.spec ∷ st.posts else st.posts;
  }

  unfoldable pub finish_event :
      World
      → ServerConfig
      → String
      → Event
      → Bytes
      → Outcome (Unit {0}) × State p
      → Outcome (Unit {0}) × State p
  finish_event w cfg key event bytes (ok _, st) = (ok tt, keep_event w cfg key event bytes st)
  finish_event w cfg key event bytes (err e, st) = (err e, st)
  finish_event w cfg key event bytes (panic, st) = (panic, st)

  -- EventCache.Set
  unfoldable pub set_event :
      World → ServerConfig → String → Event → State p → Outcome (Unit {0}) × State p
  set_event w cfg key event st = elim (event_codec.marshal event) [
    | ok bytes ↦ finish_event w cfg key event bytes (apply_event w event.spec st)
    | err e ↦ (err e, st)
    | panic ↦ (panic, st)
  ]

  unfoldable pub event_response : Event → Outcome (Unit {0}) × State p → Outcome Response × State p
  event_response event (ok _, st) = (ok (event_body event), st)
  event_response event (err e, st) = (ok (refuse e), st)
  event_response event (panic, st) = (panic, st)

  -- postEventImpl.Handle
  unfoldable pub add_event : World → ServerConfig → EventSpec → State p → Outcome Response × State p
  add_event w cfg spec st =
      event_response (new_event w spec) (set_event w cfg w.uuid (new_event w spec) st)
