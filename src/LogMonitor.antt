-- ===== src/LogMonitor.antt =====
-- The log monitor's check of one line (src/tools/extended-test-framework/log_monitor/cmd/main/
-- log_checker.go, log_monitor/models): a line that matches the configured expression becomes an event
-- of the run that is executing. Regular expressions and Unicode's lower case are parameters, and so
-- are the replies of the API server and of the test director.
pub mod Reports
use Prim.Native.String
use Prim.Native.String.{String}
use mayastor_e2e.Prelude.{
  ◌==◌, List, [], ◌∷◌, Option, none, some, Outcome, ok, err, panic, Bool, true, false,
  if◌then◌else◌, ◌||◌, ◌&&◌, eqb, contains,
}
use Prim.Native.Char.{code}

-- models.TestRunSpec and models.TestRun of the log monitor. A member that the JSON lacks is "".
pub record LoggedRunSpec : Type 0 where
  pub text : String  -- Data
  pub status : String
  pub test_exec_issue_id : String
  pub test_id : String
  pub test_key : String

pub record LoggedRun : Type 0 where
  pub end_date_time : String
  pub id : String
  pub start_date_time : String
  pub spec : LoggedRunSpec

-- models.Event of the log monitor.
pub record LoggedEvent : Type 0 where
  pub source_class : String
  pub source_instance : String
  pub resource : String
  pub class : String
  pub message : String
  pub details : List String  -- Data
  pub items : String

-- What one line meets: the test director's pod, found or not; what GET /testRuns brings, read and
-- decoded; the configured expression.
pub record Sight : Type 0 where
  pub to_lower : String → String
  pub match_string : String → Option Bool  -- `none`: the expression does not compile
  pub director_found : Bool
  pub test_runs : Option (List LoggedRun)

-- The loop over the test runs: the first that is executing.
unfoldable pub executing_run : List LoggedRun → Option LoggedRun
executing_run [] = none
executing_run (tr ∷ trs) =
    let rest = executing_run trs in if tr.spec.status == "EXECUTING" then some tr else rest

abbrev pub log_event : String → String → String → LoggedEvent
log_event level line id = record {
  source_class = "log-monitor";
  source_instance = id;
  resource = "";
  class = level;
  message = line;
  details = [];
  items = "";
}

-- sendEvent: the event that is posted, if there is one.
unfoldable pub send_event : Sight → String → String → Option LoggedEvent
unfolding executing_run
send_event x level line =
    if x.director_found
    then elim x.test_runs [
      | none ↦ none
      | some trs ↦ elim (executing_run trs) [
        | none ↦ none
        | some tr ↦ if tr.id == "" then none else some (log_event level line tr.id)
      ]
    ]
    else none

-- checkLine
unfoldable pub check_line : Sight → String → Option LoggedEvent
unfolding send_event contains
check_line x s =
    let line = x.to_lower s in
    elim (x.match_string line) [
      | none ↦ none
      | some false ↦ none
      | some true ↦
          if contains line "error"
          then send_event x "FAIL" line
          else if contains line "warn"
          then send_event x "WARN" line
          else none
    ]
