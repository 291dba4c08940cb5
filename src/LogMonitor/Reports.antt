-- ===== src/LogMonitor/Reports.antt =====
-- When the log monitor posts an event, and which (log_monitor/cmd/main/log_checker.go under
-- src/tools/extended-test-framework).
use mayastor_e2e.Prelude.{
  contains, ◌≡◌, ◌≢◌, refl, String, List, [], ◌∷◌, none, some, true, if◌then◌else◌, arith, All,
  text_ne,
}
use mayastor_e2e.LogMonitor.{LoggedRun, Sight, executing_run, log_event, send_event, check_line}

-- Where the director is found, its runs are decoded and the first that is executing has an id, a
-- line that matches is posted in lower case as an event of that run: as a failure if it names an
-- error, as a warning if it names only a warning, and not at all otherwise.
pub check_line_posts :
    (x : Sight) (s : String) (trs : List LoggedRun) (tr : LoggedRun)
    → x.director_found ≡ true
    → x.test_runs ≡ some trs
    → executing_run trs ≡ some tr
    → tr.id ≢ ""
    → x.match_string (x.to_lower s) ≡ some true
    → check_line x s ≡ (
        if contains (x.to_lower s) "error"
        then some (log_event "FAIL" (x.to_lower s) tr.id)
        else if contains (x.to_lower s) "warn"
        then some (log_event "WARN" (x.to_lower s) tr.id)
        else none)
unfolding check_line send_event
check_line_posts x s trs tr a b c d e = ground (arith, text_ne tr.id "" d)

executing_run-none :
    (trs : List LoggedRun)
    → All (λ (tr : LoggedRun). tr.spec.status ≢ "EXECUTING") trs
    → executing_run trs ≡ none
unfolding executing_run
executing_run-none [] h = refl
executing_run-none (tr ∷ trs) h =
    rw (text_ne tr.spec.status "EXECUTING" h.0) (executing_run-none trs h.1)

-- While no run that the log monitor decodes has the status EXECUTING under `Spec`, it posts nothing,
-- whatever the line is.
pub check_line_silent :
    (x : Sight) (s : String) (trs : List LoggedRun)
    → x.test_runs ≡ some trs
    → All (λ (tr : LoggedRun). tr.spec.status ≢ "EXECUTING") trs
    → check_line x s ≡ none
unfolding check_line send_event
check_line_silent x s trs b h = ground (arith, executing_run-none trs h)
