-- ===== src/Workload/System.antt =====
-- The workload monitor as a whole (src/tools/extended-test-framework/workload_monitor/cmd/
-- workload_monitor/main.go): the server and the loop run side by side and take turns, since both hold
-- the list's lock, the one for a request and the other for a pass.
use mayastor_e2e.Prelude.{List, [], ◌∷◌}
use mayastor_e2e.Kubernetes.{Listing}
use mayastor_e2e.Workload.Table.{IsTable}
use mayastor_e2e.Workload.Handlers.{Request, serve}
use mayastor_e2e.Workload.Monitor.{Surroundings, Monitor, monitor_pass}
use mayastor_e2e.Workload.Invariant.{serve-IsTable, monitor_pass-IsTable}

-- A request, with the API server's answer to the list call that it may make, or a pass.
pub data Turn : Type 0 where
  request : Listing → Request → Turn
  pass : Surroundings → Turn

unfoldable pub take_turn : Turn → Monitor → Monitor
take_turn (request l q) m = record m { table = (serve l q m.table).1 }
take_turn (pass s) m = monitor_pass s m

unfoldable pub take_turns : List Turn → Monitor → Monitor
unfolding take_turn
take_turns [] m = m
take_turns (t ∷ ts) m = take_turns ts (take_turn t m)

-- The list as it is created.
abbrev pub started : Monitor
started = record { table = []; calls = 0; reports = [] }

take_turn-IsTable : (t : Turn) (m : Monitor) → IsTable m.table → IsTable (take_turn t m).table
unfolding take_turn
take_turn-IsTable (request l q) m h = serve-IsTable l q m.table h
take_turn-IsTable (pass s) m h = monitor_pass-IsTable s m h

take_turns-IsTable :
    (ts : List Turn) (m : Monitor) → IsTable m.table → IsTable (take_turns ts m).table
unfolding take_turns
take_turns-IsTable [] m h = h
take_turns-IsTable (t ∷ ts) m h = take_turns-IsTable ts (take_turn t m) (take_turn-IsTable t m h)

-- From its start on, after any requests and passes in any order, and whatever the API server and the
-- test director answer, the monitor's table is well formed: entries are filed under their own
-- registrant and their own workload's id, each once.
pub system-IsTable : (ts : List Turn) → IsTable (take_turns ts started).table
system-IsTable ts = take_turns-IsTable ts started tt
