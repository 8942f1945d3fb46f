-- ===== src/Tests/Lifecycles.antt =====
-- Runs of a client's connections and exits: a monitor that dies, a start that fails, an exit.
use py_leaner.Base.{ℕ, true, false, ◌≡◌, refl, Option, none, some, List, [], ◌∷◌, is_some}
use py_leaner.Base.Text.{codes}
use py_leaner.Base.Json.{null}
use py_leaner.Task.{Error, runtime_error}
use py_leaner.Rpc.Session.{result, request}
use py_leaner.Watchdog.Recovery.{Owner}
use py_leaner.Watchdog.Lifecycle.{
  Leaving, initial, is_running, without, start, start_receiver, stop,
}
use py_leaner.Client.Processes
use py_leaner.Client.Processes.{Exit}
use py_leaner.Client.Connection.{
  Connection, Connecting, connect, exit, initialize, notify, watch, Act, connects, exits,
  monitor_ends, run_acts,
}
use py_leaner.Client.Connection.Connected.{IsConnected}
use py_leaner.Client.Connection.Joined.{connect-IsConnected}

abbrev owner : Owner
owner = record {
  generation = 0;
  server_ready = true;
  restart_lock = false;
  armed = false;
  worker_scopes = [];
  workers = none;
  keep_alive_running = false;
  pending = [];
  woken = [];
  sent = [];
  stopped = [];
  log = [];
}

abbrev client : Connection
client = record {
  server = record { registry = []; process = none; killed = []; ended = [] };
  link = record { message_id = 0; pending = []; sent = []; registered = [] };
  life = initial;
  owner = owner;
}

abbrev connecting : ℕ → Option Error → Connecting
connecting pid monitor_error = record {
  popen_error = none;
  pid = pid;
  answer = result null;
  notify_error = none;
  alive = true;
  monitor_error = monitor_error;
}

abbrev joined : Leaving
joined = record { monitor_survives = false; receiver_survives = false }

abbrev leaving : Exit
leaving = record { notify_error = none; descendants = []; dead = false; orphans = [] }

-- The first monitor dies; a second connection starts another, which an exit ends.
abbrev acts : List Act
acts =
    connects (codes "/p") (connecting 40 none)
    ∷ monitor_ends 1
    ∷ connects (codes "/p") (connecting 41 none)
    ∷ exits joined [] leaving
    ∷ []

connect-IsConnected_example :
    IsConnected
      (codes "/p")
      (connecting 42 none)
      (run_acts acts client)
      (connect (codes "/p") (connecting 42 none) (run_acts acts client)).0
unfolding run_acts connect exit initialize notify watch request start start_receiver stop is_running
    without
connect-IsConnected_example =
    connect-IsConnected acts client (codes "/p") (connecting 42 none) refl
      (tt, (tt, (tt, ((refl, refl), tt)))) refl

-- A monitor that does not start makes `connect` raise, and then each `exit`, which leaves the server.
abbrev no_fork : Error
no_fork = runtime_error (codes "fork")

abbrev failed : Connection
failed = (connect (codes "/p") (connecting 40 (some no_fork)) client).0

exit_raises :
    (is_some (exit joined [] leaving failed).1 ≡ true)
    × ((exit joined [] leaving failed).0.server.process ≡ some 40)
    × ((exit joined [] leaving failed).0.server.killed ≡ [])
unfolding connect exit initialize notify watch request start start_receiver stop is_running
    Processes.start
exit_raises = (refl, refl, refl)
