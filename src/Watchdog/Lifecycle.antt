-- ===== src/Watchdog/Lifecycle.antt =====
-- pyleaner/watchdog.py: `Watchdog.start` and `Watchdog.stop`, by the monitor processes and receiver
-- threads that they make and end.
pub mod Alone
pub mod Single
pub mod Stopped
use py_leaner.Base.{
  ℕ, ◌+◌, Bool, true, false, not, ◌&&◌, Option, none, some, List, [], ◌∷◌, ◌++◌, ◌==◌, mem, keep,
  is_some, if◌then◌else◌,
}
use py_leaner.Watchdog.Types.{Command, Event}
use py_leaner.Watchdog.Recovery.{Owner, start_watching, stop_worker_scopes}
use py_leaner.Watchdog.Shutdown.{stop_watchdog}

-- `_stop`, `_process`, `_thread` and the two queues of the watchdog, with the monitors and receivers
-- that run. Each of them has a number; the queues have that of the monitor that they were made for.
-- `process_started` tells whether the `start` of `_process` returned, and `made` counts.
pub record Lifecycle : Type 0 where
  pub stopping : Bool
  pub process : Option ℕ
  pub process_started : Bool
  pub thread : Option ℕ
  pub queues : Option ℕ
  pub monitors : List ℕ
  pub receivers : List ℕ
  pub made : ℕ

-- As `__init__` leaves it
abbrev pub initial : Lifecycle
initial = record {
  stopping = false;
  process = none;
  process_started = false;
  thread = none;
  queues = none;
  monitors = [];
  receivers = [];
  made = 0;
}

-- `x is not None and x.is_alive()`
unfoldable pub is_running : Option ℕ → List ℕ → Bool
is_running none ns = false
is_running (some n) ns = mem n ns

-- The numbers without that of `x`, if there is one
unfoldable pub without : Option ℕ → List ℕ → List ℕ
without none ns = ns
without (some n) ns = keep (λ m. not (m == n)) ns

-- New queues and a new monitor; whether `_process.start` raises is given.
abbrev pub new_monitor : Bool → Lifecycle → Lifecycle
new_monitor raises s = record s {
  stopping = false;
  process = some (s.made + 1);
  process_started = not raises;
  queues = some (s.made + 1);
  monitors = if raises then s.monitors else (s.made + 1) ∷ s.monitors;
  made = s.made + 1;
}

abbrev pub new_receiver : Lifecycle → Lifecycle
new_receiver s = record s {
  thread = some (s.made + 1);
  receivers = (s.made + 1) ∷ s.receivers;
  made = s.made + 1;
}

unfoldable pub start_receiver : Lifecycle → Lifecycle
start_receiver s = if is_running s.thread s.receivers then s else new_receiver s

-- `start`, after the test whether the monitor is alive
abbrev pub start_from : Bool → Bool → Option ℕ → Lifecycle → Owner → Lifecycle × Owner × Bool
start_from true raises root s o = (start_receiver s, start_watching root o, false)
start_from false true root s o = (new_monitor true s, o, true)
start_from false false root s o =
    (start_receiver (new_monitor false s), start_watching root o, false)

-- `start`, with the living process of the server, if there is one: true if it raises
unfoldable pub start : Bool → Option ℕ → Lifecycle → Owner → Lifecycle × Owner × Bool
start raises root s o = start_from (is_running s.process s.monitors) raises root s o

-- Whether the monitor outlives `terminate` and the joins, and the receiver its join, which is skipped
-- when the receiver itself stops the watchdog
pub record Leaving : Type 0 where
  pub monitor_survives : Bool
  pub receiver_survives : Bool

abbrev pub released : Leaving → Lifecycle → Lifecycle
released l s = record s {
  stopping = true;
  process = none;
  thread = none;
  queues = none;
  monitors = if l.monitor_survives then s.monitors else without s.process s.monitors;
  receivers = if l.receiver_survives then s.receivers else without s.thread s.receivers;
}

-- `stop`, after the test whether there is a process that never started, from whose `join` comes an
-- error
abbrev pub stop_from : Bool → Leaving → List Event → Lifecycle → Owner → Lifecycle × Owner × Bool
stop_from true l events s o =
    (record s { stopping = true }, record o { sent = o.sent ++ Command.stop ∷ [] }, true)
stop_from false l events s o =
    (released l s, if is_some s.queues then stop_watchdog events o else stop_worker_scopes o, false)

-- `stop`, with the events that are still queued at its end: true if it raises
unfoldable pub stop : Leaving → List Event → Lifecycle → Owner → Lifecycle × Owner × Bool
stop l events s o = stop_from (is_some s.process && not s.process_started) l events s o
