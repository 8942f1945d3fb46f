-- ===== src/Watchdog/Types.antt =====
-- pyleaner/watchdog.py, lines 38 to 66 and the messages between the monitor process and its owner.
-- Times are whole milliseconds.
use py_leaner.Base.{ℕ, ◌+◌, List}
use py_leaner.Base.Dict.{Dict}
use py_leaner.Base.Text.{Text, codes}

abbrev pub wedge_deadline : ℕ
wedge_deadline = 120_000

abbrev pub watchdog_poll_interval : ℕ
watchdog_poll_interval = 20_000

abbrev pub memory_poll_interval : ℕ
memory_poll_interval = 1_000

abbrev pub worker_replacement_grace : ℕ
worker_replacement_grace = 3_000

abbrev pub rpc_response_timeout : ℕ
rpc_response_timeout = wedge_deadline + watchdog_poll_interval + 20_000

abbrev pub resilient_response_timeout : ℕ
resilient_response_timeout = rpc_response_timeout + 40_000

abbrev pub poison_method : Text
poison_method = codes "$/internal/service-unavailable"

-- The values of the `trigger` field.
pub data Trigger : Type 0 where
  fatal death deadline memory worker_death watchdog_death : Trigger

-- One entry of the `guards` dict; an empty unit or path means that there is no cgroup.
pub record Guard : Type 0 where
  pub pid : ℕ
  pub unit : Text
  pub cgroup_path : Text
  pub oom_kill : ℕ

-- What the owner puts on the command queue.
pub data Command : Type 0 where
  stop : Command
  pause : Command
  root : ℕ → ℕ → Command
  guards : ℕ → Dict Guard → Command
  task_started : ℕ → ℕ → ℕ → Command
  task_finished : ℕ → ℕ → Command
  fatal : ℕ → Text → Command

-- What the monitor puts on the event queue.
pub data Event : Type 0 where
  trigger : ℕ → Trigger → Text → List ℕ → Event
  guard_replaced : ℕ → ℕ → ℕ → Guard → Event

-- What the monitor does to the world: an event, or a scope that it stops.
pub data Effect : Type 0 where
  put : Event → Effect
  stop_scope : Text → Effect
