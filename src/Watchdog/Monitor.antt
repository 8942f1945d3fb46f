-- ===== src/Watchdog/Monitor.antt =====
-- pyleaner/watchdog.py: the state of `_watchdog_monitor_main`, the loop of the monitor process, and
-- its command queue. `Inspect` looks at one guard and `Loop` makes the rounds.
pub mod Inspect
pub mod Once
pub mod Justified
pub mod Blame
pub mod Frame
pub mod Slots
pub mod Current
pub mod Deadline
pub mod Timely
pub mod Loop
use py_leaner.Base.{
  ℕ, Bool, true, false, not, ◌&&◌, Option, none, some, List, [], ◌∷◌, ◌++◌, ◌==◌, if◌then◌else◌,
}
use py_leaner.Base.Dict.{Dict, insert, erase, keys}
use py_leaner.Base.Text.{Text}
use py_leaner.Watchdog.Types.{Trigger, Guard, Command, trigger, Effect, put}

-- The arguments of `_watchdog_monitor_main`; `deadline_text` is `str(deadline)`.
pub record Limits : Type 0 where
  pub deadline : ℕ
  pub deadline_text : Text
  pub poll_interval : ℕ
  pub soft_memory_limit : Option ℕ
  pub hard_memory_limit : Option ℕ
  pub replacement_grace : ℕ

pub record Monitor : Type 0 where
  pub root_pid : Option ℕ
  pub generation : ℕ
  pub paused : Bool
  pub tasks : Dict ℕ
  pub guards : Dict Guard
  pub missing_since : Dict ℕ
  pub last_deadline_poll : ℕ

abbrev pub initial : Monitor
initial = record {
  root_pid = none;
  generation = 0;
  paused = true;
  tasks = [];
  guards = [];
  missing_since = [];
  last_deadline_poll = 0;
}

-- What the system answers while one guard is inspected. `state` is the state letter of
-- `/proc/PID/stat`, if it can be read, and `later_state` the same after the adoption of a
-- replacement; `adopt` is `_systemd_scope_for_pid`, `none` where it raises.
pub record Sight : Type 0 where
  pub state : ℕ → Option ℕ
  pub later_state : ℕ → Option ℕ
  pub rss_anon : ℕ → Option ℕ
  pub oom_kill : Text → Option ℕ
  pub scope_result : Text → Text
  pub worker_pids : Dict ℕ
  pub adopt : ℕ → ℕ → ℕ → Option (Text × Text)

-- What one round of the loop observes: whether the parent is still there, the clock, the state of
-- the root process, and what is seen at each worker's guard.
pub record World : Type 0 where
  pub parent_alive : Bool
  pub now : ℕ
  pub state : ℕ → Option ℕ
  pub sight : ℕ → Sight

-- `_process_alive`
unfoldable pub process_alive : (ℕ → Option ℕ) → ℕ → Bool
process_alive state pid =
    if pid == 0 then false else elim (state pid) [ none ↦ false | some c ↦ not (c == b'Z') ]

-- `_process_alive(root_pid)`, where the pid may be `None`
unfoldable pub root_alive : (ℕ → Option ℕ) → Option ℕ → Bool
root_alive state none = false
root_alive state (some pid) = process_alive state pid

abbrev pub State : Type 0
State = Monitor × List Effect

-- `_monitor_event(...)` and `paused = True`
unfoldable pub report : Trigger → Text → List ℕ → Monitor → State
report t reason workers m =
    (record m { paused = true }, put (trigger m.generation t reason workers) ∷ [])

unfoldable pub handle : Command → Monitor → State
handle Command.stop m = (m, [])
handle Command.pause m =
    (record m { paused = true; tasks = []; guards = []; missing_since = [] }, [])
handle (Command.root pid generation) m = (
  record m {
    root_pid = some pid;
    generation = generation;
    paused = false;
    tasks = [];
    guards = [];
    missing_since = [];
  },
  [],
)
handle (Command.guards generation gs) m =
    (if generation == m.generation then record m { guards = gs; missing_since = [] } else m, [])
handle (Command.task_started generation worker started) m = (
  if generation == m.generation then record m { tasks = insert worker started m.tasks } else m,
  [],
)
handle (Command.task_finished generation worker) m =
    (if generation == m.generation then record m { tasks = erase worker m.tasks } else m, [])
handle (Command.fatal generation reason) m =
    if not m.paused && generation == m.generation
    then report Trigger.fatal reason (keys m.tasks) m
    else (m, [])

-- The inner loop empties the command queue; `false` means that a `stop` ended the process.
unfoldable pub drain : List Command → Monitor → Monitor × List Effect × Bool
drain [] m = (m, [], true)
drain (Command.stop ∷ cs) m = (m, [], false)
drain (c ∷ cs) m =
    let (m', done) = handle c m in
    let (m'', later, running) = drain cs m' in (m'', done ++ later, running)
