-- ===== src/Watchdog/Monitor/Loop.antt =====
-- pyleaner/watchdog.py, lines 284 to 472: the rounds of the monitor's loop.
use py_leaner.Base.{
  ℕ, ◌+◌, Bool, true, false, Option, none, some, List, [], ◌∷◌, ◌++◌, ltb, leb, if◌then◌else◌,
}
use py_leaner.Base.Dict.{Dict, keys}
use py_leaner.Base.Text.{Text, codes, decimal}
use py_leaner.Watchdog.Types.{Trigger, Guard, Command, Effect}
use py_leaner.Watchdog.Monitor.{Limits, Monitor, World, root_alive, State, report, drain}
use py_leaner.Watchdog.Monitor.Inspect.{inspect}

-- `for worker_id, guard in list(guards.items())`, up to the first report.
unfoldable pub sweep : Limits → World → Dict Guard → Monitor → State
sweep l w [] m = (m, [])
sweep l w ((worker, g) ∷ gs) m =
    let (m', done) = inspect l (w.sight worker) w.now worker g m in
    let rest = sweep l w gs m' in if m'.paused then (m', done) else (rest.0, done ++ rest.1)

-- The workers whose task has run for longer than the deadline.
unfoldable pub overdue : ℕ → ℕ → Dict ℕ → List ℕ
overdue deadline now [] = []
overdue deadline now ((worker, started) ∷ tasks) =
    if ltb (started + deadline) now
    then worker ∷ overdue deadline now tasks
    else overdue deadline now tasks

unfoldable pub option_text : Option ℕ → Text
option_text none = codes "None"
option_text (some n) = decimal n

unfoldable pub death_reason : Option ℕ → Text
death_reason pid = codes "Lean server process exited (pid=" ++ (option_text pid ++ codes ")")

unfoldable pub deadline_reason : Limits → Text
deadline_reason l = codes "task exceeded " ++ (l.deadline_text ++ codes "s")

-- The deadline poll, where it is due, and then the guards.
unfoldable pub poll : Limits → World → Monitor → State
poll l w m =
    if leb (m.last_deadline_poll + l.poll_interval) w.now
    then elim (overdue l.deadline w.now m.tasks) [
      | [] ↦ sweep l w m.guards (record m { last_deadline_poll = w.now })
      | k ∷ ks ↦ report Trigger.deadline (deadline_reason l) (k ∷ ks) m
    ]
    else sweep l w m.guards m

-- A round after the commands: nothing while paused, otherwise the root process comes first.
unfoldable pub observe : Limits → World → Monitor → State
observe l w m =
    if m.paused
    then (m, [])
    else if root_alive w.state m.root_pid
    then poll l w m
    else report Trigger.death (death_reason m.root_pid) (keys m.tasks) m

-- One round of the outer loop; `false` means that the process has ended.
unfoldable pub pass : Limits → List Command → World → Monitor → Monitor × List Effect × Bool
pass l cs w m =
    let (m', done, running) = drain cs m in
    let (m'', seen) = observe l w m' in
    if running
    then if w.parent_alive then (m'', done ++ seen, true) else (m', done, false)
    else (m', done, false)

-- The process over a history of rounds: the commands found and the world observed in each.
unfoldable pub monitor_main : Limits → List (List Command × World) → Monitor → State
monitor_main l [] m = (m, [])
monitor_main l ((cs, w) ∷ rounds) m =
    let (m', done, running) = pass l cs w m in
    let rest = monitor_main l rounds m' in if running then (rest.0, done ++ rest.1) else (m', done)
