-- ===== src/Tests/Monitor.antt =====
-- The monitor of pyleaner/watchdog.py on small histories.
use py_leaner.Base.{
  ℕ, ◌||◌, ◌==◌, if◌then◌else◌, ◌≤◌, ◌≡◌, refl, ◌↔◌, true, Option, none, some, List, [], ◌∷◌, arith,
  mem, All, map, ◌++◌,
}
use py_leaner.Base.Dict.{lookup}
use py_leaner.Base.Text.{codes}
use py_leaner.Watchdog.Types.{
  Trigger, Guard, Command, trigger, put, wedge_deadline, watchdog_poll_interval,
  worker_replacement_grace,
}
use py_leaner.Watchdog.Monitor.{
  Limits, Monitor, initial, Sight, World, process_alive, root_alive, report, handle, drain,
}
use py_leaner.Watchdog.Monitor.Inspect.{
  inspect, inspect_gone, oom_grew, over_soft_limit, scope_result_of, replacement_of,
  await_replacement, first_missing, note_missing, gone_reason, soft_reason,
}
use py_leaner.Watchdog.Monitor.Loop.{
  sweep, overdue, deadline_reason, poll, observe, pass, monitor_main,
}
use py_leaner.Watchdog.Monitor.Once.{reports, monitor_main-reports}
use py_leaner.Watchdog.Monitor.Deadline.{IsOverdue, observe_deadline}
use py_leaner.Watchdog.Monitor.Blame.{Blames, observe-Blames}
use py_leaner.Watchdog.Monitor.Timely.{quiet, reported_in_time}
use py_leaner.Watchdog.Monitor.Slots.{commands_of}
use py_leaner.Watchdog.Monitor.Current.{IsCurrent, monitor_main-IsCurrent}

abbrev limits : Limits
limits = record {
  deadline = wedge_deadline;
  deadline_text = codes "120.0";
  poll_interval = watchdog_poll_interval;
  soft_memory_limit = some 1_000;
  hard_memory_limit = none;
  replacement_grace = worker_replacement_grace;
}

-- Process 10, the root, and 21, the process of worker 1, sleep; no other process is there.
states : ℕ → Option ℕ
states pid = if pid == 10 || pid == 21 then some b'S' else none

sight : Sight
sight = record {
  state = states;
  later_state = states;
  rss_anon = λ pid. some 500;
  oom_kill = λ path. none;
  scope_result = λ unit. [];
  worker_pids = (1, 21) ∷ [];
  adopt = λ pid worker limit. none;
}

world_at : ℕ → World
world_at now = record { parent_alive = true; now = now; state = states; sight = λ worker. sight }

guard_of : ℕ → Guard
guard_of pid = record { pid = pid; unit = []; cgroup_path = []; oom_kill = 0 }

-- Worker 1 began a task at 5 s and worker 2 at 100 s.
commands : List Command
commands =
    Command.root 10 1
    ∷ Command.guards 1 ((1, guard_of 21) ∷ (2, guard_of 22) ∷ [])
    ∷ Command.task_started 1 1 5_000
    ∷ Command.task_started 1 2 100_000
    ∷ []

busy : Monitor
unfolding commands guard_of
busy = (drain commands initial).0

-- At 130 s the task of worker 1 is overdue, and that of worker 2 is not.
deadline_run :
    (observe limits (world_at 130_000) busy).1
    ≡ put (trigger 1 Trigger.deadline (codes "task exceeded 120.0s") (1 ∷ [])) ∷ []
unfolding busy drain handle observe poll overdue report deadline_reason root_alive process_alive
    states world_at
deadline_run = refl

-- The process of worker 2 is missed first at 101 s; it is blamed once three seconds have passed.
lost_worker_run :
    (monitor_main limits
      ((commands, world_at 101_000) ∷ ([], world_at 103_000) ∷ ([], world_at 104_000) ∷ [])
      initial).1
    ≡ put (trigger 1 Trigger.worker_death (gone_reason 2 22 []) (2 ∷ [])) ∷ []
unfolding commands guard_of monitor_main pass drain handle observe poll overdue report root_alive
    process_alive states world_at sight sweep inspect inspect_gone oom_grew over_soft_limit
    scope_result_of replacement_of await_replacement first_missing note_missing
lost_worker_run = refl

monitor_main-reports_example :
    reports
      (monitor_main limits ((commands, world_at 101_000) ∷ ([], world_at 130_000) ∷ []) initial).1
    ≤ 1
unfolding commands
monitor_main-reports_example =
    monitor_main-reports limits ((commands, world_at 101_000) ∷ ([], world_at 130_000) ∷ []) initial

monitor_main-IsCurrent_example :
    (lookup 2 (monitor_main limits ((commands, world_at 101_000) ∷ []) initial).0.tasks
      ≡ some 100_000)
    ↔ IsCurrent 2 100_000
        (monitor_main limits ((commands, world_at 101_000) ∷ []) initial).0.generation
        (commands_of ((commands, world_at 101_000) ∷ []))
unfolding world_at commands
monitor_main-IsCurrent_example =
    monitor_main-IsCurrent limits ((commands, world_at 101_000) ∷ []) initial 2 100_000
      ((refl, (tt, (tt, (tt, (tt, tt))))), tt) refl

observe_deadline_example :
    (blamed : List ℕ) × (observe limits (world_at 130_000) busy ≡ (
      record busy { paused = true },
      put (trigger busy.generation Trigger.deadline (deadline_reason limits) blamed) ∷ [],
    ))
    × ((k : ℕ) → (mem k blamed ≡ true) ↔ IsOverdue wedge_deadline 130_000 busy.tasks k)
unfolding busy drain handle root_alive process_alive states world_at
observe_deadline_example =
    observe_deadline limits (world_at 130_000) busy 1 (refl, refl, omega arith) (refl, (refl, tt))
      (5_000, refl, omega arith)

-- The process of worker 1, which has a task, is above the soft limit.
heavy : World
heavy = record {
  parent_alive = true;
  now = 101_000;
  state = states;
  sight = λ worker. record sight { rss_anon = λ pid. some 1_500 };
}

heavy_run :
    (observe limits heavy busy).1
    ≡ put (trigger 1 Trigger.memory (soft_reason 1 21 1_500 1_000) (1 ∷ [])) ∷ []
unfolding heavy busy drain handle observe poll overdue report root_alive process_alive states sight
    sweep inspect oom_grew over_soft_limit
heavy_run = refl

observe-Blames_example : All (Blames limits heavy busy) (observe limits heavy busy).1
unfolding busy drain handle
observe-Blames_example = observe-Blames limits heavy busy (refl, (refl, tt))

reported_in_time_example :
    1
    ≤ reports
        (monitor_main limits
          (map quiet (world_at 101_000 ∷ []) ++ quiet (world_at 150_000) ∷ [])
          busy).1
unfolding busy drain handle world_at
reported_in_time_example =
    reported_in_time limits 1 5_000 (world_at 101_000 ∷ []) (world_at 150_000) busy refl
      (refl, (refl, tt)) refl (omega arith) (refl, (refl, tt)) (omega arith)
