-- ===== src/Watchdog/Monitor/Timely.antt =====
-- The deadline poll of the monitor: how long an overdue task can go unreported.
use py_leaner.Base.{
  ℕ, ◌+◌, ◌≤◌, ◌<◌, ◌≡◌, refl, sym, subst, true, false, some, List, [], ◌∷◌, ◌++◌, arith, ◌⊎◌, inl,
  inr, map, All, Option-cases,
}
use py_leaner.Base.Dict.{Dict, lookup, Distinct}
use py_leaner.Watchdog.Types.{Guard, Command}
use py_leaner.Watchdog.Monitor.{Limits, Monitor, World, Sight, report, drain}
use py_leaner.Watchdog.Monitor.Inspect.{
  inspect, inspect_gone, rebind, await_replacement, publish, note_missing, replacement_of,
}
use py_leaner.Watchdog.Monitor.Loop.{sweep, poll, observe, pass, monitor_main}
use py_leaner.Watchdog.Monitor.Frame.{observe-SameTasks}
use py_leaner.Watchdog.Monitor.Deadline.{mem-overdue}
use py_leaner.Watchdog.Monitor.Once.{reports, reports-append}
use py_leaner.Watchdog.Monitor.{State}

-- An unpaused monitor has reported, or it goes on unpaused with the same last deadline poll.
abbrev Reports : Monitor → State → Type 0
Reports m r =
    (1 ≤ reports r.1) ⊎ ((r.0.paused ≡ false) × (r.0.last_deadline_poll ≡ m.last_deadline_poll))

module _ (l : Limits) (s : Sight) (now worker : ℕ) (g : Guard) where
  rebind-Reports :
      (pid : ℕ) (m : Monitor) → m.paused ≡ false → Reports m (rebind l s now worker g pid m)
  unfolding rebind note_missing publish
  rebind-Reports pid m h = ground arith

  await_replacement-Reports :
      (m : Monitor) → m.paused ≡ false → Reports m (await_replacement l s now worker g m)
  unfolding await_replacement note_missing report
  await_replacement-Reports m h = ground arith

  inspect_gone-Reports :
      (m : Monitor) → m.paused ≡ false → Reports m (inspect_gone l s now worker g m)
  unfolding inspect_gone report
  inspect_gone-Reports m h = elim (Option-cases (replacement_of s worker g)) [
    | inl e ↦ rw (e, inspect_gone) (ground (arith, await_replacement-Reports m h))
    | inr (pid, e) ↦ rw (e, inspect_gone) (ground (arith, rebind-Reports pid m h))
  ]

  inspect-Reports : (m : Monitor) → m.paused ≡ false → Reports m (inspect l s now worker g m)
  unfolding inspect report
  inspect-Reports m h = ground (arith, inspect_gone-Reports m h)

sweep-Reports :
    (l : Limits) (w : World) (gs : Dict Guard) (m : Monitor)
    → m.paused ≡ false
    → Reports m (sweep l w gs m)
unfolding sweep
sweep-Reports l w [] m h = inr (h, refl)
sweep-Reports l w ((worker, g) ∷ gs) m h =
    let r = inspect l (w.sight worker) w.now worker g m in
    ground (
      arith,
      inspect-Reports l (w.sight worker) w.now worker g m h,
      sweep-Reports l w gs r.0,
      reports-append r.1 (sweep l w gs r.0).1,
    )

-- An unpaused monitor has reported, or it goes on unpaused and has polled the deadlines no later
-- than it should for this task.
abbrev Polls : ℕ → ℕ → State → Type 0
Polls deadline started r =
    (1 ≤ reports r.1) ⊎ ((r.0.paused ≡ false) × (r.0.last_deadline_poll ≤ started + deadline))

module _ (l : Limits) (w : World) (worker started : ℕ) (m : Monitor) (h : m.paused ≡ false)
    (d : Distinct m.tasks) (e : lookup worker m.tasks ≡ some started)
    (p : m.last_deadline_poll ≤ started + l.deadline) where
  poll-Polls : Polls l.deadline started (poll l w m)
  unfolding poll report
  poll-Polls = ground (
    arith,
    h,
    p,
    mem-overdue l.deadline w.now worker started m.tasks d e,
    sweep-Reports l w m.guards m h,
    sweep-Reports l w m.guards (record m { last_deadline_poll = w.now }) h,
  )

  poll_late : started + l.deadline + l.poll_interval < w.now → 1 ≤ reports (poll l w m).1
  unfolding poll report
  poll_late late = ground (arith, late, p, mem-overdue l.deadline w.now worker started m.tasks d e)

  observe-Polls : Polls l.deadline started (observe l w m)
  unfolding observe report
  observe-Polls = ground (arith, h, poll-Polls)

  observe_late : started + l.deadline + l.poll_interval < w.now → 1 ≤ reports (observe l w m).1
  unfolding observe report
  observe_late late = ground (arith, h, poll_late late)

-- A round without commands
abbrev pub quiet : World → List Command × World
quiet w = ([], w)

quiet_pass :
    (l : Limits) (w : World) (rounds : List (List Command × World)) (m : Monitor)
    → w.parent_alive ≡ true
    → reports (monitor_main l (quiet w ∷ rounds) m).1
      ≡ reports (observe l w m).1 + reports (monitor_main l rounds (observe l w m).0).1
unfolding monitor_main pass drain
quiet_pass l w rounds m a =
    ground (arith, a, reports-append (observe l w m).1 (monitor_main l rounds (observe l w m).0).1)

-- Where an unpaused monitor, whose dict holds no worker twice, has polled the deadlines no later than
-- a task's start and the deadline: after any rounds without commands in which the owner lives, the
-- last of them later than the task's start by more than the deadline and one poll interval, it has
-- put a trigger event.
pub reported_in_time :
    (l : Limits) (worker started : ℕ) (ws : List World) (last : World) (m : Monitor)
    → m.paused ≡ false
    → Distinct m.tasks
    → lookup worker m.tasks ≡ some started
    → m.last_deadline_poll ≤ started + l.deadline
    → All (λ w. w.parent_alive ≡ true) (ws ++ last ∷ [])
    → started + l.deadline + l.poll_interval < last.now
    → 1 ≤ reports (monitor_main l (map quiet ws ++ quiet last ∷ []) m).1
reported_in_time l worker started [] last m h d e p a late =
    omega (arith, quiet_pass l last [] m a.0, observe_late l last worker started m h d e p late)
reported_in_time l worker started (w ∷ ws) last m h d e p a late =
    let rounds = map quiet ws ++ quiet last ∷ [] in
    let same = observe-SameTasks l w m in
    elim (observe-Polls l w worker started m h d e p) [
      | inl r ↦ omega (arith, quiet_pass l w rounds m a.0, r)
      | inr (h', p') ↦ omega (
        arith,
        quiet_pass l w rounds m a.0,
        reported_in_time l worker started ws last (observe l w m).0 h'
            (subst (Distinct {V = ℕ}) (sym same.tasks) d)
            (subst (λ ts. lookup worker ts ≡ some started) (sym same.tasks) e) p' a.1 late,
      )
    ]
