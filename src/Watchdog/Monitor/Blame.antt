-- ===== src/Watchdog/Monitor/Blame.antt =====
-- pyleaner/watchdog.py: whom the monitor blames; each trigger is backed by what the round observed.
use py_leaner.Base.{
  ℕ, ◌+◌, ◌≤◌, ◌≡◌, ◌≢◌, refl, sym, ◌∙◌, true, false, none, some, List, [], ◌∷◌, arith, Bool-cases,
  inl, inr, All, All-append,
}
use py_leaner.Base.Dict.{Dict, lookup, keys, Distinct, Distinct-Within, Within}
use py_leaner.Watchdog.Types.{Trigger, Guard, trigger, guard_replaced, Effect, put, stop_scope}
use py_leaner.Watchdog.Monitor.{Limits, Monitor, Sight, World, root_alive, process_alive, report}
use py_leaner.Watchdog.Monitor.Inspect.{inspect}
use py_leaner.Watchdog.Monitor.Loop.{sweep, poll, observe, overdue}
use py_leaner.Watchdog.Monitor.Frame.{
  SameTasks, SameTasks-refl, SameTasks-trans, inspect-Frame, inspect-SameTasks,
}
use py_leaner.Watchdog.Monitor.Justified.{GuardBlame, Justified, inspect-Justified}

-- The monitors note the same of every worker in the list.
abbrev SameMissing : Dict Guard → Monitor → Monitor → Type 0
SameMissing gs m m' = All (λ e. lookup e.0 m'.missing_since ≡ lookup e.0 m.missing_since) gs

inspect-SameMissing :
    (l : Limits) (s : Sight) (now worker : ℕ) (g : Guard) (gs : Dict Guard) (m m' : Monitor)
    → lookup worker gs ≡ none
    → SameMissing gs m m'
    → SameMissing gs m (inspect l s now worker g m').0
inspect-SameMissing l s now worker g [] m m' n h = tt
inspect-SameMissing l s now worker g ((k, v) ∷ gs) m m' n h =
    let other : k ≢ worker = ground arith in
    (
      (inspect-Frame k l s now worker g m' other).missing ∙ h.0,
      inspect-SameMissing l s now worker g gs m m' (ground arith) h.1,
    )

module _ (l : Limits) (w : World) (m : Monitor) where
  -- A trigger that a round puts names what the round saw: for a dead root process every worker with
  -- a task, for the deadline workers whose task is overdue, for the memory or for a lost worker the
  -- worker of one guard, with the cause at that guard.
  abbrev pub Caused : Trigger → List ℕ → Type 0
  Caused Trigger.death ws = (root_alive w.state m.root_pid ≡ false) × (ws ≡ keys m.tasks)
  Caused Trigger.deadline ws =
      (ws ≢ [])
      × (ws ≡ overdue l.deadline w.now m.tasks)
      × (m.last_deadline_poll + l.poll_interval ≤ w.now)
  Caused Trigger.fatal ws = ⊥
  Caused Trigger.watchdog_death ws = ⊥
  Caused t ws =
      (worker : ℕ) × (g : Guard) × (ws ≡ worker ∷ [])
      × (lookup worker m.guards ≡ some g)
      × GuardBlame l w.now m (w.sight worker) worker g t

  abbrev pub Blames : Effect → Type 0
  Blames (put (trigger n t r ws)) = (n ≡ m.generation) × Caused t ws
  Blames (put (guard_replaced n worker pid new)) =
      (n ≡ m.generation) × (process_alive (w.sight worker).later_state new.pid ≡ true)
  Blames (stop_scope u) = Unit

  module _ (m' : Monitor) (worker : ℕ) (g : Guard) (same : SameTasks m m')
      (miss : lookup worker m'.missing_since ≡ lookup worker m.missing_since)
      (there : lookup worker m.guards ≡ some g) where
    GuardBlame-Caused :
        (t : Trigger) (ws : List ℕ)
        → ws ≡ worker ∷ []
        → GuardBlame l w.now m' (w.sight worker) worker g t
        → Caused t ws
    GuardBlame-Caused Trigger.memory ws e (inl (busy, over)) =
        (worker, g, e, there, inl (rw (← same.tasks) busy, over))
    GuardBlame-Caused Trigger.memory ws e (inr hit) = (worker, g, e, there, inr hit)
    GuardBlame-Caused Trigger.worker_death ws e (gone, (busy, long)) = (
      worker,
      g,
      e,
      there,
      (gone, (rw (← same.tasks) busy, λ pos. let (t, at, le) = long pos in (t, sym miss ∙ at, le))),
    )
    GuardBlame-Caused _ ws e b = absurd b

    Justified-Blames :
        (es : List Effect) → All (Justified l w.now m' (w.sight worker) worker g) es → All Blames es
    Justified-Blames [] h = tt
    Justified-Blames (put (trigger n t r ws) ∷ es) h =
        ((h.0.0 ∙ same.generation, GuardBlame-Caused t ws h.0.1 h.0.2), Justified-Blames es h.1)
    Justified-Blames (put (guard_replaced n k old new) ∷ es) h =
        ((h.0.0 ∙ same.generation, rw h.0.1 h.0.3), Justified-Blames es h.1)
    Justified-Blames (stop_scope u ∷ es) h = (tt, Justified-Blames es h.1)

  sweep-Blames :
      (gs : Dict Guard) (m' : Monitor)
      → SameTasks m m'
      → Distinct gs
      → Within m.guards gs
      → SameMissing gs m m'
      → All Blames (sweep l w gs m').1
  unfolding sweep
  sweep-Blames [] m' same d there miss = tt
  sweep-Blames ((worker, g) ∷ gs) m' same d there miss =
      let next = inspect l (w.sight worker) w.now worker g m' in
      let this =
        Justified-Blames m' worker g same miss.0 there.0 next.1
          (inspect-Justified l w.now (w.sight worker) worker g m') in
      let rest =
        sweep-Blames gs next.0
          (SameTasks-trans same (inspect-SameTasks l (w.sight worker) w.now worker g m')) d.1
          there.1 (inspect-SameMissing l (w.sight worker) w.now worker g gs m m' d.0 miss.1) in
      elim (Bool-cases next.0.paused) [
        | inl e ↦ rw e this
        | inr e ↦ rw e (All-append Blames next.1 (sweep l w gs next.0).1 this rest)
      ]

  SameMissing-refl : (gs : Dict Guard) → SameMissing gs m m
  SameMissing-refl [] = tt
  SameMissing-refl (e ∷ gs) = (refl, SameMissing-refl gs)

  poll-Blames : Distinct m.guards → All Blames (poll l w m).1
  unfolding poll report
  poll-Blames d =
      let swept = λ (m' : Monitor) (same : SameTasks m m') (miss : SameMissing m.guards m m').
        sweep-Blames m.guards m' same d (Distinct-Within m.guards d) miss in
      ground (
        arith,
        swept m (SameTasks-refl m) (SameMissing-refl m.guards),
        swept (record m { last_deadline_poll = w.now })
            (record { tasks = refl; generation = refl; root_pid = refl })
            (SameMissing-refl m.guards),
      )

  -- Every trigger event of a round carries the generation of the monitor and is backed by what the
  -- round saw. It names: for a dead root process, every worker with a task; for the deadline, in a
  -- round where its poll is due, the overdue workers, of which there is at least one; for the memory,
  -- the worker of one guard, which has hit its cgroup's hard limit, or has a task and a process whose
  -- anonymous memory is above the soft limit; for a lost worker, the worker of one guard whose process
  -- is gone, which has a task and, with a grace period, has been noted as missing for at least that
  -- long. No other trigger is put, and a replacement guard that is announced is of a process seen
  -- alive. The guards name no worker twice.
  pub observe-Blames : Distinct m.guards → All Blames (observe l w m).1
  unfolding observe report
  observe-Blames d = ground (arith, poll-Blames d)
