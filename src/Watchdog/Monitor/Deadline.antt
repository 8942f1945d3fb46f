-- ===== src/Watchdog/Monitor/Deadline.antt =====
-- The deadline poll of the monitor: who is blamed for an overdue task.
use py_leaner.Base.{
  ℕ, ◌+◌, ◌≤◌, ◌<◌, ◌≡◌, refl, true, false, none, some, List, [], ◌∷◌, arith, mem, ltb,
  Option-cases, inl, inr, ◌↔◌, subst,
}
use py_leaner.Base.Dict.{Dict, lookup, Distinct}
use py_leaner.Watchdog.Types.{Trigger, trigger, put}
use py_leaner.Watchdog.Monitor.{Limits, Monitor, World, root_alive, report}
use py_leaner.Watchdog.Monitor.Loop.{overdue, poll, observe, deadline_reason}

-- The task on the worker has run for longer than the deadline.
abbrev pub IsOverdue : ℕ → ℕ → Dict ℕ → ℕ → Type 0
IsOverdue deadline now tasks worker =
    (started : ℕ) × (lookup worker tasks ≡ some started) × (started + deadline < now)

overdue-none :
    (deadline now worker : ℕ) (tasks : Dict ℕ)
    → lookup worker tasks ≡ none
    → mem worker (overdue deadline now tasks) ≡ false
unfolding overdue
overdue-none deadline now worker [] h = refl
overdue-none deadline now worker (e ∷ tasks) h =
    ground (arith, overdue-none deadline now worker tasks)

-- The list of the overdue, at a worker with a task.
pub mem-overdue :
    (deadline now worker started : ℕ) (tasks : Dict ℕ)
    → Distinct tasks
    → lookup worker tasks ≡ some started
    → mem worker (overdue deadline now tasks) ≡ ltb (started + deadline) now
unfolding overdue
mem-overdue deadline now worker started [] d h = ground arith
mem-overdue deadline now worker started (e ∷ tasks) d h = ground (
  arith,
  overdue-none deadline now worker tasks,
  mem-overdue deadline now worker started tasks d.1,
)

mem-overdue-IsOverdue :
    (deadline now worker : ℕ) (tasks : Dict ℕ)
    → Distinct tasks
    → mem worker (overdue deadline now tasks) ≡ true
    → IsOverdue deadline now tasks worker
mem-overdue-IsOverdue deadline now worker tasks d h = elim (Option-cases (lookup worker tasks)) [
  | inl e ↦ absurd (ground (arith, overdue-none deadline now worker tasks e))
  | inr (t, e) ↦ (t, e, ground (arith, mem-overdue deadline now worker t tasks d e))
]

IsOverdue-mem :
    (deadline now worker : ℕ) (tasks : Dict ℕ)
    → Distinct tasks
    → IsOverdue deadline now tasks worker
    → mem worker (overdue deadline now tasks) ≡ true
IsOverdue-mem deadline now worker tasks d (t, e, late) =
    ground (arith, mem-overdue deadline now worker t tasks d e)

-- The list holds exactly the workers whose task is overdue.
mem-overdue_iff :
    (deadline now worker : ℕ) (tasks : Dict ℕ)
    → Distinct tasks
    → (mem worker (overdue deadline now tasks) ≡ true) ↔ IsOverdue deadline now tasks worker
mem-overdue_iff deadline now worker tasks d =
    (mem-overdue-IsOverdue deadline now worker tasks d, IsOverdue-mem deadline now worker tasks d)

module _ (l : Limits) (w : World) (m : Monitor) where
  -- A live root process and a deadline poll that is due.
  abbrev pub IsPolling : Type 0
  IsPolling =
      (m.paused ≡ false)
      × (root_alive w.state m.root_pid ≡ true)
      × (m.last_deadline_poll + l.poll_interval ≤ w.now)

  observe-overdue :
      (k : ℕ) (ks : List ℕ)
      → IsPolling
      → overdue l.deadline w.now m.tasks ≡ k ∷ ks
      → observe l w m ≡ (
        record m { paused = true },
        put (trigger m.generation Trigger.deadline (deadline_reason l) (k ∷ ks)) ∷ [],
      )
  unfolding observe poll report
  observe-overdue k ks p e = ground arith

  -- When the deadline poll is due and the task of some worker has run for longer than the
  -- deadline, the monitor pauses and reports one deadline trigger, before it looks at any guard;
  -- the trigger names exactly the workers whose task has run for longer than the deadline.
  pub observe_deadline :
      (worker : ℕ)
      → IsPolling
      → Distinct m.tasks
      → IsOverdue l.deadline w.now m.tasks worker
      → (blamed : List ℕ) × (observe l w m ≡ (
        record m { paused = true },
        put (trigger m.generation Trigger.deadline (deadline_reason l) blamed) ∷ [],
      ))
        × ((k : ℕ) → (mem k blamed ≡ true) ↔ IsOverdue l.deadline w.now m.tasks k)
  observe_deadline worker p d (started, e, late) = first _ refl
    where
      first :
          (ks : List ℕ)
          → overdue l.deadline w.now m.tasks ≡ ks
          → (blamed : List ℕ) × (observe l w m ≡ (
            record m { paused = true },
            put (trigger m.generation Trigger.deadline (deadline_reason l) blamed) ∷ [],
          ))
            × ((k : ℕ) → (mem k blamed ≡ true) ↔ IsOverdue l.deadline w.now m.tasks k)
      first [] n = absurd (ground (arith, mem-overdue l.deadline w.now worker started m.tasks d e))
      first (k ∷ ks) n = (
        k ∷ ks,
        observe-overdue k ks p n,
        λ j.
            subst (λ bs. (mem j bs ≡ true) ↔ IsOverdue l.deadline w.now m.tasks j) n
              (mem-overdue_iff l.deadline w.now j m.tasks d),
      )
