-- ===== src/Watchdog/Monitor/Frame.antt =====
-- pyleaner/watchdog.py: what one round of the monitor leaves alone.
use py_leaner.Base.{ℕ, suc, ◌≡◌, ◌≢◌, refl, ◌∙◌, ap, List, [], ◌∷◌, arith, Option-cases, inl, inr}
use py_leaner.Base.Dict.{
  Dict, lookup, lookup-erase, lookup-set_default, Distinct, insert-Distinct, erase-Distinct,
}
use py_leaner.Watchdog.Types.{Guard, Command}
use py_leaner.Watchdog.Monitor.{Limits, Monitor, Sight, World, report, handle, drain}
use py_leaner.Watchdog.Monitor.Inspect.{
  inspect, inspect_gone, rebind, await_replacement, publish, note_missing, replacement_of,
}
use py_leaner.Watchdog.Monitor.Loop.{sweep, poll, observe, pass}

-- Both monitors follow the same root process and the same tasks.
pub record SameTasks (m m' : Monitor) : Type 0 where
  pub tasks : m'.tasks ≡ m.tasks
  pub generation : m'.generation ≡ m.generation
  pub root_pid : m'.root_pid ≡ m.root_pid

-- Beside that, nothing changed in what is noted of worker `k`.
pub record Frame (k : ℕ) (m m' : Monitor) : Type 0 where
  pub same : SameTasks m m'
  pub missing : lookup k m'.missing_since ≡ lookup k m.missing_since

module _ (k : ℕ) (l : Limits) (s : Sight) (now worker : ℕ) (g : Guard) where
  rebind-Frame : (pid : ℕ) (m : Monitor) → k ≢ worker → Frame k m (rebind l s now worker g pid m).0
  unfolding rebind note_missing publish
  rebind-Frame pid m h = ground (
    arith,
    lookup-set_default k worker now m.missing_since,
    lookup-erase k worker m.missing_since,
  )

  await_replacement-Frame :
      (m : Monitor) → k ≢ worker → Frame k m (await_replacement l s now worker g m).0
  unfolding await_replacement note_missing report
  await_replacement-Frame m h = ground (arith, lookup-set_default k worker now m.missing_since)

  inspect_gone-Frame : (m : Monitor) → k ≢ worker → Frame k m (inspect_gone l s now worker g m).0
  unfolding inspect_gone report
  inspect_gone-Frame m h = elim (Option-cases (replacement_of s worker g)) [
    | inl e ↦ rw (e, inspect_gone) (ground (arith, await_replacement-Frame m h))
    | inr (pid, e) ↦ rw (e, inspect_gone) (ground (arith, rebind-Frame pid m h))
  ]

  -- To inspect the guard of one worker changes nothing for the others.
  pub inspect-Frame : (m : Monitor) → k ≢ worker → Frame k m (inspect l s now worker g m).0
  unfolding inspect report
  inspect-Frame m h = ground (arith, inspect_gone-Frame m h, lookup-erase k worker m.missing_since)

pub SameTasks-refl : (m : Monitor) → SameTasks m m
SameTasks-refl m = record { tasks = refl; generation = refl; root_pid = refl }

pub SameTasks-trans : {m n o : Monitor} → SameTasks m n → SameTasks n o → SameTasks m o
SameTasks-trans p q = record {
  tasks = q.tasks ∙ p.tasks;
  generation = q.generation ∙ p.generation;
  root_pid = q.root_pid ∙ p.root_pid;
}

pub inspect-SameTasks :
    (l : Limits) (s : Sight) (now worker : ℕ) (g : Guard) (m : Monitor)
    → SameTasks m (inspect l s now worker g m).0
inspect-SameTasks l s now worker g m =
    (inspect-Frame (suc worker) l s now worker g m (λ e. absurd (omega arith))).same

sweep-SameTasks :
    (l : Limits) (w : World) (gs : Dict Guard) (m : Monitor) → SameTasks m (sweep l w gs m).0
unfolding sweep
sweep-SameTasks l w [] m = SameTasks-refl m
sweep-SameTasks l w ((worker, g) ∷ gs) m = ground (
  arith,
  inspect-SameTasks l (w.sight worker) w.now worker g m,
  sweep-SameTasks l w gs (inspect l (w.sight worker) w.now worker g m).0,
)

poll-SameTasks : (l : Limits) (w : World) (m : Monitor) → SameTasks m (poll l w m).0
unfolding poll report
poll-SameTasks l w m = ground (
  arith,
  sweep-SameTasks l w m.guards m,
  sweep-SameTasks l w m.guards (record m { last_deadline_poll = w.now }),
)

-- A round's observation leaves the tasks to the commands.
pub observe-SameTasks : (l : Limits) (w : World) (m : Monitor) → SameTasks m (observe l w m).0
unfolding observe report
observe-SameTasks l w m = ground (arith, poll-SameTasks l w m)

handle-Distinct : (c : Command) (m : Monitor) → Distinct m.tasks → Distinct (handle c m).0.tasks
unfolding handle report
handle-Distinct Command.stop m h = h
handle-Distinct Command.pause m h = tt
handle-Distinct (Command.root p g) m h = tt
handle-Distinct (Command.guards g gs) m h = ground arith
handle-Distinct (Command.task_started g w t) m h = ground (arith, insert-Distinct w t m.tasks h)
handle-Distinct (Command.task_finished g w) m h = ground (arith, erase-Distinct w m.tasks h)
handle-Distinct (Command.fatal g r) m h = ground arith

drain-Distinct :
    (cs : List Command) (m : Monitor) → Distinct m.tasks → Distinct (drain cs m).0.tasks
unfolding drain
drain-Distinct [] m h = h
drain-Distinct (Command.stop ∷ cs) m h = h
drain-Distinct (c ∷ cs) m h = drain-Distinct cs (handle c m).0 (handle-Distinct c m h)

-- The dict that stands for the tasks keeps one entry for each worker, as a Python dict does.
pass-Distinct :
    (l : Limits) (cs : List Command) (w : World) (m : Monitor)
    → Distinct m.tasks
    → Distinct (pass l cs w m).0.tasks
unfolding pass
pass-Distinct l cs w m h = ground (
  arith,
  drain-Distinct cs m h,
  ap (Distinct {V = ℕ}) (observe-SameTasks l w (drain cs m).0).tasks,
)
