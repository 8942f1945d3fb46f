-- ===== src/Watchdog/Monitor/Once.antt =====
-- How often the monitor reports: at most once for each root process that it is told of.
use py_leaner.Base.{
  ℕ, ◌+◌, ◌≤◌, ◌≡◌, refl, true, false, List, [], ◌∷◌, ◌++◌, arith, Option-cases, inl, inr,
}
use py_leaner.Base.Dict.{Dict}
use py_leaner.Base.Text.{Text}
use py_leaner.Watchdog.Types.{
  Trigger, Guard, Command, trigger, guard_replaced, Effect, put, stop_scope,
}
use py_leaner.Watchdog.Monitor.{Limits, Monitor, Sight, World, State, report, handle, drain}
use py_leaner.Watchdog.Monitor.Inspect.{
  inspect, inspect_gone, rebind, await_replacement, publish, guard_for, replacement_of, stop_unit,
  note_missing,
}
use py_leaner.Watchdog.Monitor.Loop.{sweep, poll, observe, pass, monitor_main}

-- The number of trigger events among the effects.
abbrev pub reports : List Effect → ℕ
reports [] = 0
reports (put (trigger _ _ _ _) ∷ es) = 1 + reports es
reports (put (guard_replaced _ _ _ _) ∷ es) = reports es
reports (stop_scope _ ∷ es) = reports es

-- The number of `root` commands.
abbrev pub roots : List Command → ℕ
roots [] = 0
roots (Command.root _ _ ∷ cs) = 1 + roots cs
roots (_ ∷ cs) = roots cs

abbrev pub all_roots : List (List Command × World) → ℕ
all_roots [] = 0
all_roots ((cs, w) ∷ rounds) = roots cs + all_roots rounds

-- The reports that a monitor may still make before it hears of another root process.
abbrev pub allowance : Monitor → ℕ
allowance m = elim m.paused [ true ↦ 0 | false ↦ 1 ]

pub reports-append : (es fs : List Effect) → reports (es ++ fs) ≡ reports es + reports fs
reports-append [] fs = omega arith
reports-append (put (trigger _ _ _ _) ∷ es) fs = omega (arith, reports-append es fs)
reports-append (put (guard_replaced _ _ _ _) ∷ es) fs = reports-append es fs
reports-append (stop_scope _ ∷ es) fs = reports-append es fs

-- What a step may report is paid for by the allowance.
abbrev Within : ℕ → State → Type 0
Within n (m, es) = reports es + allowance m ≤ n

report-Within :
    (t : Trigger) (reason : Text) (ws : List ℕ) (m : Monitor) → Within 1 (report t reason ws m)
unfolding report
report-Within t reason ws m = omega arith

handle-Within : (c : Command) (m : Monitor) → Within (allowance m + roots (c ∷ [])) (handle c m)
unfolding handle report
handle-Within Command.stop m = omega arith
handle-Within Command.pause m = omega arith
handle-Within (Command.root p g) m = ground arith
handle-Within (Command.guards g gs) m = ground arith
handle-Within (Command.task_started g w t) m = ground arith
handle-Within (Command.task_finished g w) m = ground arith
handle-Within (Command.fatal g r) m = ground arith

drain-Within :
    (cs : List Command) (m : Monitor)
    → Within (allowance m + roots cs) ((drain cs m).0, (drain cs m).1)
unfolding drain
drain-Within [] m = omega arith
drain-Within (Command.stop ∷ cs) m = omega arith
drain-Within (Command.pause ∷ cs) m = ground (
  arith,
  handle-Within Command.pause m,
  drain-Within cs (handle Command.pause m).0,
  reports-append (handle Command.pause m).1 (drain cs (handle Command.pause m).0).1,
)
drain-Within (c ∷ cs) m = ground (
  arith,
  handle-Within c m,
  drain-Within cs (handle c m).0,
  reports-append (handle c m).1 (drain cs (handle c m).0).1,
)

stop_unit-reports : (u : Text) → reports (stop_unit u) ≡ 0
unfolding stop_unit
stop_unit-reports [] = refl
stop_unit-reports (c ∷ cs) = refl

-- At a monitor that is not paused.
abbrev Running : Monitor → Type 0
Running m = m.paused ≡ false

rebind-Within :
    (l : Limits) (s : Sight) (now worker : ℕ) (g : Guard) (pid : ℕ) (m : Monitor)
    → Running m
    → Within 1 (rebind l s now worker g pid m)
unfolding rebind note_missing publish
rebind-Within l s now worker g pid m h = elim (Option-cases (guard_for l s worker pid)) [
  | inl e ↦ rw (e, rebind) (ground arith)
  | inr (new, e) ↦
      rw (e, rebind)
        (ground (
          arith,
          stop_unit-reports new.unit,
          stop_unit-reports g.unit,
          reports-append (stop_unit g.unit)
              (put (guard_replaced m.generation worker g.pid new) ∷ []),
        ))
]

await_replacement-Within :
    (l : Limits) (s : Sight) (now worker : ℕ) (g : Guard) (m : Monitor)
    → Running m
    → Within 1 (await_replacement l s now worker g m)
unfolding await_replacement note_missing report
await_replacement-Within l s now worker g m h = ground arith

inspect_gone-Within :
    (l : Limits) (s : Sight) (now worker : ℕ) (g : Guard) (m : Monitor)
    → Running m
    → Within 1 (inspect_gone l s now worker g m)
unfolding inspect_gone report
inspect_gone-Within l s now worker g m h = elim (Option-cases (replacement_of s worker g)) [
  | inl e ↦ rw (e, inspect_gone) (ground (arith, await_replacement-Within l s now worker g m h))
  | inr (pid, e) ↦ rw (e, inspect_gone) (ground (arith, rebind-Within l s now worker g pid m h))
]

inspect-Within :
    (l : Limits) (s : Sight) (now worker : ℕ) (g : Guard) (m : Monitor)
    → Running m
    → Within 1 (inspect l s now worker g m)
unfolding inspect report
inspect-Within l s now worker g m h = ground (arith, inspect_gone-Within l s now worker g m h)

sweep-Within :
    (l : Limits) (w : World) (gs : Dict Guard) (m : Monitor) → Running m → Within 1 (sweep l w gs m)
unfolding sweep
sweep-Within l w [] m h = ground arith
sweep-Within l w ((worker, g) ∷ gs) m h =
    let m' = (inspect l (w.sight worker) w.now worker g m).0 in
    ground (
      arith,
      inspect-Within l (w.sight worker) w.now worker g m h,
      sweep-Within l w gs m',
      reports-append (inspect l (w.sight worker) w.now worker g m).1 (sweep l w gs m').1,
    )

poll-Within : (l : Limits) (w : World) (m : Monitor) → Running m → Within 1 (poll l w m)
unfolding poll report
poll-Within l w m h = ground (
  arith,
  sweep-Within l w m.guards m h,
  sweep-Within l w m.guards (record m { last_deadline_poll = w.now }) h,
)

observe-Within : (l : Limits) (w : World) (m : Monitor) → Within (allowance m) (observe l w m)
unfolding observe report
observe-Within l w m = ground (arith, poll-Within l w m)

pass-Within :
    (l : Limits) (cs : List Command) (w : World) (m : Monitor)
    → Within (allowance m + roots cs) ((pass l cs w m).0, (pass l cs w m).1)
unfolding pass
pass-Within l cs w m = ground (
  arith,
  drain-Within cs m,
  observe-Within l w (drain cs m).0,
  reports-append (drain cs m).1 (observe l w (drain cs m).0).1,
)

monitor_main-Within :
    (l : Limits) (rounds : List (List Command × World)) (m : Monitor)
    → Within (allowance m + all_roots rounds) (monitor_main l rounds m)
unfolding monitor_main
monitor_main-Within l [] m = omega arith
monitor_main-Within l ((cs, w) ∷ rounds) m = ground (
  arith,
  pass-Within l cs w m,
  monitor_main-Within l rounds (pass l cs w m).0,
  reports-append (pass l cs w m).1 (monitor_main l rounds (pass l cs w m).0).1,
)

-- Over any history of rounds, whatever the commands and whatever the system answers, the monitor
-- puts no more trigger events than it hears of root processes, and one more if it starts unpaused.
pub monitor_main-reports :
    (l : Limits) (rounds : List (List Command × World)) (m : Monitor)
    → reports (monitor_main l rounds m).1 ≤ allowance m + all_roots rounds
monitor_main-reports l rounds m = omega (arith, monitor_main-Within l rounds m)
