-- ===== src/Watchdog/Monitor/Inspect.antt =====
-- pyleaner/watchdog.py, lines 356 to 470: what the monitor does with the guard of one worker. A
-- round goes on to the next guard unless the monitor is paused afterwards.
use py_leaner.Base.{
  ℕ, ◌+◌, Bool, false, not, ◌&&◌, ◌||◌, Option, none, some, List, [], ◌∷◌, ◌++◌, ltb, ◌==◌,
  if◌then◌else◌,
}
use py_leaner.Base.Dict.{lookup, has_key, insert, erase, set_default}
use py_leaner.Base.Text.{Text, codes, decimal, text_eq}
use py_leaner.Watchdog.Types.{Trigger, Guard, guard_replaced, Effect, put, stop_scope}
use py_leaner.Watchdog.Monitor.{Limits, Monitor, Sight, process_alive, State, report}

-- `current_oom is not None and current_oom > baseline_oom`
unfoldable pub oom_grew : Sight → Guard → Bool
oom_grew s g = elim g.cgroup_path [
  | [] ↦ false
  | _ ∷ _ ↦ elim (s.oom_kill g.cgroup_path) [ none ↦ false | some n ↦ ltb g.oom_kill n ]
]

-- The anonymous RSS and the soft limit, where the one is above the other.
unfoldable pub over_soft_limit : Limits → Sight → Guard → Option (ℕ × ℕ)
over_soft_limit l s g = elim l.soft_memory_limit [
  | none ↦ none
  | some limit ↦ elim (s.rss_anon g.pid) [
    | none ↦ none
    | some rss ↦ if ltb limit rss then some (rss, limit) else none
  ]
]

-- `_systemd_scope_result(old_unit) if old_unit else ""`
unfoldable pub scope_result_of : Sight → Guard → Text
scope_result_of s g = elim g.unit [ [] ↦ [] | _ ∷ _ ↦ s.scope_result g.unit ]

-- `if unit: _stop_systemd_scope(unit)`
unfoldable pub stop_unit : Text → List Effect
stop_unit [] = []
stop_unit (c ∷ cs) = stop_scope (c ∷ cs) ∷ []

unfoldable pub worker_text : ℕ → ℕ → Text
worker_text worker pid = codes "(worker=" ++ (decimal worker ++ (codes ", pid=" ++ decimal pid))

unfoldable pub oom_reason : ℕ → ℕ → Text
oom_reason worker pid =
    codes "Lean worker hit its cgroup hard memory limit " ++ (worker_text worker pid ++ codes ")")

unfoldable pub soft_reason : ℕ → ℕ → ℕ → ℕ → Text
soft_reason worker pid rss limit =
    codes "Lean worker exceeded its anonymous-RSS soft limit "
    ++ (worker_text worker pid
        ++ (codes ", rss_anon="
            ++ (decimal rss ++ (codes ", limit=" ++ (decimal limit ++ codes ")")))))

unfoldable pub killed_reason : ℕ → ℕ → Text
killed_reason worker pid =
    codes "Lean worker was killed by its cgroup hard memory limit "
    ++ (worker_text worker pid ++ codes ")")

-- `scope_result or 'unknown'`
unfoldable pub or_unknown : Text → Text
or_unknown [] = codes "unknown"
or_unknown (c ∷ cs) = c ∷ cs

unfoldable pub gone_reason : ℕ → ℕ → Text → Text
gone_reason worker pid result =
    codes "Guarded Lean worker exited without a replacement while processing a task "
    ++ (worker_text worker pid ++ (codes ", scope_result=" ++ (or_unknown result ++ codes ")")))

-- The pid of a live process that took the place of the guarded one.
unfoldable pub replacement_of : Sight → ℕ → Guard → Option ℕ
replacement_of s worker g = elim (lookup worker s.worker_pids) [
  | none ↦ none
  | some pid ↦ if not (pid == g.pid) && process_alive s.state pid then some pid else none
]

-- The guard of the replacement; `none` where `_systemd_scope_for_pid` raises.
unfoldable pub guard_for : Limits → Sight → ℕ → ℕ → Option Guard
guard_for l s worker pid = elim l.hard_memory_limit [
  | none ↦ some (record { pid = pid; unit = []; cgroup_path = []; oom_kill = 0 })
  | some limit ↦ elim (s.adopt pid worker limit) [
    | none ↦ none
    | some (unit, path) ↦ some (record {
      pid = pid;
      unit = unit;
      cgroup_path = path;
      oom_kill = elim (s.oom_kill path) [ none ↦ 0 | some n ↦ n ];
    })
  ]
]

-- `missing_since.setdefault(worker_id, now)`
unfoldable pub note_missing : ℕ → ℕ → Monitor → Monitor
note_missing now worker m = record m { missing_since = set_default worker now m.missing_since }

-- The replacement's guard takes the place of the old one, whose scope is stopped.
unfoldable pub publish : ℕ → Guard → Guard → Monitor → State
publish worker old new m = (
  record m { guards = insert worker new m.guards; missing_since = erase worker m.missing_since },
  stop_unit old.unit ++ (put (guard_replaced m.generation worker old.pid new) ∷ []),
)

-- A replacement was found: it is guarded, unless it is gone again or cannot be adopted.
unfoldable pub rebind : Limits → Sight → ℕ → ℕ → Guard → ℕ → Monitor → State
rebind l s now worker g pid m = elim (guard_for l s worker pid) [
  | none ↦ (note_missing now worker m, [])
  | some new ↦
      if process_alive s.later_state pid
      then publish worker g new m
      else (note_missing now worker m, stop_unit new.unit)
]

-- When the worker of a guard was first missed.
unfoldable pub first_missing : ℕ → ℕ → Monitor → ℕ
first_missing now worker m = elim (lookup worker m.missing_since) [ none ↦ now | some t ↦ t ]

-- No replacement is in sight: after the grace period the task on the worker is blamed.
unfoldable pub await_replacement : Limits → Sight → ℕ → ℕ → Guard → Monitor → State
await_replacement l s now worker g m =
    let m' = note_missing now worker m in
    if not (has_key worker m.tasks) || ltb now (first_missing now worker m + l.replacement_grace)
    then (m', [])
    else report Trigger.worker_death (gone_reason worker g.pid (scope_result_of s g)) (worker ∷ [])
        m'

-- The guarded process is gone.
unfoldable pub inspect_gone : Limits → Sight → ℕ → ℕ → Guard → Monitor → State
inspect_gone l s now worker g m =
    if text_eq (scope_result_of s g) (codes "oom-kill")
    then report Trigger.memory (killed_reason worker g.pid) (worker ∷ []) m
    else elim (replacement_of s worker g) [
      | some pid ↦ rebind l s now worker g pid m
      | none ↦ await_replacement l s now worker g m
    ]

-- The body of `for worker_id, guard in list(guards.items())`.
unfoldable pub inspect : Limits → Sight → ℕ → ℕ → Guard → Monitor → State
inspect l s now worker g m =
    let alive_or_gone =
      if process_alive s.state g.pid
      then (record m { missing_since = erase worker m.missing_since }, [])
      else inspect_gone l s now worker g m in
    if oom_grew s g
    then report Trigger.memory (oom_reason worker g.pid) (worker ∷ []) m
    else elim (over_soft_limit l s g) [
      | none ↦ alive_or_gone
      | some (rss, limit) ↦
          if has_key worker m.tasks
          then report Trigger.memory (soft_reason worker g.pid rss limit) (worker ∷ []) m
          else alive_or_gone
    ]
