-- ===== src/Watchdog/Monitor/Justified.antt =====
-- pyleaner/watchdog.py: the cause of each trigger that the guard of one worker gives rise to.
use py_leaner.Base.{
  ℕ, ◌+◌, Option, ◌≤◌, ◌<◌, ◌≡◌, refl, ◌⊎◌, true, false, none, some, [], ◌∷◌, arith, Option-cases,
  Bool-cases, inl, inr, All, All-append, ltb, if◌then◌else◌,
}
use py_leaner.Base.Dict.{lookup, has_key, erase}
use py_leaner.Base.Text.{Text, codes, text_eq}
use py_leaner.Watchdog.Types.{Trigger, Guard, trigger, guard_replaced, Effect, put, stop_scope}
use py_leaner.Watchdog.Monitor.{Limits, Monitor, Sight, process_alive, report}
use py_leaner.Watchdog.Monitor.Inspect.{
  inspect, inspect_gone, over_soft_limit, rebind, await_replacement, publish, note_missing,
  guard_for, stop_unit, replacement_of, oom_grew, scope_result_of, first_missing,
}

module _ (l : Limits) (now : ℕ) (m : Monitor) where
  -- The cgroup of the guard has killed, by its counter or by the result of its scope.
  abbrev pub HitHardLimit : Sight → Guard → Type 0
  HitHardLimit s g =
      (oom_grew s g ≡ true) ⊎ (text_eq (scope_result_of s g) (codes "oom-kill") ≡ true)

  -- The anonymous memory of the worker's process is above the soft limit, and it has a task.
  abbrev pub IsOverLimit : Sight → ℕ → Guard → Type 0
  IsOverLimit s worker g =
      (has_key worker m.tasks ≡ true)
      × ((limit : ℕ) × (rss : ℕ) × (l.soft_memory_limit ≡ some limit)
          × (s.rss_anon g.pid ≡ some rss)
          × (limit < rss))

  -- The worker has a task, and its process has been missing since `first`, for the grace period.
  abbrev pub GoneForGood : ℕ → Type 0
  GoneForGood worker =
      (has_key worker m.tasks ≡ true)
      × (0 < l.replacement_grace
          → (first : ℕ) × (lookup worker m.missing_since ≡ some first)
            × (first + l.replacement_grace ≤ now))

  -- What must hold for a trigger that one guard gives rise to.
  abbrev pub GuardBlame : Sight → ℕ → Guard → Trigger → Type 0
  GuardBlame s worker g Trigger.memory = IsOverLimit s worker g ⊎ HitHardLimit s g
  GuardBlame s worker g Trigger.worker_death =
      (process_alive s.state g.pid ≡ false) × GoneForGood worker
  GuardBlame s worker g _ = ⊥

  -- Of the effects at one guard, each trigger blames that worker, with a cause.
  abbrev pub Justified : Sight → ℕ → Guard → Effect → Type 0
  Justified s worker g (put (trigger n t r ws)) =
      (n ≡ m.generation) × (ws ≡ worker ∷ []) × GuardBlame s worker g t
  Justified s worker g (put (guard_replaced n k old new)) =
      (n ≡ m.generation)
      × (k ≡ worker)
      × (old ≡ g.pid)
      × (process_alive s.later_state new.pid ≡ true)
  Justified s worker g (stop_scope _) = Unit

  stop_unit-Justified :
      (s : Sight) (worker : ℕ) (g : Guard) (u : Text) → All (Justified s worker g) (stop_unit u)
  unfolding stop_unit
  stop_unit-Justified s worker g [] = tt
  stop_unit-Justified s worker g (c ∷ cs) = (tt, tt)

module _ (l : Limits) (now : ℕ) (s : Sight) (worker : ℕ) (g : Guard) (m : Monitor) where
  guard_for-pid : (pid : ℕ) (new : Guard) → guard_for l s worker pid ≡ some new → new.pid ≡ pid
  unfolding guard_for
  guard_for-pid pid new e = ground arith

  publish-Justified :
      (new : Guard)
      → process_alive s.later_state new.pid ≡ true
      → All (Justified l now m s worker g) (publish worker g new m).1
  unfolding publish
  publish-Justified new alive =
      All-append (Justified l now m s worker g) (stop_unit g.unit)
        (put (guard_replaced m.generation worker g.pid new) ∷ [])
        (stop_unit-Justified l now m s worker g g.unit) ((refl, refl, refl, alive), tt)

  rebind-Justified :
      (pid : ℕ) → All (Justified l now m s worker g) (rebind l s now worker g pid m).1
  unfolding rebind
  rebind-Justified pid = elim (Option-cases (guard_for l s worker pid)) [
    | inl e ↦ rw (e, rebind) tt
    | inr (new, e) ↦ elim (Bool-cases (process_alive s.later_state pid)) [
      | inl alive ↦
          rw (e, alive, rebind) (publish-Justified new (rw (guard_for-pid pid new e) alive))
      | inr gone ↦ rw (e, gone, rebind) (stop_unit-Justified l now m s worker g new.unit)
    ]
  ]

  long_missing :
      ltb now (first_missing now worker m + l.replacement_grace) ≡ false
      → 0 < l.replacement_grace
      → (first : ℕ) × (lookup worker m.missing_since ≡ some first)
        × (first + l.replacement_grace ≤ now)
  unfolding first_missing
  long_missing h pos = elim (Option-cases (lookup worker m.missing_since)) [
    | inl e ↦ absurd (ground arith)
    | inr (t, e) ↦ (t, e, ground arith)
  ]

  await_replacement-Justified :
      process_alive s.state g.pid ≡ false
      → All (Justified l now m s worker g) (await_replacement l s now worker g m).1
  unfolding await_replacement report note_missing
  await_replacement-Justified gone = elim (Bool-cases (has_key worker m.tasks)) [
    | inl busy ↦ elim (Bool-cases (ltb now (first_missing now worker m + l.replacement_grace))) [
      | inl soon ↦ ground arith
      | inr late ↦ rw (busy, late) (((refl, refl, (gone, (busy, long_missing late))), tt))
    ]
    | inr idle ↦ ground arith
  ]

  inspect_gone-Justified :
      process_alive s.state g.pid ≡ false
      → All (Justified l now m s worker g) (inspect_gone l s now worker g m).1
  unfolding inspect_gone report
  inspect_gone-Justified gone =
      elim (Bool-cases (text_eq (scope_result_of s g) (codes "oom-kill"))) [
        | inl killed ↦ rw (killed, inspect_gone) (((refl, refl, inr (inr killed)), tt))
        | inr other ↦ elim (Option-cases (replacement_of s worker g)) [
          | inl e ↦ rw (other, e, inspect_gone) (await_replacement-Justified gone)
          | inr (pid, e) ↦ rw (other, e, inspect_gone) (rebind-Justified pid)
        ]
      ]

  over_soft_limit-above :
      (rss limit : ℕ)
      → over_soft_limit l s g ≡ some (rss, limit)
      → (l.soft_memory_limit ≡ some limit) × (s.rss_anon g.pid ≡ some rss) × (limit < rss)
  unfolding over_soft_limit
  over_soft_limit-above rss limit = by_cases l.soft_memory_limit (s.rss_anon g.pid)
    where
      by_cases :
          (soft seen : Option ℕ)
          → (elim soft as (λ x. Option (ℕ × ℕ)) [
            | none ↦ none
            | some k ↦ elim seen as (λ x. Option (ℕ × ℕ)) [
              | none ↦ none
              | some x ↦ if ltb k x then some (x, k) else none
            ]
          ])
            ≡ some (rss, limit)
          → (soft ≡ some limit) × (seen ≡ some rss) × (limit < rss)
      by_cases none seen e = absurd (cc e)
      by_cases (some k) none e = absurd (cc e)
      by_cases (some k) (some x) e = ground (arith, e)

  -- The guarded process is alive, or gone.
  looked_at-Justified :
      All
        (Justified l now m s worker g)
        (if process_alive s.state g.pid
          then (record m { missing_since = erase worker m.missing_since }, [])
          else inspect_gone l s now worker g m).1
  looked_at-Justified = ground (arith, inspect_gone-Justified)

  pub inspect-Justified : All (Justified l now m s worker g) (inspect l s now worker g m).1
  unfolding inspect report
  inspect-Justified = elim (Bool-cases (oom_grew s g)) [
    | inl hit ↦ rw (hit, inspect) ((refl, refl, inr (inl hit)), tt)
    | inr low ↦ elim (Option-cases (over_soft_limit l s g)) [
      | inl e ↦ rw (low, e, inspect) looked_at-Justified
      | inr ((rss, limit), e) ↦ elim (Bool-cases (has_key worker m.tasks)) [
        | inl busy ↦
            let (soft, seen, above) = over_soft_limit-above rss limit e in
            rw (low, e, busy, inspect)
              ((refl, refl, inl (busy, (limit, rss, soft, seen, above))), tt)
        | inr idle ↦ rw (low, e, idle, inspect) looked_at-Justified
      ]
    ]
  ]
