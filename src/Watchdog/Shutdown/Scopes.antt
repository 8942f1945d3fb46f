-- ===== src/Watchdog/Shutdown/Scopes.antt =====
-- pyleaner/watchdog.py: no scope of a worker outlives `Watchdog.stop`.
use py_leaner.Base.{
  ℕ, ◌≡◌, refl, sym, subst, ◌⊎◌, inl, inr, List, [], ◌∷◌, ◌++◌, arith, Among, Among-append,
  Among-append_right,
}
use py_leaner.Base.Dict.{insert, values}
use py_leaner.Base.Text.{Text}
use py_leaner.Watchdog.Types.{Guard, Command, Event, trigger, guard_replaced}
use py_leaner.Watchdog.Recovery.{Owner, accept_replacement_guard, stop_worker_scopes, units_of}
use py_leaner.Watchdog.Shutdown.{adopt_replacements, stop_watchdog}
use py_leaner.Watchdog.Shutdown.Replacements.{
  Among-insert, Among-inserted, IsStopped, units_of-Among, stopped-stop_if_any, Taken, Refused,
  stop_if_any-Among, accept_replacement_guard-cases,
}

-- The event announces this guard; it announces one in the place of a guard with this process.
abbrev pub Announces : Guard → Event → Type 0
Announces g (guard_replaced generation worker old_pid new) = g ≡ new
Announces g (trigger generation t reason workers) = ⊥

abbrev pub Replaces : Guard → Event → Type 0
Replaces g (guard_replaced generation worker old_pid new) = g.pid ≡ old_pid
Replaces g (trigger generation t reason workers) = ⊥

abbrev pub Some : (Event → Type 0) → List Event → Type 0
Some P [] = ⊥
Some P (e ∷ es) = P e ⊎ Some P es

adopt_stopped :
    (v : Text) (es : List Event) (o : Owner)
    → Among v o.stopped
    → Among v (stop_worker_scopes (adopt_replacements es o)).stopped
unfolding adopt_replacements stop_worker_scopes
adopt_stopped v [] o h = Among-append v o.stopped (units_of (values o.worker_scopes)) h
adopt_stopped v (trigger generation t reason workers ∷ es) o h = adopt_stopped v es o h
adopt_stopped v (guard_replaced generation worker old_pid new ∷ es) o h =
    let o' = accept_replacement_guard generation worker old_pid new o in
    adopt_stopped v es o' (elim (accept_replacement_guard-cases generation worker old_pid new o) [
      | inl (current, e, p, s, k) ↦ subst (Among v) (sym k) h
      | inr (s, e) ↦ subst (λ q. Among v q.stopped) (sym e) (stop_if_any-Among v new.unit o h)
    ])

-- What becomes of a guard's scope: there is none, it is stopped, or the monitor has stopped it for a
-- replacement that it announced.
abbrev pub IsReleased : Guard → List Event → Owner → Type 0
IsReleased g es o = IsStopped g o.stopped ⊎ Some (Replaces g) es

IsReleased-later :
    (g : Guard) (e : Event) (es : List Event) (o : Owner)
    → IsReleased g es o
    → IsReleased g (e ∷ es) o
IsReleased-later g e es o (inl h) = inl h
IsReleased-later g e es o (inr h) = inr (inr h)

IsStopped-stop_worker_scopes :
    (g : Guard) (o : Owner)
    → IsStopped g (units_of (values o.worker_scopes))
    → IsStopped g (stop_worker_scopes o).stopped
unfolding stop_worker_scopes
IsStopped-stop_worker_scopes g o (inl e) = inl e
IsStopped-stop_worker_scopes g o (inr h) =
    inr (Among-append_right g.unit o.stopped (units_of (values o.worker_scopes)) h)

IsStopped-adopt :
    (g : Guard) (es : List Event) (o : Owner)
    → IsStopped g o.stopped
    → IsStopped g (stop_worker_scopes (adopt_replacements es o)).stopped
IsStopped-adopt g es o (inl e) = inl e
IsStopped-adopt g es o (inr h) = inr (adopt_stopped g.unit es o h)

-- One replacement guard: what was held or is announced is released there, or is held or announced
-- afterwards.
abbrev Accepts : Guard → ℕ → Guard → List Event → Owner → Owner → Type 0
Accepts g old_pid new es o o' =
    Among g (values o.worker_scopes) ⊎ ((g ≡ new) ⊎ Some (Announces g) es)
    → (g.pid ≡ old_pid)
      ⊎ IsStopped g o'.stopped
      ⊎ (Among g (values o'.worker_scopes) ⊎ Some (Announces g) es)

Taken-Accepts :
    (g : Guard) (worker old_pid : ℕ) (new : Guard) (es : List Event) (o o' : Owner)
    → Taken worker old_pid new o o'
    → Accepts g old_pid new es o o'
Taken-Accepts g worker old_pid new es o o' (current, e, p, s, k) (inl h) =
    elim (Among-inserted worker g new o.worker_scopes h) [
      | inl m ↦ inr (inr (inl (subst (λ d. Among g (values d)) (sym s) m)))
      | inr e' ↦ inl (ground (arith, e, e', p))
    ]
Taken-Accepts g worker old_pid new es o o' (current, e, p, s, k) (inr (inl same)) = inr (
    inr (
      inl (
        subst (λ d. Among g (values d)) (sym s)
          (subst (λ x. Among x (values (insert worker new o.worker_scopes))) (sym same)
            (Among-insert worker new o.worker_scopes)))))
Taken-Accepts g worker old_pid new es o o' t (inr (inr h)) = inr (inr (inr h))

Refused-Accepts :
    (g : Guard) (old_pid : ℕ) (new : Guard) (es : List Event) (o o' : Owner)
    → Refused new o o'
    → Accepts g old_pid new es o o'
Refused-Accepts g old_pid new es o o' (s, e) (inl h) =
    inr (inr (inl (subst (λ d. Among g (values d)) (sym s) h)))
Refused-Accepts g old_pid new es o o' (s, e) (inr (inl same)) = inr (
    inl (
      subst (λ x. IsStopped x o'.stopped) (sym same)
        (subst (λ q. IsStopped new q.stopped) (sym e) (stopped-stop_if_any new o))))
Refused-Accepts g old_pid new es o o' r (inr (inr h)) = inr (inr (inr h))

accept-Accepts :
    (g : Guard) (generation worker old_pid : ℕ) (new : Guard) (es : List Event) (o : Owner)
    → Accepts g old_pid new es o (accept_replacement_guard generation worker old_pid new o)
accept-Accepts g generation worker old_pid new es o =
    elim (accept_replacement_guard-cases generation worker old_pid new o) [
      | inl t ↦
          Taken-Accepts g worker old_pid new es o
            (accept_replacement_guard generation worker old_pid new o) t
      | inr r ↦
          Refused-Accepts g old_pid new es o
            (accept_replacement_guard generation worker old_pid new o) r
    ]

adopt-IsReleased :
    (g : Guard) (es : List Event) (o : Owner)
    → Among g (values o.worker_scopes) ⊎ Some (Announces g) es
    → IsReleased g es (stop_worker_scopes (adopt_replacements es o))
unfolding adopt_replacements
adopt-IsReleased g [] o (inl h) =
    inl (IsStopped-stop_worker_scopes g o (units_of-Among g (values o.worker_scopes) h))
adopt-IsReleased g [] o (inr h) = absurd h
adopt-IsReleased g (trigger generation t reason workers ∷ es) o (inl h) =
    IsReleased-later g (trigger generation t reason workers) es
      (stop_worker_scopes (adopt_replacements es o)) (adopt-IsReleased g es o (inl h))
adopt-IsReleased g (trigger generation t reason workers ∷ es) o (inr (inl h)) = absurd h
adopt-IsReleased g (trigger generation t reason workers ∷ es) o (inr (inr h)) =
    IsReleased-later g (trigger generation t reason workers) es
      (stop_worker_scopes (adopt_replacements es o)) (adopt-IsReleased g es o (inr h))
adopt-IsReleased g (guard_replaced generation worker old_pid new ∷ es) o h =
    let o' = accept_replacement_guard generation worker old_pid new o in
    elim (accept-Accepts g generation worker old_pid new es o h) [
      | inl p ↦ inr (inl p)
      | inr (inl s) ↦ inl (IsStopped-adopt g es o' s)
      | inr (inr k) ↦
          IsReleased-later g (guard_replaced generation worker old_pid new) es
            (stop_worker_scopes (adopt_replacements es o')) (adopt-IsReleased g es o' k)
    ]

-- Whatever events are still queued when the watchdog stops: each guard that the owner holds or that
-- one of the events announces has no scope, or its scope has been stopped, or one of the events
-- announces a replacement for its process, for which the monitor has stopped it. No guard is held
-- afterwards.
pub stop_watchdog-IsReleased :
    (g : Guard) (es : List Event) (o : Owner)
    → Among g (values o.worker_scopes) ⊎ Some (Announces g) es
    → IsReleased g es (stop_watchdog es o) × ((stop_watchdog es o).worker_scopes ≡ [])
unfolding stop_watchdog stop_worker_scopes
stop_watchdog-IsReleased g es o h =
    (adopt-IsReleased g es (record o { sent = o.sent ++ Command.stop ∷ [] }) h, refl)
