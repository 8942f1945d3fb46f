-- ===== src/Watchdog/Monitor/Slots.antt =====
-- pyleaner/watchdog.py: what the monitor's commands do to the task of one worker. A slot is the
-- generation and the start of the worker's task, if it has one.
use py_leaner.Base.{
  ℕ, ◌≡◌, refl, sym, ap, ◌∙◌, Bool, true, false, Option, none, some, List, [], ◌∷◌, ◌++◌, arith,
  ◌&&◌, ◌==◌, if◌then◌else◌, All,
}
use py_leaner.Base.Dict.{lookup, lookup-insert, lookup-erase}
use py_leaner.Watchdog.Types.{Command, Effect}
use py_leaner.Watchdog.Monitor.{Limits, Monitor, World, report, handle, drain}
use py_leaner.Watchdog.Monitor.Loop.{observe, pass, monitor_main}
use py_leaner.Watchdog.Monitor.Frame.{SameTasks, observe-SameTasks}

abbrev pub Slot : Type 0
Slot = ℕ × Option ℕ

-- One command, by what it says of worker `k`
abbrev pub step : ℕ → Command → Slot → Slot
step k Command.pause (g, o) = (g, none)
step k (Command.root pid h) (g, o) = (h, none)
step k (Command.task_started h w t) (g, o) = (g, if h == g && k == w then some t else o)
step k (Command.task_finished h w) (g, o) = (g, if h == g && k == w then none else o)
step k _ s = s

abbrev pub steps : ℕ → List Command → Slot → Slot
steps k [] s = s
steps k (c ∷ cs) s = steps k cs (step k c s)

pub steps-append :
    (k : ℕ) (cs ds : List Command) (s : Slot) → steps k (cs ++ ds) s ≡ steps k ds (steps k cs s)
steps-append k [] ds s = refl
steps-append k (c ∷ cs) ds s = steps-append k cs ds (step k c s)

abbrev pub slot : ℕ → Monitor → Slot
slot k m = (m.generation, lookup k m.tasks)

-- The monitor goes on after the command.
abbrev pub GoesOn : Command → Type 0
GoesOn Command.stop = ⊥
GoesOn _ = Unit

handle-slot : (k : ℕ) (c : Command) (m : Monitor) → slot k (handle c m).0 ≡ step k c (slot k m)
unfolding handle report
handle-slot k Command.stop m = refl
handle-slot k Command.pause m = refl
handle-slot k (Command.root p g) m = refl
handle-slot k (Command.guards g gs) m = ground arith
handle-slot k (Command.task_started g w t) m = ground (arith, lookup-insert k w t m.tasks)
handle-slot k (Command.task_finished g w) m = ground (arith, lookup-erase k w m.tasks)
handle-slot k (Command.fatal g r) m = ground arith

drain-slot :
    (k : ℕ) (cs : List Command) (m : Monitor)
    → All GoesOn cs
    → (slot k (drain cs m).0 ≡ steps k cs (slot k m)) × ((drain cs m).2 ≡ true)
unfolding drain
drain-slot k [] m a = (refl, refl)
drain-slot k (Command.stop ∷ cs) m a = absurd a.0
drain-slot k (c ∷ cs) m a =
    let (e, r) = drain-slot k cs (handle c m).0 a.1 in (e ∙ ap (steps k cs) (handle-slot k c m), r)

-- The commands of a history
abbrev pub commands_of : List (List Command × World) → List Command
commands_of [] = []
commands_of ((cs, w) ∷ rounds) = cs ++ commands_of rounds

-- The owning process lives in each round, and does not stop the monitor.
abbrev pub RunsOn : List (List Command × World) → Type 0
RunsOn rounds = All (λ r. (r.1.parent_alive ≡ true) × All GoesOn r.0) rounds

SameTasks-slot : (k : ℕ) (m m' : Monitor) → SameTasks m m' → slot k m' ≡ slot k m
SameTasks-slot k m m' same =
    ap (λ g. (g, lookup k m'.tasks)) same.generation
    ∙ ap (λ ts. (m.generation, lookup k ts)) same.tasks

pass-slot :
    (l : Limits) (k : ℕ) (cs : List Command) (w : World) (m : Monitor)
    → w.parent_alive ≡ true
    → All GoesOn cs
    → (slot k (pass l cs w m).0 ≡ steps k cs (slot k m)) × ((pass l cs w m).2 ≡ true)
unfolding pass
pass-slot l k cs w m p a =
    let (e, r) = drain-slot k cs m a in
    by_running (drain cs m).2 w.parent_alive r p (
      SameTasks-slot k (drain cs m).0 (observe l w (drain cs m).0).0
        (observe-SameTasks l w (drain cs m).0)
      ∙ e)
  where
    outcome : Bool → Bool → Monitor × List Effect × Bool
    outcome running alive =
        let (m', done, _) = drain cs m in
        let (m'', seen) = observe l w m' in
        if running
        then if alive then (m'', done ++ seen, true) else (m', done, false)
        else (m', done, false)

    by_running :
        (running alive : Bool)
        → running ≡ true
        → alive ≡ true
        → slot k (observe l w (drain cs m).0).0 ≡ steps k cs (slot k m)
        → (slot k (outcome running alive).0 ≡ steps k cs (slot k m))
          × ((outcome running alive).2 ≡ true)
    by_running true true r p e = (e, refl)
    by_running true false r p e = absurd (cc p)
    by_running false alive r p e = absurd (cc r)

pub monitor_main-slot :
    (l : Limits) (k : ℕ) (rounds : List (List Command × World)) (m : Monitor)
    → RunsOn rounds
    → slot k (monitor_main l rounds m).0 ≡ steps k (commands_of rounds) (slot k m)
unfolding monitor_main
monitor_main-slot l k [] m a = refl
monitor_main-slot l k ((cs, w) ∷ rounds) m a =
    let (e, r) = pass-slot l k cs w m a.0.0 a.0.1 in
    rw (r, monitor_main)
      (monitor_main-slot l k rounds (pass l cs w m).0 a.1
        ∙ ap (steps k (commands_of rounds)) e
        ∙ sym (steps-append k cs (commands_of rounds) (slot k m)))
