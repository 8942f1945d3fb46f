-- ===== src/Watchdog/Receiver.antt =====
-- pyleaner/watchdog.py, lines 773 to 813: `_receive_events`, the thread that acts on the monitor's
-- events. What comes out of the event queue is given, turn by turn, with the history of the recovery
-- that a turn may start; a history ends with the attempt after which the recovery returns.
pub mod Stale
use py_leaner.Base.{ℕ, ◌==◌, Bool, true, false, List, [], ◌∷◌}
use py_leaner.Base.Text.{Text}
use py_leaner.Watchdog.Types.{Event, watchdog_death}
use py_leaner.Watchdog.Recovery.{Owner, Rebuild, recover_with_retry, receive}

-- One turn: `_stop` is set, or the queue raises, or the monitor's `stop` comes; nothing comes in time
-- while the monitor is alive, or has died, with the reason that is given for it; an event of another
-- type, or one that is acted on.
pub data Turn : Type 0 where
  ends : Turn
  quiet : Turn
  monitor_died : Text → List (Bool × Rebuild) → Turn
  unknown : Turn
  received : Event → List (Bool × Rebuild) → Turn

-- `_receive_events`: the owner, and whether the thread still runs
unfoldable pub receive_events : List Turn → Owner → Owner × Bool
receive_events [] o = (o, true)
receive_events (ends ∷ turns) o = (o, false)
receive_events (quiet ∷ turns) o = receive_events turns o
receive_events (monitor_died reason history ∷ turns) o =
    receive_events turns (recover_with_retry watchdog_death reason [] history o).0
receive_events (unknown ∷ turns) o = receive_events turns o
receive_events (received event history ∷ turns) o = receive_events turns (receive history event o)
