-- ===== src/Watchdog/Shutdown.antt =====
-- pyleaner/watchdog.py, lines 664 to 709: `Watchdog.stop`, by what it sends and which scopes it
-- stops. What it makes of the monitor and the receiver is in Watchdog/Lifecycle.
pub mod Replacements
pub mod Scopes
use py_leaner.Base.{List, [], ◌∷◌, ◌++◌}
use py_leaner.Watchdog.Types.{Command, Event, trigger, guard_replaced}
use py_leaner.Watchdog.Recovery.{Owner, accept_replacement_guard, stop_worker_scopes}

-- The events that are still queued: the replacement guards are adopted, the triggers dropped.
unfoldable pub adopt_replacements : List Event → Owner → Owner
adopt_replacements [] o = o
adopt_replacements (guard_replaced generation worker old_pid new ∷ events) o =
    adopt_replacements events (accept_replacement_guard generation worker old_pid new o)
adopt_replacements (trigger generation t reason workers ∷ events) o = adopt_replacements events o

-- `stop`
unfoldable pub stop_watchdog : List Event → Owner → Owner
stop_watchdog events o =
    stop_worker_scopes (adopt_replacements events (record o { sent = o.sent ++ Command.stop ∷ [] }))
