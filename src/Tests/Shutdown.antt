-- ===== src/Tests/Shutdown.antt =====
-- The stop of pyleaner/watchdog.py with a replacement guard still queued.
use py_leaner.Base.{ℕ, ◌≡◌, refl, true, false, none, inl, inr, List, [], ◌∷◌}
use py_leaner.Base.Text.{codes}
use py_leaner.Watchdog.Types.{Guard, Event, guard_replaced}
use py_leaner.Watchdog.Recovery.{Owner, accept_replacement_guard, stop_worker_scopes, units_of}
use py_leaner.Watchdog.Shutdown.{adopt_replacements, stop_watchdog}
use py_leaner.Watchdog.Shutdown.Scopes.{IsReleased, stop_watchdog-IsReleased}

abbrev guard : ℕ → Guard
guard pid = record { pid = pid; unit = codes "scope-1"; cgroup_path = []; oom_kill = 0 }

abbrev second : Guard
second = record (guard 20) { unit = codes "scope-2" }

abbrev owner : Owner
owner = record {
  generation = 3;
  server_ready = true;
  restart_lock = false;
  armed = true;
  worker_scopes = (1, guard 10) ∷ [];
  workers = none;
  keep_alive_running = true;
  pending = [];
  woken = [];
  sent = [];
  stopped = [];
  log = [];
}

abbrev queued : List Event
queued = guard_replaced 3 1 10 second ∷ []

stop_run : (stop_watchdog queued owner).stopped ≡ codes "scope-2" ∷ []
unfolding stop_watchdog adopt_replacements accept_replacement_guard stop_worker_scopes units_of
stop_run = refl

stop_watchdog-IsReleased_example :
    IsReleased second queued (stop_watchdog queued owner)
    × ((stop_watchdog queued owner).worker_scopes ≡ [])
stop_watchdog-IsReleased_example = stop_watchdog-IsReleased second queued owner (inr (inl refl))
