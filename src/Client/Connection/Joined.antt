-- ===== src/Client/Connection/Joined.antt =====
-- pyleaner/client.py: a client's watchdog through its connections and exits.
use py_leaner.Base.{
  Bool, true, false, ◌≡◌, refl, sym, subst, Option, none, some, ◌⊎◌, inl, inr, List, [], ◌∷◌, All,
  is_some,
}
use py_leaner.Base.Text.{Text, codes}
use py_leaner.Base.Json.{Json, obj, end}
use py_leaner.Task.{Error}
use py_leaner.Client.Processes
use py_leaner.Client.Processes.{Server, Exit, add_pid}
use py_leaner.Rpc.Session.{Link}
use py_leaner.Watchdog.Types.{Event}
use py_leaner.Watchdog.Recovery.{Owner}
use py_leaner.Watchdog.Lifecycle
use py_leaner.Watchdog.Lifecycle.{Lifecycle, Leaving}
use py_leaner.Watchdog.Lifecycle.Single.{IsSingle, start-IsSingle}
use py_leaner.Watchdog.Lifecycle.Stopped.{
  stop-IsSingle, monitor_ended-IsSingle, receiver_ended-IsSingle, initial-IsSingle,
}
use py_leaner.Client.Connection.{
  Connection, initialize, notify, Connecting, root_of, watch, after_initialized, after_initialize,
  connect, after_popen, after_stop, exit, Act, connects, exits, monitor_ends, receiver_ends,
  run_acts,
}
use py_leaner.Client.Connection.Connected.{IsConnected, after_popen-IsConnected}

-- Nothing outlives its stop.
abbrev pub IsJoined : Act → Type 0
IsJoined (exits l events x) = (l.monitor_survives ≡ false) × (l.receiver_survives ≡ false)
IsJoined _ = Unit

watch-IsSingle : (c : Connecting) (k : Connection) → IsSingle k.life → IsSingle (watch c k).0.life
unfolding watch
watch-IsSingle c k w = start-IsSingle (is_some c.monitor_error) (root_of c) k.life k.owner w

after_initialized-IsSingle :
    (c : Connecting) (k : Connection) (r : Link × Option Error)
    → IsSingle k.life
    → IsSingle (after_initialized c k r).0.life
after_initialized-IsSingle c k (l, some e) w = w
after_initialized-IsSingle c k (l, none) w = watch-IsSingle c (record k { link = l }) w

after_initialize-IsSingle :
    (c : Connecting) (k : Connection) (r : Link × (Error ⊎ Json))
    → IsSingle k.life
    → IsSingle (after_initialize c k r).0.life
after_initialize-IsSingle c k (l, inl e) w = w
after_initialize-IsSingle c k (l, inr v) w =
    after_initialized-IsSingle c k (notify c.notify_error (codes "initialized") (obj end) l) w

connect-IsSingle :
    (cwd : Text) (c : Connecting) (k : Connection)
    → IsSingle k.life
    → IsSingle (connect cwd c k).0.life
unfolding connect
connect-IsSingle cwd c k w = by_popen c.popen_error
  where
    by_popen : (e : Option Error) → IsSingle (after_popen cwd c k e).0.life
    by_popen (some e) = w
    by_popen none =
        after_initialize-IsSingle c (record k { server = Processes.start c.pid k.server })
          (initialize cwd c.answer k.link) w

after_stop_life :
    (x : Exit) (k : Connection) (r : Lifecycle × Owner × Bool) → (after_stop x k r).0.life ≡ r.0
after_stop_life x k (life, owner, true) = refl
after_stop_life x k (life, owner, false) = refl

exit-IsSingle :
    (l : Leaving) (events : List Event) (x : Exit) (k : Connection)
    → IsSingle k.life
    → l.monitor_survives ≡ false
    → l.receiver_survives ≡ false
    → IsSingle (exit l events x k).0.life
unfolding exit
exit-IsSingle l events x k w m r =
    subst IsSingle (sym (after_stop_life x k (Lifecycle.stop l events k.life k.owner)))
      (stop-IsSingle l events k.life k.owner w m r)

run_acts-IsSingle :
    (acts : List Act) (k : Connection)
    → All IsJoined acts
    → IsSingle k.life
    → IsSingle (run_acts acts k).life
unfolding run_acts
run_acts-IsSingle [] k j w = w
run_acts-IsSingle (connects cwd c ∷ acts) k j w =
    run_acts-IsSingle acts _ j.1 (connect-IsSingle cwd c k w)
run_acts-IsSingle (exits l events x ∷ acts) k j w =
    run_acts-IsSingle acts _ j.1 (exit-IsSingle l events x k w (j.0).0 (j.0).1)
run_acts-IsSingle (monitor_ends n ∷ acts) k j w =
    run_acts-IsSingle acts _ j.1 (monitor_ended-IsSingle n k.life w)
run_acts-IsSingle (receiver_ends n ∷ acts) k j w =
    run_acts-IsSingle acts _ j.1 (receiver_ended-IsSingle n k.life w)

-- Whatever connections, exits and ends of monitors and receivers came before, as long as no monitor
-- or receiver outlived an exit, a `connect` that does not raise leaves the new process as the server,
-- and in the registry of those to kill; `initialize` and then `initialized` are sent; exactly one
-- monitor runs, whose queues are those that the watchdog holds, with exactly one receiver, and
-- `_stop` is clear; the monitor is told of the server, if that lives, in a new generation.
pub connect-IsConnected :
    (acts : List Act) (k : Connection) (cwd : Text) (c : Connecting)
    → k.life ≡ Lifecycle.initial
    → All IsJoined acts
    → (connect cwd c (run_acts acts k)).1 ≡ none
    → IsConnected cwd c (run_acts acts k) (connect cwd c (run_acts acts k)).0
unfolding connect
connect-IsConnected acts k cwd c new j =
    after_popen-IsConnected cwd c (run_acts acts k)
      (run_acts-IsSingle acts k j (subst IsSingle (sym new) initial-IsSingle)) c.popen_error
