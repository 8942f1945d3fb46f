-- ===== src/Client/Connection.antt =====
-- pyleaner/client.py, lines 543 to 583 and 630 to 645: `initialize`, `connect` and `exit`, which put
-- together the server process, the messages and the watchdog.
pub mod Connected
pub mod Joined
use py_leaner.Base.{
  ℕ, Bool, true, false, Option, none, some, ◌⊎◌, inl, inr, List, [], ◌∷◌, ◌++◌, if◌then◌else◌,
  is_some,
}
use py_leaner.Base.Text.{Text, codes}
use py_leaner.Base.Json.{Json, null, bool, num, str, obj, end, field}
use py_leaner.Task.{Error, other}
use py_leaner.Client.Processes
use py_leaner.Client.Processes.{Server, Exit}
use py_leaner.Rpc.Session.{Link, Answer, notified, request}
use py_leaner.Watchdog.Types.{Event}
use py_leaner.Watchdog.Recovery.{Owner}
use py_leaner.Watchdog.Lifecycle
use py_leaner.Watchdog.Lifecycle.{Lifecycle, Leaving}

-- The client: its server, its messages, and its watchdog
pub record Connection : Type 0 where
  pub server : Server
  pub link : Link
  pub life : Lifecycle
  pub owner : Owner

-- `f"file://{self.cwd or '.'}"`
abbrev root_uri : Text → Text
root_uri [] = codes "file://."
root_uri (c ∷ cwd) = codes "file://" ++ c ∷ cwd

abbrev pub initialize_params : Text → Json
initialize_params cwd = obj (
    field (codes "processId") null (
      field (codes "rootUri") (str (root_uri cwd)) (
        field (codes "capabilities") (obj end) (
          field (codes "initializationOptions")
            (obj (field (codes "editDelay") (num 200) (field (codes "hasWidgets") (bool true) end)))
            end))))

-- `initialize`
unfoldable pub initialize : Text → Answer Json → Link → Link × (Error ⊎ Json)
initialize cwd answer l = request (codes "initialize") (initialize_params cwd) 0 answer l

-- `notify`, with what `_send_message` raises, if anything
unfoldable pub notify : Option Error → Text → Json → Link → Link × Option Error
notify (some e) method params l = (l, some e)
notify none method params l = (record l { sent = l.sent ++ notified method params ∷ [] }, none)

-- What `connect` meets: what `Popen` raises, if anything, or the id of the new process; what becomes
-- of `initialize`; what the notification raises; whether the server lives when the watchdog starts;
-- and what the start of a monitor raises.
pub record Connecting : Type 0 where
  pub popen_error : Option Error
  pub pid : ℕ
  pub answer : Answer Json
  pub notify_error : Option Error
  pub alive : Bool
  pub monitor_error : Option Error

-- `self.watchdog.start()`
abbrev pub root_of : Connecting → Option ℕ
root_of c = if c.alive then some c.pid else none

unfoldable pub watch : Connecting → Connection → Connection × Option Error
watch c k =
    let r = Lifecycle.start (is_some c.monitor_error) (root_of c) k.life k.owner in
    (record k { life = r.0; owner = r.1 }, if r.2 then c.monitor_error else none)

abbrev pub after_initialized :
    Connecting → Connection → Link × Option Error → Connection × Option Error
after_initialized c k (l, some e) = (record k { link = l }, some e)
after_initialized c k (l, none) = watch c (record k { link = l })

abbrev pub after_initialize :
    Connecting → Connection → Link × (Error ⊎ Json) → Connection × Option Error
after_initialize c k (l, inl e) = (record k { link = l }, some e)
after_initialize c k (l, inr _) =
    after_initialized c k (notify c.notify_error (codes "initialized") (obj end) l)

abbrev pub after_popen : Text → Connecting → Connection → Option Error → Connection × Option Error
after_popen cwd c k (some e) = (k, some e)
after_popen cwd c k none =
    after_initialize c (record k { server = Processes.start c.pid k.server })
      (initialize cwd c.answer k.link)

-- `connect`, with what it raises
unfoldable pub connect : Text → Connecting → Connection → Connection × Option Error
connect cwd c k = after_popen cwd c k c.popen_error

abbrev pub join_error : Error
join_error = other (codes "can only join a started process")

abbrev pub after_stop : Exit → Connection → Lifecycle × Owner × Bool → Connection × Option Error
after_stop x k (life, owner, true) = (record k { life = life; owner = owner }, some join_error)
after_stop x k (life, owner, false) =
    let (l, e) = notify x.notify_error (codes "exit") (obj end) k.link in
    let (server, raised) = Processes.exit x k.server in
    (record { server = server; link = l; life = life; owner = owner }, raised)

-- `exit`, with what it raises; the events are those that are queued when the watchdog has stopped.
unfoldable pub exit : Leaving → List Event → Exit → Connection → Connection × Option Error
exit l events x k = after_stop x k (Lifecycle.stop l events k.life k.owner)

-- What happens to a client: it connects, it exits, or a monitor or receiver ends.
pub data Act : Type 0 where
  connects : Text → Connecting → Act
  exits : Leaving → List Event → Exit → Act
  monitor_ends : ℕ → Act
  receiver_ends : ℕ → Act

abbrev pub end_monitor : ℕ → Connection → Connection
end_monitor n k = record k {
  life = record k.life { monitors = Lifecycle.without (some n) k.life.monitors };
}

abbrev pub end_receiver : ℕ → Connection → Connection
end_receiver n k = record k {
  life = record k.life { receivers = Lifecycle.without (some n) k.life.receivers };
}

unfoldable pub run_acts : List Act → Connection → Connection
run_acts [] k = k
run_acts (connects cwd c ∷ acts) k = run_acts acts (connect cwd c k).0
run_acts (exits l events x ∷ acts) k = run_acts acts (exit l events x k).0
run_acts (monitor_ends n ∷ acts) k = run_acts acts (end_monitor n k)
run_acts (receiver_ends n ∷ acts) k = run_acts acts (end_receiver n k)
