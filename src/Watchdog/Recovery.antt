-- ===== src/Watchdog/Recovery.antt =====
-- pyleaner/watchdog.py: the class `Watchdog` in the owning process, which acts on the monitor's
-- events: restarts, attribution, and the guards that it owns.
pub mod Retry
pub mod Attribution
use py_leaner.Base.{
  ℕ, suc, zero, ◌+◌, ◌-◌, ◌^◌, min, Bool, true, false, not, ◌&&◌, Option, none, some, List, [], ◌∷◌,
  ◌++◌, map, mem, ◌==◌, if◌then◌else◌,
}
use py_leaner.Base.Dict.{Dict, lookup, insert, values}
use py_leaner.Base.Text.{Text, codes}
use py_leaner.Base.Json.{null}
use py_leaner.Task.{Task, Error, service_unavailable, LogEntry, Message}
use py_leaner.Pool.{Worker}
use py_leaner.Watchdog.Types.{
  Trigger, Guard, Command, Event, trigger, guard_replaced, poison_method,
}

-- The state of the owning process that the watchdog reads and writes. `workers` is the pool, if
-- there is one; `pending` are the response queues in `_pending_requests`; `woken` are those that got
-- `ServiceUnavailable`; `sent` are the commands to the monitor, `stopped` the scopes stopped.
pub record Owner : Type 0 where
  pub generation : ℕ
  pub server_ready : Bool
  pub restart_lock : Bool
  pub armed : Bool
  pub worker_scopes : Dict Guard
  pub workers : Option (List Worker)
  pub keep_alive_running : Bool
  pub pending : List ℕ
  pub woken : List (ℕ × Error)
  pub sent : List Command
  pub stopped : List Text
  pub log : List LogEntry

-- How the rebuilding of the server goes: what `connect` and `create_pool` raise, if anything, the
-- process that `connect` leaves alive, and the pool that `create_pool` makes: whether it is assigned
-- (also where `create_pool` raises afterwards), and its guards, if they are attached.
pub record Rebuild : Type 0 where
  pub connect_error : Option Error
  pub pool_error : Option Error
  pub root_pid : Option ℕ
  pub pool_assigned : Bool
  pub new_workers : List Worker
  pub new_guards : Option (Dict Guard)

abbrev pub pool_workers : Owner → List Worker
pool_workers o = elim o.workers [ none ↦ [] | some ws ↦ ws ]

-- `_inflight_tasks`, as the ids of the workers with a task in hand
unfoldable pub inflight : List Worker → List ℕ
inflight [] = []
inflight (w ∷ ws) = elim w.current_task [ none ↦ inflight ws | some t ↦ w.worker_id ∷ inflight ws ]

-- The triggers whose worker ids are taken as they are.
unfoldable pub is_precise : Trigger → Bool
is_precise Trigger.deadline = true
is_precise Trigger.memory = true
is_precise Trigger.worker_death = true
is_precise Trigger.watchdog_death = true
is_precise _ = false

unfoldable pub culprits_of : Trigger → List ℕ → List Worker → List ℕ
culprits_of t given ws = if is_precise t then given else inflight ws

abbrev pub mark : Text → Task → Task
mark reason task = record task { culprit = some true; culprit_reason = some reason }

abbrev pub poison : Message
poison = record { method = poison_method; params = null }

-- A worker with a task in hand is poisoned, and its task is marked if the worker is a culprit.
unfoldable pub strike : List ℕ → Text → Worker → Worker
strike culprits reason w = elim w.current_task [
  | none ↦ w
  | some task ↦ record w {
    current_task = some (if mem w.worker_id culprits then mark reason task else task);
    notification_queue = w.notification_queue ++ poison ∷ [];
  }
]

-- `rpc_session.invalidate()`
unfoldable pub invalidate : Worker → Worker
invalidate w = record w { session_id = none; connected = false }

abbrev wake : ℕ → ℕ × Error
wake q = (q, service_unavailable)

-- `_teardown_pool_state`
unfoldable pub teardown_pool_state : Owner → Owner
teardown_pool_state o = record o {
  keep_alive_running = elim o.workers [ none ↦ o.keep_alive_running | some ws ↦ false ];
  workers = elim o.workers [ none ↦ none | some ws ↦ some (map invalidate ws) ];
  woken = o.woken ++ map wake o.pending;
  pending = [];
}

unfoldable pub units_of : List Guard → List Text
units_of [] = []
units_of (g ∷ gs) = elim g.unit [ [] ↦ units_of gs | _ ∷ _ ↦ g.unit ∷ units_of gs ]

-- `_stop_worker_scopes`
unfoldable pub stop_worker_scopes : Owner → Owner
stop_worker_scopes o = record o {
  worker_scopes = [];
  stopped = o.stopped ++ units_of (values o.worker_scopes);
}

unfoldable pub recovery_event : Text → Option Text → LogEntry
recovery_event kind outcome = record {
  kind = kind;
  request_id = none;
  task_id = none;
  worker_id = none;
  outcome = outcome;
}

-- `_set_root_process`
unfoldable pub set_root_process : ℕ → Owner → Owner
set_root_process pid o = record o {
  generation = o.generation + 1;
  sent = o.sent ++ Command.root pid (o.generation + 1) ∷ [];
}

-- `watchdog.start()` at the end of `connect`
unfoldable pub start_watching : Option ℕ → Owner → Owner
start_watching none o = o
start_watching (some pid) o = set_root_process pid o

-- `worker_pool` is assigned, and its keep-alive manager runs.
unfoldable pub assign_pool : List Worker → Owner → Owner
assign_pool ws o = record o { workers = some ws; keep_alive_running = true }

-- The end of `attach_worker_guards`, in the generation that `connect` began
unfoldable pub attach : Option (Dict Guard) → Owner → Owner
attach none o = o
attach (some gs) o = record o {
  worker_scopes = gs;
  sent = o.sent ++ Command.guards o.generation gs ∷ [];
}

-- `_restart` up to the rebuilding: everyone is told, the tasks are marked, the workers poisoned, and
-- the old server and its pool torn down.
unfoldable pub take_down : Trigger → Text → List ℕ → Owner → Owner
take_down t reason given o =
    let ws = map (strike (culprits_of t given (pool_workers o)) reason) (pool_workers o) in
    stop_worker_scopes (
      teardown_pool_state (record o {
        log =
            o.log
            ++ recovery_event (codes "recovery_started") (some (codes "infrastructure_error")) ∷ [];
        server_ready = false;
        sent = o.sent ++ Command.pause ∷ [];
        workers = elim o.workers [ none ↦ none | some _ ↦ some ws ];
      }))

unfoldable pub announce : Owner → Owner
announce o = record o {
  server_ready = true;
  log = o.log ++ recovery_event (codes "recovery_completed") (some (codes "success")) ∷ [];
}

-- `client.connect`, `client.create_pool` if armed, and what follows; an error ends it early.
unfoldable pub rebuild : Rebuild → Owner → Owner × Option Error
rebuild r o = elim r.connect_error [
  | some e ↦ (o, some e)
  | none ↦
      let connected = start_watching r.root_pid o in
      if o.armed
      then elim r.pool_error [
        | some e ↦
            (if r.pool_assigned then assign_pool r.new_workers connected else connected, some e)
        | none ↦ (announce (attach r.new_guards (assign_pool r.new_workers connected)), none)
      ]
      else (announce connected, none)
]

-- `_restart`: nothing while another restart holds the lock; the lock is released on every way out.
unfoldable pub restart : Trigger → Text → List ℕ → Rebuild → Owner → Owner × Option Error
restart t reason given r o =
    let (o', failure) = rebuild r (take_down t reason given o) in
    if o.restart_lock then (o, none) else (record o' { restart_lock = false }, failure)

-- `min(30.0, float(2 ** min(attempt - 1, 5)))`, in seconds
unfoldable pub retry_delay : ℕ → ℕ
retry_delay attempt = min 30 (2 ^ min (attempt - 1) 5)

-- `_recover_with_retry` against the history of its attempts: whether `_stop` is set before each, and
-- how the rebuilding goes. The result holds the delays that were waited for, and whether the loop
-- has returned.
unfoldable pub recover_from :
    Trigger → Text → List ℕ → ℕ → List (Bool × Rebuild) → Owner → Owner × List ℕ × Bool
recover_from t reason given attempt [] o = (o, [], false)
recover_from t reason given attempt ((stopping, r) ∷ history) o =
    let (o', failure) = restart t reason given r o in
    let again = recover_from t reason given (attempt + 1) history o' in
    if stopping then (o, [], true) else elim failure [
      | none ↦ (o', [], true)
      | some e ↦ (again.0, retry_delay attempt ∷ again.1, again.2)
    ]

unfoldable pub recover_with_retry :
    Trigger → Text → List ℕ → List (Bool × Rebuild) → Owner → Owner × List ℕ × Bool
recover_with_retry t reason given history o = recover_from t reason given 1 history o

abbrev pub stop_if_any : Text → Owner → Owner
stop_if_any [] o = o
stop_if_any (c ∷ cs) o = record o { stopped = o.stopped ++ (c ∷ cs) ∷ [] }

-- `_accept_replacement_guard`
unfoldable pub accept_replacement_guard : ℕ → ℕ → ℕ → Guard → Owner → Owner
accept_replacement_guard generation worker old_pid new o =
    if generation == o.generation
    then elim (lookup worker o.worker_scopes) [
      | none ↦ stop_if_any new.unit o
      | some current ↦
          if current.pid == old_pid
          then record o { worker_scopes = insert worker new o.worker_scopes }
          else stop_if_any new.unit o
    ]
    else stop_if_any new.unit o

-- `_receive_events` on one event, with the history of the recovery that it may start
unfoldable pub receive : List (Bool × Rebuild) → Event → Owner → Owner
receive history (guard_replaced generation worker old_pid new) o =
    accept_replacement_guard generation worker old_pid new o
receive history (trigger generation t reason workers) o =
    if generation == o.generation then (recover_with_retry t reason workers history o).0 else o
