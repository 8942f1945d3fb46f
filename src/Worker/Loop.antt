-- ===== src/Worker/Loop.antt =====
-- pyleaner/worker.py, lines 117 to 248: the worker's main loop and `_on_service_unavailable`. What
-- the handler of a task does is given by how it ends.
pub mod Answers
use py_leaner.Base.{ℕ, Bool, true, false, Option, none, some, List, [], ◌∷◌, ◌++◌, if◌then◌else◌}
use py_leaner.Base.Text.{Text, codes}
use py_leaner.Base.Json.{Json, null, bool, num, obj, get_field}
use py_leaner.Task.{
  Task, Error, service_unavailable, other, Response, succeeded, failed, LogEntry, Message,
}
use py_leaner.Pool.{Worker, reply}
use py_leaner.Watchdog.Types.{Command}
use py_leaner.Watchdog.Recovery.{mark}

-- How a handler ends.
pub data TaskEnd : Type 0 where
  finished : Json → TaskEnd
  interrupted : TaskEnd
  errored : Error → TaskEnd

-- What the worker's thread has done: its state, the responses, the commands to the monitor and the
-- events, and whether the thread goes on.
pub record Run : Type 0 where
  pub worker : Worker
  pub replies : List (ℕ × Response)
  pub sent : List Command
  pub log : List LogEntry
  pub running : Bool

-- `bool(task.get("_culprit", False))`
abbrev pub is_culprit : Task → Bool
is_culprit task = elim task.culprit [ none ↦ false | some b ↦ b ]

unfoldable pub interrupted_response : Task → Response
interrupted_response task = failed service_unavailable (is_culprit task) task.culprit_reason

unfoldable pub innocent_response : Response
innocent_response = failed service_unavailable false none

unfoldable pub drained : List Task → List (ℕ × Response)
drained [] = []
drained (task ∷ tasks) = reply task innocent_response [] ++ drained tasks

abbrev current_reply : Option Task → List (ℕ × Response)
current_reply none = []
current_reply (some task) = reply task (interrupted_response task) []

-- `_on_service_unavailable`: the responses in the order in which they are put
unfoldable pub on_service_unavailable : Worker → Worker × List (ℕ × Response)
on_service_unavailable w =
    (record w { task_queue = [] }, current_reply w.current_task ++ drained w.task_queue)

unfoldable pub task_event : Text → Task → Worker → Option Text → LogEntry
task_event kind task w outcome = record {
  kind = kind;
  request_id = task.request_id;
  task_id = task.task_id;
  worker_id = some w.worker_id;
  outcome = outcome;
}

-- `len(diagnostics)`, where `diagnostics` is that key of a result that is a dict, a result that is a
-- list, or `[]`: what it raises, if anything
unfoldable pub length_error : Json → Option Error
length_error null = some (other (codes "object of type 'NoneType' has no len()"))
length_error (bool b) = some (other (codes "object of type 'bool' has no len()"))
length_error (num n) = some (other (codes "object of type 'int' has no len()"))
length_error _ = none

unfoldable pub uncounted : Json → Option Error
uncounted (obj fs) = elim (get_field (codes "diagnostics") fs) [
  | none ↦ none
  | some diagnostics ↦ length_error diagnostics
]
uncounted _ = none

-- Behind the handler: the response is put, and then the diagnostics are counted for the event. What
-- that raises makes a failed task of it, with a second response.
unfoldable pub settle_result : Option Error → Json → Task → Worker → Run
settle_result none content task w = record {
  worker = w;
  replies = reply task (succeeded content) [];
  sent = [];
  log = task_event (codes "task_succeeded") task w (some (codes "success")) ∷ [];
  running = true;
}
settle_result (some e) content task w = record {
  worker = w;
  replies = reply task (failed e false none) (reply task (succeeded content) []);
  sent = [];
  log = task_event (codes "task_failed") task w (some (codes "error")) ∷ [];
  running = true;
}

-- A task without a result queue fails in `result_q.put`, and nobody is answered.
unfoldable pub settle_unasked : Task → Worker → Run
settle_unasked task w = record {
  worker = w;
  replies = [];
  sent = [];
  log = task_event (codes "task_failed") task w (some (codes "error")) ∷ [];
  running = true;
}

-- The `try` of one task
unfoldable pub settle : TaskEnd → Task → Worker → Run
settle (finished content) task w = elim task.result_q [
  | none ↦ settle_unasked task w
  | some q ↦ settle_result (uncounted content) content task w
]
settle interrupted task w = record {
  worker = (on_service_unavailable w).0;
  replies = (on_service_unavailable w).1;
  sent = [];
  log = task_event (codes "task_interrupted") task w (some (codes "infrastructure_error")) ∷ [];
  running = false;
}
settle (errored e) task w = record {
  worker = w;
  replies = reply task (failed e false none) [];
  sent = [];
  log = task_event (codes "task_failed") task w (some (codes "error")) ∷ [];
  running = true;
}

-- What other threads do to a worker while its handler runs, or while it waits: the router puts a
-- task, the watchdog marks the task in hand, a notification arrives.
pub data Arrival : Type 0 where
  routed : Task → Arrival
  blamed : Text → Arrival
  notified : Message → Arrival

unfoldable pub disturb : List Arrival → Worker → Worker
disturb [] w = w
disturb (routed t ∷ as') w = disturb as' (record w { task_queue = w.task_queue ++ t ∷ [] })
disturb (blamed reason ∷ as') w = disturb as' (record w {
  current_task = elim w.current_task [ none ↦ none | some t ↦ some (mark reason t) ];
})
disturb (notified m ∷ as') w =
    disturb as' (record w { notification_queue = w.notification_queue ++ m ∷ [] })

-- One round of the loop: the watchdog's generation and the clock when it takes a task, what happens
-- meanwhile, and how the handler ends.
pub record Round : Type 0 where
  pub generation : ℕ
  pub now : ℕ
  pub meanwhile : List Arrival
  pub end : TaskEnd

abbrev in_hand : Task → Worker → Task
in_hand task w = elim w.current_task [ none ↦ task | some t ↦ t ]

-- The round of a task that was taken from the queue.
unfoldable pub serve : Round → Task → Worker → Run
serve round task w =
    let busy = disturb round.meanwhile (record w { current_task = some task }) in
    let r = settle round.end (in_hand task busy) busy in
    record r {
      worker = record r.worker { current_task = none };
      sent =
          Command.task_started round.generation w.worker_id round.now
          ∷ Command.task_finished round.generation w.worker_id
          ∷ [];
      log = task_event (codes "task_started") task w none ∷ r.log;
    }

abbrev pub idle : Worker → Run
idle w = record { worker = w; replies = []; sent = []; log = []; running = true }

-- `task_queue.get()` waits while the queue is empty.
unfoldable pub begin_round : List Task → Round → Worker → Run
begin_round [] round w = idle (disturb round.meanwhile w)
begin_round (task ∷ tasks) round w = serve round task (record w { task_queue = tasks })

abbrev pub round_of : Round → Worker → Run
round_of round w = begin_round w.task_queue round w

-- `_run` over a history of rounds; an interrupted task ends it.
unfoldable pub run_worker : List Round → Worker → Run
run_worker [] w = idle w
run_worker (round ∷ rounds) w =
    let first = round_of round w in
    let rest = run_worker rounds first.worker in
    if first.running
    then record {
      worker = rest.worker;
      replies = first.replies ++ rest.replies;
      sent = first.sent ++ rest.sent;
      log = first.log ++ rest.log;
      running = rest.running;
    }
    else first
