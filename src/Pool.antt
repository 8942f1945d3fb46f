-- ===== src/Pool.antt =====
-- pyleaner/pool.py: the worker pool's queues and its router.
pub mod Select
pub mod Route
pub mod Balance
pub mod Api
pub mod Starting
use py_leaner.Base.{
  ℕ, ◌+◌, ◌-◌, ◌%◌, Bool, true, false, ◌&&◌, ◌||◌, Option, none, some, List, [], ◌∷◌, ◌++◌, ltb,
  ◌==◌, if◌then◌else◌, length, keep, is_some,
}
use py_leaner.Base.Text.{Text, codes, text_eq}
use py_leaner.Task.{Task, Message, Error, runtime_error, Response, failed, LogEntry}

-- The fields of a `Worker` that the pool, the watchdog and the worker itself read and write.
-- `task_queue` holds the tasks that the worker has not taken yet, and `current_task` the one in hand.
-- `session_id` and `connected` are those of its RPC session.
pub record Worker : Type 0 where
  pub worker_id : ℕ
  pub uri : Text
  pub ready : Bool
  pub task_queue : List Task
  pub current_task : Option Task
  pub notification_queue : List Message
  pub document_version : ℕ
  pub session_id : Option ℕ
  pub connected : Bool

pub record Pool : Type 0 where
  pub workers : List Worker
  pub selection_cursor : ℕ
  pub overall_task_queue : List Task
  pub replies : List (ℕ × Response)
  pub log : List LogEntry

-- `worker.task_queue.qsize() + busy`
unfoldable pub load : Worker → ℕ
load w = length w.task_queue + (elim w.current_task [ none ↦ 0 | some _ ↦ 1 ])

-- `(worker.worker_id - 1 - cursor) % n`, which Python takes in the range from 0 to `n - 1`
unfoldable pub distance : ℕ → ℕ → Worker → ℕ
distance n cursor w = (w.worker_id - 1 + (n - cursor % n)) % n

-- The order of the pairs `(load, distance)`.
unfoldable pub before : ℕ → ℕ → Worker → Worker → Bool
before n cursor v w =
    ltb (load v) (load w) || load v == load w && ltb (distance n cursor v) (distance n cursor w)

-- `min(ready, key=load)`, whose first argument is the best so far
unfoldable pub least : ℕ → ℕ → Worker → List Worker → Worker
least n cursor best [] = best
least n cursor best (w ∷ ws) = least n cursor (if before n cursor w best then w else best) ws

-- `worker.task_queue.put(task)`, on the worker with that id: a pool's ids are distinct.
unfoldable pub put_task : ℕ → Task → List Worker → List Worker
put_task id task [] = []
put_task id task (w ∷ ws) =
    if w.worker_id == id
    then record w { task_queue = w.task_queue ++ task ∷ [] } ∷ ws
    else w ∷ put_task id task ws

-- A response goes to the task's result queue, if it has one.
unfoldable pub reply : Task → Response → List (ℕ × Response) → List (ℕ × Response)
reply task r rs = elim task.result_q [ none ↦ rs | some q ↦ rs ++ (q, r) ∷ [] ]

unfoldable pub rejected : Task → LogEntry
rejected task = record {
  kind = codes "task_rejected";
  request_id = task.request_id;
  task_id = task.task_id;
  worker_id = none;
  outcome = some (codes "infrastructure_error");
}

unfoldable pub assigned : Task → Worker → LogEntry
assigned task w = record {
  kind = codes "task_assigned";
  request_id = task.request_id;
  task_id = task.task_id;
  worker_id = some w.worker_id;
  outcome = none;
}

abbrev pub ready_workers : Pool → List Worker
ready_workers p = keep (λ w. w.ready) p.workers

unfoldable pub no_workers : Response
no_workers = failed (runtime_error (codes "No healthy workers available")) false none

-- One round of `router`, with the task that it took.
unfoldable pub route : Task → Pool → Pool
route task p = elim (ready_workers p) [
  | [] ↦ record p { replies = reply task no_workers p.replies; log = p.log ++ rejected task ∷ [] }
  | w ∷ ws ↦
      let n = length p.workers in
      let chosen = least n p.selection_cursor w ws in
      record p {
        selection_cursor = chosen.worker_id % n;
        log = p.log ++ assigned task chosen ∷ [];
        workers = put_task chosen.worker_id task p.workers;
      }
]

-- `get_worker_for_uri`: the first worker with the URI; `none` where it raises.
unfoldable pub get_worker_for_uri : Text → List Worker → Option Worker
get_worker_for_uri uri [] = none
get_worker_for_uri uri (w ∷ ws) = if text_eq uri w.uri then some w else get_worker_for_uri uri ws

-- `setdefault` on a key that may be missing
abbrev pub default_to {ℓ} : {A : Type ℓ} → A → Option A → Option A
default_to a none = some a
default_to a (some b) = some b

unfoldable pub submitted : Task → LogEntry
submitted task = record {
  kind = codes "task_submitted";
  request_id = task.request_id;
  task_id = task.task_id;
  worker_id = none;
  outcome = none;
}

-- `submit_task`, with the two identifiers that `new_correlation_id` would give
unfoldable pub submit_task : Text → Text → Task → Pool → Pool
submit_task new_request new_task task p =
    let stamped = record task {
      request_id = default_to new_request task.request_id;
      task_id = default_to new_task task.task_id;
      context = default_to [] task.context;
    } in
    record p {
      log = p.log ++ submitted stamped ∷ [];
      overall_task_queue = p.overall_task_queue ++ stamped ∷ [];
    }
