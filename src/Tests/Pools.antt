-- ===== src/Tests/Pools.antt =====
-- The router of pyleaner/pool.py on a pool of three workers, and the dispatch of its requests.
use py_leaner.Base.{
  ℕ, ◌≡◌, refl, ◌⊎◌, Bool, true, false, none, some, List, [], ◌∷◌, arith, map, ◌==◌, ◌&&◌,
  if◌then◌else◌,
}
use py_leaner.Base.Text.{codes}
use py_leaner.Task.{Task}
use py_leaner.Pool.{
  Worker, Pool, load, distance, before, least, put_task, reply, no_workers, route, ready_workers,
}
use py_leaner.Client.Messages.{Inbox}
use py_leaner.Pool.Starting.{
  Opening, opened, not_opened, raised_in, initialize_worker_pool, initialize_all_workers,
  initialize_environment, new_pool, create_workers, place_worker, new_worker, start_router,
  register_all,
}
use py_leaner.Pool.Starting.Ready.{Starts, initialize_worker_pool-Starts}
use py_leaner.Pool.Route.{Sends, route_least_busy}
use py_leaner.Pool.Balance.{IsBalanced, route_all, route_all-IsBalanced}
use py_leaner.Pool.Api.{search_declarations, request_of}
use py_leaner.Worker.Dispatch.{IsHandled, request_of-IsHandled}

abbrev task_on : ℕ → Task
task_on q = record {
  task_type = codes "ping";
  result_q = some q;
  kwargs = [];
  request_id = none;
  task_id = none;
  context = none;
  culprit = none;
  culprit_reason = none;
}

abbrev worker_at : ℕ → Bool → List Task → Worker
worker_at id ready queue = record {
  worker_id = id;
  uri = [];
  ready = ready;
  task_queue = queue;
  current_task = none;
  notification_queue = [];
  document_version = 0;
  session_id = none;
  connected = false;
}

abbrev pool_of : List Worker → Pool
pool_of ws = record {
  workers = ws;
  selection_cursor = 0;
  overall_task_queue = [];
  replies = [];
  log = [];
}

-- Worker 1 has a task already, worker 2 is not ready, worker 3 is free.
abbrev three : Pool
three =
    pool_of (worker_at 1 true (task_on 7 ∷ []) ∷ worker_at 2 false [] ∷ worker_at 3 true [] ∷ [])

-- Two tasks go to worker 3 and then, at equal loads past the cursor, to worker 1.
route_run : map load (route_all (task_on 8 ∷ task_on 9 ∷ []) three).workers ≡ 2 ∷ 0 ∷ 1 ∷ []
unfolding route_all route least before load distance put_task
route_run = refl

route_least_busy_example :
    ((ready_workers three ≡ [])
      × ((route (task_on 8) three).workers ≡ three.workers)
      × ((route (task_on 8) three).replies ≡ reply (task_on 8) no_workers three.replies))
    ⊎ Sends (task_on 8) three (route (task_on 8) three)
route_least_busy_example = route_least_busy (task_on 8) three

route_all-IsBalanced_example :
    (q : ℕ) × IsBalanced q (route_all (task_on 8 ∷ task_on 9 ∷ []) three).workers
unfolding load
route_all-IsBalanced_example =
    route_all-IsBalanced (task_on 8 ∷ task_on 9 ∷ []) 0 three (omega arith) (omega arith)

request_of-IsHandled_example :
    IsHandled (request_of (search_declarations (codes "import Lean") (codes "add") 8 false none))
request_of-IsHandled_example =
    request_of-IsHandled (search_declarations (codes "import Lean") (codes "add") 8 false none)

-- Of two workers the second opens its document; of none nobody can take a task.
abbrev empty_inbox : Inbox
empty_inbox = record { pending = []; workers = none; buffers = [] }

abbrev opens : Bool → ℕ → Opening
opens second i = if i == 2 && second then opened else not_opened

startup_run :
    ((initialize_worker_pool
        (codes "file:///w/")
        (1 ∷ 2 ∷ [])
        (2 ∷ 1 ∷ [])
        (opens true)
        empty_inbox).error
      ≡ none)
    × ((initialize_worker_pool
          (codes "file:///w/")
          (1 ∷ 2 ∷ [])
          (2 ∷ 1 ∷ [])
          (opens false)
          empty_inbox).routing
        ≡ false)
unfolding initialize_worker_pool initialize_all_workers initialize_environment new_pool
    create_workers place_worker new_worker start_router register_all raised_in
startup_run = (refl, refl)

initialize_worker_pool-Starts_example :
    Starts (opens true) (
      initialize_worker_pool
        (codes "file:///w/")
        (1 ∷ 2 ∷ [])
        (2 ∷ 1 ∷ [])
        (opens true)
        empty_inbox)
initialize_worker_pool-Starts_example =
    initialize_worker_pool-Starts (codes "file:///w/") (1 ∷ 2 ∷ []) (2 ∷ 1 ∷ []) (opens true)
      empty_inbox
