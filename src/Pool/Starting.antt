-- ===== src/Pool/Starting.antt =====
-- pyleaner/pool.py, lines 27 to 97, with the constructor of `Worker`, `initialize_environment` and
-- `LspClient.initialize_worker_pool`: the making of a pool. In which order the threads end, and which
-- documents open, is given.
pub mod Ready
use py_leaner.Base.{
  ℕ, suc, Bool, true, false, not, Option, none, some, List, [], ◌∷◌, ◌++◌, map, ltb, leb, ◌==◌,
  if◌then◌else◌, keep, length,
}
use py_leaner.Base.Text.{Text, codes, decimal}
use py_leaner.Task.{Error, runtime_error}
use py_leaner.Pool.{Worker, Pool}
use py_leaner.Client.Messages.{Inbox, register_init_uri}

-- `f"{init_uri}worker_{i}.lean"`
abbrev pub worker_uri : Text → ℕ → Text
worker_uri init_uri i = init_uri ++ (codes "worker_" ++ (decimal i ++ codes ".lean"))

-- `Worker(...)` in `create_worker`
unfoldable pub new_worker : Text → ℕ → Worker
new_worker init_uri i = record {
  worker_id = i;
  uri = worker_uri init_uri i;
  ready = false;
  task_queue = [];
  current_task = none;
  notification_queue = [];
  document_version = 0;
  session_id = none;
  connected = false;
}

-- `self.workers.sort(key=lambda w: w.worker_id)`, by insertion
unfoldable pub place_worker : Worker → List Worker → List Worker
place_worker w [] = w ∷ []
place_worker w (v ∷ vs) = if leb w.worker_id v.worker_id then w ∷ v ∷ vs else v ∷ place_worker w vs

unfoldable pub create_workers : Text → List ℕ → List Worker
create_workers init_uri [] = []
create_workers init_uri (i ∷ ids) =
    place_worker (new_worker init_uri i) (create_workers init_uri ids)

-- `WorkerPool.__init__`, with the ids in the reverse of the order in which the workers are made
unfoldable pub new_pool : Text → List ℕ → Pool
new_pool init_uri ids = record {
  workers = create_workers init_uri ids;
  selection_cursor = 0;
  overall_task_queue = [];
  replies = [];
  log = [];
}

-- What `_didopen` does: it returns `True` or `False`, or its notification cannot be written and it
-- raises.
pub data Opening : Type 0 where
  opened not_opened : Opening
  raised : Error → Opening

abbrev is_opened : Opening → Bool
is_opened opened = true
is_opened _ = false

-- `Worker.initialize_environment`; a worker that has not been initialized is not ready either.
unfoldable pub initialize_environment : (ℕ → Opening) → Worker → Worker
initialize_environment opens w = record w { ready = is_opened (opens w.worker_id) }

abbrev pub error_in : Opening → Option Error → Option Error
error_in (raised e) o = some e
error_in _ o = o

-- `future.result()` on each worker; which of several exceptions comes first depends on the threads,
-- here it is that of the first worker.
unfoldable pub raised_in : (ℕ → Opening) → List Worker → Option Error
raised_in opens [] = none
raised_in opens (w ∷ ws) = error_in (opens w.worker_id) (raised_in opens ws)

abbrev pub all_failed : ℕ → Error
all_failed n =
    runtime_error
      (codes "All " ++ (decimal n ++ codes " workers failed to initialize their Lean environment."))

abbrev pub first_error : Option Error → Option Error → Option Error
first_error none o = o
first_error (some e) o = some e

-- `initialize_all_workers`: the pool, and what is raised
unfoldable pub initialize_all_workers : (ℕ → Opening) → Pool → Pool × Option Error
initialize_all_workers opens p =
    let ws = map (initialize_environment opens) p.workers in
    (
      record p { workers = ws },
      first_error (raised_in opens p.workers) (
          if length (keep (λ w. not w.ready) ws) == length ws
          then some (all_failed (length ws))
          else none),
    )

unfoldable pub register_all : Text → List ℕ → Inbox → Inbox
register_all init_uri [] i = i
register_all init_uri (n ∷ ids) i =
    register_all init_uri ids (register_init_uri (worker_uri init_uri n) i)

-- What `initialize_worker_pool` leaves: the pool and the inbox, whether the router runs, and what is
-- raised
pub record Startup : Type 0 where
  pub pool : Pool
  pub inbox : Inbox
  pub routing : Bool
  pub error : Option Error

unfoldable pub start_router : Inbox → Pool × Option Error → Startup
start_router i (p, some e) = record { pool = p; inbox = i; routing = false; error = some e }
start_router i (p, none) = record { pool = p; inbox = i; routing = true; error = none }

-- `LspClient.initialize_worker_pool`, with `range(1, size + 1)` and the order in which the workers are
-- made
unfoldable pub initialize_worker_pool : Text → List ℕ → List ℕ → (ℕ → Opening) → Inbox → Startup
initialize_worker_pool init_uri ids made opens i =
    let (p, e) = initialize_all_workers opens (new_pool init_uri made) in
    start_router (record (register_all init_uri ids i) { workers = some p.workers }) (p, e)
