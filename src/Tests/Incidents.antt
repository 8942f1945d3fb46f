-- ===== src/Tests/Incidents.antt =====
-- A restart, its retries and what the callers learn, at concrete states.
use py_leaner.Base.{ℕ, ◌+◌, refl, true, false, Option, none, some, [], ◌∷◌, ◌++◌, map, inl, inr}
use py_leaner.Base.Text.{codes}
use py_leaner.Base.Json.{num}
use py_leaner.Task.{
  Task, Error, service_unavailable, broken_pipe, toxic_task, other, succeeded, failed,
}
use py_leaner.Pool.{Worker}
use py_leaner.Watchdog.Types.{Trigger}
use py_leaner.Watchdog.Monitor.{Limits}
use py_leaner.Watchdog.Monitor.Inspect.{oom_reason}
use py_leaner.Watchdog.Recovery.{Owner, Rebuild, recover_with_retry}
use py_leaner.Watchdog.Recovery.Retry.{Recovered, recover_with_retry_ends}
use py_leaner.Client.Resilient.{answered, Submission, submit_resilient, raise, is_dead_server_error}
use py_leaner.Client.Resilient.Outcome.{EndedAfter, submit_resilient_ends}
use py_leaner.Incident.Reasons.{oom}
use py_leaner.Incident.Callers.{Answers, memory_callers}

abbrev limits : Limits
limits = record {
  deadline = 120_000;
  deadline_text = codes "120.0";
  poll_interval = 20_000;
  soft_memory_limit = none;
  hard_memory_limit = none;
  replacement_grace = 3_000;
}

abbrev task_on : ℕ → Task
task_on q = record {
  task_type = codes "changecontent";
  result_q = some q;
  kwargs = [];
  request_id = none;
  task_id = none;
  context = none;
  culprit = none;
  culprit_reason = none;
}

abbrev serving : ℕ → Worker
serving id = record {
  worker_id = id;
  uri = [];
  ready = true;
  task_queue = task_on (id + 10) ∷ [];
  current_task = some (task_on id);
  notification_queue = [];
  document_version = 3;
  session_id = some 5;
  connected = true;
}

abbrev owner : Owner
owner = record {
  generation = 1;
  server_ready = true;
  restart_lock = false;
  armed = true;
  worker_scopes = [];
  workers = some (serving 1 ∷ serving 2 ∷ []);
  keep_alive_running = true;
  pending = 4 ∷ [];
  woken = [];
  sent = [];
  stopped = [];
  log = [];
}

abbrev rebuilt : Option Error → Rebuild
rebuilt e = record {
  connect_error = e;
  pool_error = none;
  root_pid = some 30;
  pool_assigned = true;
  new_workers = [];
  new_guards = some [];
}

recover_with_retry_ends_example : Recovered 2 (
    recover_with_retry Trigger.deadline []
      (1 ∷ [])
      (map (λ r. (false, r)) (rebuilt (some (other [])) ∷ rebuilt (some (other [])) ∷ [])
        ++ (false, rebuilt none) ∷ [])
      owner)
recover_with_retry_ends_example =
    recover_with_retry_ends Trigger.deadline [] (1 ∷ []) (rebuilt none)
      (rebuilt (some (other [])) ∷ rebuilt (some (other [])) ∷ []) owner refl
      (inl refl, (inl refl, tt)) (refl, refl)

-- Worker 2 is not named, and its caller tries again.
memory_callers_example :
    Answers Trigger.memory
      (oom_reason 1 21)
      (1 ∷ [])
      owner
      (serving 2)
      (task_on 2)
      2
      (λ (kind, input, error_repr). raise (toxic_task kind (oom_reason 1 21) input))
memory_callers_example =
    memory_callers (1 ∷ []) owner (serving 2) (task_on 2) 2 (oom_reason 1 21) (oom 1 21)
      (inr (inl refl), refl, refl, refl)

abbrev submission : Submission
submission = record { task_type = codes "ping"; input_text = codes "text"; request_id = codes "id" }

-- A restart, a broken pipe, and then a value: three submissions.
submit_resilient_ends_example : EndedAfter submission (answered (succeeded (num 4)) []) 3 (
    submit_resilient submission (
      (answered (failed service_unavailable false none) []
        ∷ answered (failed (broken_pipe []) false none) []
        ∷ [])
      ++ answered (succeeded (num 4)) [] ∷ []))
unfolding is_dead_server_error
submit_resilient_ends_example =
    submit_resilient_ends submission (answered (succeeded (num 4)) []) [] (λ h. h)
      (answered (failed service_unavailable false none) []
        ∷ answered (failed (broken_pipe []) false none) []
        ∷ [])
      (refl, (refl, tt))
