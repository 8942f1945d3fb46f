-- ===== src/Tests/Workers.antt =====
-- The worker's loop of pyleaner/worker.py over three rounds, the last of which is interrupted.
use py_leaner.Base.{ℕ, ◌≡◌, refl, true, false, none, some, List, [], ◌∷◌, ◌++◌}
use py_leaner.Base.Text.{codes}
use py_leaner.Base.Json.{null, obj, arr, nil, field, end}
use py_leaner.Task.{Task, succeeded, failed, other}
use py_leaner.Pool.{Worker, reply}
use py_leaner.Worker.Loop.{
  Round, finished, interrupted, routed, blamed, run_worker, begin_round, serve, settle,
  settle_result, uncounted, length_error, disturb, on_service_unavailable, drained,
}
use py_leaner.Worker.Loop.Answers.{answered, asked, run_worker_answers}

abbrev task_on : ℕ → Task
task_on q = record {
  task_type = codes "ping";
  result_q = some q;
  kwargs = [];
  request_id = none;
  task_id = none;
  context = none;
  culprit = none;
  culprit_reason = none;
}

abbrev waiting : Worker
waiting = record {
  worker_id = 1;
  uri = [];
  ready = true;
  task_queue = task_on 1 ∷ task_on 2 ∷ [];
  current_task = none;
  notification_queue = [];
  document_version = 0;
  session_id = none;
  connected = false;
}

abbrev rounds : List Round
rounds =
    record {
      generation = 1;
      now = 10;
      meanwhile = routed (task_on 3) ∷ [];
      end = finished (obj (field (codes "diagnostics") (arr nil) end));
    }
    ∷ record {
      generation = 1;
      now = 20;
      meanwhile = blamed (codes "late") ∷ routed (task_on 4) ∷ [];
      end = interrupted;
    }
    ∷ []

run_worker_run : answered (run_worker rounds waiting).replies ≡ 1 ∷ 2 ∷ 3 ∷ 4 ∷ []
unfolding run_worker begin_round serve settle settle_result uncounted length_error disturb
    on_service_unavailable drained reply
run_worker_run = refl

run_worker_answers_example :
    answered (run_worker rounds waiting).replies
      ++ asked (run_worker rounds waiting).worker.task_queue
    ≡ 1 ∷ 2 ∷ 3 ∷ 4 ∷ []
unfolding begin_round serve settle settle_result uncounted length_error disturb
run_worker_answers_example = run_worker_answers rounds waiting (refl, tt) (refl, (tt, tt))

-- A result whose diagnostics are `null` is answered twice: by a success, and then by a failure.
uncounted_run :
    (run_worker
      (record {
        generation = 1;
        now = 10;
        meanwhile = [];
        end = finished (obj (field (codes "diagnostics") null end));
      }
        ∷ [])
      waiting).replies
    ≡ (1, succeeded (obj (field (codes "diagnostics") null end)))
      ∷ (1, failed (other (codes "object of type 'NoneType' has no len()")) false none)
      ∷ []
unfolding run_worker begin_round serve settle settle_result uncounted length_error disturb reply
uncounted_run = refl
