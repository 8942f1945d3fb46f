-- ===== src/Task.antt =====
-- pyleaner/__init__.py and pyleaner/errors.py: tasks, the errors that travel in responses, and the
-- responses themselves. A result queue is known by a number.
use py_leaner.Base.{ℕ, Bool, Option}
use py_leaner.Base.Text.{Text}
use py_leaner.Base.TextDict.{TextDict}
use py_leaner.Base.Json.{Json}

-- `Task`: the keys that may be missing are options.
pub record Task : Type 0 where
  pub task_type : Text
  pub result_q : Option ℕ
  pub kwargs : TextDict Json
  pub request_id : Option Text
  pub task_id : Option Text
  pub context : Option (TextDict Json)
  pub culprit : Option Bool
  pub culprit_reason : Option Text

-- The exceptions that the code tells apart, each with its message. `os_error` has an `errno`, if it
-- was given one, and stands for no subclass of `OSError` that is named here.
pub data Error : Type 0 where
  service_unavailable : Error
  lean_task_timeout : Text → Error
  toxic_task : Text → Text → Text → Error
  rpc_timeout : Text → Error
  broken_pipe : Text → Error
  connection_reset : Text → Error
  os_error : Option ℕ → Text → Error
  runtime_error : Text → Error
  other : Text → Error

-- What is put into a result queue: `{"success": True, "content": ...}`, or a failure with its
-- `error`, `toxic` and `toxic_reason`.
pub data Response : Type 0 where
  succeeded : Json → Response
  failed : Error → Bool → Option Text → Response

-- One lifecycle event, by the fields that do not depend on fingerprints and clocks.
pub record LogEntry : Type 0 where
  pub kind : Text
  pub request_id : Option Text
  pub task_id : Option Text
  pub worker_id : Option ℕ
  pub outcome : Option Text

-- A message of a worker's notification queue; the watchdog's sentinel has no parameters.
pub record Message : Type 0 where
  pub method : Text
  pub params : Json
