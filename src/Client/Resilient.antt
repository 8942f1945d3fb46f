-- ===== src/Client/Resilient.antt =====
-- pyleaner/client.py, lines 72 to 198: `_is_dead_server_error` and `_submit_resilient`. The loop is
-- run against the history of its attempts: what each attempt finds in its result queue.
pub mod Outcome
use py_leaner.Base.{
  ℕ, suc, ◌+◌, Bool, true, false, ◌||◌, Option, none, some, List, [], ◌∷◌, ◌++◌, ◌==◌,
  if◌then◌else◌, max,
}
use py_leaner.Base.Text.{Text, codes, lower, starts_with, contains}
use py_leaner.Base.TextDict.{TextDict, get, put_key}
use py_leaner.Base.Json.{Json, str}
use py_leaner.Task.{
  Task, Error, service_unavailable, lean_task_timeout, toxic_task, rpc_timeout, broken_pipe,
  connection_reset, os_error, runtime_error, other, Response, succeeded, failed, LogEntry,
}
use py_leaner.Watchdog.Types.{resilient_response_timeout}

-- `str(err)`
unfoldable pub message_of : Error → Text
message_of service_unavailable = []
message_of (lean_task_timeout m) = m
message_of (toxic_task kind reason input) =
    codes "'" ++ (kind ++ (codes "' rejected by server (" ++ (reason ++ codes ")")))
message_of (rpc_timeout m) = m
message_of (broken_pipe m) = m
message_of (connection_reset m) = m
message_of (os_error errno m) = m
message_of (runtime_error m) = m
message_of (other m) = m

abbrev names_pipe : Text → Bool
names_pipe m = contains (codes "Broken pipe") m || contains (codes "Errno 32") m

unfoldable pub is_dead_server_error : Error → Bool
unfolding message_of
is_dead_server_error (broken_pipe m) = true
is_dead_server_error (connection_reset m) = true
is_dead_server_error (os_error (some errno) m) = errno == 32 || errno == 104 || names_pipe m
is_dead_server_error e = names_pipe (message_of e)

-- The reason of a toxic task, as the code tells a timeout from a crash.
unfoldable pub is_timeout_reason : Text → Bool
is_timeout_reason reason =
    contains (codes "deadline") (lower reason)
    || starts_with (codes "task exceeded ") (lower reason)

-- `resp.get(key) or default`
abbrev pub or_text : Option Text → Text → Text
or_text none d = d
or_text (some []) d = d
or_text (some (c ∷ cs)) d = c ∷ cs

-- What the loop does with a response: it returns, raises, or goes round again.
pub data Verdict : Type 0 where
  done : Json → Verdict
  raise : Error → Verdict
  retry_restarted : Verdict
  retry_dead : Verdict

-- The end of `_submit_resilient`. `str(err) or repr(err)`: only an error with an empty message is printed by its `repr`.
unfoldable pub final_error : Text → Error → Error
final_error error_repr (lean_task_timeout m) = lean_task_timeout m
final_error error_repr (rpc_timeout m) = lean_task_timeout m
final_error error_repr e = runtime_error (or_text (some (message_of e)) error_repr)

-- What the loop makes of a response.
unfoldable pub judge : Text → Text → Text → Response → Verdict
judge task_type input error_repr (succeeded content) = done content
judge task_type input error_repr (failed service_unavailable true reason) =
    if is_timeout_reason (or_text reason [])
    then raise (lean_task_timeout (or_text reason []))
    else raise (toxic_task task_type (or_text reason (codes "crashed/wedged the server")) input)
judge task_type input error_repr (failed service_unavailable false reason) = retry_restarted
judge task_type input error_repr (failed e toxic reason) =
    if is_dead_server_error e then retry_dead else raise (final_error error_repr e)

-- What one round of the loop meets after `server_ready`: no pool, an expired wait, or a response
-- (with the `repr` of its error).
pub data Attempt : Type 0 where
  no_pool : Attempt
  expired : Attempt
  answered : Response → Text → Attempt

-- How the call ends.
pub data Ending : Type 0 where
  returned : Json → Ending
  raised : Error → Ending

-- The fields of the submission: the task type, the `text` argument and the correlation id.
pub record Submission : Type 0 where
  pub task_type : Text
  pub input_text : Text
  pub request_id : Text

-- What the call has done when it ends, or when the history does: the number of tasks submitted, the
-- events, and the end.
pub record Progress : Type 0 where
  pub submissions : ℕ
  pub log : List LogEntry
  pub ending : Option Ending

unfoldable pub event : Text → Submission → LogEntry
event kind s = record {
  kind = kind;
  request_id = some s.request_id;
  task_id = none;
  worker_id = none;
  outcome = some (codes "infrastructure_error");
}

unfoldable pub expired_error : Submission → Error
expired_error s = lean_task_timeout (
    codes "Lean task '"
    ++ (s.task_type ++ codes "' exceeded its response deadline; revise the input before retrying."))

unfoldable pub verdict_end : Verdict → Option Ending
verdict_end (done content) = some (returned content)
verdict_end (raise e) = some (raised e)
verdict_end retry_restarted = none
verdict_end retry_dead = none

-- The end that an attempt gives, or `none` where the loop goes round again.
unfoldable pub end_of : Submission → Attempt → Option Ending
end_of s no_pool = some (raised (runtime_error (codes "Worker pool not initialized")))
end_of s expired = some (raised (expired_error s))
end_of s (answered r error_repr) = verdict_end (judge s.task_type s.input_text error_repr r)

unfoldable pub events_of : Submission → Attempt → List LogEntry
events_of s no_pool = []
events_of s expired = event (codes "resilient_wait_expired") s ∷ []
events_of s (answered r error_repr) = elim (judge s.task_type s.input_text error_repr r) [
  | done content ↦ []
  | raise e ↦ []
  | retry_restarted ↦ event (codes "resilient_retry") s ∷ []
  | retry_dead ↦ event (codes "resilient_retry") s ∷ []
]

-- Without a pool nothing is submitted.
abbrev pub submits : Attempt → ℕ
submits no_pool = 0
submits expired = 1
submits (answered r error_repr) = 1

-- One round of the loop.
abbrev pub advance : Submission → Attempt → Progress → Progress
advance s a p = record {
  submissions = p.submissions + submits a;
  log = p.log ++ events_of s a;
  ending = end_of s a;
}

unfoldable pub attempts_from : Submission → List Attempt → Progress → Progress
attempts_from s [] p = p
attempts_from s (a ∷ as') p =
    let rest = attempts_from s as' (advance s a p) in
    elim (end_of s a) [ some e ↦ advance s a p | none ↦ rest ]

abbrev pub not_begun : Progress
not_begun = record { submissions = 0; log = []; ending = none }

unfoldable pub submit_resilient : Submission → List Attempt → Progress
submit_resilient s history = attempts_from s history not_begun

-- `max(timeout, RESILIENT_RESPONSE_TIMEOUT)`
unfoldable pub effective_timeout : ℕ → ℕ
effective_timeout timeout = max timeout resilient_response_timeout

-- `{**inherited, **given}`
unfoldable pub merge_context : TextDict Json → TextDict Json → TextDict Json
merge_context inherited [] = inherited
merge_context inherited ((k, v) ∷ given) = merge_context (put_key k v inherited) given

-- `kwargs.get("text", "")`, as the message that `ToxicTaskError` carries
unfoldable pub input_text_of : TextDict Json → Text
input_text_of kwargs = elim (get (codes "text") kwargs) [ some (str t) ↦ t | _ ↦ [] ]
