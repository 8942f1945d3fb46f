-- ===== src/Tests/Rpc.antt =====
-- The RPC session of pyleaner/rpc_session.py on a session that expires in the middle of a call.
use py_leaner.Base.{
  ℕ, ◌+◌, ◌≤◌, ◌≡◌, refl, true, false, Option, none, some, [], ◌∷◌, arith, All, if◌then◌else◌, ◌&&◌,
  ◌==◌,
}
use py_leaner.Base.Text.{codes}
use py_leaner.Base.Json.{num, obj, end}
use py_leaner.Task.{Error, broken_pipe}
use py_leaner.Rpc.Errors.{ErrorObject, negsuc, classify_rpc_error}
use py_leaner.Rpc.Session.{
  Link, Session, Call, Course, refused, result, opened, value, call, attempt, conclude,
  handle_failure, call_again, ensure_connected, reconnect, invalidate, rpc_call_once, call_with,
  connect, request, opening_of, loses_session, decoded,
}
use py_leaner.Rpc.Session.Pending.{Leaves, call-pending}
use py_leaner.Rpc.Session.Returned.{Answered, call-Answered}
use py_leaner.Rpc.Session.Resent.{calls, session_lost, call_resends}
use py_leaner.Rpc.KeepAlive.{keep_alive_round}
use py_leaner.Rpc.KeepAlive.Round.{IsSettled, keep_alive_round-IsSettled}

abbrev ping : Call
ping = record {
  method = codes "LeanLspExtension.ping";
  params = obj end;
  position = obj end;
  timeout_text = codes "160";
}

abbrev outdated : ErrorObject
outdated = record { code = some (negsuc 32_899); message = []; shown = [] }

abbrev course : Course
course = record {
  connecting = result (opened 9);
  first = refused outdated;
  reconnecting = result (opened 12);
  second = result (value (num 5));
}

abbrev session : ℕ → Session
session id = record {
  worker_id = id;
  uri = codes "worker_1.lean";
  managed = true;
  session_id = none;
  connected = false;
}

abbrev link : Link
link = record { message_id = 4; pending = 2 ∷ []; sent = []; registered = [] }

call_run : (call true ping course (session 1) link).0.session_id ≡ some 12
unfolding call attempt conclude handle_failure call_again ensure_connected reconnect invalidate
    rpc_call_once call_with connect request opening_of loses_session classify_rpc_error
call_run = refl

call-Answered_example :
    Answered ping course
      (num 5)
      (call true ping course (session 1) link).0
      (call true ping course (session 1) link).1
unfolding call attempt conclude handle_failure call_again ensure_connected reconnect invalidate
    rpc_call_once call_with connect request opening_of loses_session classify_rpc_error decoded
call-Answered_example = call-Answered true ping course (session 1) link (num 5) refl

call-pending_example : Leaves course link (call true ping course (session 1) link)
call-pending_example = call-pending true ping course (session 1) link (λ k h. ground arith)

call_resends_example :
    calls (call true ping course (session 1) link).1
    ≤ calls link + (if true && session_lost course.first then 2 else 1)
call_resends_example = call_resends true ping course (session 1) link

abbrev writes : ℕ → Option Error
writes id = if id == 2 then some (broken_pipe []) else none

abbrev live : ℕ → Session
live id = record (session id) { session_id = some 7; connected = true }

abbrev registered : Link
registered = record link { registered = 1 ∷ 2 ∷ [] }

keep_alive_round-IsSettled_example :
    All
      (IsSettled
        (1 ∷ 2 ∷ [])
        (keep_alive_round writes (1 ∷ 2 ∷ []) (live 1 ∷ live 2 ∷ []) registered).1)
      (keep_alive_round writes (1 ∷ 2 ∷ []) (live 1 ∷ live 2 ∷ []) registered).0
keep_alive_round-IsSettled_example =
    keep_alive_round-IsSettled writes (1 ∷ 2 ∷ []) (live 1 ∷ live 2 ∷ []) registered
