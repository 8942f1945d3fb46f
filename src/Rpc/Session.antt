-- ===== src/Rpc/Session.antt =====
-- pyleaner/rpc_session.py, lines 164 to 412, with `LspClient.request` of pyleaner/client.py. What
-- the server and the pipe do to a request is an argument. The table of pending requests holds the
-- ids of all callers; those of the others do not change while a call waits, except that a restart
-- of the server empties the table.
pub mod Tables
pub mod Pending
pub mod Returned
pub mod Resent
use py_leaner.Base.{
  ℕ, ◌+◌, Bool, true, false, not, ◌&&◌, ◌||◌, Option, none, some, ◌⊎◌, inl, inr, List, [], ◌∷◌,
  ◌++◌, ◌==◌, if◌then◌else◌, keep, mem, is_some,
}
use py_leaner.Base.Text.{Text, codes, decimal}
use py_leaner.Base.Json.{Json, str, obj, end, field}
use py_leaner.Task.{Error, service_unavailable, rpc_timeout, os_error, runtime_error, other}
use py_leaner.Rpc.Errors.{
  ErrorObject, RpcError, needs_reconnect, worker_restarted, classify_rpc_error, Failure, rpc,
  raised,
}

-- A message that was written to the server: a request with its id, method and parameters; a call
-- with its id, document, position, session id, method and parameters; a keep-alive with its document
-- and session id; another notification with its method and parameters.
pub data Sent : Type 0 where
  requested : ℕ → Text → Json → Sent
  called : ℕ → Text → Json → Text → Text → Json → Sent
  kept_alive : Text → Text → Sent
  notified : Text → Json → Sent

-- The part of the client that its sessions share, and the sessions, by worker, that the keep-alive
-- manager has.
pub record Link : Type 0 where
  pub message_id : ℕ
  pub pending : List ℕ
  pub sent : List Sent
  pub registered : List ℕ

-- The fields of an `RpcSession`; `managed` tells whether it has a keep-alive manager.
pub record Session : Type 0 where
  pub worker_id : ℕ
  pub uri : Text
  pub managed : Bool
  pub session_id : Option ℕ
  pub connected : Bool

-- What becomes of a request: it cannot be written, the watchdog wakes the caller, the response has an
-- `error`, it has a `result`, or none comes in time.
pub data Answer (A : Type 0) : Type 0 where
  unsent : Error → Answer A
  unavailable : Answer A
  refused : ErrorObject → Answer A
  result : A → Answer A
  expired : Answer A

-- What the result of a connect request holds: a session id, as a number or as a string that `int`
-- reads; none, with the result's text; or something that raises when it is read.
pub data Opening : Type 0 where
  opened : ℕ → Opening
  no_session : Text → Opening
  unusable : Error → Opening

-- The result of a call: no string, or a string with the value that `json.loads` reads in it, if any.
pub data Reply : Type 0 where
  value : Json → Reply
  serialized : Text → Option Json → Reply

unfoldable pub decoded : Reply → Json
decoded (value v) = v
decoded (serialized t none) = str t
decoded (serialized t (some v)) = v

-- `_pending_requests.pop(msg_id, None)`
abbrev pub pop_pending : ℕ → List ℕ → List ℕ
pop_pending id = keep (λ k. not (k == id))

-- `_pending_requests[msg_id] = response_q`
abbrev register_pending : ℕ → List ℕ → List ℕ
register_pending id pending = if mem id pending then pending else pending ++ id ∷ []

-- The message is written, and the response is awaited with the id in the table.
abbrev exchange : Sent → ℕ → Link → Link
exchange message id l = record l {
  sent = l.sent ++ message ∷ [];
  pending = pop_pending id (register_pending id l.pending);
}

-- `LspClient.request`: the message is written outside the `try`.
unfoldable pub request : {A : Type 0} → Text → Json → ℕ → Answer A → Link → Link × (Error ⊎ A)
request method params id (unsent e) l =
    (record l { pending = register_pending id l.pending }, inl e)
request method params id unavailable l =
    (record (exchange (requested id method params) id l) { pending = [] }, inl service_unavailable)
request method params id (refused o) l =
    (exchange (requested id method params) id l, inl (other (codes "Request error: " ++ o.shown)))
request method params id (result a) l = (exchange (requested id method params) id l, inr a)
request method params id expired l = (
  exchange (requested id method params) id l,
  inl (os_error none (codes "Timeout waiting for response to " ++ method)),
)

-- `client._next_id()`
abbrev next_id : Link → Link
next_id l = record l { message_id = l.message_id + 1 }

unfoldable pub opening_of : Error ⊎ Opening → Error ⊎ ℕ
opening_of (inl e) = inl e
opening_of (inr (opened n)) = inr n
opening_of (inr (no_session shown)) = inl (runtime_error (codes "Failed to connect RPC: " ++ shown))
opening_of (inr (unusable e)) = inl e

unfoldable pub connect : Text → Answer Opening → Link → Link × (Error ⊎ ℕ)
connect uri a l =
    let (l', r) =
      request (codes "$/lean/rpc/connect") (obj (field (codes "uri") (str uri) end))
        (l.message_id + 1) a (next_id l) in
    (l', opening_of r)

-- `KeepAliveManager.register`, for a session that has a manager
abbrev pub register : Session → Link → Link
register s l =
    if s.managed && not (mem s.worker_id l.registered)
    then record l { registered = l.registered ++ s.worker_id ∷ [] }
    else l

-- The session takes the id that `connect` returns; where it raises, the session stays as it is.
abbrev pub take_session : Session → Link × (Error ⊎ ℕ) → Session × Link × Option Error
take_session s (l, inl e) = (s, l, some e)
take_session s (l, inr n) = (record s { session_id = some n; connected = true }, register s l, none)

unfoldable pub ensure_connected : Answer Opening → Session → Link → Session × Link × Option Error
ensure_connected a s l =
    if s.connected && is_some s.session_id then (s, l, none) else take_session s (connect s.uri a l)

unfoldable pub invalidate : Session → Session
invalidate s = record s { session_id = none; connected = false }

unfoldable pub reconnect : Answer Opening → Session → Link → Session × Link × Option Error
reconnect a s l = take_session (invalidate s) (connect s.uri a l)

-- The arguments of a call; `timeout_text` is its timeout as `{timeout:g}` prints it.
pub record Call : Type 0 where
  pub method : Text
  pub params : Json
  pub position : Json
  pub timeout_text : Text

abbrev timeout_message : Call → Text
timeout_message c =
    codes "Timeout waiting " ++ (c.timeout_text ++ (codes "s for RPC response to " ++ c.method))

abbrev pub call_message : Call → ℕ → Session → ℕ → Sent
call_message c id s n = called id s.uri c.position (decimal n) c.method c.params

-- `_rpc_call_once` with a session id: every way out removes the id from the table.
unfoldable pub call_with : Call → Answer Reply → Session → ℕ → Link → Link × (Failure ⊎ Json)
call_with c (unsent e) s n l = (
  record (next_id l) {
    pending = pop_pending (l.message_id + 1) (register_pending (l.message_id + 1) l.pending);
  },
  inl (raised e),
)
call_with c unavailable s n l = (
  record (exchange (call_message c (l.message_id + 1) s n) (l.message_id + 1) (next_id l)) {
    pending = [];
  },
  inl (raised service_unavailable),
)
call_with c (refused o) s n l = (
  exchange (call_message c (l.message_id + 1) s n) (l.message_id + 1) (next_id l),
  inl (rpc (classify_rpc_error o)),
)
call_with c (result r) s n l = (
  exchange (call_message c (l.message_id + 1) s n) (l.message_id + 1) (next_id l),
  inr (decoded r),
)
call_with c expired s n l = (
  exchange (call_message c (l.message_id + 1) s n) (l.message_id + 1) (next_id l),
  inl (raised (rpc_timeout (timeout_message c))),
)

unfoldable pub rpc_call_once : Call → Answer Reply → Session → Link → Link × (Failure ⊎ Json)
rpc_call_once c a s l = elim s.session_id [
  | none ↦ (l, inl (raised (runtime_error (codes "Session ID is not set"))))
  | some n ↦ call_with c a s n l
]

-- The two classes of error after which `call` starts a new session.
unfoldable pub loses_session : Failure → Bool
loses_session (rpc (needs_reconnect o)) = true
loses_session (rpc (worker_restarted o)) = true
loses_session _ = false

-- What happens to the requests that a call may make, in order.
pub record Course : Type 0 where
  pub connecting : Answer Opening
  pub first : Answer Reply
  pub reconnecting : Answer Opening
  pub second : Answer Reply

abbrev pub Outcome : Type 0
Outcome = Session × Link × (Failure ⊎ Json)

-- The second attempt, in the session that the reconnect leaves.
unfoldable pub call_again : Call → Course → Session × Link × Option Error → Outcome
call_again c w (s, l, some e) = (s, l, inl (raised e))
call_again c w (s, l, none) = let (l', r) = rpc_call_once c w.second s l in (s, l', r)

-- The handlers of `RpcNeedsReconnectError` and `WorkerRestartedError`; other errors pass.
unfoldable pub handle_failure : Bool → Call → Course → Session → Link → Failure → Outcome
handle_failure retry c w s l f =
    if loses_session f
    then if retry
      then call_again c w (reconnect w.reconnecting (invalidate s) l)
      else (invalidate s, l, inl f)
    else (s, l, inl f)

-- What the first attempt leads to: its value, or what the handlers do.
unfoldable pub conclude : Bool → Call → Course → Session → Link × (Failure ⊎ Json) → Outcome
conclude retry c w s (l, inl f) = handle_failure retry c w s l f
conclude retry c w s (l, inr v) = (s, l, inr v)

-- The `try` of `call`, after the session is connected
unfoldable pub attempt : Bool → Call → Course → Session × Link × Option Error → Outcome
attempt retry c w (s, l, some e) = (s, l, inl (raised e))
attempt retry c w (s, l, none) = conclude retry c w s (rpc_call_once c w.first s l)

-- `call` with a position
unfoldable pub call : Bool → Call → Course → Session → Link → Outcome
call retry c w s l = attempt retry c w (ensure_connected w.connecting s l)

-- `call`, by its arguments
unfoldable pub call_at : Bool → Text → Json → Option Json → Text → Course → Session → Link → Outcome
call_at retry method params none timeout_text w s l =
    (s, l, inl (raised (other (codes "position is required for RPC calls"))))
call_at retry method params (some position) timeout_text w s l =
    call retry
      (record {
        method = method;
        params = params;
        position = position;
        timeout_text = timeout_text;
      })
      w s l
