-- ===== src/Worker/Handlers.antt =====
-- pyleaner/worker.py, lines 412 to 505: the handlers that change the document and then make an RPC:
-- `extract_declarations`, `search_declarations` and `declaration_axioms`.
pub mod Carried
pub mod Counted
use py_leaner.Base.{ℕ, true, Option, none, some, ◌⊎◌, inl, inr, List, [], ◌∷◌, ◌++◌}
use py_leaner.Base.Text.{Text, codes}
use py_leaner.Base.Json.{Json, num, arr, obj, Items, nil, cons, end, field, set_field}
use py_leaner.Task.{Error, service_unavailable, other}
use py_leaner.Worker.Loop.{TaskEnd, finished, interrupted, errored}
use py_leaner.Worker.Document.{
  Document, Wait, Changed, returned, raised, waiting, did_change_document,
}
use py_leaner.Rpc.Errors.{
  ErrorObject, RpcError, needs_reconnect, worker_restarted, content_modified, request_cancelled,
  rpc_error, Failure, rpc,
}
use py_leaner.Rpc.Session.{Link, Session, Course, Call, call}

-- What happens during a handler: to the edit and to the cancelling edit, on the notification queue,
-- and to the requests of the RPC.
pub record Happening : Type 0 where
  pub edit_error : Option Error
  pub cancel_error : Option Error
  pub waits : List Wait
  pub course : Course

pub record Connection : Type 0 where
  pub document : Document
  pub session : Session
  pub link : Link

unfoldable pub error_of : RpcError → ErrorObject
error_of (needs_reconnect o) = o
error_of (worker_restarted o) = o
error_of (content_modified o) = o
error_of (request_cancelled o) = o
error_of (rpc_error o) = o

-- An exception as the thread's loop tells it apart
unfoldable pub error_end : Error → TaskEnd
error_end service_unavailable = interrupted
error_end e = errored e

unfoldable pub failure_end : Failure → TaskEnd
failure_end (rpc e) = errored (other (codes "RPC error: " ++ (error_of e).shown))
failure_end (Failure.raised e) = error_end e

abbrev pub items : List Json → Items
items [] = nil
items (d ∷ ds) = cons d (items ds)

-- `result["diagnostics"] = diagnostics`, where the result is a dict
unfoldable pub with_diagnostics : List Json → Json → Json
with_diagnostics ds (obj fs) = obj (set_field (codes "diagnostics") (arr (items ds)) fs)
with_diagnostics ds v = v

unfoldable pub call_end : List Json → Failure ⊎ Json → TaskEnd
call_end ds (inl f) = failure_end f
call_end ds (inr v) = finished (with_diagnostics ds v)

-- The RPC is made at the start of the document, and may be retried.
abbrev pub rpc_call : Text → Json → Call
rpc_call method params = record {
  method = method;
  params = params;
  position = obj (field (codes "line") (num 0) (field (codes "character") (num 0) end));
  timeout_text = codes "160";
}

-- The handler after the change; `none` while it waits.
unfoldable pub after_change :
    Call → Course → Session → Link → Document × Changed → Connection × Option TaskEnd
after_change c w s l (d, returned ds) =
    let (s', l', r) = call true c w s l in
    (record { document = d; session = s'; link = l' }, some (call_end ds r))
after_change c w s l (d, raised e) =
    (record { document = d; session = s; link = l }, some (error_end e))
after_change c w s l (d, waiting) = (record { document = d; session = s; link = l }, none)

unfoldable pub document_rpc :
    Text → Json → Text → Json → Happening → Connection → Connection × Option TaskEnd
document_rpc method params text range h k =
    after_change (rpc_call method params) h.course k.session k.link
      (did_change_document (codes "120") h.edit_error h.cancel_error text range h.waits k.document)
