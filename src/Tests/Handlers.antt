-- ===== src/Tests/Handlers.antt =====
-- A declaration request of pyleaner/worker.py in a session that is connected.
use py_leaner.Base.{refl, true, false, none, some, [], ◌∷◌}
use py_leaner.Base.Text.{codes}
use py_leaner.Base.Json.{Json, num, bool, arr, obj, nil, cons, end, field}
use py_leaner.Task.{Message}
use py_leaner.Worker.Document.{
  received, did_change_document, await_change, note, conclusion, is_finished, is_published,
  is_poison, diagnostics_of, valid_of, valid_diagnostics, is_kept, change,
}
use py_leaner.Rpc.Session.{
  result, value, expired, call, attempt, conclude, ensure_connected, rpc_call_once, call_with,
  decoded,
}
use py_leaner.Worker.Handlers.{
  Happening, Connection, rpc_call, document_rpc, after_change, call_end, with_diagnostics,
}
use py_leaner.Worker.Handlers.Carried.{IsCarried, document_rpc-IsCarried}

abbrev warning : Json
warning = obj (field (codes "severity") (num 2) end)

abbrev published : Message
published = record {
  method = codes "textDocument/publishDiagnostics";
  params =
      obj (
        field (codes "version") (num 1) (field (codes "diagnostics") (arr (cons warning nil)) end));
}

abbrev processed : Message
processed = record {
  method = codes "$/lean/fileProgress";
  params = obj (field (codes "textDocument") (obj (field (codes "version") (num 1) end)) end);
}

abbrev happening : Happening
happening = record {
  edit_error = none;
  cancel_error = none;
  waits = received processed false ∷ received processed false ∷ received published true ∷ [];
  course = record {
    connecting = expired;
    first = result (value (obj (field (codes "success") (bool true) end)));
    reconnecting = expired;
    second = expired;
  };
}

abbrev connection : Connection
connection = record {
  document = record { document_version = 0; edits = [] };
  session = record {
    worker_id = 1;
    uri = codes "worker_1.lean";
    managed = true;
    session_id = some 12;
    connected = true;
  };
  link = record { message_id = 4; pending = []; sent = []; registered = [] };
}

abbrev content : Json
content =
    obj (
      field (codes "success") (bool true)
        (field (codes "diagnostics") (arr (cons warning nil)) end))

document_rpc-IsCarried_example :
    IsCarried
      (rpc_call (codes "LeanLspExtension.extractDeclarations") (obj end))
      happening.course
      (did_change_document
        (codes "120")
        none
        none
        (codes "#check 1")
        (obj end)
        happening.waits
        connection.document).1
      (document_rpc
        (codes "LeanLspExtension.extractDeclarations")
        (obj end)
        (codes "#check 1")
        (obj end)
        happening
        connection).0
      content
unfolding document_rpc after_change call_end with_diagnostics did_change_document await_change note
    conclusion is_finished is_published is_poison diagnostics_of valid_of valid_diagnostics is_kept
    change call attempt conclude ensure_connected rpc_call_once call_with decoded
document_rpc-IsCarried_example =
    document_rpc-IsCarried (codes "LeanLspExtension.extractDeclarations") (obj end)
      (codes "#check 1") (obj end) happening connection content refl
