-- ===== src/Tests/Documents.antt =====
-- `_didchange` of pyleaner/worker.py on a short history of notifications.
use py_leaner.Base.{ℕ, ◌≡◌, refl, true, false, none, List, [], ◌∷◌}
use py_leaner.Base.Text.{codes}
use py_leaner.Base.Json.{Json, num, arr, obj, nil, cons, end, field}
use py_leaner.Task.{Message}
use py_leaner.Worker.Document.{
  Document, Wait, received, out_of_time, did_change_document, await_change, returned, note,
  conclusion, is_finished, is_published, is_poison, diagnostics_of, valid_of, valid_diagnostics,
  is_kept,
}

abbrev severity : ℕ → Json
severity n = obj (field (codes "severity") (num n) end)

abbrev published : Message
published = record {
  method = codes "textDocument/publishDiagnostics";
  params = obj (
      field (codes "version") (num 4)
        (field (codes "diagnostics") (arr (cons (severity 1) (cons (severity 4) nil))) end));
}

abbrev processed : Message
processed = record {
  method = codes "$/lean/fileProgress";
  params = obj (
      field (codes "processing") (arr nil)
        (field (codes "textDocument") (obj (field (codes "version") (num 4) end)) end));
}

abbrev waits : List Wait
waits =
    received published false ∷ received processed false ∷ received processed true ∷ out_of_time ∷ []

abbrev document : Document
document = record { document_version = 3; edits = [] }

did_change_document_run :
    (did_change_document (codes "120") none none (codes "#check 1") (obj end) waits document).1
    ≡ returned (severity 1 ∷ [])
unfolding did_change_document await_change note conclusion is_finished is_published is_poison
    diagnostics_of valid_of valid_diagnostics is_kept
did_change_document_run = refl
