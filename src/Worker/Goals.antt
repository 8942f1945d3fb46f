-- ===== src/Worker/Goals.antt =====
-- pyleaner/worker.py: `get_proof_goal` with `_submit_lsp`, and `get_diagnostics`: a change of the
-- document, and a request of the language server that is no RPC.
use py_leaner.Base.{ℕ, ◌+◌, Option, none, some, ◌⊎◌, inl, inr, List}
use py_leaner.Base.Text.{Text, codes}
use py_leaner.Base.Json.{Json, null, num, str, arr, obj, end, field, get_field}
use py_leaner.Task.{Error}
use py_leaner.Worker.Loop.{TaskEnd, finished}
use py_leaner.Worker.Document.{Document, Changed, returned, raised, waiting, did_change_document}
use py_leaner.Worker.Handlers.{Happening, items, error_end}
use py_leaner.Rpc.Session.{Link, Answer, request}

-- `result.get("goals", None)` on a dict, `None` on anything else
unfoldable pub goals_in : Json → Json
goals_in (obj fs) = elim (get_field (codes "goals") fs) [ none ↦ null | some goals ↦ goals ]
goals_in _ = null

unfoldable pub goal_params : Text → ℕ → Json → Json
goal_params uri version position = obj (
    field (codes "textDocument")
      (obj (field (codes "uri") (str uri) (field (codes "version") (num version) end)))
      (field (codes "position") position end))

unfoldable pub goal_end : List Json → Error ⊎ Json → TaskEnd
goal_end ds (inl e) = error_end e
goal_end ds (inr result) = finished (
    obj (
      field (codes "diagnostics") (arr (items ds))
        (field (codes "proof_goal") (goals_in result) end)))

-- `_submit_lsp`: the id of the request is the worker's, from 1001 on.
unfoldable pub submit_lsp : ℕ → Text → Json → Answer Json → Link → Link × (Error ⊎ Json)
submit_lsp worker method params answer l = request method params (worker + 1000) answer l

-- Behind the change; `none` while it waits. The version in the request is that of the change.
unfoldable pub after_goal_change :
    ℕ → Text → Json → Answer Json → Link → Document × Changed → Document × Link × Option TaskEnd
after_goal_change worker uri position answer l (d, returned ds) =
    let (l', r) =
      submit_lsp worker (codes "$/lean/plainGoal") (goal_params uri d.document_version position)
        answer l in
    (d, l', some (goal_end ds r))
after_goal_change worker uri position answer l (d, raised e) = (d, l, some (error_end e))
after_goal_change worker uri position answer l (d, waiting) = (d, l, none)

unfoldable pub get_proof_goal :
    ℕ
    → Text
    → Text
    → Json
    → Json
    → Happening
    → Answer Json
    → Document
    → Link
    → Document × Link × Option TaskEnd
get_proof_goal worker uri text range position h answer d l =
    after_goal_change worker uri position answer l
      (did_change_document (codes "120") h.edit_error h.cancel_error text range h.waits d)

unfoldable pub diagnostics_end : Document × Changed → Document × Option TaskEnd
diagnostics_end (d, returned ds) = (d, some (finished (arr (items ds))))
diagnostics_end (d, raised e) = (d, some (error_end e))
diagnostics_end (d, waiting) = (d, none)

-- `get_diagnostics`
unfoldable pub get_diagnostics : Text → Json → Happening → Document → Document × Option TaskEnd
get_diagnostics text range h d =
    diagnostics_end
      (did_change_document (codes "120") h.edit_error h.cancel_error text range h.waits d)
