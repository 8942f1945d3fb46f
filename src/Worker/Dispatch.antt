-- ===== src/Worker/Dispatch.antt =====
-- pyleaner/pool.py and pyleaner/worker.py: each task that a public method of the pool submits has a
-- handler on the worker, which takes the task's arguments.
use py_leaner.Base.{◌≡◌, refl, ltb, Bool, true, false, some, if◌then◌else◌}
use py_leaner.Base.Text.{Text}
use py_leaner.Base.TextDict.{get}
use py_leaner.Pool.Api.{
  Probe, ApiCall, probe, echo, extract_declarations, search_declarations, declaration_axioms,
  get_diagnostics, get_proof_goal, Request, value_error, submit, request_of, is_blank,
}
use py_leaner.Worker.Methods.{Handler, process_funcs, accepts}

-- The request raises `ValueError`, or its task is handled.
abbrev pub IsHandled : Request → Type 0
IsHandled (value_error message) = Unit
IsHandled (submit task_type kwargs) =
    (h : Handler) × (get task_type process_funcs ≡ some h) × (accepts h kwargs ≡ true)

guarded_request :
    (b : Bool) (message : Text) (r : Request)
    → IsHandled r
    → IsHandled (if b then value_error message else r)
guarded_request true message r h = tt
guarded_request false message r h = h

-- Whatever public method is called with whatever arguments, it raises `ValueError`, or it submits a
-- task whose type is a key of `process_funcs` and whose keyword arguments that handler takes: the
-- worker's dispatch raises neither `KeyError` nor `TypeError` on them.
pub request_of-IsHandled : (call : ApiCall) → IsHandled (request_of call)
unfolding request_of process_funcs accepts get
request_of-IsHandled (probe Probe.ping) = (_, refl, refl)
request_of-IsHandled (probe p) = (_, refl, refl)
request_of-IsHandled (echo message) = (_, refl, refl)
request_of-IsHandled (extract_declarations text range) = (_, refl, refl)
request_of-IsHandled (search_declarations text query n fuzzy range) =
    guarded_request (ltb n 1) _ _ (Handler.search_declarations, refl, refl)
request_of-IsHandled (declaration_axioms text name range) =
    guarded_request (is_blank name) _ _ (Handler.declaration_axioms, refl, refl)
request_of-IsHandled (get_diagnostics text range) = (_, refl, refl)
request_of-IsHandled (get_proof_goal text position range) = (_, refl, refl)
