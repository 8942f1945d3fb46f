-- ===== src/Worker/Handlers/Counted.antt =====
-- pyleaner/worker.py: the diagnostics of a document's RPC can be counted, so that the loop answers its
-- task once.
use py_leaner.Base.{true, ◌≡◌, refl, ap, ◌⊎◌, inl, inr, Option, none, some, List}
use py_leaner.Base.Text.{Text, codes}
use py_leaner.Base.Json.{Json, arr, obj}
use py_leaner.Task.{Error, service_unavailable}
use py_leaner.Rpc.Errors.{Failure, rpc}
use py_leaner.Rpc.Session.{Link, Session, Course, Call, call}
use py_leaner.Worker.Loop.{TaskEnd, uncounted, length_error}
use py_leaner.Worker.Loop.Answers.{IsCounted}
use py_leaner.Worker.Document.{Document, Changed, returned, raised, waiting, did_change_document}
use py_leaner.Worker.Handlers.{
  Happening, Connection, error_end, failure_end, items, with_diagnostics, call_end, rpc_call,
  after_change, document_rpc,
}
use py_leaner.Worker.Handlers.Carried.{get_field-set_field}

abbrev AreCounted : Option TaskEnd → Type 0
AreCounted none = Unit
AreCounted (some e) = IsCounted e

error_end-IsCounted : (e : Error) → IsCounted (error_end e)
unfolding error_end
error_end-IsCounted service_unavailable = tt
error_end-IsCounted e = tt

failure_end-IsCounted : (f : Failure) → IsCounted (failure_end f)
unfolding failure_end
failure_end-IsCounted (rpc e) = tt
failure_end-IsCounted (Failure.raised e) = error_end-IsCounted e

with_diagnostics-uncounted : (ds : List Json) (v : Json) → uncounted (with_diagnostics ds v) ≡ none
unfolding uncounted with_diagnostics length_error
with_diagnostics-uncounted ds (obj fs) =
    ap (λ o. elim o as (λ x. Option Error) [ none ↦ none | some d ↦ length_error d ])
      (get_field-set_field (codes "diagnostics") (codes "diagnostics") (arr (items ds)) fs)
with_diagnostics-uncounted ds _ = refl

call_end-IsCounted : (ds : List Json) (r : Failure ⊎ Json) → IsCounted (call_end ds r)
unfolding call_end
call_end-IsCounted ds (inl f) = failure_end-IsCounted f
call_end-IsCounted ds (inr v) = with_diagnostics-uncounted ds v

after_change-AreCounted :
    (c : Call) (w : Course) (s : Session) (l : Link) (r : Document × Changed)
    → AreCounted (after_change c w s l r).1
unfolding after_change
after_change-AreCounted c w s l (d, returned ds) = call_end-IsCounted ds (call true c w s l).2
after_change-AreCounted c w s l (d, raised e) = error_end-IsCounted e
after_change-AreCounted c w s l (d, waiting) = tt

-- However `extract_declarations`, `search_declarations` or `declaration_axioms` ends, its result can be
-- counted.
document_rpc-AreCounted :
    (method : Text) (params : Json) (text : Text) (range : Json) (h : Happening) (k : Connection)
    → AreCounted (document_rpc method params text range h k).1
unfolding document_rpc
document_rpc-AreCounted method params text range h k =
    after_change-AreCounted (rpc_call method params) h.course k.session k.link
      (did_change_document (codes "120") h.edit_error h.cancel_error text range h.waits k.document)
