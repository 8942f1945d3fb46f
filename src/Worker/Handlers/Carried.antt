-- ===== src/Worker/Handlers/Carried.antt =====
-- pyleaner/worker.py: what the content of a declaration request is made of.
use py_leaner.Base.{◌≡◌, refl, subst, some, ◌⊎◌, inl, inr, true, List, arith, if◌then◌else◌}
use py_leaner.Base.Text.{Text, codes, text_eq, text_eq_iff}
use py_leaner.Base.Json.{
  Json, null, bool, num, str, arr, obj, Fields, end, field, get_field, set_field,
}
use py_leaner.Task.{
  Error, service_unavailable, lean_task_timeout, toxic_task, rpc_timeout, broken_pipe,
  connection_reset, os_error, runtime_error, other,
}
use py_leaner.Worker.Loop.{finished}
use py_leaner.Worker.Document.{Document, Changed, returned, raised, waiting, did_change_document}
use py_leaner.Rpc.Errors.{Failure, rpc}
use py_leaner.Rpc.Session.{Link, Session, Course, Call, call}
use py_leaner.Rpc.Session.Returned.{Answered, call-Answered}
use py_leaner.Worker.Handlers.{
  Happening, Connection, error_end, failure_end, items, with_diagnostics, call_end, rpc_call,
  after_change, document_rpc,
}

pub get_field-set_field :
    (j k : Text) (v : Json) (fs : Fields)
    → get_field j (set_field k v fs) ≡ (if text_eq j k then some v else get_field j fs)
get_field-set_field j k v end = refl
get_field-set_field j k v (field i w fs) =
    ground (arith, get_field-set_field j k v fs, text_eq_iff k i, text_eq_iff j k, text_eq_iff j i)

-- The content is the RPC's result with the diagnostics put in, if that is an object.
abbrev pub Carries : List Json → Json → Json → Type 0
Carries ds (obj fs) (obj gs) =
    (j : Text)
    → get_field j gs
      ≡ (if text_eq j (codes "diagnostics") then some (arr (items ds)) else get_field j fs)
Carries ds u v = u ≡ v

with_diagnostics-Carries : (ds : List Json) (u : Json) → Carries ds u (with_diagnostics ds u)
unfolding with_diagnostics
with_diagnostics-Carries ds (obj fs) =
    λ j. get_field-set_field j (codes "diagnostics") (arr (items ds)) fs
with_diagnostics-Carries ds null = refl
with_diagnostics-Carries ds (bool b) = refl
with_diagnostics-Carries ds (num n) = refl
with_diagnostics-Carries ds (str t) = refl
with_diagnostics-Carries ds (arr vs) = refl

-- A handler that ends with a content: where it comes from.
abbrev pub IsCarried : Call → Course → Changed → Connection → Json → Type 0
IsCarried c w changed k v =
    (ds : List Json) × (u : Json) × (changed ≡ returned ds)
    × Carries ds u v
    × Answered c w u k.session k.link

error_end_fails : (e : Error) (v : Json) → error_end e ≡ finished v → ⊥
unfolding error_end
error_end_fails service_unavailable v h = absurd (cc)
error_end_fails (lean_task_timeout m) v h = absurd (cc)
error_end_fails (toxic_task kind reason input) v h = absurd (cc)
error_end_fails (rpc_timeout m) v h = absurd (cc)
error_end_fails (broken_pipe m) v h = absurd (cc)
error_end_fails (connection_reset m) v h = absurd (cc)
error_end_fails (os_error n m) v h = absurd (cc)
error_end_fails (runtime_error m) v h = absurd (cc)
error_end_fails (other m) v h = absurd (cc)

failure_end_fails : (f : Failure) (v : Json) → failure_end f ≡ finished v → ⊥
unfolding failure_end
failure_end_fails (rpc e) v h = absurd (cc)
failure_end_fails (Failure.raised e) v h = error_end_fails e v h

after_change-IsCarried :
    (c : Call) (w : Course) (s : Session) (l : Link) (r : Document × Changed) (v : Json)
    → (after_change c w s l r).1 ≡ some (finished v)
    → IsCarried c w r.1 (after_change c w s l r).0 v
unfolding after_change call_end
after_change-IsCarried c w s l (d, waiting) v h = absurd (cc)
after_change-IsCarried c w s l (d, raised e) v h = absurd (error_end_fails e v (cc))
after_change-IsCarried c w s l (d, returned ds) v h = by_result (call true c w s l).2 refl (cc)
  where
    by_result :
        (r : Failure ⊎ Json)
        → (call true c w s l).2 ≡ r
        → call_end ds r ≡ finished v
        → IsCarried c w
            (returned ds)
            (record { document = d; session = (call true c w s l).0; link = (call true c w s l).1 })
            v
    by_result (inl f) e h = absurd (failure_end_fails f v h)
    by_result (inr u) e h = (
      ds,
      u,
      refl,
      subst (Carries ds u) (cc) (with_diagnostics-Carries ds u),
      call-Answered true c w s l u e,
    )

-- Where `extract_declarations`, `search_declarations` or `declaration_axioms` ends with a content: its
-- change has returned diagnostics, and an RPC has been answered in the session that the worker then
-- has. The content is the RPC's result; if that is an object, its `diagnostics` are those of the
-- change and every other field is the result's.
pub document_rpc-IsCarried :
    (method : Text) (params : Json) (text : Text) (range : Json) (h : Happening) (k : Connection)
    (v : Json)
    → (document_rpc method params text range h k).1 ≡ some (finished v)
    → IsCarried
        (rpc_call method params)
        h.course
        (did_change_document
          (codes "120")
          h.edit_error
          h.cancel_error
          text
          range
          h.waits
          k.document).1
        (document_rpc method params text range h k).0
        v
unfolding document_rpc
document_rpc-IsCarried method params text range h k v =
    after_change-IsCarried (rpc_call method params) h.course k.session k.link
      (did_change_document (codes "120") h.edit_error h.cancel_error text range h.waits k.document)
      v
