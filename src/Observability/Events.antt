-- ===== src/Observability/Events.antt =====
-- pyleaner/observability.py and pyleaner/client.py: the events, their emission to a sink, and the
-- context that tasks carry.
pub mod Scoped
use py_leaner.Base.{
  ℕ, Bool, true, false, Option, none, some, List, [], ◌∷◌, ◌++◌, if◌then◌else◌, ◌≡◌, refl, ◌∙◌, sym,
  ap, arith, Bool-cases, inl, inr,
}
use py_leaner.Base.Text.{Text, codes, text_eq, text_eq_iff}
use py_leaner.Base.TextDict.{TextDict, get, put_key, get-put_key_self, get-put_key_ne}
use py_leaner.Base.Json.{Json, str}
use py_leaner.Client.Resilient.{merge_context}

-- `LeanExecutionEvent`; its id and its time are given.
pub record LeanExecutionEvent : Type 0 where
  pub kind : Text
  pub request_id : Option Text
  pub task_id : Option Text
  pub task_type : Option Text
  pub worker_id : Option ℕ
  pub document_uri : Option Text
  pub source_fingerprint : Option Text
  pub environment_fingerprint : Option Text
  pub runtime_environment_fingerprint : Option Text
  pub outcome : Option Text
  pub details : TextDict Json
  pub event_id : Text
  pub occurred_at_ns : ℕ
  pub schema_version : Text

-- A sink changes what the observer holds, and may raise.
abbrev pub Sink : Type 0 → Type 0
Sink O = LeanExecutionEvent → O → O × Bool

-- `emit_safely`: what it returns, and what the observer then holds; whether the sink raises is not
-- passed on.
unfoldable pub emit_safely :
    {O : Type 0} → Option (Sink O) → LeanExecutionEvent → O → Option LeanExecutionEvent × O
emit_safely none event o = (none, o)
emit_safely (some sink) event o = (some event, (sink event o).0)

-- `source_fingerprint_from_kwargs`
unfoldable pub fingerprint_of : (Text → Text) → Option Json → Option Text
fingerprint_of hash (some (str s)) = some (hash s)
fingerprint_of hash _ = none

unfoldable pub source_fingerprint_from_kwargs : (Text → Text) → TextDict Json → Option Text
source_fingerprint_from_kwargs hash kwargs = fingerprint_of hash (get (codes "text") kwargs)

abbrev pub Context : Type 0
Context = TextDict Json

-- `{**current, **{key: item for ... if item is not None}}`
unfoldable pub merged : Context → TextDict (Option Json) → Context
merged c [] = c
merged c ((k, none) ∷ fields) = merged c fields
merged c ((k, some item) ∷ fields) = merged (put_key k item c) fields

-- What a caller does on one thread: submit a task by `submit_resilient`, with its `context` argument
-- (an empty one if none is given), or by a method of the pool, and go on; raise; or enter
-- `observation_context` with a body and go on after it.
pub data Caller : Type 0 where
  finish : Caller
  raise : Caller
  submit : Context → Caller → Caller
  call_pool : Caller → Caller
  within : TextDict (Option Json) → Caller → Caller → Caller

-- The contexts of the tasks, the context variable, and whether an exception is on its way
pub record Ran : Type 0 where
  pub carried : List Context
  pub variable : Context
  pub raised : Bool

-- Behind the `with` block, whose body has raised or not: the variable has been reset, and what follows
-- runs only if nothing was raised.
unfoldable pub leave : Bool → List Context → Context → Ran → Ran
leave true carried token rest = record { carried = carried; variable = token; raised = true }
leave false carried token rest = record rest { carried = carried ++ rest.carried }

-- The variable is set before the body of a block. A method of the pool gives its task no context,
-- and `submit_task` then sets an empty one.
unfoldable pub run_caller : Caller → Context → Ran
run_caller finish c = record { carried = []; variable = c; raised = false }
run_caller raise c = record { carried = []; variable = c; raised = true }
run_caller (submit context next) c =
    let r = run_caller next c in record r { carried = merge_context c context ∷ r.carried }
run_caller (call_pool next) c = let r = run_caller next c in record r { carried = [] ∷ r.carried }
run_caller (within fields body next) c =
    let r = run_caller body (merged c fields) in
    let rest = run_caller next c in leave r.raised r.carried c rest

-- What a key of the fields stands for in the block: the last value that is given and not `None`, else
-- what it stood for outside.
abbrev pub given : Text → TextDict (Option Json) → Option Json → Option Json
given k [] o = o
given k ((j, none) ∷ fields) o = given k fields o
given k ((j, some item) ∷ fields) o = given k fields (if text_eq k j then some item else o)

-- The same for the `context` argument of a submission, all of whose values are given
abbrev pub argument : Text → Context → Option Json → Option Json
argument k [] o = o
argument k ((j, item) ∷ context) o = argument k context (if text_eq k j then some item else o)
