-- ===== src/Worker/Document.antt =====
-- pyleaner/worker.py, lines 272 to 410: a worker's document, `_didopen` and `_didchange`. What comes
-- out of the notification queue is given as a history of waits. The parameters of a notification are
-- a JSON object, and so is its `textDocument`: the client has read the URI in them.
pub mod Change
use py_leaner.Base.{
  ℕ, ◌+◌, Bool, true, false, ◌&&◌, Option, none, some, List, [], ◌∷◌, ◌++◌, leb, ◌==◌,
  if◌then◌else◌, is_some, map, ◌⊎◌, inl, inr,
}
use py_leaner.Base.Text.{Text, codes, text_eq}
use py_leaner.Base.Json.{Json, null, bool, num, arr, obj, Items, nil, cons, end, field, get_field}
use py_leaner.Task.{Error, service_unavailable, lean_task_timeout, Message}
use py_leaner.Watchdog.Types.{poison_method}

-- What a worker tells the server about its document: `didOpen` and `didChange`, with the version, and
-- for a change the range and the text.
pub data Edit : Type 0 where
  did_open : Text → Text → Edit
  did_change : ℕ → Json → Text → Edit

pub record Document : Type 0 where
  pub document_version : ℕ
  pub edits : List Edit

-- One wait for a notification: none before the deadline, or one, with whether the queue is empty two
-- seconds later.
pub data Wait : Type 0 where
  out_of_time : Wait
  received : Message → Bool → Wait

abbrev pub lookup_field : Text → Json → Option Json
lookup_field k (obj fs) = get_field k fs
lookup_field k _ = none

-- `d.get("version", None) == version`; a Python Boolean equals 0 or 1.
abbrev equals : Option Json → ℕ → Bool
equals (some (num m)) n = m == n
equals (some (bool true)) n = 1 == n
equals (some (bool false)) n = 0 == n
equals _ n = false

-- `params.get("processing", []) == []`
abbrev nothing_left : Option Json → Bool
nothing_left none = true
nothing_left (some (arr nil)) = true
nothing_left _ = false

abbrev text_document : Json → Json
text_document params = elim (lookup_field (codes "textDocument") params) [
  | none ↦ obj end
  | some d ↦ d
]

-- `$/lean/fileProgress` for that version with nothing left to process
unfoldable pub is_finished : ℕ → Message → Bool
is_finished version m =
    text_eq m.method (codes "$/lean/fileProgress")
    && nothing_left (lookup_field (codes "processing") m.params)
    && equals (lookup_field (codes "version") (text_document m.params)) version

-- `textDocument/publishDiagnostics` for that version
unfoldable pub is_published : ℕ → Message → Bool
is_published version m =
    text_eq m.method (codes "textDocument/publishDiagnostics")
    && equals (lookup_field (codes "version") m.params) version

-- `params.get("diagnostics", [])`, where `None` counts as not yet there
unfoldable pub diagnostics_of : Message → Option Json
diagnostics_of m = elim (lookup_field (codes "diagnostics") m.params) [
  | none ↦ some (arr nil)
  | some null ↦ none
  | some d ↦ some d
]

unfoldable pub is_poison : Message → Bool
is_poison m = text_eq m.method poison_method

-- Whether a diagnostic is kept, by its severity; `none` where reading it raises.
unfoldable pub is_kept : Json → Option Bool
is_kept (obj fs) = elim (get_field (codes "severity") fs) [
  | none ↦ some true
  | some null ↦ some true
  | some (num n) ↦ some (leb n 3)
  | some (bool b) ↦ some true
  | some d ↦ none
]
is_kept d = none

-- The diagnostics of severity 3 and below and those without one, up to the first that raises.
unfoldable pub valid_diagnostics : Items → List Json
valid_diagnostics nil = []
valid_diagnostics (cons d ds) =
    let rest = valid_diagnostics ds in
    elim (is_kept d) [ none ↦ [] | some true ↦ d ∷ rest | some false ↦ rest ]

unfoldable pub valid_of : Json → List Json
valid_of (arr ds) = valid_diagnostics ds
valid_of d = []

-- The variables of the loop, `counter` and `diagnostics`.
pub record Seen : Type 0 where
  pub counter : ℕ
  pub diagnostics : Option Json

unfoldable pub note : ℕ → Message → Seen → Seen
note version m s = record {
  counter = if is_finished version m then s.counter + 1 else s.counter;
  diagnostics = if is_published version m then diagnostics_of m else s.diagnostics;
}

-- How `_didchange` ends: with diagnostics, by an error, or not yet.
pub data Changed : Type 0 where
  returned : List Json → Changed
  raised : Error → Changed
  waiting : Changed

-- `_get_next_version` and the notification with that version
unfoldable pub change : Json → Text → Document → Document
change range text d = record {
  document_version = d.document_version + 1;
  edits = d.edits ++ did_change (d.document_version + 1) range text ∷ [];
}

unfoldable pub timeout_error : Text → Error
timeout_error timeout_text = lean_task_timeout (
    codes "Lean elaboration exceeded "
    ++ (timeout_text ++ codes "s; simplify the proof and avoid enumerating huge ranges."))

-- The cancelling edit of a timeout takes a version also where it cannot be written.
unfoldable pub cancel : Option Error → Json → Document → Document
cancel none range d = change range [] d
cancel (some e) range d = record d { document_version = d.document_version + 1 }

-- The end of a round of the loop: the diagnostics, if all of them are there and nothing more arrives.
unfoldable pub conclusion : Bool → Seen → Option (List Json)
conclusion quiet s =
    if leb 2 s.counter && quiet
    then elim s.diagnostics [ none ↦ none | some d ↦ some (valid_of d) ]
    else none

-- The loop of `_didchange`; `failure` is what writing the cancelling edit raises, if it does.
unfoldable pub await_change :
    Text → Option Error → Json → ℕ → List Wait → Seen → Document → Document × Changed
await_change t failure range version [] s d = (d, waiting)
await_change t failure range version (out_of_time ∷ waits) s d =
    (cancel failure range d, raised (timeout_error t))
await_change t failure range version (received m quiet ∷ waits) s d =
    let seen = note version m s in
    let rest = await_change t failure range version waits seen d in
    if is_poison m
    then (d, raised service_unavailable)
    else elim (conclusion quiet seen) [ none ↦ rest | some ds ↦ (d, returned ds) ]

abbrev whole_document : Json
whole_document = obj (
    field (codes "start")
      (obj (field (codes "line") (num 0) (field (codes "character") (num 0) end)))
      (field (codes "end")
        (obj (field (codes "line") (num 999) (field (codes "character") (num 0) end))) end))

-- `{}` stands for the whole document.
unfoldable pub range_of : Json → Json
range_of (obj end) = whole_document
range_of r = r

abbrev pub unseen : Seen
unseen = record { counter = 0; diagnostics = none }

-- `_didchange`; the first option is what writing the edit raises.
unfoldable pub did_change_document :
    Text → Option Error → Option Error → Text → Json → List Wait → Document → Document × Changed
did_change_document t (some e) failure text range waits d =
    (record d { document_version = d.document_version + 1 }, raised e)
did_change_document t none failure text range waits d =
    await_change t failure (range_of range) (d.document_version + 1) waits unseen
      (change (range_of range) text d)

-- The loop of `_didopen`: whether the processing of version 0 ended before the time ran out.
unfoldable pub await_open : List Wait → Option Bool
await_open [] = none
await_open (out_of_time ∷ waits) = some false
await_open (received m quiet ∷ waits) =
    let rest = await_open waits in if is_finished 0 m then some true else rest

abbrev arrived : Message → Wait
arrived m = received m false

-- `_didopen`; the option is what writing the notification raises. The messages that are in the queue
-- come first, then those that the client has buffered for the document. The result is whether the
-- document is open, or `none` while the worker still waits.
unfoldable pub did_open_document :
    Text
    → Text
    → Option Error
    → List Message
    → List Message
    → List Wait
    → Document
    → Document × (Error ⊎ Option Bool)
did_open_document language text (some e) queued buffered waits d =
    (record d { document_version = 0 }, inl e)
did_open_document language text none queued buffered waits d = (
  record { document_version = 0; edits = d.edits ++ did_open language text ∷ [] },
  inr (await_open (map arrived queued ++ map arrived buffered ++ waits)),
)
