-- ===== src/Client/Messages.antt =====
-- pyleaner/client.py, lines 398 to 478 and 680 to 715: what becomes of a message that has been read:
-- responses go to the queues of the pending requests, notifications to the worker with their URI or,
-- before there is a pool, into a buffer. `none` is an exception that the reader thread meets.
pub mod Opening
pub mod Routed
pub mod Responses
use py_leaner.Base.{
  ℕ, zero, suc, Bool, true, false, ◌||◌, Option, none, some, List, [], ◌∷◌, ◌++◌, if◌then◌else◌,
  is_some,
}
use py_leaner.Base.Text.{Text, codes, text_eq, contains}
use py_leaner.Base.TextDict.{TextDict, get, put_key}
use py_leaner.Base.Dict.{Dict, lookup, insert}
use py_leaner.Base.Json.{
  Json, null, bool, num, str, arr, obj, Items, nil, cons, Fields, end, field, get_field,
}
use py_leaner.Task.{Message}
use py_leaner.Pool.{Worker, get_worker_for_uri}

-- The part of an `LspClient` that the reader thread changes: the queues of the pending requests, the
-- workers of the pool, if it has been assigned, and the buffers of the URIs that are registered.
pub record Inbox : Type 0 where
  pub pending : Dict (List Json)
  pub workers : Option (List Worker)
  pub buffers : TextDict (List Message)

-- `_register_init_uri`
unfoldable pub register_init_uri : Text → Inbox → Inbox
register_init_uri uri i = record i { buffers = put_key uri [] i.buffers }

-- `self._init_notification_buffers.pop(uri, [])`: what is popped, and what is left
abbrev pub or_nothing : Option (List Message) → List Message
or_nothing none = []
or_nothing (some ms) = ms

unfoldable pub without_key : Text → TextDict (List Message) → TextDict (List Message)
without_key k [] = []
without_key k ((j, v) ∷ d) = if text_eq k j then d else (j, v) ∷ without_key k d

-- `_drain_init_buffer`
unfoldable pub drain_init_buffer : Text → Inbox → List Message × Inbox
drain_init_buffer uri i =
    (or_nothing (get uri i.buffers), record i { buffers = without_key uri i.buffers })

-- `worker.notification_queue.put(msg)` on the first worker with the URI
unfoldable pub notify_worker : Text → List Message → List Worker → List Worker
notify_worker uri ms [] = []
notify_worker uri ms (w ∷ ws) =
    if text_eq uri w.uri
    then record w { notification_queue = w.notification_queue ++ ms } ∷ ws
    else w ∷ notify_worker uri ms ws

unfoldable pub buffer : Text → Message → Inbox → Inbox
buffer uri message i = elim (get uri i.buffers) [
  | none ↦ i
  | some ms ↦ record i { buffers = put_key uri (ms ++ message ∷ []) i.buffers }
]

-- `_route_or_buffer`
unfoldable pub route_in : Option (List Worker) → Text → Message → Inbox → Inbox
route_in none uri message i = buffer uri message i
route_in (some ws) uri message i =
    if is_some (get_worker_for_uri uri ws)
    then record i { workers = some (notify_worker uri (message ∷ []) ws) }
    else buffer uri message i

unfoldable pub route_or_buffer : Text → Message → Inbox → Inbox
route_or_buffer uri message i = route_in i.workers uri message i

-- The tail of both handlers, with the value that stands for the URI: other values than texts match no
-- worker and no key, and lists and dicts cannot be looked up.
unfoldable pub route_json : Json → Message → Inbox → Option Inbox
route_json (str []) message i = some i
route_json (str (c ∷ uri)) message i = some (route_or_buffer (c ∷ uri) message i)
route_json (arr (cons j js)) message i = none
route_json (obj (field k j fs)) message i = none
route_json _ message i = some i

unfoldable pub route_optional : Option Json → Message → Inbox → Option Inbox
route_optional none message i = some i
route_optional (some uri) message i = route_json uri message i

-- `params.get("textDocument", {}).get("uri", "")`
unfoldable pub route_document : Option Json → Message → Inbox → Option Inbox
route_document none message i = some i
route_document (some (obj document)) message i =
    route_optional (get_field (codes "uri") document) message i
route_document (some _) message i = none

abbrev pub progress_method : Text
progress_method = codes "$/lean/fileProgress"

abbrev pub diagnostics_method : Text
diagnostics_method = codes "textDocument/publishDiagnostics"

-- `_handle_file_progress`
unfoldable pub handle_file_progress : Json → Inbox → Option Inbox
handle_file_progress (obj params) i =
    route_document (get_field (codes "textDocument") params)
      (record { method = progress_method; params = obj params }) i
handle_file_progress _ i = none

-- `_handle_publish_diagnostics`
unfoldable pub handle_publish_diagnostics : Json → Inbox → Option Inbox
handle_publish_diagnostics (obj params) i =
    route_optional (get_field (codes "uri") params)
      (record { method = diagnostics_method; params = obj params }) i
handle_publish_diagnostics _ i = none

-- `message.get("params", {})`
abbrev pub or_empty : Option Json → Json
or_empty none = obj end
or_empty (some j) = j

-- `self.notification_handlers[method](...)`
unfoldable pub handle_notification : Json → Json → Inbox → Option Inbox
handle_notification (str method) params i =
    if text_eq method progress_method
    then handle_file_progress params i
    else if text_eq method diagnostics_method
    then handle_publish_diagnostics params i
    else some i
handle_notification (arr js) params i = none
handle_notification (obj fs) params i = none
handle_notification _ params i = some i

-- `pending_q.put(message)`, if there is a request with the id
unfoldable pub respond_to : ℕ → Json → Inbox → Inbox
respond_to id message i = elim (lookup id i.pending) [
  | none ↦ i
  | some q ↦ record i { pending = insert id (q ++ message ∷ []) i.pending }
]

-- `True` and `False` are found as 1 and 0; a list or a dict cannot be looked up.
unfoldable pub handle_response : Json → Json → Inbox → Option Inbox
handle_response (num id) message i = some (respond_to id message i)
handle_response (bool true) message i = some (respond_to 1 message i)
handle_response (bool false) message i = some (respond_to 0 message i)
handle_response (arr js) message i = none
handle_response (obj fs) message i = none
handle_response _ message i = some i

-- The three kinds of message, by their `id` and `method`
unfoldable pub handle_object : Option Json → Option Json → Fields → Inbox → Option Inbox
handle_object (some id) none message i = handle_response id (obj message) i
handle_object (some id) (some method) message i = some i
handle_object none (some method) message i =
    handle_notification method (or_empty (get_field (codes "params") message)) i
handle_object none none message i = some i

-- `key in items`
abbrev pub holds_text : Text → Items → Bool
holds_text k nil = false
holds_text k (cons (str s) js) = text_eq k s || holds_text k js
holds_text k (cons _ js) = holds_text k js

-- `_handle_message`, on what `json.loads` gives, `none` where it raises. The indexing of a text or of
-- a list by a key raises, and so does `in` on a value that is no collection.
unfoldable pub handle_message : Option Json → Inbox → Option Inbox
handle_message none i = some i
handle_message (some (obj message)) i =
    handle_object (get_field (codes "id") message) (get_field (codes "method") message) message i
handle_message (some (str s)) i =
    if contains (codes "id") s || contains (codes "method") s then none else some i
handle_message (some (arr js)) i =
    if holds_text (codes "id") js || holds_text (codes "method") js then none else some i
handle_message (some _) i = none

-- One turn of `_read_stdout`: the process or its output is gone, the reading raises, or there is a
-- message, which may be empty.
pub data Turn : Type 0 where
  over : Turn
  blank : Turn
  received : Option Json → Turn

-- `_read_stdout`: the inbox, and whether the thread goes on reading
unfoldable pub read_stdout : List Turn → Inbox → Inbox × Bool
read_stdout [] i = (i, true)
read_stdout (over ∷ turns) i = (i, false)
read_stdout (blank ∷ turns) i = read_stdout turns i
read_stdout (received message ∷ turns) i = elim (handle_message message i) [
  | none ↦ (i, false)
  | some j ↦ read_stdout turns j
]
