-- ===== src/Client/Messages/Opening.antt =====
-- pyleaner/client.py and pyleaner/worker.py: the notifications for a document while its worker starts.
pub mod Waiting
pub mod Served
use py_leaner.Base.{
  ◌≡◌, refl, sym, ap, ◌∙◌, subst, Bool, true, false, Option, none, some, ◌⊎◌, inl, inr, List, [],
  ◌∷◌, ◌++◌, arith, is_some, Bool-cases, Option-cases, if◌then◌else◌,
}
use mathlib.Core.List.{append_assoc, append-nil}
use py_leaner.Base.Text.{Text, text_eq, text_eq_iff, text_eq_refl}
use py_leaner.Base.TextDict.{TextDict, get, put_key, get-put_key_self, get-put_key_ne}
use py_leaner.Task.{Message}
use py_leaner.Pool.{Worker, get_worker_for_uri}
use py_leaner.Client.Messages.{
  Inbox, register_init_uri, or_nothing, without_key, drain_init_buffer, notify_worker, buffer,
  route_in, route_or_buffer,
}

-- Notifications, each with the URI of its document
abbrev pub Notices : Type 0
Notices = List (Text × Message)

unfoldable pub route_notices : Notices → Inbox → Inbox
route_notices [] i = i
route_notices ((uri, m) ∷ ns) i = route_notices ns (route_or_buffer uri m i)

-- The notifications for one document
unfoldable pub for_uri : Text → Notices → List Message
for_uri uri [] = []
for_uri uri ((u, m) ∷ ns) = if text_eq u uri then m ∷ for_uri uri ns else for_uri uri ns

-- The notification queue of the worker that has the URI
abbrev pub queue_of : Option Worker → List Message
queue_of none = []
queue_of (some w) = w.notification_queue

abbrev pub queue_for : Text → Option (List Worker) → List Message
queue_for uri none = []
queue_for uri (some ws) = queue_of (get_worker_for_uri uri ws)

-- `self.worker_pool = _WorkerPool(...)`
abbrev pub assign : List Worker → Inbox → Inbox
assign ws i = record i { workers = some ws }

-- The start of `_didopen` after the notification is written: the buffered messages move into the
-- worker's queue.
unfoldable pub move_buffer : Text → Inbox → Inbox
move_buffer uri i =
    let (ms, j) = drain_init_buffer uri i in
    elim j.workers [ none ↦ j | some ws ↦ record j { workers = some (notify_worker uri ms ws) } ]

-- Registration, then the assignment of the pool, then the move of the buffer, with notifications
-- before, between and after
unfoldable pub open_document : Text → List Worker → Notices → Notices → Notices → Inbox → Inbox
open_document uri ws before between after i = route_notices after (
    move_buffer uri
      (route_notices between (assign ws (route_notices before (register_init_uri uri i)))))
