-- ===== src/Client/Messages/Routed.antt =====
-- pyleaner/client.py: a notification leaves the queues of the pending requests as they are.
use py_leaner.Base.{
  ◌≡◌, refl, Option, none, some, inl, inr, List, [], ◌∷◌, is_some, Bool-cases, Option-cases,
}
use py_leaner.Base.Text.{Text, codes, text_eq}
use py_leaner.Base.TextDict.{get}
use py_leaner.Base.Json.{Json, null, bool, num, str, arr, obj, nil, cons, end, field, get_field}
use py_leaner.Task.{Message}
use py_leaner.Pool.{Worker, get_worker_for_uri}
use py_leaner.Client.Messages.{
  Inbox, buffer, route_in, route_or_buffer, route_json, route_optional, route_document,
  handle_file_progress, handle_publish_diagnostics, handle_notification, progress_method,
  diagnostics_method,
}

buffer-pending : (u : Text) (m : Message) (i : Inbox) → (buffer u m i).pending ≡ i.pending
unfolding buffer
buffer-pending u m i = elim (Option-cases (get u i.buffers)) [
  | inl e ↦ rw (e, buffer) refl
  | inr (ms, e) ↦ rw (e, buffer) refl
]

route_in-pending :
    (o : Option (List Worker)) (u : Text) (m : Message) (i : Inbox)
    → (route_in o u m i).pending ≡ i.pending
unfolding route_in
route_in-pending none u m i = buffer-pending u m i
route_in-pending (some ws) u m i = elim (Bool-cases (is_some (get_worker_for_uri u ws))) [
  | inl e ↦ rw (e, route_in) refl
  | inr e ↦ rw (e, route_in) (buffer-pending u m i)
]

route_json-pending :
    (uri : Json) (m : Message) (i j : Inbox) → route_json uri m i ≡ some j → j.pending ≡ i.pending
unfolding route_json route_or_buffer
route_json-pending (str []) m i j h = cc
route_json-pending (str (c ∷ u)) m i j h = cc (route_in-pending i.workers (c ∷ u) m i)
route_json-pending (arr (cons x xs)) m i j h = cc
route_json-pending (arr nil) m i j h = cc
route_json-pending (obj (field k v fs)) m i j h = cc
route_json-pending (obj end) m i j h = cc
route_json-pending null m i j h = cc
route_json-pending (bool b) m i j h = cc
route_json-pending (num n) m i j h = cc

route_optional-pending :
    (o : Option Json) (m : Message) (i j : Inbox)
    → route_optional o m i ≡ some j
    → j.pending ≡ i.pending
unfolding route_optional
route_optional-pending none m i j h = cc
route_optional-pending (some u) m i j h = route_json-pending u m i j h

route_document-pending :
    (o : Option Json) (m : Message) (i j : Inbox)
    → route_document o m i ≡ some j
    → j.pending ≡ i.pending
unfolding route_document
route_document-pending none m i j h = cc
route_document-pending (some (obj fs)) m i j h =
    route_optional-pending (get_field (codes "uri") fs) m i j h
route_document-pending (some null) m i j h = cc
route_document-pending (some (bool b)) m i j h = cc
route_document-pending (some (num n)) m i j h = cc
route_document-pending (some (str s)) m i j h = cc
route_document-pending (some (arr js)) m i j h = cc

progress-pending :
    (params : Json) (i j : Inbox) → handle_file_progress params i ≡ some j → j.pending ≡ i.pending
unfolding handle_file_progress
progress-pending (obj fs) i j h =
    route_document-pending (get_field (codes "textDocument") fs) _ i j h
progress-pending null i j h = cc
progress-pending (bool b) i j h = cc
progress-pending (num n) i j h = cc
progress-pending (str s) i j h = cc
progress-pending (arr js) i j h = cc

diagnostics-pending :
    (params : Json) (i j : Inbox)
    → handle_publish_diagnostics params i ≡ some j
    → j.pending ≡ i.pending
unfolding handle_publish_diagnostics
diagnostics-pending (obj fs) i j h = route_optional-pending (get_field (codes "uri") fs) _ i j h
diagnostics-pending null i j h = cc
diagnostics-pending (bool b) i j h = cc
diagnostics-pending (num n) i j h = cc
diagnostics-pending (str s) i j h = cc
diagnostics-pending (arr js) i j h = cc

pub notification-pending :
    (method params : Json) (i j : Inbox)
    → handle_notification method params i ≡ some j
    → j.pending ≡ i.pending
unfolding handle_notification
notification-pending (str s) params i j h = elim (Bool-cases (text_eq s progress_method)) [
  | inl e ↦ progress-pending params i j (rw (e, handle_notification) at h)
  | inr e ↦ elim (Bool-cases (text_eq s diagnostics_method)) [
    | inl f ↦ diagnostics-pending params i j (rw (e, f, handle_notification) at h)
    | inr f ↦ cc (rw (e, f, handle_notification) at h)
  ]
]
notification-pending (arr js) params i j h = cc
notification-pending (obj fs) params i j h = cc
notification-pending null params i j h = cc
notification-pending (bool b) params i j h = cc
notification-pending (num n) params i j h = cc
