-- ===== src/Client/Messages/Opening/Waiting.antt =====
-- pyleaner/client.py: the notifications for a registered document before the pool is assigned.
use py_leaner.Base.{
  ◌≡◌, refl, sym, ap, ◌∙◌, subst, true, false, Option, none, some, ◌⊎◌, inl, inr, List, [], ◌∷◌,
  ◌++◌, arith, is_some, Bool-cases, Option-cases, if◌then◌else◌,
}
use mathlib.Core.List.{append_assoc, append-nil}
use py_leaner.Base.Text.{Text, text_eq, text_eq_iff}
use py_leaner.Base.TextDict.{get, put_key, get-put_key_self, get-put_key_ne}
use py_leaner.Task.{Message}
use py_leaner.Pool.{Worker, get_worker_for_uri}
use py_leaner.Client.Messages.{Inbox, buffer, route_in, route_or_buffer}
use py_leaner.Client.Messages.Opening.{Notices, route_notices, for_uri, queue_of}

-- Before the pool is assigned, with what is buffered for the document
abbrev pub IsWaiting : Text → List Message → Inbox → Type 0
IsWaiting uri ms i = (i.workers ≡ none) × (get uri i.buffers ≡ some ms)

-- Afterwards, with the worker's queue and what is still buffered
abbrev pub IsServed : Text → List Message → Option (List Message) → Inbox → Type 0
IsServed uri q o i =
    (ws : List Worker) × (i.workers ≡ some ws)
    × (is_some (get_worker_for_uri uri ws) ≡ true)
    × (queue_of (get_worker_for_uri uri ws) ≡ q)
    × (get uri i.buffers ≡ o)

abbrev pub if_for : Text → Text → Message → List Message
if_for uri v m = if text_eq v uri then m ∷ [] else []

buffer-some :
    (v : Text) (m : Message) (i : Inbox) (ms : List Message)
    → get v i.buffers ≡ some ms
    → (buffer v m i).buffers ≡ put_key v (ms ++ m ∷ []) i.buffers
unfolding buffer
buffer-some v m i ms e = rw (e, buffer) refl

buffer-none :
    (v : Text) (m : Message) (i : Inbox)
    → get v i.buffers ≡ none
    → (buffer v m i).buffers ≡ i.buffers
unfolding buffer
buffer-none v m i e = rw (e, buffer) refl

buffer-get_self :
    (v : Text) (m : Message) (i : Inbox) (ms : List Message)
    → get v i.buffers ≡ some ms
    → get v (buffer v m i).buffers ≡ some (ms ++ m ∷ [])
buffer-get_self v m i ms h =
    ap (get v) (buffer-some v m i ms h) ∙ get-put_key_self v (ms ++ m ∷ []) i.buffers

pub buffer-get_ne :
    (uri v : Text) (m : Message) (i : Inbox)
    → text_eq v uri ≡ false
    → get uri (buffer v m i).buffers ≡ get uri i.buffers
buffer-get_ne uri v m i n = elim (Option-cases (get v i.buffers)) [
  | inl e ↦ ap (get uri) (buffer-none v m i e)
  | inr (ms, e) ↦
      ap (get uri) (buffer-some v m i ms e)
      ∙ get-put_key_ne uri v (ms ++ m ∷ []) i.buffers
          (λ f. absurd (cc ((text_eq_iff v uri).1 (sym f))))
]

pub buffer-workers : (v : Text) (m : Message) (i : Inbox) → (buffer v m i).workers ≡ i.workers
unfolding buffer
buffer-workers v m i = elim (Option-cases (get v i.buffers)) [
  | inl e ↦ rw (e, buffer) refl
  | inr (ms, e) ↦ rw (e, buffer) refl
]

route_unassigned :
    (v : Text) (m : Message) (i : Inbox) → i.workers ≡ none → route_or_buffer v m i ≡ buffer v m i
unfolding route_or_buffer route_in
route_unassigned v m i e = rw (e, route_or_buffer, route_in) refl

IsWaiting-route :
    (uri v : Text) (m : Message) (i : Inbox) (ms : List Message)
    → IsWaiting uri ms i
    → IsWaiting uri (ms ++ if_for uri v m) (route_or_buffer v m i)
IsWaiting-route uri v m i ms (e, h) =
    subst (IsWaiting uri (ms ++ if_for uri v m)) (sym (route_unassigned v m i e))
      (buffer-workers v m i ∙ e, held (Bool-cases (text_eq v uri)))
  where
    held :
        (text_eq v uri ≡ true) ⊎ (text_eq v uri ≡ false)
        → get uri (buffer v m i).buffers ≡ some (ms ++ if_for uri v m)
    held (inl t) = rw t (
        subst (λ u. get uri (buffer u m i).buffers ≡ some (ms ++ m ∷ []))
          (sym ((text_eq_iff v uri).0 t)) (buffer-get_self uri m i ms h))
    held (inr t) = rw t (cc (buffer-get_ne uri v m i t, append-nil ms))

pub for_uri-cons :
    (uri v : Text) (m : Message) (ns : Notices)
    → for_uri uri ((v, m) ∷ ns) ≡ if_for uri v m ++ for_uri uri ns
unfolding for_uri
for_uri-cons uri v m ns = ground arith

pub IsWaiting-notices :
    (uri : Text) (ns : Notices) (i : Inbox) (ms : List Message)
    → IsWaiting uri ms i
    → IsWaiting uri (ms ++ for_uri uri ns) (route_notices ns i)
unfolding route_notices get for_uri
IsWaiting-notices uri [] i ms w = (w.0, cc (w.1, append-nil ms))
IsWaiting-notices uri ((v, m) ∷ ns) i ms w =
    subst (λ q. IsWaiting uri q (route_notices ns (route_or_buffer v m i)))
      (append_assoc ms (if_for uri v m) (for_uri uri ns)
        ∙ ap (λ q. ms ++ q) (sym (for_uri-cons uri v m ns)))
      (IsWaiting-notices uri ns (route_or_buffer v m i) (ms ++ if_for uri v m)
        (IsWaiting-route uri v m i ms w))
