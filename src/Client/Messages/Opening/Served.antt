-- ===== src/Client/Messages/Opening/Served.antt =====
-- pyleaner/client.py: no notification for a document is lost while its worker starts.
use py_leaner.Base.{
  ◌≡◌, refl, sym, ap, ◌∙◌, subst, true, false, Option, none, some, inl, inr, List, [], ◌∷◌, ◌++◌,
  arith, is_some, Bool-cases,
}
use mathlib.Core.List.{append_assoc, append-nil}
use py_leaner.Base.Text.{Text, text_eq, text_eq_iff}
use py_leaner.Base.TextDict.{get, get-put_key_self}
use py_leaner.Task.{Message}
use py_leaner.Pool.{Worker, get_worker_for_uri}
use py_leaner.Client.Messages.{
  Inbox, register_init_uri, or_nothing, without_key, drain_init_buffer, notify_worker, buffer,
  route_in, route_or_buffer,
}
use py_leaner.Client.Messages.Opening.{
  Notices, route_notices, for_uri, queue_of, queue_for, assign, move_buffer, open_document,
}
use py_leaner.Client.Messages.Opening.Waiting.{
  IsServed, if_for, buffer-get_ne, buffer-workers, for_uri-cons, IsWaiting-notices,
}

get_worker-notify_self :
    (uri : Text) (ms : List Message) (ws : List Worker)
    → is_some (get_worker_for_uri uri ws) ≡ true
    → queue_of (get_worker_for_uri uri (notify_worker uri ms ws))
      ≡ queue_of (get_worker_for_uri uri ws) ++ ms
unfolding get_worker_for_uri notify_worker
get_worker-notify_self uri ms [] h = cc
get_worker-notify_self uri ms (w ∷ ws) h = ground (arith, h, get_worker-notify_self uri ms ws)

get_worker-notify_ne :
    (uri v : Text) (ms : List Message) (ws : List Worker)
    → text_eq v uri ≡ false
    → queue_of (get_worker_for_uri uri (notify_worker v ms ws))
      ≡ queue_of (get_worker_for_uri uri ws)
unfolding get_worker_for_uri notify_worker
get_worker-notify_ne uri v ms [] h = refl
get_worker-notify_ne uri v ms (w ∷ ws) h = ground (
  arith,
  h,
  text_eq_iff v w.uri,
  text_eq_iff uri w.uri,
  text_eq_iff v uri,
  get_worker-notify_ne uri v ms ws,
)

is_some-notify :
    (uri v : Text) (ms : List Message) (ws : List Worker)
    → is_some (get_worker_for_uri uri (notify_worker v ms ws)) ≡ is_some (get_worker_for_uri uri ws)
unfolding get_worker_for_uri notify_worker
is_some-notify uri v ms [] = refl
is_some-notify uri v ms (w ∷ ws) = ground (arith, is_some-notify uri v ms ws)

get_worker-notify :
    (uri v : Text) (m : Message) (ws : List Worker)
    → is_some (get_worker_for_uri uri ws) ≡ true
    → queue_of (get_worker_for_uri uri (notify_worker v (m ∷ []) ws))
      ≡ queue_of (get_worker_for_uri uri ws) ++ if_for uri v m
get_worker-notify uri v m ws h = elim (Bool-cases (text_eq v uri)) [
  | inl t ↦ rw t (
      subst
        (λ u.
          queue_of (get_worker_for_uri uri (notify_worker u (m ∷ []) ws))
          ≡ queue_of (get_worker_for_uri uri ws) ++ m ∷ [])
        (sym ((text_eq_iff v uri).0 t)) (get_worker-notify_self uri (m ∷ []) ws h))
  | inr t ↦ rw t (
      get_worker-notify_ne uri v (m ∷ []) ws t
      ∙ sym (append-nil (queue_of (get_worker_for_uri uri ws))))
]

route_known :
    (v : Text) (m : Message) (i : Inbox) (ws : List Worker)
    → i.workers ≡ some ws
    → is_some (get_worker_for_uri v ws) ≡ true
    → route_or_buffer v m i ≡ record i { workers = some (notify_worker v (m ∷ []) ws) }
unfolding route_or_buffer route_in
route_known v m i ws e k = rw (e, route_or_buffer, route_in, k) refl

route_unknown :
    (v : Text) (m : Message) (i : Inbox) (ws : List Worker)
    → i.workers ≡ some ws
    → is_some (get_worker_for_uri v ws) ≡ false
    → route_or_buffer v m i ≡ buffer v m i
unfolding route_or_buffer route_in
route_unknown v m i ws e k = rw (e, route_or_buffer, route_in, k) refl

IsServed-route :
    (uri v : Text) (m : Message) (i : Inbox) (q : List Message) (o : Option (List Message))
    → IsServed uri q o i
    → IsServed uri (q ++ if_for uri v m) o (route_or_buffer v m i)
IsServed-route uri v m i q o (ws, e, k, f, g) =
    elim (Bool-cases (is_some (get_worker_for_uri v ws))) [
      | inl t ↦ subst (IsServed uri (q ++ if_for uri v m) o) (sym (route_known v m i ws e t)) (
        notify_worker v (m ∷ []) ws,
        refl,
        is_some-notify uri v (m ∷ []) ws ∙ k,
        get_worker-notify uri v m ws k ∙ ap (λ x. x ++ if_for uri v m) f,
        g,
      )
      | inr t ↦ elim (Bool-cases (text_eq v uri)) [
        | inl c ↦
            absurd (cc (ap (λ u. is_some (get_worker_for_uri u ws)) ((text_eq_iff v uri).0 c)))
        | inr c ↦ subst (IsServed uri (q ++ if_for uri v m) o) (sym (route_unknown v m i ws e t)) (
          ws,
          buffer-workers v m i ∙ e,
          k,
          rw c (f ∙ sym (append-nil q)),
          buffer-get_ne uri v m i c ∙ g,
        )
      ]
    ]

IsServed-notices :
    (uri : Text) (ns : Notices) (i : Inbox) (q : List Message) (o : Option (List Message))
    → IsServed uri q o i
    → IsServed uri (q ++ for_uri uri ns) o (route_notices ns i)
unfolding route_notices for_uri
IsServed-notices uri [] i q o s = subst (λ x. IsServed uri x o i) (sym (append-nil q)) s
IsServed-notices uri ((v, m) ∷ ns) i q o s =
    subst (λ x. IsServed uri x o (route_notices ns (route_or_buffer v m i)))
      (append_assoc q (if_for uri v m) (for_uri uri ns)
        ∙ ap (λ x. q ++ x) (sym (for_uri-cons uri v m ns)))
      (IsServed-notices uri ns (route_or_buffer v m i) (q ++ if_for uri v m) o
        (IsServed-route uri v m i q o s))

move_buffer-some :
    (uri : Text) (i : Inbox) (ws : List Worker)
    → i.workers ≡ some ws
    → move_buffer uri i ≡ record i {
      workers = some (notify_worker uri (or_nothing (get uri i.buffers)) ws);
      buffers = without_key uri i.buffers;
    }
unfolding move_buffer drain_init_buffer
move_buffer-some uri i ws e = rw (e, move_buffer) refl

IsServed-move :
    (uri : Text) (i : Inbox) (q ms : List Message)
    → IsServed uri q (some ms) i
    → IsServed uri (q ++ ms) (get uri (without_key uri i.buffers)) (move_buffer uri i)
IsServed-move uri i q ms (ws, e, k, f, g) =
    subst (IsServed uri (q ++ ms) (get uri (without_key uri i.buffers)))
      (sym (move_buffer-some uri i ws e))
      (
        notify_worker uri (or_nothing (get uri i.buffers)) ws,
        refl,
        is_some-notify uri uri (or_nothing (get uri i.buffers)) ws ∙ k,
        get_worker-notify_self uri (or_nothing (get uri i.buffers)) ws k ∙ cc (f, ap or_nothing g),
        refl,
      )

-- While a pool starts, with a worker for a registered document whose queue is still empty, the worker
-- gets every notification for its document exactly once, and no other, whether it comes before the
-- pool is assigned, before the buffer is moved, or later: first those that came between these two
-- moments, then those from the buffer, then the later ones, each part in order.
pub open_document_delivers :
    (uri : Text) (ws : List Worker) (before between after : Notices) (i : Inbox)
    → i.workers ≡ none
    → is_some (get_worker_for_uri uri ws) ≡ true
    → queue_for uri (some ws) ≡ []
    → queue_for uri (open_document uri ws before between after i).workers
      ≡ for_uri uri between ++ (for_uri uri before ++ for_uri uri after)
unfolding open_document register_init_uri
open_document_delivers uri ws before between after i n k e =
    let a = register_init_uri uri i in
    let (none_yet, held) =
      IsWaiting-notices uri before a [] (n, get-put_key_self uri [] i.buffers) in
    let b = route_notices before a in
    let moved =
      IsServed-move uri (route_notices between (assign ws b)) (for_uri uri between)
        (for_uri uri before)
        (IsServed-notices uri between (assign ws b) [] (some (for_uri uri before))
          (ws, refl, k, e, held)) in
    let (vs, f, g, h, j) =
      IsServed-notices uri after (move_buffer uri (route_notices between (assign ws b)))
        (for_uri uri between ++ for_uri uri before) _ moved in
    ap (queue_for uri) f
    ∙ h
    ∙ append_assoc (for_uri uri between) (for_uri uri before) (for_uri uri after)
