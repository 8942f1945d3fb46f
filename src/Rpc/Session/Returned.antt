-- ===== src/Rpc/Session/Returned.antt =====
-- pyleaner/rpc_session.py: where the value of an RPC call comes from, and how often it is sent.
use py_leaner.Base.{
  ℕ, ◌+◌, ◌≡◌, refl, sym, ◌∙◌, ap, subst, ◌⊎◌, inl, inr, Bool, true, false, ◌&&◌, Option, none,
  some, List, [], ◌∷◌, ◌++◌, if◌then◌else◌, is_some,
}
use py_leaner.Base.Text.{codes}
use py_leaner.Base.Json.{Json}
use py_leaner.Task.{Error, runtime_error}
use py_leaner.Rpc.Errors.{Failure, raised}
use py_leaner.Rpc.Session.{
  Answer, unsent, unavailable, refused, result, expired, Reply, decoded, Sent, Link, Session, Call,
  Course, call_message, connect, call_with, call, attempt, conclude, rpc_call_once,
  ensure_connected, handle_failure, call_again, reconnect, invalidate, take_session, register,
  loses_session,
}

-- The value is the server's reply to the last message that was written, a call in the session that
-- the worker then has.
abbrev pub Answered : Call → Course → Json → Session → Link → Type 0
Answered c w v s l =
    (n id : ℕ) × (before : List Sent) × (r : Reply) × (s.session_id ≡ some n)
    × (s.connected ≡ true)
    × (l.sent ≡ before ++ call_message c id s n ∷ [])
    × (v ≡ decoded r)
    × ((w.first ≡ result r) ⊎ (w.second ≡ result r))

-- The same for one call, whichever of the answers it had.
abbrev Replies : Call → Answer Reply → Session → ℕ → Json → Link → Type 0
Replies c a s n v l =
    (id : ℕ) × (before : List Sent) × (r : Reply) × (l.sent ≡ before ++ call_message c id s n ∷ [])
    × (v ≡ decoded r)
    × (a ≡ result r)

call_with-Replies :
    (c : Call) (a : Answer Reply) (s : Session) (n : ℕ) (l : Link) (v : Json)
    → (call_with c a s n l).1 ≡ inr v
    → Replies c a s n v (call_with c a s n l).0
unfolding call_with
call_with-Replies c (unsent e) s n l v h = absurd (cc)
call_with-Replies c unavailable s n l v h = absurd (cc)
call_with-Replies c (refused o) s n l v h = absurd (cc)
call_with-Replies c (result r) s n l v h = (l.message_id + 1, l.sent, r, refl, cc, refl)
call_with-Replies c expired s n l v h = absurd (cc)

rpc_call_once_live :
    (c : Call) (a : Answer Reply) (s : Session) (n : ℕ) (l : Link)
    → s.session_id ≡ some n
    → rpc_call_once c a s l ≡ call_with c a s n l
unfolding rpc_call_once
rpc_call_once_live c a s n l e =
    ap
      (λ o. elim o [
        | none ↦ (l, inl (raised (runtime_error (codes "Session ID is not set"))))
        | some n ↦ call_with c a s n l
      ])
      e

rpc_call_once-Replies :
    (c : Call) (a : Answer Reply) (s : Session) (n : ℕ) (l : Link) (v : Json)
    → s.session_id ≡ some n
    → (rpc_call_once c a s l).1 ≡ inr v
    → Replies c a s n v (rpc_call_once c a s l).0
rpc_call_once-Replies c a s n l v e h =
    let same = rpc_call_once_live c a s n l e in
    subst (λ r. Replies c a s n v r.0) (sym same)
      (call_with-Replies c a s n l v (sym (ap (λ r. r.1) same) ∙ h))

call_again-Answered :
    (c : Call) (w : Course) (s : Session) (r : Link × (Error ⊎ ℕ)) (v : Json)
    → (call_again c w (take_session s r)).2 ≡ inr v
    → Answered c w v (call_again c w (take_session s r)).0 (call_again c w (take_session s r)).1
unfolding call_again
call_again-Answered c w s (l, inl e) v h = absurd (cc)
call_again-Answered c w s (l, inr n) v h =
    let session = record s { session_id = some n; connected = true } in
    let (id, before, reply, p, q, a) =
      rpc_call_once-Replies c w.second session n (register s l) v refl h in
    (n, id, before, reply, refl, refl, p, q, inr a)

handle_failure-Answered :
    (retry : Bool) (c : Call) (w : Course) (s : Session) (l : Link) (f : Failure) (v : Json)
    → (handle_failure retry c w s l f).2 ≡ inr v
    → Answered c w v (handle_failure retry c w s l f).0 (handle_failure retry c w s l f).1
unfolding handle_failure reconnect
handle_failure-Answered retry c w s l f v = by_class (loses_session f) retry
  where
    by_class :
        (lost retry : Bool)
        → let o =
            if lost
            then if retry
              then call_again c w (
                  take_session
                    (invalidate (invalidate s))
                    (connect (invalidate s).uri w.reconnecting l))
              else (invalidate s, l, inl f)
            else (s, l, inl f) in
          o.2 ≡ inr v → Answered c w v o.0 o.1
    by_class false retry h = absurd (cc)
    by_class true false h = absurd (cc)
    by_class true true h =
        call_again-Answered c w (invalidate (invalidate s))
          (connect (invalidate s).uri w.reconnecting l) v h

conclude-Answered :
    (retry : Bool) (c : Call) (w : Course) (s : Session) (n : ℕ) (r : Link × (Failure ⊎ Json))
    (v : Json)
    → s.session_id ≡ some n
    → s.connected ≡ true
    → (r.1 ≡ inr v → Replies c w.first s n v r.0)
    → (conclude retry c w s r).2 ≡ inr v
    → Answered c w v (conclude retry c w s r).0 (conclude retry c w s r).1
unfolding conclude
conclude-Answered retry c w s n (l, inl f) v e k g h = handle_failure-Answered retry c w s l f v h
conclude-Answered retry c w s n (l, inr u) v e k g h =
    let (id, before, reply, p, q, a) = g h in (n, id, before, reply, e, k, p, q, inl a)

attempt-Answered :
    (retry : Bool) (c : Call) (w : Course) (s : Session) (n : ℕ) (l : Link) (v : Json)
    → s.session_id ≡ some n
    → s.connected ≡ true
    → (attempt retry c w (s, l, none)).2 ≡ inr v
    → Answered c w v (attempt retry c w (s, l, none)).0 (attempt retry c w (s, l, none)).1
unfolding attempt
attempt-Answered retry c w s n l v e k =
    conclude-Answered retry c w s n (rpc_call_once c w.first s l) v e k
      (rpc_call_once-Replies c w.first s n l v e)

connected-Answered :
    (retry : Bool) (c : Call) (w : Course) (s : Session) (r : Link × (Error ⊎ ℕ)) (v : Json)
    → (attempt retry c w (take_session s r)).2 ≡ inr v
    → Answered c w v
        (attempt retry c w (take_session s r)).0
        (attempt retry c w (take_session s r)).1
connected-Answered retry c w s (l, inl e) v h = absurd (unfold attempt in cc)
connected-Answered retry c w s (l, inr n) v h =
    attempt-Answered retry c w (record s { session_id = some n; connected = true }) n (register s l)
      v refl refl h

-- Where a call returns a value, that value is the server's reply to the message that was written
-- last; this message is the call, by its document, method, parameters and position, and it carries
-- the id of the session that the worker then has, which is connected.
pub call-Answered :
    (retry : Bool) (c : Call) (w : Course) (s : Session) (l : Link) (v : Json)
    → (call retry c w s l).2 ≡ inr v
    → Answered c w v (call retry c w s l).0 (call retry c w s l).1
unfolding call ensure_connected
call-Answered retry c w s l v = by_test s.connected s.session_id refl refl
  where
    by_test :
        (b : Bool) (i : Option ℕ)
        → s.connected ≡ b
        → s.session_id ≡ i
        → let o = attempt retry c w (
            if b && is_some i
            then (s, l, none)
            else take_session s (connect s.uri w.connecting l)) in
          o.2 ≡ inr v → Answered c w v o.0 o.1
    by_test true (some n) p q h = attempt-Answered retry c w s n l v q p h
    by_test true none p q h = connected-Answered retry c w s (connect s.uri w.connecting l) v h
    by_test false i p q h = connected-Answered retry c w s (connect s.uri w.connecting l) v h
