-- ===== src/Rpc/Session/Pending.antt =====
-- pyleaner/rpc_session.py: the table of pending requests after an RPC call.
use py_leaner.Base.{
  ℕ, ◌+◌, ◌≤◌, ◌≡◌, refl, ◌∙◌, ap, ◌⊎◌, inl, inr, Bool, true, false, ◌&&◌, is_some, none, some, [],
  ◌∷◌, ◌++◌, if◌then◌else◌,
}
use py_leaner.Base.Json.{Json}
use py_leaner.Task.{Error, service_unavailable}
use py_leaner.Rpc.Errors.{Failure, rpc, raised}
use py_leaner.Rpc.Session.{
  unsent, Link, Session, Call, Course, Outcome, connect, call, attempt, conclude, rpc_call_once,
  ensure_connected, handle_failure, call_again, reconnect, invalidate, take_session, register,
  loses_session,
}
use py_leaner.Rpc.Session.Tables.{
  Fresh, Connects, connect-Connects, Calls, register_keeps, register-Fresh, keep-Fresh,
  rpc_call_once-Calls,
}

-- What a whole call leaves of the table.
abbrev pub Leaves : Course → Link → Outcome → Type 0
Leaves w l o =
    (o.1.pending ≡ l.pending)
    ⊎ ((o.1.pending ≡ []) × (o.2 ≡ inl (raised service_unavailable)))
    ⊎ ((id : ℕ) × (e : Error) × (o.1.pending ≡ l.pending ++ id ∷ [])
        × (o.2 ≡ inl (raised e))
        × ((w.connecting ≡ unsent e) ⊎ (w.reconnecting ≡ unsent e)))

called-Leaves :
    (w : Course) (l l' : Link) (s : Session) (r : Link × (Failure ⊎ Json))
    → l'.pending ≡ l.pending
    → Calls l' r
    → Leaves w l (s, r.0, r.1)
called-Leaves w l l' s r p (inl h) = inl (h.0 ∙ p)
called-Leaves w l l' s r p (inr h) = inr (inl h)

call_again-Leaves :
    (c : Call) (w : Course) (s : Session) (l : Link) (r : Link × (Error ⊎ ℕ))
    → Fresh l
    → Connects l w.reconnecting r
    → Leaves w l (call_again c w (take_session s r))
unfolding call_again
call_again-Leaves c w s l (l', inl e) fresh (inl h) = inl h.0
call_again-Leaves c w s l (l', inl e) fresh (inr (inl h)) = inr (inl (h.0, cc))
call_again-Leaves c w s l (l', inl e) fresh (inr (inr (e', p, q, u))) =
    inr (inr (l.message_id + 1, e, p, refl, inr (u ∙ ap unsent (cc))))
call_again-Leaves c w s l (l', inr n) fresh (inl h) =
    let ready = register s l' in
    let session = record s { session_id = some n; connected = true } in
    called-Leaves w l ready session (rpc_call_once c w.second session ready)
      ((register_keeps s l').0 ∙ h.0)
      (rpc_call_once-Calls c w.second session ready
        (register-Fresh s l' (keep-Fresh l l' h.0 h.1 fresh)))
call_again-Leaves c w s l (l', inr n) fresh (inr (inl h)) = absurd (cc)
call_again-Leaves c w s l (l', inr n) fresh (inr (inr h)) = absurd (cc)

Leaves-same :
    (w : Course) (l l' : Link) (o : Outcome) → l'.pending ≡ l.pending → Leaves w l' o → Leaves w l o
Leaves-same w l l' o p (inl h) = inl (h ∙ p)
Leaves-same w l l' o p (inr (inl h)) = inr (inl h)
Leaves-same w l l' o p (inr (inr (id, e, q, r, h))) =
    inr (inr (id, e, q ∙ ap (λ ks. ks ++ id ∷ []) p, r, h))

reconnect-Leaves :
    (c : Call) (w : Course) (s : Session) (l : Link)
    → Fresh l
    → Leaves w l (call_again c w (reconnect w.reconnecting s l))
unfolding reconnect
reconnect-Leaves c w s l fresh =
    call_again-Leaves c w (invalidate s) l (connect s.uri w.reconnecting l) fresh
      (connect-Connects l fresh s.uri w.reconnecting)

lost_kept :
    (f : Failure) (l l' : Link)
    → loses_session f ≡ true
    → Calls l (l', inl f)
    → (l'.pending ≡ l.pending) × (l.message_id ≤ l'.message_id)
unfolding loses_session
lost_kept f l l' h (inl k) = k
lost_kept (rpc e) l l' h (inr k) = absurd (cc)
lost_kept (raised e) l l' h (inr k) = absurd (cc)

handle_failure-Leaves :
    (retry : Bool) (c : Call) (w : Course) (s : Session) (l l' : Link) (f : Failure)
    → Fresh l
    → Calls l (l', inl f)
    → Leaves w l (handle_failure retry c w s l' f)
unfolding handle_failure
handle_failure-Leaves retry c w s l l' f fresh h = by_class (loses_session f) retry refl
  where
    by_class :
        (b retry : Bool)
        → loses_session f ≡ b
        → Leaves w l (
            if b
            then if retry
              then call_again c w (reconnect w.reconnecting (invalidate s) l')
              else (invalidate s, l', inl f)
            else (s, l', inl f))
    by_class false retry e = called-Leaves w l l s (l', inl f) refl h
    by_class true false e = called-Leaves w l l (invalidate s) (l', inl f) refl h
    by_class true true e =
        let kept = lost_kept f l l' e h in
        Leaves-same w l l' (call_again c w (reconnect w.reconnecting (invalidate s) l')) kept.0
          (reconnect-Leaves c w (invalidate s) l' (keep-Fresh l l' kept.0 kept.1 fresh))

conclude-Leaves :
    (retry : Bool) (c : Call) (w : Course) (s : Session) (l : Link) (r : Link × (Failure ⊎ Json))
    → Fresh l
    → Calls l r
    → Leaves w l (conclude retry c w s r)
unfolding conclude
conclude-Leaves retry c w s l (l', inl f) fresh h = handle_failure-Leaves retry c w s l l' f fresh h
conclude-Leaves retry c w s l (l', inr v) fresh h = called-Leaves w l l s (l', inr v) refl h

attempt-Leaves :
    (retry : Bool) (c : Call) (w : Course) (s : Session) (l : Link)
    → Fresh l
    → Leaves w l (attempt retry c w (s, l, none))
unfolding attempt
attempt-Leaves retry c w s l fresh =
    conclude-Leaves retry c w s l (rpc_call_once c w.first s l) fresh
      (rpc_call_once-Calls c w.first s l fresh)

-- A call that had to connect first
connected-Leaves :
    (retry : Bool) (c : Call) (w : Course) (s : Session) (l : Link) (r : Link × (Error ⊎ ℕ))
    → Fresh l
    → Connects l w.connecting r
    → Leaves w l (attempt retry c w (take_session s r))
unfolding attempt
connected-Leaves retry c w s l (l', inl e) fresh (inl h) = inl h.0
connected-Leaves retry c w s l (l', inl e) fresh (inr (inl h)) = inr (inl (h.0, cc))
connected-Leaves retry c w s l (l', inl e) fresh (inr (inr (e', p, q, u))) =
    inr (inr (l.message_id + 1, e, p, refl, inl (u ∙ ap unsent (cc))))
connected-Leaves retry c w s l (l', inr n) fresh (inl h) =
    let session = record s { session_id = some n; connected = true } in
    Leaves-same w l (register s l') (attempt retry c w (session, register s l', none))
      ((register_keeps s l').0 ∙ h.0)
      (attempt-Leaves retry c w session (register s l')
        (register-Fresh s l' (keep-Fresh l l' h.0 h.1 fresh)))
connected-Leaves retry c w s l (l', inr n) fresh (inr (inl h)) = absurd (cc)
connected-Leaves retry c w s l (l', inr n) fresh (inr (inr h)) = absurd (cc)

-- While no id that the counter has yet to give is in the table of pending requests, a call leaves
-- the table as it found it, with two exceptions: a restart of the server empties it, and the call
-- then raises `ServiceUnavailable`; where a connect request could not be written, its id stays in
-- the table, and the call raises that error.
pub call-pending :
    (retry : Bool) (c : Call) (w : Course) (s : Session) (l : Link)
    → Fresh l
    → Leaves w l (call retry c w s l)
unfolding call ensure_connected
call-pending retry c w s l fresh = by_test (s.connected && is_some s.session_id)
  where
    by_test :
        (b : Bool)
        → Leaves w l (
            attempt retry c w
              (if b then (s, l, none) else take_session s (connect s.uri w.connecting l)))
    by_test true = attempt-Leaves retry c w s l fresh
    by_test false =
        connected-Leaves retry c w s l (connect s.uri w.connecting l) fresh
          (connect-Connects l fresh s.uri w.connecting)
