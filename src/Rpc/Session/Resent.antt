-- ===== src/Rpc/Session/Resent.antt =====
-- pyleaner/rpc_session.py: how often one call is written to the server.
use py_leaner.Base.{
  ℕ, suc, ◌+◌, ◌≤◌, ◌≡◌, refl, ◌⊎◌, inl, inr, Bool, true, false, ◌&&◌, Option, none, some, List, [],
  ◌∷◌, ◌++◌, arith, if◌then◌else◌, is_some,
}
use py_leaner.Base.Text.{Text, codes}
use py_leaner.Base.Json.{Json}
use py_leaner.Task.{Error, runtime_error}
use py_leaner.Rpc.Errors.{Failure, rpc, raised, classify_rpc_error}
use py_leaner.Rpc.Session.{
  Answer, unsent, unavailable, refused, result, expired, Opening, Reply, Sent, requested, called,
  kept_alive, notified, Link, Session, Call, Course, request, connect, call_with, call, attempt,
  conclude, rpc_call_once, ensure_connected, handle_failure, call_again, reconnect, take_session,
  register, loses_session, invalidate,
}

abbrev calls_in : List Sent → ℕ
calls_in [] = 0
calls_in (called id uri p n method params ∷ ms) = suc (calls_in ms)
calls_in (m ∷ ms) = calls_in ms

calls_in-append : (xs ys : List Sent) → calls_in (xs ++ ys) ≡ calls_in xs + calls_in ys
calls_in-append [] ys = omega arith
calls_in-append (requested id method params ∷ xs) ys = calls_in-append xs ys
calls_in-append (called id uri p n method params ∷ xs) ys = omega (arith, calls_in-append xs ys)
calls_in-append (kept_alive uri n ∷ xs) ys = calls_in-append xs ys
calls_in-append (notified method params ∷ xs) ys = calls_in-append xs ys

-- How many calls have been written.
abbrev pub calls : Link → ℕ
calls l = calls_in l.sent

-- The server has refused the call with an error of the session.
abbrev pub session_lost : Answer Reply → Bool
session_lost (refused o) = loses_session (rpc (classify_rpc_error o))
session_lost _ = false

calls-connect : (uri : Text) (a : Answer Opening) (l : Link) → calls (connect uri a l).0 ≡ calls l
unfolding connect request
calls-connect uri (unsent e) l = refl
calls-connect uri unavailable l = omega (arith, calls_in-append l.sent)
calls-connect uri (refused o) l = omega (arith, calls_in-append l.sent)
calls-connect uri (result o) l = omega (arith, calls_in-append l.sent)
calls-connect uri expired l = omega (arith, calls_in-append l.sent)

-- A single call is written at most once; it fails with an error of the session only where the
-- answer is one.
call_with_once :
    (c : Call) (a : Answer Reply) (s : Session) (n : ℕ) (l : Link)
    → (calls (call_with c a s n l).0 ≤ calls l + 1)
      × ((f : Failure) → (call_with c a s n l).1 ≡ inl f → loses_session f ≡ session_lost a)
unfolding call_with loses_session
call_with_once c (unsent e) s n l = (omega arith, λ f h. cc)
call_with_once c unavailable s n l = (omega (arith, calls_in-append l.sent), λ f h. cc)
call_with_once c (refused o) s n l = (omega (arith, calls_in-append l.sent), λ f h. cc)
call_with_once c (result r) s n l = (omega (arith, calls_in-append l.sent), λ f h. absurd (cc))
call_with_once c expired s n l = (omega (arith, calls_in-append l.sent), λ f h. cc)

-- What a single call leads to, in or out of a session
abbrev OnceAt : Answer Reply → Link → Link × (Failure ⊎ Json) → Type 0
OnceAt a l r =
    (calls r.0 ≤ calls l + 1)
    × ((f : Failure) → r.1 ≡ inl f → loses_session f ≡ true → session_lost a ≡ true)

rpc_call_once-OnceAt :
    (c : Call) (a : Answer Reply) (s : Session) (l : Link) → OnceAt a l (rpc_call_once c a s l)
unfolding rpc_call_once
rpc_call_once-OnceAt c a s l = by_session s.session_id
  where
    by_session :
        (o : Option ℕ)
        → OnceAt a l (elim o [
          | none ↦ (l, inl (raised (runtime_error (codes "Session ID is not set"))))
          | some n ↦ call_with c a s n l
        ])
    by_session none = (omega arith, λ f h k. absurd (unfold loses_session in cc))
    by_session (some n) = let once = call_with_once c a s n l in (once.0, λ f h k. cc (once.1 f h))

calls-register : (s : Session) (l : Link) → calls (register s l) ≡ calls l
calls-register s l = ground arith

call_again_once :
    (c : Call) (w : Course) (s : Session) (r : Link × (Error ⊎ ℕ))
    → calls (call_again c w (take_session s r)).1 ≤ calls r.0 + 1
unfolding call_again
call_again_once c w s (l, inl e) = omega arith
call_again_once c w s (l, inr n) =
    let session = record s { session_id = some n; connected = true } in
    omega (arith, rpc_call_once-OnceAt c w.second session (register s l), calls-register s l)

reconnect_once :
    (c : Call) (w : Course) (s : Session) (l : Link)
    → calls (call_again c w (reconnect w.reconnecting s l)).1 ≤ calls l + 1
unfolding reconnect
reconnect_once c w s l = omega (
  arith,
  call_again_once c w (invalidate s) (connect s.uri w.reconnecting l),
  calls-connect s.uri w.reconnecting l,
)

calls-handle_failure :
    (retry : Bool) (c : Call) (w : Course) (s : Session) (l : Link) (f : Failure)
    → calls (handle_failure retry c w s l f).1
      ≤ calls l + (if retry && loses_session f then 1 else 0)
unfolding handle_failure
calls-handle_failure retry c w s l f = ground (arith, reconnect_once c w (invalidate s) l)

calls-conclude :
    (retry : Bool) (c : Call) (w : Course) (s : Session) (l : Link) (r : Link × (Failure ⊎ Json))
    → OnceAt w.first l r
    → calls (conclude retry c w s r).1 ≤ calls l + (if retry && session_lost w.first then 2 else 1)
unfolding conclude
calls-conclude retry c w s l (l', inl f) h =
    ground (arith, calls-handle_failure retry c w s l' f, h.0, h.1 f refl)
calls-conclude retry c w s l (l', inr v) h = ground (arith, h.0)

calls-attempt :
    (retry : Bool) (c : Call) (w : Course) (s : Session) (l : Link)
    → calls (attempt retry c w (s, l, none)).1
      ≤ calls l + (if retry && session_lost w.first then 2 else 1)
unfolding attempt
calls-attempt retry c w s l =
    calls-conclude retry c w s l (rpc_call_once c w.first s l) (rpc_call_once-OnceAt c w.first s l)

calls-connected :
    (retry : Bool) (c : Call) (w : Course) (s : Session) (r : Link × (Error ⊎ ℕ))
    → calls (attempt retry c w (take_session s r)).1
      ≤ calls r.0 + (if retry && session_lost w.first then 2 else 1)
calls-connected retry c w s (l, inl e) = unfold attempt in ground arith
calls-connected retry c w s (l, inr n) = omega (
  arith,
  calls-attempt retry c w (record s { session_id = some n; connected = true }) (register s l),
  calls-register s l,
)

-- One use of `call` writes the call to the server at most once, and once more only where it may retry and
-- the server has refused the first with an error of the session: an expired session, or a Lean
-- worker that has exited or crashed. After any other answer the call is not written again.
pub call_resends :
    (retry : Bool) (c : Call) (w : Course) (s : Session) (l : Link)
    → calls (call retry c w s l).1 ≤ calls l + (if retry && session_lost w.first then 2 else 1)
unfolding call ensure_connected
call_resends retry c w s l = by_test (s.connected && is_some s.session_id)
  where
    by_test :
        (b : Bool)
        → calls
            (attempt retry c w
              (if b then (s, l, none) else take_session s (connect s.uri w.connecting l))).1
          ≤ calls l + (if retry && session_lost w.first then 2 else 1)
    by_test true = calls-attempt retry c w s l
    by_test false = omega (
      arith,
      calls-connected retry c w s (connect s.uri w.connecting l),
      calls-connect s.uri w.connecting l,
    )
