-- ===== src/Rpc/Session/Tables.antt =====
-- pyleaner/rpc_session.py: the table of pending requests after a connect and after a single call.
use py_leaner.Base.{
  ℕ, ◌+◌, ◌≤◌, ◌<◌, ◌≡◌, refl, ◌⊎◌, inl, inr, false, Option, none, some, List, [], ◌∷◌, ◌++◌, arith,
  mem,
}
use py_leaner.Base.Text.{Text, codes}
use py_leaner.Base.Json.{Json}
use py_leaner.Task.{Error, service_unavailable, runtime_error}
use py_leaner.Rpc.Errors.{Failure, raised}
use py_leaner.Rpc.Session.{
  Answer, unsent, unavailable, refused, result, expired, Opening, Reply, Link, Session, Call,
  pop_pending, register_pending, request, connect, opening_of, call_with, rpc_call_once, register,
}

keep-absent : (id : ℕ) (ks : List ℕ) → mem id ks ≡ false → pop_pending id ks ≡ ks
keep-absent id [] h = refl
keep-absent id (k ∷ ks) h = ground (arith, keep-absent id ks)

pop-append : (id : ℕ) (ks : List ℕ) → mem id ks ≡ false → pop_pending id (ks ++ id ∷ []) ≡ ks
pop-append id [] h = ground arith
pop-append id (k ∷ ks) h = ground (arith, pop-append id ks)

pop-register :
    (id : ℕ) (ks : List ℕ) → mem id ks ≡ false → pop_pending id (register_pending id ks) ≡ ks
pop-register id ks h = rw h (pop-append id ks h)

-- No id that the counter has yet to give is in the table.
abbrev pub Fresh : Link → Type 0
Fresh l = (k : ℕ) → l.message_id < k → mem k l.pending ≡ false

-- What a connect leaves of the table.
abbrev pub Connects : Link → Answer Opening → Link × (Error ⊎ ℕ) → Type 0
Connects l a r =
    ((r.0.pending ≡ l.pending) × (l.message_id ≤ r.0.message_id))
    ⊎ ((r.0.pending ≡ []) × (r.1 ≡ inl service_unavailable))
    ⊎ ((e : Error) × (r.0.pending ≡ l.pending ++ (l.message_id + 1) ∷ [])
        × (r.1 ≡ inl e)
        × (a ≡ unsent e))

-- What a single call leaves of the table.
abbrev pub Calls : Link → Link × (Failure ⊎ Json) → Type 0
Calls l r =
    ((r.0.pending ≡ l.pending) × (l.message_id ≤ r.0.message_id))
    ⊎ ((r.0.pending ≡ []) × (r.1 ≡ inl (raised service_unavailable)))

module _ (l : Link) (fresh : Fresh l) where
  fresh_next : mem (l.message_id + 1) l.pending ≡ false
  fresh_next = fresh (l.message_id + 1) (omega arith)

  pub connect-Connects : (uri : Text) (a : Answer Opening) → Connects l a (connect uri a l)
  unfolding connect request opening_of
  connect-Connects uri (unsent e) = inr (inr (e, rw fresh_next refl, refl, refl))
  connect-Connects uri unavailable = inr (inl (refl, refl))
  connect-Connects uri (refused o) =
      inl (pop-register (l.message_id + 1) l.pending fresh_next, omega arith)
  connect-Connects uri (result o) =
      inl (pop-register (l.message_id + 1) l.pending fresh_next, omega arith)
  connect-Connects uri expired =
      inl (pop-register (l.message_id + 1) l.pending fresh_next, omega arith)

  call_with-Calls :
      (c : Call) (a : Answer Reply) (s : Session) (n : ℕ) → Calls l (call_with c a s n l)
  unfolding call_with
  call_with-Calls c (unsent e) s n =
      inl (pop-register (l.message_id + 1) l.pending fresh_next, omega arith)
  call_with-Calls c unavailable s n = inr (refl, refl)
  call_with-Calls c (refused o) s n =
      inl (pop-register (l.message_id + 1) l.pending fresh_next, omega arith)
  call_with-Calls c (result r) s n =
      inl (pop-register (l.message_id + 1) l.pending fresh_next, omega arith)
  call_with-Calls c expired s n =
      inl (pop-register (l.message_id + 1) l.pending fresh_next, omega arith)

pub register_keeps :
    (s : Session) (l : Link)
    → ((register s l).pending ≡ l.pending) × ((register s l).message_id ≡ l.message_id)
register_keeps s l = ground arith

pub register-Fresh : (s : Session) (l : Link) → Fresh l → Fresh (register s l)
register-Fresh s l fresh = ground (arith, fresh)

pub keep-Fresh :
    (l l' : Link) → l'.pending ≡ l.pending → l.message_id ≤ l'.message_id → Fresh l → Fresh l'
keep-Fresh l l' p n fresh = λ k h. rw p (fresh k (omega arith))

pub rpc_call_once-Calls :
    (c : Call) (a : Answer Reply) (s : Session) (l : Link)
    → Fresh l
    → Calls l (rpc_call_once c a s l)
unfolding rpc_call_once
rpc_call_once-Calls c a s l fresh = by_session s.session_id
  where
    by_session :
        (o : Option ℕ)
        → Calls l (elim o [
          | none ↦ (l, inl (raised (runtime_error (codes "Session ID is not set"))))
          | some n ↦ call_with c a s n l
        ])
    by_session none = inl (refl, omega arith)
    by_session (some n) = call_with-Calls l fresh c a s n
