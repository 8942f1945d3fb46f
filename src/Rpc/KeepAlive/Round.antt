-- ===== src/Rpc/KeepAlive/Round.antt =====
-- pyleaner/rpc_session.py: what a keep-alive round leaves of the sessions.
use py_leaner.Base.{
  ℕ, ◌≡◌, refl, ◌⊎◌, inl, inr, Bool, true, false, not, Option, none, some, List, [], ◌∷◌, arith,
  ◌==◌, if◌then◌else◌, keep, mem, All, Among, Among-append, Among-append_right, Bool-cases,
}
use py_leaner.Base.Text.{decimal}
use py_leaner.Task.{Error}
use py_leaner.Rpc.Session.{Sent, kept_alive, Link, Session, invalidate}
use py_leaner.Rpc.KeepAlive.{
  unregister, write_keep_alive, after_write, send_keep_alive, keep_alive, keep_alive_round,
}

-- A session after a round: it was not registered, or it is connected and its keep-alive has been
-- written with its id, or it is invalid and no longer registered.
abbrev pub IsSettled : List ℕ → Link → Session → Type 0
IsSettled ids l s =
    (mem s.worker_id ids ≡ false)
    ⊎ ((n : ℕ) × (s.session_id ≡ some n)
        × (s.connected ≡ true)
        × Among (kept_alive s.uri (decimal n)) l.sent)
    ⊎ ((mem s.worker_id l.registered ≡ false) × (s.session_id ≡ none) × (s.connected ≡ false))

mem-keep : (j k : ℕ) (ks : List ℕ) → mem j ks ≡ false → mem j (keep (λ i. not (i == k)) ks) ≡ false
mem-keep j k [] h = refl
mem-keep j k (i ∷ ks) h = ground (arith, mem-keep j k ks)

mem-dropped : (k : ℕ) (ks : List ℕ) → mem k (keep (λ i. not (i == k)) ks) ≡ false
mem-dropped k [] = refl
mem-dropped k (i ∷ ks) = ground (arith, mem-dropped k ks)

-- What later steps of a round keep: messages stay written, and no session is registered.
abbrev Extends : Link → Link → Type 0
Extends l l' =
    ((m : Sent) → Among m l.sent → Among m l'.sent)
    × ((k : ℕ) → mem k l.registered ≡ false → mem k l'.registered ≡ false)

unregister-Extends : (s : Session) (l : Link) → Extends l (unregister s l)
unfolding unregister
unregister-Extends s l = (λ m h. h, λ k h. mem-keep k s.worker_id l.registered h)

written-Extends :
    (b : Bool) (i : Option ℕ) (failure : Option Error) (s : Session) (l : Link)
    → Extends l (after_write (write_keep_alive b i failure s l)).1
unfolding write_keep_alive after_write
written-Extends true (some n) none s l =
    (λ m h. Among-append m l.sent (kept_alive s.uri (decimal n) ∷ []) h, λ k h. h)
written-Extends true (some n) (some e) s l = unregister-Extends (invalidate s) l
written-Extends true none failure s l = unregister-Extends s l
written-Extends false i failure s l = unregister-Extends s l

dropped-IsSettled :
    (ids : List ℕ) (s : Session) (l : Link) → IsSettled ids (unregister s l) (invalidate s)
unfolding unregister invalidate
dropped-IsSettled ids s l = inr (inr (mem-dropped s.worker_id l.registered, refl, refl))

written-IsSettled :
    (ids : List ℕ) (b : Bool) (i : Option ℕ) (failure : Option Error) (s : Session) (l : Link)
    → s.connected ≡ b
    → s.session_id ≡ i
    → let r = after_write (write_keep_alive b i failure s l) in IsSettled ids r.1 r.0
unfolding write_keep_alive after_write
written-IsSettled ids true (some n) none s l p q = inr (
    inl (
      n,
      q,
      p,
      Among-append_right (kept_alive s.uri (decimal n)) l.sent (kept_alive s.uri (decimal n) ∷ [])
          (inl refl),
    ))
written-IsSettled ids true (some n) (some e) s l p q = dropped-IsSettled ids (invalidate s) l
written-IsSettled ids true none failure s l p q = dropped-IsSettled ids s l
written-IsSettled ids false i failure s l p q = dropped-IsSettled ids s l

-- One session's turn, where it is registered and where it is not
abbrev turn : (ℕ → Option Error) → List ℕ → Session → Link → Session × Link
turn writes ids s l = if mem s.worker_id ids then keep_alive (writes s.worker_id) s l else (s, l)

turn-IsSettled :
    (writes : ℕ → Option Error) (ids : List ℕ) (s : Session) (l : Link)
    → IsSettled ids (turn writes ids s l).1 (turn writes ids s l).0
      × Extends l (turn writes ids s l).1
unfolding keep_alive send_keep_alive
turn-IsSettled writes ids s l = elim (Bool-cases (mem s.worker_id ids)) [
  | inl e ↦ rw e (
    written-IsSettled ids s.connected s.session_id (writes s.worker_id) s l refl refl,
    written-Extends s.connected s.session_id (writes s.worker_id) s l,
  )
  | inr e ↦ rw e (inl e, (λ m h. h, λ k h. h))
]

IsSettled-Extends :
    (ids : List ℕ) (s : Session) (l l' : Link)
    → Extends l l'
    → IsSettled ids l s
    → IsSettled ids l' s
IsSettled-Extends ids s l l' x (inl h) = inl h
IsSettled-Extends ids s l l' x (inr (inl (n, p, q, m))) = inr (inl (n, p, q, x.0 _ m))
IsSettled-Extends ids s l l' x (inr (inr (p, q, r))) = inr (inr (x.1 s.worker_id p, q, r))

round-Extends :
    (writes : ℕ → Option Error) (ids : List ℕ) (ss : List Session) (l : Link)
    → Extends l (keep_alive_round writes ids ss l).1
unfolding keep_alive_round
round-Extends writes ids [] l = (λ m h. h, λ k h. h)
round-Extends writes ids (s ∷ ss) l =
    let step = (turn-IsSettled writes ids s l).1 in
    let rest = round-Extends writes ids ss (turn writes ids s l).1 in
    (λ m h. rest.0 m (step.0 m h), λ k h. rest.1 k (step.1 k h))

-- After a round, each session of the pool that was registered when the round began is in one of two
-- states: it is connected, and a keep-alive with its document and its session id has been written;
-- or it has no session id, is not connected, and is no longer registered, so that the next call
-- connects again.
pub keep_alive_round-IsSettled :
    (writes : ℕ → Option Error) (ids : List ℕ) (ss : List Session) (l : Link)
    → All (IsSettled ids (keep_alive_round writes ids ss l).1) (keep_alive_round writes ids ss l).0
unfolding keep_alive_round
keep_alive_round-IsSettled writes ids [] l = tt
keep_alive_round-IsSettled writes ids (s ∷ ss) l =
    let next = (turn writes ids s l).1 in
    (
      IsSettled-Extends ids (turn writes ids s l).0 next (keep_alive_round writes ids ss next).1
          (round-Extends writes ids ss next) (turn-IsSettled writes ids s l).0,
      keep_alive_round-IsSettled writes ids ss next,
    )
