-- ===== src/Rpc/KeepAlive.antt =====
-- pyleaner/rpc_session.py, lines 92 to 158 and 245 to 279: the keep-alive manager. A round takes
-- the registered sessions in the order of the pool; the manager's set has no order.
pub mod Round
use py_leaner.Base.{
  ℕ, Bool, true, false, not, Option, none, some, List, [], ◌∷◌, ◌++◌, ◌==◌, if◌then◌else◌, keep,
  mem,
}
use py_leaner.Base.Text.{Text, decimal}
use py_leaner.Task.{Error}
use py_leaner.Rpc.Session.{Sent, kept_alive, Link, Session, invalidate}

-- `KeepAliveManager.unregister`
unfoldable pub unregister : Session → Link → Link
unregister s l = record l { registered = keep (λ k. not (k == s.worker_id)) l.registered }

-- The message is written where the session is connected and has an id; the option is what writing it
-- raises.
unfoldable pub write_keep_alive :
    Bool → Option ℕ → Option Error → Session → Link → Session × Link × Bool
write_keep_alive true (some n) none s l =
    (s, record l { sent = l.sent ++ kept_alive s.uri (decimal n) ∷ [] }, true)
write_keep_alive true (some n) (some e) s l = (invalidate s, l, false)
write_keep_alive true none failure s l = (s, l, false)
write_keep_alive false i failure s l = (s, l, false)

-- `_send_keep_alive`
unfoldable pub send_keep_alive : Option Error → Session → Link → Session × Link × Bool
send_keep_alive failure s l = write_keep_alive s.connected s.session_id failure s l

unfoldable pub after_write : Session × Link × Bool → Session × Link
after_write (s, l, success) = if success then (s, l) else (invalidate s, unregister s l)

-- The body of the loop: a session that could not be kept alive is invalidated and unregistered.
unfoldable pub keep_alive : Option Error → Session → Link → Session × Link
keep_alive failure s l = after_write (send_keep_alive failure s l)

-- One round over the pool's sessions, with the ids that are registered when it begins, and what each
-- write raises.
unfoldable pub keep_alive_round :
    (ℕ → Option Error) → List ℕ → List Session → Link → List Session × Link
keep_alive_round writes ids [] l = ([], l)
keep_alive_round writes ids (s ∷ ss) l =
    let (s', l') = if mem s.worker_id ids then keep_alive (writes s.worker_id) s l else (s, l) in
    let (ss', l'') = keep_alive_round writes ids ss l' in (s' ∷ ss', l'')
