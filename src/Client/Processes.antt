-- ===== src/Client/Processes.antt =====
-- pyleaner/client.py, lines 36 to 69, 318 to 344 and 630 to 645: the server processes that a client
-- starts, and how they are killed when it exits or the interpreter ends. A signal that cannot be sent
-- is ignored, and is listed like the others.
pub mod Reaped
use py_leaner.Base.{
  ℕ, Bool, true, false, not, Option, none, some, List, [], ◌∷◌, ◌++◌, ◌==◌, if◌then◌else◌, keep,
  mem,
}
use py_leaner.Task.{Error}
use py_leaner.Watchdog.Processes.{collect_descendants, kill_process_tree}

-- `_CHILD_ROOT_PIDS`, `self.process`, the processes that were sent SIGKILL, in order, and the server
-- processes that had ended when they were to be killed.
pub record Server : Type 0 where
  pub registry : List ℕ
  pub process : Option ℕ
  pub killed : List ℕ
  pub ended : List ℕ

-- `set.add`
abbrev pub add_pid : ℕ → List ℕ → List ℕ
add_pid pid pids = if mem pid pids then pids else pid ∷ pids

-- `set.discard`
abbrev pub discard_pid : ℕ → List ℕ → List ℕ
discard_pid pid pids = keep (λ p. not (p == pid)) pids

-- `start`, with the id of the new process
unfoldable pub start : ℕ → Server → Server
start pid s = record s { registry = add_pid pid s.registry; process = some pid }

-- What `exit` meets: what the notification raises, if anything, the processes below the server,
-- whether it has ended, and the orphans.
pub record Exit : Type 0 where
  pub notify_error : Option Error
  pub descendants : List ℕ
  pub dead : Bool
  pub orphans : List ℕ

unfoldable pub kill_server : Exit → Option ℕ → Server → Server
kill_server x none s = s
kill_server x (some pid) s = record s {
  registry = discard_pid pid s.registry;
  killed = s.killed ++ kill_process_tree x.descendants [] pid x.dead x.orphans;
  ended = if x.dead then pid ∷ s.ended else s.ended;
}

-- `exit`, with what it raises
unfoldable pub exit : Exit → Server → Server × Option Error
exit x s = elim x.notify_error [ some e ↦ (s, some e) | none ↦ (kill_server x s.process s, none) ]

-- One root process of the registry: what is below it, then the root
unfoldable pub reap_root : (ℕ → List (Option ℕ)) → ℕ → ℕ → Option (List ℕ)
reap_root children fuel root = elim (collect_descendants children fuel root) [
  | none ↦ none
  | some ds ↦ some (ds ++ root ∷ [])
]

abbrev pub both : Option (List ℕ) → Option (List ℕ) → Option (List ℕ)
both none o = none
both (some xs) none = none
both (some xs) (some ys) = some (xs ++ ys)

unfoldable pub reap_all : (ℕ → List (Option ℕ)) → ℕ → List ℕ → Option (List ℕ)
reap_all children fuel [] = some []
reap_all children fuel (root ∷ roots) =
    both (reap_root children fuel root) (reap_all children fuel roots)

-- `_cleanup_lean_processes`, with the orphans that are found at its end; `none` where the fuel of a
-- search runs out.
unfoldable pub cleanup_lean_processes : (ℕ → List (Option ℕ)) → ℕ → List ℕ → Server → Option Server
cleanup_lean_processes children fuel orphans s = elim (reap_all children fuel s.registry) [
  | none ↦ none
  | some pids ↦ some (record s { registry = []; killed = s.killed ++ (pids ++ orphans) })
]

-- What happens to a client: a server is started, by `connect` or after a failure, or it exits.
pub data Step : Type 0 where
  starts : ℕ → Step
  exits : Exit → Step

unfoldable pub run_steps : List Step → Server → Server
run_steps [] s = s
run_steps (starts pid ∷ steps) s = run_steps steps (start pid s)
run_steps (exits x ∷ steps) s = run_steps steps (exit x s).0
