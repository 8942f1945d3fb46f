-- ===== src/Watchdog/Guards.antt =====
-- pyleaner/watchdog.py, lines 475 to 529 and 878 to 939: the scopes that are made for the workers of a
-- new pool. What busctl and systemctl do, and which workers are found, is given.
pub mod Tracked
pub mod Clean
pub mod Complete
pub mod Below
use py_leaner.Base.{
  ℕ, zero, suc, ◌+◌, Bool, true, false, not, Option, none, some, List, [], ◌∷◌, ◌++◌, if◌then◌else◌,
  keep,
}
use py_leaner.Base.Text.{Text, codes}
use py_leaner.Base.Dict.{Dict, lookup, insert, has_key, values}
use py_leaner.Watchdog.Types.{Guard, Command}
use py_leaner.Watchdog.Recovery.{Owner, stop_worker_scopes}

-- A call of `subprocess.run`: it raises, without an effect of the command or after it (the command is
-- cut short at its timeout); or it returns with or without success and with an output, whose blanks at
-- the ends are off.
pub data Call : Type 0 where
  raises cut_short : Call
  returns : Bool → Text → Call

-- What happens when a worker's process is put into a scope: the unit's name, the calls that start and
-- show it, and the number in its memory events, if it can be read.
pub record Adoption : Type 0 where
  pub unit : Text
  pub busctl : Call
  pub show : Call
  pub oom_kill : Option ℕ

-- The ends of `_systemd_scope_for_pid`: the scope's path; or an exception, with no scope, with a scope
-- that has been stopped, or with one that has been started and not stopped.
pub data ScopeEnd : Type 0 where
  made : Text → ScopeEnd
  not_made stopped left : ScopeEnd

unfoldable pub shown_scope : Call → ScopeEnd
shown_scope raises = left
shown_scope cut_short = left
shown_scope (returns false path) = stopped
shown_scope (returns true []) = stopped
shown_scope (returns true (c ∷ path)) = made (codes "/sys/fs/cgroup" ++ c ∷ path)

unfoldable pub started_scope : Call → Call → ScopeEnd
started_scope raises show = not_made
started_scope cut_short show = left
started_scope (returns false output) show = not_made
started_scope (returns true output) show = shown_scope show

-- `_systemd_scope_for_pid`
unfoldable pub systemd_scope_for_pid : Adoption → ScopeEnd
systemd_scope_for_pid a = started_scope a.busctl a.show

-- `_read_oom_kill(cgroup_path) or 0`
abbrev pub or_zero : Option ℕ → ℕ
or_zero none = 0
or_zero (some n) = n

-- The loop over the workers: what it has created, the scopes that were started, those that were
-- stopped, and whether it has raised.
pub record Creation : Type 0 where
  pub created : Dict Guard
  pub started : List Text
  pub released : List Text
  pub raised : Bool

unfoldable pub created_units : Dict Guard → List Text
created_units [] = []
created_units ((w, g) ∷ gs) = g.unit ∷ created_units gs

-- The `except`: every scope that the loop has made is stopped.
unfoldable pub abandon : Creation → Creation
abandon c = record c { released = c.released ++ created_units c.created; raised = true }

unfoldable pub add_guard : ℕ → ℕ → Text → Text → ℕ → Creation → Creation
add_guard worker pid unit path oom c = record c {
  created =
      insert worker (record { pid = pid; unit = unit; cgroup_path = path; oom_kill = oom })
        c.created;
}

unfoldable pub adopt : ℕ → ℕ → Adoption → ScopeEnd → Creation → Creation
adopt worker pid a (made path) c =
    add_guard worker pid a.unit path (or_zero a.oom_kill)
      (record c { started = c.started ++ a.unit ∷ [] })
adopt worker pid a not_made c = abandon c
adopt worker pid a stopped c =
    abandon (record c { started = c.started ++ a.unit ∷ []; released = c.released ++ a.unit ∷ [] })
adopt worker pid a left c = abandon (record c { started = c.started ++ a.unit ∷ [] })

-- One turn of the loop, with and without limits on the memory
unfoldable pub create : Bool → (ℕ → Adoption) → ℕ → ℕ → Creation → Creation
create true adoption worker pid c =
    adopt worker pid (adoption worker) (systemd_scope_for_pid (adoption worker)) c
create false adoption worker pid c = add_guard worker pid [] [] 0 c

-- The ids are those that have been found, so that `worker_pids[worker_id]` is there.
unfoldable pub create_all : Bool → (ℕ → Adoption) → List (ℕ × ℕ) → Creation → Creation
create_all limited adoption [] c = c
create_all limited adoption ((worker, pid) ∷ found) c =
    let d = create limited adoption worker pid c in
    elim d.raised [ true ↦ d | false ↦ create_all limited adoption found d ]

-- The ids from the first on, as many as are asked for: from 1 on they are `range(1, size + 1)`.
unfoldable pub ids_from : ℕ → ℕ → List ℕ
ids_from first zero = []
ids_from first (suc n) = first ∷ ids_from (suc first) n

unfoldable pub missing_in : Dict ℕ → List ℕ → List ℕ
missing_in pids ids = keep (λ w. not (has_key w pids)) ids

-- The polls before the deadline: the first that finds all workers, else the last.
unfoldable pub poll_workers : List ℕ → Dict ℕ → List (Dict ℕ) → Dict ℕ
poll_workers ids last [] = last
poll_workers ids last (pids ∷ polls) = elim (missing_in pids ids) [
  | [] ↦ pids
  | _ ∷ _ ↦ poll_workers ids pids polls
]

unfoldable pub pairs_of : Dict ℕ → List ℕ → List (ℕ × ℕ)
pairs_of pids [] = []
pairs_of pids (w ∷ ws) = elim (lookup w pids) [
  | none ↦ pairs_of pids ws
  | some pid ↦ (w, pid) ∷ pairs_of pids ws
]

-- The ends of `attach_worker_guards`: it raises since the server is dead, since a worker is not found,
-- or since a scope is not made; or it returns with a warning, or with the guards.
pub data AttachEnd : Type 0 where
  dead_server : AttachEnd
  cannot_locate : List ℕ → AttachEnd
  not_guarded : AttachEnd
  warned : List ℕ → AttachEnd
  attached : AttachEnd

pub record Attached : Type 0 where
  pub owner : Owner
  pub started : List Text
  pub end : AttachEnd

-- Behind the loop, by whether it has raised
unfoldable pub finish_with : Bool → Creation → Owner → Attached
finish_with true c o = record {
  owner = record o { stopped = o.stopped ++ c.released };
  started = c.started;
  end = not_guarded;
}
finish_with false c o = record {
  owner = record o {
    worker_scopes = c.created;
    sent = o.sent ++ Command.guards o.generation c.created ∷ [];
  };
  started = c.started;
  end = attached;
}

abbrev pub finish : Creation → Owner → Attached
finish c o = finish_with c.raised c o

abbrev pub nothing_created : Creation
nothing_created = record { created = []; started = []; released = []; raised = false }

unfoldable pub attach_found : Bool → (ℕ → Adoption) → List ℕ → Dict ℕ → List ℕ → Owner → Attached
attach_found limited adoption ids pids [] o =
    finish (create_all limited adoption (pairs_of pids ids) nothing_created) (stop_worker_scopes o)
attach_found true adoption ids pids (w ∷ ws) o = record {
  owner = o;
  started = [];
  end = cannot_locate (w ∷ ws);
}
attach_found false adoption ids pids (w ∷ ws) o = record {
  owner = o;
  started = [];
  end = warned (w ∷ ws);
}

-- `attach_worker_guards`: whether the server is alive, whether there are limits on the memory, the
-- number of workers, and what each poll finds
unfoldable pub attach_worker_guards :
    Bool → Bool → ℕ → List (Dict ℕ) → (ℕ → Adoption) → Owner → Attached
attach_worker_guards false limited size polls adoption o = record {
  owner = o;
  started = [];
  end = dead_server;
}
attach_worker_guards true limited size polls adoption o =
    let ids = ids_from 1 size in
    let pids = poll_workers ids [] polls in
    attach_found limited adoption ids pids (missing_in pids ids) o
