-- ===== src/Watchdog/Guards/Below.antt =====
-- pyleaner/watchdog.py: the guards of a pool are of the processes that run its workers.
use py_leaner.Base.{
  ℕ, ◌+◌, ◌≤◌, ◌≡◌, ◌≢◌, refl, sym, ap, ◌∙◌, ◌⊎◌, inl, inr, Bool, Option, none, some, List, [], ◌∷◌,
  map, length, All, Among, Among-All,
}
use py_leaner.Base.Text.{Text}
use py_leaner.Base.Dict.{Dict, lookup}
use py_leaner.Watchdog.Types.{Guard}
use py_leaner.Watchdog.Recovery.{Owner}
use py_leaner.Watchdog.Processes.{collect_descendants}
use py_leaner.Watchdog.Processes.Found.{IsBelow, Lists}
use py_leaner.Watchdog.Workers.{number_of, lean_worker_pids}
use py_leaner.Watchdog.Workers.Located.{lean_worker_pids-Locates}
use py_leaner.Watchdog.Guards.{
  Adoption, attached, ids_from, missing_in, poll_workers, attach_worker_guards,
}
use py_leaner.Watchdog.Guards.Complete.{attach_worker_guards-FullyGuarded}

-- What one poll meets: the children that `pgrep` prints and the command lines
pub record Snapshot : Type 0 where
  pub children : ℕ → List (Option ℕ)
  pub cmdline : ℕ → Option Text

-- `_lean_worker_pids(proc.pid)`, with fuel for the search
abbrev workers_in : Snapshot → Option (List ℕ) → Dict ℕ
workers_in s none = []
workers_in s (some ds) = lean_worker_pids s.cmdline ds

abbrev pub poll_of : ℕ → ℕ → Snapshot → Dict ℕ
poll_of root fuel s = workers_in s (collect_descendants s.children fuel root)

poll_workers-Among :
    (ids : List ℕ) (last : Dict ℕ) (polls : List (Dict ℕ))
    → (poll_workers ids last polls ≡ last) ⊎ Among (poll_workers ids last polls) polls
unfolding poll_workers
poll_workers-Among ids last [] = inl refl
poll_workers-Among ids last (pids ∷ polls) =
    by_missing (missing_in pids ids) (poll_workers-Among ids pids polls)
  where
    by_missing :
        (missing : List ℕ)
        → (poll_workers ids pids polls ≡ pids) ⊎ Among (poll_workers ids pids polls) polls
        → ((elim missing [ [] ↦ pids | _ ∷ _ ↦ poll_workers ids pids polls ]) ≡ last)
          ⊎ Among (elim missing [ [] ↦ pids | _ ∷ _ ↦ poll_workers ids pids polls ]) (pids ∷ polls)
    by_missing [] h = inr (inl refl)
    by_missing (w ∷ ws) (inl e) = inr (inl e)
    by_missing (w ∷ ws) (inr m) = inr (inr m)

map-Among :
    (f : Snapshot → Dict ℕ) (d : Dict ℕ) (ss : List Snapshot)
    → Among d (map f ss)
    → (s : Snapshot) × Among s ss × (d ≡ f s)
map-Among f d [] m = absurd m
map-Among f d (s ∷ ss) (inl e) = (s, inl refl, e)
map-Among f d (s ∷ ss) (inr m) = let (t, n, e) = map-Among f d ss m in (t, inr n, e)

-- A guard of a process that some poll saw below the server with the worker's document
abbrev pub RunsBelow : ℕ → List Snapshot → ℕ → Guard → Type 0
RunsBelow root snapshots w g =
    (s : Snapshot) × Among s snapshots
    × (g.pid ≢ root)
    × IsBelow s.children root g.pid
    × (number_of (s.cmdline g.pid) ≡ some w)

-- In each snapshot every child that is printed is in a list, and the fuel is enough for it.
abbrev pub IsSearched : ℕ → ℕ → Snapshot → Type 0
IsSearched root fuel s = (us : List ℕ) × Lists s.children root us × (length us + 1 ≤ fuel)

poll_of-RunsBelow :
    (root fuel w pid : ℕ) (s : Snapshot)
    → IsSearched root fuel s
    → lookup w (poll_of root fuel s) ≡ some pid
    → (pid ≢ root) × IsBelow s.children root pid × (number_of (s.cmdline pid) ≡ some w)
poll_of-RunsBelow root fuel w pid s (us, lists, enough) h =
    let (ds, e, located) =
      lean_worker_pids-Locates s.cmdline s.children root us fuel lists enough in
    located.0 w pid (sym (ap (λ o. lookup w (workers_in s o)) e) ∙ h)

-- Where `attach_worker_guards` has attached guards, each worker from 1 to the size of the pool has one,
-- and it is of a process that one of the polls saw below the server, other than the server's root,
-- with the worker's document in its command line; every child that a poll meets is in a list, and
-- the fuel of its search is more than that list is long.
pub attach_worker_guards-RunsBelow :
    (root fuel : ℕ) (snapshots : List Snapshot) (alive limited : Bool) (size : ℕ)
    (adoption : ℕ → Adoption) (o : Owner)
    → All (IsSearched root fuel) snapshots
    → (attach_worker_guards alive limited size (map (poll_of root fuel) snapshots) adoption o).end
      ≡ attached
    → (w : ℕ) → 1 ≤ w
    → w ≤ size
    → (g : Guard) × (lookup w
          (attach_worker_guards alive limited size
            (map (poll_of root fuel) snapshots)
            adoption
            o).owner.worker_scopes
        ≡ some g)
      × RunsBelow root snapshots w g
attach_worker_guards-RunsBelow root fuel snapshots alive limited size adoption o searched e w l k =
    let polls = map (poll_of root fuel) snapshots in
    let (g, h, f) = attach_worker_guards-FullyGuarded alive limited size polls adoption o e w l k in
    (g, h, by_poll g f (poll_workers-Among (ids_from 1 size) [] polls))
  where
    by_poll :
        (g : Guard)
        → lookup w (poll_workers (ids_from 1 size) [] (map (poll_of root fuel) snapshots))
          ≡ some g.pid
        → (poll_workers (ids_from 1 size) [] (map (poll_of root fuel) snapshots) ≡ [])
          ⊎ Among
              (poll_workers (ids_from 1 size) [] (map (poll_of root fuel) snapshots))
              (map (poll_of root fuel) snapshots)
        → RunsBelow root snapshots w g
    by_poll g f (inl n) = absurd (cc (ap (lookup w) n))
    by_poll g f (inr m) =
        let (s, a, d) = map-Among (poll_of root fuel) _ snapshots m in
        let (ne, below, runs) =
          poll_of-RunsBelow root fuel w g.pid s
            (Among-All (IsSearched root fuel) s snapshots a searched) (sym (ap (lookup w) d) ∙ f) in
        (s, a, ne, below, runs)
