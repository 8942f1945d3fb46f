-- ===== src/Watchdog/Processes.antt =====
-- pyleaner/watchdog.py, lines 69 to 155: the processes below the server's root process, and which of
-- them are killed in which order. `children` is what `pgrep -P` prints for a process, `none` for what
-- `int` rejects; it stays the same while the tree is searched.
pub mod Tree
pub mod Found
pub mod Killed
use py_leaner.Base.{
  ℕ, zero, suc, ◌+◌, Bool, true, false, not, ◌&&◌, Option, none, some, List, [], ◌∷◌, ◌++◌, ◌==◌,
  leb, if◌then◌else◌, keep, mem,
}

-- The variables of the search. The frontier is a stack, its top first.
pub record Search : Type 0 where
  pub seen : List ℕ
  pub descendants : List ℕ
  pub frontier : List ℕ

-- One child: it is taken up once.
unfoldable pub take_up : ℕ → Search → Search
take_up child s = if mem child s.seen then s else record {
  seen = child ∷ s.seen;
  descendants = s.descendants ++ child ∷ [];
  frontier = child ∷ s.frontier;
}

-- The inner loop, over what was printed for one parent
unfoldable pub visit : List (Option ℕ) → Search → Search
visit [] s = s
visit (none ∷ lines) s = visit lines s
visit (some child ∷ lines) s = visit lines (take_up child s)

-- The outer loop, with fuel for each turn; `none` where it runs out
unfoldable pub search : (ℕ → List (Option ℕ)) → ℕ → List ℕ → List ℕ → List ℕ → Option (List ℕ)
search children fuel seen descendants [] = some descendants
search children zero seen descendants (parent ∷ frontier) = none
search children (suc fuel) seen descendants (parent ∷ frontier) =
    let s =
      visit (children parent)
        (record { seen = seen; descendants = descendants; frontier = frontier }) in
    search children fuel s.seen s.descendants s.frontier

-- `_collect_descendants`
unfoldable pub collect_descendants : (ℕ → List (Option ℕ)) → ℕ → ℕ → Option (List ℕ)
collect_descendants children fuel root = search children fuel (root ∷ []) [] (root ∷ [])

-- `sorted`, on a set of process ids, by insertion
unfoldable pub place : ℕ → List ℕ → List ℕ
place k [] = k ∷ []
place k (j ∷ ks) = if leb k j then k ∷ j ∷ ks else j ∷ place k ks

unfoldable pub sorted : List ℕ → List ℕ
sorted [] = []
sorted (k ∷ ks) = place k (sorted ks)

-- The first part of `_kill_process_tree`: which processes are killed before the root. `known` is the
-- earlier snapshot, `orphans` what the last scan finds.
unfoldable pub to_kill : List ℕ → List ℕ → ℕ → Bool → List ℕ → List ℕ
to_kill (d ∷ ds) known root dead orphans = d ∷ ds
to_kill [] known root dead orphans = elim (keep (λ k. not (k == root)) known) [
  | [] ↦ if dead then orphans else []
  | k ∷ ks ↦ k ∷ ks
]

-- `_kill_process_tree`, as the processes that are sent SIGKILL, in order
unfoldable pub kill_process_tree : List ℕ → List ℕ → ℕ → Bool → List ℕ → List ℕ
kill_process_tree descendants known root dead orphans =
    sorted (to_kill descendants known root dead orphans) ++ (if dead then [] else root ∷ [])
