-- ===== src/Watchdog/Processes/Killed.antt =====
-- pyleaner/watchdog.py: which processes `_kill_process_tree` kills.
use py_leaner.Base.{
  ℕ, ◌+◌, ◌≤◌, ◌≡◌, ◌≢◌, refl, ◌∙◌, Bool, true, false, ◌||◌, Option, some, List, [], ◌∷◌, ◌++◌,
  arith, ◌==◌, mem, length,
}
use py_leaner.Watchdog.Processes.{collect_descendants, place, sorted, to_kill, kill_process_tree}
use py_leaner.Watchdog.Processes.Found.{IsBelow, Lists, collect_descendants-Finds}

mem-place : (k j : ℕ) (ks : List ℕ) → mem k (place j ks) ≡ (k == j || mem k ks)
unfolding place
mem-place k j [] = refl
mem-place k j (i ∷ ks) = ground (arith, mem-place k j ks)

mem-sorted : (k : ℕ) (ks : List ℕ) → mem k (sorted ks) ≡ mem k ks
unfolding sorted
mem-sorted k [] = refl
mem-sorted k (j ∷ ks) = ground (arith, mem-place k j (sorted ks), mem-sorted k ks)

to_kill-mem :
    (k : ℕ) (ds known : List ℕ) (root : ℕ) (dead : Bool) (orphans : List ℕ)
    → mem k ds ≡ true
    → mem k (to_kill ds known root dead orphans) ≡ true
unfolding to_kill
to_kill-mem k [] known root dead orphans h = absurd (cc)
to_kill-mem k (d ∷ ds) known root dead orphans h = h

-- While the root is alive, whatever an earlier snapshot holds, and with enough fuel for the search:
-- every process below the root is killed, and the root after all of them.
pub kill_process_tree-IsBelow :
    (children : ℕ → List (Option ℕ)) (root : ℕ) (us known orphans : List ℕ) (fuel : ℕ)
    → Lists children root us
    → length us + 1 ≤ fuel
    → (ds first : List ℕ) × (collect_descendants children fuel root ≡ some ds)
      × (kill_process_tree ds known root false orphans ≡ first ++ root ∷ [])
      × ((k : ℕ) → IsBelow children root k → k ≢ root → mem k first ≡ true)
unfolding kill_process_tree
kill_process_tree-IsBelow children root us known orphans fuel lists enough =
    let (ds, e, found) = collect_descendants-Finds children root us fuel lists enough in
    (
      ds,
      sorted (to_kill ds known root false orphans),
      e,
      refl,
      λ k b ne.
          mem-sorted k (to_kill ds known root false orphans)
          ∙ to_kill-mem k ds known root false orphans ((found k).1 (ne, b)),
    )
