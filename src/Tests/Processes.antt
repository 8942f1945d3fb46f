-- ===== src/Tests/Processes.antt =====
-- The search for processes of pyleaner/watchdog.py on a small table that has a cycle.
use py_leaner.Base.{
  ℕ, ◌≡◌, refl, ◌≢◌, true, false, Option, none, some, List, [], ◌∷◌, ◌++◌, arith, ◌==◌,
  if◌then◌else◌, mem, ◌||◌,
}
use py_leaner.Base.Text.{Text, codes}
use py_leaner.Observability.Imports.{after_front}
use py_leaner.Watchdog.Workers.{
  lean_worker_pids, note_workers, note_worker, number_of, worker_number, number_at, number_then,
}
use py_leaner.Task.{broken_pipe}
use py_leaner.Watchdog.Proc.{
  Entry, content, process_alive, state_alive, after_last, find_orphaned_lean, note_orphan,
  orphan_of, is_lean, is_reparented, program_of, read_rss_anon, rss_in, kilobytes, read_oom_kill,
  oom_kill_in,
}
use py_leaner.Client.Frames.{before_first, strip_left, strip_right, signed_value, digits_value}
use py_leaner.Observability.Lines.{
  split_lines, skip_white, drop_white_end, words, words_of, split_at,
}
use py_leaner.Client.Processes.{
  Server, Step, starts, exits, start, exit, kill_server, run_steps, cleanup_lean_processes,
}
use py_leaner.Client.Processes.Reaped.{started, cleanup_reaps}
use py_leaner.Watchdog.Processes.{
  to_kill, sorted, place, visit, take_up, search, collect_descendants, kill_process_tree,
}
use py_leaner.Watchdog.Processes.Found.{IsBelow, Finds, Lists, collect_descendants-Finds}
use py_leaner.Watchdog.Processes.Killed.{kill_process_tree-IsBelow}

-- 1 has the children 2 and 3, and 3 has 4 and, by a stale line, 1.
abbrev children : ℕ → List (Option ℕ)
children p =
    if p == 1 then some 2 ∷ some 3 ∷ [] else if p == 3 then none ∷ some 4 ∷ some 1 ∷ [] else []

collect_descendants_run : collect_descendants children 5 1 ≡ some (2 ∷ 3 ∷ 4 ∷ [])
unfolding collect_descendants search visit take_up
collect_descendants_run = refl

children-Lists : Lists children 1 (1 ∷ 2 ∷ 3 ∷ 4 ∷ [])
children-Lists p c h = ground arith

collect_descendants-Finds_example : Finds children 1 (collect_descendants children 5 1)
collect_descendants-Finds_example =
    collect_descendants-Finds children 1 (1 ∷ 2 ∷ 3 ∷ 4 ∷ []) 5 children-Lists (omega arith)

kill_process_tree-IsBelow_example :
    (ds first : List ℕ) × (collect_descendants children 5 1 ≡ some ds)
    × (kill_process_tree ds (1 ∷ 9 ∷ []) 1 false [] ≡ first ++ 1 ∷ [])
    × ((k : ℕ) → IsBelow children 1 k → k ≢ 1 → mem k first ≡ true)
kill_process_tree-IsBelow_example =
    kill_process_tree-IsBelow children 1 (1 ∷ 2 ∷ 3 ∷ 4 ∷ []) (1 ∷ 9 ∷ []) [] 5 children-Lists
      (omega arith)

abbrev cmdline : ℕ → Option Text
cmdline p =
    if p == 4
    then some (codes "lean --worker file:///p/worker_7.lean")
    else if p == 2
    then none
    else some []

lean_worker_pids_run : lean_worker_pids cmdline (2 ∷ 3 ∷ 4 ∷ []) ≡ (7, 4) ∷ []
unfolding lean_worker_pids note_workers note_worker number_of worker_number number_at number_then
    after_front
lean_worker_pids_run = refl

abbrev server : Server
server = record { registry = []; process = none; killed = []; ended = [] }

-- The first exit cannot write its notification, so its server stays; the second server is killed.
abbrev steps : List Step
steps =
    starts 1
    ∷ exits (record {
      notify_error = some (broken_pipe []);
      descendants = 2 ∷ [];
      dead = false;
      orphans = [];
    })
    ∷ starts 8
    ∷ exits (record { notify_error = none; descendants = 9 ∷ []; dead = false; orphans = [] })
    ∷ []

steps_run :
    run_steps steps server
    ≡ record { registry = 1 ∷ []; process = some 8; killed = 9 ∷ 8 ∷ []; ended = [] }
unfolding run_steps start exit kill_server kill_process_tree to_kill sorted place
steps_run = refl

children-all_Lists : (r : ℕ) → Lists children r (1 ∷ 2 ∷ 3 ∷ 4 ∷ [])
children-all_Lists r p c h = ground arith

cleanup_reaps_example :
    (t : Server) × (cleanup_lean_processes children 5 [] (run_steps steps server) ≡ some t)
    × (t.registry ≡ [])
    × ((q : ℕ) → mem q (started steps) ≡ true → (mem q t.killed || mem q t.ended) ≡ true)
    × ((r k : ℕ)
        → mem r (run_steps steps server).registry ≡ true
        → IsBelow children r k
        → mem k t.killed ≡ true)
cleanup_reaps_example =
    cleanup_reaps children steps (1 ∷ 2 ∷ 3 ∷ 4 ∷ []) 5 [] server children-all_Lists (omega arith)

alive_run :
    (process_alive (some 41) (content (codes "41 (lean) x) S 1 2")) ≡ some true)
    × (process_alive (some 41) (content (codes "41 (lean) Z 1 2")) ≡ some false)
    × (process_alive (some 41) (content (codes "41 lean")) ≡ some false)
unfolding process_alive state_alive after_last words words_of skip_white drop_white_end
alive_run = (refl, refl, refl)

abbrev orphan : Entry
orphan = record {
  pid = some 77;
  cmdline = some (codes "/opt/Lean/bin/lean" ++ 0 ∷ codes "--worker");
  stat = content (codes "77 (lean) S 1 77");
}

orphans_run : find_orphaned_lean (orphan ∷ record orphan { cmdline = none } ∷ []) ≡ 77 ∷ []
unfolding find_orphaned_lean note_orphan orphan_of is_lean is_reparented program_of after_last
    before_first split_at strip_left strip_right signed_value digits_value
orphans_run = refl

files_run :
    (read_rss_anon (content (codes "VmRSS: 9 kB\nRssAnon:\t  2 kB\n")) ≡ some (false, 2048))
    × (read_oom_kill (content (codes "oom 1\noom_kill 3\n")) ≡ some (false, 3))
    × (read_oom_kill (content (codes "oom\noom_kill 3\n")) ≡ none)
unfolding read_rss_anon rss_in kilobytes read_oom_kill oom_kill_in split_lines words words_of
    strip_left strip_right signed_value digits_value
files_run = (refl, refl, refl)
