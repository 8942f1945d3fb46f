-- ===== src/Watchdog/Workers/Located.antt =====
-- pyleaner/watchdog.py: a worker's process is one below the server that runs its document.
use py_leaner.Base.{
  ℕ, ◌+◌, ◌≤◌, true, Option, none, some, inl, inr, List, [], ◌∷◌, ◌≡◌, ◌≢◌, refl, sym, ap, ◌∙◌,
  arith, ◌==◌, ==_iff, mem, length, Bool-cases,
}
use py_leaner.Base.Text.{Text}
use py_leaner.Base.Dict.{Dict, lookup, lookup-insert}
use py_leaner.Watchdog.Processes.{collect_descendants}
use py_leaner.Watchdog.Processes.Found.{IsBelow, Lists, collect_descendants-Finds}
use py_leaner.Watchdog.Workers.{number_of, note_worker, note_workers, lean_worker_pids}

module _ (cmdline : ℕ → Option Text) where
  -- Each entry is a process of the list that runs the worker.
  abbrev Runs : List ℕ → Dict ℕ → Type 0
  Runs pids result =
      (w pid : ℕ)
      → lookup w result ≡ some pid
      → (mem pid pids ≡ true) × (number_of (cmdline pid) ≡ some w)

  note_worker-Runs :
      (pids : List ℕ) (o : Option ℕ) (pid : ℕ) (result : Dict ℕ)
      → mem pid pids ≡ true
      → number_of (cmdline pid) ≡ o
      → Runs pids result
      → Runs pids (note_worker o pid result)
  unfolding note_worker
  note_worker-Runs pids none pid result m e h w q k = h w q k
  note_worker-Runs pids (some v) pid result m e h w q k = elim (Bool-cases (w == v)) [
    | inl t ↦
        let f = (==_iff w v).0 t in
        let l = rw t at (sym (lookup-insert w v pid result) ∙ k) in
        let g : pid ≡ q = cc l in (rw (sym g) m, cc)
    | inr t ↦ h w q (rw t at (sym (lookup-insert w v pid result) ∙ k))
  ]

  note_workers-Runs :
      (all pids : List ℕ) (result : Dict ℕ)
      → ((q : ℕ) → mem q pids ≡ true → mem q all ≡ true)
      → Runs all result
      → Runs all (note_workers cmdline pids result)
  unfolding note_workers
  note_workers-Runs all [] result s h = h
  note_workers-Runs all (pid ∷ pids) result s h =
      note_workers-Runs all pids (note_worker (number_of (cmdline pid)) pid result)
        (λ q m. s q (ground (arith, m)))
        (note_worker-Runs all (number_of (cmdline pid)) pid result (s pid (ground arith)) refl h)

  -- A worker that was found once stays found, and every process of the list that runs one is noted.
  abbrev Found : ℕ → Dict ℕ → Type 0
  Found w result = (q : ℕ) × (lookup w result ≡ some q)

  note_worker-stays :
      (w : ℕ) (o : Option ℕ) (pid : ℕ) (result : Dict ℕ)
      → Found w result
      → Found w (note_worker o pid result)
  unfolding note_worker
  note_worker-stays w none pid result f = f
  note_worker-stays w (some v) pid result (q, f) = elim (Bool-cases (w == v)) [
    | inl t ↦ (pid, lookup-insert w v pid result ∙ rw t refl)
    | inr t ↦ (q, lookup-insert w v pid result ∙ rw t f)
  ]

  note_workers-stays :
      (w : ℕ) (pids : List ℕ) (result : Dict ℕ)
      → Found w result
      → Found w (note_workers cmdline pids result)
  unfolding note_workers
  note_workers-stays w [] result f = f
  note_workers-stays w (pid ∷ pids) result f =
      note_workers-stays w pids _ (note_worker-stays w (number_of (cmdline pid)) pid result f)

  note_worker_self :
      (w pid : ℕ) (o : Option ℕ) (result : Dict ℕ) → o ≡ some w → Found w (note_worker o pid result)
  unfolding note_worker
  note_worker_self w pid none result e = cc
  note_worker_self w pid (some v) result e = (pid, ground (arith, lookup-insert w v pid result, e))

  note_workers-Found :
      (w pid : ℕ) (pids : List ℕ) (result : Dict ℕ)
      → mem pid pids ≡ true
      → number_of (cmdline pid) ≡ some w
      → Found w (note_workers cmdline pids result)
  unfolding note_workers
  note_workers-Found w pid [] result m e = cc
  note_workers-Found w pid (q ∷ pids) result m e = elim (Bool-cases (pid == q)) [
    | inl t ↦ note_workers-stays w pids _ (
        note_worker_self w q (number_of (cmdline q)) result
          (ap (λ r. number_of (cmdline r)) (sym ((==_iff pid q).0 t)) ∙ e))
    | inr t ↦ note_workers-Found w pid pids _ (ground (arith, m, t)) e
  ]

  -- The processes of the workers: each is below the server, other than its root, and runs its worker,
  -- and each worker that a process below the server runs is there.
  abbrev pub Locates : (ℕ → List (Option ℕ)) → ℕ → Dict ℕ → Type 0
  Locates children root result =
      ((w pid : ℕ)
        → lookup w result ≡ some pid
        → (pid ≢ root) × IsBelow children root pid × (number_of (cmdline pid) ≡ some w))
      × ((w pid : ℕ)
          → pid ≢ root
          → IsBelow children root pid
          → number_of (cmdline pid) ≡ some w
          → (q : ℕ) × (lookup w result ≡ some q))

  -- Where every child that `pgrep` prints is in a list, and with fuel for one turn more than the list is
  -- long, the search for the workers' processes ends; each process that it gives a worker is below the
  -- server and has the worker's document in its command line, and no worker is missed that some
  -- process below the server runs.
  pub lean_worker_pids-Locates :
      (children : ℕ → List (Option ℕ)) (root : ℕ) (us : List ℕ) (fuel : ℕ)
      → Lists children root us
      → length us + 1 ≤ fuel
      → (ds : List ℕ) × (collect_descendants children fuel root ≡ some ds)
        × Locates children root (lean_worker_pids cmdline ds)
  unfolding lean_worker_pids
  lean_worker_pids-Locates children root us fuel lists enough =
      let (ds, e, below) = collect_descendants-Finds children root us fuel lists enough in
      let runs = note_workers-Runs ds ds [] (λ q m. m) (λ w pid h. cc) in
      (
        ds,
        e,
        (
          λ w pid h. let (m, r) = runs w pid h in let (n, b) = (below pid).0 m in (n, b, r),
          λ w pid n b r. note_workers-Found w pid ds [] ((below pid).1 (n, b)) r,
        ),
      )
