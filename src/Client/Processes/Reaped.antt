-- ===== src/Client/Processes/Reaped.antt =====
-- pyleaner/client.py: no server process is left when the interpreter ends.
use py_leaner.Base.{
  ℕ, ◌+◌, ◌≤◌, ◌≡◌, refl, ap, ◌∙◌, subst, true, false, ◌||◌, inl, inr, Option, none, some, List, [],
  ◌∷◌, ◌++◌, ◌==◌, ==_iff, arith, mem, mem-append, length, Bool-cases, Option-cases,
}
use py_leaner.Watchdog.Processes.{kill_process_tree}
use py_leaner.Watchdog.Processes.Found.{IsBelow, at_root, Lists, collect_descendants-Finds}
use py_leaner.Client.Processes.{
  Server, discard_pid, start, Exit, kill_server, exit, reap_root, reap_all, cleanup_lean_processes,
  Step, starts, exits, run_steps,
}

-- A server that was started is registered, has been killed, or had ended.
abbrev IsAccounted : Server → ℕ → Type 0
IsAccounted s pid = (mem pid s.registry || mem pid s.killed || mem pid s.ended) ≡ true

mem-discard :
    (q pid : ℕ) (pids : List ℕ) → (q == pid) ≡ false → mem q (discard_pid pid pids) ≡ mem q pids
mem-discard q pid [] n = refl
mem-discard q pid (p ∷ pids) n = ground (arith, mem-discard q pid pids n)

start-IsAccounted :
    (pid q : ℕ) (s : Server)
    → ((q == pid) || mem q s.registry || mem q s.killed || mem q s.ended) ≡ true
    → IsAccounted (start pid s) q
unfolding start
start-IsAccounted pid q s h = elim (Bool-cases (mem pid s.registry)) [
  | inl e ↦ elim (Bool-cases (q == pid)) [
    | inl f ↦
        let g : mem q s.registry ≡ true = ap (λ r. mem r s.registry) ((==_iff q pid).0 f) ∙ e in
        rw e (ground (arith, g))
    | inr f ↦ rw e (ground (arith, h, f))
  ]
  | inr e ↦ rw e (ground (arith, h))
]

mem_last : (q : ℕ) (xs : List ℕ) → mem q (xs ++ q ∷ []) ≡ true
mem_last q [] = ground arith
mem_last q (x ∷ xs) = ground (arith, mem_last q xs)

root_killed :
    (x : Exit) (pid : ℕ)
    → x.dead ≡ false
    → mem pid (kill_process_tree x.descendants [] pid x.dead x.orphans) ≡ true
unfolding kill_process_tree
root_killed x pid e = rw e (mem_last pid _)

kill_server-IsAccounted :
    (x : Exit) (o : Option ℕ) (s : Server) (q : ℕ)
    → IsAccounted s q
    → IsAccounted (kill_server x o s) q
unfolding kill_server
kill_server-IsAccounted x none s q h = h
kill_server-IsAccounted x (some pid) s q h =
    let tree = kill_process_tree x.descendants [] pid x.dead x.orphans in
    let more = mem-append q s.killed tree in
    elim (Bool-cases (q == pid)) [
      | inr n ↦ ground (arith, h, n, more, mem-discard q pid s.registry n)
      | inl e ↦ elim (Bool-cases x.dead) [
        | inl d ↦ ground (arith, d, e)
        | inr d ↦
            let k = ap (λ r. mem r tree) ((==_iff q pid).0 e) ∙ root_killed x pid d in
            ground (arith, more, k)
      ]
    ]

exit-IsAccounted : (x : Exit) (s : Server) (q : ℕ) → IsAccounted s q → IsAccounted (exit x s).0 q
unfolding exit
exit-IsAccounted x s q h = elim (Option-cases x.notify_error) [
  | inl e ↦ rw (e, exit) (kill_server-IsAccounted x s.process s q h)
  | inr (f, e) ↦ rw (e, exit) h
]

-- The servers that are started
abbrev pub started : List Step → List ℕ
started [] = []
started (starts pid ∷ steps) = pid ∷ started steps
started (exits x ∷ steps) = started steps

run_steps-IsAccounted :
    (steps : List Step) (s : Server) (q : ℕ)
    → (mem q (started steps) || (mem q s.registry || mem q s.killed || mem q s.ended)) ≡ true
    → IsAccounted (run_steps steps s) q
unfolding run_steps
run_steps-IsAccounted [] s q h = ground (arith, h)
run_steps-IsAccounted (starts pid ∷ steps) s q h =
    run_steps-IsAccounted steps (start pid s) q (elim (Bool-cases (mem q (started steps))) [
      | inl e ↦ ground (arith, e)
      | inr e ↦ let a = start-IsAccounted pid q s (ground (arith, h, e)) in ground (arith, a)
    ])
run_steps-IsAccounted (exits x ∷ steps) s q h =
    run_steps-IsAccounted steps (exit x s).0 q (elim (Bool-cases (mem q (started steps))) [
      | inl e ↦ ground (arith, e)
      | inr e ↦ let a = exit-IsAccounted x s q (ground (arith, h, e)) in ground (arith, a)
    ])

module _ (children : ℕ → List (Option ℕ)) where
  -- The root and what is below it are among the processes.
  abbrev Reaps : ℕ → List ℕ → Type 0
  Reaps root pids = (k : ℕ) → IsBelow children root k → mem k pids ≡ true

  reap_root-Reaps :
      (root : ℕ) (us : List ℕ) (fuel : ℕ)
      → Lists children root us
      → length us + 1 ≤ fuel
      → (pids : List ℕ) × (reap_root children fuel root ≡ some pids) × Reaps root pids
  unfolding reap_root
  reap_root-Reaps root us fuel lists enough =
      let (ds, e, below) = collect_descendants-Finds children root us fuel lists enough in
      (
        ds ++ root ∷ [],
        rw (e, reap_root) refl,
        λ k b. elim (Bool-cases (k == root)) [
          | inl t ↦ ground (arith, mem-append k ds (root ∷ []), t)
          | inr t ↦
              let m = (below k).1 ((λ f. absurd (cc ((==_iff k root).1 f))), b) in
              ground (arith, mem-append k ds (root ∷ []), m)
        ],
      )

  reap_both :
      (fuel root : ℕ) (roots pids more : List ℕ)
      → reap_root children fuel root ≡ some pids
      → reap_all children fuel roots ≡ some more
      → reap_all children fuel (root ∷ roots) ≡ some (pids ++ more)
  unfolding reap_all
  reap_both fuel root roots pids more e f = rw (e, f) refl

  reap_all-Reaps :
      (roots us : List ℕ) (fuel : ℕ)
      → ((r : ℕ) → Lists children r us)
      → length us + 1 ≤ fuel
      → (pids : List ℕ) × (reap_all children fuel roots ≡ some pids)
        × ((r : ℕ) → mem r roots ≡ true → Reaps r pids)
  unfolding reap_all
  reap_all-Reaps [] us fuel lists enough = ([], refl, λ r h. absurd (cc))
  reap_all-Reaps (root ∷ roots) us fuel lists enough =
      let (pids, e, here) = reap_root-Reaps root us fuel (lists root) enough in
      let (more, f, later) = reap_all-Reaps roots us fuel lists enough in
      (
        pids ++ more,
        reap_both fuel root roots pids more e f,
        λ r h k b. elim (Bool-cases (r == root)) [
          | inl t ↦
              let m = here k (subst (λ q. IsBelow children q k) ((==_iff r root).0 t) b) in
              ground (arith, mem-append k pids more, m)
          | inr t ↦
              let m = later r (ground (arith, h, t)) k b in
              ground (arith, mem-append k pids more, m)
        ],
      )

  cleanup_some :
      (fuel : ℕ) (orphans pids : List ℕ) (s : Server)
      → reap_all children fuel s.registry ≡ some pids
      → cleanup_lean_processes children fuel orphans s
        ≡ some (record s { registry = []; killed = s.killed ++ (pids ++ orphans) })
  unfolding cleanup_lean_processes
  cleanup_some fuel orphans pids s e = rw (e, cleanup_lean_processes) refl

  -- Whatever servers a client has started and however its exits went, also those that raised before
  -- they killed anything, where every child that `pgrep` prints is in a list and with fuel for one turn
  -- more than the list is long, the cleanup at the end of the interpreter ends with an empty registry;
  -- every server has then been sent SIGKILL or had ended when it was to be killed, and with each
  -- server that was still registered every process below it has been sent SIGKILL.
  pub cleanup_reaps :
      (steps : List Step) (us : List ℕ) (fuel : ℕ) (orphans : List ℕ) (s : Server)
      → ((r : ℕ) → Lists children r us)
      → length us + 1 ≤ fuel
      → (t : Server) × (cleanup_lean_processes children fuel orphans (run_steps steps s) ≡ some t)
        × (t.registry ≡ [])
        × ((q : ℕ) → mem q (started steps) ≡ true → (mem q t.killed || mem q t.ended) ≡ true)
        × ((r k : ℕ)
            → mem r (run_steps steps s).registry ≡ true
            → IsBelow children r k
            → mem k t.killed ≡ true)
  cleanup_reaps steps us fuel orphans s lists enough =
      let u = run_steps steps s in
      let (pids, e, reaps) = reap_all-Reaps u.registry us fuel lists enough in
      let killed = λ (k : ℕ).
        mem-append k u.killed (pids ++ orphans)
        ∙ ap (λ b. mem k u.killed || b) (mem-append k pids orphans) in
      (
        record u { registry = []; killed = u.killed ++ (pids ++ orphans) },
        cleanup_some fuel orphans pids u e,
        refl,
        λ q h.
            let a = run_steps-IsAccounted steps s q (ground (arith, h)) in
            elim (Bool-cases (mem q u.registry)) [
              | inl r ↦ let m = reaps q r q at_root in ground (arith, killed q, m)
              | inr r ↦ ground (arith, killed q, a, r)
            ],
        λ r k h b. let m = reaps r h k b in ground (arith, killed k, m),
      )
