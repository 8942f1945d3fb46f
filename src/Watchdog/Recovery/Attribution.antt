-- ===== src/Watchdog/Recovery/Attribution.antt =====
-- pyleaner/watchdog.py: whom a restart blames. The state in which it leaves each worker.
use py_leaner.Base.{
  ℕ, ◌≡◌, sym, ap, subst, Bool, true, some, List, [], ◌∷◌, arith, map, mem, Among, if◌then◌else◌,
  inl, inr,
}
use py_leaner.Base.Text.{Text}
use py_leaner.Task.{Task}
use py_leaner.Pool.{Worker}
use py_leaner.Watchdog.Types.{Trigger}
use py_leaner.Watchdog.Recovery.{
  Owner, pool_workers, inflight, is_precise, culprits_of, mark, strike, invalidate, take_down,
  stop_worker_scopes, teardown_pool_state,
}

Among-map : {A B : Type 0} (f : A → B) (a : A) (xs : List A) → Among a xs → Among (f a) (map f xs)
Among-map f a [] m = absurd m
Among-map f a (x ∷ xs) (inl e) = inl (ap f e)
Among-map f a (x ∷ xs) (inr m) = inr (Among-map f a xs m)

mem-inflight :
    (w : Worker) (t : Task) (ws : List Worker)
    → Among w ws
    → w.current_task ≡ some t
    → mem w.worker_id (inflight ws) ≡ true
unfolding inflight
mem-inflight w t [] m e = absurd m
mem-inflight w t (x ∷ ws) (inl same) e =
    ground (arith, ap (λ v. v.current_task) same, ap (λ v. v.worker_id) same)
mem-inflight w t (x ∷ ws) (inr m) e = ground (arith, mem-inflight w t ws m e)

module _ (t : Trigger) (reason : Text) (given : List ℕ) (o : Owner) where
  -- What a restart makes of a worker of the pool.
  abbrev pub struck : Worker → Worker
  struck w = invalidate (strike (culprits_of t given (pool_workers o)) reason w)

  take_down-workers :
      pool_workers (take_down t reason given o)
      ≡ map invalidate (map (strike (culprits_of t given (pool_workers o)) reason) (pool_workers o))
  unfolding take_down stop_worker_scopes teardown_pool_state
  take_down-workers = ground arith

  pub Among-take_down :
      (w : Worker)
      → Among w (pool_workers o)
      → Among (struck w) (pool_workers (take_down t reason given o))
  Among-take_down w m = subst (Among (struck w)) (sym take_down-workers) (
      Among-map invalidate (strike (culprits_of t given (pool_workers o)) reason w) _
        (Among-map (strike (culprits_of t given (pool_workers o)) reason) w (pool_workers o) m))

  -- Whether the task of a worker is blamed: by name for a precise trigger, in any case otherwise.
  abbrev pub is_blamed : Worker → Bool
  is_blamed w = if is_precise t then mem w.worker_id given else true

  mem-culprits :
      (w : Worker) (task : Task)
      → Among w (pool_workers o)
      → w.current_task ≡ some task
      → mem w.worker_id (culprits_of t given (pool_workers o)) ≡ is_blamed w
  unfolding culprits_of
  mem-culprits w task m e = ground (arith, mem-inflight w task (pool_workers o) m e)

  pub struck-task :
      (w : Worker) (task : Task)
      → Among w (pool_workers o)
      → w.current_task ≡ some task
      → ((struck w).current_task ≡ some (if is_blamed w then mark reason task else task))
        × ((struck w).task_queue ≡ w.task_queue)
  unfolding strike invalidate
  struck-task w task m e = ground (arith, mem-culprits w task m e)
