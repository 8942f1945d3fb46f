-- ===== src/Pool/Route.antt =====
-- pyleaner/pool.py: where the router sends a task.
use py_leaner.Base.{
  ◌≡◌, refl, sym, subst, ◌⊎◌, inl, inr, true, List, [], ◌∷◌, ◌%◌, arith, length, keep, All, All-map,
  All-pure, Among, All-Among, All-keep,
}
use py_leaner.Task.{Task}
use py_leaner.Pool.{Worker, Pool, least, put_task, reply, route, ready_workers, no_workers}
use py_leaner.Pool.Select.{Leq, least-Leq, least_among}

-- What the router does with a task when a worker is ready.
abbrev pub Sends : Task → Pool → Pool → Type 0
Sends task p q =
    (chosen : Worker) × Among chosen p.workers
    × (chosen.ready ≡ true)
    × All (Leq (length p.workers) p.selection_cursor chosen) (ready_workers p)
    × (q.workers ≡ put_task chosen.worker_id task p.workers)
    × (q.selection_cursor ≡ chosen.worker_id % length p.workers)
    × (q.replies ≡ p.replies)

keep-ready : (ws : List Worker) → All (λ w. w.ready ≡ true) (keep (λ w. w.ready) ws)
keep-ready ws =
    All-keep (λ w. w.ready ≡ true) (λ w. w.ready) ws
      (All-pure (λ w. w.ready ≡ true → w.ready ≡ true) ws (λ w e. e))

ready-Among :
    (all ws : List Worker)
    → All (λ v. Among v all) ws
    → All (λ v. Among v all) (keep (λ w. w.ready) ws)
ready-Among all ws h =
    All-keep (λ v. Among v all) (λ w. w.ready) ws
      (All-map (λ v. Among v all) (λ v. v.ready ≡ true → Among v all) ws (λ v m e. m) h)

chosen_of : Pool → Worker → List Worker → Worker
chosen_of p w ws = least (length p.workers) p.selection_cursor w ws

Sends-least :
    (task : Task) (p : Pool) (w : Worker) (ws : List Worker)
    → ready_workers p ≡ w ∷ ws
    → Sends task p (route task p)
unfolding chosen_of
Sends-least task p w ws e = (
  chosen_of p w ws,
  least_among (length p.workers) p.selection_cursor (λ v. Among v p.workers) w ws
      (subst (All (λ v. Among v p.workers)) e
        (ready-Among p.workers p.workers (All-Among p.workers))),
  least_among (length p.workers) p.selection_cursor (λ v. v.ready ≡ true) w ws
      (subst (All (λ v. v.ready ≡ true)) e (keep-ready p.workers)),
  subst (All (Leq (length p.workers) p.selection_cursor (chosen_of p w ws))) (sym e)
      (least-Leq (length p.workers) p.selection_cursor w ws),
  unfold route in ground arith,
  unfold route in ground arith,
  unfold route in ground arith,
)

-- When some worker is ready, the router sends the task to a ready worker that no ready worker beats:
-- each has a higher load (queued tasks and the one in hand), or the same load and no smaller
-- distance from the cursor. Only that worker's queue changes, by the task at its end, no response is
-- made, and the cursor moves on to the worker. When none is ready, the task's result queue, if it
-- has one, gets the failure, and no worker changes.
pub route_least_busy :
    (task : Task) (p : Pool)
    → ((ready_workers p ≡ [])
        × ((route task p).workers ≡ p.workers)
        × ((route task p).replies ≡ reply task no_workers p.replies))
      ⊎ Sends task p (route task p)
route_least_busy task p = go (ready_workers p) refl
  where
    go :
        (ws : List Worker)
        → ready_workers p ≡ ws
        → ((ready_workers p ≡ [])
            × ((route task p).workers ≡ p.workers)
            × ((route task p).replies ≡ reply task no_workers p.replies))
          ⊎ Sends task p (route task p)
    go [] e = inl (e, unfold route in ground arith, unfold route in ground arith)
    go (w ∷ ws) e = inr (Sends-least task p w ws e)
