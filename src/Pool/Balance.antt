-- ===== src/Pool/Balance.antt =====
-- pyleaner/pool.py: the router keeps the loads of the ready workers even.
use py_leaner.Base.{
  ℕ, ◌+◌, ◌≤◌, ◌≡◌, ◌≢◌, refl, sym, ◌∙◌, ==_iff, inl, inr, true, List, [], ◌∷◌, ◌++◌, arith, ◌==◌,
  length, length-append, All, All-map, All-zip, All-keep_inv, Among, Among-All, Bool-cases, leb,
  leb→le,
}
use mathlib.Core.Bool.{false≢true}
use py_leaner.Task.{Task}
use py_leaner.Pool.{Worker, Pool, load, put_task, route}
use py_leaner.Pool.Select.{Leq}
use py_leaner.Pool.Route.{Sends, route_least_busy}

-- No two workers have the same id.
abbrev pub IdsDistinct : List Worker → Type 0
IdsDistinct [] = Unit
IdsDistinct (w ∷ ws) = All (λ v. v.worker_id ≢ w.worker_id) ws × IdsDistinct ws

-- The loads of the ready workers differ by at most one from the least, `q`.
abbrev pub IsBalanced : ℕ → List Worker → Type 0
IsBalanced q ws = All (λ w. w.ready ≡ true → (q ≤ load w) × (load w ≤ q + 1)) ws

load-put :
    (w : Worker) (task : Task)
    → load (record w { task_queue = w.task_queue ++ task ∷ [] }) ≡ load w + 1
unfolding load
load-put w task = omega (arith, length-append w.task_queue (task ∷ []))

-- What holds of each worker before, in one form for the worker with the id and in another for the
-- rest, holds after a task is put.
put_task-IsBalanced :
    (id q q' : ℕ) (task : Task) (ws : List Worker)
    → IdsDistinct ws
    → All (λ w. w.ready ≡ true → w.worker_id ≡ id → (q' ≤ load w + 1) × (load w ≤ q')) ws
    → All (λ w. w.ready ≡ true → w.worker_id ≢ id → (q' ≤ load w) × (load w ≤ q' + 1)) ws
    → IsBalanced q' (put_task id task ws)
unfolding put_task
put_task-IsBalanced id q q' task [] d same rest = tt
put_task-IsBalanced id q q' task (w ∷ ws) d same rest = elim (Bool-cases (w.worker_id == id)) [
  | inl e ↦
      let at : w.worker_id ≡ id = (==_iff w.worker_id id).0 e in
      rw e (
        λ r. let h = same.0 r at in omega (arith, h.0, h.1, load-put w task),
        All-zip (λ v. v.worker_id ≢ w.worker_id)
            (λ v. v.ready ≡ true → v.worker_id ≢ id → (q' ≤ load v) × (load v ≤ q' + 1))
            (λ v. v.ready ≡ true → (q' ≤ load v) × (load v ≤ q' + 1)) ws
            (λ v ne h r. h r (λ t. ne (t ∙ sym at))) d.0 rest.1,
      )
  | inr e ↦
      let away : w.worker_id ≢ id = λ t. false≢true (sym e ∙ (==_iff w.worker_id id).1 t) in
      rw e (λ r. rest.0 r away, put_task-IsBalanced id q q' task ws d.1 same.1 rest.1)
]

-- Workers with the same id have the same load.
SameLoad : List Worker → Worker → Type 0
SameLoad ws v = All (λ w. w.worker_id ≡ v.worker_id → load w ≡ load v) ws

IdsDistinct-SameLoad : (ws : List Worker) → IdsDistinct ws → All (SameLoad ws) ws
unfolding SameLoad
IdsDistinct-SameLoad [] d = tt
IdsDistinct-SameLoad (x ∷ xs) d = (
  (
    λ e. refl,
    All-map (λ v. v.worker_id ≢ x.worker_id) (λ w. w.worker_id ≡ x.worker_id → load w ≡ load x) xs
        (λ v ne e. absurd (ne e)) d.0,
  ),
  All-zip (λ v. v.worker_id ≢ x.worker_id) (SameLoad xs) (SameLoad (x ∷ xs)) xs
      (λ v ne h. (λ e. absurd (ne (sym e)), h)) d.0 (IdsDistinct-SameLoad xs d.1),
)

put_task-ids :
    (P : ℕ → Type 0) (id : ℕ) (task : Task) (ws : List Worker)
    → All (λ w. P w.worker_id) ws
    → All (λ w. P w.worker_id) (put_task id task ws)
unfolding put_task
put_task-ids P id task [] h = tt
put_task-ids P id task (w ∷ ws) h = ground (arith, put_task-ids P id task ws h.1)

put_task-IdsDistinct :
    (id : ℕ) (task : Task) (ws : List Worker) → IdsDistinct ws → IdsDistinct (put_task id task ws)
unfolding put_task
put_task-IdsDistinct id task [] d = tt
put_task-IdsDistinct id task (w ∷ ws) d =
    ground (
      arith,
      put_task-IdsDistinct id task ws d.1,
      put_task-ids (λ i. i ≢ w.worker_id) id task ws d.0,
    )

module _ (task : Task) (q : ℕ) (ws : List Worker) (d : IdsDistinct ws) (b : IsBalanced q ws)
    (chosen : Worker) (among : Among chosen ws) (ready : chosen.ready ≡ true)
    (least_load : All (λ w. w.ready ≡ true → load chosen ≤ load w) ws) where
  alike : SameLoad ws chosen
  alike = Among-All (SameLoad ws) chosen ws among (IdsDistinct-SameLoad ws d)

  range : (q ≤ load chosen) × (load chosen ≤ q + 1)
  range = Among-All (λ w. w.ready ≡ true → (q ≤ load w) × (load w ≤ q + 1)) chosen ws among b ready

  -- The chosen worker had the lower of the two loads.
  put_low : load chosen ≤ q → IsBalanced q (put_task chosen.worker_id task ws)
  unfolding alike SameLoad
  put_low low =
      put_task-IsBalanced chosen.worker_id q q task ws d
        (All-map (λ w. w.worker_id ≡ chosen.worker_id → load w ≡ load chosen)
          (λ w. w.ready ≡ true → w.worker_id ≡ chosen.worker_id → (q ≤ load w + 1) × (load w ≤ q))
          ws (λ w same r e. (omega (arith, same e, range), omega (arith, same e))) alike)
        (All-map (λ w. w.ready ≡ true → (q ≤ load w) × (load w ≤ q + 1))
          (λ w. w.ready ≡ true → w.worker_id ≢ chosen.worker_id → (q ≤ load w) × (load w ≤ q + 1))
          ws (λ w h r e. h r) b)

  -- All ready workers had the higher one.
  put_high : q + 1 ≤ load chosen → IsBalanced (q + 1) (put_task chosen.worker_id task ws)
  unfolding alike SameLoad
  put_high high =
      put_task-IsBalanced chosen.worker_id q (q + 1) task ws d
        (All-map (λ w. w.worker_id ≡ chosen.worker_id → load w ≡ load chosen)
          (λ w.
            w.ready ≡ true
            → w.worker_id ≡ chosen.worker_id
            → (q + 1 ≤ load w + 1) × (load w ≤ q + 1))
          ws (λ w same r e. (omega (arith, same e, range), omega (arith, same e, range))) alike)
        (All-zip (λ w. w.ready ≡ true → load chosen ≤ load w)
          (λ w. w.ready ≡ true → (q ≤ load w) × (load w ≤ q + 1))
          (λ w.
            w.ready ≡ true
            → w.worker_id ≢ chosen.worker_id
            → (q + 1 ≤ load w) × (load w ≤ q + 1 + 1))
          ws (λ w le h r e. (omega (arith, le r), omega (arith, (h r).1))) least_load b)

  put-IsBalanced : (q' : ℕ) × IsBalanced q' (put_task chosen.worker_id task ws)
  put-IsBalanced = elim (Bool-cases (leb (load chosen) q)) [
    | inl e ↦ (q, put_low (leb→le (load chosen) q e))
    | inr e ↦ (q + 1, put_high (ground arith))
  ]

Sends-IsBalanced :
    (task : Task) (q : ℕ) (p r : Pool)
    → IdsDistinct p.workers
    → IsBalanced q p.workers
    → Sends task p r
    → IdsDistinct r.workers × ((q' : ℕ) × IsBalanced q' r.workers)
Sends-IsBalanced task q p r d b (chosen, among, ready, least, goes, _, _) = rw goes (
  put_task-IdsDistinct chosen.worker_id task p.workers d,
  put-IsBalanced task q p.workers d b chosen among ready (
      All-map (λ w. w.ready ≡ true → Leq (length p.workers) p.selection_cursor chosen w)
        (λ w. w.ready ≡ true → load chosen ≤ load w) p.workers (λ w le t. load_le w (le t))
        (All-keep_inv (Leq (length p.workers) p.selection_cursor chosen) (λ w. w.ready) p.workers
          least)),
)
  where
    load_le :
        (w : Worker) → Leq (length p.workers) p.selection_cursor chosen w → load chosen ≤ load w
    load_le w le = ground arith

route-IsBalanced :
    (task : Task) (q : ℕ) (p : Pool)
    → IdsDistinct p.workers
    → IsBalanced q p.workers
    → IdsDistinct (route task p).workers × ((q' : ℕ) × IsBalanced q' (route task p).workers)
route-IsBalanced task q p d b = elim (route_least_busy task p) [
  | inl (_, same, _) ↦ rw same (d, (q, b))
  | inr sent ↦ Sends-IsBalanced task q p (route task p) d b sent
]

-- The router on the tasks that it takes from the overall queue, while no worker takes or ends one.
unfoldable pub route_all : List Task → Pool → Pool
route_all [] p = p
route_all (task ∷ tasks) p = route_all tasks (route task p)

-- Where no two workers have the same id and the loads of the ready workers differ by at most one,
-- they still do after the router has sent any tasks while no worker takes or ends one.
pub route_all-IsBalanced :
    (tasks : List Task) (q : ℕ) (p : Pool)
    → IdsDistinct p.workers
    → IsBalanced q p.workers
    → (q' : ℕ) × IsBalanced q' (route_all tasks p).workers
unfolding route_all
route_all-IsBalanced [] q p d b = (q, b)
route_all-IsBalanced (task ∷ tasks) q p d b =
    let next = route-IsBalanced task q p d b in
    route_all-IsBalanced tasks next.1.0 (route task p) next.0 next.1.1
