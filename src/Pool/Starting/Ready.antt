-- ===== src/Pool/Starting/Ready.antt =====
-- pyleaner/pool.py and pyleaner/client.py: a pool that has started can take tasks.
use py_leaner.Base.{
  ℕ, ◌≤◌, ◌≡◌, ◌≢◌, refl, sym, ap, ◌∙◌, subst, ◌⊎◌, inl, inr, Bool, true, false, not, Option, none,
  some, List, [], ◌∷◌, map, ◌==◌, ==_iff, keep, length, arith, Bool-cases, Option-cases,
}
use py_leaner.Base.Text.{Text}
use py_leaner.Task.{Task, Error}
use py_leaner.Pool.{Worker, Pool, route, ready_workers}
use py_leaner.Pool.Route.{Sends, route_least_busy}
use py_leaner.Client.Messages.{Inbox}
use py_leaner.Pool.Starting.{
  Opening, raised_in, error_in, new_pool, initialize_environment, initialize_all_workers,
  register_all, Startup, start_router, initialize_worker_pool, all_failed,
}

module _ {A : Type 0} (p : A → Bool) where
  keep_le : (xs : List A) → length (keep p xs) ≤ length xs
  keep_le [] = omega arith
  keep_le (x ∷ xs) = ground (arith, keep_le xs)

module _ {A : Type 0} (p : A → Bool) where
  -- All elements fail the test exactly if none passes it.
  none_pass : (xs : List A) → length (keep (λ x. not (p x)) xs) ≡ length xs → keep p xs ≡ []
  none_pass [] h = refl
  none_pass (x ∷ xs) h = elim (Bool-cases (p x)) [
    | inl e ↦ absurd (ground (arith, h, e, keep_le (λ x. not (p x)) xs))
    | inr e ↦ ground (arith, h, e, none_pass xs)
  ]

  all_fail : (xs : List A) → keep p xs ≡ [] → length (keep (λ x. not (p x)) xs) ≡ length xs
  all_fail [] h = refl
  all_fail (x ∷ xs) h = elim (Bool-cases (p x)) [
    | inl e ↦ absurd (cc (rw e at h))
    | inr e ↦ ground (arith, h, e, all_fail xs)
  ]

-- The pool raises and there is no router, and either the opening of a document has raised or no worker
-- is ready; or it does not raise, the router runs, and sends the next task to a ready worker.
abbrev pub Starts : (ℕ → Opening) → Startup → Type 0
Starts opens s =
    (((e : Error) × (s.error ≡ some e))
      × (s.routing ≡ false)
      × (((e : Error) × (raised_in opens s.pool.workers ≡ some e)) ⊎ (ready_workers s.pool ≡ [])))
    ⊎ ((s.error ≡ none)
        × (s.routing ≡ true)
        × ((task : Task) → Sends task s.pool (route task s.pool)))

Sends-if_ready : (p : Pool) (task : Task) → ready_workers p ≢ [] → Sends task p (route task p)
Sends-if_ready p task n = elim (route_least_busy task p) [
  | inl (e, f, g) ↦ absurd (n e)
  | inr s ↦ s
]

abbrev initialized : (ℕ → Opening) → Pool → Pool
initialized opens p = record p { workers = map (initialize_environment opens) p.workers }

raised_in-map :
    (opens : ℕ → Opening) (ws : List Worker)
    → raised_in opens (map (initialize_environment opens) ws) ≡ raised_in opens ws
unfolding raised_in initialize_environment
raised_in-map opens [] = refl
raised_in-map opens (w ∷ ws) = ap (error_in (opens w.worker_id)) (raised_in-map opens ws)

abbrev nobody : List Worker → Bool
nobody ws = length (keep (λ w. not w.ready) ws) == length ws

initialize_all-raised :
    (opens : ℕ → Opening) (p : Pool) (e : Error)
    → raised_in opens p.workers ≡ some e
    → initialize_all_workers opens p ≡ (initialized opens p, some e)
unfolding initialize_all_workers
initialize_all-raised opens p e h = rw h refl

initialize_all-failed :
    (opens : ℕ → Opening) (p : Pool)
    → raised_in opens p.workers ≡ none
    → nobody (initialized opens p).workers ≡ true
    → initialize_all_workers opens p
      ≡ (initialized opens p, some (all_failed (length (initialized opens p).workers)))
unfolding initialize_all_workers
initialize_all-failed opens p h e = rw (h, e) refl

initialize_all-started :
    (opens : ℕ → Opening) (p : Pool)
    → raised_in opens p.workers ≡ none
    → nobody (initialized opens p).workers ≡ false
    → initialize_all_workers opens p ≡ (initialized opens p, none)
unfolding initialize_all_workers
initialize_all-started opens p h e = rw (h, e) refl

start_router-Starts :
    (i : Inbox) (opens : ℕ → Opening) (p : Pool)
    → Starts opens (
        start_router
          (record i { workers = some (initialize_all_workers opens p).0.workers })
          (initialize_all_workers opens p))
unfolding start_router
start_router-Starts i opens p =
    let ws = (initialized opens p).workers in
    let out : Pool × Option Error → Startup =
      λ r. start_router (record i { workers = some r.0.workers }) r in
    elim (Option-cases (raised_in opens p.workers)) [
      | inr (e, h) ↦
          subst (λ r. Starts opens (out r)) (sym (initialize_all-raised opens p e h))
            (inl ((e, refl), refl, inl (e, raised_in-map opens p.workers ∙ h)))
      | inl h ↦ elim (Bool-cases (nobody ws)) [
        | inl e ↦
            subst (λ r. Starts opens (out r)) (sym (initialize_all-failed opens p h e))
              (inl (
                (all_failed (length ws), refl),
                refl,
                inr (none_pass (λ w. w.ready) ws ((==_iff _ _).0 e)),
              ))
        | inr e ↦
            subst (λ r. Starts opens (out r)) (sym (initialize_all-started opens p h e))
              (inr (
                refl,
                refl,
                λ task.
                    Sends-if_ready (initialized opens p) task
                      (λ f. absurd (cc ((==_iff _ _).1 (all_fail (λ w. w.ready) ws f)))),
              ))
      ]
    ]

-- In whatever order the workers of a pool are made and whatever becomes of the opening of their
-- documents, the start of the pool either raises, and then no router runs, and either an opening has
-- raised or no worker is ready; or it does not raise, and then the router runs and sends the next
-- task to a ready worker, never the failure that no worker is healthy.
pub initialize_worker_pool-Starts :
    (init_uri : Text) (ids made : List ℕ) (opens : ℕ → Opening) (i : Inbox)
    → Starts opens (initialize_worker_pool init_uri ids made opens i)
unfolding initialize_worker_pool
initialize_worker_pool-Starts init_uri ids made opens i =
    start_router-Starts (register_all init_uri ids i) opens (new_pool init_uri made)
