-- ===== src/Pool/Select.antt =====
-- pyleaner/pool.py: `min(ready, key=load)` of the router.
use py_leaner.Base.{
  ℕ, ◌≤◌, ◌<◌, ◌≡◌, refl, sym, subst, ◌⊎◌, inl, inr, true, false, List, [], ◌∷◌, arith, All,
  Bool-cases,
}
use py_leaner.Pool.{Worker, load, distance, before, least}

module _ (n cursor : ℕ) where
  -- The worker is no busier, and at the same load no further from the cursor.
  abbrev pub Leq : Worker → Worker → Type 0
  Leq v w = (load v < load w) ⊎ ((load v ≡ load w) × (distance n cursor v ≤ distance n cursor w))

  Leq-refl : (v : Worker) → Leq v v
  Leq-refl v = inr (refl, omega arith)

  Leq-trans : (u v w : Worker) → Leq u v → Leq v w → Leq u w
  Leq-trans u v w p q = ground arith

  before-Leq : (v w : Worker) → before n cursor v w ≡ true → Leq v w
  unfolding before
  before-Leq v w h = ground arith

  not_before-Leq : (v w : Worker) → before n cursor v w ≡ false → Leq w v
  unfolding before
  not_before-Leq v w h = ground arith

  least_first :
      (best w : Worker) (ws : List Worker)
      → before n cursor w best ≡ true
      → least n cursor best (w ∷ ws) ≡ least n cursor w ws
  unfolding least
  least_first best w ws e = rw e

  least_later :
      (best w : Worker) (ws : List Worker)
      → before n cursor w best ≡ false
      → least n cursor best (w ∷ ws) ≡ least n cursor best ws
  unfolding least
  least_later best w ws e = rw e

  Leq-cons :
      (chosen best w : Worker) (ws : List Worker)
      → Leq best w
      → All (Leq chosen) (best ∷ ws)
      → All (Leq chosen) (best ∷ w ∷ ws)
  Leq-cons chosen best w ws p h = (h.0, (Leq-trans chosen best w h.0 p, h.1))

  Leq-insert :
      (chosen best w : Worker) (ws : List Worker)
      → Leq w best
      → All (Leq chosen) (w ∷ ws)
      → All (Leq chosen) (best ∷ w ∷ ws)
  Leq-insert chosen best w ws p h = (Leq-trans chosen w best h.0 p, h)

  -- The chosen worker comes before all that were offered.
  pub least-Leq :
      (best : Worker) (ws : List Worker) → All (Leq (least n cursor best ws)) (best ∷ ws)
  least-Leq best [] = unfold least in (Leq-refl best, tt)
  least-Leq best (w ∷ ws) = elim (Bool-cases (before n cursor w best)) [
    | inl e ↦
        subst (λ c. All (Leq c) (best ∷ w ∷ ws)) (sym (least_first best w ws e))
          (Leq-insert (least n cursor w ws) best w ws (before-Leq w best e) (least-Leq w ws))
    | inr e ↦
        subst (λ c. All (Leq c) (best ∷ w ∷ ws)) (sym (least_later best w ws e))
          (Leq-cons (least n cursor best ws) best w ws (not_before-Leq w best e)
            (least-Leq best ws))
  ]

  -- The chosen worker is one of those that were offered.
  pub least_among {ℓ} :
      (P : Worker → Type ℓ) (best : Worker) (ws : List Worker)
      → All P (best ∷ ws)
      → P (least n cursor best ws)
  unfolding least
  least_among P best [] h = h.0
  least_among P best (w ∷ ws) h = elim (Bool-cases (before n cursor w best)) [
    | inl e ↦ rw e (least_among P w ws h.1)
    | inr e ↦ rw e (least_among P best ws (h.0, h.1.1))
  ]
