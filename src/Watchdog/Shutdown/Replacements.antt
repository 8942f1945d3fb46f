-- ===== src/Watchdog/Shutdown/Replacements.antt =====
-- pyleaner/watchdog.py: what `_accept_replacement_guard` and `_stop_worker_scopes` do with a guard.
use py_leaner.Base.{
  ℕ, ◌≡◌, refl, sym, ap, subst, ◌⊎◌, inl, inr, Bool, true, false, Option, none, some, List, [], ◌∷◌,
  ◌==◌, ==_iff, if◌then◌else◌, Among, Among-append, Among-append_right, Bool-cases,
}
use py_leaner.Base.Dict.{Dict, lookup, insert, values}
use py_leaner.Base.Text.{Text}
use py_leaner.Watchdog.Types.{Guard}
use py_leaner.Watchdog.Recovery.{Owner, accept_replacement_guard, stop_if_any, units_of}

module _ {A : Type 0} where
  pub Among-insert : (k : ℕ) (v : A) (d : Dict A) → Among v (values (insert k v d))
  Among-insert k v [] = inl refl
  Among-insert k v ((j, w) ∷ d) = elim (Bool-cases (k == j)) [
    | inl e ↦ rw e (inl refl)
    | inr e ↦ rw e (inr (Among-insert k v d))
  ]

  pub Among-inserted :
      (k : ℕ) (g v : A) (d : Dict A)
      → Among g (values d)
      → Among g (values (insert k v d)) ⊎ (lookup k d ≡ some g)
  Among-inserted k g v [] h = absurd h
  Among-inserted k g v ((j, w) ∷ d) h = by_key (k == j) h (Among-inserted k g v d)
    where
      by_key :
          (b : Bool)
          → Among g (w ∷ values d)
          → (Among g (values d) → Among g (values (insert k v d)) ⊎ (lookup k d ≡ some g))
          → Among g (values (if b then (j, v) ∷ d else (j, w) ∷ insert k v d))
            ⊎ ((if b then some w else lookup k d) ≡ some g)
      by_key true (inl e) rest = inr (ap some (sym e))
      by_key true (inr h) rest = inl (inr h)
      by_key false (inl e) rest = inl (inl e)
      by_key false (inr h) rest = elim (rest h) [ inl m ↦ inl (inr m) | inr e ↦ inr e ]

-- The guard has no scope, or its scope has been stopped.
abbrev pub IsStopped : Guard → List Text → Type 0
IsStopped g stopped = (g.unit ≡ []) ⊎ Among g.unit stopped

pub units_of-Among : (g : Guard) (gs : List Guard) → Among g gs → IsStopped g (units_of gs)
unfolding units_of
units_of-Among g [] h = absurd h
units_of-Among g (x ∷ gs) (inl e) =
    subst (λ y. IsStopped y (units_of (x ∷ gs))) (sym e) (first x.unit refl)
  where
    first :
        (u : Text)
        → x.unit ≡ u
        → IsStopped x (elim u [ [] ↦ units_of gs | c ∷ cs ↦ x.unit ∷ units_of gs ])
    first [] e = inl e
    first (c ∷ cs) e = inr (inl refl)
units_of-Among g (x ∷ gs) (inr h) = later x.unit (units_of-Among g gs h)
  where
    later :
        (u : Text)
        → IsStopped g (units_of gs)
        → IsStopped g (elim u [ [] ↦ units_of gs | c ∷ cs ↦ x.unit ∷ units_of gs ])
    later u (inl e) = inl e
    later [] (inr m) = inr m
    later (c ∷ cs) (inr m) = inr (inr m)

pub stopped-stop_if_any : (g : Guard) (o : Owner) → IsStopped g (stop_if_any g.unit o).stopped
stopped-stop_if_any g o = by_unit g.unit
  where
    by_unit : (u : Text) → (u ≡ []) ⊎ Among u (stop_if_any u o).stopped
    by_unit [] = inl refl
    by_unit (c ∷ cs) = inr (Among-append_right (c ∷ cs) o.stopped ((c ∷ cs) ∷ []) (inl refl))

-- What the owner does with a replacement guard: it takes it in the place of the guard that was
-- replaced, or it stops its scope.
abbrev pub Taken : ℕ → ℕ → Guard → Owner → Owner → Type 0
Taken worker old_pid new o o' =
    (current : Guard) × (lookup worker o.worker_scopes ≡ some current)
    × (current.pid ≡ old_pid)
    × (o'.worker_scopes ≡ insert worker new o.worker_scopes)
    × (o'.stopped ≡ o.stopped)

abbrev pub Refused : Guard → Owner → Owner → Type 0
Refused new o o' = (o'.worker_scopes ≡ o.worker_scopes) × (o' ≡ stop_if_any new.unit o)

stop_if_any-scopes : (u : Text) (o : Owner) → (stop_if_any u o).worker_scopes ≡ o.worker_scopes
stop_if_any-scopes [] o = refl
stop_if_any-scopes (c ∷ cs) o = refl

pub stop_if_any-Among :
    (v u : Text) (o : Owner) → Among v o.stopped → Among v (stop_if_any u o).stopped
stop_if_any-Among v [] o h = h
stop_if_any-Among v (c ∷ cs) o h = Among-append v o.stopped ((c ∷ cs) ∷ []) h

pub accept_replacement_guard-cases :
    (generation worker old_pid : ℕ) (new : Guard) (o : Owner)
    → Taken worker old_pid new o (accept_replacement_guard generation worker old_pid new o)
      ⊎ Refused new o (accept_replacement_guard generation worker old_pid new o)
unfolding accept_replacement_guard
accept_replacement_guard-cases generation worker old_pid new o =
    by_cases (generation == o.generation) (lookup worker o.worker_scopes) refl
  where
    by_pid :
        (current : Guard) (b : Bool)
        → lookup worker o.worker_scopes ≡ some current
        → (current.pid == old_pid) ≡ b
        → let o' =
            if b
            then record o { worker_scopes = insert worker new o.worker_scopes }
            else stop_if_any new.unit o in
          Taken worker old_pid new o o' ⊎ Refused new o o'
    by_pid current true e p = inl (current, e, (==_iff current.pid old_pid).0 p, refl, refl)
    by_pid current false e p = inr (stop_if_any-scopes new.unit o, refl)

    by_cases :
        (b : Bool) (found : Option Guard)
        → lookup worker o.worker_scopes ≡ found
        → let o' : Owner =
            if b
            then elim found [
              | none ↦ stop_if_any new.unit o
              | some current ↦
                  if current.pid == old_pid
                  then record o { worker_scopes = insert worker new o.worker_scopes }
                  else stop_if_any new.unit o
            ]
            else stop_if_any new.unit o in
          Taken worker old_pid new o o' ⊎ Refused new o o'
    by_cases false found e = inr (stop_if_any-scopes new.unit o, refl)
    by_cases true none e = inr (stop_if_any-scopes new.unit o, refl)
    by_cases true (some current) e = by_pid current (current.pid == old_pid) e refl
