-- ===== src/Watchdog/Processes/Found.antt =====
-- pyleaner/watchdog.py: `_collect_descendants` ends, with the processes below the root.
use py_leaner.Base.{
  ℕ, zero, suc, ◌+◌, ◌≤◌, ◌≡◌, ◌≢◌, ◌↔◌, refl, sym, subst, ◌⊎◌, inl, inr, true, false, Option, none,
  some, List, [], ◌∷◌, ◌++◌, arith, ◌==◌, ==_iff, mem-append, mem, length, Among, Bool-cases,
}
use py_leaner.Watchdog.Processes.{Search, take_up, visit, search, collect_descendants}
use py_leaner.Watchdog.Processes.Tree.{unseen, unseen-mem, visit-Grows, visit-covers, Records}

module _ (children : ℕ → List (Option ℕ)) (root : ℕ) where
  -- The root, and the children of what is below it.
  pub data IsBelow : ℕ → Type 0 where
    at_root : IsBelow root
    child_of : (p c : ℕ) → IsBelow p → Among (some c) (children p) → IsBelow c

  abbrev turn : ℕ → List ℕ → List ℕ → List ℕ → Search
  turn p seen descendants frontier =
      visit (children p) (record { seen = seen; descendants = descendants; frontier = frontier })

  -- What has been seen is below the root; each has been expanded or waits; the frontier has been
  -- seen.
  abbrev Sound : List ℕ → Type 0
  Sound seen = (k : ℕ) → mem k seen ≡ true → IsBelow k

  abbrev Closed : List ℕ → List ℕ → Type 0
  Closed seen frontier =
      (p : ℕ)
      → mem p seen ≡ true
      → (mem p frontier ≡ true) ⊎ ((c : ℕ) → Among (some c) (children p) → mem c seen ≡ true)

  Closed-all :
      (seen : List ℕ)
      → Closed seen []
      → mem root seen ≡ true
      → (k : ℕ) → IsBelow k
      → mem k seen ≡ true
  Closed-all seen closed r k at_root = r
  Closed-all seen closed r k (child_of p c b a) = elim (closed p (Closed-all seen closed r p b)) [
    | inl h ↦ absurd (cc)
    | inr f ↦ f c a
  ]

  Closed-turn :
      (p : ℕ) (seen descendants frontier : List ℕ)
      → Closed seen (p ∷ frontier)
      → Closed (turn p seen descendants frontier).seen (turn p seen descendants frontier).frontier
  Closed-turn p seen descendants frontier closed k h =
      let s : Search = record { seen = seen; descendants = descendants; frontier = frontier } in
      let (grow, stay, new) = visit-Grows (children p) s in
      elim (new k h) [
        | inr g ↦ inl g
        | inl old ↦ elim (closed k old) [
          | inl g ↦ elim (Bool-cases (k == p)) [
            | inl e ↦ inr (λ c a.
                visit-covers (children p) s c
                  (subst (λ q. Among (some c) (children q)) ((==_iff k p).0 e) a))
            | inr e ↦ inl (stay k (ground (arith, g, e)))
          ]
          | inr f ↦ inr (λ c a. grow c (f c a))
        ]
      ]

  unseen_le : (us seen : List ℕ) → unseen us seen ≤ length us
  unseen_le [] seen = omega arith
  unseen_le (u ∷ us) seen = ground (arith, unseen_le us seen)

  -- What each step of the search keeps, with the processes that any parent has as children.
  pub record IsSearch (us : List ℕ) (fuel : ℕ) (s : Search) : Type 0 where
    pub sound : Sound s.seen
    pub waits : (k : ℕ) → mem k s.frontier ≡ true → mem k s.seen ≡ true
    pub records : Records root s
    pub fresh : mem root s.descendants ≡ false
    pub enough : length s.frontier + unseen us s.seen ≤ fuel

  abbrev with_child : ℕ → Search → Search
  with_child c s = record {
    seen = c ∷ s.seen;
    descendants = s.descendants ++ c ∷ [];
    frontier = c ∷ s.frontier;
  }

  take_up_new : (c : ℕ) (s : Search) → mem c s.seen ≡ false → with_child c s ≡ take_up c s
  unfolding take_up
  take_up_new c s h = rw h refl

  take_up_old : (c : ℕ) (s : Search) → mem c s.seen ≡ true → s ≡ take_up c s
  unfolding take_up
  take_up_old c s h = rw h refl

  with_child-IsSearch :
      (us : List ℕ) (fuel c : ℕ) (s : Search)
      → IsBelow c
      → mem c us ≡ true
      → mem c s.seen ≡ false
      → IsSearch us fuel s
      → IsSearch us fuel (with_child c s)
  with_child-IsSearch us fuel c s b u n i = record {
    sound = λ k h. elim (Bool-cases (k == c)) [
      | inl e ↦ subst IsBelow (sym ((==_iff k c).0 e)) b
      | inr e ↦ i.sound k (ground (arith, h, e))
    ];
    waits = λ k h. ground (arith, h, i.waits k);
    records = λ k. ground (arith, i.records k, mem-append k s.descendants (c ∷ []));
    fresh = ground (arith, i.fresh, i.records root, mem-append root s.descendants (c ∷ []));
    enough = omega (arith, i.enough, unseen-mem c us s.seen u n);
  }

  take_up-IsSearch :
      (us : List ℕ) (fuel c : ℕ) (s : Search)
      → IsBelow c
      → mem c us ≡ true
      → IsSearch us fuel s
      → IsSearch us fuel (take_up c s)
  take_up-IsSearch us fuel c s b u i = elim (Bool-cases (mem c s.seen)) [
    | inl e ↦ subst (IsSearch us fuel) (take_up_old c s e) i
    | inr e ↦ subst (IsSearch us fuel) (take_up_new c s e) (with_child-IsSearch us fuel c s b u e i)
  ]

  visit-IsSearch :
      (us : List ℕ) (fuel : ℕ) (lines : List (Option ℕ)) (s : Search)
      → ((c : ℕ) → Among (some c) lines → IsBelow c × (mem c us ≡ true))
      → IsSearch us fuel s
      → IsSearch us fuel (visit lines s)
  unfolding visit
  visit-IsSearch us fuel [] s below i = i
  visit-IsSearch us fuel (none ∷ lines) s below i =
      visit-IsSearch us fuel lines s (λ c a. below c (inr a)) i
  visit-IsSearch us fuel (some c ∷ lines) s below i =
      let here = below c (inl refl) in
      visit-IsSearch us fuel lines (take_up c s) (λ d a. below d (inr a))
        (take_up-IsSearch us fuel c s here.0 here.1 i)

  -- Every child of any process is one of these.
  abbrev pub Lists : List ℕ → Type 0
  Lists us = (p c : ℕ) → Among (some c) (children p) → mem c us ≡ true

  turn-IsSearch :
      (us : List ℕ) (fuel p : ℕ) (seen descendants frontier : List ℕ)
      → Lists us
      → IsSearch us
          (suc fuel)
          (record { seen = seen; descendants = descendants; frontier = p ∷ frontier })
      → IsSearch us fuel (turn p seen descendants frontier)
  turn-IsSearch us fuel p seen descendants frontier lists i =
      let below = i.sound p (i.waits p (ground arith)) in
      visit-IsSearch us fuel (children p)
        (record { seen = seen; descendants = descendants; frontier = frontier })
        (λ c a. (child_of p c below a, lists p c a))
        (record {
          sound = i.sound;
          waits = λ k h. i.waits k (ground (arith, h));
          records = i.records;
          fresh = i.fresh;
          enough = omega (arith, i.enough);
        })

  -- The search has ended with the processes below the root, without the root.
  abbrev pub Finds : Option (List ℕ) → Type 0
  Finds o = (ds : List ℕ) × (o ≡ some ds) × ((k : ℕ) → (mem k ds ≡ true) ↔ ((k ≢ root) × IsBelow k))

  search-Finds :
      (us : List ℕ) (fuel : ℕ) (seen descendants frontier : List ℕ)
      → Lists us
      → IsSearch us fuel (record { seen = seen; descendants = descendants; frontier = frontier })
      → Closed seen frontier
      → Finds (search children fuel seen descendants frontier)
  unfolding search
  search-Finds us fuel seen descendants [] lists i closed = (
    descendants,
    refl,
    λ k. (
      λ h.
          (λ e. absurd (ground (arith, i.fresh, h, e)), i.sound k (ground (arith, h, i.records k))),
      λ (ne, b).
          ground
            (arith, ne, i.records k, Closed-all seen closed (ground (arith, i.records root)) k b),
    ),
  )
  search-Finds us zero seen descendants (p ∷ frontier) lists i closed =
      absurd (omega (arith, i.enough))
  search-Finds us (suc fuel) seen descendants (p ∷ frontier) lists i closed =
      let s = turn p seen descendants frontier in
      search-Finds us fuel s.seen s.descendants s.frontier lists
        (turn-IsSearch us fuel p seen descendants frontier lists i)
        (Closed-turn p seen descendants frontier closed)

  -- Where every child that `pgrep` prints is in a list, as many turns as the list is long and one
  -- more are enough for the search, whether the children form a tree or a cycle: it ends, and the
  -- processes that it has collected are exactly those below the root, by any number of steps, other
  -- than the root itself.
  pub collect_descendants-Finds :
      (us : List ℕ) (fuel : ℕ)
      → Lists us
      → length us + 1 ≤ fuel
      → Finds (collect_descendants children fuel root)
  unfolding collect_descendants
  collect_descendants-Finds us fuel lists enough =
      search-Finds us fuel (root ∷ []) [] (root ∷ []) lists
        (record {
          sound = λ k h. subst IsBelow (sym ((==_iff k root).0 (ground (arith, h)))) at_root;
          waits = λ k h. h;
          records = λ k. refl;
          fresh = refl;
          enough = omega (arith, unseen_le us (root ∷ []));
        })
        (λ p h. inl h)
