-- ===== src/Observability/Sorted.antt =====
-- `sorted` on distinct texts, or on the items of a dict by their keys: one order for each set.
use py_leaner.Base.{
  Bool, true, false, ◌&&◌, ◌||◌, ◌≡◌, ◌≢◌, refl, sym, subst, inl, inr, List, [], ◌∷◌, arith, ltb,
  ◌==◌, if◌then◌else◌, All, All-map, Among, Among-All, Bool-cases,
}
use py_leaner.Base.Text.{Text}

-- `s < t`
unfoldable pub text_ltb : Text → Text → Bool
text_ltb s [] = false
text_ltb [] (b ∷ t) = true
text_ltb (a ∷ s) (b ∷ t) = ltb a b || (a == b && text_ltb s t)

ltb_trans : (s t u : Text) → text_ltb s t ≡ true → text_ltb t u ≡ true → text_ltb s u ≡ true
unfolding text_ltb
ltb_trans [] [] u h k = ground arith
ltb_trans [] (b ∷ t) [] h k = cc
ltb_trans [] (b ∷ t) (c ∷ u) h k = refl
ltb_trans (a ∷ s) [] u h k = cc
ltb_trans (a ∷ s) (b ∷ t) [] h k = cc
ltb_trans (a ∷ s) (b ∷ t) (c ∷ u) h k = ground (arith, ltb_trans s t u)

pub ltb_irrefl : (s : Text) → text_ltb s s ≡ false
unfolding text_ltb
ltb_irrefl [] = refl
ltb_irrefl (a ∷ s) = ground (arith, ltb_irrefl s)

ltb_total : (s t : Text) → text_ltb s t ≡ false → s ≢ t → text_ltb t s ≡ true
unfolding text_ltb
ltb_total [] [] h k = absurd (k refl)
ltb_total [] (b ∷ t) h k = cc
ltb_total (a ∷ s) [] h k = refl
ltb_total (a ∷ s) (b ∷ t) h k = ground (arith, ltb_total s t)

module _ {A : Type 0} (key : A → Text) where
  unfoldable pub place : A → List A → List A
  place a [] = a ∷ []
  place a (b ∷ ys) = if text_ltb (key a) (key b) then a ∷ b ∷ ys else b ∷ place a ys

  unfoldable pub sorted : List A → List A
  sorted [] = []
  sorted (a ∷ xs) = place a (sorted xs)

  abbrev IsAfter : A → A → Type 0
  IsAfter a b = text_ltb (key a) (key b) ≡ true

  abbrev IsSorted : List A → Type 0
  IsSorted [] = Unit
  IsSorted (a ∷ xs) = All (IsAfter a) xs × IsSorted xs

  -- No key stands twice.
  abbrev pub HasKeysOnce : List A → Type 0
  HasKeysOnce [] = Unit
  HasKeysOnce (a ∷ xs) = All (λ b. key a ≢ key b) xs × HasKeysOnce xs

  All-place {κ} : (P : A → Type κ) (a : A) (xs : List A) → P a → All P xs → All P (place a xs)
  unfolding place
  All-place P a [] p h = (p, tt)
  All-place P a (b ∷ ys) p h = elim (Bool-cases (text_ltb (key a) (key b))) [
    | inl e ↦ rw e (p, h)
    | inr e ↦ rw e (h.0, All-place P a ys p h.1)
  ]

  All-sorted {κ} : (P : A → Type κ) (xs : List A) → All P xs → All P (sorted xs)
  unfolding sorted
  All-sorted P [] h = tt
  All-sorted P (a ∷ xs) h = All-place P a (sorted xs) h.0 (All-sorted P xs h.1)

  place-IsSorted :
      (a : A) (xs : List A) → All (λ b. key a ≢ key b) xs → IsSorted xs → IsSorted (place a xs)
  unfolding place
  place-IsSorted a [] n h = (tt, tt)
  place-IsSorted a (b ∷ ys) n h = elim (Bool-cases (text_ltb (key a) (key b))) [
    | inl e ↦
        rw e (
          (e, All-map (IsAfter b) (IsAfter a) ys (λ c. ltb_trans (key a) (key b) (key c) e) h.0),
          h,
        )
    | inr e ↦ rw e (
      All-place (IsAfter b) a ys (ltb_total (key a) (key b) e n.0) h.0,
      place-IsSorted a ys n.1 h.1,
    )
  ]

  sorted-IsSorted : (xs : List A) → HasKeysOnce xs → IsSorted (sorted xs)
  unfolding sorted
  sorted-IsSorted [] h = tt
  sorted-IsSorted (a ∷ xs) h =
      place-IsSorted a (sorted xs) (All-sorted (λ b. key a ≢ key b) xs h.0) (sorted-IsSorted xs h.1)

  moved :
      (x a b : A) (xs zs : List A)
      → (Among x (a ∷ xs) → Among x zs)
      → Among x (a ∷ b ∷ xs)
      → Among x (b ∷ zs)
  moved x a b xs zs f (inl e) = inr (f (inl e))
  moved x a b xs zs f (inr (inl e)) = inl e
  moved x a b xs zs f (inr (inr n)) = inr (f (inr n))

  Among-place : (x a : A) (xs : List A) → Among x (a ∷ xs) → Among x (place a xs)
  unfolding place
  Among-place x a [] m = m
  Among-place x a (b ∷ ys) m = elim (Bool-cases (text_ltb (key a) (key b))) [
    | inl e ↦ rw e m
    | inr e ↦ rw e (moved x a b ys (place a ys) (Among-place x a ys) m)
  ]

  pub Among-sorted : (x : A) (xs : List A) → Among x xs → Among x (sorted xs)
  unfolding sorted
  Among-sorted x [] m = absurd m
  Among-sorted x (a ∷ xs) (inl e) = Among-place x a (sorted xs) (inl e)
  Among-sorted x (a ∷ xs) (inr m) = Among-place x a (sorted xs) (inr (Among-sorted x xs m))

  abbrev pub Within : List A → List A → Type 0
  Within xs ys = (x : A) → Among x xs → Among x ys

  All-Among_in : (xs ys : List A) → Within xs ys → All (λ x. Among x ys) xs
  All-Among_in [] ys w = tt
  All-Among_in (a ∷ xs) ys w = (w a (inl refl), All-Among_in xs ys (λ x m. w x (inr m)))

  Within-sorted : (xs ys : List A) → Within xs ys → Within (sorted xs) ys
  Within-sorted xs ys w x m =
      Among-All (λ y. Among y ys) x (sorted xs) m
        (All-sorted (λ y. Among y ys) xs (All-Among_in xs ys w))

  pub sorted-Among : (x : A) (xs : List A) → Among x (sorted xs) → Among x xs
  sorted-Among x xs m = Within-sorted xs xs (λ y n. n) x m

  not-after : (a b : A) → a ≡ b → IsAfter a b → ⊥
  not-after a b e h = absurd (cc (ltb_irrefl (key b), subst (λ z. IsAfter z b) e h))

  head_eq :
      (x y : A) (xs ys : List A)
      → All (IsAfter x) xs
      → All (IsAfter y) ys
      → Among x (y ∷ ys)
      → Among y (x ∷ xs)
      → x ≡ y
  head_eq x y xs ys h k (inl e) m = e
  head_eq x y xs ys h k (inr n) (inl e) = sym e
  head_eq x y xs ys h k (inr n) (inr m) = absurd (
      not-after x x refl (
        ltb_trans (key x) (key y) (key x) (Among-All (IsAfter x) y xs m h)
          (Among-All (IsAfter y) x ys n k)))

  tail-Within :
      (x y : A) (xs ys : List A)
      → x ≡ y
      → All (IsAfter x) xs
      → Within (x ∷ xs) (y ∷ ys)
      → Within xs ys
  tail-Within x y xs ys e h w a m = elim (w a (inr m)) [
    | inr n ↦ n
    | inl f ↦ absurd (not-after x a (cc) (Among-All (IsAfter x) a xs m h))
  ]

  sorted_unique :
      (xs ys : List A) → IsSorted xs → IsSorted ys → Within xs ys → Within ys xs → xs ≡ ys
  sorted_unique [] [] h k v w = refl
  sorted_unique [] (y ∷ ys) h k v w = absurd (w y (inl refl))
  sorted_unique (x ∷ xs) [] h k v w = absurd (v x (inl refl))
  sorted_unique (x ∷ xs) (y ∷ ys) h k v w =
      let e = head_eq x y xs ys h.0 k.0 (v x (inl refl)) (w y (inl refl)) in
      let rest =
        sorted_unique xs ys h.1 k.1 (tail-Within x y xs ys e h.0 v)
          (tail-Within y x ys xs (sym e) k.0 w) in
      cc

  -- Two lists with the same elements, no key twice in either, are the same when they are sorted.
  pub sorted_same :
      (xs ys : List A)
      → HasKeysOnce xs
      → HasKeysOnce ys
      → Within xs ys
      → Within ys xs
      → sorted xs ≡ sorted ys
  sorted_same xs ys h k v w =
      sorted_unique (sorted xs) (sorted ys) (sorted-IsSorted xs h) (sorted-IsSorted ys k)
        (Within-sorted xs (sorted ys) (λ x m. Among-sorted x ys (v x m)))
        (Within-sorted ys (sorted xs) (λ x m. Among-sorted x xs (w x m)))
