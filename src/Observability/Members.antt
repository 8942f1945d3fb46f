-- ===== src/Observability/Members.antt =====
-- Membership of a text in a list of texts, and how many of a list's texts are in none of another.
use py_leaner.Base.{
  ℕ, ◌+◌, ◌≤◌, ◌<◌, Bool, true, false, ◌||◌, ◌≡◌, refl, inl, inr, List, [], ◌∷◌, ◌++◌, arith,
  if◌then◌else◌, length, keep, Among, Bool-cases, subst,
}
use py_leaner.Base.Text.{Text, text_eq, text_eq_iff, text_eq_refl}
use py_leaner.Observability.Imports.{has}

pub has-append : (m : Text) (xs ys : List Text) → has m (xs ++ ys) ≡ (has m xs || has m ys)
unfolding has
has-append m [] ys = refl
has-append m (x ∷ xs) ys = ground (arith, has-append m xs ys)

pub has-Among : (m : Text) (xs : List Text) → has m xs ≡ true → Among m xs
unfolding has
has-Among m [] h = cc
has-Among m (x ∷ xs) h = elim (Bool-cases (text_eq m x)) [
  | inl e ↦ inl ((text_eq_iff m x).0 e)
  | inr e ↦ inr (has-Among m xs (ground (arith, h, e)))
]

pub Among-has : (m : Text) (xs : List Text) → Among m xs → has m xs ≡ true
unfolding has
Among-has m [] h = absurd h
Among-has m (x ∷ xs) (inl e) = ground (arith, (text_eq_iff m x).1 e)
Among-has m (x ∷ xs) (inr h) = ground (arith, Among-has m xs h)

pub has-cons_self : (m : Text) (xs : List Text) → has m (m ∷ xs) ≡ true
unfolding has
has-cons_self m xs = ground (arith, text_eq_refl m)

-- What is in a longer list is its new front or is in the rest.
pub has-cons : (m k : Text) (xs : List Text) → has m (k ∷ xs) ≡ (text_eq m k || has m xs)
unfolding has
has-cons m k xs = refl

pub has-keep :
    (p : Text → Bool) (m : Text) (xs : List Text)
    → p m ≡ true
    → has m xs ≡ true
    → has m (keep p xs) ≡ true
unfolding has
has-keep p m [] h k = cc
has-keep p m (x ∷ xs) h k = elim (Bool-cases (text_eq m x)) [
  | inl e ↦
      let t : p x ≡ true = subst (λ y. p y ≡ true) ((text_eq_iff m x).0 e) h in ground (arith, t, e)
  | inr e ↦ ground (arith, has-keep p m xs h, k, e)
]

pub has-keep_inv :
    (p : Text → Bool) (m : Text) (xs : List Text) → has m (keep p xs) ≡ true → has m xs ≡ true
unfolding has
has-keep_inv p m [] h = cc
has-keep_inv p m (x ∷ xs) h = ground (arith, has-keep_inv p m xs, h)

unfoldable pub unseen : List Text → List Text → ℕ
unseen [] seen = 0
unseen (u ∷ us) seen = (if has u seen then 0 else 1) + unseen us seen

pub unseen-nil : (us : List Text) → unseen us [] ≡ length us
unfolding unseen has
unseen-nil [] = refl
unseen-nil (u ∷ us) = ground (arith, unseen-nil us)

unseen_le : (us : List Text) (m : Text) (seen : List Text) → unseen us (m ∷ seen) ≤ unseen us seen
unfolding unseen has
unseen_le [] m seen = omega arith
unseen_le (u ∷ us) m seen = ground (arith, unseen_le us m seen)

pub unseen-cons :
    (us : List Text) (m : Text) (seen : List Text)
    → has m us ≡ true
    → has m seen ≡ false
    → unseen us (m ∷ seen) < unseen us seen
unfolding unseen has
unseen-cons [] m seen h k = cc
unseen-cons (u ∷ us) m seen h k = elim (Bool-cases (text_eq m u)) [
  | inl e ↦
      let t = (text_eq_iff m u).0 e in
      let f : text_eq u m ≡ true = subst (λ v. text_eq v m ≡ true) t (text_eq_refl m) in
      let g : has u seen ≡ false = subst (λ v. has v seen ≡ false) t k in
      ground (arith, f, g, unseen_le us m seen)
  | inr e ↦ ground (arith, e, unseen-cons us m seen, h, k)
]
