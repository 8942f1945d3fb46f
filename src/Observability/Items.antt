-- ===== src/Observability/Items.antt =====
-- The items of a dict from texts to texts, when a key is set.
use py_leaner.Base.{
  true, ◌≡◌, ◌≢◌, refl, sym, ap, ◌∙◌, subst, ◌⊎◌, inl, inr, [], ◌∷◌, All, Among, Bool-cases,
}
use py_leaner.Base.Text.{Text, text_eq, text_eq_iff, text_eq_refl}
use py_leaner.Base.TextDict.{TextDict, put_key}
use py_leaner.Observability.Sorted.{HasKeysOnce}

-- The keys of the dict's items stand once each, and an item that is put is among them.
put_key-keys :
    (k j : Text) (v : Text) (d : TextDict Text)
    → j ≢ k
    → All (λ e. j ≢ e.0) d
    → All (λ e. j ≢ e.0) (put_key k v d)
unfolding put_key
put_key-keys k j v [] n h = (n, tt)
put_key-keys k j v ((i, w) ∷ d) n h = elim (Bool-cases (text_eq k i)) [
  | inl e ↦ rw e (h.0, h.1)
  | inr e ↦ rw e (h.0, put_key-keys k j v d n h.1)
]

pub put_key-HasKeysOnce :
    (k v : Text) (d : TextDict Text)
    → HasKeysOnce (λ e. e.0) d
    → HasKeysOnce (λ e. e.0) (put_key k v d)
unfolding put_key
put_key-HasKeysOnce k v [] h = (tt, tt)
put_key-HasKeysOnce k v ((i, w) ∷ d) h = elim (Bool-cases (text_eq k i)) [
  | inl e ↦ rw e (h.0, h.1)
  | inr e ↦
      let n : i ≢ k = λ f. absurd (cc (subst (λ j. text_eq k j ≡ true) (sym f) (text_eq_refl k))) in
      rw e (put_key-keys k i v d n h.0, put_key-HasKeysOnce k v d h.1)
]

pub put_key-Among : (k v : Text) (d : TextDict Text) → Among (k, v) (put_key k v d)
unfolding put_key
put_key-Among k v [] = inl refl
put_key-Among k v ((i, w) ∷ d) = elim (Bool-cases (text_eq k i)) [
  | inl e ↦ rw e (inl (cc ((text_eq_iff k i).0 e)))
  | inr e ↦ rw e (inr (put_key-Among k v d))
]

-- What stays: an item with another key, or with the same value.
replaced :
    (i k v w a b : Text) (d : TextDict Text)
    → i ≡ k
    → (a ≡ k → b ≡ v)
    → Among (a, b) ((i, w) ∷ d)
    → Among (a, b) ((i, v) ∷ d)
replaced i k v w a b d e f (inl g) = inl (cc (f (ap (λ p. p.0) g ∙ e), ap (λ p. p.0) g))
replaced i k v w a b d e f (inr n) = inr n

Among-tail :
    (x y : Text × Text) (d c : TextDict Text)
    → (Among x d → Among x c)
    → Among x (y ∷ d)
    → Among x (y ∷ c)
Among-tail x y d c f (inl g) = inl g
Among-tail x y d c f (inr n) = inr (f n)

pub Among-put_key :
    (k v a b : Text) (d : TextDict Text)
    → (a ≡ k → b ≡ v)
    → Among (a, b) d
    → Among (a, b) (put_key k v d)
unfolding put_key
Among-put_key k v a b [] f m = absurd m
Among-put_key k v a b ((i, w) ∷ d) f m = elim (Bool-cases (text_eq k i)) [
  | inl e ↦ rw e (replaced i k v w a b d (sym ((text_eq_iff k i).0 e)) f m)
  | inr e ↦ rw e (Among-tail (a, b) (i, w) d (put_key k v d) (Among-put_key k v a b d f) m)
]

put_here :
    (i k v w : Text) (x : Text × Text) (d : TextDict Text)
    → i ≡ k
    → Among x ((i, v) ∷ d)
    → (x ≡ (k, v)) ⊎ Among x ((i, w) ∷ d)
put_here i k v w x d e (inl g) = inl (cc)
put_here i k v w x d e (inr n) = inr (inr n)

put_later :
    (k v : Text) (x y : Text × Text) (d c : TextDict Text)
    → (Among x c → (x ≡ (k, v)) ⊎ Among x d)
    → Among x (y ∷ c)
    → (x ≡ (k, v)) ⊎ Among x (y ∷ d)
put_later k v x y d c f (inl g) = inr (inl g)
put_later k v x y d c f (inr n) = elim (f n) [ inl g ↦ inl g | inr m ↦ inr (inr m) ]

pub Among-put_key_inv :
    (k v : Text) (x : Text × Text) (d : TextDict Text)
    → Among x (put_key k v d)
    → (x ≡ (k, v)) ⊎ Among x d
unfolding put_key
Among-put_key_inv k v x [] (inl e) = inl e
Among-put_key_inv k v x [] (inr m) = absurd m
Among-put_key_inv k v x ((i, w) ∷ d) m = elim (Bool-cases (text_eq k i)) [
  | inl e ↦ put_here i k v w x d (sym ((text_eq_iff k i).0 e)) (rw e at m)
  | inr e ↦ put_later k v x (i, w) d (put_key k v d) (Among-put_key_inv k v x d) (rw e at m)
]
