-- ===== src/Watchdog/Lifecycle/Alone.antt =====
-- pyleaner/watchdog.py: of what runs, nothing but what the watchdog holds.
use py_leaner.Base.{
  ℕ, true, false, ◌≡◌, refl, ap, ◌∙◌, subst, ◌⊎◌, inl, inr, Option, none, some, List, [], ◌∷◌, ◌==◌,
  arith, mem, Bool-cases,
}
use py_leaner.Watchdog.Lifecycle.{is_running, without}

-- Of those that run, none is another than the one held.
abbrev pub IsAlone : Option ℕ → List ℕ → Type 0
IsAlone none ns = ns ≡ []
IsAlone (some n) ns = (ns ≡ []) ⊎ (ns ≡ n ∷ [])

pub IsAlone-nil : (x : Option ℕ) → IsAlone x []
IsAlone-nil none = refl
IsAlone-nil (some n) = inl refl

pub IsAlone-idle : (x : Option ℕ) (ns : List ℕ) → IsAlone x ns → is_running x ns ≡ false → ns ≡ []
unfolding is_running
IsAlone-idle none ns a h = a
IsAlone-idle (some n) ns (inl e) h = e
IsAlone-idle (some n) ns (inr e) h = absurd (not_running (subst (λ ms. mem n ms ≡ false) e h))
  where
    not_running : mem n (n ∷ []) ≡ false → ⊥
    not_running f = ground (arith, f)

pub IsAlone-running :
    (x : Option ℕ) (ns : List ℕ)
    → IsAlone x ns
    → is_running x ns ≡ true
    → (n : ℕ) × (x ≡ some n) × (ns ≡ n ∷ [])
unfolding is_running
IsAlone-running none ns a h = cc
IsAlone-running (some n) ns (inl e) h = absurd (none_running (subst (λ ms. mem n ms ≡ true) e h))
  where
    none_running : false ≡ true → ⊥
    none_running f = cc
IsAlone-running (some n) ns (inr e) h = (n, refl, e)

pub without_self : (x : Option ℕ) (ns : List ℕ) → IsAlone x ns → without x ns ≡ []
unfolding without
without_self none ns a = a
without_self (some n) ns (inl e) = ap (without (some n)) e
without_self (some n) ns (inr e) = ap (without (some n)) e ∙ ground (arith)

pub without-IsAlone :
    (k : ℕ) (x : Option ℕ) (ns : List ℕ) → IsAlone x ns → IsAlone x (without (some k) ns)
unfolding without
without-IsAlone k none ns a = ap (without (some k)) a
without-IsAlone k (some n) ns (inl e) = inl (ap (without (some k)) e)
without-IsAlone k (some n) ns (inr e) = elim (Bool-cases (n == k)) [
  | inl t ↦ inl (ap (without (some k)) e ∙ ground (arith, t))
  | inr f ↦ inr (ap (without (some k)) e ∙ ground (arith, f))
]

pub without_nil : (k : ℕ) (ns : List ℕ) → ns ≡ [] → without (some k) ns ≡ []
unfolding without
without_nil k ns e = ap (without (some k)) e
