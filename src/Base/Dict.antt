-- ===== src/Base/Dict.antt =====
-- A Python dict keyed by numbers, in insertion order.
use Prim.Native.Nat.{ℕ}
use mathlib.Core.Path.{◌≡◌, refl}
use mathlib.Core.Bool.{Bool, true}
use mathlib.Core.Option.{Option, none, some}
use mathlib.Core.List.{List, [], ◌∷◌}
use native.Mathlib.Omega.{arith}
use py_leaner.Base.Tests.{◌==◌, if◌then◌else◌, is_some}
use py_leaner.Base.Lists.{mem, All}

abbrev pub Dict {ℓ} : Type ℓ → Type ℓ
Dict V = List (ℕ × V)

module _ {ℓ} {V : Type ℓ} where
  -- `d.get(k)`
  abbrev pub lookup : ℕ → Dict V → Option V
  lookup k [] = none
  lookup k ((j, v) ∷ d) = if k == j then some v else lookup k d

  -- `k in d`
  abbrev pub has_key : ℕ → Dict V → Bool
  has_key k d = is_some (lookup k d)

  -- `d[k] = v`
  abbrev pub insert : ℕ → V → Dict V → Dict V
  insert k v [] = (k, v) ∷ []
  insert k v ((j, w) ∷ d) = if k == j then (j, v) ∷ d else (j, w) ∷ insert k v d

  -- `d.pop(k, None)`, on a dict that holds a key once
  abbrev pub erase : ℕ → Dict V → Dict V
  erase k [] = []
  erase k ((j, w) ∷ d) = if k == j then erase k d else (j, w) ∷ erase k d

  -- `d.setdefault(k, v)`, as the dict that it leaves
  abbrev pub set_default : ℕ → V → Dict V → Dict V
  set_default k v d = if has_key k d then d else insert k v d

  -- `list(d)`
  abbrev pub keys : Dict V → List ℕ
  keys [] = []
  keys ((k, v) ∷ d) = k ∷ keys d

  -- `list(d.values())`
  abbrev pub values : Dict V → List V
  values [] = []
  values ((k, v) ∷ d) = v ∷ values d

  pub lookup-insert :
      (j k : ℕ) (v : V) (d : Dict V)
      → lookup j (insert k v d) ≡ (if j == k then some v else lookup j d)
  lookup-insert j k v [] = refl
  lookup-insert j k v (e ∷ d) = ground (arith, lookup-insert j k v d)

  pub lookup-erase :
      (j k : ℕ) (d : Dict V) → lookup j (erase k d) ≡ (if j == k then none else lookup j d)
  lookup-erase j k [] = ground arith
  lookup-erase j k (e ∷ d) = ground (arith, lookup-erase j k d)

  pub mem-keys : (k : ℕ) (d : Dict V) → mem k (keys d) ≡ has_key k d
  mem-keys k [] = refl
  mem-keys k (e ∷ d) = ground (arith, mem-keys k d)

  pub keys-insert : (k : ℕ) (v : V) (d : Dict V) → has_key k d ≡ true → keys (insert k v d) ≡ keys d
  keys-insert k v [] h = ground arith
  keys-insert k v (e ∷ d) h = ground (arith, keys-insert k v d)

  pub lookup-set_default :
      (j k : ℕ) (v : V) (d : Dict V)
      → lookup j (set_default k v d)
        ≡ (if has_key j d then lookup j d else if j == k then some v else none)
  lookup-set_default j k v d = ground (arith, lookup-insert j k v d)

  -- No key stands twice.
  abbrev pub Distinct : Dict V → Type ℓ
  Distinct [] = Unit
  Distinct ((k, v) ∷ d) = (lookup k d ≡ none) × Distinct d

  pub insert-Distinct : (k : ℕ) (v : V) (d : Dict V) → Distinct d → Distinct (insert k v d)
  insert-Distinct k v [] h = (refl, tt)
  insert-Distinct k v (e ∷ d) h = ground (arith, insert-Distinct k v d h.1, lookup-insert e.0 k v d)

  pub erase-Distinct : (k : ℕ) (d : Dict V) → Distinct d → Distinct (erase k d)
  erase-Distinct k [] h = tt
  erase-Distinct k (e ∷ d) h = ground (arith, erase-Distinct k d h.1, lookup-erase e.0 k d)

  -- Each entry of the second dict is what the first gives for its key.
  abbrev pub Within : Dict V → Dict V → Type ℓ
  Within d es = All (λ e. lookup e.0 d ≡ some e.1) es

  Within-cons :
      (k : ℕ) (v : V) (d es : Dict V) → lookup k es ≡ none → Within d es → Within ((k, v) ∷ d) es
  Within-cons k v d [] n h = tt
  Within-cons k v d (e ∷ es) n h = ground (arith, Within-cons k v d es)

  pub Distinct-Within : (d : Dict V) → Distinct d → Within d d
  Distinct-Within [] h = tt
  Distinct-Within ((k, v) ∷ d) h = (ground arith, Within-cons k v d d h.0 (Distinct-Within d h.1))
