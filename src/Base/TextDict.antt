-- ===== src/Base/TextDict.antt =====
-- A Python dict keyed by texts, in insertion order.
use mathlib.Core.Path.{◌≡◌}
use mathlib.Core.Logic.{◌≢◌}
use mathlib.Core.Option.{Option, none, some}
use mathlib.Core.List.{List, [], ◌∷◌}
use native.Mathlib.Omega.{arith}
use py_leaner.Base.Tests.{if◌then◌else◌}
use py_leaner.Base.Text.{Text, text_eq, text_eq_iff, text_eq_refl}

abbrev pub TextDict {ℓ} : Type ℓ → Type ℓ
TextDict V = List (Text × V)

module _ {ℓ} {V : Type ℓ} where
  -- `d.get(k)`
  unfoldable pub get : Text → TextDict V → Option V
  get k [] = none
  get k ((j, v) ∷ d) = if text_eq k j then some v else get k d

  -- `d[k] = v`
  unfoldable pub put_key : Text → V → TextDict V → TextDict V
  put_key k v [] = (k, v) ∷ []
  put_key k v ((j, w) ∷ d) = if text_eq k j then (j, v) ∷ d else (j, w) ∷ put_key k v d

  pub get-put_key_self : (k : Text) (v : V) (d : TextDict V) → get k (put_key k v d) ≡ some v
  unfolding get put_key
  get-put_key_self k v [] = rw text_eq_refl
  get-put_key_self k v ((j, w) ∷ d) = ground (arith, get-put_key_self k v d)

  pub get-put_key_ne :
      (j k : Text) (v : V) (d : TextDict V) → j ≢ k → get j (put_key k v d) ≡ get j d
  unfolding get put_key
  get-put_key_ne j k v [] h = ground (arith, text_eq_iff j k)
  get-put_key_ne j k v ((i, w) ∷ d) h =
      ground (arith, text_eq_iff k i, text_eq_iff j i, get-put_key_ne j k v d h)
