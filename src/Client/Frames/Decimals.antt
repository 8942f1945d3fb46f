-- ===== src/Client/Frames/Decimals.antt =====
-- pyleaner/client.py: `int` reads the decimal number that the header is written with.
use py_leaner.Base.{
  ℕ, zero, suc, ◌+◌, ◌/◌, ◌%◌, ◌≤◌, ◌<◌, ◌≡◌, refl, ◌∙◌, ap, Bool, true, false, some, [], ◌∷◌,
  arith, All,
}
use py_leaner.Base.Text.{Text, decimal, decimal_digits}
use py_leaner.Client.Frames.{
  digits_value, signed_value, strip_left, drop_space, strip_right, int_of,
}

abbrev pub IsDigit : ℕ → Type 0
IsDigit c = (48 ≤ c) × (c ≤ 57)

decimal_digits-IsDigit :
    (fuel n : ℕ) (acc : Text) → n < fuel → All IsDigit acc → All IsDigit (decimal_digits fuel n acc)
unfolding decimal_digits
decimal_digits-IsDigit zero n acc h d = d
decimal_digits-IsDigit (suc fuel) n acc h d =
    ground (arith, d, decimal_digits-IsDigit fuel (n / 10) ((48 + n % 10) ∷ acc))

digits_value-decimal_digits :
    (fuel n : ℕ) (just : Bool) (acc : Text)
    → n < fuel
    → digits_value 0 just (decimal_digits fuel n acc) ≡ digits_value n true acc
unfolding decimal_digits digits_value
digits_value-decimal_digits zero n just acc h = absurd (omega (arith, h))
digits_value-decimal_digits (suc fuel) n just acc h =
    ground (arith, h, digits_value-decimal_digits fuel (n / 10) just ((48 + n % 10) ∷ acc))

strip_left_digits : (s : Text) → All IsDigit s → strip_left s ≡ s
unfolding strip_left
strip_left_digits [] d = refl
strip_left_digits (c ∷ s) d = ground (arith, d.0)

drop_space_digit : (c : ℕ) (s : Text) → IsDigit c → drop_space c s ≡ c ∷ s
drop_space_digit c [] d = ground (arith, d)
drop_space_digit c (e ∷ s) d = refl

strip_right_digits : (s : Text) → All IsDigit s → strip_right s ≡ s
unfolding strip_right
strip_right_digits [] d = refl
strip_right_digits (c ∷ s) d =
    ap (drop_space c) (strip_right_digits s d.1) ∙ drop_space_digit c s d.0

signed_value_digits :
    (s : Text) (n : ℕ)
    → All IsDigit s
    → digits_value 0 false s ≡ some n
    → signed_value s ≡ some (false, n)
unfolding signed_value
signed_value_digits [] n d h = absurd (unfold digits_value in cc)
signed_value_digits (c ∷ s) n d h = ground (arith, d.0, h)

pub decimal-IsDigit : (n : ℕ) → All IsDigit (decimal n)
unfolding decimal
decimal-IsDigit n = decimal_digits-IsDigit (suc n) n [] (omega arith) tt

digits_value-decimal : (n : ℕ) → digits_value 0 false (decimal n) ≡ some n
unfolding decimal digits_value
digits_value-decimal n = digits_value-decimal_digits (suc n) n false [] (omega arith)

pub int_of-decimal : (n : ℕ) → int_of (decimal n) ≡ some (false, n)
int_of-decimal n =
    let digits = decimal-IsDigit n in
    ap (λ s. signed_value (strip_right s)) (strip_left_digits (decimal n) digits)
    ∙ ap signed_value (strip_right_digits (decimal n) digits)
    ∙ signed_value_digits (decimal n) n digits (digits_value-decimal n)
