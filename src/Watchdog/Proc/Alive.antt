-- ===== src/Watchdog/Proc/Alive.antt =====
-- pyleaner/watchdog.py: `_process_alive` reads the state of a process, whatever its name holds.
use py_leaner.Base.{ℕ, suc, ◌≡◌, refl, false, not, none, some, [], ◌∷◌, ◌++◌, ◌==◌, arith, All}
use py_leaner.Base.Text.{Text}
use py_leaner.Observability.Lines.{
  is_white, skip_white, drop_white, drop_white_end, words_of, words,
}
use py_leaner.Watchdog.Proc.{after_last, first_of, state_alive, content, process_alive}

-- Without the character
abbrev pub Lacks : ℕ → Text → Type 0
Lacks c = All (λ d. (d == c) ≡ false)

after_last-none : (c : ℕ) (s : Text) → Lacks c s → after_last c s ≡ none
unfolding after_last
after_last-none c [] h = refl
after_last-none c (d ∷ s) h = rw (after_last-none c s h.1, h.0) refl

after_last-append : (c : ℕ) (s t : Text) → Lacks c t → after_last c (s ++ c ∷ t) ≡ some t
unfolding after_last
after_last-append c [] t h = rw (after_last-none c t h) (ground arith)
after_last-append c (d ∷ s) t h = rw (after_last-append c s t h) refl

blank-words : (y : Text) → (words_of (drop_white b' ' y)).0 ≡ []
unfolding words_of
blank-words [] = refl
blank-words (d ∷ y) = refl

state-words :
    (state : ℕ) (x : Text)
    → is_white state ≡ false
    → (words_of x).0 ≡ []
    → first_of (words (drop_white state x)) ≡ some (state ∷ [])
unfolding words words_of
state-words state [] h e = rw (h, h) refl
state-words state (d ∷ x) h e = rw (h, e) refl

-- The first word of what follows the name
first_state :
    (state : ℕ) (rest : Text)
    → is_white state ≡ false
    → first_of (words (drop_white_end (skip_white (b' ' ∷ state ∷ b' ' ∷ rest))))
      ≡ some (state ∷ [])
unfolding skip_white drop_white_end
first_state state rest h = rw h (
    state-words state (drop_white b' ' (drop_white_end rest)) h (blank-words (drop_white_end rest)))

-- Whatever the name of a process holds, also blanks and parentheses, the process counts as alive
-- exactly if the state behind the name in its `stat` file is not that of a zombie.
pub process_alive-stat :
    (pid state : ℕ) (name rest : Text)
    → is_white state ≡ false
    → (state == b')') ≡ false
    → Lacks b')' rest
    → process_alive (some (suc pid)) (content (name ++ b')' ∷ b' ' ∷ state ∷ b' ' ∷ rest))
      ≡ some (not (state == b'Z'))
unfolding process_alive state_alive
process_alive-stat pid state name rest h n l =
    rw (after_last-append b')' name (b' ' ∷ state ∷ b' ' ∷ rest) (refl, (n, (refl, l))))
      (rw (first_state state rest h) (ground arith))
