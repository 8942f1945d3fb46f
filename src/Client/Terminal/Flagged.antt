-- ===== src/Client/Terminal/Flagged.antt =====
-- pyleaner/client.py: the error output is shown without characters below 0x20, and no fatal line
-- that is read is missed.
use py_leaner.Base.{
  ℕ, ◌/◌, ◌%◌, true, false, ◌≡◌, refl, ap, inl, inr, List, [], ◌∷◌, ◌++◌, arith, if◌then◌else◌, All,
  All-append, All-map, Among, Bool-cases, ==_iff,
}
use py_leaner.Base.Text.{Text, codes, starts_with, contains}
use py_leaner.Observability.Lines.{is_white, drop_white, drop_white_end}
use py_leaner.Client.Terminal.{
  hex_digit, is_control, shown, sanitize_for_terminal, is_fatal, ErrorTurn, ended, nothing, line,
  line_text, read_stderr,
}

abbrev pub IsShown : ℕ → Type 0
IsShown c = is_control c ≡ false

abbrev IsPhrase : Text → Type 0
IsPhrase [] = ⊥
IsPhrase (c ∷ []) = (is_control c ≡ false) × (is_white c ≡ false)
IsPhrase (c ∷ d ∷ s) = (is_control c ≡ false) × IsPhrase (d ∷ s)

hex_digit-IsShown : (d : ℕ) → IsShown (hex_digit d)
hex_digit-IsShown d = ground arith

shown-IsShown : (c : ℕ) → All IsShown (shown c)
unfolding shown
shown-IsShown c = elim (Bool-cases (is_control c)) [
  | inl e ↦ rw e (refl, (refl, (hex_digit-IsShown (c / 16), (hex_digit-IsShown (c % 16), tt))))
  | inr e ↦ rw e (e, tt)
]

sanitize-IsShown : (s : Text) → All IsShown (sanitize_for_terminal s)
unfolding sanitize_for_terminal
sanitize-IsShown [] = tt
sanitize-IsShown (c ∷ s) =
    All-append IsShown (shown c) (sanitize_for_terminal s) (shown-IsShown c) (sanitize-IsShown s)

starts_with-sanitize :
    (p s : Text)
    → All IsShown p
    → starts_with p s ≡ true
    → starts_with p (sanitize_for_terminal s) ≡ true
unfolding sanitize_for_terminal shown
starts_with-sanitize [] s h k = refl
starts_with-sanitize (q ∷ p) [] h k = cc
starts_with-sanitize (q ∷ p) (c ∷ s) h k =
    let e : is_control c ≡ false = ground (arith, h.0, k) in
    rw e (ground (arith, k, starts_with-sanitize p s h.1))

contains-append : (p s t : Text) → contains p t ≡ true → contains p (s ++ t) ≡ true
contains-append p [] t h = h
contains-append p (c ∷ s) t h = ground (arith, contains-append p s t h)

contains_of : (p s : Text) → starts_with p s ≡ true → contains p s ≡ true
contains_of p [] h = h
contains_of p (c ∷ s) h = ground (arith, h)

contains-sanitize :
    (p s : Text) → All IsShown p → contains p s ≡ true → contains p (sanitize_for_terminal s) ≡ true
unfolding sanitize_for_terminal
contains-sanitize p [] h k = k
contains-sanitize p (c ∷ s) h k = elim (Bool-cases (starts_with p (c ∷ s))) [
  | inl e ↦ contains_of p _ (starts_with-sanitize p (c ∷ s) h e)
  | inr e ↦
      contains-append p (shown c) (sanitize_for_terminal s)
        (contains-sanitize p s h (ground (arith, e, k)))
]

IsPhrase-IsShown : (p : Text) → IsPhrase p → All IsShown p
IsPhrase-IsShown [] h = absurd h
IsPhrase-IsShown (c ∷ []) h = (h.0, tt)
IsPhrase-IsShown (c ∷ d ∷ s) h = (h.0, IsPhrase-IsShown (d ∷ s) h.1)

-- What is stripped off the end of a line is no part of a phrase.
drop_white-starts : (c : ℕ) (p t : Text) → IsPhrase p → contains p t ≡ true → drop_white c t ≡ c ∷ t
drop_white-starts c [] t h k = absurd h
drop_white-starts c (q ∷ p) [] h k = cc
drop_white-starts c (q ∷ p) (d ∷ t) h k = refl

starts_with-drop_white_end :
    (p s : Text) → IsPhrase p → starts_with p s ≡ true → starts_with p (drop_white_end s) ≡ true
unfolding drop_white_end
starts_with-drop_white_end [] s h k = absurd h
starts_with-drop_white_end (q ∷ p) [] h k = cc
starts_with-drop_white_end (q ∷ []) (c ∷ s) h k =
    one_left (drop_white_end s) ((==_iff q c).0 (ground (arith, k)))
  where
    one_left : (t : Text) → q ≡ c → starts_with (q ∷ []) (drop_white c t) ≡ true
    one_left [] e = ground (arith, e, h.1, ap is_white e)
    one_left (d ∷ t) e = ground (arith, e)
starts_with-drop_white_end (q ∷ r ∷ p) (c ∷ s) h k =
    let rest = starts_with-drop_white_end (r ∷ p) s h.1 (ground (arith, k)) in
    let e = drop_white-starts c (r ∷ p) (drop_white_end s) h.1 (contains_of (r ∷ p) _ rest) in
    rw e (ground (arith, k, rest))

contains-drop_white_end :
    (p s : Text) → IsPhrase p → contains p s ≡ true → contains p (drop_white_end s) ≡ true
unfolding drop_white_end
contains-drop_white_end [] s h k = absurd h
contains-drop_white_end (q ∷ p) [] h k = k
contains-drop_white_end (q ∷ p) (c ∷ s) h k = elim (Bool-cases (starts_with (q ∷ p) (c ∷ s))) [
  | inl e ↦ contains_of (q ∷ p) _ (starts_with-drop_white_end (q ∷ p) (c ∷ s) h e)
  | inr e ↦
      let rest = contains-drop_white_end (q ∷ p) s h (ground (arith, e, k)) in
      let f = drop_white-starts c (q ∷ p) (drop_white_end s) h rest in rw f (ground (arith, rest))
]

contains-line_text :
    (p s : Text) → IsPhrase p → contains p s ≡ true → contains p (line_text s) ≡ true
unfolding line_text
contains-line_text p s h k =
    contains-sanitize p (drop_white_end s) (IsPhrase-IsShown p h) (contains-drop_white_end p s h k)

line_text-IsShown : (s : Text) → All IsShown (line_text s)
unfolding line_text
line_text-IsShown s = sanitize-IsShown (drop_white_end s)

is_fatal-line_text : (s : Text) → is_fatal s ≡ true → is_fatal (line_text s) ≡ true
unfolding is_fatal
is_fatal-line_text s h = ground (
  arith,
  h,
  contains-line_text (codes "INTERNAL PANIC") s (ground arith),
  contains-line_text (codes "Stack overflow detected") s (ground arith),
  contains-line_text (codes "out of memory") s (ground arith),
  contains-line_text (codes "memory allocation of") s (ground arith),
)

-- The lines that are read
abbrev pub lines_of : List ErrorTurn → List Text
lines_of [] = []
lines_of (ended ∷ turns) = []
lines_of (nothing ∷ turns) = lines_of turns
lines_of (line s ∷ turns) = s ∷ lines_of turns

-- The line is flagged if it is fatal.
abbrev pub IsFlagged : List Text → Text → Type 0
IsFlagged flagged s = is_fatal s ≡ true → Among (line_text s) flagged

IsFlagged-first :
    (s : Text) (f : List Text) → IsFlagged (if is_fatal (line_text s) then line_text s ∷ f else f) s
IsFlagged-first s f h = rw (is_fatal-line_text s h) (inl refl)

IsFlagged-later :
    (s t : Text) (f : List Text)
    → IsFlagged f t
    → IsFlagged (if is_fatal (line_text s) then line_text s ∷ f else f) t
IsFlagged-later s t f h k = elim (Bool-cases (is_fatal (line_text s))) [
  | inl e ↦ rw e (inr (h k))
  | inr e ↦ rw e (h k)
]

-- Of the lines that `_read_stderr` reads, up to the turn that ends its loop, every line with one of
-- the fatal phrases is flagged to the watchdog, although it is stripped and its characters below 0x20
-- are replaced before the search; and no line that is printed holds a character below 0x20 other than
-- a tab, a line feed or a return.
pub read_stderr-IsFlagged :
    (turns : List ErrorTurn)
    → All (IsFlagged (read_stderr turns).1) (lines_of turns)
      × All (All IsShown) (read_stderr turns).0
unfolding read_stderr
read_stderr-IsFlagged [] = (tt, tt)
read_stderr-IsFlagged (ended ∷ turns) = (tt, tt)
read_stderr-IsFlagged (nothing ∷ turns) = read_stderr-IsFlagged turns
read_stderr-IsFlagged (line s ∷ turns) =
    let (flags, shows) = read_stderr-IsFlagged turns in
    (
      (
        IsFlagged-first s (read_stderr turns).1,
        All-map (IsFlagged (read_stderr turns).1) _ (lines_of turns)
            (λ t. IsFlagged-later s t (read_stderr turns).1) flags,
      ),
      (line_text-IsShown s, shows),
    )
