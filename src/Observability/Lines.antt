-- ===== src/Observability/Lines.antt =====
-- The string methods that pyleaner/observability.py calls: `splitlines`, `split`, `strip`.
use py_leaner.Base.{ℕ, Bool, ◌&&◌, ◌||◌, List, [], ◌∷◌, leb, ◌==◌, if◌then◌else◌}
use py_leaner.Base.Text.{Text}

-- `c.isspace()`, which is also what `\s` matches
abbrev pub is_white : ℕ → Bool
is_white c =
    leb 9 c && leb c 13
    || leb 28 c && leb c 32
    || c == 0x85
    || c == 0xa0
    || c == 0x1680
    || leb 0x2000 c && leb c 0x200a
    || c == 0x2028
    || c == 0x2029
    || c == 0x202f
    || c == 0x205f
    || c == 0x3000

-- What ends a line for `splitlines`; a return and a line feed together end one.
abbrev pub ends_line : ℕ → Bool
ends_line c =
    leb 10 c && leb c 13 || leb 28 c && leb c 30 || c == 0x85 || c == 0x2028 || c == 0x2029

abbrev pub begin_line : ℕ → List Text → List Text
begin_line c [] = (c ∷ []) ∷ []
begin_line c (l ∷ ls) = (c ∷ l) ∷ ls

-- `s.splitlines()`
unfoldable pub split_lines : Text → List Text
split_lines [] = []
split_lines (c ∷ []) = if ends_line c then [] ∷ [] else (c ∷ []) ∷ []
split_lines (c ∷ d ∷ s) =
    let rest = split_lines (d ∷ s) in
    if c == 13 && d == 10 then rest else if ends_line c then [] ∷ rest else begin_line c rest

-- `s.lstrip()`
unfoldable pub skip_white : Text → Text
skip_white [] = []
skip_white (c ∷ s) = if is_white c then skip_white s else c ∷ s

abbrev pub drop_white : ℕ → Text → Text
drop_white c [] = if is_white c then [] else c ∷ []
drop_white c (d ∷ s) = c ∷ d ∷ s

-- `s.rstrip()`
unfoldable pub drop_white_end : Text → Text
drop_white_end [] = []
drop_white_end (c ∷ s) = drop_white c (drop_white_end s)

-- `s.split()`: the word at the front, if there is one, and the words behind it
abbrev pub end_word : Text → List Text → List Text
end_word [] ws = ws
end_word (c ∷ w) ws = (c ∷ w) ∷ ws

unfoldable pub words_of : Text → Text × List Text
words_of [] = ([], [])
words_of (c ∷ s) =
    let r = words_of s in if is_white c then ([], end_word r.0 r.1) else (c ∷ r.0, r.1)

unfoldable pub words : Text → List Text
words s = end_word (words_of s).0 (words_of s).1

-- `s.split(c)`
unfoldable pub split_at : ℕ → Text → List Text
split_at c [] = [] ∷ []
split_at c (d ∷ s) = let rest = split_at c s in if d == c then [] ∷ rest else begin_line d rest
