-- ===== src/Observability/Imports/RoundTrip.antt =====
-- pyleaner/observability.py: `_imports` reads back the modules that import lines name.
use py_leaner.Base.{
  ℕ, false, ◌&&◌, ◌==◌, ◌≡◌, ◌≢◌, refl, sym, ap, ◌∙◌, none, some, List, [], ◌∷◌, ◌++◌, arith, All,
  All-append, Bool-cases, inl, inr, if_false,
}
use mathlib.Core.List.{append_assoc, append-nil}
use py_leaner.Base.Text.{Text, codes, contains, text_eq, text_eq_iff}
use py_leaner.Client.Frames.{before_first}
use py_leaner.Observability.Lines.{
  is_white, ends_line, begin_line, split_lines, skip_white, drop_white, drop_white_end, words,
  words_of, end_word,
}
use py_leaner.Observability.Imports.{
  has, after_front, group_of, behind_import, import_match, add_new, modules_in, imports_from,
  imports,
}
use py_leaner.Observability.Members.{has-append}

-- Modules' names: not empty, without white space and without the start of a comment
abbrev pub IsName : Text → Type 0
IsName m = (m ≢ []) × All (λ c. is_white c ≡ false) m × (contains (codes "--") m ≡ false)

abbrev pub AllApart : List Text → Type 0
AllApart [] = Unit
AllApart (m ∷ ms) = All (λ n. n ≢ m) ms × AllApart ms

-- A source with one import line for each module, and behind these its body
abbrev pub source_of : List Text → Text → Text
source_of [] body = body
source_of (m ∷ ms) body = codes "import " ++ (m ++ (10 ∷ source_of ms body))

abbrev pub HasNoImport : Text → Type 0
HasNoImport body = All (λ line. import_match line ≡ none) (split_lines body)

ends_line-is_white : (c : ℕ) → is_white c ≡ false → ends_line c ≡ false
ends_line-is_white c h = ground (arith, h)

not_return : (c : ℕ) → ends_line c ≡ false → (c == 13) ≡ false
not_return c h = ground (arith, h)

split_lines-in_line :
    (c d : ℕ) (s : Text)
    → ends_line c ≡ false
    → split_lines (c ∷ d ∷ s) ≡ begin_line c (split_lines (d ∷ s))
unfolding split_lines
split_lines-in_line c d s h =
    if_false _ _ (ap (λ b. b && (d == 10)) (not_return c h)) ∙ if_false _ _ h

split_lines-line_feed : (s : Text) → split_lines (10 ∷ s) ≡ [] ∷ split_lines s
unfolding split_lines
split_lines-line_feed [] = refl
split_lines-line_feed (c ∷ s) = refl

split_lines-line :
    (l rest : Text)
    → All (λ c. ends_line c ≡ false) l
    → split_lines (l ++ (10 ∷ rest)) ≡ l ∷ split_lines rest
split_lines-line [] rest a = split_lines-line_feed rest
split_lines-line (c ∷ []) rest a =
    split_lines-in_line c 10 rest a.0 ∙ ap (begin_line c) (split_lines-line_feed rest)
split_lines-line (c ∷ d ∷ l) rest a =
    split_lines-in_line c d (l ++ (10 ∷ rest)) a.0
    ∙ ap (begin_line c) (split_lines-line (d ∷ l) rest a.1)

drop_white_end-plain : (m : Text) → All (λ c. is_white c ≡ false) m → drop_white_end m ≡ m
unfolding drop_white_end
drop_white_end-plain [] a = refl
drop_white_end-plain (c ∷ m) a = ap (drop_white c) (drop_white_end-plain m a.1) ∙ kept m
  where
    kept : (m : Text) → drop_white c m ≡ c ∷ m
    kept [] = if_false [] (c ∷ []) a.0
    kept (d ∷ m) = refl

words_of-plain : (m : Text) → All (λ c. is_white c ≡ false) m → words_of m ≡ (m, [])
unfolding words_of
words_of-plain [] a = refl
words_of-plain (c ∷ m) a = if_false _ _ a.0 ∙ ap (λ r. (c ∷ r.0, r.1)) (words_of-plain m a.1)

before_first-plain : (p m : Text) → contains p m ≡ false → before_first p m ≡ m
unfolding before_first
before_first-plain p [] h = refl
before_first-plain p (c ∷ m) h = ground (arith, h, before_first-plain p m)

import_match_name :
    (m : Text)
    → m ≢ []
    → All (λ c. is_white c ≡ false) m
    → import_match (codes "import " ++ m) ≡ some m
unfolding import_match behind_import after_front group_of skip_white
import_match_name [] e a = absurd (e refl)
import_match_name (c ∷ m) e a =
    ap (group_of (c ∷ m)) (if_false _ (c ∷ m) a.0) ∙ ap some (drop_white_end-plain (c ∷ m) a)

modules_in_name : (m : Text) → IsName m → modules_in (import_match (codes "import " ++ m)) ≡ m ∷ []
unfolding modules_in words
modules_in_name [] (e, a, n) = absurd (e refl)
modules_in_name (c ∷ m) (e, a, n) =
    ap modules_in (import_match_name (c ∷ m) e a)
    ∙ ap words (before_first-plain (codes "--") (c ∷ m) n)
    ∙ ap (λ r. end_word r.0 r.1) (words_of-plain (c ∷ m) a)

line_ends_free : (m : Text) → All (λ c. is_white c ≡ false) m → All (λ c. ends_line c ≡ false) m
line_ends_free [] a = tt
line_ends_free (c ∷ m) a = (ends_line-is_white c a.0, line_ends_free m a.1)

split_lines-import_line :
    (m rest : Text)
    → All (λ c. is_white c ≡ false) m
    → split_lines (codes "import " ++ (m ++ (10 ∷ rest)))
      ≡ (codes "import " ++ m) ∷ split_lines rest
split_lines-import_line m rest a = split_lines-line (codes "import " ++ m) rest (
    All-append (λ c. ends_line c ≡ false) (codes "import ") m
      (refl, (refl, (refl, (refl, (refl, (refl, (refl, tt))))))) (line_ends_free m a))

add_new_one : (m : Text) (ms : List Text) → has m ms ≡ false → add_new ms (m ∷ []) ≡ ms ++ (m ∷ [])
unfolding add_new
add_new_one m ms h = if_false _ _ h

imports_from-body :
    (ms : List Text) (lines : List Text)
    → All (λ line. import_match line ≡ none) lines
    → imports_from ms lines ≡ ms
unfolding imports_from modules_in add_new
imports_from-body ms [] a = refl
imports_from-body ms (line ∷ lines) a =
    ap (λ r. imports_from (add_new ms (modules_in r)) lines) a.0 ∙ imports_from-body ms lines a.1

has-append_other :
    (n m : Text) (ms : List Text) → n ≢ m → has n ms ≡ false → has n (ms ++ (m ∷ [])) ≡ false
unfolding has
has-append_other n m ms h e = elim (Bool-cases (text_eq n m)) [
  | inl t ↦ absurd (h ((text_eq_iff n m).0 t))
  | inr t ↦ ground (arith, has-append n ms (m ∷ []), e, t)
]

still_absent :
    (m : Text) (seen ms : List Text)
    → All (λ n. n ≢ m) ms
    → All (λ n. has n seen ≡ false) ms
    → All (λ n. has n (seen ++ (m ∷ [])) ≡ false) ms
still_absent m seen [] a b = tt
still_absent m seen (n ∷ ms) a b =
    (has-append_other n m seen a.0 b.0, still_absent m seen ms a.1 b.1)

imports_from-source_of :
    (seen ms : List Text) (body : Text)
    → All IsName ms
    → AllApart ms
    → All (λ m. has m seen ≡ false) ms
    → HasNoImport body
    → imports_from seen (split_lines (source_of ms body)) ≡ seen ++ ms
unfolding imports_from
imports_from-source_of seen [] body a d u h =
    imports_from-body seen (split_lines body) h ∙ sym (append-nil seen)
imports_from-source_of seen (m ∷ ms) body a d u h =
    ap (imports_from seen) (split_lines-import_line m (source_of ms body) (a.0).1)
    ∙ ap (λ ws. imports_from (add_new seen ws) (split_lines (source_of ms body)))
        (modules_in_name m a.0)
    ∙ ap (λ found. imports_from found (split_lines (source_of ms body))) (add_new_one m seen u.0)
    ∙ imports_from-source_of (seen ++ (m ∷ [])) ms body a.1 d.1 (still_absent m seen ms d.0 u.1) h
    ∙ append_assoc seen (m ∷ []) ms

none_seen : (ms : List Text) → All (λ m. has m [] ≡ false) ms
unfolding has
none_seen [] = tt
none_seen (m ∷ ms) = (refl, none_seen ms)

-- From a source that starts with one import line for each of some different modules, each with a
-- name that is not empty and has neither white space nor `--` in it, and in whose other lines there
-- is no import, `_imports` reads these modules, in their order.
pub imports-source_of :
    (ms : List Text) (body : Text)
    → All IsName ms
    → AllApart ms
    → HasNoImport body
    → imports (source_of ms body) ≡ ms
unfolding imports
imports-source_of ms body a d h = imports_from-source_of [] ms body a d (none_seen ms) h
