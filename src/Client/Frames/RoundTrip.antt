-- ===== src/Client/Frames/RoundTrip.antt =====
-- pyleaner/client.py: what `_make_lsp_message` writes, `_read_message` reads.
use py_leaner.Base.{
  ℕ, ◌+◌, ◌≤◌, ◌<◌, ◌≡◌, ◌≢◌, refl, ◌∙◌, ap, true, false, none, some, inr, [], ◌∷◌, ◌++◌, arith,
  length, All, All-map, All-append, mem,
}
use mathlib.Core.List.{append_assoc}
use py_leaner.Base.Text.{Text, decimal}
use py_leaner.Client.Frames.{
  length_field, line_end, make_lsp_message, is_complete, read_header, reverse_onto, after,
  before_first, int_of, read_exact, read_content, read_body, length_of, read_after, read_message,
}
use py_leaner.Client.Frames.Decimals.{IsDigit, decimal-IsDigit, int_of-decimal}

-- The header does not end here.
abbrev IsOpen : Text → Type 0
IsOpen [] = Unit
IsOpen (c ∷ held) = c ≢ 10

header_step :
    (held : Text) (b : ℕ) (stream : Text)
    → is_complete held ≡ false
    → length held < 8192
    → read_header held (b ∷ stream) ≡ read_header (b ∷ held) stream
unfolding read_header
header_step held b stream o n = ground (arith, o, n)

header_end :
    (held stream : Text) → is_complete held ≡ true → read_header held stream ≡ inr (held, stream)
unfolding read_header
header_end held [] h = ground (arith, h)
header_end held (b ∷ stream) h = ground (arith, h)

open_incomplete : (held : Text) → IsOpen held → is_complete held ≡ false
open_incomplete [] o = refl
open_incomplete (c ∷ held) o = ground (arith, o)

header_run :
    (xs held stream : Text)
    → All (λ c. c ≢ 10) xs
    → IsOpen held
    → length held + length xs ≤ 8192
    → (read_header held (xs ++ stream) ≡ read_header (reverse_onto held xs) stream)
      × IsOpen (reverse_onto held xs)
      × (length (reverse_onto held xs) ≡ length held + length xs)
header_run [] held stream a o n = (refl, o, omega arith)
header_run (c ∷ xs) held stream a o n =
    let (e, o', m) = header_run xs (c ∷ held) stream a.1 a.0 (omega (arith, n)) in
    (
      header_step held c (xs ++ stream) (open_incomplete held o) (omega (arith, n)) ∙ e,
      o',
      omega (arith, m),
    )

-- The two line ends that end the header
header_tail :
    (held stream : Text)
    → IsOpen held
    → length held + 4 ≤ 8192
    → read_header held (line_end ++ (line_end ++ stream)) ≡ inr (10 ∷ 13 ∷ 10 ∷ 13 ∷ held, stream)
header_tail held stream o n =
    header_step held 13 _ (open_incomplete held o) (omega (arith, n))
    ∙ header_step (13 ∷ held) 10 _ refl (omega (arith, n))
    ∙ header_step (10 ∷ 13 ∷ held) 13 _ (second held o) (omega (arith, n))
    ∙ header_step (13 ∷ 10 ∷ 13 ∷ held) 10 _ refl (omega (arith, n))
    ∙ header_end (10 ∷ 13 ∷ 10 ∷ 13 ∷ held) stream refl
  where
    second : (held : Text) → IsOpen held → is_complete (10 ∷ 13 ∷ held) ≡ false
    second [] o = refl
    second (c ∷ held) o = ground (arith, o)

reverse-reverse :
    (xs acc held : Text) → reverse_onto acc (reverse_onto held xs) ≡ reverse_onto (xs ++ acc) held
reverse-reverse [] acc held = refl
reverse-reverse (c ∷ xs) acc held = reverse-reverse xs acc (c ∷ held)

before_first_absent : (s : Text) → All (λ c. c ≢ 67) s → before_first length_field s ≡ s
unfolding before_first
before_first_absent [] a = refl
before_first_absent (c ∷ s) a = ground (arith, a.0, before_first_absent s a.1)

before_first-line_end :
    (ds rest : Text) → All IsDigit ds → before_first line_end (ds ++ (line_end ++ rest)) ≡ ds
unfolding before_first
before_first-line_end [] rest a = refl
before_first-line_end (c ∷ ds) rest a = ground (arith, a.0, before_first-line_end ds rest a.1)

after_field : (s : Text) → after length_field (length_field ++ s) ≡ some s
unfolding after
after_field s = refl

read_exact-append : (m rest : Text) → read_exact (length m) (m ++ rest) ≡ inr (m, rest)
unfolding read_exact
read_exact-append [] rest = refl
read_exact-append (b ∷ m) rest = ground (arith, read_exact-append m rest)

absent-All : (k : ℕ) (s : Text) → mem k s ≡ false → All (λ c. c ≢ k) s
absent-All k [] h = tt
absent-All k (c ∷ s) h = (λ e. absurd (ground (arith, h, e)), absent-All k s (ground (arith, h)))

abbrev header_of : ℕ → Text
header_of n = length_field ++ decimal n

header-IsText : (n : ℕ) → All (λ c. c ≢ 10) (header_of n)
header-IsText n =
    All-append (λ c. c ≢ 10) length_field (decimal n) (absent-All 10 length_field refl)
      (All-map IsDigit (λ c. c ≢ 10) (decimal n) (λ c d. omega (arith, d)) (decimal-IsDigit n))

length_of_header :
    (n : ℕ)
    → length_of (length_field ++ (decimal n ++ (line_end ++ (line_end ++ []))))
      ≡ some (some (false, n))
unfolding length_of
length_of_header n =
    ap
      (λ o. elim o [
        | none ↦ none
        | some s ↦ some (int_of (before_first line_end (before_first length_field s)))
      ])
      (after_field (decimal n ++ (line_end ++ (line_end ++ []))))
    ∙ ap (λ s. some (int_of (before_first line_end s)))
        (before_first_absent (decimal n ++ (line_end ++ (line_end ++ []))) (
          All-append (λ c. c ≢ 67) (decimal n) (line_end ++ (line_end ++ []))
            (All-map IsDigit (λ c. c ≢ 67) (decimal n) (λ c d. omega (arith, d))
              (decimal-IsDigit n))
            (absent-All 67 (line_end ++ (line_end ++ [])) refl)))
    ∙ ap (λ s. some (int_of s))
        (before_first-line_end (decimal n) (line_end ++ []) (decimal-IsDigit n))
    ∙ ap some (int_of-decimal n)

header_read :
    (n : ℕ) (stream : Text)
    → length (header_of n) + 4 ≤ 8192
    → read_header [] (header_of n ++ (line_end ++ (line_end ++ stream)))
      ≡ inr (10 ∷ 13 ∷ 10 ∷ 13 ∷ reverse_onto [] (header_of n), stream)
header_read n stream fits =
    let run =
      header_run (header_of n) [] (line_end ++ (line_end ++ stream)) (header-IsText n) tt
        (omega (arith, fits)) in
    run.0 ∙ header_tail (reverse_onto [] (header_of n)) stream run.1 (omega (arith, run.2, fits))

header_back :
    (n : ℕ)
    → reverse_onto [] (10 ∷ 13 ∷ 10 ∷ 13 ∷ reverse_onto [] (header_of n))
      ≡ length_field ++ (decimal n ++ (line_end ++ (line_end ++ [])))
header_back n = reverse-reverse (header_of n) (line_end ++ (line_end ++ [])) []

regroup :
    (m rest : Text)
    → make_lsp_message m ++ rest ≡ header_of (length m) ++ (line_end ++ (line_end ++ (m ++ rest)))
unfolding make_lsp_message
regroup m rest =
    ap (λ s. length_field ++ s)
      (append_assoc (decimal (length m)) (line_end ++ (line_end ++ m)) rest)

-- Whatever follows in the stream, a message that `_make_lsp_message` writes is read by
-- `_read_message` as it is, and no byte more, where its header is no longer than the 8192 bytes that
-- are accepted.
pub read_message-make_lsp_message :
    (m rest : Text)
    → length (decimal (length m)) + 20 ≤ 8192
    → read_message (make_lsp_message m ++ rest) ≡ inr (m, rest)
unfolding read_message read_after read_body read_content
read_message-make_lsp_message m rest fits =
    ap (λ s. read_after (read_header [] s)) (regroup m rest)
    ∙ ap read_after (header_read (length m) (m ++ rest) (omega (arith, fits)))
    ∙ ap (λ h. read_body (length_of h) (m ++ rest)) (header_back (length m))
    ∙ ap (λ o. read_body o (m ++ rest)) (length_of_header (length m))
    ∙ read_exact-append m rest
