-- ===== src/Client/Frames.antt =====
-- pyleaner/client.py, lines 357 to 396 and 480 to 486: the framing of LSP messages. A stream is what
-- is still to be read from it. `json.dumps` writes ASCII, so that a message is one byte for each
-- character; a header's bytes above 127, whatever they decode to, are in no string that is looked
-- for. The decoding of the content is the library's.
pub mod Decimals
pub mod RoundTrip
use py_leaner.Base.{
  ℕ, zero, suc, ◌+◌, ◌-◌, ◌*◌, Bool, true, false, ◌&&◌, ◌||◌, Option, none, some, ◌⊎◌, inl, inr,
  List, [], ◌∷◌, ◌++◌, ltb, leb, ◌==◌, if◌then◌else◌, length,
}
use py_leaner.Base.Text.{Text, codes, starts_with, decimal}

abbrev pub length_field : Text
length_field = codes "Content-Length: "

abbrev pub line_end : Text
line_end = 13 ∷ 10 ∷ []

-- `_make_lsp_message`, on what `json.dumps` gives
unfoldable pub make_lsp_message : Text → Text
make_lsp_message message =
    length_field ++ (decimal (length message) ++ (line_end ++ (line_end ++ message)))

-- What `_read_message` and `_read_exact` raise.
pub data FrameError : Type 0 where
  end_of_file header_too_long missing_length invalid_length negative_length : FrameError

-- `header.endswith(b"\r\n\r\n")`, the last byte first
abbrev pub is_complete : Text → Bool
is_complete held = starts_with (10 ∷ 13 ∷ 10 ∷ 13 ∷ []) held

-- The loop that reads the header, with what it holds, the last byte first
unfoldable pub read_header : Text → Text → FrameError ⊎ (Text × Text)
read_header held [] = if is_complete held then inr (held, []) else inl end_of_file
read_header held (b ∷ stream) =
    let rest = read_header (b ∷ held) stream in
    if is_complete held
    then inr (held, b ∷ stream)
    else if ltb 8192 (length (b ∷ held))
    then inl header_too_long
    else rest

abbrev pub reverse_onto : Text → Text → Text
reverse_onto acc [] = acc
reverse_onto acc (c ∷ cs) = reverse_onto (c ∷ acc) cs

-- `s.split(p)[1]` up to the end of `s`, where `p` is in `s`
unfoldable pub after : Text → Text → Option Text
after p [] = none
after p (c ∷ s) = if starts_with p (c ∷ s) then some (drop_prefix p (c ∷ s)) else after p s
  where
    drop_prefix : Text → Text → Text
    drop_prefix [] s = s
    drop_prefix (q ∷ qs) [] = []
    drop_prefix (q ∷ qs) (d ∷ s) = drop_prefix qs s

-- `s.split(p)[0]`
unfoldable pub before_first : Text → Text → Text
before_first p [] = []
before_first p (c ∷ s) = if starts_with p (c ∷ s) then [] else c ∷ before_first p s

-- What `str.strip` takes off, among the ASCII characters
abbrev pub is_space : ℕ → Bool
is_space c = leb 9 c && leb c 13 || leb 28 c && leb c 32

unfoldable pub strip_left : Text → Text
strip_left [] = []
strip_left (c ∷ s) = if is_space c then strip_left s else c ∷ s

abbrev pub drop_space : ℕ → Text → Text
drop_space c [] = if is_space c then [] else c ∷ []
drop_space c (d ∷ s) = c ∷ d ∷ s

unfoldable pub strip_right : Text → Text
strip_right [] = []
strip_right (c ∷ s) = drop_space c (strip_right s)

-- Digits, with single underscores between them; the flag tells whether a digit has just been read.
unfoldable pub digits_value : ℕ → Bool → Text → Option ℕ
digits_value n just [] = if just then some n else none
digits_value n just (c ∷ s) =
    if leb 48 c && leb c 57
    then digits_value (n * 10 + (c - 48)) true s
    else if c == 95 && just
    then digits_value n false s
    else none

-- `int(s)` by its sign and its size; `none` where it raises.
unfoldable pub signed_value : Text → Option (Bool × ℕ)
signed_value [] = none
signed_value (c ∷ s) =
    if c == 45
    then elim (digits_value 0 false s) [ none ↦ none | some n ↦ some (true, n) ]
    else elim (digits_value 0 false (if c == 43 then s else c ∷ s)) [
      | none ↦ none
      | some n ↦ some (false, n)
    ]

abbrev pub int_of : Text → Option (Bool × ℕ)
int_of s = signed_value (strip_right (strip_left s))

-- `_read_exact`
unfoldable pub read_exact : ℕ → Text → FrameError ⊎ (Text × Text)
read_exact zero stream = inr ([], stream)
read_exact (suc n) [] = inl end_of_file
read_exact (suc n) (b ∷ stream) = elim (read_exact n stream) [
  | inl e ↦ inl e
  | inr r ↦ inr (b ∷ r.0, r.1)
]

unfoldable pub read_content : Option (Bool × ℕ) → Text → FrameError ⊎ (Text × Text)
read_content none stream = inl invalid_length
read_content (some (true, suc n)) stream = inl negative_length
read_content (some (true, zero)) stream = read_exact zero stream
read_content (some (false, n)) stream = read_exact n stream

-- The number in the header, after its first `Content-Length: `
unfoldable pub length_of : Text → Option (Option (Bool × ℕ))
length_of header = elim (after length_field header) [
  | none ↦ none
  | some s ↦ some (int_of (before_first line_end (before_first length_field s)))
]

unfoldable pub read_body : Option (Option (Bool × ℕ)) → Text → FrameError ⊎ (Text × Text)
read_body none stream = inl missing_length
read_body (some n) stream = read_content n stream

-- What follows the header
unfoldable pub read_after : FrameError ⊎ (Text × Text) → FrameError ⊎ (Text × Text)
read_after (inl e) = inl e
read_after (inr (held, stream)) = read_body (length_of (reverse_onto [] held)) stream

-- `_read_message`, as the content's bytes and what is left of the stream
unfoldable pub read_message : Text → FrameError ⊎ (Text × Text)
read_message stream = read_after (read_header [] stream)
