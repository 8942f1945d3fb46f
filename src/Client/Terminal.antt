-- ===== src/Client/Terminal.antt =====
-- pyleaner/client.py, lines 418 to 451: what of the server's error output reaches the terminal and
-- the watchdog.
pub mod Flagged
use py_leaner.Base.{
  ℕ, ◌+◌, ◌/◌, ◌%◌, Bool, true, false, not, ◌&&◌, ◌||◌, List, [], ◌∷◌, ◌++◌, ltb, ◌==◌,
  if◌then◌else◌,
}
use py_leaner.Base.Text.{Text, codes, contains}
use py_leaner.Observability.Lines.{drop_white_end}

-- One digit of `f"{cp:02x}"`
abbrev pub hex_digit : ℕ → ℕ
hex_digit d = if ltb d 10 then b'0' + d else 87 + d

-- `cp < 0x20 and ch not in ("\t", "\n", "\r")`
abbrev pub is_control : ℕ → Bool
is_control c = ltb c 32 && not (c == 9 || c == 10 || c == 13)

-- What is written for one character
unfoldable pub shown : ℕ → Text
shown c =
    if is_control c then b'\\' ∷ b'x' ∷ hex_digit (c / 16) ∷ hex_digit (c % 16) ∷ [] else c ∷ []

-- `_sanitize_for_terminal`
unfoldable pub sanitize_for_terminal : Text → Text
sanitize_for_terminal [] = []
sanitize_for_terminal (c ∷ s) = shown c ++ sanitize_for_terminal s

-- `FATAL_RE.search`
unfoldable pub is_fatal : Text → Bool
is_fatal line =
    contains (codes "INTERNAL PANIC") line
    || contains (codes "Stack overflow detected") line
    || contains (codes "out of memory") line
    || contains (codes "memory allocation of") line

-- One turn of `_read_stderr`: the process or its output is gone or the reading raises; nothing is
-- read; or a line, decoded.
pub data ErrorTurn : Type 0 where
  ended : ErrorTurn
  nothing : ErrorTurn
  line : Text → ErrorTurn

-- `line_str`
unfoldable pub line_text : Text → Text
line_text s = sanitize_for_terminal (drop_white_end s)

-- `_read_stderr`: the lines that are printed, and those that are flagged
unfoldable pub read_stderr : List ErrorTurn → List Text × List Text
read_stderr [] = ([], [])
read_stderr (ended ∷ turns) = ([], [])
read_stderr (nothing ∷ turns) = read_stderr turns
read_stderr (line s ∷ turns) =
    let rest = read_stderr turns in
    (line_text s ∷ rest.0, if is_fatal (line_text s) then line_text s ∷ rest.1 else rest.1)
