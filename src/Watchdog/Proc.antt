-- ===== src/Watchdog/Proc.antt =====
-- pyleaner/watchdog.py, lines 158 to 241: what is read from /proc and from the cgroups' files. The
-- contents of the files are given.
pub mod Alive
use py_leaner.Base.{
  ℕ, zero, suc, ◌+◌, ◌*◌, ◌≡◌, refl, Bool, true, false, not, ◌&&◌, ◌||◌, Option, none, some, List,
  [], ◌∷◌, ◌==◌, leb, if◌then◌else◌,
}
use py_leaner.Base.Text.{Text, codes, text_eq, lower, contains, starts_with}
use py_leaner.Client.Frames.{int_of, before_first}
use py_leaner.Observability.Lines.{split_lines, skip_white, drop_white_end, words, split_at}

-- Reading a file: it cannot be read, it is no UTF-8, or it is this text.
pub data Reading : Type 0 where
  unreadable undecodable : Reading
  content : Text → Reading

-- What follows the last `c`, `s.rsplit(c, 1)[1]`; `none` where it raises
abbrev pub last_or : Text → Bool → Option Text → Option Text
last_or s here (some t) = some t
last_or s true none = some s
last_or s false none = none

unfoldable pub after_last : ℕ → Text → Option Text
after_last c [] = none
after_last c (d ∷ s) = last_or s (d == c) (after_last c s)

abbrev pub first_of : List Text → Option Text
first_of [] = none
first_of (w ∷ ws) = some w

abbrev is_zombie : Option Text → Bool
is_zombie none = true
is_zombie (some state) = text_eq state (codes "Z")

-- The state in a `stat` file: alive, unless it is missing or a zombie's
unfoldable pub state_alive : Option Text → Bool
state_alive none = false
state_alive (some tail) = not (is_zombie (first_of (words (drop_white_end (skip_white tail)))))

-- `_process_alive` with the reading of the `stat` file; `none` is an exception that it does not catch.
unfoldable pub process_alive : Option ℕ → Reading → Option Bool
process_alive none reading = some false
process_alive (some zero) reading = some false
process_alive (some (suc pid)) unreadable = some false
process_alive (some (suc pid)) undecodable = none
process_alive (some (suc pid)) (content stat) = some (state_alive (after_last b')' stat))

-- An integer by its sign and its size
abbrev pub scaled : Option (Bool × ℕ) → Option (Bool × ℕ)
scaled none = none
scaled (some (negative, n)) = some (negative, n * 1024)

unfoldable pub kilobytes : List Text → Option (Bool × ℕ)
kilobytes (key ∷ value ∷ ws) = scaled (int_of value)
kilobytes _ = none

unfoldable pub rss_in : List Text → Option (Bool × ℕ)
rss_in [] = none
rss_in (line ∷ lines) =
    if starts_with (codes "RssAnon:") line then kilobytes (words line) else rss_in lines

-- `_read_rss_anon`
unfoldable pub read_rss_anon : Reading → Option (Bool × ℕ)
read_rss_anon (content status) = rss_in (split_lines status)
read_rss_anon _ = none

-- A line that does not hold two words ends the search.
unfoldable pub oom_kill_in : List (List Text) → Option (Bool × ℕ)
oom_kill_in [] = none
oom_kill_in ((key ∷ value ∷ []) ∷ lines) =
    if text_eq key (codes "oom_kill") then int_of value else oom_kill_in lines
oom_kill_in (_ ∷ lines) = none

abbrev pub map_words : List Text → List (List Text)
map_words [] = []
map_words (l ∷ ls) = words l ∷ map_words ls

-- `_read_oom_kill`
unfoldable pub read_oom_kill : Reading → Option (Bool × ℕ)
read_oom_kill (content events) = oom_kill_in (map_words (split_lines events))
read_oom_kill _ = none

-- An entry of /proc: its name as a number, if it is one, and the files that are read; of the command
-- line whatever is no UTF-8 is replaced.
pub record Entry : Type 0 where
  pub pid : Option ℕ
  pub cmdline : Option Text
  pub stat : Reading

-- `os.path.basename(cmdline.split("\0")[0]).lower()`
unfoldable pub program_of : Text → Text
program_of cmdline = lower (base (after_last b'/' (before_first (0 ∷ []) cmdline)))
  where
    base : Option Text → Text
    base none = before_first (0 ∷ []) cmdline
    base (some t) = t

unfoldable pub is_lean : Text → Bool
is_lean cmdline =
    contains (codes "lean") (program_of cmdline)
    && (contains (codes "--server") cmdline || contains (codes "--worker") cmdline)

abbrev pub is_one : Option (Bool × ℕ) → Bool
is_one none = false
is_one (some (true, n)) = false
is_one (some (false, n)) = n == 1

abbrev pub fourth : List Text → Text
fourth (a ∷ b ∷ c ∷ d ∷ ws) = d
fourth _ = []

-- `int(stat.split(" ")[3]) == 1`; `int` rejects the empty text that stands for a missing field.
unfoldable pub is_reparented : Reading → Bool
is_reparented (content stat) = is_one (int_of (fourth (split_at b' ' stat)))
is_reparented _ = false

unfoldable pub orphan_of : Option Text → Reading → Bool
orphan_of none stat = false
orphan_of (some cmdline) stat = is_lean cmdline && is_reparented stat

unfoldable pub note_orphan : Option ℕ → Bool → List ℕ → List ℕ
note_orphan none orphan rest = rest
note_orphan (some pid) true rest = pid ∷ rest
note_orphan (some pid) false rest = rest

-- `_find_orphaned_lean`
unfoldable pub find_orphaned_lean : List Entry → List ℕ
find_orphaned_lean [] = []
find_orphaned_lean (e ∷ es) = note_orphan e.pid (orphan_of e.cmdline e.stat) (find_orphaned_lean es)
