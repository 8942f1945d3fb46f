-- ===== src/Watchdog/Workers.antt =====
-- pyleaner/watchdog.py, lines 532 to 547: `_lean_worker_pids`. The command line of a process, with
-- spaces between its arguments, is given, `none` where it cannot be read; the digits are those of
-- ASCII.
pub mod Located
use py_leaner.Base.{
  ℕ, ◌+◌, ◌-◌, ◌*◌, ◌≡◌, refl, Bool, true, false, not, ◌&&◌, ◌||◌, Option, none, some, List, [],
  ◌∷◌, if◌then◌else◌, leb,
}
use py_leaner.Base.Text.{Text, codes, starts_with, contains}
use py_leaner.Base.Dict.{Dict, insert}
use py_leaner.Observability.Imports.{after_front}

abbrev is_digit : ℕ → Bool
is_digit c = leb b'0' c && leb c b'9'

-- `(\d+)\.lean` with a number that has been begun; a digit must come first.
unfoldable pub number_then : ℕ → Text → Option ℕ
number_then n [] = none
number_then n (c ∷ s) =
    let rest = number_then (n * 10 + (c - b'0')) s in
    if is_digit c then rest else if starts_with (codes ".lean") (c ∷ s) then some n else none

unfoldable pub number_at : Option Text → Option ℕ
number_at none = none
number_at (some []) = none
number_at (some (c ∷ s)) = if is_digit c then number_then (c - b'0') s else none

abbrev pub or_else : Option ℕ → Option ℕ → Option ℕ
or_else none o = o
or_else (some n) o = some n

-- `re.search(r"worker_(\d+)\.lean", line)`, its group as a number: the first place that matches
unfoldable pub worker_number : Text → Option ℕ
worker_number [] = none
worker_number (c ∷ s) =
    let rest = worker_number s in or_else (number_at (after_front (codes "worker_") (c ∷ s))) rest

-- One process: the number of the worker that it runs
unfoldable pub number_of : Option Text → Option ℕ
number_of none = none
number_of (some line) = if contains (codes "--worker") line then worker_number line else none

unfoldable pub note_worker : Option ℕ → ℕ → Dict ℕ → Dict ℕ
note_worker none pid result = result
note_worker (some worker) pid result = insert worker pid result

-- The loop over the descendants
unfoldable pub note_workers : (ℕ → Option Text) → List ℕ → Dict ℕ → Dict ℕ
note_workers cmdline [] result = result
note_workers cmdline (pid ∷ pids) result =
    note_workers cmdline pids (note_worker (number_of (cmdline pid)) pid result)

-- `_lean_worker_pids`, on what `_collect_descendants` returns
unfoldable pub lean_worker_pids : (ℕ → Option Text) → List ℕ → Dict ℕ
lean_worker_pids cmdline descendants = note_workers cmdline descendants []

worker_number_test :
    worker_number (codes "lean --worker worker_x file:///p/worker_12.lean") ≡ some 12
unfolding worker_number number_at number_then after_front
worker_number_test = refl
