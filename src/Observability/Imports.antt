-- ===== src/Observability/Imports.antt =====
-- pyleaner/observability.py: `_imports`, the modules that a source imports.
pub mod RoundTrip
use py_leaner.Base.{
  ℕ, Bool, false, ◌||◌, ◌≡◌, refl, Option, none, some, List, [], ◌∷◌, ◌++◌, if◌then◌else◌, ◌==◌,
}
use py_leaner.Base.Text.{Text, codes, text_eq}
use py_leaner.Client.Frames.{before_first}
use py_leaner.Observability.Lines.{
  is_white, split_lines, skip_white, drop_white_end, words, words_of,
}

-- `m in ms`
unfoldable pub has : Text → List Text → Bool
has m [] = false
has m (n ∷ ns) = text_eq m n || has m ns

-- What follows the text `p` at the front
unfoldable pub after_front : Text → Text → Option Text
after_front [] s = some s
after_front (p ∷ ps) [] = none
after_front (p ∷ ps) (c ∷ s) = if p == c then after_front ps s else none

abbrev pub last_of : ℕ → Text → ℕ
last_of c [] = c
last_of c (d ∷ s) = last_of d s

-- `(.+?)\s*$` behind `\s+`, of which one character has been read: where only blanks follow, the last
-- of them is the group.
unfoldable pub group_of : Text → Text → Option Text
group_of [] [] = none
group_of (c ∷ blanks) [] = some (last_of c blanks ∷ [])
group_of rest (c ∷ body) = some (drop_white_end (c ∷ body))

unfoldable pub behind_import : Option Text → Option Text
behind_import none = none
behind_import (some []) = none
behind_import (some (c ∷ rest)) = if is_white c then group_of rest (skip_white rest) else none

-- `_IMPORT_LINE.match(line)`, its group
unfoldable pub import_match : Text → Option Text
import_match line = behind_import (after_front (codes "import") (skip_white line))

-- `if module not in modules: modules.append(module)` for each of the words
unfoldable pub add_new : List Text → List Text → List Text
add_new modules [] = modules
add_new modules (w ∷ ws) = add_new (if has w modules then modules else modules ++ w ∷ []) ws

unfoldable pub modules_in : Option Text → List Text
modules_in none = []
modules_in (some text) = words (before_first (codes "--") text)

unfoldable pub imports_from : List Text → List Text → List Text
imports_from modules [] = modules
imports_from modules (line ∷ lines) =
    imports_from (add_new modules (modules_in (import_match line))) lines

-- `_imports`
unfoldable pub imports : Text → List Text
imports source = imports_from [] (split_lines source)

imports_test :
    imports (codes "import  A.B C -- D\n\n  import A.B\nimports E\n") ≡ codes "A.B" ∷ codes "C" ∷ []
unfolding imports imports_from modules_in import_match behind_import group_of after_front add_new
    has split_lines skip_white drop_white_end words words_of before_first
imports_test = refl
