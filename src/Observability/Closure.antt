-- ===== src/Observability/Closure.antt =====
-- pyleaner/observability.py: `_local_module_path` and `_local_import_closure`. A path is the list of
-- its parts; `disk` tells what stands at an absolute path, `root` is the project's directory,
-- resolved; the hash of a text is given.
use py_leaner.Base.{
  ℕ, zero, suc, Bool, true, false, not, Option, none, some, ◌⊎◌, inl, inr, List, [], ◌∷◌, ◌++◌,
  ◌==◌, if◌then◌else◌, keep,
}
use py_leaner.Base.Text.{Text, codes, text_eq}
use py_leaner.Base.TextDict.{TextDict, put_key}
use py_leaner.Observability.Lines.{split_at}
use py_leaner.Observability.Imports.{has, imports}
use py_leaner.Observability.Sorted.{sorted}

-- What the reading of a file and the handling of a path raise, of what `LspClient` tells apart.
pub data Failure : Type 0 where
  os_error value_error : Failure

-- A regular file: its text, or what `read_text` raises.
pub data Content : Type 0 where
  text : Text → Content
  broken : Failure → Content

pub data Entry : Type 0 where
  absent directory : Entry
  file : Content → Entry

-- By the text of the absolute path, each part behind a slash
abbrev pub Disk : Type 0
Disk = Text → Entry

abbrev pub path_text : List Text → Text
path_text [] = []
path_text (p ∷ ps) = b'/' ∷ p ++ path_text ps

abbrev is_empty : Text → Bool
is_empty [] = true
is_empty (c ∷ s) = false

-- The parts of a path as `Path` splits it: nothing between two slashes is dropped.
unfoldable pub parts_of : Text → List Text
parts_of s = keep (λ p. not (is_empty p)) (split_at b'/' s)

abbrev pub begins_at_root : Text → Bool
begins_at_root [] = false
begins_at_root (c ∷ s) = c == b'/'

-- `Path(*components)`: whether it is absolute, and its parts. An absolute component begins anew.
unfoldable pub join : Bool × List Text → List Text → Bool × List Text
join path [] = path
join path (c ∷ cs) =
    join (if begins_at_root c then (true, parts_of c) else (path.0, path.1 ++ parts_of c)) cs

-- `path.with_suffix(suffix)`, for parts that hold no dot; without a part it raises.
unfoldable pub with_suffix : Text → List Text → Option (List Text)
with_suffix suffix [] = none
with_suffix suffix (p ∷ []) = some ((p ++ suffix) ∷ [])
with_suffix suffix (p ∷ q ∷ ps) = elim (with_suffix suffix (q ∷ ps)) [
  | none ↦ none
  | some rs ↦ some (p ∷ rs)
]

-- `root / path`
abbrev pub under : List Text → Bool → List Text → List Text
under root absolute parts = if absolute then parts else root ++ parts

-- `path.relative_to(root).as_posix()`; `none` where it raises
unfoldable pub as_posix : List Text → Text
as_posix [] = b'.' ∷ []
as_posix (p ∷ []) = p
as_posix (p ∷ q ∷ ps) = p ++ b'/' ∷ as_posix (q ∷ ps)

unfoldable pub relative_to : List Text → List Text → Option Text
relative_to [] path = some (as_posix path)
relative_to (r ∷ root) [] = none
relative_to (r ∷ root) (p ∷ path) = if text_eq r p then relative_to root path else none

-- What one turn of the loop finds for a module: no local file, the file's relative path and its
-- text, or what is raised.
pub data Source : Type 0 where
  missing : Source
  found : Text → Text → Source
  failing : Failure → Source

-- `read_text` and `relative_to`
unfoldable pub read_source : List Text → List Text → Content → Source
read_source root path (broken f) = failing f
read_source root path (text s) = elim (relative_to root path) [
  | none ↦ failing value_error
  | some relative ↦ found relative s
]

-- The first of the candidates that is a file
unfoldable pub first_file : Disk → List Text → List (List Text) → Source
first_file disk root [] = missing
first_file disk root (c ∷ cs) = elim (disk (path_text c)) [
  | file content ↦ read_source root c content
  | _ ↦ first_file disk root cs
]

-- `_local_module_path`, with the reading of what it returns
unfoldable pub local_source : Disk → List Text → Text → Source
local_source disk root name =
    let (absolute, parts) = join (false, []) (split_at b'.' name) in
    elim (with_suffix (codes ".lean") parts) [
      | none ↦ failing value_error
      | some lean ↦
          first_file disk root
            (under root absolute lean ∷ under root absolute (parts ++ codes "Main.lean" ∷ []) ∷ [])
    ]

-- The variables of the loop
pub record Walk : Type 0 where
  pub pending : List Text
  pub seen : List Text
  pub files : TextDict Text

-- The turns that only `continue`
unfoldable pub skip_seen : List Text → List Text → List Text
skip_seen seen [] = []
skip_seen seen (m ∷ ms) = if has m seen then skip_seen seen ms else m ∷ ms

-- The turn of a module that has not been seen, with what is pending behind it
unfoldable pub visit : (Text → Text) → Text → Source → Walk → Failure ⊎ Walk
visit hash name missing w = inr (record w { seen = name ∷ w.seen })
visit hash name (failing f) w = inl f
visit hash name (found relative source) w = inr (record {
  pending = w.pending ++ keep (λ child. not (has child (name ∷ w.seen))) (imports source);
  seen = name ∷ w.seen;
  files = put_key relative (hash source) w.files;
})

-- The loop, with fuel for each module that it visits; `none` where it runs out. Its front is a module
-- that has not been seen.
unfoldable pub walk :
    (Text → Text)
    → (Text → Source)
    → ℕ
    → List Text
    → List Text
    → TextDict Text
    → Option (Failure ⊎ Walk)
walk hash source fuel [] seen files =
    some (inr (record { pending = []; seen = seen; files = files }))
walk hash source zero (m ∷ pending) seen files = none
walk hash source (suc fuel) (m ∷ pending) seen files =
    elim (visit hash m (source m) (record { pending = pending; seen = seen; files = files })) [
      | inl f ↦ some (inl f)
      | inr w ↦ walk hash source fuel (skip_seen w.seen w.pending) w.seen w.files
    ]

-- `_local_import_closure`: the modules, and the hashes of the local files
unfoldable pub local_import_closure :
    (Text → Text) → (Text → Source) → ℕ → List Text → Option (Failure ⊎ (List Text × TextDict Text))
local_import_closure hash source fuel initial = elim (walk hash source fuel initial [] []) [
  | none ↦ none
  | some (inl f) ↦ some (inl f)
  | some (inr w) ↦ some (inr (sorted (λ m. m) w.seen, sorted (λ e. e.0) w.files))
]
