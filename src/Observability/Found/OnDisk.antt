-- ===== src/Observability/Found/OnDisk.antt =====
-- pyleaner/observability.py: `_local_import_closure` over the files of a disk.
use py_leaner.Base.{ℕ, ◌≤◌, ◌≡◌, List, length}
use py_leaner.Base.Text.{Text}
use py_leaner.Observability.Imports.{imports}
use py_leaner.Observability.Closure.{
  Disk, directory, file, text, path_text, local_source, local_import_closure,
}
use py_leaner.Observability.Found.{Lists}
use py_leaner.Observability.Found.Closed.{Closes, local_import_closure-Closes}
use py_leaner.Observability.OneFile.{local_source-IsAt, local_source_one}
use py_leaner.Observability.Same.{Covers}

-- Every module that any file of the disk imports is in the list.
abbrev pub ImportsWithin : List Text → Disk → Type 0
ImportsWithin us disk = (path s : Text) → disk path ≡ file (text s) → Covers us (imports s)

pub local_source-Lists :
    (disk : Disk) (root us : List Text) → ImportsWithin us disk → Lists (local_source disk root) us
local_source-Lists disk root us within p r s k e h =
    let (path, f, g) = local_source-IsAt disk root p r s e in within (path_text path) s f k h

-- On a disk where the root is a directory and all that any file imports is in a list, as much fuel as
-- the list is long is enough for the import closure of modules of the list, whether the imports form
-- a tree or a cycle: it ends with exactly the modules that are imported by any number of steps and
-- the hashes of exactly their local files, or with the failure of one of them.
pub closure_on_disk :
    (hash : Text → Text) (disk : Disk) (root initial us : List Text) (fuel : ℕ)
    (d : disk (path_text root) ≡ directory)
    → ImportsWithin us disk
    → Covers us initial
    → length us ≤ fuel
    → Closes hash
        (local_source disk root)
        initial
        (local_source_one disk root d)
        (local_import_closure hash (local_source disk root) fuel initial)
closure_on_disk hash disk root initial us fuel d within known enough =
    local_import_closure-Closes hash (local_source disk root) initial (local_source_one disk root d)
      us fuel (local_source-Lists disk root us within) known enough
