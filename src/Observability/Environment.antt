-- ===== src/Observability/Environment.antt =====
-- pyleaner/observability.py: `fingerprint_lean_environment` and `runtime_environment_fingerprint`.
-- `hash` is `fingerprint_text`, `hash_value` is `fingerprint_value`, both given.
use py_leaner.Base.{ℕ, Option, none, some, ◌⊎◌, inl, inr, List, [], ◌∷◌, ◌++◌, if◌then◌else◌}
use py_leaner.Base.Text.{Text, codes, text_eq}
use py_leaner.Base.TextDict.{TextDict, put_key}
use py_leaner.Base.Json.{Json, null, str, arr, obj, Items, nil, cons, Fields, end, field}
use py_leaner.Observability.Lines.{skip_white, drop_white_end}
use py_leaner.Observability.Imports.{imports}
use py_leaner.Observability.Sorted.{sorted}
use py_leaner.Observability.Closure.{
  Failure, os_error, text, broken, Disk, Entry, absent, directory, file, path_text, as_posix,
  local_source, local_import_closure,
}

-- The arguments that all the functions share
pub record Project : Type 0 where
  pub root : List Text
  pub disk : Disk
  pub server_command : List Text
  pub hash : Text → Text
  pub hash_value : Json → Text

abbrev pub schema_version : Text
schema_version = codes "pyleaner.environment-fingerprint.v1"

abbrev pub toolchain_name : Text
toolchain_name = codes "lean-toolchain"

abbrev pub project_names : List Text
project_names =
    toolchain_name ∷ codes "lake-manifest.json" ∷ codes "lakefile.lean" ∷ codes "lakefile.toml" ∷ []

-- `content.strip() or None`
abbrev pub stripped : Text → Option Text
stripped s = elim (drop_white_end (skip_white s)) [ [] ↦ none | c ∷ t ↦ some (c ∷ t) ]

-- The loop over the project's own files: their hashes, and the toolchain
pub record Read : Type 0 where
  pub files : TextDict Text
  pub toolchain : Option Text

unfoldable pub read_file : Project → Text → Entry → Read → Failure ⊎ Read
read_file p name absent r = inr r
read_file p name directory r = inr r
read_file p name (file (broken f)) r = inl f
read_file p name (file (text content)) r = inr (record {
  files = put_key name (p.hash content) r.files;
  toolchain = if text_eq name toolchain_name then stripped content else r.toolchain;
})

unfoldable pub read_files : Project → List Text → Read → Failure ⊎ Read
read_files p [] r = inr r
read_files p (name ∷ names) r =
    elim (read_file p name (p.disk (path_text (p.root ++ name ∷ []))) r) [
      | inl f ↦ inl f
      | inr s ↦ read_files p names s
    ]

-- The start of both functions, up to the closure
unfoldable pub read_project : Project → Failure ⊎ Read
read_project p = elim (p.disk (path_text p.root)) [
  | directory ↦ read_files p project_names (record { files = []; toolchain = none })
  | _ ↦ inl os_error
]

-- `files.update(local_files)`
unfoldable pub update : TextDict Text → TextDict Text → TextDict Text
update files [] = files
update files ((k, v) ∷ more) = update (put_key k v files) more

abbrev pub strings : List Text → Items
strings [] = nil
strings (s ∷ ss) = cons (str s) (strings ss)

abbrev pub string_fields : TextDict Text → Fields
string_fields [] = end
string_fields ((k, v) ∷ d) = field k (str v) (string_fields d)

abbrev pub optional : Option Text → Json
optional none = null
optional (some s) = str s

abbrev pub root_text : List Text → Text
root_text [] = b'/' ∷ []
root_text (p ∷ ps) = b'/' ∷ as_posix (p ∷ ps)

-- `LeanEnvironmentFingerprint`
pub record LeanEnvironmentFingerprint : Type 0 where
  pub fingerprint : Text
  pub project_root : Text
  pub server_command : List Text
  pub lean_toolchain : Option Text
  pub imports : List Text
  pub file_fingerprints : TextDict Text

unfoldable pub payload : Project → Option Text → List Text → TextDict Text → Json
payload p toolchain modules files = obj (
    field (codes "schema_version") (str schema_version) (
      field (codes "server_command") (arr (strings p.server_command)) (
        field (codes "lean_toolchain") (optional toolchain) (
          field (codes "imports") (arr (strings modules))
            (field (codes "file_fingerprints") (obj (string_fields files)) end)))))

unfoldable pub environment_of :
    Project → Read → List Text × TextDict Text → LeanEnvironmentFingerprint
environment_of p r (modules, local_files) =
    let files = sorted (λ e. e.0) (update r.files local_files) in
    record {
      fingerprint = p.hash_value (payload p r.toolchain modules files);
      project_root = root_text p.root;
      server_command = p.server_command;
      lean_toolchain = r.toolchain;
      imports = modules;
      file_fingerprints = files;
    }

-- `fingerprint_lean_environment`; `none` where the fuel of the closure runs out
unfoldable pub with_closure :
    Project
    → Read
    → Option (Failure ⊎ (List Text × TextDict Text))
    → Option (Failure ⊎ LeanEnvironmentFingerprint)
with_closure p r none = none
with_closure p r (some (inl f)) = some (inl f)
with_closure p r (some (inr c)) = some (inr (environment_of p r c))

unfoldable pub fingerprint_lean_environment :
    Project → ℕ → Text → Option (Failure ⊎ LeanEnvironmentFingerprint)
fingerprint_lean_environment p fuel source = elim (read_project p) [
  | inl f ↦ some (inl f)
  | inr r ↦
      with_closure p r
        (local_import_closure p.hash (local_source p.disk p.root) fuel (imports source))
]

unfoldable pub runtime_payload : Project → Read → Json
runtime_payload p r = obj (
    field (codes "schema_version") (str (schema_version ++ codes ".runtime")) (
      field (codes "project_root") (str (root_text p.root)) (
        field (codes "server_command") (arr (strings p.server_command)) (
          field (codes "lean_toolchain") (optional r.toolchain) (
            field (codes "file_fingerprints") (obj (string_fields (sorted (λ e. e.0) r.files)))
              end)))))

-- `runtime_environment_fingerprint`
unfoldable pub runtime_environment_fingerprint : Project → Failure ⊎ Text
runtime_environment_fingerprint p = elim (read_project p) [
  | inl f ↦ inl f
  | inr r ↦ inr (p.hash_value (runtime_payload p r))
]
