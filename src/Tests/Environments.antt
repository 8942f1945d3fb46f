-- ===== src/Tests/Environments.antt =====
-- Runs of the fingerprints on a small project, whose two files import each other.
use py_leaner.Base.{
  true, ◌≡◌, refl, subst, Option, none, some, inl, inr, List, [], ◌∷◌, arith, if◌then◌else◌,
  Bool-cases,
}
use py_leaner.Base.Text.{Text, codes, text_eq}
use py_leaner.Base.TextDict.{TextDict, put_key, get}
use py_leaner.Base.Json.{Json, str, num}
use py_leaner.Client.Resilient.{merge_context}
use py_leaner.Observability.Events.{
  Caller, finish, raise, submit, call_pool, within, run_caller, leave, merged,
}
use py_leaner.Observability.Events.Scoped.{values_of, run_caller-scopes}
use py_leaner.Observability.Imports.{
  has, imports, imports_from, modules_in, import_match, behind_import, group_of, after_front,
  add_new,
}
use py_leaner.Observability.Imports.RoundTrip.{source_of, imports-source_of}
use py_leaner.Client.Frames.{before_first}
use py_leaner.Observability.Lines.{split_lines, skip_white, drop_white_end, words, words_of}
use py_leaner.Observability.Same.{Covers}
use py_leaner.Observability.Closure.{
  text, directory, file, absent, Disk, local_source, local_import_closure,
}
use py_leaner.Observability.Found.OnDisk.{ImportsWithin, closure_on_disk}
use py_leaner.Observability.Found.Closed.{Closes}
use py_leaner.Observability.OneFile.{local_source_one}
use py_leaner.Observability.Environment.{Project}
use py_leaner.Observability.Cached.{computed}
use py_leaner.Observability.Cached.Order.{computed_same}
use py_leaner.Observability.Cached.Kept.{answers, computed_all, answers_refine}

abbrev first_source : Text
first_source = codes "import B Lean\n"

abbrev second_source : Text
second_source = codes "import A\n"

abbrev disk : Disk
disk path =
    if text_eq path (codes "/p")
    then directory
    else if text_eq path (codes "/p/A.lean")
    then file (text first_source)
    else if text_eq path (codes "/p/B.lean")
    then file (text second_source)
    else absent

abbrev root : List Text
root = codes "p" ∷ []

abbrev modules : List Text
modules = codes "A" ∷ codes "B" ∷ codes "Lean" ∷ []

first_imports : imports first_source ≡ codes "B" ∷ codes "Lean" ∷ []
unfolding imports imports_from modules_in import_match behind_import group_of after_front add_new
    has split_lines skip_white drop_white_end words words_of before_first
first_imports = refl

second_imports : imports second_source ≡ codes "A" ∷ []
unfolding imports imports_from modules_in import_match behind_import group_of after_front add_new
    has split_lines skip_white drop_white_end words words_of before_first
second_imports = refl

first_within : Covers modules (imports first_source)
unfolding has
first_within k h = let g = rw first_imports at h in ground (arith, g)

second_within : Covers modules (imports second_source)
unfolding has
second_within k h = let g = rw second_imports at h in ground (arith, g)

disk-ImportsWithin : ImportsWithin modules disk
disk-ImportsWithin path s e = elim (Bool-cases (text_eq path (codes "/p"))) [
  | inl a ↦ absurd (cc (rw a at e))
  | inr a ↦ elim (Bool-cases (text_eq path (codes "/p/A.lean"))) [
    | inl b ↦ subst (λ s. Covers modules (imports s)) (cc (rw (a, b) at e)) first_within
    | inr b ↦ elim (Bool-cases (text_eq path (codes "/p/B.lean"))) [
      | inl c ↦ subst (λ s. Covers modules (imports s)) (cc (rw (a, b, c) at e)) second_within
      | inr c ↦ absurd (cc (rw (a, b, c) at e))
    ]
  ]
]

start_within : Covers modules (codes "A" ∷ [])
unfolding has
start_within k h = ground (arith, h)

closure_on_disk_example :
    Closes
      (λ t. t)
      (local_source disk root)
      (codes "A" ∷ [])
      (local_source_one disk root refl)
      (local_import_closure (λ t. t) (local_source disk root) 3 (codes "A" ∷ []))
closure_on_disk_example =
    closure_on_disk (λ t. t) disk root (codes "A" ∷ []) modules 3 refl disk-ImportsWithin
      start_within (omega arith)

-- The text hash is the text itself, the value hash a constant: nothing depends on them here.
abbrev project : Project
project = record {
  root = root;
  disk = disk;
  server_command = codes "lake" ∷ codes "serve" ∷ [];
  hash = λ t. t;
  hash_value = λ j. codes "sha256:0";
}

abbrev one_way : Text
one_way = codes "import A\nimport B\n"

abbrev other_way : Text
other_way = codes "import B A -- and\n import A \n"

one_way_imports : imports one_way ≡ codes "A" ∷ codes "B" ∷ []
unfolding imports imports_from modules_in import_match behind_import group_of after_front add_new
    has split_lines skip_white drop_white_end words words_of before_first
one_way_imports = refl

other_way_imports : imports other_way ≡ codes "B" ∷ codes "A" ∷ []
unfolding imports imports_from modules_in import_match behind_import group_of after_front add_new
    has split_lines skip_white drop_white_end words words_of before_first
other_way_imports = refl

way_within : Covers modules (imports one_way)
unfolding has
way_within k h = let g = rw one_way_imports at h in ground (arith, g)

way-Covers : Covers (imports one_way) (imports other_way)
unfolding has
way-Covers k h = let g = rw other_way_imports at h in rw one_way_imports (ground (arith, g))

way-Covers_back : Covers (imports other_way) (imports one_way)
unfolding has
way-Covers_back k h = let g = rw one_way_imports at h in rw other_way_imports (ground (arith, g))

computed_same_example :
    (v : Option Text) × (computed project 3 one_way ≡ some v)
    × (computed project 5 other_way ≡ some v)
computed_same_example =
    computed_same project modules 3 5 one_way other_way disk-ImportsWithin way_within way-Covers
      way-Covers_back (omega arith) (omega arith)

abbrev tasks : List (TextDict Json)
tasks =
    ((codes "text", str one_way) ∷ [])
    ∷ ((codes "text", str other_way) ∷ [])
    ∷ ((codes "text", str one_way) ∷ [])
    ∷ []

answers_refine_example :
    answers project 3 tasks (record { environment = []; runtime = none })
    ≡ computed_all project 3 tasks
answers_refine_example = answers_refine project 3 tasks none (λ s t m n e. e)

-- The second task gives its own value, and the third is one of the pool's methods.
abbrev caller : Caller
caller = submit [] (
    within ((codes "run", some (num 1)) ∷ (codes "sample", none) ∷ [])
      (submit ((codes "run", num 7) ∷ []) (
        within ((codes "run", some (num 2)) ∷ []) (call_pool (submit [] raise)) (submit [] finish)))
      (submit [] finish))

caller_run : run_caller caller ((codes "run", num 0) ∷ []) ≡ record {
  carried =
      ((codes "run", num 0) ∷ [])
      ∷ ((codes "run", num 7) ∷ [])
      ∷ []
      ∷ ((codes "run", num 2) ∷ [])
      ∷ [];
  variable = (codes "run", num 0) ∷ [];
  raised = true;
}
unfolding run_caller leave merged merge_context put_key
caller_run = refl

run_caller-scopes_example :
    (values_of (codes "run") (run_caller caller ((codes "run", num 0) ∷ [])).carried
      ≡ some (num 0) ∷ some (num 7) ∷ none ∷ some (num 2) ∷ [])
    × ((run_caller caller ((codes "run", num 0) ∷ [])).raised ≡ true)
    × ((run_caller caller ((codes "run", num 0) ∷ [])).variable ≡ (codes "run", num 0) ∷ [])
unfolding get
run_caller-scopes_example = run_caller-scopes (codes "run") caller ((codes "run", num 0) ∷ [])

abbrev body : Text
body = codes "\n-- import C\ntheorem imports : True := trivial\n"

abbrev imported : List Text
imported = codes "Init" ∷ codes "A.B" ∷ []

imports-source_of_example : imports (source_of imported body) ≡ imported
unfolding import_match behind_import group_of after_front split_lines skip_white
imports-source_of_example =
    imports-source_of imported body
      (
        ((λ e. cc), (refl, (refl, (refl, (refl, tt)))), refl),
        (((λ e. cc), (refl, (refl, (refl, tt))), refl), tt),
      )
      (((λ e. cc), tt), (tt, tt)) (refl, (refl, (refl, tt)))
