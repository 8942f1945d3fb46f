-- ===== src/Observability/Cached.antt =====
-- pyleaner/client.py: `LspClient.task_environment_fingerprint` and
-- `LspClient.runtime_environment_fingerprint`, with the values that the client keeps.
pub mod Order
pub mod Kept
use py_leaner.Base.{ℕ, Option, none, some, ◌⊎◌, inl, inr, []}
use py_leaner.Base.Text.{Text, codes}
use py_leaner.Base.TextDict.{TextDict, get, put_key}
use py_leaner.Base.Json.{Json, str}
use py_leaner.Observability.Closure.{Failure}
use py_leaner.Observability.Environment.{
  Project, LeanEnvironmentFingerprint, fingerprint_lean_environment,
  runtime_environment_fingerprint,
}

-- `_environment_fingerprint_cache` and `_runtime_environment_fingerprint`
pub record Cache : Type 0 where
  pub environment : TextDict (Option Text)
  pub runtime : Option Text

-- The source of a task: its `text`, if that is a string
unfoldable pub source_of : TextDict Json → Text
source_of kwargs = text_or_empty (get (codes "text") kwargs)
  where
    text_or_empty : Option Json → Text
    text_or_empty (some (str s)) = s
    text_or_empty _ = []

-- Both failures are caught.
unfoldable pub kept : Failure ⊎ LeanEnvironmentFingerprint → Option Text
kept (inl f) = none
kept (inr e) = some e.fingerprint

unfoldable pub computed : Project → ℕ → Text → Option (Option Text)
computed p fuel source = elim (fingerprint_lean_environment p fuel source) [
  | none ↦ none
  | some r ↦ some (kept r)
]

unfoldable pub store : Text → Option (Option Text) → Cache → Option (Option Text × Cache)
store key none c = none
store key (some value) c = some (value, record c { environment = put_key key value c.environment })

-- `task_environment_fingerprint`: its result and the cache; `none` where the fuel runs out
unfoldable pub task_environment_fingerprint :
    Project → ℕ → TextDict Json → Cache → Option (Option Text × Cache)
task_environment_fingerprint p fuel kwargs c =
    let source = source_of kwargs in
    let key = p.hash source in
    elim (get key c.environment) [
      | some value ↦ some (value, c)
      | none ↦ store key (computed p fuel source) c
    ]

unfoldable pub runtime_value : Failure ⊎ Text → Option Text
runtime_value (inl f) = none
runtime_value (inr t) = some t

-- `LspClient.runtime_environment_fingerprint`: a failure is not kept.
unfoldable pub client_runtime_fingerprint : Project → Cache → Option Text × Cache
client_runtime_fingerprint p c = elim c.runtime [
  | some value ↦ (some value, c)
  | none ↦
      let value = runtime_value (runtime_environment_fingerprint p) in
      (value, record c { runtime = value })
]
