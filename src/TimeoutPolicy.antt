-- ===== src/TimeoutPolicy.antt =====
-- pyleaner/timeout_policy.py: consecutive timeouts of one sample and their durable journal. The
-- context variable `_sample` and the journal file are one state; the file is read and written
-- whole, and holds what `json.loads` gives back.
pub mod Replay
pub mod Count
pub mod Journal
use py_leaner.Base.{
  ℕ, ◌+◌, Bool, true, false, ◌&&◌, Option, none, some, List, [], ◌∷◌, ltb, leb, ◌==◌, not,
  if◌then◌else◌,
}
use py_leaner.Base.Text.{Text, codes}
use py_leaner.Base.TextDict.{TextDict, get, put_key}

-- The dict `feedback`.
pub record Feedback : Type 0 where
  pub status : Text
  pub success : Bool
  pub error : Text
  pub consecutive_timeouts : ℕ
  pub timeout_limit : ℕ
  pub timeout_exhausted : Bool
  pub instruction : Text

-- The dict `state`.
pub record SampleState : Type 0 where
  pub consecutive : ℕ
  pub limit : ℕ
  pub timeouts : TextDict Feedback

-- The state of the sample in scope, if there is one, and the content of the journal at its path.
pub record Context : Type 0 where
  pub sample : Option SampleState
  pub journal : Option SampleState

-- How the callback ends.
pub data Ending (A : Type 0) : Type 0 where
  returns : A → Ending A
  times_out : Text → Ending A
  raises : Text → Ending A

-- What the callback does: whether it calls `note_lean_submission`, and its end.
pub record Callback (A : Type 0) : Type 0 where
  pub submitted : Bool
  pub ending : Ending A

-- What a call of `run_lean_tool` gives: a value, the feedback of a timeout, or the error passed on.
pub data ToolResult (A : Type 0) : Type 0 where
  value : A → ToolResult A
  feedback : Feedback → ToolResult A
  failed : Text → ToolResult A

abbrev pub default_state : ℕ → SampleState
default_state limit = record { consecutive = 0; limit = limit; timeouts = [] }

-- Entering `sample_timeout_scope`.
pub data Entry : Type 0 where
  entered : Context → Entry
  bad_limit : Entry
  exhausted : ℕ → Entry

-- The state that the scope starts from: the journal's, or a new one, under the given limit.
unfoldable pub load_state : ℕ → Option SampleState → SampleState
load_state limit none = default_state limit
load_state limit (some s) = record s { limit = limit }

unfoldable pub sample_timeout_scope : ℕ → Option SampleState → Entry
sample_timeout_scope limit journal =
    let s = load_state limit journal in
    if ltb limit 1
    then bad_limit
    else if leb limit s.consecutive
    then exhausted s.consecutive
    else entered (record { sample = some s; journal = journal })

-- `if key`: a key that is neither `None` nor empty.
abbrev pub usable : Option Text → Option Text
usable none = none
usable (some []) = none
usable (some (c ∷ cs)) = some (c ∷ cs)

-- The state at hand: the sample's, or one that is dropped after the call.
abbrev pub current_state : Context → SampleState
current_state c = elim c.sample [ none ↦ default_state 3 | some s ↦ s ]

-- `_persist(policy)` where there is a policy
unfoldable pub store : SampleState → Context → Context
store s c = elim c.sample [ none ↦ c | some _ ↦ record { sample = some s; journal = some s } ]

-- `state['timeouts'][key]`, where the key is usable and stands there
unfoldable pub receipt : Option Text → SampleState → Option Feedback
receipt key s = elim (usable key) [ none ↦ none | some k ↦ get k s.timeouts ]

unfoldable pub timeout_feedback : Text → SampleState → Feedback
timeout_feedback error s = record {
  status = codes "lean_timeout";
  success = false;
  error = error;
  consecutive_timeouts = s.consecutive + 1;
  timeout_limit = s.limit;
  timeout_exhausted = leb s.limit (s.consecutive + 1);
  instruction =
      codes "Lean timed out. Simplify the proof or reduce case enumeration before retrying.";
}

-- The state after a timeout: one more in a row, and the receipt under the key.
unfoldable pub count_timeout : Option Text → Feedback → SampleState → SampleState
count_timeout key f s = record s {
  consecutive = s.consecutive + 1;
  timeouts = elim (usable key) [ none ↦ s.timeouts | some k ↦ put_key k f s.timeouts ];
}

module _ {A : Type 0} where
  -- The callback is run.
  unfoldable pub invoke : Callback A → Option Text → Context → ToolResult A × Context
  invoke call key c =
      let s = current_state c in
      elim call.ending [
        | times_out error ↦ (
          feedback (timeout_feedback error s),
          store (count_timeout key (timeout_feedback error s) s) c,
        )
        | returns a ↦ (
          value a,
          if call.submitted && not (s.consecutive == 0)
              then store (record s { consecutive = 0 }) c
              else c,
        )
        | raises e ↦ (failed e, c)
      ]

  unfoldable pub run_lean_tool : Callback A → Option Text → Context → ToolResult A × Context
  run_lean_tool call key c = elim (receipt key (current_state c)) [
    | some f ↦ (feedback f, c)
    | none ↦ invoke call key c
  ]

-- `finish_timeout_feedback`: the number that `LeanTimeoutExhausted` is raised with, if it is.
unfoldable pub finish_timeout_feedback : Option Feedback → Option ℕ
finish_timeout_feedback none = none
finish_timeout_feedback (some f) = if f.timeout_exhausted then some f.consecutive_timeouts else none

-- The context after a sequence of tool calls.
unfoldable pub run_tools : {A : Type 0} → List (Callback A × Option Text) → Context → Context
run_tools [] c = c
run_tools ((call, key) ∷ calls) c = run_tools calls (run_lean_tool call key c).1
