-- ===== src/Tests/Timeouts.antt =====
-- The timeout journal of pyleaner/timeout_policy.py on short samples.
use py_leaner.Base.{ℕ, ◌≡◌, refl, true, none, some, [], ◌∷◌}
use py_leaner.Base.Text.{codes}
use py_leaner.Base.TextDict.{get, put_key}
use py_leaner.TimeoutPolicy.{
  Feedback, Context, Callback, returns, times_out, feedback, entered, exhausted, default_state,
  sample_timeout_scope, load_state, current_state, store, receipt, timeout_feedback, count_timeout,
  invoke, run_lean_tool, run_tools, finish_timeout_feedback,
}
use py_leaner.TimeoutPolicy.Replay.{replayed_receipt}
use py_leaner.TimeoutPolicy.Count.{exhausted_after}
use py_leaner.TimeoutPolicy.Journal.{resumed_scope}

abbrev slow : Callback ℕ
slow = record { submitted = true; ending = times_out (codes "too slow") }

abbrev quick : Callback ℕ
quick = record { submitted = true; ending = returns 5 }

abbrev fresh : Context
fresh = record { sample = some (default_state 2); journal = none }

abbrev state_after : Context
state_after = run_tools ((quick, none) ∷ (slow, some (codes "a")) ∷ []) fresh

abbrev first_timeout : Feedback
first_timeout = timeout_feedback (codes "too slow") (default_state 2)

-- Two timeouts in a row exhaust a limit of two.
exhausted_run :
    sample_timeout_scope 2
      (run_tools ((slow, some (codes "a")) ∷ (slow, some (codes "b")) ∷ []) fresh).journal
    ≡ exhausted 2
unfolding sample_timeout_scope load_state run_tools run_lean_tool invoke receipt get store
    count_timeout put_key timeout_feedback
exhausted_run = refl

replayed_receipt_example :
    let d =
      run_tools ((quick, some (codes "b")) ∷ []) (run_lean_tool slow (some (codes "a")) fresh).1 in
    run_lean_tool quick (some (codes "a")) d ≡ (feedback first_timeout, d)
unfolding run_lean_tool receipt get invoke
replayed_receipt_example =
    replayed_receipt slow quick b'a' [] first_timeout (default_state 2) fresh
      ((quick, some (codes "b")) ∷ []) refl refl

exhausted_after_example :
    ((current_state state_after).consecutive ≡ 1)
    × ((f : Feedback) × ((run_lean_tool slow none state_after).0 ≡ feedback f)
        × (f.error ≡ codes "too slow")
        × (finish_timeout_feedback (some f) ≡ some 2))
unfolding run_lean_tool receipt get invoke
exhausted_after_example =
    exhausted_after 2 quick slow none none ((slow, some (codes "a")) ∷ []) (codes "too slow") 0
      fresh (record { in_scope = refl; under = refl; count = refl }) refl (refl, (refl, tt))
      (refl, tt) refl refl

resumed_scope_example :
    sample_timeout_scope 2 (run_tools ((slow, some (codes "a")) ∷ []) fresh).journal
    ≡ entered (run_tools ((slow, some (codes "a")) ∷ []) fresh)
unfolding sample_timeout_scope load_state run_tools run_lean_tool invoke receipt get store
    count_timeout
resumed_scope_example = resumed_scope 2 none fresh ((slow, some (codes "a")) ∷ []) refl
