-- ===== src/TimeoutPolicy/Replay.antt =====
-- pyleaner/timeout_policy.py: a timed out call that is replayed under its key.
use py_leaner.Base.{
  ℕ, ◌≡◌, refl, ◌∙◌, Option, none, some, List, [], ◌∷◌, arith, Option-cases, inl, inr, Bool-cases,
}
use py_leaner.Base.Text.{Text, text_eq, text_eq_iff}
use py_leaner.Base.TextDict.{get, put_key, get-put_key_self, get-put_key_ne}
use py_leaner.TimeoutPolicy.{
  Feedback, SampleState, Context, Ending, Callback, returns, times_out, raises, feedback,
  current_state, store, receipt, timeout_feedback, count_timeout, invoke, run_lean_tool, run_tools,
  default_state,
}

get-put_key_kept :
    (j k : Text) (f g : Feedback) (s : SampleState)
    → get j s.timeouts ≡ some f
    → get k s.timeouts ≡ none
    → get j (put_key k g s.timeouts) ≡ some f
get-put_key_kept j k f g s have new = elim (Bool-cases (text_eq j k)) [
  | inl e ↦ absurd (ground (arith, (text_eq_iff j k).0 e))
  | inr e ↦ ground (arith, text_eq_iff j k, get-put_key_ne j k g s.timeouts)
]

-- A call adds no receipt but under a key that has none.
count_timeout-receipt :
    (key key' : Option Text) (f g : Feedback) (s : SampleState)
    → receipt key s ≡ some f
    → receipt key' s ≡ none
    → receipt key (count_timeout key' g s) ≡ some f
unfolding receipt count_timeout
count_timeout-receipt none key' f g s have new = cc
count_timeout-receipt (some []) key' f g s have new = cc
count_timeout-receipt (some (j ∷ js)) none f g s have new = have
count_timeout-receipt (some (j ∷ js)) (some []) f g s have new = have
count_timeout-receipt (some (j ∷ js)) (some (k ∷ ks)) f g s have new =
    get-put_key_kept (j ∷ js) (k ∷ ks) f g s have new

store-receipt :
    (key : Option Text) (f : Feedback) (s : SampleState) (c : Context)
    → receipt key s ≡ some f
    → receipt key (current_state c) ≡ some f
    → receipt key (current_state (store s c)) ≡ some f
unfolding store
store-receipt key f s c new old = ground arith

reset-receipt :
    (key : Option Text) (s : SampleState)
    → receipt key (record s { consecutive = 0 }) ≡ receipt key s
unfolding receipt
reset-receipt key s = refl

receipt_default : (key : Option Text) (n : ℕ) → receipt key (default_state n) ≡ none
unfolding receipt get
receipt_default none n = refl
receipt_default (some []) n = refl
receipt_default (some (k ∷ ks)) n = refl

module _ {A : Type 0} (call : Callback A) (key key' : Option Text) (f : Feedback)
    (c : Context) where
  invoke-receipt :
      receipt key (current_state c) ≡ some f
      → receipt key' (current_state c) ≡ none
      → receipt key (current_state (invoke call key' c).1) ≡ some f
  invoke-receipt have new = go call.ending refl
    where
      s : SampleState
      s = current_state c

      go :
          (e : Ending A)
          → call.ending ≡ e
          → receipt key (current_state (invoke call key' c).1) ≡ some f
      go (returns a) e =
          unfold invoke in
          rw (e, invoke)
            (ground (
              arith,
              store-receipt key f (record s { consecutive = 0 }) c (reset-receipt key s ∙ have)
                  have,
            ))
      go (times_out error) e =
          unfold invoke in
          rw (e, invoke)
            (store-receipt key f (count_timeout key' (timeout_feedback error s) s) c
              (count_timeout-receipt key key' f (timeout_feedback error s) s have new) have)
      go (raises x) e = unfold invoke in rw (e, invoke) have

  -- A receipt stays where it is, whatever is called.
  run_lean_tool-receipt :
      receipt key (current_state c) ≡ some f
      → receipt key (current_state (run_lean_tool call key' c).1) ≡ some f
  unfolding run_lean_tool
  run_lean_tool-receipt have = elim (Option-cases (receipt key' (current_state c))) [
    | inr (g, e) ↦ rw (e, run_lean_tool) have
    | inl new ↦ rw (new, run_lean_tool) (invoke-receipt have new)
  ]

run_tools-receipt :
    {A : Type 0} (calls : List (Callback A × Option Text)) (key : Option Text) (f : Feedback)
    (c : Context)
    → receipt key (current_state c) ≡ some f
    → receipt key (current_state (run_tools calls c)) ≡ some f
unfolding run_tools
run_tools-receipt [] key f c have = have
run_tools-receipt ((call, key') ∷ calls) key f c have =
    run_tools-receipt calls key f (run_lean_tool call key' c).1
      (run_lean_tool-receipt call key key' f c have)

-- The feedback of a call within a sample stands under its key afterwards.
count_timeout-feedback :
    (k : ℕ) (ks : Text) (error : Text) (s t : SampleState) (c : Context)
    → c.sample ≡ some t
    → let f = timeout_feedback error s in
      receipt (some (k ∷ ks)) (current_state (store (count_timeout (some (k ∷ ks)) f s) c)) ≡ some f
unfolding store count_timeout receipt
count_timeout-feedback k ks error s t c h =
    ground (arith, get-put_key_self (k ∷ ks) (timeout_feedback error s) s.timeouts)

receipt-invoke :
    {A : Type 0} (call : Callback A) (k : ℕ) (ks : Text) (f : Feedback) (s : SampleState)
    (c : Context)
    → c.sample ≡ some s
    → (invoke call (some (k ∷ ks)) c).0 ≡ feedback f
    → receipt (some (k ∷ ks)) (current_state (invoke call (some (k ∷ ks)) c).1) ≡ some f
receipt-invoke {A} call k ks f s c h = go call.ending refl
  where
    go :
        (e : Ending A)
        → call.ending ≡ e
        → (invoke call (some (k ∷ ks)) c).0 ≡ feedback f
        → receipt (some (k ∷ ks)) (current_state (invoke call (some (k ∷ ks)) c).1) ≡ some f
    go (returns a) e given = absurd (unfold invoke in ground arith)
    go (raises x) e given = absurd (unfold invoke in ground arith)
    go (times_out error) e given =
        unfold invoke in ground (arith, count_timeout-feedback k ks error (current_state c) s c h)

feedback_receipt :
    {A : Type 0} (call : Callback A) (k : ℕ) (ks : Text) (f : Feedback) (s : SampleState)
    (c : Context)
    → c.sample ≡ some s
    → (run_lean_tool call (some (k ∷ ks)) c).0 ≡ feedback f
    → receipt (some (k ∷ ks)) (current_state (run_lean_tool call (some (k ∷ ks)) c).1) ≡ some f
unfolding run_lean_tool
feedback_receipt call k ks f s c h e =
    elim (Option-cases (receipt (some (k ∷ ks)) (current_state c))) [
      | inr (g, had) ↦ ground arith
      | inl new ↦ rw (new, run_lean_tool) (receipt-invoke call k ks f s c h (ground arith))
    ]

-- Within a sample, once a call under a key (neither `None` nor empty) has given timeout feedback,
-- then after any further calls under any keys, a call under that key gives the same feedback, runs
-- no callback and changes nothing: neither the count, nor the receipts, nor the journal.
pub replayed_receipt :
    {A : Type 0} (call again : Callback A) (k : ℕ) (ks : Text) (f : Feedback) (s : SampleState)
    (c : Context) (calls : List (Callback A × Option Text))
    → c.sample ≡ some s
    → (run_lean_tool call (some (k ∷ ks)) c).0 ≡ feedback f
    → let d = run_tools calls (run_lean_tool call (some (k ∷ ks)) c).1 in
      run_lean_tool again (some (k ∷ ks)) d ≡ (feedback f, d)
unfolding run_lean_tool
replayed_receipt call again k ks f s c calls h e = rw (
  run_tools-receipt calls (some (k ∷ ks)) f (run_lean_tool call (some (k ∷ ks)) c).1
      (feedback_receipt call k ks f s c h e),
  run_lean_tool,
)
