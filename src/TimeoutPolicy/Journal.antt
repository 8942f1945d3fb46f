-- ===== src/TimeoutPolicy/Journal.antt =====
-- pyleaner/timeout_policy.py: what the journal holds, and a scope that is entered again after a crash.
use py_leaner.Base.{
  ℕ, ◌≡◌, refl, false, Option, some, List, [], ◌∷◌, arith, leb, ltb, if◌then◌else◌, Option-cases,
  inl, inr,
}
use py_leaner.Base.Text.{Text}
use py_leaner.TimeoutPolicy.{
  SampleState, Context, Ending, Callback, returns, times_out, raises, entered, exhausted,
  load_state, sample_timeout_scope, current_state, store, receipt, timeout_feedback, count_timeout,
  invoke, run_lean_tool, run_tools,
}

-- A sample under the limit is in scope, and a new scope would load the state that it has now.
pub record IsDurable (limit : ℕ) (c : Context) : Type 0 where
  pub in_scope : c.sample ≡ some (current_state c)
  pub under : (current_state c).limit ≡ limit
  pub saved : load_state limit c.journal ≡ current_state c

module _ (limit : ℕ) where
  store-IsDurable :
      (s : SampleState) (c : Context)
      → s.limit ≡ limit
      → IsDurable limit c
      → IsDurable limit (store s c)
  unfolding store load_state
  store-IsDurable s c e d = ground arith

  module _ {A : Type 0} where
    invoke-IsDurable :
        (call : Callback A) (key : Option Text) (c : Context)
        → IsDurable limit c
        → IsDurable limit (invoke call key c).1
    unfolding invoke count_timeout
    invoke-IsDurable call key c d = go call.ending refl
      where
        s : SampleState
        s = current_state c

        go : (e : Ending A) → call.ending ≡ e → IsDurable limit (invoke call key c).1
        go (returns a) e =
            rw (e, invoke)
              (ground (arith, store-IsDurable (record s { consecutive = 0 }) c d.under d))
        go (times_out error) e =
            rw (e, invoke)
              (store-IsDurable (count_timeout key (timeout_feedback error s) s) c d.under d)
        go (raises x) e = rw (e, invoke) d

    run_lean_tool-IsDurable :
        (call : Callback A) (key : Option Text) (c : Context)
        → IsDurable limit c
        → IsDurable limit (run_lean_tool call key c).1
    unfolding run_lean_tool
    run_lean_tool-IsDurable call key c d = elim (Option-cases (receipt key (current_state c))) [
      | inl e ↦ rw (e, run_lean_tool) (invoke-IsDurable call key c d)
      | inr (f, e) ↦ rw (e, run_lean_tool) d
    ]

    run_tools-IsDurable :
        (calls : List (Callback A × Option Text)) (c : Context)
        → IsDurable limit c
        → IsDurable limit (run_tools calls c)
    unfolding run_tools
    run_tools-IsDurable [] c d = d
    run_tools-IsDurable ((call, key) ∷ calls) c d =
        run_tools-IsDurable calls (run_lean_tool call key c).1
          (run_lean_tool-IsDurable call key c d)

  enter-IsDurable :
      (journal : Option SampleState) (c : Context)
      → sample_timeout_scope limit journal ≡ entered c
      → IsDurable limit c
  unfolding sample_timeout_scope load_state
  enter-IsDurable journal c e = ground arith

  enter_pos :
      (journal : Option SampleState) (c : Context)
      → sample_timeout_scope limit journal ≡ entered c
      → ltb limit 1 ≡ false
  unfolding sample_timeout_scope
  enter_pos journal c e = ground arith

  durable_scope :
      (c : Context)
      → IsDurable limit c
      → ltb limit 1 ≡ false
      → sample_timeout_scope limit c.journal ≡ (
          if leb limit (current_state c).consecutive
          then exhausted (current_state c).consecutive
          else entered c)
  unfolding sample_timeout_scope
  durable_scope c d pos = ground arith

  -- After a scope has been entered and any tool calls have been made in it, a process that is killed
  -- loses nothing: entering a scope again over the journal that is left, with the same limit, gives
  -- the context as it was (count, receipts and journal), or raises `LeanTimeoutExhausted` with the
  -- count, exactly when the count has reached the limit.
  pub resumed_scope :
      {A : Type 0} (journal : Option SampleState) (c : Context)
      (calls : List (Callback A × Option Text))
      → sample_timeout_scope limit journal ≡ entered c
      → let d = run_tools calls c in
        sample_timeout_scope limit d.journal ≡ (
          if leb limit (current_state d).consecutive
          then exhausted (current_state d).consecutive
          else entered d)
  resumed_scope journal c calls e =
      durable_scope (run_tools calls c) (run_tools-IsDurable calls c (enter-IsDurable journal c e))
        (enter_pos journal c e)
