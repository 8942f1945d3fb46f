-- ===== src/TimeoutPolicy/Count.antt =====
-- pyleaner/timeout_policy.py: what the count of consecutive timeouts is, and when it is exhausted.
use py_leaner.Base.{
  ℕ, ◌+◌, ◌≡◌, refl, subst, Bool, true, false, ◌&&◌, Option, none, some, List, [], ◌∷◌, arith, leb,
  if◌then◌else◌,
}
use native.Mathlib.Nat.{add-zero}
use py_leaner.Base.Text.{Text}
use py_leaner.TimeoutPolicy.{
  Feedback, SampleState, Context, Ending, Callback, returns, times_out, raises, feedback,
  current_state, store, receipt, timeout_feedback, count_timeout, invoke, run_lean_tool, run_tools,
  finish_timeout_feedback,
}

-- The sample in scope, with its limit and its count.
pub record Counts (limit n : ℕ) (c : Context) : Type 0 where
  pub in_scope : c.sample ≡ some (current_state c)
  pub under : (current_state c).limit ≡ limit
  pub count : (current_state c).consecutive ≡ n

module _ {A : Type 0} where
  -- The call submits a Lean task and returns.
  abbrev pub submits : Callback A → Bool
  submits call = call.submitted && elim call.ending [ returns a ↦ true | _ ↦ false ]

  -- The timeouts among the calls.
  abbrev pub timeouts_in : List (Callback A × Option Text) → ℕ
  timeouts_in [] = 0
  timeouts_in ((call, key) ∷ calls) =
      elim call.ending [ times_out e ↦ 1 | _ ↦ 0 ] + timeouts_in calls

  -- None of the calls submits a task and returns.
  abbrev pub NoSuccess : List (Callback A × Option Text) → Type 0
  NoSuccess [] = Unit
  NoSuccess ((call, key) ∷ calls) = (submits call ≡ false) × NoSuccess calls

  -- None of the calls, made in turn from the context, is a replay.
  abbrev pub NoReplay : List (Callback A × Option Text) → Context → Type 0
  NoReplay [] c = Unit
  NoReplay ((call, key) ∷ calls) c =
      (receipt key (current_state c) ≡ none) × NoReplay calls (run_lean_tool call key c).1

  -- The count after a call that is no replay.
  abbrev next_count : Callback A → ℕ → ℕ
  next_count call n = elim call.ending [
    | times_out e ↦ n + 1
    | returns a ↦ if call.submitted then 0 else n
    | raises x ↦ n
  ]

module _ (limit : ℕ) where
  store-Counts :
      (m n : ℕ) (s : SampleState) (c : Context)
      → s.limit ≡ limit
      → s.consecutive ≡ n
      → Counts limit m c
      → Counts limit n (store s c)
  unfolding store
  store-Counts m n s c e f k = ground arith

  module _ {A : Type 0} where
    invoke-Counts :
        (call : Callback A) (key : Option Text) (n : ℕ) (c : Context)
        → Counts limit n c
        → Counts limit (next_count call n) (invoke call key c).1
    unfolding invoke count_timeout
    invoke-Counts call key n c k = go call.ending refl
      where
        s : SampleState
        s = current_state c

        go :
            (e : Ending A)
            → call.ending ≡ e
            → Counts limit (next_count call n) (invoke call key c).1
        go (returns a) e =
            rw (e, invoke)
              (ground (arith, store-Counts n 0 (record s { consecutive = 0 }) c k.under refl k))
        go (times_out error) e =
            rw (e, invoke)
              (store-Counts n (n + 1) (count_timeout key (timeout_feedback error s) s) c k.under
                (omega (arith, k.count)) k)
        go (raises x) e = rw (e, invoke) k

    run_lean_tool-Counts :
        (call : Callback A) (key : Option Text) (n : ℕ) (c : Context)
        → receipt key (current_state c) ≡ none
        → Counts limit n c
        → Counts limit (next_count call n) (run_lean_tool call key c).1
    unfolding run_lean_tool
    run_lean_tool-Counts call key n c new k = rw (new, run_lean_tool) (invoke-Counts call key n c k)

    next_count-NoSuccess :
        (call : Callback A) (n t : ℕ)
        → submits call ≡ false
        → next_count call n + t ≡ n + (elim call.ending [ times_out e ↦ 1 | _ ↦ 0 ] + t)
    next_count-NoSuccess call n t h = ground arith

    run_tools-Counts :
        (calls : List (Callback A × Option Text)) (n : ℕ) (c : Context)
        → NoReplay calls c
        → NoSuccess calls
        → Counts limit n c
        → Counts limit (n + timeouts_in calls) (run_tools calls c)
    unfolding run_tools
    run_tools-Counts [] n c new fail k = rw add-zero k
    run_tools-Counts ((call, key) ∷ calls) n c new fail k =
        subst (λ t. Counts limit t (run_tools calls (run_lean_tool call key c).1))
          (next_count-NoSuccess call n (timeouts_in calls) fail.0)
          (run_tools-Counts calls (next_count call n) (run_lean_tool call key c).1 new.1 fail.1
            (run_lean_tool-Counts call key n c new.0 k))

    next_count-submits : (call : Callback A) (n : ℕ) → submits call ≡ true → next_count call n ≡ 0
    next_count-submits call n h = ground arith

    invoke_timeout :
        (call : Callback A) (key : Option Text) (error : Text) (n : ℕ) (c : Context)
        → receipt key (current_state c) ≡ none
        → call.ending ≡ times_out error
        → Counts limit n c
        → (f : Feedback) × ((run_lean_tool call key c).0 ≡ feedback f)
          × (f.error ≡ error)
          × (finish_timeout_feedback (some f) ≡ (if leb limit (n + 1) then some (n + 1) else none))
    unfolding run_lean_tool invoke timeout_feedback finish_timeout_feedback
    invoke_timeout call key error n c new e k = (
      timeout_feedback error (current_state c),
      rw (new, e, run_lean_tool, invoke),
      refl,
      rw (k.under, k.count),
    )

    -- In a scope with a limit, after a call that submits a task and returns, and then calls none of
    -- which does, and of which none is a replay, the count is the number of timeouts since that
    -- call. A further call that times out and is no replay gives feedback with that number and one,
    -- and `finish_timeout_feedback` raises on it exactly when this reaches the limit.
    pub exhausted_after :
        (ok last : Callback A) (key key' : Option Text) (calls : List (Callback A × Option Text))
        (error : Text) (n : ℕ) (c : Context)
        → Counts limit n c
        → submits ok ≡ true
        → NoReplay ((ok, key) ∷ calls) c
        → NoSuccess calls
        → last.ending ≡ times_out error
        → let d = run_tools ((ok, key) ∷ calls) c in
          receipt key' (current_state d) ≡ none
          → ((current_state d).consecutive ≡ timeouts_in calls)
            × ((f : Feedback) × ((run_lean_tool last key' d).0 ≡ feedback f)
                × (f.error ≡ error)
                × (finish_timeout_feedback (some f) ≡ (
                    if leb limit (timeouts_in calls + 1)
                    then some (timeouts_in calls + 1)
                    else none)))
    unfolding run_tools
    exhausted_after ok last key key' calls error n c k s new fail e fresh =
        let d = run_tools calls (run_lean_tool ok key c).1 in
        let total =
          subst (λ (t : ℕ). Counts limit (t + timeouts_in calls) d) (next_count-submits ok n s)
            (run_tools-Counts calls (next_count ok n) (run_lean_tool ok key c).1 new.1 fail
              (run_lean_tool-Counts ok key n c new.0 k)) in
        (
          omega (arith, total.count),
          invoke_timeout last key' error (timeouts_in calls) d fresh e
              (subst (λ (t : ℕ). Counts limit t d) (omega arith) total),
        )
