-- ===== src/Client/Resilient/Outcome.antt =====
-- pyleaner/client.py: how `_submit_resilient` ends.
use py_leaner.Base.{
  ℕ, ◌+◌, ◌≡◌, ◌≢◌, ◌⊎◌, refl, sym, subst, inl, inr, Bool, true, false, Option, none, some, List,
  [], ◌∷◌, ◌++◌, arith, length, All, Option-cases, Bool-cases,
}
use py_leaner.Base.Text.{Text, codes}
use py_leaner.Task.{
  Error, service_unavailable, lean_task_timeout, toxic_task, rpc_timeout, runtime_error, Response,
  succeeded, failed,
}
use py_leaner.Client.Resilient.{
  judge, message_of, Attempt, no_pool, expired, answered, Ending, returned, raised, Submission,
  Progress, end_of, advance, verdict_end, attempts_from, submits, not_begun, submit_resilient,
  is_dead_server_error, final_error, is_timeout_reason, or_text, expired_error,
}

-- What the call ends with, by the attempt that ends it: the value of a success; for a restart that the
-- task is blamed for, a timeout with the reason that is given, if this tells of a deadline, else a
-- rejected task with the type and the text of the call and the reason; a worker's timeout as it is,
-- and that of an RPC with its message; for any other failure, a `RuntimeError` with its message, if
-- that is not empty; out of time, a timeout; and without a pool, a `RuntimeError`.
abbrev pub IsFinal : Submission → Attempt → Ending → Type 0
IsFinal s no_pool e = e ≡ raised (runtime_error (codes "Worker pool not initialized"))
IsFinal s expired e = (m : Text) × (e ≡ raised (lean_task_timeout m))
IsFinal s (answered (succeeded content) r) e = e ≡ returned content
IsFinal s (answered (failed service_unavailable toxic reason) r) e =
    ((is_timeout_reason (or_text reason []) ≡ true)
      × (e ≡ raised (lean_task_timeout (or_text reason []))))
    ⊎ ((is_timeout_reason (or_text reason []) ≡ false)
        × (e
            ≡ raised (
                toxic_task s.task_type (or_text reason (codes "crashed/wedged the server"))
                  s.input_text)))
IsFinal s (answered (failed (lean_task_timeout m) toxic reason) r) e =
    e ≡ raised (lean_task_timeout m)
IsFinal s (answered (failed (rpc_timeout m) toxic reason) r) e = e ≡ raised (lean_task_timeout m)
IsFinal s (answered (failed x toxic reason) r) e =
    (m : Text) × (e ≡ raised (runtime_error m)) × (message_of x ≢ [] → m ≡ message_of x)

FinalIfAny : Submission → Attempt → Option Ending → Type 0
FinalIfAny s a none = Unit
FinalIfAny s a (some e) = IsFinal s a e

or_text_kept : (m d : Text) → m ≢ [] → or_text (some m) d ≡ m
or_text_kept [] d h = absurd (h refl)
or_text_kept (c ∷ m) d h = refl

final_error-IsFinal :
    (s : Submission) (x : Error) (toxic : Bool) (reason : Option Text) (r : Text)
    → x ≢ service_unavailable
    → IsFinal s (answered (failed x toxic reason) r) (raised (final_error r x))
unfolding final_error
final_error-IsFinal s service_unavailable toxic reason r n = absurd (n refl)
final_error-IsFinal s (lean_task_timeout m) toxic reason r n = refl
final_error-IsFinal s (rpc_timeout m) toxic reason r n = refl
final_error-IsFinal s x toxic reason r n =
    (or_text (some (message_of x)) r, refl, or_text_kept (message_of x) r)

judge-Final :
    (s : Submission) (r : Response) (error_repr : Text)
    → FinalIfAny s
        (answered r error_repr)
        (verdict_end (judge s.task_type s.input_text error_repr r))
unfolding judge FinalIfAny verdict_end
judge-Final s (succeeded content) r = refl
judge-Final s (failed service_unavailable true reason) r =
    elim (Bool-cases (is_timeout_reason (or_text reason []))) [
      | inl e ↦ rw e (inl (e, refl))
      | inr e ↦ rw e (inr (e, refl))
    ]
judge-Final s (failed service_unavailable false reason) r = tt
judge-Final s (failed x toxic reason) r = elim (Bool-cases (is_dead_server_error x)) [
  | inl dead ↦ rw dead tt
  | inr alive ↦ rw alive (final_error-IsFinal s x toxic reason r (λ e. cc))
]

end_of-Final : (s : Submission) (a : Attempt) → FinalIfAny s a (end_of s a)
unfolding end_of FinalIfAny
end_of-Final s no_pool = refl
end_of-Final s expired = unfold expired_error in (_, refl)
end_of-Final s (answered r error_repr) = judge-Final s r error_repr

-- The attempt found a failure that the loop answers by another round: a restart that this task is
-- not blamed for, or a dead server.
abbrev pub Retried : Attempt → Type 0
Retried (answered (failed service_unavailable toxic reason) error_repr) = toxic ≡ false
Retried (answered (failed e toxic reason) error_repr) = is_dead_server_error e ≡ true
Retried _ = ⊥

judge-Retried :
    (s : Submission) (r : Response) (error_repr : Text)
    → Retried (answered r error_repr)
    → verdict_end (judge s.task_type s.input_text error_repr r) ≡ none
unfolding judge verdict_end
judge-Retried s (succeeded content) p h = absurd h
judge-Retried s (failed service_unavailable true reason) p h = cc
judge-Retried s (failed service_unavailable false reason) p h = refl
judge-Retried s (failed e toxic reason) p h = rw h

judge_settled :
    (s : Submission) (r : Response) (error_repr : Text)
    → ¬ Retried (answered r error_repr)
    → verdict_end (judge s.task_type s.input_text error_repr r) ≢ none
unfolding judge verdict_end
judge_settled s (succeeded content) p h = λ q. cc
judge_settled s (failed service_unavailable true reason) p h =
    elim (Bool-cases (is_timeout_reason (or_text reason []))) [
      | inl e ↦ rw e (λ q. cc)
      | inr e ↦ rw e (λ q. cc)
    ]
judge_settled s (failed service_unavailable false reason) p h = absurd (h refl)
judge_settled s (failed e toxic reason) p h = elim (Bool-cases (is_dead_server_error e)) [
  | inl dead ↦ absurd (h dead)
  | inr alive ↦ rw alive (λ q. cc)
]

end_of-Retried : (s : Submission) (a : Attempt) → Retried a → (end_of s a ≡ none) × (submits a ≡ 1)
unfolding end_of
end_of-Retried s no_pool h = absurd h
end_of-Retried s expired h = absurd h
end_of-Retried s (answered r p) h = (judge-Retried s r p h, refl)

end_of_not_none : (s : Submission) (a : Attempt) → ¬ Retried a → end_of s a ≢ none
unfolding end_of
end_of_not_none s no_pool h = λ q. cc
end_of_not_none s expired h = λ q. cc
end_of_not_none s (answered r p) h = judge_settled s r p h

end_of_settled :
    (s : Submission) (a : Attempt)
    → ¬ Retried a
    → (e : Ending) × (end_of s a ≡ some e) × IsFinal s a e
unfolding FinalIfAny
end_of_settled s a h = elim (Option-cases (end_of s a)) [
  | inl q ↦ absurd (end_of_not_none s a h q)
  | inr (e, q) ↦ (e, q, subst (FinalIfAny s a) q (end_of-Final s a))
]

module _ (s : Submission) where
  attempts_stop :
      (a : Attempt) (post : List Attempt) (p : Progress) (e : Ending)
      → end_of s a ≡ some e
      → attempts_from s (a ∷ post) p ≡ advance s a p
  unfolding attempts_from
  attempts_stop a post p e q = ground arith

  attempts_go_on :
      (a : Attempt) (post : List Attempt) (p : Progress)
      → end_of s a ≡ none
      → attempts_from s (a ∷ post) p ≡ attempts_from s post (advance s a p)
  unfolding attempts_from
  attempts_go_on a post p q = ground arith

  -- The call has ended as the attempt tells, after `n` submissions.
  abbrev pub EndedAfter : Attempt → ℕ → Progress → Type 0
  EndedAfter a n p = (e : Ending) × (p.ending ≡ some e) × IsFinal s a e × (p.submissions ≡ n)

  module _ (a : Attempt) (post : List Attempt) (settled : ¬ Retried a) where
    attempts_from_end :
        (pre : List Attempt) (p : Progress)
        → All Retried pre
        → EndedAfter a
            (p.submissions + length pre + submits a)
            (attempts_from s (pre ++ a ∷ post) p)
    attempts_from_end [] p h =
        let (e, q, final) = end_of_settled s a settled in
        subst (EndedAfter a (p.submissions + 0 + submits a)) (sym (attempts_stop a post p e q))
          (e, q, final, omega arith)
    attempts_from_end (b ∷ pre) p h =
        let (goes_on, one) = end_of-Retried s b h.0 in
        let (e, q, final, n) = attempts_from_end pre (advance s b p) h.1 in
        subst (EndedAfter a (p.submissions + length (b ∷ pre) + submits a))
          (sym (attempts_go_on b (pre ++ a ∷ post) p goes_on)) (e, q, final, omega (arith, n, one))

    -- If the first attempts of a call all find a failure that is answered by another round (a
    -- restart that the task is not blamed for, or a dead server), and the next one does not, then
    -- the call ends there, whatever could come later, as that attempt tells. A success ends it with
    -- its value. A restart that the task is blamed for ends it with a timeout that has the reason, if
    -- this tells of a deadline, else with a rejection that has the type and the text of the call, and
    -- the reason, if there is one. A timeout of the worker or of an RPC ends it with a timeout that
    -- has its message, and any other failure with a `RuntimeError` that has its message, if that is
    -- not empty. No response in time ends it with a timeout, and no pool with a `RuntimeError`. It
    -- has submitted the task once for each of the attempts (not for one that found no pool), so a
    -- task that is blamed is never submitted again.
    pub submit_resilient_ends :
        (pre : List Attempt)
        → All Retried pre
        → EndedAfter a (length pre + submits a) (submit_resilient s (pre ++ a ∷ post))
    unfolding submit_resilient
    submit_resilient_ends pre h =
        let (e, q, final, n) = attempts_from_end pre not_begun h in (e, q, final, omega (arith, n))
