-- ===== src/Incident/Callers.antt =====
-- A restart as the callers see it: what the worker that was struck answers, and what the loop of
-- `_submit_resilient` makes of it.
use py_leaner.Base.{
  ℕ, ◌≡◌, refl, true, none, some, List, [], ◌∷◌, arith, All, Among, if◌then◌else◌, Bool-cases,
  Option-cases, inl, inr,
}
use py_leaner.Base.Text.{Text}
use py_leaner.Task.{Task, toxic_task, service_unavailable, Response, failed}
use py_leaner.Pool.{Worker, reply}
use py_leaner.Watchdog.Types.{Trigger}
use py_leaner.Watchdog.Monitor.Inspect.{oom_reason, soft_reason, killed_reason}
use py_leaner.Watchdog.Recovery.{Owner, pool_workers, take_down, mark}
use py_leaner.Watchdog.Recovery.Attribution.{struck, is_blamed, Among-take_down, struck-task}
use py_leaner.Worker.Loop.{on_service_unavailable, interrupted_response, innocent_response, drained}
use py_leaner.Client.Resilient.{Verdict, raise, retry_restarted, judge}
use py_leaner.Incident.Reasons.{MemoryReason, oom, soft, killed, MemoryReason-is_timeout}

-- What a caller makes of a response, as the verdict of its loop.
abbrev pub Caller : Type 0
Caller = Text × Text × Text

abbrev pub verdict : Caller → Response → Verdict
verdict (task_type, input, error_repr) r = judge task_type input error_repr r

-- All of the responses make their callers try again.
abbrev pub AllRetry : List (ℕ × Response) → Type 0
AllRetry rs = All (λ e. (c : Caller) → verdict c e.1 ≡ retry_restarted) rs

drained-AllRetry : (ts : List Task) → AllRetry (drained ts)
unfolding drained reply innocent_response judge
drained-AllRetry [] = tt
drained-AllRetry (t ∷ ts) = elim (Option-cases t.result_q) [
  | inl e ↦ rw e (drained-AllRetry ts)
  | inr (q, e) ↦ rw e (λ c. refl, drained-AllRetry ts)
]

module _ (t : Trigger) (reason : Text) (given : List ℕ) (o : Owner) (w : Worker) (task : Task)
    (q : ℕ) where
  -- The worker belongs to the pool, and has a task in hand that nobody has marked yet.
  abbrev pub IsServing : Type 0
  IsServing =
      Among w (pool_workers o)
      × (w.current_task ≡ some task)
      × (task.result_q ≡ some q)
      × (task.culprit ≡ none)

  -- What the poisoned worker answers: first the task in hand, with what the caller of a blamed task
  -- meets, or another try; then all that wait, with another try.
  abbrev pub Answers : (Caller → Verdict) → Type 0
  Answers blamed =
      Among (struck t reason given o w) (pool_workers (take_down t reason given o))
      × ((r : Response) × ((on_service_unavailable (struck t reason given o w)).1
            ≡ (q, r) ∷ drained w.task_queue)
          × ((c : Caller)
              → verdict c r ≡ (if is_blamed t reason given o w then blamed c else retry_restarted)))
      × AllRetry (drained w.task_queue)

  answered_by : Task
  answered_by = if is_blamed t reason given o w then mark reason task else task

  struck_replies :
      IsServing
      → (on_service_unavailable (struck t reason given o w)).1
        ≡ (q, interrupted_response answered_by) ∷ drained w.task_queue
  unfolding on_service_unavailable reply answered_by
  struck_replies (m, e, q_at, fresh) = ground (arith, struck-task t reason given o w task m e)

  verdict_answered :
      (blamed : Caller → Verdict)
      → task.culprit ≡ none
      → ((c : Caller) → verdict c (failed service_unavailable true (some reason)) ≡ blamed c)
      → (c : Caller)
      → verdict c (interrupted_response answered_by)
        ≡ (if is_blamed t reason given o w then blamed c else retry_restarted)
  unfolding interrupted_response answered_by
  verdict_answered blamed fresh h c = elim (Bool-cases (is_blamed t reason given o w)) [
    | inl yes_blamed ↦ rw yes_blamed (h c)
    | inr innocent ↦ rw (innocent, fresh) (unfold judge in refl)
  ]

  struck-Answers :
      (blamed : Caller → Verdict)
      → IsServing
      → ((c : Caller) → verdict c (failed service_unavailable true (some reason)) ≡ blamed c)
      → Answers blamed
  struck-Answers blamed s h = (
    Among-take_down t reason given o w s.0,
    (interrupted_response answered_by, struck_replies s, verdict_answered blamed s.3 h),
    drained-AllRetry w.task_queue,
  )

judge_memory :
    {reason : Text} (kind input error_repr : Text)
    → MemoryReason reason
    → judge kind input error_repr (failed service_unavailable true (some reason))
      ≡ raise (toxic_task kind reason input)
unfolding judge oom_reason soft_reason killed_reason
judge_memory kind input error_repr (oom worker pid) = rw (MemoryReason-is_timeout (oom worker pid))
judge_memory kind input error_repr (soft worker pid rss limit) =
    rw (MemoryReason-is_timeout (soft worker pid rss limit))
judge_memory kind input error_repr (killed worker pid) =
    rw (MemoryReason-is_timeout (killed worker pid))

module _ (given : List ℕ) (o : Owner) (w : Worker) (task : Task) (q : ℕ) where
  -- A restart on a memory trigger, for a worker of the pool with an unmarked task in hand, with any of
  -- the reasons that the monitor gives: if the worker is named by the trigger, the caller of the
  -- task meets `ToxicTaskError` with its own task type and text and with that reason; if it is not
  -- named, the caller tries again. So does the caller of every task that waits in the queue.
  pub memory_callers :
      (reason : Text)
      → MemoryReason reason
      → IsServing Trigger.memory reason given o w task q
      → Answers Trigger.memory reason given o w task q
          (λ (kind, input, error_repr). raise (toxic_task kind reason input))
  memory_callers reason m s =
      struck-Answers Trigger.memory reason given o w task q
        (λ (kind, input, error_repr). raise (toxic_task kind reason input)) s
        (λ (kind, input, error_repr). judge_memory kind input error_repr m)
