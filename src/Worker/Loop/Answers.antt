-- ===== src/Worker/Loop/Answers.antt =====
-- pyleaner/worker.py: who is answered by the worker's loop.
use py_leaner.Base.{
  ℕ, ◌≡◌, refl, sym, ap, subst, ◌∙◌, true, false, none, some, List, [], ◌∷◌, ◌++◌, arith, inl, inr,
  Bool-cases, Option-cases, All,
}
use mathlib.Core.List.{append-nil, append_assoc}
use py_leaner.Task.{Task, Response}
use py_leaner.Pool.{Worker, reply}
use py_leaner.Watchdog.Recovery.{mark}
use py_leaner.Worker.Loop.{
  TaskEnd, finished, interrupted, errored, Run, drained, on_service_unavailable, settle,
  settle_result, settle_unasked, uncounted, Arrival, routed, blamed, notified, in_hand,
  interrupted_response, run_worker, disturb, Round, serve, begin_round, round_of, run_worker,
}

-- The result queues of the tasks that have one.
abbrev pub asked : List Task → List ℕ
asked [] = []
asked (t ∷ ts) = elim t.result_q [ none ↦ asked ts | some q ↦ q ∷ asked ts ]

abbrev pub answered : List (ℕ × Response) → List ℕ
answered [] = []
answered ((q, r) ∷ rs) = q ∷ answered rs

abbrev pub arrivals : List Arrival → List Task
arrivals [] = []
arrivals (routed t ∷ as') = t ∷ arrivals as'
arrivals (_ ∷ as') = arrivals as'

asked-append : (ts us : List Task) → asked (ts ++ us) ≡ asked ts ++ asked us
asked-append [] us = refl
asked-append (t ∷ ts) us = ground (arith, asked-append ts us)

answered-append : (rs ss : List (ℕ × Response)) → answered (rs ++ ss) ≡ answered rs ++ answered ss
answered-append [] ss = refl
answered-append ((q, r) ∷ rs) ss = ap (◌∷◌ q) (answered-append rs ss)

answered-drained : (ts : List Task) → answered (drained ts) ≡ asked ts
unfolding drained reply
answered-drained [] = refl
answered-drained (t ∷ ts) = ground (arith, answered-drained ts)

asked-one : (t : Task) (us : List Task) → asked (t ∷ []) ++ asked us ≡ asked (t ∷ us)
asked-one t us = ground arith

asked-step :
    (ts us : List Task) (t : Task) → asked (ts ++ t ∷ []) ++ asked us ≡ asked ts ++ asked (t ∷ us)
asked-step ts us t =
    ap (λ x. x ++ asked us) (asked-append ts (t ∷ []))
    ∙ append_assoc (asked ts) (asked (t ∷ [])) (asked us)
    ∙ ap (◌++◌ (asked ts)) (asked-one t us)

-- Meanwhile the queue grows by what is routed.
disturb-queue :
    (as' : List Arrival) (w : Worker)
    → asked (disturb as' w).task_queue ≡ asked w.task_queue ++ asked (arrivals as')
unfolding disturb
disturb-queue [] w = sym (append-nil (asked w.task_queue))
disturb-queue (routed t ∷ as') w = disturb-queue as' _ ∙ asked-step w.task_queue (arrivals as') t
disturb-queue (blamed r ∷ as') w = disturb-queue as' _
disturb-queue (notified m ∷ as') w = disturb-queue as' _

-- The task in hand stays, with its result queue.
disturb-current :
    (as' : List Arrival) (t : Task) (w : Worker)
    → w.current_task ≡ some t
    → (t' : Task) × ((disturb as' w).current_task ≡ some t') × (t'.result_q ≡ t.result_q)
unfolding disturb
disturb-current [] t w e = (t, e, refl)
disturb-current (routed u ∷ as') t w e = disturb-current as' t _ e
disturb-current (blamed r ∷ as') t w e = disturb-current as' (mark r t) _ (rw e)
disturb-current (notified m ∷ as') t w e = disturb-current as' t _ e

interrupted_answers :
    (t : Task) (w : Worker)
    → w.current_task ≡ some t
    → answered (on_service_unavailable w).1 ≡ asked (t ∷ w.task_queue)
unfolding on_service_unavailable reply
interrupted_answers t w e = ground (
  arith,
  answered-append (reply t (interrupted_response t) []) (drained w.task_queue),
  answered-drained w.task_queue,
)

-- A result whose diagnostics can be counted: it is no dict with `null`, a truth value or a number under
-- that key.
abbrev pub IsCounted : TaskEnd → Type 0
IsCounted (finished content) = uncounted content ≡ none
IsCounted _ = Unit

-- A task that has come to its end has been answered on its queue, and where the thread ends, so have
-- all that wait behind it.
settle_answers :
    (end : TaskEnd) (t : Task) (w : Worker)
    → IsCounted end
    → w.current_task ≡ some t
    → answered (settle end t w).replies ++ asked (settle end t w).worker.task_queue
      ≡ asked (t ∷ w.task_queue)
unfolding settle settle_result settle_unasked reply on_service_unavailable
settle_answers (finished c) t w n e = elim (Option-cases t.result_q) [
  | inl q ↦ rw q refl
  | inr (q, r) ↦ rw (r, n) refl
]
settle_answers (errored x) t w n e = ground arith
settle_answers interrupted t w n e = append-nil _ ∙ interrupted_answers t w e

asked-cong :
    (t u : Task) (ts us : List Task)
    → t.result_q ≡ u.result_q
    → asked ts ≡ asked us
    → asked (t ∷ ts) ≡ asked (u ∷ us)
asked-cong t u ts us e h = ground arith

serve_answers :
    (round : Round) (task : Task) (w : Worker)
    → IsCounted round.end
    → answered (serve round task w).replies ++ asked (serve round task w).worker.task_queue
      ≡ asked (task ∷ w.task_queue ++ arrivals round.meanwhile)
serve_answers round task w n =
    let busy = disturb round.meanwhile (record w { current_task = some task }) in
    let (t, e, same) =
      disturb-current round.meanwhile task (record w { current_task = some task }) refl in
    let queued = disturb-queue round.meanwhile (record w { current_task = some task }) in
    let hand : in_hand task busy ≡ t = rw e in
    unfold serve in
    (subst
      (λ u.
        answered (settle round.end u busy).replies
          ++ asked (settle round.end u busy).worker.task_queue
        ≡ asked (task ∷ w.task_queue ++ arrivals round.meanwhile))
      (sym hand)
      (settle_answers round.end t busy n e
        ∙ asked-cong t task busy.task_queue (w.task_queue ++ arrivals round.meanwhile) same
            (queued ∙ sym (asked-append w.task_queue (arrivals round.meanwhile)))))

begin_round_answers :
    (ts : List Task) (round : Round) (w : Worker)
    → IsCounted round.end
    → w.task_queue ≡ ts
    → answered (begin_round ts round w).replies ++ asked (begin_round ts round w).worker.task_queue
      ≡ asked (ts ++ arrivals round.meanwhile)
unfolding begin_round
begin_round_answers [] round w n e =
    disturb-queue round.meanwhile w ∙ ap (λ x. asked x ++ asked (arrivals round.meanwhile)) e
begin_round_answers (t ∷ ts) round w n e = serve_answers round t (record w { task_queue = ts }) n

-- What is answered, and then what still waits.
abbrev pub accounted : Run → List ℕ
accounted r = answered r.replies ++ asked r.worker.task_queue

module _ (round : Round) (rounds : List Round) (w : Worker) where
  run_on :
      (round_of round w).running ≡ true
      → accounted (run_worker (round ∷ rounds) w)
        ≡ answered (round_of round w).replies
          ++ accounted (run_worker rounds (round_of round w).worker)
  unfolding run_worker
  run_on e =
      rw (e, run_worker)
        (ap (λ x. x ++ asked (run_worker rounds (round_of round w).worker).worker.task_queue)
            (answered-append (round_of round w).replies
              (run_worker rounds (round_of round w).worker).replies)
          ∙ append_assoc (answered (round_of round w).replies)
              (answered (run_worker rounds (round_of round w).worker).replies)
              (asked (run_worker rounds (round_of round w).worker).worker.task_queue))

  run_off :
      (round_of round w).running ≡ false
      → accounted (run_worker (round ∷ rounds) w) ≡ accounted (round_of round w)
  unfolding run_worker
  run_off e = rw (e, run_worker)

  -- A first round that goes on, and the rest of the account.
  account_on :
      (more : List Task)
      → IsCounted round.end
      → (round_of round w).running ≡ true
      → accounted (run_worker rounds (round_of round w).worker)
        ≡ asked ((round_of round w).worker.task_queue ++ more)
      → accounted (run_worker (round ∷ rounds) w)
        ≡ asked (w.task_queue ++ arrivals round.meanwhile ++ more)
  account_on more n e ih =
      let first = round_of round w in
      run_on e
      ∙ ap (◌++◌ (answered first.replies)) (ih ∙ asked-append first.worker.task_queue more)
      ∙ sym (append_assoc (answered first.replies) (asked first.worker.task_queue) (asked more))
      ∙ ap (λ x. x ++ asked more) (begin_round_answers w.task_queue round w n refl)
      ∙ sym (asked-append (w.task_queue ++ arrivals round.meanwhile) more)

-- The tasks that arrive during the rounds.
abbrev pub all_arrivals : List Round → List Task
all_arrivals [] = []
all_arrivals (round ∷ rounds) = arrivals round.meanwhile ++ all_arrivals rounds

-- Only the last round may be one that ends the thread.
abbrev pub RunsOn : List Round → Worker → Type 0
RunsOn [] w = Unit
RunsOn (round ∷ []) w = Unit
RunsOn (round ∷ rounds) w =
    ((round_of round w).running ≡ true) × RunsOn rounds (round_of round w).worker

regroup : (ts us vs : List Task) → asked ((ts ++ us) ++ vs) ≡ asked (ts ++ (us ++ vs))
regroup ts us vs = ap asked (append_assoc ts us vs)

last_round :
    (round : Round) (w : Worker)
    → IsCounted round.end
    → accounted (run_worker (round ∷ []) w)
      ≡ asked ((w.task_queue ++ arrivals round.meanwhile) ++ [])
last_round round w n = elim (Bool-cases (round_of round w).running) [
  | inl e ↦
      account_on round [] w [] n e
        (unfold run_worker in ap asked (sym (append-nil (round_of round w).worker.task_queue)))
  | inr e ↦
      run_off round [] w e
      ∙ begin_round_answers w.task_queue round w n refl
      ∙ ap asked (sym (append-nil (w.task_queue ++ arrivals round.meanwhile)))
]

-- Over any rounds of a worker of which only the last may end its thread, whatever is routed to the
-- worker, blamed or notified meanwhile, and whatever the handlers do but give a dict whose diagnostics
-- are `null`, a truth value or a number: the result queues of the tasks that waited at first and then
-- arrived, in that order, are those that were answered, one response each and in that order, followed
-- by those of the tasks that still wait. No task is lost, and none is answered twice.
pub run_worker_answers :
    (rounds : List Round) (w : Worker)
    → RunsOn rounds w
    → All (λ round. IsCounted round.end) rounds
    → answered (run_worker rounds w).replies ++ asked (run_worker rounds w).worker.task_queue
      ≡ asked (w.task_queue ++ all_arrivals rounds)
run_worker_answers [] w h n = unfold run_worker in ap asked (sym (append-nil w.task_queue))
run_worker_answers (round ∷ []) w h n =
    last_round round w n.0 ∙ regroup w.task_queue (arrivals round.meanwhile) []
run_worker_answers (round ∷ next ∷ rounds) w h n =
    account_on round (next ∷ rounds) w (all_arrivals (next ∷ rounds)) n.0 h.0
      (run_worker_answers (next ∷ rounds) (round_of round w).worker h.1 n.1)
    ∙ regroup w.task_queue (arrivals round.meanwhile) (all_arrivals (next ∷ rounds))
