-- ===== src/Watchdog/Receiver/Stale.antt =====
-- pyleaner/watchdog.py: an event of an earlier generation changes nothing, whenever it comes.
use py_leaner.Base.{
  ℕ, ◌+◌, ◌≤◌, ◌<◌, ◌≡◌, refl, ap, Bool, Option, none, some, List, [], ◌∷◌, ◌++◌, arith,
}
use py_leaner.Base.Text.{Text}
use py_leaner.Watchdog.Types.{Trigger, Guard, Event, trigger, guard_replaced, watchdog_death}
use py_leaner.Watchdog.Recovery.{
  Owner, Rebuild, take_down, stop_worker_scopes, teardown_pool_state, start_watching,
  set_root_process, assign_pool, attach, announce, rebuild, restart, recover_from,
  recover_with_retry, accept_replacement_guard, stop_if_any, receive,
}
use py_leaner.Watchdog.Receiver.{Turn, ends, quiet, monitor_died, unknown, received, receive_events}

take_down-generation :
    (t : Trigger) (reason : Text) (given : List ℕ) (o : Owner)
    → (take_down t reason given o).generation ≡ o.generation
unfolding take_down stop_worker_scopes teardown_pool_state
take_down-generation t reason given o = refl

start_watching-generation :
    (pid : Option ℕ) (o : Owner) → o.generation ≤ (start_watching pid o).generation
unfolding start_watching set_root_process
start_watching-generation none o = omega arith
start_watching-generation (some pid) o = omega arith

attach-generation : (gs : Option _) (o : Owner) → (attach gs o).generation ≡ o.generation
unfolding attach
attach-generation none o = refl
attach-generation (some gs) o = refl

rebuild-generation : (r : Rebuild) (o : Owner) → o.generation ≤ (rebuild r o).0.generation
unfolding rebuild announce assign_pool
rebuild-generation r o =
    let c = start_watching r.root_pid o in
    ground (
      arith,
      start_watching-generation r.root_pid o,
      attach-generation r.new_guards (assign_pool r.new_workers c),
    )

restart-generation :
    (t : Trigger) (reason : Text) (given : List ℕ) (r : Rebuild) (o : Owner)
    → o.generation ≤ (restart t reason given r o).0.generation
unfolding restart
restart-generation t reason given r o = ground (
  arith,
  rebuild-generation r (take_down t reason given o),
  take_down-generation t reason given o,
)

recover_from-generation :
    (t : Trigger) (reason : Text) (given : List ℕ) (n : ℕ) (history : List (Bool × Rebuild))
    (o : Owner)
    → o.generation ≤ (recover_from t reason given n history o).0.generation
unfolding recover_from
recover_from-generation t reason given n [] o = omega arith
recover_from-generation t reason given n ((stopping, r) ∷ history) o =
    let (p, failure) = restart t reason given r o in
    ground (
      arith,
      restart-generation t reason given r o,
      recover_from-generation t reason given (n + 1) history p,
    )

stop_if_any-generation : (u : Text) (o : Owner) → (stop_if_any u o).generation ≡ o.generation
stop_if_any-generation [] o = refl
stop_if_any-generation (c ∷ cs) o = refl

accept-generation :
    (g w old : ℕ) (new : Guard) (o : Owner)
    → (accept_replacement_guard g w old new o).generation ≡ o.generation
unfolding accept_replacement_guard
accept-generation g w old new o = ground (arith, stop_if_any-generation new.unit o)

receive-generation :
    (history : List (Bool × Rebuild)) (e : Event) (o : Owner)
    → o.generation ≤ (receive history e o).generation
unfolding receive recover_with_retry
receive-generation history (guard_replaced g w old new) o =
    omega (arith, accept-generation g w old new o)
receive-generation history (trigger g t reason workers) o =
    ground (arith, recover_from-generation t reason workers 1 history o)

receive_stale :
    (history : List (Bool × Rebuild)) (g : ℕ) (t : Trigger) (reason : Text) (workers : List ℕ)
    (o : Owner)
    → g < o.generation
    → receive history (trigger g t reason workers) o ≡ o
unfolding receive
receive_stale history g t reason workers o h = ground arith

-- A trigger of a generation that is over, of a server that has been replaced since, makes no
-- difference, wherever it stands among what comes out of the event queue: the owner ends up as it
-- would without it, and the thread runs as it would without it.
pub receive_events-stale :
    (turns more : List Turn) (history : List (Bool × Rebuild)) (g : ℕ) (t : Trigger) (reason : Text)
    (workers : List ℕ) (o : Owner)
    → g < o.generation
    → receive_events (turns ++ received (trigger g t reason workers) history ∷ more) o
      ≡ receive_events (turns ++ more) o
unfolding receive_events recover_with_retry
receive_events-stale [] more history g t reason workers o h =
    ap (receive_events more) (receive_stale history g t reason workers o h)
receive_events-stale (ends ∷ turns) more history g t reason workers o h = refl
receive_events-stale (quiet ∷ turns) more history g t reason workers o h =
    receive_events-stale turns more history g t reason workers o h
receive_events-stale (unknown ∷ turns) more history g t reason workers o h =
    receive_events-stale turns more history g t reason workers o h
receive_events-stale (monitor_died why past ∷ turns) more history g t reason workers o h =
    receive_events-stale turns more history g t reason workers
      (recover_from watchdog_death why [] 1 past o).0
      (omega (arith, h, recover_from-generation watchdog_death why [] 1 past o))
receive_events-stale (received e past ∷ turns) more history g t reason workers o h =
    receive_events-stale turns more history g t reason workers (receive past e o)
      (omega (arith, h, receive-generation past e o))
