-- ===== src/Tests/Guards.antt =====
-- Runs of the making of scopes for a pool of two workers.
use py_leaner.Base.{
  ℕ, Bool, true, false, ◌≡◌, ◌≢◌, arith, refl, map, All, none, some, List, [], ◌∷◌, ◌++◌,
  if◌then◌else◌, ◌==◌,
}
use py_leaner.Base.Text.{codes}
use py_leaner.Base.Dict.{Dict, lookup}
use py_leaner.Watchdog.Types.{Trigger, trigger, Guard}
use py_leaner.Watchdog.Receiver.{Turn, quiet, received, receive_events}
use py_leaner.Watchdog.Receiver.Stale.{receive_events-stale}
use py_leaner.Watchdog.Recovery.{
  Owner, stop_worker_scopes, units_of, Rebuild, receive, recover_with_retry, recover_from, restart,
  rebuild, take_down, teardown_pool_state, start_watching, set_root_process, assign_pool, attach,
  announce,
}
use py_leaner.Watchdog.Guards.{
  raises, cut_short, returns, Adoption, attach_worker_guards, attach_found, attached, not_guarded,
  ids_from, poll_workers, missing_in, pairs_of, create_all, create, adopt, add_guard, abandon,
  created_units, systemd_scope_for_pid, started_scope, shown_scope, finish_with,
}
use py_leaner.Rpc.Errors.{pos}
use py_leaner.Watchdog.Settings.{Settings, high_not_below_max, check_settings, check_limits}
use py_leaner.Watchdog.Guards.Tracked.{IsTimely}
use py_leaner.Watchdog.Guards.Clean.{IsClean, attach_worker_guards-IsClean}
use py_leaner.Watchdog.Guards.Below.{
  Snapshot, poll_of, RunsBelow, IsSearched, attach_worker_guards-RunsBelow,
}
use py_leaner.Observability.Imports.{after_front}
use py_leaner.Watchdog.Processes.{collect_descendants, search, visit, take_up}
use py_leaner.Watchdog.Processes.Found.{Lists}
use py_leaner.Watchdog.Workers.{
  lean_worker_pids, note_workers, note_worker, number_of, worker_number, number_at, number_then,
}

abbrev owner : Owner
owner = record {
  generation = 1;
  server_ready = true;
  restart_lock = false;
  armed = true;
  worker_scopes = [];
  workers = none;
  keep_alive_running = true;
  pending = [];
  woken = [];
  sent = [];
  stopped = [];
  log = [];
}

-- The second worker's scope can or cannot be started.
abbrev adoption : Bool → ℕ → Adoption
adoption works w = record {
  unit = codes "w" ++ w ∷ [];
  busctl = returns (if w == 2 then works else true) [];
  show = returns true (codes "/user.slice");
  oom_kill = none;
}

abbrev polls : List (Dict ℕ)
polls = ((1, 51) ∷ []) ∷ ((1, 51) ∷ (2, 52) ∷ []) ∷ []

adoption-IsTimely : (works : Bool) (w : ℕ) → IsTimely (adoption works w)
adoption-IsTimely works w = (by_work works, λ e. cc, λ e. cc)
  where
    by_work : (works : Bool) → (adoption works w).busctl ≢ cut_short
    by_work true = λ e. cc
    by_work false = λ e. cc

attach_worker_guards-IsClean_example :
    IsClean (attach_worker_guards true true 2 polls (adoption false) owner)
attach_worker_guards-IsClean_example =
    attach_worker_guards-IsClean true true 2 polls (adoption false) owner (adoption-IsTimely false)

-- The first scope is stopped when the second cannot be made.
second_fails :
    (attach_worker_guards true true 2 polls (adoption false) owner).owner.stopped
    ≡ (codes "w" ++ 1 ∷ []) ∷ []
unfolding attach_worker_guards attach_found ids_from poll_workers missing_in pairs_of create_all
    create adopt add_guard abandon created_units systemd_scope_for_pid started_scope shown_scope
    finish_with stop_worker_scopes units_of
second_fails = refl

both_made : (attach_worker_guards true true 2 polls (adoption true) owner).end ≡ attached
unfolding attach_worker_guards attach_found ids_from poll_workers missing_in pairs_of create_all
    create adopt add_guard abandon created_units systemd_scope_for_pid started_scope shown_scope
    finish_with stop_worker_scopes units_of
both_made = refl

-- Two workers below the server 1; the first snapshot is too early for the second.
abbrev snapshot : Bool → Snapshot
snapshot late = record {
  children = λ p. if p == 1 then some 51 ∷ (if late then some 52 ∷ [] else []) else [];
  cmdline = λ p. some (
      if p == 51
      then codes "lean --worker file:///w/worker_1.lean"
      else codes "lean --worker file:///w/worker_2.lean");
}

abbrev snapshots : List Snapshot
snapshots = snapshot false ∷ snapshot true ∷ []

snapshot-Lists : (late : Bool) → Lists (snapshot late).children 1 (51 ∷ 52 ∷ [])
snapshot-Lists false p c h = ground arith
snapshot-Lists true p c h = ground arith

snapshots-IsSearched : All (IsSearched 1 3) snapshots
snapshots-IsSearched = (
  (51 ∷ 52 ∷ [], snapshot-Lists false, omega arith),
  ((51 ∷ 52 ∷ [], snapshot-Lists true, omega arith), tt),
)

found_both :
    (attach_worker_guards true true 2 (map (poll_of 1 3) snapshots) (adoption true) owner).end
    ≡ attached
unfolding attach_worker_guards attach_found ids_from poll_workers missing_in pairs_of create_all
    create adopt add_guard abandon created_units systemd_scope_for_pid started_scope shown_scope
    finish_with stop_worker_scopes units_of collect_descendants search visit take_up
    lean_worker_pids note_workers note_worker number_of worker_number number_at number_then
    after_front
found_both = refl

attach_worker_guards-RunsBelow_example :
    (g : Guard) × (lookup 2
        (attach_worker_guards true true 2
          (map (poll_of 1 3) snapshots)
          (adoption true)
          owner).owner.worker_scopes
      ≡ some g)
    × RunsBelow 1 snapshots 2 g
attach_worker_guards-RunsBelow_example =
    attach_worker_guards-RunsBelow 1 3 snapshots true true 2 (adoption true) owner
      snapshots-IsSearched found_both 2 (omega arith) (omega arith)

-- Where `busctl` is cut short after systemd has started the scope, the scope is not stopped.
abbrev unanswered : ℕ → Adoption
unanswered w = record {
  unit = codes "w" ++ w ∷ [];
  busctl = cut_short;
  show = raises;
  oom_kill = none;
}

scope_unanswered :
    ((attach_worker_guards true true 2 polls unanswered owner).started ≡ (codes "w" ++ 1 ∷ []) ∷ [])
    × ((attach_worker_guards true true 2 polls unanswered owner).owner.stopped ≡ [])
unfolding attach_worker_guards attach_found ids_from poll_workers missing_in pairs_of create_all
    create adopt add_guard abandon created_units systemd_scope_for_pid started_scope shown_scope
    finish_with stop_worker_scopes units_of
scope_unanswered = (refl, refl)

-- Where `systemctl show` raises, the scope that has been started is not stopped.
abbrev unseen : ℕ → Adoption
unseen w = record {
  unit = codes "w" ++ w ∷ [];
  busctl = returns true [];
  show = raises;
  oom_kill = none;
}

scope_left :
    ((attach_worker_guards true true 2 polls unseen owner).started ≡ (codes "w" ++ 1 ∷ []) ∷ [])
    × ((attach_worker_guards true true 2 polls unseen owner).owner.stopped ≡ [])
    × ((attach_worker_guards true true 2 polls unseen owner).end ≡ not_guarded)
unfolding attach_worker_guards attach_found ids_from poll_workers missing_in pairs_of create_all
    create adopt add_guard abandon created_units systemd_scope_for_pid started_scope shown_scope
    finish_with stop_worker_scopes units_of
scope_left = (refl, refl, refl)

abbrev settings : Settings
settings = record {
  memory_poll_interval = pos 1000;
  worker_memory_high_bytes = some (pos 100);
  worker_memory_max_bytes = some (pos 100);
}

equal_limits : check_settings settings ≡ some high_not_below_max
unfolding check_settings check_limits
equal_limits = refl

abbrev rebuilt : Rebuild
rebuilt = record {
  connect_error = none;
  pool_error = none;
  root_pid = some 60;
  pool_assigned = true;
  new_workers = [];
  new_guards = none;
}

abbrev death : ℕ → Turn
death g =
    received (trigger g Trigger.death (codes "Lean server process exited") [])
      ((false, rebuilt) ∷ [])

-- The second event of the same generation comes too late.
receive_events-stale_example :
    receive_events (quiet ∷ death 0 ∷ death 1 ∷ []) owner
    ≡ receive_events (quiet ∷ death 1 ∷ []) owner
receive_events-stale_example =
    receive_events-stale (quiet ∷ []) (death 1 ∷ []) ((false, rebuilt) ∷ []) 0 Trigger.death
      (codes "Lean server process exited") [] owner (omega arith)

death_twice : (receive_events (death 1 ∷ death 1 ∷ []) owner).0.generation ≡ 2
unfolding receive_events receive recover_with_retry recover_from restart rebuild take_down
    stop_worker_scopes teardown_pool_state start_watching set_root_process assign_pool attach
    announce
death_twice = refl
