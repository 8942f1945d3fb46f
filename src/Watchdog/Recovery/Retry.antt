-- ===== src/Watchdog/Recovery/Retry.antt =====
-- pyleaner/watchdog.py: `_recover_with_retry`, its delays and the state that it leaves.
use py_leaner.Base.{
  ℕ, suc, zero, ◌+◌, ◌-◌, ◌^◌, ◌≤◌, min, ◌≡◌, ◌≢◌, ◌⊎◌, refl, sym, subst, map, Bool, true, false,
  none, List, [], ◌∷◌, ◌++◌, arith, length, All, is_some,
}
use native.Mathlib.Nat.{pow-suc}
use py_leaner.Base.Text.{Text}
use py_leaner.Watchdog.Types.{Trigger}
use py_leaner.Watchdog.Recovery.{
  Owner, Rebuild, restart, rebuild, take_down, announce, assign_pool, start_watching,
  set_root_process, stop_worker_scopes, teardown_pool_state, recover_from, recover_with_retry,
  retry_delay,
}

-- Whether the rebuilding raises, for an owner that is armed or not.
abbrev pub Fails : Bool → Rebuild → Type 0
Fails armed r = (is_some r.connect_error ≡ true) ⊎ ((armed ≡ true) × (is_some r.pool_error ≡ true))

abbrev pub Succeeds : Rebuild → Type 0
Succeeds r = (r.connect_error ≡ none) × (r.pool_error ≡ none)

module _ (t : Trigger) (reason : Text) (given : List ℕ) where
  take_down-armed :
      (o : Owner)
      → ((take_down t reason given o).armed ≡ o.armed)
        × ((take_down t reason given o).server_ready ≡ false)
  unfolding take_down stop_worker_scopes teardown_pool_state
  take_down-armed o = (refl, refl)

  -- A failed attempt leaves the server marked as not ready, and the lock free.
  restart-Fails :
      (r : Rebuild) (o : Owner)
      → o.restart_lock ≡ false
      → Fails o.armed r
      → ((restart t reason given r o).1 ≢ none)
        × ((restart t reason given r o).0.server_ready ≡ false)
        × ((restart t reason given r o).0.restart_lock ≡ false)
        × ((restart t reason given r o).0.armed ≡ o.armed)
  unfolding restart rebuild start_watching set_root_process assign_pool
  restart-Fails r o free h = ground (arith, take_down-armed o)

  restart-Succeeds :
      (r : Rebuild) (o : Owner)
      → o.restart_lock ≡ false
      → Succeeds r
      → ((restart t reason given r o).1 ≡ none)
        × ((restart t reason given r o).0.server_ready ≡ true)
        × ((restart t reason given r o).0.restart_lock ≡ false)
  unfolding restart rebuild announce
  restart-Succeeds r o free h = ground (arith, take_down-armed o)

one-le-pow : (k : ℕ) → 1 ≤ 2 ^ k
one-le-pow zero = omega arith
one-le-pow (suc k) = rw (pow-suc 2 k) (omega (arith, one-le-pow k))

-- Between one second and thirty, and double the last up to there.
retry_delay_bounds : (n : ℕ) → (1 ≤ retry_delay (n + 1)) × (retry_delay (n + 1) ≤ 30)
unfolding retry_delay
retry_delay_bounds n = omega (arith, one-le-pow (min (n + 1 - 1) 5))

-- The loop has returned, the server is ready, and one delay was waited for after each failure.
abbrev pub Recovered : ℕ → Owner × List ℕ × Bool → Type 0
Recovered n s =
    (s.2 ≡ true)
    × (s.0.server_ready ≡ true)
    × (s.0.restart_lock ≡ false)
    × (length s.1 ≡ n)
    × All (λ d. (1 ≤ d) × (d ≤ 30)) s.1

module _ (t : Trigger) (reason : Text) (given : List ℕ) (last : Rebuild) where
  recover_from_ends :
      (failures : List Rebuild) (n : ℕ) (o : Owner)
      → o.restart_lock ≡ false
      → All (Fails o.armed) failures
      → Succeeds last
      → Recovered (length failures) (
          recover_from t reason given
            (n + 1)
            (map (λ r. (false, r)) failures ++ (false, last) ∷ [])
            o)
  unfolding recover_from
  recover_from_ends [] n o free h ok =
      ground (arith, restart-Succeeds t reason given last o free ok)
  recover_from_ends (r ∷ failures) n o free h ok =
      let (fails, unready, released, armed) = restart-Fails t reason given r o free h.0 in
      let rest =
        recover_from_ends failures (n + 1) (restart t reason given r o).0 released
          (subst (λ b. All (Fails b) failures) (sym armed) h.1) ok in
      ground (arith, fails, rest, retry_delay_bounds n)

  -- While `_stop` is not set and the restart lock is free at first: if some attempts fail, for
  -- whatever reason, and then one succeeds, `_recover_with_retry` returns after it. The server is
  -- then marked as ready again and the lock is free; one delay was waited for after each failure,
  -- and each of them lies between one second and thirty.
  pub recover_with_retry_ends :
      (failures : List Rebuild) (o : Owner)
      → o.restart_lock ≡ false
      → All (Fails o.armed) failures
      → Succeeds last
      → Recovered (length failures) (
          recover_with_retry t reason given
            (map (λ r. (false, r)) failures ++ (false, last) ∷ [])
            o)
  unfolding recover_with_retry
  recover_with_retry_ends failures o free h ok = recover_from_ends failures 0 o free h ok
