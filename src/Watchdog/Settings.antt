-- ===== src/Watchdog/Settings.antt =====
-- pyleaner/watchdog.py, lines 560 to 585: which settings `Watchdog.__init__` accepts. Intervals are
-- whole milliseconds; `None` is `none`.
pub mod Accepted
use py_leaner.Base.{
  ℕ, zero, suc, Bool, true, false, not, ◌&&◌, Option, none, some, ltb, if◌then◌else◌, is_some,
}
use py_leaner.Rpc.Errors.{ℤ, pos, negsuc}

pub record Settings : Type 0 where
  pub memory_poll_interval : ℤ
  pub worker_memory_high_bytes : Option ℤ
  pub worker_memory_max_bytes : Option ℤ

-- The messages of the `ValueError`
pub data Rejection : Type 0 where
  interval_not_positive one_limit_only limit_not_positive high_not_below_max : Rejection

abbrev pub is_positive : ℤ → Bool
is_positive (pos zero) = false
is_positive (pos (suc n)) = true
is_positive (negsuc n) = false

-- `a < b`
abbrev pub is_below : ℤ → ℤ → Bool
is_below (pos a) (pos b) = ltb a b
is_below (pos a) (negsuc b) = false
is_below (negsuc a) (pos b) = true
is_below (negsuc a) (negsuc b) = ltb b a

unfoldable pub check_limits : Option ℤ → Option ℤ → Option Rejection
check_limits none none = none
check_limits (some high) none = some one_limit_only
check_limits none (some max) = some one_limit_only
check_limits (some high) (some max) =
    if not (is_positive high)
    then some limit_not_positive
    else if not (is_below high max)
    then some high_not_below_max
    else none

-- `Watchdog.__init__`, up to the attributes that it sets: what it raises, if anything
unfoldable pub check_settings : Settings → Option Rejection
check_settings s =
    if not (is_positive s.memory_poll_interval)
    then some interval_not_positive
    else check_limits s.worker_memory_high_bytes s.worker_memory_max_bytes
