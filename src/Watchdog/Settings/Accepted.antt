-- ===== src/Watchdog/Settings/Accepted.antt =====
-- pyleaner/watchdog.py: the settings that are accepted are the meaningful ones.
use py_leaner.Base.{
  ℕ, zero, suc, ◌<◌, true, Option, none, some, ◌≡◌, ◌↔◌, ◌⊎◌, inl, inr, refl, ◌∙◌, arith,
  Bool-cases,
}
use py_leaner.Rpc.Errors.{ℤ, pos, negsuc}
use py_leaner.Watchdog.Settings.{Settings, is_positive, check_limits, check_settings}

-- No limits, or two with 0 < high < max
abbrev pub HasLimits : Option ℤ → Option ℤ → Type 0
HasLimits high max =
    ((high ≡ none) × (max ≡ none))
    ⊎ ((h : ℕ) × (m : ℕ) × (high ≡ some (pos h)) × (max ≡ some (pos m)) × (0 < h) × (h < m))

abbrev pub IsMeaningful : Settings → Type 0
IsMeaningful s =
    ((n : ℕ) × (s.memory_poll_interval ≡ pos n) × (0 < n))
    × HasLimits s.worker_memory_high_bytes s.worker_memory_max_bytes

is_positive-pos : (z : ℤ) → is_positive z ≡ true → (n : ℕ) × (z ≡ pos n) × (0 < n)
is_positive-pos (pos zero) h = cc
is_positive-pos (pos (suc n)) h = (suc n, refl, omega arith)
is_positive-pos (negsuc n) h = cc

limits_of :
    (high max : ℤ) → check_limits (some high) (some max) ≡ none → HasLimits (some high) (some max)
unfolding check_limits
limits_of (pos zero) max h = cc
limits_of (negsuc a) max h = cc
limits_of (pos (suc a)) (negsuc b) h = cc
limits_of (pos (suc a)) (pos b) h = inr (suc a, b, refl, refl, omega arith, ground (arith, h))

check_limits-HasLimits : (high max : Option ℤ) → check_limits high max ≡ none → HasLimits high max
unfolding check_limits
check_limits-HasLimits none none h = inl (refl, refl)
check_limits-HasLimits (some high) none h = cc
check_limits-HasLimits none (some max) h = cc
check_limits-HasLimits (some high) (some max) h = limits_of high max h

accepted_limits : (high max : Option ℤ) → HasLimits high max → check_limits high max ≡ none
unfolding check_limits
accepted_limits high max (inl (e, f)) = rw (e, f, check_limits) refl
accepted_limits high max (inr (zero, m, e, f, g, h)) = absurd (omega arith)
accepted_limits high max (inr (suc k, m, e, f, g, h)) = rw (e, f, check_limits) (ground arith)

positive_interval :
    (s : Settings) (n : ℕ)
    → s.memory_poll_interval ≡ pos n
    → 0 < n
    → check_settings s ≡ check_limits s.worker_memory_high_bytes s.worker_memory_max_bytes
unfolding check_settings
positive_interval s zero e g = absurd (omega arith)
positive_interval s (suc k) e g = rw (e, check_settings) refl

-- The constructor accepts exactly the settings with a positive polling interval and either no limit on
-- the memory or a positive high limit below the maximum.
pub check_settings_iff : (s : Settings) → (check_settings s ≡ none) ↔ IsMeaningful s
unfolding check_settings
check_settings_iff s = (
  accepts,
  λ ((n, e, g), l).
      positive_interval s n e g
      ∙ accepted_limits s.worker_memory_high_bytes s.worker_memory_max_bytes l,
)
  where
    accepts : check_settings s ≡ none → IsMeaningful s
    accepts h = elim (Bool-cases (is_positive s.memory_poll_interval)) [
      | inl e ↦ (
        is_positive-pos s.memory_poll_interval e,
        check_limits-HasLimits s.worker_memory_high_bytes s.worker_memory_max_bytes
            (rw (e, check_settings) at h),
      )
      | inr e ↦ absurd (cc (rw (e, check_settings) at h))
    ]
