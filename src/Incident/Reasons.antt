-- ===== src/Incident/Reasons.antt =====
-- Which of the monitor's reasons pyleaner/client.py takes for a timeout.
use py_leaner.Base.{
  ℕ, zero, suc, ◌+◌, ◌/◌, ◌%◌, ◌≤◌, ◌≡◌, refl, ap, ◌∙◌, Bool, true, false, ◌||◌, [], ◌∷◌, ◌++◌,
  arith, All, ltb, Bool-cases, inl, inr,
}
use mathlib.Core.List.{append_assoc}
use py_leaner.Base.Text.{Text, codes, lower, contains, decimal, decimal_digits}
use py_leaner.Watchdog.Monitor.{Limits}
use py_leaner.Watchdog.Monitor.Loop.{deadline_reason}
use py_leaner.Watchdog.Monitor.Inspect.{oom_reason, soft_reason, killed_reason, worker_text}
use py_leaner.Client.Resilient.{is_timeout_reason}

or_true : (b : Bool) → (b || true) ≡ true
or_true true = refl
or_true false = refl

-- The deadline trigger's reason is one.
pub deadline_reason-is_timeout : (l : Limits) → is_timeout_reason (deadline_reason l) ≡ true
unfolding is_timeout_reason deadline_reason
deadline_reason-is_timeout l = or_true (contains (codes "deadline") (lower (deadline_reason l)))

abbrev IsDigit : ℕ → Type 0
IsDigit c = (b'0' ≤ c) × (c ≤ b'9')

decimal_digits-IsDigit :
    (fuel n : ℕ) (acc : Text) → All IsDigit acc → All IsDigit (decimal_digits fuel n acc)
unfolding decimal_digits
decimal_digits-IsDigit zero n acc h = h
decimal_digits-IsDigit (suc fuel) n acc h = elim (Bool-cases (ltb n 10)) [
  | inl e ↦ rw e (ground arith, h)
  | inr e ↦ rw e (decimal_digits-IsDigit fuel (n / 10) ((b'0' + n % 10) ∷ acc) (omega arith, h))
]

decimal-IsDigit : (n : ℕ) → All IsDigit (decimal n)
unfolding decimal
decimal-IsDigit n = decimal_digits-IsDigit (suc n) n [] tt

-- The word is not found across digits.
contains-digits :
    (ds s : Text)
    → All IsDigit ds
    → contains (codes "deadline") (lower (ds ++ s)) ≡ contains (codes "deadline") (lower s)
contains-digits [] s h = refl
contains-digits (d ∷ ds) s h = ground (arith, contains-digits ds s h.1)

contains-worker_text :
    (worker pid : ℕ) (s : Text)
    → contains (codes "deadline") (lower (worker_text worker pid ++ s))
      ≡ contains (codes "deadline") (lower s)
unfolding worker_text
contains-worker_text worker pid s =
    ap (λ x. contains (codes "deadline") (lower x))
      (append_assoc (decimal worker) (codes ", pid=" ++ decimal pid) s)
    ∙ contains-digits (decimal worker) ((codes ", pid=" ++ decimal pid) ++ s)
        (decimal-IsDigit worker)
    ∙ contains-digits (decimal pid) s (decimal-IsDigit pid)

-- The reasons of the memory triggers.
pub data MemoryReason : Text → Type 0 where
  oom : (worker pid : ℕ) → MemoryReason (oom_reason worker pid)
  soft : (worker pid rss limit : ℕ) → MemoryReason (soft_reason worker pid rss limit)
  killed : (worker pid : ℕ) → MemoryReason (killed_reason worker pid)

-- None of them is.
pub MemoryReason-is_timeout :
    {reason : Text} → MemoryReason reason → is_timeout_reason reason ≡ false
MemoryReason-is_timeout (oom worker pid) =
    unfold is_timeout_reason oom_reason in
    ap (λ b. b || false) (contains-worker_text worker pid (codes ")"))
MemoryReason-is_timeout (killed worker pid) =
    unfold is_timeout_reason killed_reason in
    ap (λ b. b || false) (contains-worker_text worker pid (codes ")"))
MemoryReason-is_timeout (soft worker pid rss limit) =
    unfold is_timeout_reason soft_reason in
    ap (λ b. b || false)
      (contains-worker_text worker pid _
        ∙ contains-digits (decimal rss) (codes ", limit=" ++ (decimal limit ++ codes ")"))
            (decimal-IsDigit rss)
        ∙ contains-digits (decimal limit) (codes ")") (decimal-IsDigit limit))
