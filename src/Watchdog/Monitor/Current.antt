-- ===== src/Watchdog/Monitor/Current.antt =====
-- pyleaner/watchdog.py: which tasks the monitor watches.
use py_leaner.Base.{
  ℕ, ◌≡◌, refl, sym, ap, ◌∙◌, subst, ◌↔◌, ◌⊎◌, inl, inr, Bool, true, false, Option, none, some,
  List, [], ◌∷◌, ◌++◌, arith, ◌&&◌, ◌==◌, if◌then◌else◌, All,
}
use py_leaner.Base.Dict.{lookup}
use py_leaner.Watchdog.Types.{Command}
use py_leaner.Watchdog.Monitor.{Limits, Monitor, World}
use py_leaner.Watchdog.Monitor.Loop.{monitor_main}
use py_leaner.Watchdog.Monitor.Slots.{
  Slot, step, steps, steps-append, slot, commands_of, RunsOn, monitor_main-slot,
}

-- The command neither begins a new generation or a pause nor, in this generation, starts or ends a
-- task of worker `k`.
abbrev pub Leaves : ℕ → ℕ → Command → Type 0
Leaves k g Command.pause = ⊥
Leaves k g (Command.root pid h) = ⊥
Leaves k g (Command.task_started h w t) = (h == g && k == w) ≡ false
Leaves k g (Command.task_finished h w) = (h == g && k == w) ≡ false
Leaves k g _ = Unit

-- In generation `g`, the worker has started a task at `t`, and nothing since then has ended it.
abbrev pub IsCurrent : ℕ → ℕ → ℕ → List Command → Type 0
IsCurrent k t g cs =
    (pre : List Command) × (post : List Command) × (cs ≡ pre ++ Command.task_started g k t ∷ post)
    × All (Leaves k g) post

step-Leaves : (k : ℕ) (c : Command) (g : ℕ) (o : Option ℕ) → Leaves k g c → step k c (g, o) ≡ (g, o)
step-Leaves k Command.stop g o h = refl
step-Leaves k Command.pause g o h = absurd h
step-Leaves k (Command.root p n) g o h = absurd h
step-Leaves k (Command.guards n gs) g o h = refl
step-Leaves k (Command.task_started n w t) g o h = rw h
step-Leaves k (Command.task_finished n w) g o h = rw h
step-Leaves k (Command.fatal n r) g o h = refl

steps-Leaves :
    (k : ℕ) (cs : List Command) (g : ℕ) (o : Option ℕ)
    → All (Leaves k g) cs
    → steps k cs (g, o) ≡ (g, o)
steps-Leaves k [] g o h = refl
steps-Leaves k (c ∷ cs) g o h =
    ap (steps k cs) (step-Leaves k c g o h.0) ∙ steps-Leaves k cs g o h.1

-- Without a new root process the generation stays.
step_generation : (k g : ℕ) (c : Command) (s : Slot) → Leaves k g c → (step k c s).0 ≡ s.0
step_generation k g Command.stop s h = refl
step_generation k g Command.pause s h = absurd h
step_generation k g (Command.root p n) s h = absurd h
step_generation k g (Command.guards n gs) s h = refl
step_generation k g (Command.task_started n w t) s h = refl
step_generation k g (Command.task_finished n w) s h = refl
step_generation k g (Command.fatal n r) s h = refl

steps_generation :
    (k g : ℕ) (cs : List Command) (s : Slot) → All (Leaves k g) cs → (steps k cs s).0 ≡ s.0
steps_generation k g [] s h = refl
steps_generation k g (c ∷ cs) s h =
    steps_generation k g cs (step k c s) h.1 ∙ step_generation k g c s h.0

matches : (g k : ℕ) → (g == g && k == k) ≡ true
matches g k = ground arith

current_slot :
    (k t g : ℕ) (cs : List Command) (s : Slot)
    → IsCurrent k t g cs
    → (steps k cs s).0 ≡ g
    → (steps k cs s).1 ≡ some t
current_slot k t g cs s (pre, post, e, h) q =
    let split =
      ap (λ ds. steps k ds s) e ∙ steps-append k pre (Command.task_started g k t ∷ post) s in
    let same = steps_generation k g post (step k (Command.task_started g k t) (steps k pre s)) h in
    let now : (steps k pre s).0 ≡ g = sym same ∙ ap (λ r. r.0) (sym split) ∙ q in
    ap (λ r. r.1)
      (split
        ∙ ap (λ n. steps k post (n, if g == n && k == k then some t else (steps k pre s).1)) now
        ∙ ap (λ b. steps k post (g, if b then some t else (steps k pre s).1)) (matches g k)
        ∙ steps-Leaves k post g (some t) h)

later :
    {k t g : ℕ} {cs : List Command} (c : Command) → IsCurrent k t g cs → IsCurrent k t g (c ∷ cs)
later c (pre, post, e, h) = (c ∷ pre, post, ap (λ ds. c ∷ ds) e, h)

both_equal : (h g k w : ℕ) → (h == g && k == w) ≡ true → (h ≡ g) × (k ≡ w)
both_equal h g k w e = ground arith

-- The task at `t` was in the slot `(g, o)` before the commands, which leave it; or it was started by
-- one of them.
abbrev Held : ℕ → ℕ → ℕ → List Command → ℕ → Option ℕ → Type 0
Held k t g' cs g o = IsCurrent k t g' cs ⊎ ((o ≡ some t) × (g ≡ g') × All (Leaves k g') cs)

module _ (k t g' : ℕ) (cs : List Command) (g : ℕ) (o : Option ℕ)
    (rest : (n : ℕ) (x : Option ℕ) → steps k cs (n, x) ≡ (g', some t) → Held k t g' cs n x) where
  untouched :
      (c : Command) → (g ≡ g' → Leaves k g' c) → Held k t g' cs g o → Held k t g' (c ∷ cs) g o
  untouched c leaves (inl w) = inl (later c w)
  untouched c leaves (inr (p, q, a)) = inr (p, q, (leaves q, a))

  cleared : (c : Command) (n : ℕ) → Held k t g' cs n none → IsCurrent k t g' (c ∷ cs)
  cleared c n (inl w) = later c w
  cleared c n (inr (p, q, a)) = absurd (cc p)

  begun :
      (h w t' : ℕ)
      → (h == g && k == w) ≡ true
      → Held k t g' cs g (some t')
      → IsCurrent k t g' (Command.task_started h w t' ∷ cs)
  begun h w t' b (inl v) = later _ v
  begun h w t' b (inr (p, q, a)) =
      let (x, y) = both_equal h g k w b in
      let z : t' ≡ t = cc p in
      (
        [],
        cs,
        ap (λ n. Command.task_started n w t' ∷ cs) (x ∙ q)
            ∙ ap (λ n. Command.task_started g' n t' ∷ cs) (sym y)
            ∙ ap (λ n. Command.task_started g' k n ∷ cs) z,
        a,
      )

  by_match :
      (c : Command) (new : Option ℕ) (b : Bool)
      → (b ≡ false → g ≡ g' → Leaves k g' c)
      → (b ≡ true → Held k t g' cs g new → IsCurrent k t g' (c ∷ cs))
      → steps k cs (g, if b then new else o) ≡ (g', some t)
      → Held k t g' (c ∷ cs) g o
  by_match c new true leaves starts e = inl (starts refl (rest g new e))
  by_match c new false leaves starts e = untouched c (leaves refl) (rest g o e)

  by_command : (c : Command) → steps k (c ∷ cs) (g, o) ≡ (g', some t) → Held k t g' (c ∷ cs) g o
  by_command Command.stop e = untouched Command.stop (λ q. tt) (rest g o e)
  by_command Command.pause e = inl (cleared Command.pause g (rest g none e))
  by_command (Command.root p n) e = inl (cleared (Command.root p n) n (rest n none e))
  by_command (Command.guards n gs) e = untouched (Command.guards n gs) (λ q. tt) (rest g o e)
  by_command (Command.task_started h w t') e =
      by_match (Command.task_started h w t') (some t') (h == g && k == w)
        (λ f q. subst (λ n. (h == n && k == w) ≡ false) q f) (begun h w t') e
  by_command (Command.task_finished h w) e =
      by_match (Command.task_finished h w) none (h == g && k == w)
        (λ f q. subst (λ n. (h == n && k == w) ≡ false) q f)
        (λ b. cleared (Command.task_finished h w) g) e
  by_command (Command.fatal n r) e = untouched (Command.fatal n r) (λ q. tt) (rest g o e)

slot-Held :
    (k t g' : ℕ) (cs : List Command) (g : ℕ) (o : Option ℕ)
    → steps k cs (g, o) ≡ (g', some t)
    → Held k t g' cs g o
slot-Held k t g' [] g o e = inr (ap (λ s. s.1) e, ap (λ s. s.0) e, tt)
slot-Held k t g' (c ∷ cs) g o e = by_command k t g' cs g o (slot-Held k t g' cs) c e

-- Over any rounds in which the owning process lives and does not stop the monitor, a monitor that
-- begins without tasks watches for a worker a task that started at a time exactly if the owner has
-- told it, in its present generation, that the worker started one then, and since then has neither
-- paused it, nor begun a generation, nor told it in this one of another start or of the end of a task
-- of that worker. What is told in another generation counts for nothing.
pub monitor_main-IsCurrent :
    (l : Limits) (rounds : List (List Command × World)) (m : Monitor) (k t : ℕ)
    → RunsOn rounds
    → m.tasks ≡ []
    → (lookup k (monitor_main l rounds m).0.tasks ≡ some t)
      ↔ IsCurrent k t (monitor_main l rounds m).0.generation (commands_of rounds)
monitor_main-IsCurrent l rounds m k t a n =
    let now = (monitor_main l rounds m).0 in
    let e = monitor_main-slot l k rounds m a in
    let idle : lookup k m.tasks ≡ none = ap (lookup k) n in
    (
      λ h.
          elim (slot-Held k t now.generation (commands_of rounds) m.generation (lookup k m.tasks)
            (sym e ∙ ap (λ o. (now.generation, o)) h)) [
              | inl w ↦ w
              | inr (p, q, b) ↦ absurd (cc (p, idle))
            ],
      λ w.
          ap (λ s. s.1) e
          ∙ current_slot k t now.generation (commands_of rounds) (slot k m) w
              (ap (λ s. s.0) (sym e)),
    )
