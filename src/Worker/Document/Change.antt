-- ===== src/Worker/Document/Change.antt =====
-- pyleaner/worker.py: every way in which `_didchange` can end.
use py_leaner.Base.{
  ℕ, suc, ◌+◌, ◌≤◌, ◌≡◌, ◌⊎◌, Bool, true, false, Option, some, List, [], ◌∷◌, ◌++◌, if◌then◌else◌,
}
use py_leaner.Base.Text.{Text}
use py_leaner.Base.Json.{Json}
use py_leaner.Task.{Error, service_unavailable, Message}
use py_leaner.Worker.Document.{
  Document, Wait, out_of_time, received, is_finished, is_published, is_poison, diagnostics_of,
  valid_of, Seen, Changed, returned, raised, waiting, cancel, timeout_error,
}

-- How many messages end the processing of the version.
abbrev finished_in : ℕ → List Message → ℕ
finished_in version [] = 0
finished_in version (m ∷ ms) =
    if is_finished version m then suc (finished_in version ms) else finished_in version ms

-- The diagnostics last published for the version, or the given ones where none are.
abbrev last_published : ℕ → List Message → Option Json → Option Json
last_published version [] known = known
last_published version (m ∷ ms) known =
    last_published version ms (if is_published version m then diagnostics_of m else known)

abbrev heard : List Wait → List Message
heard [] = []
heard (out_of_time ∷ waits) = heard waits
heard (received m quiet ∷ waits) = m ∷ heard waits

-- The change is complete: its version was processed twice, its diagnostics are known, and nothing more
-- is in the queue.
abbrev pub IsComplete : ℕ → Option Json → Bool → Type 0
IsComplete n known quiet = (quiet ≡ true) × (2 ≤ n) × ((found : Json) × (known ≡ some found))

-- Each wait brings a message other than the watchdog's, after which the change is not complete, where
-- `n` messages have ended the processing before and `known` are the diagnostics so far.
abbrev pub Passes : ℕ → ℕ → Option Json → List Wait → Type 0
Passes version n known [] = Unit
Passes version n known (out_of_time ∷ waits) = ⊥
Passes version n known (received m quiet ∷ waits) =
    let n' = if is_finished version m then n + 1 else n in
    let known' = if is_published version m then diagnostics_of m else known in
    (is_poison m ≡ false) × ¬ IsComplete n' known' quiet × Passes version n' known' waits

-- The waits go on to one that brings this message, and no other ends them before.
abbrev Until : ℕ → Seen → List Wait → Wait → List Wait → Type 0
Until version s pre last waits =
    (post : List Wait) × Passes version s.counter s.diagnostics pre × (waits ≡ pre ++ last ∷ post)

-- The ways in which the loop ends, and what it takes for each of them.
abbrev pub Ends :
    Text → Option Error → Json → ℕ → List Wait → Seen → Document → Document × Changed → Type 0
Ends t failure range version waits s d o =
    ((pre : List Wait) × (m : Message) × (found : Json) × Until version s pre (received m true)
        waits
      × (is_poison m ≡ false)
      × (2 ≤ s.counter + finished_in version (heard pre ++ m ∷ []))
      × (last_published version (heard pre ++ m ∷ []) s.diagnostics ≡ some found)
      × (o ≡ (d, returned (valid_of found))))
    ⊎ ((pre : List Wait) × (m : Message) × (quiet : Bool) × Until version s pre (received m quiet)
          waits
        × (is_poison m ≡ true)
        × (o ≡ (d, raised service_unavailable)))
    ⊎ ((pre : List Wait) × Until version s pre out_of_time waits
        × (o ≡ (cancel failure range d, raised (timeout_error t))))
    ⊎ (Passes version s.counter s.diagnostics waits × (o ≡ (d, waiting)))
