-- ===== src/Watchdog/Processes/Tree.antt =====
-- pyleaner/watchdog.py: what one turn of `_collect_descendants` does to its search.
use py_leaner.Base.{
  ℕ, ◌+◌, ◌≤◌, ◌≡◌, ◌⊎◌, inl, inr, true, false, not, ◌||◌, Option, none, some, List, [], ◌∷◌, arith,
  ◌==◌, keep, mem, mem-append, length, Among,
}
use py_leaner.Watchdog.Processes.{Search, take_up, visit}

-- How many entries of a list have not been seen.
abbrev pub unseen : List ℕ → List ℕ → ℕ
unseen us seen = length (keep (λ u. not (mem u seen)) us)

unseen-cons : (c : ℕ) (us seen : List ℕ) → unseen us (c ∷ seen) ≤ unseen us seen
unseen-cons c [] seen = omega arith
unseen-cons c (u ∷ us) seen = ground (arith, unseen-cons c us seen)

pub unseen-mem :
    (c : ℕ) (us seen : List ℕ)
    → mem c us ≡ true
    → mem c seen ≡ false
    → unseen us (c ∷ seen) + 1 ≤ unseen us seen
unseen-mem c [] seen h n = absurd (cc)
unseen-mem c (u ∷ us) seen h n = ground (arith, unseen-mem c us seen, unseen-cons c us seen)

-- What it keeps: the search only grows, whatever is new is in the frontier, and the root and the
-- descendants are what has been seen.
abbrev pub Grows : Search → Search → Type 0
Grows s s' =
    ((k : ℕ) → mem k s.seen ≡ true → mem k s'.seen ≡ true)
    × ((k : ℕ) → mem k s.frontier ≡ true → mem k s'.frontier ≡ true)
    × ((k : ℕ) → mem k s'.seen ≡ true → (mem k s.seen ≡ true) ⊎ (mem k s'.frontier ≡ true))

take_up-Grows : (c : ℕ) (s : Search) → Grows s (take_up c s)
unfolding take_up
take_up-Grows c s = (λ k h. ground arith, λ k h. ground arith, λ k h. ground arith)

pub visit-Grows : (lines : List (Option ℕ)) (s : Search) → Grows s (visit lines s)
unfolding visit
visit-Grows [] s = (λ k h. h, λ k h. h, λ k h. inl h)
visit-Grows (none ∷ lines) s = visit-Grows lines s
visit-Grows (some c ∷ lines) s =
    let (a, b, d) = take_up-Grows c s in
    let (a', b', d') = visit-Grows lines (take_up c s) in
    (
      λ k h. a' k (a k h),
      λ k h. b' k (b k h),
      λ k h. elim (d' k h) [
        | inl h' ↦ elim (d k h') [ inl g ↦ inl g | inr g ↦ inr (b' k g) ]
        | inr g ↦ inr g
      ],
    )

pub visit-covers :
    (lines : List (Option ℕ)) (s : Search) (c : ℕ)
    → Among (some c) lines
    → mem c (visit lines s).seen ≡ true
unfolding visit
visit-covers [] s c h = absurd h
visit-covers (none ∷ lines) s c (inl e) = absurd (cc)
visit-covers (none ∷ lines) s c (inr h) = visit-covers lines s c h
visit-covers (some d ∷ lines) s c (inl e) =
    (visit-Grows lines (take_up d s)).0 c (unfold take_up in ground (arith, e))
visit-covers (some d ∷ lines) s c (inr h) = visit-covers lines (take_up d s) c h

-- The processes that have been seen, by the root and the descendants
abbrev pub Records : ℕ → Search → Type 0
Records root s = (k : ℕ) → mem k s.seen ≡ (k == root || mem k s.descendants)

take_up-Records : (root c : ℕ) (s : Search) → Records root s → Records root (take_up c s)
unfolding take_up
take_up-Records root c s r = λ k. ground (arith, r k, mem-append k s.descendants (c ∷ []))

pub visit-Records :
    (root : ℕ) (lines : List (Option ℕ)) (s : Search)
    → Records root s
    → Records root (visit lines s)
unfolding visit
visit-Records root [] s r = r
visit-Records root (none ∷ lines) s r = visit-Records root lines s r
visit-Records root (some c ∷ lines) s r =
    visit-Records root lines (take_up c s) (take_up-Records root c s r)
