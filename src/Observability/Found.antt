-- ===== src/Observability/Found.antt =====
-- pyleaner/observability.py: the loop of `_local_import_closure` ends, with every imported module seen.
pub mod Closed
pub mod OnDisk
use py_leaner.Base.{
  ℕ, zero, suc, ◌+◌, ◌≤◌, ◌<◌, Bool, true, false, not, ◌||◌, ◌≡◌, ◌≢◌, ◌↔◌, refl, sym, ap, ◌∙◌,
  subst, ◌⊎◌, inl, inr, Option, none, some, List, [], ◌∷◌, ◌++◌, arith, length, keep, All, Among,
  Bool-cases,
}
use py_leaner.Base.Text.{Text, text_eq, text_eq_iff, text_eq_refl}
use py_leaner.Base.TextDict.{TextDict, put_key}
use py_leaner.Observability.Imports.{has, imports}
use py_leaner.Observability.Sorted.{HasKeysOnce, sorted, Among-sorted, sorted-Among}
use py_leaner.Observability.Members.{
  has-Among, Among-has, has-cons, unseen, unseen-cons, unseen-nil,
}
use py_leaner.Observability.Closure.{
  Failure, Source, missing, found, failing, Walk, skip_seen, visit, walk, local_import_closure,
}
use py_leaner.Observability.Reached.{
  IsImported, at_start, by_file, IsHashed, IsWalk, skip_seen-IsWalk,
}
use py_leaner.Observability.Reached.Turn.{Adds-IsWalk, missing-Adds, found-Adds}

Source-cases :
    (o : Source)
    → (o ≡ missing)
      ⊎ ((r : Text) × (s : Text) × (o ≡ found r s))
      ⊎ ((f : Failure) × (o ≡ failing f))
Source-cases missing = inl refl
Source-cases (found r s) = inr (inl (r, s, refl))
Source-cases (failing f) = inr (inr (f, refl))

-- The first of what is pending has not been seen.
abbrev IsFront : List Text → List Text → Type 0
IsFront seen [] = Unit
IsFront seen (m ∷ ms) = has m seen ≡ false

skip_seen-IsFront : (seen ms : List Text) → IsFront seen (skip_seen seen ms)
unfolding skip_seen
skip_seen-IsFront seen [] = tt
skip_seen-IsFront seen (m ∷ ms) = elim (Bool-cases (has m seen)) [
  | inl e ↦ rw e (skip_seen-IsFront seen ms)
  | inr e ↦ rw e e
]

-- Every module that a file imports is in the list.
abbrev pub Lists : (Text → Source) → List Text → Type 0
Lists source us =
    (p relative s k : Text)
    → source p ≡ found relative s
    → has k (imports s) ≡ true
    → has k us ≡ true

module _ (hash : Text → Text) (source : Text → Source) (initial : List Text)
    (one : (p q relative s t : Text)
      → source p ≡ found relative s
      → source q ≡ found relative t
      → s ≡ t) where
  abbrev pub Fails : Failure → Type 0
  Fails f = (m : Text) × IsImported source initial m × (source m ≡ failing f)

  abbrev pub Ends : List Text → Option (Failure ⊎ Walk) → Type 0
  Ends us o =
      ((f : Failure) × (o ≡ some (inl f)) × Fails f)
      ⊎ ((w : Walk) × (o ≡ some (inr w)) × (w.pending ≡ []) × IsWalk hash source initial us w)

  abbrev at_turn : List Text → List Text → TextDict Text → Walk
  at_turn pending seen files = record { pending = pending; seen = seen; files = files }

  walk_on :
      (fuel : ℕ) (m : Text) (pending seen : List Text) (files : TextDict Text) (w : Walk)
      → visit hash m (source m) (at_turn pending seen files) ≡ inr w
      → walk hash source fuel (skip_seen w.seen w.pending) w.seen w.files
        ≡ walk hash source (suc fuel) (m ∷ pending) seen files
  unfolding walk
  walk_on fuel m pending seen files w e = rw (e, walk) refl

  walk_fails :
      (fuel : ℕ) (m : Text) (pending seen : List Text) (files : TextDict Text) (f : Failure)
      → source m ≡ failing f
      → walk hash source (suc fuel) (m ∷ pending) seen files ≡ some (inl f)
  unfolding walk visit
  walk_fails fuel m pending seen files f e = rw (e, walk) refl

  visit_missing :
      (m : Text) (w : Walk)
      → source m ≡ missing
      → visit hash m (source m) w ≡ inr (record w { seen = m ∷ w.seen })
  unfolding visit
  visit_missing m w e = rw e refl

  visit_found :
      (m relative s : Text) (w : Walk)
      → source m ≡ found relative s
      → visit hash m (source m) w
        ≡ inr (record {
          pending = w.pending ++ keep (λ child. not (has child (m ∷ w.seen))) (imports s);
          seen = m ∷ w.seen;
          files = put_key relative (hash s) w.files;
        })
  unfolding visit
  visit_found m relative s w e = rw e refl

  walk_on-Ends :
      (us : List Text) (fuel : ℕ) (pending seen : List Text) (files : TextDict Text)
      → Lists source us
      → IsFront seen pending
      → unseen us seen ≤ fuel
      → IsWalk hash source initial us (at_turn pending seen files)
      → Ends us (walk hash source fuel pending seen files)
  unfolding walk
  walk_on-Ends us fuel [] seen files lists front enough i =
      inr (at_turn [] seen files, refl, refl, i)
  walk_on-Ends us zero (m ∷ pending) seen files lists front enough i = absurd (
      omega (
        arith,
        unseen-cons us m seen (i.known m (ground (arith, has-cons m m pending, text_eq_refl m)))
            front,
      ))
  walk_on-Ends us (suc fuel) (m ∷ pending) seen files lists front enough i =
      let w = at_turn pending seen files in
      let less =
        unseen-cons us m seen (i.known m (ground (arith, has-cons m m pending, text_eq_refl m)))
          front in
      let goes_on : (ms : List Text) (fs : TextDict Text)
          → visit hash m (source m) w ≡ inr (at_turn ms (m ∷ seen) fs)
          → IsWalk hash source initial us (at_turn ms (m ∷ seen) fs)
          → Ends us (walk hash source (suc fuel) (m ∷ pending) seen files) =
        λ ms fs e j.
          subst (Ends us) (walk_on fuel m pending seen files (at_turn ms (m ∷ seen) fs) e) (
            walk_on-Ends us fuel (skip_seen (m ∷ seen) ms) (m ∷ seen) fs lists
              (skip_seen-IsFront (m ∷ seen) ms) (omega (arith, less, enough))
              (skip_seen-IsWalk hash source initial us (at_turn ms (m ∷ seen) fs) j)) in
      elim (Source-cases (source m)) [
        | inl e ↦ goes_on pending files (visit_missing m w e) (
            Adds-IsWalk hash source initial one us m w pending files
              (missing-Adds hash source initial one us m w e front i) i)
        | inr (inl (r, s, e)) ↦
            goes_on (pending ++ keep (λ child. not (has child (m ∷ seen))) (imports s))
              (put_key r (hash s) files) (visit_found m r s w e)
              (Adds-IsWalk hash source initial one us m w _ _
                (found-Adds hash source initial one us m r s w e (λ k. lists m r s k e) front i) i)
        | inr (inr (f, e)) ↦
            let imported = i.sound m (ground (arith, has-cons m m pending, text_eq_refl m)) in
            inl (f, walk_fails fuel m pending seen files f e, (m, imported, e))
      ]

  start-IsWalk :
      (us : List Text)
      → ((k : Text) → has k initial ≡ true → has k us ≡ true)
      → IsWalk hash source initial us (at_turn initial [] [])
  unfolding has
  start-IsWalk us known = record {
    sound = λ m h. at_start m (ground (arith, h));
    known = known;
    begun = λ m h. ground (arith, h);
    closed = λ m p r s h e c. cc;
    unfailing = λ p f h. cc;
    seen_once = tt;
    files_once = tt;
    files_sound = λ e h. absurd h;
    files_full = λ p r s h e. cc;
  }

  start-IsFront : (ms : List Text) → IsFront [] ms
  unfolding has
  start-IsFront [] = tt
  start-IsFront (m ∷ ms) = refl

  pub walk-Ends :
      (us : List Text) (fuel : ℕ)
      → Lists source us
      → ((k : Text) → has k initial ≡ true → has k us ≡ true)
      → length us ≤ fuel
      → Ends us (walk hash source fuel initial [] [])
  walk-Ends us fuel lists known enough =
      walk_on-Ends us fuel initial [] [] lists (start-IsFront initial)
        (omega (arith, unseen-nil us, enough)) (start-IsWalk us known)

  -- At the end every imported module has been seen.
  pub complete :
      (us : List Text) (w : Walk) (m : Text)
      → IsWalk hash source initial us w
      → w.pending ≡ []
      → IsImported source initial m
      → has m w.seen ≡ true
  unfolding has
  complete us w m i e (at_start _ h) = ground (arith, i.begun m h, ap (has m) e)
  complete us w m i e (by_file _ p r s j f h) =
      ground (arith, i.closed m p r s (complete us w p i e j) f h, ap (has m) e)
