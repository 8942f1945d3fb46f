-- ===== src/Observability/Same.antt =====
-- pyleaner/observability.py: the fingerprint of a task's environment, by what its source imports.
use py_leaner.Base.{
  ℕ, ◌≤◌, true, ◌≡◌, refl, sym, subst, ◌⊎◌, inl, inr, Option, some, List, [], length, Among,
}
use py_leaner.Base.Text.{Text}
use py_leaner.Base.TextDict.{TextDict}
use py_leaner.Observability.Imports.{has}
use py_leaner.Observability.Sorted.{sorted, sorted_same}
use py_leaner.Observability.Members.{has-Among, Among-has}
use py_leaner.Observability.Closure.{Failure, Source, found, Walk, walk, local_import_closure}
use py_leaner.Observability.Reached.{IsImported, at_start, by_file, IsWalk}
use py_leaner.Observability.Found.{Lists, Fails, Ends, walk-Ends, complete}

abbrev pub Covers : List Text → List Text → Type 0
Covers xs ys = (m : Text) → has m ys ≡ true → has m xs ≡ true

widen :
    (source : Text → Source) (xs ys : List Text) (m : Text)
    → Covers ys xs
    → IsImported source xs m
    → IsImported source ys m
widen source xs ys m c (at_start _ h) = at_start m (c m h)
widen source xs ys m c (by_file _ p r s i e h) = by_file m p r s (widen source xs ys p c i) e h

module _ (hash : Text → Text) (source : Text → Source)
    (one : (p q relative s t : Text)
      → source p ≡ found relative s
      → source q ≡ found relative t
      → s ≡ t)
    (us : List Text) where
  seen_within :
      (xs ys : List Text) (w v : Walk)
      → Covers ys xs
      → v.pending ≡ []
      → IsWalk hash source xs us w
      → IsWalk hash source ys us v
      → (m : Text) → Among m w.seen
      → Among m v.seen
  seen_within xs ys w v c e i j m h =
      let imported = i.sound m (rw (Among-has m w.seen h) refl) in
      has-Among m v.seen (complete hash source ys one us v m j e (widen source xs ys m c imported))

  files_within :
      (xs ys : List Text) (w v : Walk)
      → Covers ys xs
      → v.pending ≡ []
      → IsWalk hash source xs us w
      → IsWalk hash source ys us v
      → (x : Text × Text) → Among x w.files
      → Among x v.files
  files_within xs ys w v c e i j x h =
      let f = i.files_sound x h in
      subst (λ t. Among (x.0, t) v.files) (sym f.hashed)
        (j.files_full f.module_ x.0 f.content
          (complete hash source ys one us v f.module_ j e
            (widen source xs ys f.module_ c (i.sound f.module_ (rw f.among refl))))
          f.reads)

  abbrev pub Same : (o p : Option (Failure ⊎ (List Text × TextDict Text))) → Type 0
  Same o p =
      ((f : Failure) × (g : Failure) × (o ≡ some (inl f)) × (p ≡ some (inl g)))
      ⊎ ((c : List Text × TextDict Text) × (o ≡ some (inr c)) × (p ≡ some (inr c)))

  results :
      (xs ys : List Text) (w v : Walk)
      → Covers xs ys
      → Covers ys xs
      → w.pending ≡ []
      → v.pending ≡ []
      → IsWalk hash source xs us w
      → IsWalk hash source ys us v
      → (sorted (λ m. m) w.seen ≡ sorted (λ m. m) v.seen)
        × (sorted (λ e. e.0) w.files ≡ sorted (λ e. e.0) v.files)
  results xs ys w v c d e f i j = (
    sorted_same (λ m. m) w.seen v.seen i.seen_once j.seen_once (seen_within xs ys w v d f i j)
        (seen_within ys xs v w c e j i),
    sorted_same (λ x. x.0) w.files v.files i.files_once j.files_once
        (files_within xs ys w v d f i j) (files_within ys xs v w c e j i),
  )

  -- A failing module is in no walk that has ended.
  Fails-not :
      (xs ys : List Text) (v : Walk) (f : Failure)
      → Covers ys xs
      → v.pending ≡ []
      → IsWalk hash source ys us v
      → ¬ Fails hash source xs one f
  Fails-not xs ys v f c e j (m, i, h) =
      j.unfailing m f (complete hash source ys one us v m j e (widen source xs ys m c i)) h

  agree :
      (xs ys : List Text) (fuel more : ℕ)
      → Covers xs ys
      → Covers ys xs
      → Ends hash source xs one us (walk hash source fuel xs [] [])
      → Ends hash source ys one us (walk hash source more ys [] [])
      → Same (local_import_closure hash source fuel xs) (local_import_closure hash source more ys)
  unfolding local_import_closure
  agree xs ys fuel more c d (inl (f, e, m)) (inl (g, e', m')) =
      inl (f, g, rw (e, local_import_closure) refl, rw (e', local_import_closure) refl)
  agree xs ys fuel more c d (inl (f, e, m)) (inr (v, e', f', j)) =
      absurd (Fails-not xs ys v f d f' j m)
  agree xs ys fuel more c d (inr (w, e, f, i)) (inl (g, e', m')) =
      absurd (Fails-not ys xs w g c f i m')
  agree xs ys fuel more c d (inr (w, e, f, i)) (inr (v, e', f', j)) =
      let (a, b) = results xs ys w v c d f f' i j in
      inr (
        (sorted (λ m. m) w.seen, sorted (λ x. x.0) w.files),
        rw (e, local_import_closure) refl,
        rw (e', local_import_closure, sym a, sym b) refl,
      )

  pub closure-Same :
      (xs ys : List Text) (fuel more : ℕ)
      → Lists source us
      → Covers us xs
      → Covers xs ys
      → Covers ys xs
      → length us ≤ fuel
      → length us ≤ more
      → Same (local_import_closure hash source fuel xs) (local_import_closure hash source more ys)
  closure-Same xs ys fuel more lists known c d enough enough' =
      agree xs ys fuel more c d (walk-Ends hash source xs one us fuel lists known enough)
        (walk-Ends hash source ys one us more lists (λ k h. known k (c k h)) enough')
