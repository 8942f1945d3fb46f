-- ===== src/Observability/Found/Closed.antt =====
-- pyleaner/observability.py: `_local_import_closure` returns the modules that are imported.
use py_leaner.Base.{
  ℕ, ◌≤◌, true, ◌≡◌, ◌≢◌, ◌↔◌, refl, sym, subst, ◌⊎◌, inl, inr, Option, some, List, [], arith,
  length, Among,
}
use py_leaner.Base.Text.{Text}
use py_leaner.Base.TextDict.{TextDict}
use py_leaner.Observability.Imports.{has}
use py_leaner.Observability.Sorted.{sorted, Among-sorted, sorted-Among}
use py_leaner.Observability.Members.{has-Among, Among-has}
use py_leaner.Observability.Closure.{Failure, Source, found, failing, Walk, local_import_closure}
use py_leaner.Observability.Reached.{IsImported, IsWalk}
use py_leaner.Observability.Found.{Fails, Lists, walk-Ends, complete}

module _ (hash : Text → Text) (source : Text → Source) (initial : List Text)
    (one : (p q relative s t : Text)
      → source p ≡ found relative s
      → source q ≡ found relative t
      → s ≡ t) where
  -- A module of the list has a file, whose hash this is.
  pub record IsFileOf (item : Text × Text) : Type 0 where
    pub module_ : Text
    pub content : Text
    pub imported : IsImported source initial module_
    pub reads : source module_ ≡ found item.0 content
    pub hashed : item.1 ≡ hash content

  -- The closure: exactly the modules that are imported, of which none fails, and the hashes of
  -- exactly their files; or a failure of one of them.
  pub record IsClosure (modules : List Text) (files : TextDict Text) : Type 0 where
    pub modules_iff : (m : Text) → (has m modules ≡ true) ↔ IsImported source initial m
    pub files_iff : (e : Text × Text) → Among e files ↔ IsFileOf e
    pub none_fails : (m : Text) (f : Failure) → IsImported source initial m → source m ≢ failing f

  abbrev pub Closes : Option (Failure ⊎ (List Text × TextDict Text)) → Type 0
  Closes o =
      ((f : Failure) × (o ≡ some (inl f)) × Fails hash source initial one f)
      ⊎ ((ms : List Text) × (d : TextDict Text) × (o ≡ some (inr (ms, d))) × IsClosure ms d)

  walk-IsClosure :
      (us : List Text) (w : Walk)
      → w.pending ≡ []
      → IsWalk hash source initial us w
      → IsClosure (sorted (λ m. m) w.seen) (sorted (λ e. e.0) w.files)
  walk-IsClosure us w e i = record {
    modules_iff = λ m. (
      λ h. i.sound m (
          ground (
            arith,
            Among-has m w.seen
                (sorted-Among (λ m. m) m w.seen (has-Among m (sorted (λ m. m) w.seen) h)),
          )),
      λ j. Among-has m (sorted (λ m. m) w.seen) (
          Among-sorted (λ m. m) m w.seen
            (has-Among m w.seen (complete hash source initial one us w m i e j))),
    );
    files_iff = λ x. (
      λ h.
          let f = i.files_sound x (sorted-Among (λ e. e.0) x w.files h) in
          record {
            module_ = f.module_;
            content = f.content;
            imported = i.sound f.module_ (ground (arith, f.among));
            reads = f.reads;
            hashed = f.hashed;
          },
      λ f.
          Among-sorted (λ e. e.0) x w.files
            (subst (λ v. Among (x.0, v) w.files) (sym f.hashed)
              (i.files_full f.module_ x.0 f.content
                (complete hash source initial one us w f.module_ i e f.imported) f.reads)),
    );
    none_fails = λ m f j. i.unfailing m f (complete hash source initial one us w m i e j);
  }

  pub local_import_closure-Closes :
      (us : List Text) (fuel : ℕ)
      → Lists source us
      → ((k : Text) → has k initial ≡ true → has k us ≡ true)
      → length us ≤ fuel
      → Closes (local_import_closure hash source fuel initial)
  unfolding local_import_closure
  local_import_closure-Closes us fuel lists known enough =
      elim (walk-Ends hash source initial one us fuel lists known enough) [
        | inl (f, e, m) ↦ inl (f, rw (e, local_import_closure) refl, m)
        | inr (w, e, d, i) ↦ inr (
          sorted (λ m. m) w.seen,
          sorted (λ e. e.0) w.files,
          rw (e, local_import_closure) refl,
          walk-IsClosure us w d i,
        )
      ]
