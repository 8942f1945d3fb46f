-- ===== src/Observability/Reached/Turn.antt =====
-- pyleaner/observability.py: one turn of the loop of `_local_import_closure`, and what it keeps.
use py_leaner.Base.{
  Bool, true, false, not, ◌||◌, ◌≡◌, ◌≢◌, refl, sym, ap, ◌∙◌, subst, inl, inr, List, [], ◌∷◌, ◌++◌,
  arith, keep, All, Among, Bool-cases,
}
use py_leaner.Base.Text.{Text, text_eq, text_eq_iff, text_eq_refl}
use py_leaner.Base.TextDict.{TextDict, put_key}
use py_leaner.Observability.Imports.{has, imports}
use py_leaner.Observability.Sorted.{HasKeysOnce}
use py_leaner.Observability.Items.{
  put_key-HasKeysOnce, put_key-Among, Among-put_key, Among-put_key_inv,
}
use py_leaner.Observability.Members.{has-append, has-cons, has-keep, has-keep_inv}
use py_leaner.Observability.Closure.{Failure, Source, missing, found, failing, Walk}
use py_leaner.Observability.Reached.{IsImported, by_file, IsHashed, IsWalk}

module _ (hash : Text → Text) (source : Text → Source) (initial : List Text)
    -- Two modules with the same relative path have the same file.
    (one : (p q relative s t : Text)
      → source p ≡ found relative s
      → source q ≡ found relative t
      → s ≡ t) where
  unlike-seen : (m : Text) (seen : List Text) → has m seen ≡ false → All (λ n. m ≢ n) seen
  unfolding has
  unlike-seen m [] h = tt
  unlike-seen m (n ∷ seen) h = (
    λ e. absurd (ground (arith, h, (text_eq_iff m n).1 e)),
    unlike-seen m seen (ground (arith, h)),
  )

  -- What a turn adds: modules that are pending, and files.
  pub record Adds (us : List Text) (m : Text) (w : Walk) (pending : List Text)
      (files : TextDict Text) : Type 0 where
    fresh : has m w.seen ≡ false
    queued : List Text
    adds_queued : (k : Text) → has k pending ≡ (has k w.pending || has k queued)
    imported : (k : Text) → has k queued ≡ true → IsImported source initial k × (has k us ≡ true)
    covers :
        (k relative s : Text)
        → source m ≡ found relative s
        → has k (imports s) ≡ true
        → (has k (m ∷ w.seen) || has k queued) ≡ true
    works : (f : Failure) → source m ≢ failing f
    once : HasKeysOnce (λ e. e.0) files
    sound_files : (e : Text × Text) → Among e files → IsHashed hash source (m ∷ w.seen) e
    full_files :
        (p relative s : Text)
        → has p (m ∷ w.seen) ≡ true
        → source p ≡ found relative s
        → Among (relative, hash s) files

  -- A module in the longer list is the new one or was in the list.
  newest {ℓ} :
      (P : Text → Type ℓ) (m k : Text) (seen : List Text)
      → P m
      → (has k seen ≡ true → P k)
      → has k (m ∷ seen) ≡ true
      → P k
  unfolding has
  newest P m k seen p f h = elim (Bool-cases (text_eq k m)) [
    | inl e ↦ subst P (sym ((text_eq_iff k m).0 e)) p
    | inr e ↦ f (ground (arith, h, e))
  ]

  pub Adds-IsWalk :
      (us : List Text) (m : Text) (w : Walk) (pending : List Text) (files : TextDict Text)
      → Adds us m w pending files
      → IsWalk hash source initial us (record w { pending = m ∷ w.pending })
      → IsWalk hash source initial us
          (record { pending = pending; seen = m ∷ w.seen; files = files })
  Adds-IsWalk us m w pending files a i =
      let first : IsImported source initial m =
        i.sound m (ground (arith, has-cons m m w.pending, text_eq_refl m)) in
      record {
        sound = λ k h. elim (Bool-cases (has k a.queued)) [
          | inl q ↦ (a.imported k q).0
          | inr q ↦
              i.sound k
                (ground (arith, h, q, a.adds_queued k, has-cons k m w.seen, has-cons k m w.pending))
        ];
        known = λ k h. elim (Bool-cases (has k a.queued)) [
          | inl q ↦ (a.imported k q).1
          | inr q ↦ i.known k (ground (arith, h, q, a.adds_queued k, has-cons k m w.pending))
        ];
        begun = λ k h.
            ground
              (arith, i.begun k h, a.adds_queued k, has-cons k m w.seen, has-cons k m w.pending);
        closed = λ k p r s h e c.
            newest (λ p. source p ≡ found r s → (has k (m ∷ w.seen) || has k pending) ≡ true) m p
              w.seen (λ e. ground (arith, a.covers k r s e c, a.adds_queued k))
              (λ o e. ground (
                arith,
                i.closed k p r s o e c,
                a.adds_queued k,
                has-cons k m w.seen,
                has-cons k m w.pending,
              ))
              h e;
        unfailing =
            λ p f. newest (λ p. source p ≢ failing f) m p w.seen (a.works f) (i.unfailing p f);
        seen_once = (unlike-seen m w.seen a.fresh, i.seen_once);
        files_once = a.once;
        files_sound = a.sound_files;
        files_full = a.full_files;
      }

  older :
      (m : Text) (seen : List Text) (e : Text × Text)
      → IsHashed hash source seen e
      → IsHashed hash source (m ∷ seen) e
  older m seen e h = record {
    module_ = h.module_;
    content = h.content;
    among = ground (arith, h.among, has-cons h.module_ m seen);
    reads = h.reads;
    hashed = h.hashed;
  }

  not-found : (r s : Text) (o : Source) → o ≡ missing → o ≢ found r s
  not-found r s o e f = cc

  pub missing-Adds :
      (us : List Text) (m : Text) (w : Walk)
      → source m ≡ missing
      → has m w.seen ≡ false
      → IsWalk hash source initial us (record w { pending = m ∷ w.pending })
      → Adds us m w w.pending w.files
  unfolding has
  missing-Adds us m w e n i = record {
    fresh = n;
    queued = [];
    adds_queued = λ k. ground (arith);
    imported = λ k h. absurd (cc);
    covers = λ k r s f h. absurd (cc);
    works = λ f g. cc;
    once = i.files_once;
    sound_files = λ x h. older m w.seen x (i.files_sound x h);
    full_files = λ p r s.
        newest (λ p. source p ≡ found r s → Among (r, hash s) w.files) m p w.seen (λ f. absurd (cc))
          (λ o. i.files_full p r s o);
  }

  pub found-Adds :
      (us : List Text) (m relative s : Text) (w : Walk)
      → source m ≡ found relative s
      → ((k : Text) → has k (imports s) ≡ true → has k us ≡ true)
      → has m w.seen ≡ false
      → IsWalk hash source initial us (record w { pending = m ∷ w.pending })
      → Adds us m w
          (w.pending ++ keep (λ child. not (has child (m ∷ w.seen))) (imports s))
          (put_key relative (hash s) w.files)
  found-Adds us m relative s w e lists n i =
      let test : Text → Bool = λ child. not (has child (m ∷ w.seen)) in
      let queued : List Text = keep test (imports s) in
      record {
        fresh = n;
        queued = queued;
        adds_queued = λ k. has-append k w.pending queued;
        imported = λ k h.
            let in_file = has-keep_inv test k (imports s) h in
            (
              by_file k m relative s
                  (i.sound m (ground (arith, has-cons m m w.pending, text_eq_refl m))) e in_file,
              lists k in_file,
            );
        covers = λ k r t f h. elim (Bool-cases (has k (m ∷ w.seen))) [
          | inl g ↦ ground (arith, g)
          | inr g ↦
              let c = has-keep test k (imports s) (rw g refl) (cc (sym e ∙ f)) in ground (arith, c)
        ];
        works = λ f g. cc;
        once = put_key-HasKeysOnce relative (hash s) w.files i.files_once;
        sound_files = λ x h. elim (Among-put_key_inv relative (hash s) x w.files h) [
          | inl g ↦ record {
            module_ = m;
            content = s;
            among = ground (arith, has-cons m m w.seen, text_eq_refl m);
            reads = e ∙ ap (λ r. found r s) (sym (ap (λ p. p.0) g));
            hashed = ap (λ p. p.1) g;
          }
          | inr g ↦ older m w.seen x (i.files_sound x g)
        ];
        full_files = λ p r t.
            newest
              (λ p. source p ≡ found r t → Among (r, hash t) (put_key relative (hash s) w.files)) m
              p w.seen
              (λ f.
                subst (λ x. Among x (put_key relative (hash s) w.files)) (cc (sym e ∙ f))
                  (put_key-Among relative (hash s) w.files))
              (λ o f.
                Among-put_key relative (hash s) r (hash t) w.files
                  (λ g. ap hash (one p m r t s f (e ∙ ap (λ r. found r s) (sym g))))
                  (i.files_full p r t o f));
      }
