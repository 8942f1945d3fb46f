-- ===== src/Observability/Reached.antt =====
-- pyleaner/observability.py: what holds between two turns of the loop of `_local_import_closure`.
pub mod Turn
use py_leaner.Base.{
  ℕ, suc, ◌+◌, ◌≤◌, ◌<◌, Bool, true, false, not, ◌||◌, ◌≡◌, ◌≢◌, refl, sym, ap, ◌∙◌, subst, ◌⊎◌,
  inl, inr, List, [], ◌∷◌, ◌++◌, arith, keep, All, All-pure, All-append, Among, All-Among, All-map,
  Bool-cases,
}
use py_leaner.Base.Text.{Text, text_eq, text_eq_iff, text_eq_refl}
use py_leaner.Base.TextDict.{TextDict, put_key}
use py_leaner.Observability.Imports.{has, imports}
use py_leaner.Observability.Sorted.{HasKeysOnce}
use py_leaner.Observability.Items.{
  put_key-HasKeysOnce, put_key-Among, Among-put_key, Among-put_key_inv,
}
use py_leaner.Observability.Members.{
  has-append, has-Among, Among-has, has-cons_self, has-cons, has-keep, has-keep_inv, unseen,
  unseen-cons,
}
use py_leaner.Observability.Closure.{
  Failure, Source, missing, found, failing, Walk, skip_seen, visit,
}

-- The initial modules, and what an imported module's local file imports.
pub data IsImported (source : Text → Source) (initial : List Text) : Text → Type 0 where
  at_start : (m : Text) → has m initial ≡ true → IsImported source initial m
  by_file :
      (m p relative s : Text)
      → IsImported source initial p
      → source p ≡ found relative s
      → has m (imports s) ≡ true
      → IsImported source initial m

-- The item of a file that a module of the list has.
pub record IsHashed (hash : Text → Text) (source : Text → Source) (seen : List Text)
    (item : Text × Text) : Type 0 where
  pub module_ : Text
  pub content : Text
  pub among : has module_ seen ≡ true
  pub reads : source module_ ≡ found item.0 content
  pub hashed : item.1 ≡ hash content

module _ (hash : Text → Text) (source : Text → Source) (initial : List Text) where
  -- What holds between two turns, with a list of all the modules that any file imports.
  pub record IsWalk (us : List Text) (w : Walk) : Type 0 where
    pub sound : (m : Text) → (has m w.seen || has m w.pending) ≡ true → IsImported source initial m
    pub known : (m : Text) → has m w.pending ≡ true → has m us ≡ true
    pub begun : (m : Text) → has m initial ≡ true → (has m w.seen || has m w.pending) ≡ true
    pub closed :
        (m p relative s : Text)
        → has p w.seen ≡ true
        → source p ≡ found relative s
        → has m (imports s) ≡ true
        → (has m w.seen || has m w.pending) ≡ true
    pub unfailing : (p : Text) (f : Failure) → has p w.seen ≡ true → source p ≢ failing f
    pub seen_once : HasKeysOnce (λ m. m) w.seen
    pub files_once : HasKeysOnce (λ e. e.0) w.files
    pub files_sound : (e : Text × Text) → Among e w.files → IsHashed hash source w.seen e
    pub files_full :
        (p relative s : Text)
        → has p w.seen ≡ true
        → source p ≡ found relative s
        → Among (relative, hash s) w.files

  skip_seen-has :
      (m : Text) (seen ms : List Text)
      → (has m seen || has m (skip_seen seen ms)) ≡ (has m seen || has m ms)
  unfolding skip_seen has
  skip_seen-has m seen [] = refl
  skip_seen-has m seen (n ∷ ms) = elim (Bool-cases (text_eq m n)) [
    | inr e ↦ ground (arith, e, skip_seen-has m seen ms)
    | inl e ↦
        let f = ap (λ k. has k seen) ((text_eq_iff m n).0 e) in
        ground (arith, e, f, skip_seen-has m seen ms)
  ]

  skip_seen-has_inv :
      (m : Text) (seen ms : List Text) → has m (skip_seen seen ms) ≡ true → has m ms ≡ true
  unfolding skip_seen has
  skip_seen-has_inv m seen [] h = h
  skip_seen-has_inv m seen (n ∷ ms) h = ground (arith, h, skip_seen-has_inv m seen ms)

  -- The turns that only continue.
  pub skip_seen-IsWalk :
      (us : List Text) (w : Walk)
      → IsWalk us w
      → IsWalk us (record w { pending = skip_seen w.seen w.pending })
  skip_seen-IsWalk us w i = record {
    sound = λ m h. i.sound m (rw (skip_seen-has m w.seen w.pending) at h);
    known = λ m h. i.known m (skip_seen-has_inv m w.seen w.pending h);
    begun = λ m h. rw (skip_seen-has m w.seen w.pending) (i.begun m h);
    closed = λ m p r s h e k. rw (skip_seen-has m w.seen w.pending) (i.closed m p r s h e k);
    unfailing = i.unfailing;
    seen_once = i.seen_once;
    files_once = i.files_once;
    files_sound = i.files_sound;
    files_full = i.files_full;
  }
