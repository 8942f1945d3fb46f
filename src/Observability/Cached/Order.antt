-- ===== src/Observability/Cached/Order.antt =====
-- pyleaner/client.py: the fingerprint of a task's environment depends on its source only by the set of
-- the modules that it imports.
use py_leaner.Base.{ℕ, ◌≤◌, ◌≡◌, refl, ◌⊎◌, inl, inr, Option, none, some, List, length}
use py_leaner.Base.Text.{Text}
use py_leaner.Base.TextDict.{TextDict}
use py_leaner.Observability.Imports.{imports}
use py_leaner.Observability.Closure.{
  Failure, directory, path_text, local_source, local_import_closure,
}
use py_leaner.Observability.Found.OnDisk.{ImportsWithin, local_source-Lists}
use py_leaner.Observability.OneFile.{Entry-cases, local_source_one}
use py_leaner.Observability.Same.{Covers, closure-Same}
use py_leaner.Observability.Environment.{
  Project, Read, environment_of, read_project, with_closure, fingerprint_lean_environment,
}
use py_leaner.Observability.Cached.{kept, computed}

-- Both are computed, and are equal.
abbrev Agree : Option (Option Text) → Option (Option Text) → Type 0
Agree o p = (v : Option Text) × (o ≡ some v) × (p ≡ some v)

module _ (p : Project) where
  closure_of : ℕ → Text → Option (Failure ⊎ (List Text × TextDict Text))
  closure_of fuel s = local_import_closure p.hash (local_source p.disk p.root) fuel (imports s)

  computed_fails :
      (fuel : ℕ) (s : Text) (f : Failure) → read_project p ≡ inl f → computed p fuel s ≡ some none
  unfolding computed fingerprint_lean_environment kept
  computed_fails fuel s f e = rw (e, computed, fingerprint_lean_environment) refl

  computed-failed :
      (fuel : ℕ) (s : Text) (r : Read) (f : Failure)
      → read_project p ≡ inr r
      → local_import_closure p.hash (local_source p.disk p.root) fuel (imports s) ≡ some (inl f)
      → computed p fuel s ≡ some none
  unfolding computed fingerprint_lean_environment kept with_closure
  computed-failed fuel s r f e h =
      rw (e, h, computed, fingerprint_lean_environment, with_closure) refl

  computed-closed :
      (fuel : ℕ) (s : Text) (r : Read) (c : List Text × TextDict Text)
      → read_project p ≡ inr r
      → local_import_closure p.hash (local_source p.disk p.root) fuel (imports s) ≡ some (inr c)
      → computed p fuel s ≡ some (some (environment_of p r c).fingerprint)
  unfolding computed fingerprint_lean_environment kept with_closure
  computed-closed fuel s r c e h =
      rw (e, h, computed, fingerprint_lean_environment, with_closure) refl

  read_project-directory :
      (r : Read) → read_project p ≡ inr r → p.disk (path_text p.root) ≡ directory
  unfolding read_project
  read_project-directory r h = elim (Entry-cases (p.disk (path_text p.root))) [
    | inl (c, e) ↦ absurd (cc (rw (e, read_project) at h))
    | inr (inl e) ↦ absurd (cc (rw (e, read_project) at h))
    | inr (inr e) ↦ e
  ]

  Read-cases : (o : Failure ⊎ Read) → ((f : Failure) × (o ≡ inl f)) ⊎ ((r : Read) × (o ≡ inr r))
  Read-cases (inl f) = inl (f, refl)
  Read-cases (inr r) = inr (r, refl)

  -- Where two sources import the same modules, in any order and however often, on a disk whose files
  -- import only modules of a list, the client finds the same value for both, with as much fuel as
  -- the list is long: the same fingerprint, or none for both.
  pub computed_same :
      (us : List Text) (fuel more : ℕ) (s t : Text)
      → ImportsWithin us p.disk
      → Covers us (imports s)
      → Covers (imports s) (imports t)
      → Covers (imports t) (imports s)
      → length us ≤ fuel
      → length us ≤ more
      → Agree (computed p fuel s) (computed p more t)
  computed_same us fuel more s t within known c d enough enough' =
      elim (Read-cases (read_project p)) [
        | inl (f, e) ↦ (none, computed_fails fuel s f e, computed_fails more t f e)
        | inr (r, e) ↦
            elim (closure-Same p.hash (local_source p.disk p.root)
              (local_source_one p.disk p.root (read_project-directory r e)) us (imports s)
              (imports t) fuel more (local_source-Lists p.disk p.root us within) known c d enough
              enough') [
                | inl (f, g, h, k) ↦
                    (none, computed-failed fuel s r f e h, computed-failed more t r g e k)
                | inr (x, h, k) ↦ (
                  some (environment_of p r x).fingerprint,
                  computed-closed fuel s r x e h,
                  computed-closed more t r x e k,
                )
              ]
      ]
