-- ===== src/Observability/Cached/Kept.antt =====
-- pyleaner/client.py: the client answers from its cache what it would compute.
use py_leaner.Base.{
  ℕ, ◌≡◌, ◌≢◌, refl, ap, subst, inl, inr, Option, none, some, List, [], ◌∷◌, map, Among,
  Option-cases, Bool-cases,
}
use py_leaner.Base.Text.{Text, text_eq, text_eq_iff}
use py_leaner.Base.TextDict.{TextDict, get, put_key, get-put_key_self, get-put_key_ne}
use py_leaner.Base.Json.{Json}
use py_leaner.Observability.Environment.{Project}
use py_leaner.Observability.Cached.{Cache, source_of, computed, store, task_environment_fingerprint}

module _ (p : Project) (fuel : ℕ) where
  abbrev more : Option Text → Option (List (Option Text)) → Option (List (Option Text))
  more v none = none
  more v (some vs) = some (v ∷ vs)

  -- One client, asked for one task after the other
  pub answers : List (TextDict Json) → Cache → Option (List (Option Text))
  answers [] c = some []
  answers (k ∷ ks) c = elim (task_environment_fingerprint p fuel k c) [
    | none ↦ none
    | some (v, d) ↦ more v (answers ks d)
  ]

  -- Without a cache
  pub computed_all : List (TextDict Json) → Option (List (Option Text))
  computed_all [] = some []
  computed_all (k ∷ ks) = elim (computed p fuel (source_of k)) [
    | none ↦ none
    | some v ↦ more v (computed_all ks)
  ]

  -- No two of the sources have the same hash.
  abbrev pub IsCollisionFree : List Text → Type 0
  IsCollisionFree sources =
      (s t : Text) → Among s sources → Among t sources → p.hash s ≡ p.hash t → s ≡ t

  -- Each value that is kept is that of a source.
  abbrev IsKept : List Text → Cache → Type 0
  IsKept sources c =
      (key : Text) (v : Option Text)
      → get key c.environment ≡ some v
      → (s : Text) × Among s sources × (key ≡ p.hash s) × (computed p fuel s ≡ some v)

  store-IsKept :
      (sources : List Text) (c : Cache) (s : Text) (v : Option Text)
      → Among s sources
      → computed p fuel s ≡ some v
      → IsKept sources c
      → IsKept sources (record c { environment = put_key (p.hash s) v c.environment })
  store-IsKept sources c s v m e h key w g = elim (Bool-cases (text_eq key (p.hash s))) [
    | inl t ↦
        let f = (text_eq_iff key (p.hash s)).0 t in
        let k = subst (λ k. get k (put_key (p.hash s) v c.environment) ≡ some w) f g in
        let same : v ≡ w = cc (get-put_key_self (p.hash s) v c.environment, k) in (s, m, f, cc)
    | inr t ↦
        let n : key ≢ p.hash s = λ f. absurd (cc ((text_eq_iff key (p.hash s)).1 f)) in
        h key w (cc (get-put_key_ne key (p.hash s) v c.environment n))
  ]

  -- The two ways that a task is answered
  hit :
      (k : TextDict Json) (c : Cache) (v : Option Text)
      → get (p.hash (source_of k)) c.environment ≡ some v
      → task_environment_fingerprint p fuel k c ≡ some (v, c)
  unfolding task_environment_fingerprint
  hit k c v e = rw (e, task_environment_fingerprint) refl

  miss :
      (k : TextDict Json) (c : Cache)
      → get (p.hash (source_of k)) c.environment ≡ none
      → task_environment_fingerprint p fuel k c
        ≡ store (p.hash (source_of k)) (computed p fuel (source_of k)) c
  unfolding task_environment_fingerprint
  miss k c e = rw (e, task_environment_fingerprint) refl

  answers-computed_all :
      (sources : List Text) (ks : List (TextDict Json)) (c : Cache)
      → IsCollisionFree sources
      → ((s : Text) → Among s (map source_of ks) → Among s sources)
      → IsKept sources c
      → answers ks c ≡ computed_all ks
  unfolding answers computed_all store
  answers-computed_all sources [] c n w h = refl
  answers-computed_all sources (k ∷ ks) c n w h =
      elim (Option-cases (get (p.hash (source_of k)) c.environment)) [
        | inl e ↦ elim (Option-cases (computed p fuel (source_of k))) [
          | inl f ↦ rw (miss k c e, f, answers, computed_all) refl
          | inr (v, f) ↦
              let d = record c { environment = put_key (p.hash (source_of k)) v c.environment } in
              let rest =
                answers-computed_all sources ks d n (λ s m. w s (inr m))
                  (store-IsKept sources c (source_of k) v (w (source_of k) (inl refl)) f h) in
              rw (miss k c e, f, answers, computed_all) (ap (more v) rest)
        ]
        | inr (v, e) ↦
            let (s, m, f, g) = h (p.hash (source_of k)) v e in
            let same : source_of k ≡ s = n (source_of k) s (w (source_of k) (inl refl)) m f in
            let rest = answers-computed_all sources ks c n (λ s m. w s (inr m)) h in
            rw (hit k c v e, same, g, answers, computed_all) (ap (more v) rest)
      ]

  -- A client that starts without a value answers every sequence of tasks with the values that are
  -- computed without a cache, where the disk stays as it is and no two of the tasks' sources have the
  -- same hash.
  pub answers_refine :
      (ks : List (TextDict Json)) (runtime : Option Text)
      → IsCollisionFree (map source_of ks)
      → answers ks (record { environment = []; runtime = runtime }) ≡ computed_all ks
  unfolding get
  answers_refine ks runtime n =
      answers-computed_all (map source_of ks) ks (record { environment = []; runtime = runtime }) n
        (λ s m. m) (λ key v e. absurd (cc))
