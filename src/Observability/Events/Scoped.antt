-- ===== src/Observability/Events/Scoped.antt =====
-- pyleaner/client.py: a task carries the fields of the blocks around it.
use py_leaner.Base.{
  Bool, true, false, Option, none, some, List, [], ◌∷◌, ◌++◌, if◌then◌else◌, ◌≡◌, refl, ◌∙◌, ap,
  Bool-cases, inl, inr,
}
use py_leaner.Base.Text.{Text, text_eq, text_eq_iff}
use py_leaner.Base.TextDict.{TextDict, get, put_key, get-put_key_self, get-put_key_ne}
use py_leaner.Base.Json.{Json}
use py_leaner.Client.Resilient.{merge_context}
use py_leaner.Observability.Events.{
  Context, merged, Caller, finish, raise, submit, call_pool, within, leave, Ran, run_caller, given,
  argument,
}

get-put_key :
    (k j : Text) (v : Json) (c : Context)
    → get k (put_key j v c) ≡ (if text_eq k j then some v else get k c)
get-put_key k j v c = elim (Bool-cases (text_eq k j)) [
  | inl e ↦ rw e (ap (λ i. get i (put_key j v c)) ((text_eq_iff k j).0 e) ∙ get-put_key_self j v c)
  | inr e ↦ rw e (get-put_key_ne k j v c (λ f. absurd (cc ((text_eq_iff k j).1 f))))
]

get-merged :
    (k : Text) (c : Context) (fields : TextDict (Option Json))
    → get k (merged c fields) ≡ given k fields (get k c)
unfolding merged
get-merged k c [] = refl
get-merged k c ((j, none) ∷ fields) = get-merged k c fields
get-merged k c ((j, some v) ∷ fields) =
    get-merged k (put_key j v c) fields ∙ ap (given k fields) (get-put_key k j v c)

get-merge_context :
    (k : Text) (c context : Context)
    → get k (merge_context c context) ≡ argument k context (get k c)
unfolding merge_context
get-merge_context k c [] = refl
get-merge_context k c ((j, v) ∷ context) =
    get-merge_context k (put_key j v c) context ∙ ap (argument k context) (get-put_key k j v c)

abbrev pub seen_after :
    Bool → List (Option Json) → List (Option Json) × Bool → List (Option Json) × Bool
seen_after true vs rest = (vs, true)
seen_after false vs rest = (vs ++ rest.0, rest.1)

-- The value of a key for each task: of a resilient submission, by its argument and the blocks that are
-- open around it; of a method of the pool, none. Those after an exception are not reached.
abbrev pub seen_values : Text → Caller → Option Json → List (Option Json) × Bool
seen_values k finish o = ([], false)
seen_values k raise o = ([], true)
seen_values k (submit context next) o =
    let r = seen_values k next o in (argument k context o ∷ r.0, r.1)
seen_values k (call_pool next) o = let r = seen_values k next o in (none ∷ r.0, r.1)
seen_values k (within fields body next) o =
    let r = seen_values k body (given k fields o) in
    let s = seen_values k next o in seen_after r.1 r.0 s

abbrev pub values_of : Text → List Context → List (Option Json)
values_of k [] = []
values_of k (c ∷ cs) = get k c ∷ values_of k cs

values_of-append :
    (k : Text) (cs ds : List Context) → values_of k (cs ++ ds) ≡ values_of k cs ++ values_of k ds
values_of-append k [] ds = refl
values_of-append k (c ∷ cs) ds = ap (λ x. get k c ∷ x) (values_of-append k cs ds)

abbrev Scopes : Text → Ran → List (Option Json) × Bool → Context → Type 0
Scopes k r v c = (values_of k r.carried ≡ v.0) × (r.raised ≡ v.1) × (r.variable ≡ c)

leave-Scopes :
    (k : Text) (x : Bool) (cs : List Context) (c : Context) (rest : Ran) (y : Bool)
    (vs : List (Option Json)) (ws : List (Option Json) × Bool)
    → x ≡ y
    → values_of k cs ≡ vs
    → Scopes k rest ws c
    → Scopes k (leave x cs c rest) (seen_after y vs ws) c
unfolding leave
leave-Scopes k true cs c rest true vs ws e f s = (f, refl, refl)
leave-Scopes k true cs c rest false vs ws e f s = cc
leave-Scopes k false cs c rest true vs ws e f s = cc
leave-Scopes k false cs c rest false vs ws e f s =
    (values_of-append k cs rest.carried ∙ cc (f, s.0), s.1, s.2)

-- Whatever a caller submits inside and outside of `observation_context` blocks, and wherever it
-- raises, the task of each `submit_resilient` carries for each key the value of its own `context`
-- argument, if that has one, else that of the innermost block around it that gives one, else the
-- outer value; the task of a method of the pool carries none, whatever blocks are around it; and
-- afterwards the context is the one from before.
pub run_caller-scopes :
    (k : Text) (s : Caller) (c : Context)
    → (values_of k (run_caller s c).carried ≡ (seen_values k s (get k c)).0)
      × ((run_caller s c).raised ≡ (seen_values k s (get k c)).1)
      × ((run_caller s c).variable ≡ c)
unfolding run_caller get
run_caller-scopes k finish c = (refl, refl, refl)
run_caller-scopes k raise c = (refl, refl, refl)
run_caller-scopes k (submit context next) c =
    let (a, b, d) = run_caller-scopes k next c in
    (
      ap (λ v. v ∷ values_of k (run_caller next c).carried) (get-merge_context k c context)
          ∙ ap (λ x. argument k context (get k c) ∷ x) a,
      b,
      d,
    )
run_caller-scopes k (call_pool next) c =
    let (a, b, d) = run_caller-scopes k next c in (ap (λ x. none ∷ x) a, b, d)
run_caller-scopes k (within fields body next) c =
    let o = get k c in
    let (a, b, d) = run_caller-scopes k body (merged c fields) in
    let r = run_caller body (merged c fields) in
    let v = seen_values k body (given k fields o) in
    let m = get-merged k c fields in
    leave-Scopes k r.raised r.carried c (run_caller next c) v.1 v.0 (seen_values k next o)
      (b ∙ ap (λ x. (seen_values k body x).1) m) (a ∙ ap (λ x. (seen_values k body x).0) m)
      (run_caller-scopes k next c)
