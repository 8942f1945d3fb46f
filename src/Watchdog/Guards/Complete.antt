-- ===== src/Watchdog/Guards/Complete.antt =====
-- pyleaner/watchdog.py: when `attach_worker_guards` returns with guards, every worker has one.
use py_leaner.Base.{
  ℕ, zero, suc, ◌+◌, ◌≤◌, ◌<◌, Bool, true, false, some, List, [], ◌∷◌, ◌≡◌, refl, sym, ap, ◌∙◌,
  subst, ◌⊎◌, inl, inr, arith, ◌==◌, ==_iff, All, Among, Bool-cases, Option-cases, Among-All,
}
use py_leaner.Base.Dict.{Dict, lookup, insert, lookup-insert}
use py_leaner.Watchdog.Types.{Guard}
use py_leaner.Watchdog.Recovery.{Owner, stop_worker_scopes}
use py_leaner.Watchdog.Guards.{
  Adoption, ScopeEnd, made, not_made, stopped, left, systemd_scope_for_pid, Creation, abandon,
  add_guard, adopt, create, create_all, ids_from, missing_in, poll_workers, pairs_of, Attached,
  attached, finish_with, attach_found, attach_worker_guards, nothing_created,
}
use py_leaner.Watchdog.Guards.Tracked.{IsFresh, create_all_on, create_all_ends, create-IsFresh}
use py_leaner.Watchdog.Guards.Clean.{pairs-IsFresh}

-- A guard of the worker's process
abbrev pub Guards : ℕ → ℕ → Dict Guard → Type 0
Guards w pid gs = (g : Guard) × (lookup w gs ≡ some g) × (g.pid ≡ pid)

insert-Guards : (w : ℕ) (g : Guard) (gs : Dict Guard) → Guards w g.pid (insert w g gs)
insert-Guards w g gs = (g, ground (arith, lookup-insert w w g gs), refl)

adopt-Guards :
    (w pid : ℕ) (a : Adoption) (e : ScopeEnd) (c : Creation)
    → (adopt w pid a e c).raised ≡ false
    → Guards w pid (adopt w pid a e c).created
unfolding adopt add_guard abandon
adopt-Guards w pid a (made path) c h = insert-Guards w _ c.created
adopt-Guards w pid a not_made c h = cc
adopt-Guards w pid a stopped c h = cc
adopt-Guards w pid a left c h = cc

create-Guards :
    (limited : Bool) (adoption : ℕ → Adoption) (w pid : ℕ) (c : Creation)
    → (create limited adoption w pid c).raised ≡ false
    → Guards w pid (create limited adoption w pid c).created
unfolding create add_guard
create-Guards true adoption w pid c h =
    adopt-Guards w pid (adoption w) (systemd_scope_for_pid (adoption w)) c h
create-Guards false adoption w pid c h = insert-Guards w _ c.created

-- The other guards stay.
adopt-lookup :
    (j w pid : ℕ) (a : Adoption) (e : ScopeEnd) (c : Creation)
    → (j == w) ≡ false
    → lookup j (adopt w pid a e c).created ≡ lookup j c.created
unfolding adopt add_guard abandon
adopt-lookup j w pid a (made path) c n = lookup-insert j w _ c.created ∙ rw n refl
adopt-lookup j w pid a not_made c n = refl
adopt-lookup j w pid a stopped c n = refl
adopt-lookup j w pid a left c n = refl

create-lookup :
    (limited : Bool) (adoption : ℕ → Adoption) (j w pid : ℕ) (c : Creation)
    → (j == w) ≡ false
    → lookup j (create limited adoption w pid c).created ≡ lookup j c.created
unfolding create add_guard
create-lookup true adoption j w pid c n =
    adopt-lookup j w pid (adoption w) (systemd_scope_for_pid (adoption w)) c n
create-lookup false adoption j w pid c n = lookup-insert j w _ c.created ∙ rw n refl

create_all-lookup :
    (limited : Bool) (adoption : ℕ → Adoption) (found : List (ℕ × ℕ)) (c : Creation) (j : ℕ)
    → All (λ p. (j == p.0) ≡ false) found
    → (create_all limited adoption found c).raised ≡ false
    → lookup j (create_all limited adoption found c).created ≡ lookup j c.created
unfolding create_all
create_all-lookup limited adoption [] c j n h = refl
create_all-lookup limited adoption ((w, pid) ∷ found) c j n h =
    let d = create limited adoption w pid c in
    elim (Bool-cases d.raised) [
      | inl e ↦ absurd (cc (ap (λ x. x.raised) (create_all_ends limited adoption w pid found c e)))
      | inr e ↦
          let on = create_all_on limited adoption w pid found c e in
          ap (λ x. lookup j x.created) on
          ∙ create_all-lookup limited adoption found d j n.1 (sym (ap (λ x. x.raised) on) ∙ h)
          ∙ create-lookup limited adoption j w pid c n.0
    ]

create_all-Guards :
    (limited : Bool) (adoption : ℕ → Adoption) (found : List (ℕ × ℕ)) (c : Creation)
    → IsFresh found c.created
    → (create_all limited adoption found c).raised ≡ false
    → All (λ p. Guards p.0 p.1 (create_all limited adoption found c).created) found
unfolding create_all
create_all-Guards limited adoption [] c f h = tt
create_all-Guards limited adoption ((w, pid) ∷ found) c f h =
    let d = create limited adoption w pid c in
    elim (Bool-cases d.raised) [
      | inl e ↦ absurd (cc (ap (λ x. x.raised) (create_all_ends limited adoption w pid found c e)))
      | inr e ↦
          let on = create_all_on limited adoption w pid found c e in
          let k = sym (ap (λ x. x.raised) on) ∙ h in
          let (g, l, q) = create-Guards limited adoption w pid c e in
          (
            (
              g,
              ap (λ x. lookup w x.created) on
                  ∙ create_all-lookup limited adoption found d w f.1 k
                  ∙ l,
              q,
            ),
            subst (λ x. All (λ p. Guards p.0 p.1 x.created) found) (sym on)
                (create_all-Guards limited adoption found d
                  (create-IsFresh limited adoption w pid c found f) k),
          )
    ]

-- Every id of the list has a process, if none is missing.
missing-lookup :
    (pids : Dict ℕ) (w : ℕ) (ids : List ℕ)
    → missing_in pids ids ≡ []
    → Among w ids
    → (pid : ℕ) × (lookup w pids ≡ some pid) × Among (w, pid) (pairs_of pids ids)
unfolding missing_in pairs_of
missing-lookup pids w [] h m = absurd m
missing-lookup pids w (v ∷ ids) h m = elim (Option-cases (lookup v pids)) [
  | inl e ↦ absurd (cc (rw (e, missing_in) at h))
  | inr (pid, e) ↦
      rw (e, pairs_of) (here pid e (missing-lookup pids w ids (rw (e, missing_in) at h)) m)
]
  where
    here :
        (pid : ℕ)
        → lookup v pids ≡ some pid
        → (Among w ids → (q : ℕ) × (lookup w pids ≡ some q) × Among (w, q) (pairs_of pids ids))
        → (w ≡ v) ⊎ Among w ids
        → (q : ℕ) × (lookup w pids ≡ some q) × Among (w, q) ((v, pid) ∷ pairs_of pids ids)
    here pid e f (inl g) = (pid, ap (λ k. lookup k pids) g ∙ e, inl (ap (λ k. (k, pid)) g))
    here pid e f (inr n) = let (q, k, l) = f n in (q, k, inr l)

Among-ids : (w first n : ℕ) → first ≤ w → w < first + n → Among w (ids_from first n)
unfolding ids_from
Among-ids w first zero h k = absurd (omega arith)
Among-ids w first (suc n) h k = elim (Bool-cases (w == first)) [
  | inl e ↦ inl ((==_iff w first).0 e)
  | inr e ↦ inr (Among-ids w (suc first) n (ground arith) (omega arith))
]

abbrev pub FullyGuarded : ℕ → Dict ℕ → Attached → Type 0
FullyGuarded size pids r =
    (w : ℕ)
    → 1 ≤ w
    → w ≤ size
    → (g : Guard) × (lookup w r.owner.worker_scopes ≡ some g) × (lookup w pids ≡ some g.pid)

finish-FullyGuarded :
    (b : Bool) (c : Creation) (size : ℕ) (pids : Dict ℕ) (o : Owner)
    → missing_in pids (ids_from 1 size) ≡ []
    → (b ≡ false → All (λ p. Guards p.0 p.1 c.created) (pairs_of pids (ids_from 1 size)))
    → (finish_with b c o).end ≡ attached
    → FullyGuarded size pids (finish_with b c o)
unfolding finish_with
finish-FullyGuarded true c size pids o m h e = absurd (cc)
finish-FullyGuarded false c size pids o m h e = λ w l k.
    let (pid, f, a) =
      missing-lookup pids w (ids_from 1 size) m (Among-ids w 1 size l (omega arith)) in
    let (g, q, r) = Among-All (λ p. Guards p.0 p.1 c.created) (w, pid) _ a (h refl) in
    (g, q, f ∙ ap some (sym r))

attach_found-FullyGuarded :
    (limited : Bool) (adoption : ℕ → Adoption) (size : ℕ) (pids : Dict ℕ) (missing : List ℕ)
    (o : Owner)
    → missing_in pids (ids_from 1 size) ≡ missing
    → (attach_found limited adoption (ids_from 1 size) pids missing o).end ≡ attached
    → FullyGuarded size pids (attach_found limited adoption (ids_from 1 size) pids missing o)
unfolding attach_found
attach_found-FullyGuarded limited adoption size pids [] o m e =
    let c = create_all limited adoption (pairs_of pids (ids_from 1 size)) nothing_created in
    finish-FullyGuarded c.raised c size pids (stop_worker_scopes o) m
      (create_all-Guards limited adoption (pairs_of pids (ids_from 1 size)) nothing_created
        (pairs-IsFresh pids 1 size))
      e
attach_found-FullyGuarded true adoption size pids (w ∷ ws) o m e = cc
attach_found-FullyGuarded false adoption size pids (w ∷ ws) o m e = cc

-- Where `attach_worker_guards` has attached guards, every worker from 1 to the size of the pool has
-- one, of the process that the poll which ended the search shows for the worker.
pub attach_worker_guards-FullyGuarded :
    (alive limited : Bool) (size : ℕ) (polls : List (Dict ℕ)) (adoption : ℕ → Adoption) (o : Owner)
    → (attach_worker_guards alive limited size polls adoption o).end ≡ attached
    → FullyGuarded size
        (poll_workers (ids_from 1 size) [] polls)
        (attach_worker_guards alive limited size polls adoption o)
unfolding attach_worker_guards
attach_worker_guards-FullyGuarded false limited size polls adoption o e = cc
attach_worker_guards-FullyGuarded true limited size polls adoption o e =
    let pids = poll_workers (ids_from 1 size) [] polls in
    attach_found-FullyGuarded limited adoption size pids (missing_in pids (ids_from 1 size)) o refl
      e
