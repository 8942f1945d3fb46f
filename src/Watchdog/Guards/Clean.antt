-- ===== src/Watchdog/Guards/Clean.antt =====
-- pyleaner/watchdog.py: `attach_worker_guards` loses no scope that it has started.
use py_leaner.Base.{
  ℕ, zero, suc, ◌<◌, Bool, true, false, List, [], ◌∷◌, ◌≡◌, refl, sym, subst, ◌⊎◌, inl, inr, arith,
  ◌==◌, All, All-map, Among, Among-append_right, Option-cases,
}
use py_leaner.Base.Dict.{Dict, lookup}
use py_leaner.Watchdog.Recovery.{Owner, stop_worker_scopes}
use py_leaner.Watchdog.Guards.{
  Adoption, Creation, created_units, create, create_all, ids_from, missing_in, poll_workers,
  pairs_of, Attached, finish, finish_with, attach_found, attach_worker_guards, nothing_created,
}
use py_leaner.Watchdog.Guards.Tracked.{
  IsTracked, IsFresh, IsTimely, Keeps, create-Keeps, create_all_on, create_all_ends, create-IsFresh,
}

pub create_all-Keeps :
    (limited : Bool) (adoption : ℕ → Adoption) (found : List (ℕ × ℕ)) (c : Creation)
    → ((w : ℕ) → IsTimely (adoption w))
    → IsFresh found c.created
    → c.raised ≡ false
    → IsTracked c
    → Keeps (create_all limited adoption found c)
unfolding create_all
create_all-Keeps limited adoption [] c l f r h = inl (r, h)
create_all-Keeps limited adoption ((w, pid) ∷ found) c l f r h =
    let d = create limited adoption w pid c in
    elim (create-Keeps limited adoption w pid c (l w) f.0 r h) [
      | inl (e, t) ↦ subst Keeps (sym (create_all_on limited adoption w pid found c e)) (
          create_all-Keeps limited adoption found d l
            (create-IsFresh limited adoption w pid c found f) e t)
      | inr (e, t) ↦
          subst Keeps (sym (create_all_ends limited adoption w pid found c e)) (inr (e, t))
    ]

-- The ids of the pool are distinct.
pairs-IsAbove :
    (pids : Dict ℕ) (w first n : ℕ)
    → w < first
    → All (λ p. (w == p.0) ≡ false) (pairs_of pids (ids_from first n))
unfolding pairs_of ids_from
pairs-IsAbove pids w first zero h = tt
pairs-IsAbove pids w first (suc n) h = elim (Option-cases (lookup first pids)) [
  | inl e ↦ rw (e, pairs_of) (pairs-IsAbove pids w (suc first) n (omega arith))
  | inr (pid, e) ↦ rw (e, pairs_of) (ground arith, pairs-IsAbove pids w (suc first) n (omega arith))
]

pub pairs-IsFresh : (pids : Dict ℕ) (first n : ℕ) → IsFresh (pairs_of pids (ids_from first n)) []
unfolding pairs_of ids_from
pairs-IsFresh pids first zero = tt
pairs-IsFresh pids first (suc n) = elim (Option-cases (lookup first pids)) [
  | inl e ↦ rw (e, pairs_of) (pairs-IsFresh pids (suc first) n)
  | inr (pid, e) ↦
      rw (e, pairs_of)
        (
          refl,
          pairs-IsAbove pids first (suc first) n (omega arith),
          pairs-IsFresh pids (suc first) n,
        )
]

-- Each scope that was started guards a worker of the owner, or has been stopped.
abbrev pub IsClean : Attached → Type 0
IsClean r =
    All (λ u. Among u (created_units r.owner.worker_scopes) ⊎ Among u r.owner.stopped) r.started

finish-IsClean : (c : Creation) (o : Owner) → Keeps c → IsClean (finish c o)
unfolding finish_with
finish-IsClean c o (inl (e, h)) =
    subst (λ b. IsClean (finish_with b c o)) (sym e) (All-map _ _ c.started (λ u m. inl m) h)
finish-IsClean c o (inr (e, h)) =
    subst (λ b. IsClean (finish_with b c o)) (sym e)
      (All-map _ _ c.started (λ u m. inr (Among-append_right u o.stopped c.released m)) h)

attach_found-IsClean :
    (limited : Bool) (adoption : ℕ → Adoption) (size : ℕ) (pids : Dict ℕ) (missing : List ℕ)
    (o : Owner)
    → ((w : ℕ) → IsTimely (adoption w))
    → IsClean (attach_found limited adoption (ids_from 1 size) pids missing o)
unfolding attach_found
attach_found-IsClean limited adoption size pids [] o l = finish-IsClean _ (stop_worker_scopes o) (
    create_all-Keeps limited adoption (pairs_of pids (ids_from 1 size)) nothing_created l
      (pairs-IsFresh pids 1 size) refl tt)
attach_found-IsClean true adoption size pids (w ∷ ws) o l = tt
attach_found-IsClean false adoption size pids (w ∷ ws) o l = tt

-- However the making of the scopes goes, as long as no `busctl` and no `systemctl show` is cut short
-- at its timeout and no `systemctl show` raises otherwise, each scope that `attach_worker_guards` has
-- started is afterwards that of a guard that the owner holds, or has been stopped, on each of its ways
-- out.
pub attach_worker_guards-IsClean :
    (alive limited : Bool) (size : ℕ) (polls : List (Dict ℕ)) (adoption : ℕ → Adoption) (o : Owner)
    → ((w : ℕ) → IsTimely (adoption w))
    → IsClean (attach_worker_guards alive limited size polls adoption o)
unfolding attach_worker_guards
attach_worker_guards-IsClean false limited size polls adoption o l = tt
attach_worker_guards-IsClean true limited size polls adoption o l =
    let pids = poll_workers (ids_from 1 size) [] polls in
    attach_found-IsClean limited adoption size pids (missing_in pids (ids_from 1 size)) o l
