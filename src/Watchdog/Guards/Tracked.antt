-- ===== src/Watchdog/Guards/Tracked.antt =====
-- pyleaner/watchdog.py: one turn of the loop that makes the scopes, and what it keeps.
use py_leaner.Base.{
  ℕ, Bool, true, false, List, [], ◌∷◌, ◌++◌, ◌≡◌, ◌≢◌, refl, sym, ap, subst, ◌⊎◌, inl, inr, arith,
  ◌==◌, All, All-map, All-append, Among, Among-append, Among-append_right, Bool-cases,
}
use py_leaner.Base.Text.{Text}
use py_leaner.Base.Dict.{Dict, insert, has_key, lookup-insert}
use py_leaner.Watchdog.Types.{Guard}
use py_leaner.Watchdog.Guards.{
  Call, raises, cut_short, returns, Adoption, ScopeEnd, made, not_made, stopped, left, shown_scope,
  started_scope, systemd_scope_for_pid, Creation, created_units, abandon, add_guard, adopt, create,
  create_all,
}

-- Every scope that was started is that of a guard.
abbrev pub IsTracked : Creation → Type 0
IsTracked c = All (λ u. Among u (created_units c.created)) c.started

-- The ids that are still to come are in no guard, and each comes once.
abbrev pub IsFresh : List (ℕ × ℕ) → Dict Guard → Type 0
IsFresh [] gs = Unit
IsFresh ((w, pid) ∷ found) gs =
    (has_key w gs ≡ false) × All (λ p. (w == p.0) ≡ false) found × IsFresh found gs

units-insert :
    (w : ℕ) (g : Guard) (gs : Dict Guard)
    → has_key w gs ≡ false
    → created_units (insert w g gs) ≡ created_units gs ++ g.unit ∷ []
unfolding created_units
units-insert w g [] h = refl
units-insert w g ((v, f) ∷ gs) h = elim (Bool-cases (w == v)) [
  | inl e ↦ absurd (cc (rw e at h))
  | inr e ↦ rw e (ap (λ us. f.unit ∷ us) (units-insert w g gs (rw e at h)))
]

has_key-insert_ne :
    (j w : ℕ) (g : Guard) (gs : Dict Guard)
    → (w == j) ≡ false
    → has_key j gs ≡ false
    → has_key j (insert w g gs) ≡ false
has_key-insert_ne j w g gs n h = ground (arith, lookup-insert j w g gs, n, h)

insert-IsFresh :
    (w : ℕ) (g : Guard) (gs : Dict Guard) (found : List (ℕ × ℕ))
    → All (λ p. (w == p.0) ≡ false) found
    → IsFresh found gs
    → IsFresh found (insert w g gs)
insert-IsFresh w g gs [] n h = tt
insert-IsFresh w g gs ((j, pid) ∷ found) n h =
    (has_key-insert_ne j w g gs n.0 h.0, h.1, insert-IsFresh w g gs found n.1 h.2)

-- One more guard, with or without a scope that has been started
guarded-IsTracked :
    (w : ℕ) (g : Guard) (c : Creation)
    → has_key w c.created ≡ false
    → IsTracked c
    → IsTracked (record c { created = insert w g c.created })
guarded-IsTracked w g c n h =
    All-map _ _ c.started
      (λ u m.
        subst (Among u) (sym (units-insert w g c.created n))
          (Among-append u (created_units c.created) (g.unit ∷ []) m))
      h

scoped-IsTracked :
    (w : ℕ) (g : Guard) (c : Creation)
    → has_key w c.created ≡ false
    → IsTracked c
    → IsTracked (record c { created = insert w g c.created; started = c.started ++ g.unit ∷ [] })
scoped-IsTracked w g c n h = All-append _ c.started (g.unit ∷ []) (guarded-IsTracked w g c n h) (
  subst (Among g.unit) (sym (units-insert w g c.created n))
      (Among-append_right g.unit (created_units c.created) (g.unit ∷ []) (inl refl)),
  tt,
)

abbrev pub IsReleased : Creation → Type 0
IsReleased c = All (λ u. Among u c.released) c.started

abandon-IsReleased : (c : Creation) → IsTracked c → IsReleased (abandon c)
unfolding abandon
abandon-IsReleased c h =
    All-map _ _ c.started (λ u m. Among-append_right u c.released (created_units c.created) m) h

-- A scope that has been started and stopped again, where the loop ends
stopped-IsReleased :
    (u : Text) (c : Creation)
    → IsTracked c
    → IsReleased
        (abandon (record c { started = c.started ++ u ∷ []; released = c.released ++ u ∷ [] }))
unfolding abandon
stopped-IsReleased u c h =
    let us = created_units c.created in
    All-append _ c.started (u ∷ [])
      (All-map _ _ c.started (λ v m. Among-append_right v (c.released ++ u ∷ []) us m) h)
      (
        Among-append u (c.released ++ u ∷ []) us
            (Among-append_right u c.released (u ∷ []) (inl refl)),
        tt,
      )

-- The loop goes on, or it has raised and everything is stopped.
abbrev pub Keeps : Creation → Type 0
Keeps c = ((c.raised ≡ false) × IsTracked c) ⊎ ((c.raised ≡ true) × IsReleased c)

adopt-Keeps :
    (w pid : ℕ) (a : Adoption) (e : ScopeEnd) (c : Creation)
    → e ≢ left
    → has_key w c.created ≡ false
    → c.raised ≡ false
    → IsTracked c
    → Keeps (adopt w pid a e c)
unfolding adopt add_guard abandon
adopt-Keeps w pid a (made path) c l n r h = inl (r, scoped-IsTracked w _ c n h)
adopt-Keeps w pid a not_made c l n r h = inr (refl, abandon-IsReleased c h)
adopt-Keeps w pid a stopped c l n r h = inr (refl, stopped-IsReleased a.unit c h)
adopt-Keeps w pid a left c l n r h = absurd (l refl)

-- No command takes so long that it is cut short, and no `systemctl show` raises otherwise.
abbrev pub IsTimely : Adoption → Type 0
IsTimely a = (a.busctl ≢ cut_short) × (a.show ≢ cut_short) × (a.show ≢ raises)

scope-left : (a : Adoption) → IsTimely a → systemd_scope_for_pid a ≢ left
unfolding systemd_scope_for_pid started_scope shown_scope
scope-left a (b, t, n) = by_calls a.busctl a.show b t n
  where
    by_calls :
        (busctl show : Call)
        → busctl ≢ cut_short
        → show ≢ cut_short
        → show ≢ raises
        → started_scope busctl show ≢ left
    by_calls raises show b t n = λ e. cc
    by_calls cut_short show b t n = absurd (b refl)
    by_calls (returns false output) show b t n = λ e. cc
    by_calls (returns true output) raises b t n = absurd (n refl)
    by_calls (returns true output) cut_short b t n = absurd (t refl)
    by_calls (returns true output) (returns false path) b t n = λ e. cc
    by_calls (returns true output) (returns true []) b t n = λ e. cc
    by_calls (returns true output) (returns true (c ∷ path)) b t n = λ e. cc

pub create-Keeps :
    (limited : Bool) (adoption : ℕ → Adoption) (w pid : ℕ) (c : Creation)
    → IsTimely (adoption w)
    → has_key w c.created ≡ false
    → c.raised ≡ false
    → IsTracked c
    → Keeps (create limited adoption w pid c)
unfolding create add_guard
create-Keeps true adoption w pid c l n r h =
    adopt-Keeps w pid (adoption w) (systemd_scope_for_pid (adoption w)) c
      (scope-left (adoption w) l) n r h
create-Keeps false adoption w pid c l n r h = inl (r, guarded-IsTracked w _ c n h)

adopt-IsFresh :
    (w pid : ℕ) (a : Adoption) (e : ScopeEnd) (c : Creation) (found : List (ℕ × ℕ))
    → IsFresh ((w, pid) ∷ found) c.created
    → IsFresh found (adopt w pid a e c).created
unfolding adopt add_guard abandon
adopt-IsFresh w pid a (made path) c found f = insert-IsFresh w _ c.created found f.1 f.2
adopt-IsFresh w pid a not_made c found f = f.2
adopt-IsFresh w pid a stopped c found f = f.2
adopt-IsFresh w pid a left c found f = f.2

pub create-IsFresh :
    (limited : Bool) (adoption : ℕ → Adoption) (w pid : ℕ) (c : Creation) (found : List (ℕ × ℕ))
    → IsFresh ((w, pid) ∷ found) c.created
    → IsFresh found (create limited adoption w pid c).created
unfolding create add_guard
create-IsFresh true adoption w pid c found f =
    adopt-IsFresh w pid (adoption w) (systemd_scope_for_pid (adoption w)) c found f
create-IsFresh false adoption w pid c found f = insert-IsFresh w _ c.created found f.1 f.2

pub create_all_on :
    (limited : Bool) (adoption : ℕ → Adoption) (w pid : ℕ) (found : List (ℕ × ℕ)) (c : Creation)
    → (create limited adoption w pid c).raised ≡ false
    → create_all limited adoption ((w, pid) ∷ found) c
      ≡ create_all limited adoption found (create limited adoption w pid c)
unfolding create_all create
create_all_on limited adoption w pid found c e = rw (e, create_all) refl

pub create_all_ends :
    (limited : Bool) (adoption : ℕ → Adoption) (w pid : ℕ) (found : List (ℕ × ℕ)) (c : Creation)
    → (create limited adoption w pid c).raised ≡ true
    → create_all limited adoption ((w, pid) ∷ found) c ≡ create limited adoption w pid c
unfolding create_all create
create_all_ends limited adoption w pid found c e = rw (e, create_all) refl
