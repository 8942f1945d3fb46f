-- ===== src/Watchdog/Lifecycle/Single.antt =====
-- pyleaner/watchdog.py: no second monitor or receiver comes of `Watchdog.start`.
use py_leaner.Base.{
  ℕ, ◌+◌, Bool, true, false, ◌≡◌, refl, ap, ◌∙◌, ◌⊎◌, inl, inr, Option, none, some, is_some, [],
  ◌∷◌, arith, if◌then◌else◌,
}
use py_leaner.Task.{Error}
use py_leaner.Watchdog.Recovery.{Owner, start_watching}
use py_leaner.Watchdog.Lifecycle.{
  Lifecycle, is_running, new_monitor, new_receiver, start_receiver, start_from, start,
}
use py_leaner.Watchdog.Lifecycle.Alone.{IsAlone, IsAlone-idle, IsAlone-running}

pub record IsSingle (s : Lifecycle) : Type 0 where
  pub monitor : IsAlone s.process s.monitors
  pub receiver : IsAlone s.thread s.receivers
  pub on_queues : s.queues ≡ s.process
  pub serving : (s.stopping ≡ false) ⊎ (s.monitors ≡ [])
  pub unstarted : s.process_started ≡ false → s.monitors ≡ []

pub start_receiver-IsSingle : (s : Lifecycle) → IsSingle s → IsSingle (start_receiver s)
unfolding start_receiver
start_receiver-IsSingle s w = by_running (is_running s.thread s.receivers) refl
  where
    by_running :
        (b : Bool)
        → is_running s.thread s.receivers ≡ b
        → IsSingle (if b then s else new_receiver s)
    by_running true t = w
    by_running false f = record {
      monitor = w.monitor;
      receiver = inr (ap (◌∷◌ (s.made + 1)) (IsAlone-idle s.thread s.receivers w.receiver f));
      on_queues = w.on_queues;
      serving = w.serving;
      unstarted = w.unstarted;
    }

pub new_monitor-IsSingle :
    (raises : Bool) (s : Lifecycle)
    → IsSingle s
    → is_running s.process s.monitors ≡ false
    → IsSingle (new_monitor raises s)
new_monitor-IsSingle true s w f = record {
  monitor = inl (IsAlone-idle s.process s.monitors w.monitor f);
  receiver = w.receiver;
  on_queues = refl;
  serving = inl refl;
  unstarted = λ u. IsAlone-idle s.process s.monitors w.monitor f;
}
new_monitor-IsSingle false s w f = record {
  monitor = inr (ap (◌∷◌ (s.made + 1)) (IsAlone-idle s.process s.monitors w.monitor f));
  receiver = w.receiver;
  on_queues = refl;
  serving = inl refl;
  unstarted = λ u. absurd (cc u);
}

-- One monitor that runs, on the queues held, with one receiver, which serves
pub record IsWatched (s : Lifecycle) : Type 0 where
  pub one_monitor : (n : ℕ) × (s.process ≡ some n) × (s.queues ≡ some n) × (s.monitors ≡ n ∷ [])
  pub one_receiver : (m : ℕ) × (s.thread ≡ some m) × (s.receivers ≡ m ∷ [])
  pub serving : s.stopping ≡ false

pub start_receiver-IsWatched :
    (s : Lifecycle)
    → IsSingle s
    → is_running s.process s.monitors ≡ true
    → s.stopping ≡ false
    → IsWatched (start_receiver s)
unfolding start_receiver
start_receiver-IsWatched s w r q =
    let (n, p, ms) = IsAlone-running s.process s.monitors w.monitor r in
    by_running (n, p, w.on_queues ∙ p, ms) (is_running s.thread s.receivers) refl
  where
    by_running :
        (n : ℕ) × (s.process ≡ some n) × (s.queues ≡ some n) × (s.monitors ≡ n ∷ [])
        → (b : Bool) → is_running s.thread s.receivers ≡ b
        → IsWatched (if b then s else new_receiver s)
    by_running m true t = record {
      one_monitor = m;
      one_receiver = IsAlone-running s.thread s.receivers w.receiver t;
      serving = q;
    }
    by_running m false f = record {
      one_monitor = m;
      one_receiver = (
        s.made + 1,
        refl,
        ap (◌∷◌ (s.made + 1)) (IsAlone-idle s.thread s.receivers w.receiver f),
      );
      serving = q;
    }

pub running-serves :
    (s : Lifecycle) → IsSingle s → is_running s.process s.monitors ≡ true → s.stopping ≡ false
running-serves s w r = elim w.serving [
  | inl e ↦ e
  | inr e ↦ let (n, p, ms) = IsAlone-running s.process s.monitors w.monitor r in cc
]

pub new_monitor-running :
    (s : Lifecycle) → is_running (new_monitor false s).process (new_monitor false s).monitors ≡ true
unfolding is_running
new_monitor-running s = ground (arith)

pub start-IsWatched :
    (raises : Bool) (root : Option ℕ) (s : Lifecycle) (o : Owner)
    → IsSingle s
    → (start raises root s o).2 ≡ false
    → IsWatched (start raises root s o).0
unfolding start
start-IsWatched raises root s o w = by_running raises (is_running s.process s.monitors) refl
  where
    by_running :
        (raises b : Bool)
        → is_running s.process s.monitors ≡ b
        → (start_from b raises root s o).2 ≡ false
        → IsWatched (start_from b raises root s o).0
    by_running raises true t h = start_receiver-IsWatched s w t (running-serves s w t)
    by_running true false f h = absurd (cc h)
    by_running false false f h =
        start_receiver-IsWatched (new_monitor false s) (new_monitor-IsSingle false s w f)
          (new_monitor-running s) refl

-- Only a start of a monitor that raises makes `start` raise.
pub start-quiet :
    (e : Option Error) (root : Option ℕ) (s : Lifecycle) (o : Owner)
    → (if (start (is_some e) root s o).2 then e else none) ≡ none
    → (start (is_some e) root s o).2 ≡ false
unfolding start
start-quiet e root s o = by_running e (is_running s.process s.monitors)
  where
    by_running :
        (e : Option Error) (b : Bool)
        → (if (start_from b (is_some e) root s o).2 then e else none) ≡ none
        → (start_from b (is_some e) root s o).2 ≡ false
    by_running e true h = refl
    by_running none false h = refl
    by_running (some x) false h = absurd (cc h)

pub start-root :
    (raises : Bool) (root : Option ℕ) (s : Lifecycle) (o : Owner)
    → (start raises root s o).2 ≡ false
    → (start raises root s o).1 ≡ start_watching root o
unfolding start
start-root raises root s o = by_running raises (is_running s.process s.monitors)
  where
    by_running :
        (raises b : Bool)
        → (start_from b raises root s o).2 ≡ false
        → (start_from b raises root s o).1 ≡ start_watching root o
    by_running raises true h = refl
    by_running true false h = absurd (cc h)
    by_running false false h = refl

pub start-IsSingle :
    (raises : Bool) (root : Option ℕ) (s : Lifecycle) (o : Owner)
    → IsSingle s
    → IsSingle (start raises root s o).0
unfolding start
start-IsSingle raises root s o w = by_running raises (is_running s.process s.monitors) refl
  where
    by_running :
        (raises b : Bool)
        → is_running s.process s.monitors ≡ b
        → IsSingle (start_from b raises root s o).0
    by_running raises true t = start_receiver-IsSingle s w
    by_running true false f = new_monitor-IsSingle true s w f
    by_running false false f =
        start_receiver-IsSingle (new_monitor false s) (new_monitor-IsSingle false s w f)
