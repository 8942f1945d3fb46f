-- ===== src/Watchdog/Lifecycle/Stopped.antt =====
-- pyleaner/watchdog.py: `Watchdog.stop` leaves nothing that the watchdog does not hold.
use py_leaner.Base.{
  ℕ, Bool, true, false, not, ◌&&◌, ◌≡◌, refl, ◌∙◌, inl, inr, some, List, [], is_some, if_false,
}
use py_leaner.Watchdog.Types.{Event}
use py_leaner.Watchdog.Recovery.{Owner}
use py_leaner.Watchdog.Lifecycle.{Lifecycle, initial, without, Leaving, released, stop_from, stop}
use py_leaner.Watchdog.Lifecycle.Alone.{without_self, without-IsAlone, without_nil}
use py_leaner.Watchdog.Lifecycle.Single.{IsSingle}

released-IsSingle :
    (l : Leaving) (s : Lifecycle)
    → IsSingle s
    → l.monitor_survives ≡ false
    → l.receiver_survives ≡ false
    → IsSingle (released l s)
released-IsSingle l s w m r =
    let none_left : (released l s).monitors ≡ [] =
      if_false s.monitors (without s.process s.monitors) m
      ∙ without_self s.process s.monitors w.monitor in
    record {
      monitor = none_left;
      receiver =
          if_false s.receivers (without s.thread s.receivers) r
          ∙ without_self s.thread s.receivers w.receiver;
      on_queues = refl;
      serving = inr none_left;
      unstarted = λ u. none_left;
    }

not_started : (a b : Bool) → (a && not b) ≡ true → b ≡ false
not_started true true h = cc
not_started false true h = cc
not_started a false h = refl

pub stop-IsSingle :
    (l : Leaving) (events : List Event) (s : Lifecycle) (o : Owner)
    → IsSingle s
    → l.monitor_survives ≡ false
    → l.receiver_survives ≡ false
    → IsSingle (stop l events s o).0
unfolding stop
stop-IsSingle l events s o w m r = by_started (is_some s.process && not s.process_started) refl
  where
    by_started :
        (b : Bool)
        → (is_some s.process && not s.process_started) ≡ b
        → IsSingle (stop_from b l events s o).0
    by_started true u = record {
      monitor = w.monitor;
      receiver = w.receiver;
      on_queues = w.on_queues;
      serving = inr (w.unstarted (not_started (is_some s.process) s.process_started u));
      unstarted = w.unstarted;
    }
    by_started false u = released-IsSingle l s w m r

pub monitor_ended-IsSingle :
    (n : ℕ) (s : Lifecycle)
    → IsSingle s
    → IsSingle (record s { monitors = without (some n) s.monitors })
monitor_ended-IsSingle n s w = record {
  monitor = without-IsAlone n s.process s.monitors w.monitor;
  receiver = w.receiver;
  on_queues = w.on_queues;
  serving = elim w.serving [ inl e ↦ inl e | inr e ↦ inr (without_nil n s.monitors e) ];
  unstarted = λ u. without_nil n s.monitors (w.unstarted u);
}

pub receiver_ended-IsSingle :
    (n : ℕ) (s : Lifecycle)
    → IsSingle s
    → IsSingle (record s { receivers = without (some n) s.receivers })
receiver_ended-IsSingle n s w = record {
  monitor = w.monitor;
  receiver = without-IsAlone n s.thread s.receivers w.receiver;
  on_queues = w.on_queues;
  serving = w.serving;
  unstarted = w.unstarted;
}

pub initial-IsSingle : IsSingle initial
initial-IsSingle = record {
  monitor = refl;
  receiver = refl;
  on_queues = refl;
  serving = inl refl;
  unstarted = λ u. refl;
}
