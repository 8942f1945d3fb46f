-- ===== src/Client/Connection/Connected.antt =====
-- pyleaner/client.py: what a `connect` that does not raise leaves.
use py_leaner.Base.{
  ℕ, true, ◌≡◌, refl, ap, ◌∙◌, Option, none, some, ◌⊎◌, inl, inr, List, [], ◌∷◌, ◌++◌, arith, mem,
  is_some, Bool-cases,
}
use mathlib.Core.List.{append_assoc}
use py_leaner.Base.Text.{Text, codes}
use py_leaner.Base.Json.{Json, obj, end}
use py_leaner.Task.{Error}
use py_leaner.Client.Processes
use py_leaner.Client.Processes.{Server, Exit, add_pid}
use py_leaner.Rpc.Session.{
  Link, Answer, unsent, unavailable, refused, result, expired, requested, notified, request,
}
use py_leaner.Watchdog.Recovery.{start_watching}
use py_leaner.Watchdog.Lifecycle.Single.{
  IsSingle, IsWatched, start-IsWatched, start-root, start-quiet,
}
use py_leaner.Client.Connection.{
  Connection, initialize_params, initialize, notify, Connecting, root_of, watch, after_initialized,
  after_initialize, after_popen,
}

-- The server is the new process, which is reaped if the interpreter ends; the handshake was sent, in
-- its order; one monitor runs, on the queues held, with one receiver; and the monitor is told of the
-- server, if that lives, in a new generation.
pub record IsConnected (cwd : Text) (c : Connecting) (k k' : Connection) : Type 0 where
  pub process : k'.server.process ≡ some c.pid
  pub registered : mem c.pid k'.server.registry ≡ true
  pub handshake :
      k'.link.sent
      ≡ k.link.sent
        ++ (requested 0 (codes "initialize") (initialize_params cwd)
            ∷ notified (codes "initialized") (obj end)
            ∷ [])
  pub watched : IsWatched k'.life
  pub rooted : k'.owner ≡ start_watching (root_of c) k.owner

mem-add_pid : (pid : ℕ) (pids : List ℕ) → mem pid (add_pid pid pids) ≡ true
mem-add_pid pid pids = elim (Bool-cases (mem pid pids)) [
  | inl t ↦ ground (arith, t)
  | inr f ↦ ground (arith, f)
]

request_sent :
    (method : Text) (params : Json) (id : ℕ) (answer : Answer Json) (l : Link) (v : Json)
    → (request method params id answer l).1 ≡ inr v
    → (request method params id answer l).0.sent ≡ l.sent ++ (requested id method params ∷ [])
unfolding request
request_sent method params id (unsent e) l v h = absurd (cc h)
request_sent method params id unavailable l v h = absurd (cc h)
request_sent method params id (refused o) l v h = absurd (cc h)
request_sent method params id (result a) l v h = refl
request_sent method params id expired l v h = absurd (cc h)

-- The new server, and the message `initialize` behind those before
record HasAsked (cwd : Text) (c : Connecting) (k k' : Connection) : Type 0 where
  pub process : k'.server.process ≡ some c.pid
  pub registered : mem c.pid k'.server.registry ≡ true
  pub asked :
      k'.link.sent ≡ k.link.sent ++ (requested 0 (codes "initialize") (initialize_params cwd) ∷ [])
  pub same_life : k'.life ≡ k.life
  pub same_owner : k'.owner ≡ k.owner

after_initialized-IsConnected :
    (cwd : Text) (c : Connecting) (k k' : Connection)
    → IsSingle k'.life
    → HasAsked cwd c k k'
    → (e : Option Error)
    → (after_initialized c k' (notify e (codes "initialized") (obj end) k'.link)).1 ≡ none
    → IsConnected cwd c k
        (after_initialized c k' (notify e (codes "initialized") (obj end) k'.link)).0
unfolding notify watch
after_initialized-IsConnected cwd c k k' w a (some e) h = absurd (cc h)
after_initialized-IsConnected cwd c k k' w a none h =
    let quiet = start-quiet c.monitor_error (root_of c) k'.life k'.owner h in
    record {
      process = a.process;
      registered = a.registered;
      handshake =
          ap (λ ms. ms ++ (notified (codes "initialized") (obj end) ∷ [])) a.asked
          ∙ append_assoc k.link.sent _ _;
      watched = start-IsWatched (is_some c.monitor_error) (root_of c) k'.life k'.owner w quiet;
      rooted =
          start-root (is_some c.monitor_error) (root_of c) k'.life k'.owner quiet
          ∙ ap (start_watching (root_of c)) a.same_owner;
    }

after_initialize-IsConnected :
    (cwd : Text) (c : Connecting) (k : Connection)
    → IsSingle k.life
    → (r : Link × (Error ⊎ Json))
    → ((v : Json)
        → r.1 ≡ inr v
        → r.0.sent ≡ k.link.sent ++ (requested 0 (codes "initialize") (initialize_params cwd) ∷ []))
    → (after_initialize c (record k { server = Processes.start c.pid k.server }) r).1 ≡ none
    → IsConnected cwd c k
        (after_initialize c (record k { server = Processes.start c.pid k.server }) r).0
unfolding Processes.start
after_initialize-IsConnected cwd c k w (l, inl e) asked h = absurd (cc h)
after_initialize-IsConnected cwd c k w (l, inr v) asked h =
    after_initialized-IsConnected cwd c k
      (record k { server = Processes.start c.pid k.server; link = l }) w
      record {
        process = refl;
        registered = mem-add_pid c.pid k.server.registry;
        asked = asked v refl;
        same_life = refl;
        same_owner = refl;
      }
      c.notify_error h

pub after_popen-IsConnected :
    (cwd : Text) (c : Connecting) (k : Connection)
    → IsSingle k.life
    → (e : Option Error) → (after_popen cwd c k e).1 ≡ none
    → IsConnected cwd c k (after_popen cwd c k e).0
unfolding initialize
after_popen-IsConnected cwd c k w (some e) h = absurd (cc h)
after_popen-IsConnected cwd c k w none h =
    after_initialize-IsConnected cwd c k w
      (request (codes "initialize") (initialize_params cwd) 0 c.answer k.link)
      (request_sent (codes "initialize") (initialize_params cwd) 0 c.answer k.link) h
