-- ===== src/Client/Messages/Responses.antt =====
-- pyleaner/client.py: each response goes to the request with its id.
use py_leaner.Base.{
  ℕ, ◌≡◌, refl, sym, ap, ◌∙◌, true, false, Option, none, some, inl, inr, List, [], ◌∷◌, ◌++◌, arith,
  Option-cases, if◌then◌else◌, ◌==◌,
}
use mathlib.Core.List.{append_assoc, append-nil}
use py_leaner.Base.Text.{codes}
use py_leaner.Base.Dict.{lookup, insert, lookup-insert}
use py_leaner.Base.Json.{Json, null, bool, num, str, arr, obj, Fields, get_field}
use py_leaner.Client.Messages.Routed.{notification-pending}
use py_leaner.Client.Messages.{
  Inbox, respond_to, handle_response, handle_object, handle_message, or_empty, Turn, over, blank,
  received, read_stdout,
}

-- The id under which a response is looked up
abbrev pub response_id : Json → Option ℕ
response_id (num n) = some n
response_id (bool true) = some 1
response_id (bool false) = some 0
response_id _ = none

abbrev pub if_id : ℕ → Option ℕ → Json → List Json
if_id n none message = []
if_id n (some k) message = if n == k then message ∷ [] else []

abbrev pub if_response : ℕ → Option Json → Option Json → Json → List Json
if_response n (some id) none message = if_id n (response_id id) message
if_response n _ _ message = []

abbrev pub in_message : ℕ → Option Json → List Json
in_message n (some (obj fs)) =
    if_response n (get_field (codes "id") fs) (get_field (codes "method") fs) (obj fs)
in_message n _ = []

-- The responses to a request, among what is read
abbrev pub responses : ℕ → List Turn → List Json
responses n [] = []
responses n (received m ∷ turns) = in_message n m ++ responses n turns
responses n (_ ∷ turns) = responses n turns

abbrev pub and_more : List Json → Option (List Json) → Option (List Json)
and_more js none = none
and_more js (some q) = some (q ++ js)

-- The queues after the message are those before, with the responses.
abbrev Adds : (ℕ → List Json) → Inbox → Inbox → Type 0
Adds js i j = (n : ℕ) → lookup n j.pending ≡ and_more (js n) (lookup n i.pending)

and_more-nil : (o : Option (List Json)) → o ≡ and_more [] o
and_more-nil none = refl
and_more-nil (some q) = ap some (sym (append-nil q))

Adds-nothing : (i j : Inbox) → j.pending ≡ i.pending → Adds (λ n. []) i j
Adds-nothing i j e n = ap (lookup n) e ∙ and_more-nil (lookup n i.pending)

respond_none : (id : ℕ) (m : Json) (i : Inbox) → lookup id i.pending ≡ none → respond_to id m i ≡ i
unfolding respond_to
respond_none id m i e = rw (e, respond_to) refl

respond_some :
    (id : ℕ) (m : Json) (i : Inbox) (q : List Json)
    → lookup id i.pending ≡ some q
    → respond_to id m i ≡ record i { pending = insert id (q ++ m ∷ []) i.pending }
unfolding respond_to
respond_some id m i q e = rw (e, respond_to) refl

-- In the queue with the id there is one response more.
respond-Adds :
    (id : ℕ) (m : Json) (i : Inbox) → Adds (λ n. if_id n (some id) m) i (respond_to id m i)
respond-Adds id m i n = elim (Option-cases (lookup id i.pending)) [
  | inl e ↦
      ap (λ j. lookup n j.pending) (respond_none id m i e)
      ∙ grind (arith, and_more-nil (lookup n i.pending), e)
  | inr (q, e) ↦
      ap (λ j. lookup n j.pending) (respond_some id m i q e)
      ∙ lookup-insert n id (q ++ m ∷ []) i.pending
      ∙ grind (arith, and_more-nil (lookup n i.pending), e)
]

responded :
    (id : ℕ) (m : Json) (i j : Inbox) → respond_to id m i ≡ j → Adds (λ n. if_id n (some id) m) i j
responded id m i j e n = sym (ap (λ k. lookup n k.pending) e) ∙ respond-Adds id m i n

response-Adds :
    (id message : Json) (i j : Inbox)
    → handle_response id message i ≡ some j
    → Adds (λ n. if_id n (response_id id) message) i j
unfolding handle_response
response-Adds (num k) m i j h = responded k m i j (cc)
response-Adds (bool true) m i j h = responded 1 m i j (cc)
response-Adds (bool false) m i j h = responded 0 m i j (cc)
response-Adds (arr js) m i j h = cc
response-Adds (obj fs) m i j h = cc
response-Adds null m i j h = Adds-nothing i j (cc)
response-Adds (str s) m i j h = Adds-nothing i j (cc)

object-Adds :
    (id method : Option Json) (fs : Fields) (i j : Inbox)
    → handle_object id method fs i ≡ some j
    → Adds (λ n. if_response n id method (obj fs)) i j
unfolding handle_object
object-Adds (some id) none fs i j h = response-Adds id (obj fs) i j h
object-Adds (some id) (some m) fs i j h = Adds-nothing i j (cc)
object-Adds none (some m) fs i j h =
    Adds-nothing i j (notification-pending m (or_empty (get_field (codes "params") fs)) i j h)
object-Adds none none fs i j h = Adds-nothing i j (cc)

message-Adds :
    (m : Option Json) (i j : Inbox) → handle_message m i ≡ some j → Adds (λ n. in_message n m) i j
unfolding handle_message
message-Adds none i j h = Adds-nothing i j (cc)
message-Adds (some (obj fs)) i j h =
    object-Adds (get_field (codes "id") fs) (get_field (codes "method") fs) fs i j h
message-Adds (some (str s)) i j h = Adds-nothing i j (ground (arith, h))
message-Adds (some (arr js)) i j h = Adds-nothing i j (ground (arith, h))
message-Adds (some null) i j h = cc
message-Adds (some (bool b)) i j h = cc
message-Adds (some (num n)) i j h = cc

and_more-append :
    (xs ys : List Json) (o : Option (List Json))
    → and_more ys (and_more xs o) ≡ and_more (xs ++ ys) o
and_more-append xs ys none = refl
and_more-append xs ys (some q) = ap some (append_assoc q xs ys)

read_on :
    (m : Option Json) (turns : List Turn) (i j : Inbox)
    → handle_message m i ≡ some j
    → read_stdout (received m ∷ turns) i ≡ read_stdout turns j
unfolding read_stdout
read_on m turns i j e = rw (e, read_stdout) refl

read_ends :
    (m : Option Json) (turns : List Turn) (i : Inbox)
    → handle_message m i ≡ none
    → read_stdout (received m ∷ turns) i ≡ (i, false)
unfolding read_stdout
read_ends m turns i e = rw (e, read_stdout) refl

-- As long as the reader thread reads, a pending request has in its queue, behind what was there, the
-- responses with its id that were read, each once and in their order, whatever notifications,
-- requests of the server and other responses stand between them.
pub read_stdout-responses :
    (turns : List Turn) (i j : Inbox) (n : ℕ)
    → read_stdout turns i ≡ (j, true)
    → lookup n j.pending ≡ and_more (responses n turns) (lookup n i.pending)
unfolding read_stdout
read_stdout-responses [] i j n h = Adds-nothing i j (cc (ap (λ p. p.0) h)) n
read_stdout-responses (over ∷ turns) i j n h = absurd (cc (ap (λ p. p.1) h))
read_stdout-responses (blank ∷ turns) i j n h = read_stdout-responses turns i j n h
read_stdout-responses (received m ∷ turns) i j n h = elim (Option-cases (handle_message m i)) [
  | inl e ↦ absurd (cc (ap (λ p. p.1) (sym (read_ends m turns i e) ∙ h)))
  | inr (k, e) ↦
      read_stdout-responses turns k j n (sym (read_on m turns i k e) ∙ h)
      ∙ ap (and_more (responses n turns)) (message-Adds m i k e n)
      ∙ and_more-append (in_message n m) (responses n turns) (lookup n i.pending)
]
