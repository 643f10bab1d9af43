-- ===== src/Publisher/Own.antt =====
-- Publisher: the events of one session, out of what happens to the publisher and all its sessions.
pub mod Runs
pub mod Running
use tcp_pubsub.PublisherSession
use tcp_pubsub.PublisherSession.{
  PublisherSession, Buffer, is_running, read_ends, write_ends, send_data_buffer,
}
use tcp_pubsub.Base.{
  ◌==◌, if◌then◌else◌, Bool-cases, ℕ, zero, suc, ◌-◌, ◌<◌, ◌≡◌, refl, inl, inr, false, List, [],
  ◌∷◌, ◌++◌, ==→≡, sym, ap, ◌∙◌, Bool, true, get_elem?, some, arith,
}
use tcp_pubsub.Base.Ids.{contains, contains-get}
use tcp_pubsub.Publisher.{
  Publisher, update, publisher_session_closed_handler, notify, on_session, Event, cancel_call,
  send_call, accept_ends, accept_goes_on, session_read_ends, session_write_ends, step,
  cancel_sessions, send_to_sessions, cancel, run,
}
use tcp_pubsub.Publisher.Message.{prepare_buffer}
use tcp_pubsub.Wire.Endian.{Host}

-- What one session gets when the sessions of a list get an event.
abbrev pub handed : ℕ → PublisherSession.Event → List ℕ → List PublisherSession.Event
handed id e [] = []
handed id e (j ∷ js) = if id == j then e ∷ handed id e js else handed id e js

-- The events that a session gets from an event of the publisher.
abbrev pub events_of : Host → ℕ → Event → Publisher → List PublisherSession.Event
events_of h id cancel_call p = handed id PublisherSession.cancel_call p.publisher_sessions
events_of h id (send_call stale payloads) p =
    if p.is_running
    then handed id (PublisherSession.send_call (prepare_buffer h stale payloads))
        p.publisher_sessions
    else []
events_of h id (accept_ends i c) p = []
events_of h id (accept_goes_on i) p = []
events_of h id (session_read_ends j i c) p = if id == j then read_ends i c ∷ [] else []
events_of h id (session_write_ends j i c) p = if id == j then write_ends i c ∷ [] else []

abbrev pub own : Host → ℕ → List Event → Publisher → List PublisherSession.Event
own h id [] p = []
own h id (e ∷ es) p = events_of h id e p ++ own h id es (step h e p)

-- The session object exists, and no accept in flight waits to start it.
pub record Exists (id : ℕ) (p : Publisher) : Type 0 where
  pub known : id < p.next_id
  pub not_accepting : contains id p.accepting ≡ false

-- One publisher became another, and its session a new one; the handlers in flight are the same.
pub record Became (id : ℕ) (p q : Publisher) (s : PublisherSession) : Type 0 where
  pub session_is : q.session id ≡ s
  pub next_id : q.next_id ≡ p.next_id
  pub accepting : q.accepting ≡ p.accepting
  pub running : q.is_running ≡ p.is_running

notify-Became : (n j id : ℕ) (p : Publisher) → Became id p (notify n j p) (p.session id)
unfolding notify publisher_session_closed_handler
notify-Became zero j id p = record {
  session_is = refl;
  next_id = refl;
  accepting = refl;
  running = refl;
}
notify-Became (suc n) j id p =
    let b = notify-Became n j id p in
    elim (Bool-cases (contains j (notify n j p).publisher_sessions)) [
      | inl here ↦ rw here (record {
        session_is = b.session_is;
        next_id = b.next_id;
        accepting = b.accepting;
        running = b.running;
      })
      | inr gone ↦ rw gone (record {
        session_is = b.session_is;
        next_id = b.next_id;
        accepting = b.accepting;
        running = b.running;
      })
    ]

pub on_session-Became :
    (j : ℕ) (op : PublisherSession → PublisherSession) (id : ℕ) (p : Publisher)
    → Became id p (on_session j op p) (if id == j then op (p.session j) else p.session id)
unfolding on_session update
on_session-Became j op id p =
    let s = op (p.session j) in
    let b =
      notify-Became (s.closed_calls - (p.session j).closed_calls) j id
        (record p { session = update p.session j s }) in
    record {
      session_is = b.session_is;
      next_id = b.next_id;
      accepting = b.accepting;
      running = b.running;
    }

run-if :
    (h : Host) (c : Bool) (e : PublisherSession.Event) (es : List PublisherSession.Event)
    (s : PublisherSession)
    → PublisherSession.run h es (if c then PublisherSession.step h e s else s)
      ≡ PublisherSession.run h (if c then e ∷ es else es) s
unfolding PublisherSession.run
run-if h true e es s = refl
run-if h false e es s = refl

same_session :
    (id j : ℕ) (op : PublisherSession → PublisherSession) (p : Publisher)
    → (if id == j then op (p.session j) else p.session id)
      ≡ (if id == j then op (p.session id) else p.session id)
same_session id j op p = elim (Bool-cases (id == j)) [
  | inl same ↦ rw same (ap (λ k. op (p.session k)) (sym (==→≡ id j same)))
  | inr other ↦ rw other refl
]

-- One session of a list gets the event, then the rest of the list.
then-Became :
    (h : Host) (e : PublisherSession.Event) (id j : ℕ) (js : List ℕ) (p q r : Publisher)
    → Became id p q (if id == j then PublisherSession.step h e (p.session j) else p.session id)
    → Became id q r (PublisherSession.run h (handed id e js) (q.session id))
    → Became id p r (PublisherSession.run h (handed id e (j ∷ js)) (p.session id))
then-Became h e id j js p q r first rest = record {
  session_is =
      rest.session_is
      ∙ ap (PublisherSession.run h (handed id e js))
          (first.session_is ∙ same_session id j (PublisherSession.step h e) p)
      ∙ run-if h (id == j) e (handed id e js) (p.session id);
  next_id = rest.next_id ∙ first.next_id;
  accepting = rest.accepting ∙ first.accepting;
  running = rest.running ∙ first.running;
}

pub stays-Became :
    (h : Host) (id : ℕ) (p : Publisher) → Became id p p (PublisherSession.run h [] (p.session id))
unfolding PublisherSession.run
stays-Became h id p = record { session_is = refl; next_id = refl; accepting = refl; running = refl }

pub sent-Became :
    (h : Host) (b : Buffer) (ids : List ℕ) (id : ℕ) (p : Publisher)
    → Became id p
        (send_to_sessions b ids p)
        (PublisherSession.run h (handed id (PublisherSession.send_call b) ids) (p.session id))
unfolding send_to_sessions PublisherSession.step
sent-Became h b [] id p = stays-Became h id p
sent-Became h b (j ∷ js) id p =
    let q = on_session j (PublisherSession.send_data_buffer b) p in
    then-Became h (PublisherSession.send_call b) id j js p q (send_to_sessions b js q)
      (on_session-Became j (PublisherSession.send_data_buffer b) id p) (sent-Became h b js id q)

pub canceled-Became :
    (h : Host) (ids : List ℕ) (id : ℕ) (p : Publisher)
    → Became id p
        (cancel_sessions ids p)
        (PublisherSession.run h (handed id PublisherSession.cancel_call ids) (p.session id))
unfolding cancel_sessions PublisherSession.step
canceled-Became h [] id p = stays-Became h id p
canceled-Became h (j ∷ js) id p =
    let q = on_session j PublisherSession.cancel p in
    then-Became h PublisherSession.cancel_call id j js p q (cancel_sessions js q)
      (on_session-Became j PublisherSession.cancel id p) (canceled-Became h js id q)

-- One session gets the event.
pub one-Became :
    (h : Host) (e : PublisherSession.Event) (id j : ℕ) (p : Publisher)
    → Became id p
        (on_session j (PublisherSession.step h e) p)
        (PublisherSession.run h (if id == j then e ∷ [] else []) (p.session id))
one-Became h e id j p =
    let q = on_session j (PublisherSession.step h e) p in
    then-Became h e id j [] p q q (on_session-Became j (PublisherSession.step h e) id p)
      (stays-Became h id q)

-- A number that is in a list is not one that is not.
pub differs :
    (id j : ℕ) (xs : List ℕ) (i : ℕ)
    → contains id xs ≡ false
    → get_elem? xs i ≡ some j
    → id == j ≡ false
differs id j xs i out at = elim (Bool-cases (id == j)) [
  | inr other ↦ other
  | inl same ↦ ground (arith, out, contains-get xs i at, ==→≡ id j same)
]
