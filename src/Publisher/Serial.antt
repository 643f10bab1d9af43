-- ===== src/Publisher/Serial.antt =====
-- Publisher: runs in which each accept handler is not interrupted between session->start() and
-- the list of sessions.
use tcp_pubsub.PublisherSession
use tcp_pubsub.PublisherSession.{PublisherSession, canceled, read_ends, write_ends, is_canceled}
use tcp_pubsub.PublisherSession.Lifecycle
use tcp_pubsub.PublisherSession.Cancel.{step_canceled}
use tcp_pubsub.Base.{
  ℕ, ◌≡◌, refl, List, [], ◌∷◌, ◌++◌, true, not, false, none, arith, Option-cases, get_elem?,
  remove_at, inl, inr, some, if◌then◌else◌, Bool,
}
use tcp_pubsub.Asio.{Completion, failed, done}
use tcp_pubsub.Wire.Endian.{Host}
use tcp_pubsub.Publisher.{
  Event, cancel_call, send_call, accept_ends, accept_goes_on, session_read_ends, session_write_ends,
  Publisher, step, update, run, on_accept, send, is_empty, StartResults, new, start,
}
use tcp_pubsub.Publisher.Message.{Payload, prepare_buffer}
use tcp_pubsub.Publisher.Invariant.{Gentle, Inv, on_session-Inv}
use tcp_pubsub.Publisher.Accept.{joined-Inv, joined-eq}
use tcp_pubsub.Publisher.Calls.{cancel-Inv, send_to_sessions-Inv}
use tcp_pubsub.Base.Ids.{contains, contains-remove_at, remove_at-Distinct}

-- What can happen then. An accept that ends is followed at once by the rest of its handler.
pub data SerialEvent : Type 0 where
  accepts : (index : ℕ) → Completion → SerialEvent
  cancels : SerialEvent
  sends : (stale : List ℕ) → List Payload → SerialEvent
  read_of write_of : (id index : ℕ) → Completion → SerialEvent

-- The steps of the publisher that such an event stands for.
abbrev pub steps : SerialEvent → List Event
steps (accepts i failed) = accept_ends i failed ∷ []
steps (accepts i (done bytes)) = accept_ends i (done bytes) ∷ accept_goes_on 0 ∷ []
steps cancels = cancel_call ∷ []
steps (sends stale payloads) = send_call stale payloads ∷ []
steps (read_of id i c) = session_read_ends id i c ∷ []
steps (write_of id i c) = session_write_ends id i c ∷ []

abbrev pub serial : List SerialEvent → List Event
serial [] = []
serial (e ∷ es) = steps e ++ serial es

step-Gentle :
    (h : Host) (e : PublisherSession.Event)
    → PublisherSession.step h e PublisherSession.new ≡ PublisherSession.new
    → Gentle (PublisherSession.step h e)
step-Gentle h e n = record {
  started = λ s v. Lifecycle.step-Inv h e s v;
  fresh = n;
  closed = λ s gone. let f = step_canceled h e s gone in (f.state, f.calls);
}

read-Gentle : (h : Host) (i : ℕ) (c : Completion) → Gentle (PublisherSession.step h (read_ends i c))
read-Gentle h i c =
    step-Gentle h (read_ends i c) (unfold PublisherSession.step PublisherSession.new in refl)

write-Gentle :
    (h : Host) (i : ℕ) (c : Completion) → Gentle (PublisherSession.step h (write_ends i c))
write-Gentle h i c =
    step-Gentle h (write_ends i c) (unfold PublisherSession.step PublisherSession.new in refl)

-- A failed accept only ends the wait.
refused-Inv :
    (p : Publisher) (i : ℕ) {id : ℕ}
    → Inv p
    → get_elem? p.accepting i ≡ some id
    → Inv (record p { accepting = remove_at p.accepting i })
refused-Inv p i v here = record {
  distinct = v.distinct;
  listed = v.listed;
  unlisted = v.unlisted;
  known = v.known;
  unused = v.unused;
  accepting_distinct = remove_at-Distinct p.accepting i v.accepting_distinct;
  accepting_fresh = λ j m.
      v.accepting_fresh j
        (ground (arith, contains-remove_at p.accepting i j v.accepting_distinct here));
  none_accepted = v.none_accepted;
  none_missing = v.none_missing;
}

no_accept :
    (h : Host) (i : ℕ) (c : Completion) (p : Publisher)
    → get_elem? p.accepting i ≡ none
    → step h (accept_ends i c) p ≡ p
unfolding step
no_accept h i c p gone = rw (gone, step)

no_accepted : (h : Host) (p : Publisher) → p.accepted ≡ [] → step h (accept_goes_on 0) p ≡ p
unfolding step
no_accepted h p none_left = ground arith

accept-Inv :
    (h : Host) (i : ℕ) (c : Completion) (p : Publisher)
    → Inv p
    → Inv (run h (steps (accepts i c)) p)
unfolding run
accept-Inv h i failed p v = elim (Option-cases (get_elem? p.accepting i)) [
  | inl gone ↦ rw (no_accept h i failed p gone) v
  | inr (id, here) ↦ unfold step on_accept in rw (here, step) (refused-Inv p i v here)
]
accept-Inv h i (done bytes) p v = elim (Option-cases (get_elem? p.accepting i)) [
  | inl gone ↦ rw (no_accept h i (done bytes) p gone, no_accepted h p v.none_accepted) v
  | inr (id, here) ↦ rw (joined-eq p v id i here h bytes) (joined-Inv p v id i here)
]

-- Each way out of send.
outcome-Inv :
    {p q : Publisher} (running empty : Bool)
    → Inv p
    → Inv q
    → Inv
        (if◌then◌else◌ {A = Publisher × Bool}
          (not running)
          (p, false)
          (if empty then (p, true) else (q, true))).0
outcome-Inv false empty v w = v
outcome-Inv true true v w = v
outcome-Inv true false v w = w

send-Inv :
    (h : Host) (stale : List ℕ) (ps : List Payload) (p : Publisher)
    → Inv p
    → Inv (send h stale ps p).0
unfolding send
send-Inv h stale ps p v =
    outcome-Inv p.is_running (is_empty p.publisher_sessions) v
      (send_to_sessions-Inv (prepare_buffer h stale ps) p.publisher_sessions p v (λ j m. m))

pub steps-Inv : (h : Host) (e : SerialEvent) (p : Publisher) → Inv p → Inv (run h (steps e) p)
unfolding run step
steps-Inv h (accepts i c) p v = accept-Inv h i c p v
steps-Inv h cancels p v = (cancel-Inv p v).0
steps-Inv h (sends stale ps) p v = send-Inv h stale ps p v
steps-Inv h (read_of id i c) p v =
    on_session-Inv (PublisherSession.step h (read_ends i c)) (read-Gentle h i c) p v id
steps-Inv h (write_of id i c) p v =
    on_session-Inv (PublisherSession.step h (write_ends i c)) (write-Gentle h i c) p v id

pub run-append :
    (h : Host) (xs ys : List Event) (p : Publisher) → run h (xs ++ ys) p ≡ run h ys (run h xs p)
unfolding run
run-append h [] ys p = refl
run-append h (x ∷ xs) ys p = run-append h xs ys (step h x p)

-- Through any such events the listed sessions are exactly those that were started and are not
-- closed, each once, and no session is ever missing from the list when it closes.
pub serial-Inv :
    (h : Host) (es : List SerialEvent) (p : Publisher) → Inv p → Inv (run h (serial es) p)
serial-Inv h [] p v = unfold run in v
serial-Inv h (e ∷ es) p v =
    rw (run-append h (steps e) (serial es) p)
      (serial-Inv h es (run h (steps e) p) (steps-Inv h e p v))

update_fresh :
    (id j : ℕ) → update (λ _. PublisherSession.new) id PublisherSession.new j ≡ PublisherSession.new
unfolding update
update_fresh id j = ground arith

-- A new publisher that was started without an error.
abbrev pub no_errors : StartResults
no_errors = record {
  make_address_ec = false;
  open_ec = false;
  reuse_address_ec = false;
  bind_ec = false;
  listen_ec = false;
}

pub started-Inv : Inv (start no_errors new).0
unfolding start new contains
started-Inv = record {
  distinct = tt;
  listed = λ j m. cc;
  unlisted = λ j m. inl (update_fresh 0 j);
  known = λ j m. cc;
  unused = λ j m. update_fresh 0 j;
  accepting_distinct = (refl, tt);
  accepting_fresh = λ j m. (ground arith, refl, update_fresh 0 j);
  none_accepted = refl;
  none_missing = refl;
}
