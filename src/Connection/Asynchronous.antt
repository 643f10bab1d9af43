-- ===== src/Connection/Asynchronous.antt =====
-- The whole way to an asynchronous callback: a Publisher_Impl that accepts a connection, a
-- Subscriber_Impl with a callback thread that adds a session, their handshake, and then any traffic
-- with the thread's turns in between (publisher_impl.cpp, publisher_session.cpp,
-- subscriber_impl.cpp, subscriber_session_impl.cpp).
use mathlib.Core.List.Sublist
use mathlib.Core.List.{Sublist}
use tcp_pubsub.Publisher
use tcp_pubsub.Subscriber
use tcp_pubsub.Subscriber.{Subscriber}
use tcp_pubsub.Publisher.{Publisher}
use tcp_pubsub.Subscriber.Callbacks
use tcp_pubsub.Subscriber.Callbacks.{is_some}
use tcp_pubsub.Publisher.Invariant.{Inv}
use tcp_pubsub.PublisherSession.{PublisherSession}
use tcp_pubsub.Base.{
  length, drop, last_or, drop-append, ℕ, ◌≡◌, refl, sym, ap, ◌∙◌, none, some, List, map, arith,
  get_elem?, ℤ, true, ◌++◌,
}
use tcp_pubsub.Connection.Messages.{payload_of, output, written_lem, part_prepared, last_payload}
use tcp_pubsub.Connection.System.{calls_of, Live-Exists}
use tcp_pubsub.Connection.Newest.{open_if_free}
use tcp_pubsub.Connection.Open.{Serves, gets_all_calls}
use tcp_pubsub.Publisher.Serial.{SerialEvent, serial}
use tcp_pubsub.Publisher.Own.{own}
use tcp_pubsub.Publisher.Own.Runs.{run-own}
use tcp_pubsub.PublisherSession.Mailbox.{free, view}
use tcp_pubsub.SubscriberSession.{store_data, Endpoint}
use tcp_pubsub.SubscriberSession.Receive.{prepared, Calls, stream}
use tcp_pubsub.Publisher.Message.{Payload}
use tcp_pubsub.Wire.Endian.{Host}
use tcp_pubsub.Subscriber.Asynchronous.Thread.{thread_hears}
use tcp_pubsub.Subscriber.Asynchronous.{waiting, Moment, moments, reads_of}
use tcp_pubsub.Connection.Joining.{
  id, joined_subscriber, joined-Listens, joins_before, Listens, joins_before-eq,
}
use tcp_pubsub.Connection.Accepting.{accepted_and_answered, accepted-Serves}
use tcp_pubsub.Subscriber.Delivery.{called}

-- What a session that is idle in the end has written is what send prepared for some of the calls.
record Written (sender : Host) (written all : List (List ℕ)) : Type 0 where
  some_calls : List (List ℕ × List Payload)
  bytes : List (List ℕ)
  prepares : written ≡ prepared sender some_calls
  good : Calls some_calls bytes
  in_order : Sublist bytes all
  newest : last_or none bytes ≡ last_or none all

Serves-Written :
    (sender : Host) {all : List (List ℕ)} (es : List SerialEvent) (i : ℕ) (p : Publisher)
    → Serves i p
    → view (p.session i) ≡ free
    → Calls (calls_of es) all
    → view ((Publisher.run sender (serial es) p).session i) ≡ free
    → Written sender
        (drop (length (p.session i).sent) ((Publisher.run sender (serial es) p).session i).sent)
        all
Serves-Written sender es i p v idle g at_rest =
    let events = own sender i (serial es) p in
    let session = run-own sender (serial es) i p (Live-Exists i p v.inv v.live) in
    let given =
      gets_all_calls sender i es p v
        (open_if_free ((Publisher.run sender (serial es) p).session i) at_rest) in
    let rest = ap view (sym session) ∙ at_rest in
    let (in_order, (chosen, same, good)) = part_prepared sender events given g in
    record {
      some_calls = chosen;
      bytes = map payload_of (output events);
      prepares =
          ap (λ (r : PublisherSession). drop (length (p.session i).sent) r.sent) session
          ∙ ap (drop (length (p.session i).sent))
              (written_lem sender events (p.session i) v.live idle).1
          ∙ drop-append (length (p.session i).sent) (p.session i).sent (output events) refl
          ∙ same;
      good = good;
      in_order = in_order;
      newest = last_payload sender events (p.session i) v.live idle given g rest;
    }

stores-eq :
    (c : ℕ) (s : Subscriber)
    → Callbacks.Inv s
    → s.callback_thread ≡ some c
    → Subscriber.session_callback s ≡ store_data
unfolding Subscriber.session_callback Callbacks.Inv is_some
stores-eq c s v thread = ground (arith, v, thread)

Listens-Inv :
    (id : ℕ) (s t : Subscriber) → Listens id store_data s t → Callbacks.Inv s → Callbacks.Inv t
unfolding Callbacks.Inv is_some
Listens-Inv id s t l v = (rw (l.mode, l.thread) v.0, rw (l.thread, l.stop) v.1)

-- A running publisher whose list is in order accepts a connection, and the new session answers the
-- handshake, with nothing else happening to the publisher between the accept and the end of the
-- answer's write. At the other end a subscriber whose callback thread runs callback c, with no message
-- waiting for it, adds a session with any list of publishers, which is connected to the first and
-- completes the handshake. From then on anything happens to the publisher and all its sessions, each accept
-- handler running to its end and each call of send having some data, and the new session is idle in
-- the end. The subscriber's session reads all that it wrote behind its answer, and the callback
-- thread takes its turns anywhere in between. Then the thread has called c, from addSession on, with
-- the bytes of some of the calls of send, and at most one message waits for its next turn; these
-- are in the order of the calls, none twice, and end with the last call of send.
pub thread_hears_from_the_start :
    (publisher subscriber : Host) {all : List (List ℕ)} (es : List SerialEvent) (ms : List Moment)
    (i id c : ℕ) (e : Endpoint) (more : List Endpoint) (n : ℤ) (p : Publisher) (s : Subscriber)
    → Inv p
    → p.is_running ≡ true
    → get_elem? p.accepting i ≡ some id
    → Callbacks.Inv s
    → s.callback_thread ≡ some c
    → s.last_callback_data ≡ none
    → Calls (calls_of es) all
    → let q = Publisher.run publisher (serial (accepted_and_answered i id subscriber)) p in
      let session = (Publisher.run publisher (serial es) q).session id in
      view session ≡ free
      → reads_of ms ≡ stream (drop 1 session.sent)
      → let t =
          Subscriber.run subscriber (joins_before publisher e more n (moments s.next_id ms) s) s in
        (heard : List (List ℕ)) × (t.calls ≡ s.calls ++ called c heard)
        × Sublist (heard ++ waiting t) all
        × (last_or none (heard ++ waiting t) ≡ last_or none all)
thread_hears_from_the_start publisher subscriber es ms i id c e more n p s v on here cbs thread
      empty g at_rest arrived =
    let (serves, idle, answer) = accepted-Serves publisher p v on i id here subscriber in
    let set = stores-eq c s cbs thread in
    let listens = (joined-Listens publisher subscriber e more n store_data s set).0 in
    let q = Publisher.run publisher (serial (accepted_and_answered i id subscriber)) p in
    let t = joined_subscriber publisher subscriber e more n store_data s set in
    let w = Serves-Written publisher es id q serves idle g at_rest in
    let sent = ((Publisher.run publisher (serial es) q).session id).sent in
    let same = ap (λ k. drop k sent) (sym (ap length answer)) ∙ w.prepares in
    let (heard, calls, in_order, newest) =
      thread_hears publisher subscriber ms s.next_id c t w.good (arrived ∙ ap stream same)
        listens.known listens.waits listens.callback (Listens-Inv s.next_id s t listens cbs)
        (listens.thread ∙ thread) (listens.last ∙ empty) in
    rw (joins_before-eq publisher subscriber e more n store_data s set (moments s.next_id ms)) (
      heard,
      calls ∙ ap (λ ds. ds ++ called c heard) listens.calls,
      Sublist.trans in_order w.in_order,
      newest ∙ w.newest,
    )
