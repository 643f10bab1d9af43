-- ===== src/Connection/Whole.antt =====
-- The whole way: a Publisher_Impl that accepts a connection, a Subscriber_Impl that adds a session,
-- their handshake, and then any traffic (publisher_impl.cpp, publisher_session.cpp,
-- subscriber_impl.cpp, subscriber_session_impl.cpp).
use mathlib.Core.List.{Sublist}
use tcp_pubsub.Publisher
use tcp_pubsub.Publisher.{Publisher}
use tcp_pubsub.Subscriber
use tcp_pubsub.Subscriber.{Subscriber}
use tcp_pubsub.Base.{
  get_elem?, drop, ℤ, ℕ, ◌≡◌, true, some, List, ◌++◌, length, sym, ap, ◌∙◌, last_or, none, arith,
}
use tcp_pubsub.SubscriberSession.{Endpoint, call_user}
use tcp_pubsub.SubscriberSession.Receive.{stream, Calls}
use tcp_pubsub.Connection.Accepting.{accepted_and_answered, accepted-Serves}
use tcp_pubsub.Connection.Joining.{
  id, joined_subscriber, joined-Listens, joins_before, joins_before-eq,
}
use tcp_pubsub.Connection.System.{calls_of, subscriber_hears}
use tcp_pubsub.Publisher.Serial.{SerialEvent, serial}
use tcp_pubsub.Publisher.Invariant.{Inv}
use tcp_pubsub.Subscriber.Delivery.{called}
use tcp_pubsub.Subscriber.Voice.{session_events}
use tcp_pubsub.Wire.Endian.{Host}
use tcp_pubsub.PublisherSession.Mailbox.{free, view}
use tcp_pubsub.Connection.Newest.{newest_reaches}

-- The calls of a subscriber that adds a session and hears what arrives at it.
abbrev pub subscriber_side :
    Host → Endpoint → List Endpoint → ℤ → List (List ℕ) → Subscriber → List Subscriber.Event
subscriber_side publisher e more n messages s =
    joins_before publisher e more n (session_events s.next_id (stream messages)) s

calls_user-eq :
    (c : ℕ) (s : Subscriber)
    → s.user_callback_is_synchronous ≡ true
    → s.synchronous_user_callback ≡ c
    → Subscriber.session_callback s ≡ call_user c
unfolding Subscriber.session_callback
calls_user-eq c s sync set = ground arith

-- What is heard of the messages behind the answer, told from addSession on.
all_calls :
    (publisher subscriber : Host) (e : Endpoint) (more : List Endpoint) (n : ℤ) (c : ℕ)
    (s : Subscriber) (set : Subscriber.session_callback s ≡ call_user c) (q : Publisher)
    (es : List SerialEvent) (id : ℕ) (heard : List (List ℕ))
    → length (q.session id).sent ≡ 1
    → let t = joined_subscriber publisher subscriber e more n (call_user c) s set in
      let sent = ((Publisher.run publisher (serial es) q).session id).sent in
      (Subscriber.run subscriber
          (session_events s.next_id (stream (drop (length (q.session id).sent) sent)))
          t).calls
        ≡ t.calls ++ called c heard
      → (Subscriber.run subscriber (subscriber_side publisher e more n (drop 1 sent) s) s).calls
        ≡ s.calls ++ called c heard
all_calls publisher subscriber e more n c s set q es id heard one later =
    let sent = ((Publisher.run publisher (serial es) q).session id).sent in
    let quiet = (joined-Listens publisher subscriber e more n (call_user c) s set).0.calls in
    ap (λ (r : Subscriber). r.calls)
      (joins_before-eq publisher subscriber e more n (call_user c) s set
        (session_events s.next_id (stream (drop 1 sent))))
    ∙ ap
        (λ k.
          (Subscriber.run subscriber (session_events s.next_id (stream (drop k sent)))
            (joined_subscriber publisher subscriber e more n (call_user c) s set)).calls)
        (sym one)
    ∙ later
    ∙ ap (λ ds. ds ++ called c heard) quiet

-- A running publisher whose list is in order accepts a connection, and the new session answers the
-- handshake, with nothing else happening to the publisher between the accept and the end of the
-- answer's write. At the other end a subscriber with a synchronous callback adds a session with any list
-- of publishers, which is connected to the first and completes the handshake. From then
-- on anything happens to the publisher and all its sessions, each accept handler running to its end and each call of
-- send having some data. Once all that the new session wrote behind its answer has arrived, the
-- user's callback was called, from addSession on, with the bytes of some of the calls of send, none
-- twice, and in the order of the calls.
pub heard_from_the_start :
    (publisher subscriber : Host) {all : List (List ℕ)} (es : List SerialEvent) (i id c : ℕ)
    (e : Endpoint) (more : List Endpoint) (n : ℤ) (p : Publisher) (s : Subscriber)
    → Inv p
    → p.is_running ≡ true
    → get_elem? p.accepting i ≡ some id
    → s.user_callback_is_synchronous ≡ true
    → s.synchronous_user_callback ≡ c
    → Calls (calls_of es) all
    → let q = Publisher.run publisher (serial (accepted_and_answered i id subscriber)) p in
      let written = drop 1 ((Publisher.run publisher (serial es) q).session id).sent in
      (heard : List (List ℕ)) × Sublist heard all
      × ((Subscriber.run subscriber (subscriber_side publisher e more n written s) s).calls
          ≡ s.calls ++ called c heard)
heard_from_the_start publisher subscriber es i id c e more n p s v on here sync called_back g =
    let set = calls_user-eq c s sync called_back in
    let (serves, idle, answer) = accepted-Serves publisher p v on i id here subscriber in
    let (listens, connected, retries) =
      joined-Listens publisher subscriber e more n (call_user c) s set in
    let q = Publisher.run publisher (serial (accepted_and_answered i id subscriber)) p in
    let t = joined_subscriber publisher subscriber e more n (call_user c) s set in
    let (heard, in_order, calls) =
      subscriber_hears publisher subscriber es id s.next_id c q t serves.inv serves.live idle g
        listens.known listens.waits listens.callback (listens.mode ∙ sync) in
    (
      heard,
      in_order,
      all_calls publisher subscriber e more n c s set q es id heard (ap length answer) calls,
    )

-- A running publisher whose list is in order accepts a connection, and the new session answers the
-- handshake, with nothing else happening to the publisher between the accept and the end of the
-- answer's write. At the other end a subscriber with a synchronous callback adds a session with any list
-- of publishers, which is connected to the first and completes the handshake. From then
-- on anything happens to the publisher and all its sessions, each accept handler running to its end and each call of
-- send having some data. If the new session is idle in the end, and so not closed, and all that it
-- wrote behind its answer has arrived, the last call of the user's callback since addSession was
-- with the bytes of the last call of send, and there was none only if send was not called.
pub newest_from_the_start :
    (publisher subscriber : Host) {all : List (List ℕ)} (es : List SerialEvent) (i id c : ℕ)
    (e : Endpoint) (more : List Endpoint) (n : ℤ) (p : Publisher) (s : Subscriber)
    → Inv p
    → p.is_running ≡ true
    → get_elem? p.accepting i ≡ some id
    → s.user_callback_is_synchronous ≡ true
    → s.synchronous_user_callback ≡ c
    → Calls (calls_of es) all
    → let q = Publisher.run publisher (serial (accepted_and_answered i id subscriber)) p in
      view ((Publisher.run publisher (serial es) q).session id) ≡ free
      → let q = Publisher.run publisher (serial (accepted_and_answered i id subscriber)) p in
        let written = drop 1 ((Publisher.run publisher (serial es) q).session id).sent in
        (heard : List (List ℕ)) × (last_or none heard ≡ last_or none all)
        × ((Subscriber.run subscriber (subscriber_side publisher e more n written s) s).calls
            ≡ s.calls ++ called c heard)
newest_from_the_start publisher subscriber es i id c e more n p s v on here sync called_back g
      at_rest =
    let set = calls_user-eq c s sync called_back in
    let (serves, idle, answer) = accepted-Serves publisher p v on i id here subscriber in
    let listens = (joined-Listens publisher subscriber e more n (call_user c) s set).0 in
    let q = Publisher.run publisher (serial (accepted_and_answered i id subscriber)) p in
    let t = joined_subscriber publisher subscriber e more n (call_user c) s set in
    let (heard, newest, calls) =
      newest_reaches publisher subscriber es id s.next_id c q t serves idle g listens.known
        listens.waits listens.callback (listens.mode ∙ sync) at_rest in
    (
      heard,
      newest,
      all_calls publisher subscriber e more n c s set q es id heard (ap length answer) calls,
    )
