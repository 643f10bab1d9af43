-- ===== src/Connection/Joining.antt =====
-- A Subscriber_Impl gets a session that is connected to the first of its publishers and takes the
-- answer to its handshake (subscriber_impl.cpp, subscriber_session_impl.cpp).
use tcp_pubsub.SubscriberSession
use tcp_pubsub.Subscriber
use tcp_pubsub.Subscriber.{
  Subscriber, update, on_deliveries, on_session, session_callback, set_callback_to_session,
  enter_session, admit, add_session, add_session_call,
}
use tcp_pubsub.Base.{
  ℤ, ℕ, suc, ◌≡◌, refl, ap, ◌∙◌, false, none, some, List, [], ◌∷◌, ◌++◌, ==_refl, ◌<◌, sym, arith,
}
use tcp_pubsub.SubscriberSession.{
  Endpoint, Callback, connect, SubscriberSession, new, resolve_endpoint, start, connect_to_endpoint,
  on_resolved, on_completed, on_posted, set_synchronous_callback, Event, operation_ends,
  strand_runs, step, run,
}
use tcp_pubsub.SubscriberSession.Growth.{set_synchronous_callback-SameCalls, start-SameCalls}
use tcp_pubsub.Connection.{connected_to, request_and_answer, connects, subst}
use tcp_pubsub.Subscriber.Mutex.{quiet_lem}
use tcp_pubsub.Wire.Endian.{Host}
use tcp_pubsub.Asio.{done}
use tcp_pubsub.SubscriberSession.Receive.{Waits}
use tcp_pubsub.Subscriber.Everywhere.{enter_objects}
use tcp_pubsub.Subscriber.Voice.{session_events, all_given, all_given_lem, run_heard}
use tcp_pubsub.Subscriber.Mode.{enter_session-mode}

-- The posted callback is set, the first publisher is resolved and connected, and the handshake
-- completes.
abbrev pub joins : Host → List SubscriberSession.Event
joins publisher =
    strand_runs
    ∷ operation_ends 0 (done [])
    ∷ operation_ends 0 (done [])
    ∷ request_and_answer publisher

-- A new session, with a callback.
abbrev pub constructed : Endpoint → List Endpoint → ℤ → SubscriberSession
constructed e more n = record {
  publisher_list = e ∷ more;
  connected_publisher_endpoint = ("", 0);
  max_reconnection_attempts = n;
  retries_left = n;
  canceled = false;
  socket_open = false;
  synchronous_callback = none;
  operations = [];
  strand = [];
  delivered = [];
  closed_calls = 0;
}

abbrev ready : Callback → Endpoint → List Endpoint → ℤ → SubscriberSession
ready c e more n = record (constructed e more n) { synchronous_callback = some c }

-- The session that addSession starts, up to the end of the handshake.
session_joins :
    (publisher subscriber : Host) (c : Callback) (e : Endpoint) (more : List Endpoint) (n : ℤ)
    → SubscriberSession.run subscriber (joins publisher) (
        SubscriberSession.start
          (SubscriberSession.set_synchronous_callback c (constructed e more n)))
      ≡ connected_to 0 (ready c e more n)
unfolding SubscriberSession.run SubscriberSession.step SubscriberSession.on_posted
    SubscriberSession.on_completed SubscriberSession.on_resolved SubscriberSession.start
    SubscriberSession.set_synchronous_callback SubscriberSession.connect_to_endpoint
    SubscriberSession.resolve_endpoint
session_joins publisher subscriber c e more n =
    connects publisher subscriber 0 (record (ready c e more n) { operations = connect 0 ∷ [] }) refl
      refl refl

pub added :
    (e : Endpoint) (more : List Endpoint) (n : ℤ) (s : Subscriber) (h : Host)
    → Subscriber.step h (Subscriber.add_session_call (e ∷ more) n) s
      ≡ Subscriber.enter_session s.next_id (record s {
        session = Subscriber.update s.session s.next_id (constructed e more n);
        next_id = suc s.next_id;
      })
unfolding Subscriber.step Subscriber.add_session Subscriber.admit SubscriberSession.new
added e more n s h = refl

-- addSession calls no callback, and leaves what waits for the callback thread.
enter_session-quiet :
    (id : ℕ) (s : Subscriber)
    → let t = Subscriber.enter_session id s in
      (t.calls ≡ s.calls) × (t.last_callback_data ≡ s.last_callback_data)
unfolding Subscriber.enter_session Subscriber.set_callback_to_session
enter_session-quiet id s =
    let c = Subscriber.session_callback s in
    let set = SubscriberSession.set_synchronous_callback c in
    let first = quiet_lem id set s (set_synchronous_callback-SameCalls c (s.session id)) in
    let t = Subscriber.on_session id set s in
    let u : Subscriber = record t { session_list = t.session_list ++ id ∷ [] } in
    let second = quiet_lem id SubscriberSession.start u (start-SameCalls (u.session id)) in
    (
      ap (λ (r : Subscriber). r.calls) second ∙ ap (λ (r : Subscriber). r.calls) first,
      ap (λ (r : Subscriber). r.last_callback_data) second
          ∙ ap (λ (r : Subscriber). r.last_callback_data) first,
    )

-- A session that a subscriber has added: it waits for a message, which goes to the subscriber's
-- callback. Nothing was called or stored by then, and the callback and its thread are as before.
pub record Listens (id : ℕ) (c : Callback) (s t : Subscriber) : Type 0 where
  pub known : id < t.next_id
  pub waits : Waits (t.session id)
  pub callback : (t.session id).synchronous_callback ≡ some c
  pub mode : t.user_callback_is_synchronous ≡ s.user_callback_is_synchronous
  pub thread : t.callback_thread ≡ s.callback_thread
  pub stop : t.callback_thread_stop ≡ s.callback_thread_stop
  pub calls : t.calls ≡ s.calls
  pub last : t.last_callback_data ≡ s.last_callback_data

module _ (publisher subscriber : Host) (e : Endpoint) (more : List Endpoint) (n : ℤ) (c : Callback)
    (s : Subscriber) (set : Subscriber.session_callback s ≡ c) where
  abbrev pub id : ℕ
  id = s.next_id

  abbrev pub with_object : Subscriber
  with_object = record s {
    session = Subscriber.update s.session id (constructed e more n);
    next_id = suc id;
  }

  abbrev pub entered : Subscriber
  entered = Subscriber.enter_session id with_object

  abbrev pub started : SubscriberSession
  started =
      SubscriberSession.start (SubscriberSession.set_synchronous_callback c (constructed e more n))

  callback_same : Subscriber.session_callback with_object ≡ Subscriber.session_callback s
  unfolding Subscriber.session_callback
  callback_same = refl

  entered_session : entered.session id ≡ started
  unfolding Subscriber.update
  entered_session = rw (enter_objects id id with_object, ==_refl id, callback_same, set)

  session_later :
      SubscriberSession.run subscriber (joins publisher) (entered.session id)
      ≡ connected_to 0 (ready c e more n)
  session_later =
      ap (SubscriberSession.run subscriber (joins publisher)) entered_session
      ∙ session_joins publisher subscriber c e more n

  none_given : all_given subscriber (joins publisher) (entered.session id) ≡ []
  unfolding SubscriberSession.start SubscriberSession.set_synchronous_callback
      SubscriberSession.resolve_endpoint
  none_given =
      let given = all_given subscriber (joins publisher) (entered.session id) in
      ap (λ ds. ds ++ given) (sym (ap (λ (r : SubscriberSession). r.delivered) entered_session))
      ∙ sym (all_given_lem subscriber (joins publisher) (entered.session id))
      ∙ ap (λ (r : SubscriberSession). r.delivered) session_later

  abbrev pub joined_subscriber : Subscriber
  joined_subscriber = Subscriber.run subscriber (session_events id (joins publisher)) entered

  -- addSession and what follows it lead to a session that is heard, connected to the first of its
  -- publishers, and no callback has been called by then.
  pub joined-Listens :
      Listens id c s joined_subscriber
      × ((joined_subscriber.session id).connected_publisher_endpoint ≡ e)
      × ((joined_subscriber.session id).retries_left ≡ n)
  joined-Listens =
      let entering = enter_session-mode id with_object in
      let quiet = enter_session-quiet id with_object in
      let known : id < entered.next_id = omega (arith, entering.known) in
      let (heard, session, mode) = run_heard subscriber (joins publisher) id entered known in
      let same = session ∙ session_later in
      let none_called = ap (λ ds. Subscriber.on_deliveries ds entered) none_given in
      (
        record {
          known = omega (arith, entering.known, mode.known);
          waits = subst Waits (sym same) (record { alive = refl; one_read = refl; quiet = refl });
          callback = ap (λ (r : SubscriberSession). r.synchronous_callback) same;
          mode = mode.mode ∙ entering.mode;
          thread = mode.thread ∙ entering.thread;
          stop = mode.stop ∙ entering.stop;
          calls =
              heard.calls
              ∙ ap (λ (r : Subscriber). r.calls) none_called
              ∙ (unfold Subscriber.on_deliveries in quiet.0);
          last =
              heard.last
              ∙ ap (λ (r : Subscriber). r.last_callback_data) none_called
              ∙ (unfold Subscriber.on_deliveries in quiet.1);
        },
        ap (λ (r : SubscriberSession). r.connected_publisher_endpoint) same,
        ap (λ (r : SubscriberSession). r.retries_left) same,
      )

-- The events of a subscriber that adds a session, which joins, and then others.
abbrev pub joins_before :
    Host → Endpoint → List Endpoint → ℤ → List Subscriber.Event → Subscriber → List Subscriber.Event
joins_before publisher e more n rest s =
    Subscriber.add_session_call (e ∷ more) n ∷ session_events s.next_id (joins publisher) ++ rest

run-append :
    (h : Host) (xs ys : List Subscriber.Event) (s : Subscriber)
    → Subscriber.run h (xs ++ ys) s ≡ Subscriber.run h ys (Subscriber.run h xs s)
unfolding Subscriber.run
run-append h [] ys s = refl
run-append h (x ∷ xs) ys s = run-append h xs ys (Subscriber.step h x s)

-- The subscriber, from addSession on and from the end of the handshake on.
pub joins_before-eq :
    (publisher subscriber : Host) (e : Endpoint) (more : List Endpoint) (n : ℤ) (c : Callback)
    (s : Subscriber) (set : Subscriber.session_callback s ≡ c) (rest : List Subscriber.Event)
    → Subscriber.run subscriber (joins_before publisher e more n rest s) s
      ≡ Subscriber.run subscriber rest (joined_subscriber publisher subscriber e more n c s set)
unfolding Subscriber.run
joins_before-eq publisher subscriber e more n c s set rest =
    let first = session_events s.next_id (joins publisher) in
    ap (Subscriber.run subscriber (first ++ rest)) (added e more n s subscriber)
    ∙ run-append subscriber first rest (entered publisher subscriber e more n c s set)
