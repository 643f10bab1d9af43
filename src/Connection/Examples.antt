-- ===== src/Connection/Examples.antt =====
-- The two ends of a connection, at small inputs.
use mathlib.Core.List.{Sublist}
use tcp_pubsub.Subscriber
use tcp_pubsub.Subscriber.Callbacks
use tcp_pubsub.Publisher
use tcp_pubsub.Publisher.{Publisher}
use tcp_pubsub.Publisher.Serial.{SerialEvent, sends, write_of, serial, no_errors, started-Inv}
use tcp_pubsub.Subscriber.{Subscriber}
use tcp_pubsub.SubscriberSession
use tcp_pubsub.SubscriberSession.{
  SubscriberSession, store_data, connect, new, start, Event, step, run, payload,
}
use tcp_pubsub.Base.{
  pos, ◌≡◌, refl, false, some, [], ◌∷◌, drop, last_or, ℕ, none, List, arith, true, ap, ◌++◌,
}
use tcp_pubsub.SubscriberSession.Receive.{Waits, Calls, received, stream}
use tcp_pubsub.Wire.Header.{data_size_raw, type_of, handshake_buffer, new_header}
use tcp_pubsub.Wire.Endian.{load, store, htole, letoh, little_endian, big_endian}
use tcp_pubsub.Asio.{done}
use tcp_pubsub.Publisher.Message.{Payload, AllGiven}
use tcp_pubsub.Subscriber.Delivery.{called}
use tcp_pubsub.Connection.Whole.{subscriber_side, heard_from_the_start, newest_from_the_start}
use tcp_pubsub.Connection.Accepting.{accepted_and_answered}
use tcp_pubsub.Connection.Recovery.{comes_back, recovers}
use tcp_pubsub.Subscriber.Asynchronous.{waiting, Moment, reads, turns, moments, reads_of}
use tcp_pubsub.Connection.Asynchronous.{thread_hears_from_the_start}
use tcp_pubsub.Connection.Joining.{joins_before}
use tcp_pubsub.Subscriber.Callbacks.{is_some, Inv}
use tcp_pubsub.SubscriberSession.Attempts.{awaiting_answer, first_resolved}

-- A subscriber's session that is about to be connected to the second of its publishers.
abbrev connecting : SubscriberSession
connecting = record {
  publisher_list = ("a", 1) ∷ ("b", 2) ∷ [];
  connected_publisher_endpoint = ("", 0);
  max_reconnection_attempts = pos 3;
  retries_left = pos 2;
  canceled = false;
  socket_open = false;
  synchronous_callback = some store_data;
  operations = connect 1 ∷ [];
  strand = [];
  delivered = [];
  closed_calls = 0;
}

-- A subscriber without a session, with callback 7.
abbrev with_callback_7 : Subscriber
with_callback_7 = record (Subscriber.new (λ id. connecting)) { synchronous_user_callback = 7 }

-- Three calls of send, of one byte each.
abbrev one_byte : ℕ → List ℕ × List Payload
one_byte b = ([], record { first = some (b ∷ []); second = 1 } ∷ [])

abbrev three_calls : List (List ℕ × List Payload)
three_calls = one_byte 1 ∷ one_byte 2 ∷ one_byte 3 ∷ []

one_byte-AllGiven : (b : ℕ) → AllGiven (one_byte b).1 (b ∷ [])
one_byte-AllGiven b = AllGiven.cons (refl, refl) AllGiven.nil

three_calls-Calls : Calls three_calls ((1 ∷ []) ∷ (2 ∷ []) ∷ (3 ∷ []) ∷ [])
three_calls-Calls = Calls.cons (one_byte-AllGiven 1) (omega arith) (omega arith) (
    Calls.cons (one_byte-AllGiven 2) (omega arith) (omega arith)
      (Calls.cons (one_byte-AllGiven 3) (omega arith) (omega arith) Calls.nil))

-- A publisher that was started.
abbrev started : Publisher
started = (Publisher.start no_errors Publisher.new).0

-- A call of send whose buffer is written at once, two more in a row, and the ends of two writes.
abbrev traffic : List SerialEvent
traffic =
    sends [] (one_byte 1).1
    ∷ sends [] (one_byte 2).1
    ∷ sends [] (one_byte 3).1
    ∷ write_of 0 0 (done [])
    ∷ write_of 0 0 (done [])
    ∷ []

heard_from_the_start_example :
    let q = Publisher.run big_endian (serial (accepted_and_answered 0 0 little_endian)) started in
    let written = drop 1 ((Publisher.run big_endian (serial traffic) q).session 0).sent in
    (heard : List (List ℕ)) × Sublist heard ((1 ∷ []) ∷ (2 ∷ []) ∷ (3 ∷ []) ∷ [])
    × ((Subscriber.run little_endian
          (subscriber_side big_endian ("a", 1) [] (pos 2) written with_callback_7)
          with_callback_7).calls
        ≡ called 7 heard)
unfolding Publisher.start Publisher.new Subscriber.new
heard_from_the_start_example =
    heard_from_the_start big_endian little_endian traffic 0 0 7 ("a", 1) [] (pos 2) started
      with_callback_7 started-Inv refl refl refl refl three_calls-Calls

newest_from_the_start_example :
    let q = Publisher.run big_endian (serial (accepted_and_answered 0 0 little_endian)) started in
    let written = drop 1 ((Publisher.run big_endian (serial traffic) q).session 0).sent in
    (heard : List (List ℕ)) × (last_or none heard ≡ some (3 ∷ []))
    × ((Subscriber.run little_endian
          (subscriber_side big_endian ("a", 1) [] (pos 2) written with_callback_7)
          with_callback_7).calls
        ≡ called 7 heard)
unfolding Publisher.start Publisher.new Subscriber.new Publisher.run Publisher.step load
    handshake_buffer store htole letoh data_size_raw type_of
newest_from_the_start_example =
    newest_from_the_start big_endian little_endian traffic 0 0 7 ("a", 1) [] (pos 2) started
      with_callback_7 started-Inv refl refl refl refl three_calls-Calls refl

-- A subscriber without a session, with a thread for callback 7.
abbrev with_thread_7 : Subscriber
with_thread_7 = record (Subscriber.new (λ id. connecting)) {
  user_callback_is_synchronous = false;
  callback_thread = some 7;
  callback_thread_stop = false;
}

-- The reading of each message, and turns of the thread around it.
abbrev all_reads : List Event → List Moment → List Moment
all_reads [] ms = ms
all_reads (e ∷ es) ms = reads e ∷ all_reads es ms

abbrev between : List (List ℕ) → List Moment
between [] = turns ∷ []
between (message ∷ more) = turns ∷ all_reads (received message) (between more)

reads_of-between : (messages : List (List ℕ)) → reads_of (between messages) ≡ stream messages
reads_of-between [] = refl
reads_of-between (message ∷ more) = ap (λ es. received message ++ es) (reads_of-between more)

thread_hears_from_the_start_example :
    let q = Publisher.run big_endian (serial (accepted_and_answered 0 0 little_endian)) started in
    let written = drop 1 ((Publisher.run big_endian (serial traffic) q).session 0).sent in
    let t =
      Subscriber.run little_endian
        (joins_before big_endian ("a", 1) [] (pos 2) (moments 0 (between written)) with_thread_7)
        with_thread_7 in
    (heard : List (List ℕ)) × (t.calls ≡ called 7 heard)
    × Sublist (heard ++ waiting t) ((1 ∷ []) ∷ (2 ∷ []) ∷ (3 ∷ []) ∷ [])
    × (last_or none (heard ++ waiting t) ≡ some (3 ∷ []))
unfolding Publisher.start Publisher.new Subscriber.new Publisher.run Publisher.step load
    handshake_buffer store htole letoh data_size_raw type_of Callbacks.Inv is_some
thread_hears_from_the_start_example =
    let q = Publisher.run big_endian (serial (accepted_and_answered 0 0 little_endian)) started in
    let written = drop 1 ((Publisher.run big_endian (serial traffic) q).session 0).sent in
    thread_hears_from_the_start big_endian little_endian traffic (between written) 0 0 7 ("a", 1) []
      (pos 2) started with_thread_7 started-Inv refl refl (refl, refl) refl refl three_calls-Calls
      refl (reads_of-between written)

-- A session that reads a payload when its connection fails.
abbrev reading : SubscriberSession
reading = record connecting {
  connected_publisher_endpoint = ("a", 1);
  socket_open = true;
  operations = payload new_header 5 ∷ [];
}

recovers_example :
    let t =
      SubscriberSession.run little_endian
        (comes_back big_endian (first_resolved 0 awaiting_answer ∷ []) 1 (("a", 1) ∷ ("b", 2) ∷ []))
        reading in
    Waits t
    × (some ("b", 2) ≡ some t.connected_publisher_endpoint)
    × (t.retries_left ≡ pos 3)
    × (t.synchronous_callback ≡ some store_data)
    × (t.delivered ≡ [])
    × (t.closed_calls ≡ 0)
recovers_example =
    recovers big_endian little_endian (first_resolved 0 awaiting_answer ∷ []) 1 ("a", 1)
      (("b", 2) ∷ []) (payload new_header 5) reading refl refl tt refl refl (omega arith, tt)
      (refl, (refl, tt)) (omega arith)
