-- ===== src/Subscriber/Examples.antt =====
-- The theorems on a subscriber, at small inputs.
use tcp_pubsub.SubscriberSession.{
  SubscriberSession, Endpoint, call_user, store_data, header_length, operation_ends, strand_runs,
}
use tcp_pubsub.Base.{pos, ℕ, ◌≡◌, refl, true, false, none, some, List, [], ◌∷◌, arith, map}
use tcp_pubsub.Subscriber.{
  Subscriber, new, renew_callbacks, enter_session, cancel_sessions, Event, set_callback_call,
  add_session_call, cancel_call, session_event, step, run, cancel,
}
use tcp_pubsub.Subscriber.Sessions.{Listed, run-new-Listed}
use tcp_pubsub.Subscriber.Callbacks.{Inv, run-new-Inv}
use tcp_pubsub.Subscriber.Mutex.{NoneClosed, mutex_not_taken_twice}
use tcp_pubsub.Subscriber.Ready.{never_calls_empty}
use tcp_pubsub.Subscriber.Delivery.{messages_reach_user}
use tcp_pubsub.SubscriberSession.Ready.{AllSet}
use tcp_pubsub.SubscriberSession.Receive.{Waits, prepared, stream, Calls}
use tcp_pubsub.Publisher.Message.{Payload, AllGiven}
use tcp_pubsub.Wire.Header.{new_header}
use tcp_pubsub.Wire.Endian.{little_endian, big_endian}
use tcp_pubsub.Asio.{failed}
use tcp_pubsub.Subscriber.Silence.{
  cancels_again, thread_turns_late, session_late, late, silent_after_cancel,
}
use tcp_pubsub.Subscriber.Voice.{session_events}

abbrev publishers : List Endpoint
publishers = ("a", 1) ∷ []

-- A session that waits for a message, and hands it to callback 7.
abbrev waiting : SubscriberSession
waiting = record {
  publisher_list = publishers;
  connected_publisher_endpoint = ("a", 1);
  max_reconnection_attempts = pos 1;
  retries_left = pos 1;
  canceled = false;
  socket_open = true;
  synchronous_callback = some (call_user 7);
  operations = header_length new_header ∷ [];
  strand = [];
  delivered = [];
  closed_calls = 0;
}

-- A subscriber with one such session, and callback 7.
abbrev listening : Subscriber
listening = record {
  session = λ id. waiting;
  next_id = 1;
  session_list = 0 ∷ [];
  missing = 0;
  last_callback_data = none;
  user_callback_is_synchronous = true;
  synchronous_user_callback = 7;
  callback_thread = none;
  callback_thread_stop = true;
  calls = [];
}

-- The same with callback 7 on a thread.
abbrev asynchronous : Subscriber
asynchronous = record listening {
  session = λ id. record waiting { synchronous_callback = some store_data };
  user_callback_is_synchronous = false;
  synchronous_user_callback = 0;
  callback_thread = some 7;
  callback_thread_stop = false;
}

abbrev life : List Event
life =
    add_session_call publishers (pos 0)
    ∷ set_callback_call 7 false
    ∷ session_event 0 strand_runs
    ∷ session_event 0 (operation_ends 0 failed)
    ∷ cancel_call
    ∷ []

abbrev any_session : ℕ → SubscriberSession
any_session id = waiting

run-new-Inv_example : Inv (run little_endian life (new any_session))
run-new-Inv_example = run-new-Inv little_endian any_session life

run-new-Listed_example : Listed (run little_endian life (new any_session))
run-new-Listed_example = run-new-Listed little_endian any_session life

never_calls_empty_example : AllSet ((run little_endian life (new any_session)).session 0).delivered
unfolding new run step
never_calls_empty_example = never_calls_empty little_endian any_session life 0 (omega arith)

mutex_not_taken_twice_example :
    let ids : List ℕ = 0 ∷ [] in
    NoneClosed listening (renew_callbacks ids listening)
    × NoneClosed listening (enter_session 0 listening)
    × NoneClosed listening (cancel_sessions ids listening)
    × ((renew_callbacks ids listening).session_list ≡ 0 ∷ [])
    × ((enter_session 0 listening).session_list ≡ 0 ∷ 0 ∷ [])
    × ((cancel_sessions ids listening).session_list ≡ 0 ∷ [])
mutex_not_taken_twice_example = mutex_not_taken_twice (0 ∷ []) 0 listening

asynchronous-Inv : Inv asynchronous
unfolding Inv
asynchronous-Inv = (refl, refl)

abbrev greeting : Payload
greeting = record { first = some (104 ∷ 105 ∷ []); second = 2 }

one_call : Calls (([], greeting ∷ []) ∷ []) ((104 ∷ 105 ∷ []) ∷ [])
one_call =
    Calls.cons (AllGiven.cons (refl, refl) AllGiven.nil) (omega arith) (omega arith) Calls.nil

waiting-Waits : Waits waiting
waiting-Waits = record { alive = refl; one_read = refl; quiet = refl }

messages_reach_user_example :
    (run little_endian
      (session_events 0 (stream (prepared big_endian (([], greeting ∷ []) ∷ []))))
      listening).calls
    ≡ (7, 104 ∷ 105 ∷ []) ∷ []
messages_reach_user_example =
    messages_reach_user big_endian little_endian 0 7 listening one_call (omega arith) waiting-Waits
      refl refl

silent_after_cancel_example :
    (run little_endian
      (map late (session_late 0 strand_runs ∷ thread_turns_late ∷ cancels_again ∷ []))
      (cancel (run little_endian life (new any_session)))).calls
    ≡ (run little_endian life (new any_session)).calls
silent_after_cancel_example =
    silent_after_cancel little_endian any_session life
      (session_late 0 strand_runs ∷ thread_turns_late ∷ cancels_again ∷ [])
