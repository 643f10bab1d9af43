-- ===== src/Publisher/Examples.antt =====
-- The theorems on the publisher, at small inputs.
use mathlib.Core.List.{Permᴰ}
use tcp_pubsub.PublisherSession
use tcp_pubsub.Base.{
  length, replicate, ◌≡◌, refl, true, false, none, some, [], ◌∷◌, ◌++◌, arith, ℕ, List,
}
use tcp_pubsub.Asio.{failed, done}
use tcp_pubsub.Wire.Endian.{little_endian, big_endian}
use tcp_pubsub.Wire.Header.{regular_payload, encode_header}
use tcp_pubsub.Publisher.{
  Publisher, new, start, cancel_call, accept_ends, accept_goes_on, session_read_ends, run,
  send_call, session_write_ends, send, get_subscriber_count,
}
use tcp_pubsub.Publisher.Message.{Payload, prepare_buffer, AllGiven}
use tcp_pubsub.Publisher.Message.Content.{prepare_buffer-eq, null_payload_leaks}
use tcp_pubsub.Publisher.Invariant.{Inv}
use tcp_pubsub.Publisher.Calls.{start_outcome}
use tcp_pubsub.Publisher.Serial.{
  accepts, cancels, sends, serial, serial-Inv, no_errors, started-Inv,
}
use tcp_pubsub.Publisher.Delivery.{accepted_after_cancel, closed_before_listed}
use tcp_pubsub.Base.Ids.{contains}
use tcp_pubsub.Publisher.Own.Runs.{run-own}
use tcp_pubsub.PublisherSession.{
  handshaking, running, canceled, is_running, PublisherSession, send_data_buffer, write_ends,
}
use tcp_pubsub.Publisher.Unordered.{reordered, order_unobservable}

abbrev greeting : Payload
greeting = record { first = some (104 ∷ 105 ∷ []); second = 2 }

greeting-AllGiven : AllGiven (greeting ∷ []) (104 ∷ 105 ∷ [])
greeting-AllGiven = AllGiven.cons (refl, refl) AllGiven.nil

prepare_buffer-eq_example :
    prepare_buffer big_endian (7 ∷ 7 ∷ []) (greeting ∷ [])
    ≡ encode_header regular_payload 2 ++ 104 ∷ 105 ∷ []
prepare_buffer-eq_example =
    prepare_buffer-eq big_endian (7 ∷ 7 ∷ []) greeting-AllGiven (omega arith)

null_payload_leaks_example :
    prepare_buffer little_endian (replicate 14 7) (record { first = none; second = 2 } ∷ [])
    ≡ encode_header regular_payload 2 ++ 7 ∷ 7 ∷ []
null_payload_leaks_example =
    null_payload_leaks little_endian (replicate 14 7) 2 (omega arith) (omega arith)

-- A publisher that was started.
abbrev up : Publisher
up = (start no_errors new).0

serial-Inv_example :
    Inv (
      run little_endian (serial (accepts 0 (done []) ∷ sends [] (greeting ∷ []) ∷ cancels ∷ [])) up)
serial-Inv_example =
    serial-Inv little_endian (accepts 0 (done []) ∷ sends [] (greeting ∷ []) ∷ cancels ∷ []) up
      started-Inv

start_outcome_example :
    (up.is_running ≡ true) × (up.publisher_sessions ≡ []) × (length up.accepting ≡ 1)
unfolding start new
start_outcome_example = start_outcome no_errors new refl

-- A publisher with one running session.
abbrev serving : Publisher
serving = record new {
  is_running = true;
  next_id = 1;
  session = λ _. record PublisherSession.new { state = PublisherSession.running };
  publisher_sessions = 0 ∷ [];
}

accepted_after_cancel_example :
    let q = run little_endian (cancel_call ∷ accept_ends 0 (done []) ∷ accept_goes_on 0 ∷ []) up in
    (q.is_running ≡ false)
    × (q.publisher_sessions ≡ 0 ∷ [])
    × ((q.session 0).state ≡ PublisherSession.handshaking)
unfolding start new
accepted_after_cancel_example = accepted_after_cancel little_endian [] up 0 started-Inv refl refl

-- A publisher whose accept handler has started session 0 and has not listed it yet.
abbrev halfway : Publisher
halfway = record new {
  is_running = true;
  next_id = 1;
  session = λ _. PublisherSession.start PublisherSession.new;
  accepted = 0 ∷ [];
}

closed_before_listed_example :
    let q = run little_endian (session_read_ends 0 0 failed ∷ accept_goes_on 0 ∷ []) halfway in
    (contains 0 q.publisher_sessions ≡ true)
    × ((q.session 0).state ≡ PublisherSession.canceled)
    × (q.missing ≡ 1)
unfolding contains new
closed_before_listed_example =
    closed_before_listed little_endian halfway 0 refl refl (omega arith) refl

run-own_example :
    let es =
      send_call [] (greeting ∷ [])
      ∷ session_read_ends 1 0 failed
      ∷ session_write_ends 0 0 (done [])
      ∷ [] in
    (run little_endian es serving).session 0
    ≡ PublisherSession.run little_endian
        (PublisherSession.send_call (prepare_buffer little_endian [] (greeting ∷ []))
          ∷ PublisherSession.write_ends 0 (done [])
          ∷ [])
        (serving.session 0)
unfolding contains new
run-own_example =
    run-own little_endian
      (send_call [] (greeting ∷ [])
        ∷ session_read_ends 1 0 failed
        ∷ session_write_ends 0 0 (done [])
        ∷ [])
      0 serving (record { known = omega arith; not_accepting = refl })

abbrev two_listed : Publisher
two_listed = record serving { next_id = 2; publisher_sessions = 0 ∷ 1 ∷ [] }

abbrev two_turned : Publisher
two_turned = record two_listed { publisher_sessions = 1 ∷ 0 ∷ [] }

order_unobservable_example :
    let es = send_call [] (greeting ∷ []) ∷ session_write_ends 1 0 failed ∷ [] in
    let a = run little_endian es two_listed in
    let b = run little_endian es two_turned in
    (a.session ≡ b.session)
    × (get_subscriber_count a ≡ get_subscriber_count b)
    × (a.missing ≡ b.missing)
    × ((stale : List ℕ) (payloads : List Payload)
        → (send little_endian stale payloads a).1 ≡ (send little_endian stale payloads b).1)
order_unobservable_example =
    order_unobservable little_endian
      (send_call [] (greeting ∷ []) ∷ session_write_ends 1 0 failed ∷ []) two_listed two_turned
      (reordered two_listed (1 ∷ 0 ∷ []) (Permᴰ.swap refl refl))
