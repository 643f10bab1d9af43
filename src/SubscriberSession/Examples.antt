-- ===== src/SubscriberSession/Examples.antt =====
-- The theorems on a subscriber's session, at small inputs.
use mathlib.Core.Path.{subst}
use mathlib.Core.Option.{some-injective}
use tcp_pubsub.Base.{pos, ◌≡◌, refl, true, false, none, some, List, [], ◌∷◌, arith, All}
use tcp_pubsub.Wire.Endian.{little_endian}
use tcp_pubsub.Wire.Header.{new_header}
use tcp_pubsub.SubscriberSession.{
  Endpoint, store_data, resolve, header_length, deliver, next_message, SubscriberSession, new,
  start, cancel_call, strand_runs, run, Operation, connect, retry_wait, connection_failed_handler,
  resolve_endpoint, connect_to_endpoint, on_resolved, on_connected, on_completed, Event,
  operation_ends, step,
}
use tcp_pubsub.SubscriberSession.Receive.{Calls}
use tcp_pubsub.SubscriberSession.Retry.{retries_exhausted}
use tcp_pubsub.SubscriberSession.Rounds.{rounds}
use tcp_pubsub.SubscriberSession.Attempts.{
  Resolves, fails, attempt, connecting, none_resolved, first_resolved,
}
use tcp_pubsub.SubscriberSession.Closing.{Inv, run_started-Inv, cancel_closes_twice}
use tcp_pubsub.Publisher.Message.{Payload, AllGiven}
use tcp_pubsub.SubscriberSession.Known.{Known}
use tcp_pubsub.SubscriberSession.Known.Runs.{run_started-Known}
use tcp_pubsub.Asio.{Completion, failed, done}
use tcp_pubsub.SubscriberSession.Listing.{AtFirst, Resolved, AllResolved, run-start-AtFirst}

abbrev greeting : Payload
greeting = record { first = some (104 ∷ 105 ∷ []); second = 2 }

abbrev publishers : List Endpoint
publishers = ("a", 1) ∷ ("b", 2) ∷ []

-- A session that waits for a message.
abbrev waiting : SubscriberSession
waiting = record {
  publisher_list = publishers;
  connected_publisher_endpoint = ("a", 1);
  max_reconnection_attempts = pos 1;
  retries_left = pos 1;
  canceled = false;
  socket_open = true;
  synchronous_callback = some store_data;
  operations = header_length new_header ∷ [];
  strand = [];
  delivered = [];
  closed_calls = 0;
}

one_call : Calls (([], greeting ∷ []) ∷ []) ((104 ∷ 105 ∷ []) ∷ [])
one_call =
    Calls.cons (AllGiven.cons (refl, refl) AllGiven.nil) (omega arith) (omega arith) Calls.nil

abbrev resolving : SubscriberSession
resolving = record waiting { operations = resolve 0 ∷ [] }

resolving-Resolves : Resolves 0 resolving
resolving-Resolves = record { alive = refl; one = refl }

-- The first publisher does not resolve and the second refuses; then neither resolves.
retries_exhausted_example :
    let t = run little_endian (rounds (first_resolved 1 connecting ∷ []) publishers) resolving in
    let u = run little_endian (attempt none_resolved publishers) t in
    (t.closed_calls ≡ 0) × (u.closed_calls ≡ 1) × (u.operations ≡ [])
retries_exhausted_example =
    retries_exhausted little_endian (first_resolved 1 connecting ∷ []) none_resolved ("a", 1)
      (("b", 2) ∷ []) resolving (omega arith, tt) tt resolving-Resolves refl refl

abbrev constructed : SubscriberSession
constructed = record waiting {
  connected_publisher_endpoint = ("", 0);
  socket_open = false;
  synchronous_callback = none;
  operations = [];
}

run_started-Inv_example : Inv (run little_endian (fails ∷ cancel_call ∷ []) (start constructed))
unfolding new
run_started-Inv_example =
    run_started-Inv little_endian (fails ∷ cancel_call ∷ []) ("a", 1) (("b", 2) ∷ []) (pos 1) refl

run_started-Known_example :
    Known
      (("a", 1) ∷ ("b", 2) ∷ [])
      (pos 1)
      (run little_endian (fails ∷ fails ∷ cancel_call ∷ []) (start constructed))
unfolding new
run_started-Known_example =
    run_started-Known little_endian (fails ∷ fails ∷ cancel_call ∷ []) ("a", 1) (("b", 2) ∷ [])
      (pos 1) refl

abbrev received_one : SubscriberSession
received_one = record waiting {
  operations = [];
  strand = deliver (1 ∷ []) new_header ∷ next_message ∷ [];
}

cancel_closes_twice_example :
    (run little_endian (cancel_call ∷ strand_runs ∷ strand_runs ∷ []) received_one).closed_calls ≡ 2
cancel_closes_twice_example =
    cancel_closes_twice little_endian (1 ∷ []) new_header received_one refl refl

-- The first publisher is resolved and refuses, and the session waits and resolves it again.
abbrev refused : List Event
refused =
    operation_ends 0 (done [])
    ∷ fails
    ∷ operation_ends 0 (done [])
    ∷ operation_ends 0 (done [])
    ∷ []

known-Resolved :
    (x : Operation) (c : Completion) (o : Operation) → Resolved x c → some x ≡ some o → Resolved o c
known-Resolved x c o r e = subst (λ y. Resolved y c) (some-injective x o e) r

refused-AllResolved : AllResolved little_endian refused (start constructed)
unfolding start resolve_endpoint step on_completed on_resolved on_connected connect_to_endpoint
    connection_failed_handler
refused-AllResolved = (
  λ o. known-Resolved (resolve 0) (done []) o tt,
  (
    λ o. known-Resolved (connect 0) failed o tt,
    (
      λ o. known-Resolved retry_wait (done []) o tt,
      (λ o. known-Resolved (resolve 0) (done []) o tt, tt),
    ),
  ),
)

run-start-AtFirst_example : All AtFirst (run little_endian refused (start constructed)).operations
unfolding new
run-start-AtFirst_example =
    run-start-AtFirst little_endian refused ("a", 1) (("b", 2) ∷ []) (pos 1) refl
      refused-AllResolved
