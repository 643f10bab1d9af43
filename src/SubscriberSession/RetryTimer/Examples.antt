-- ===== src/SubscriberSession/RetryTimer/Examples.antt =====
-- The retry timer, at small inputs.
use tcp_pubsub.Base.{
  ltb, if◌then◌else◌, negsuc, ℕ, ◌+◌, ◌≤◌, refl, false, none, List, [], ◌∷◌, arith,
}
use tcp_pubsub.SubscriberSession.{
  SubscriberSession, new, Event, operation_ends, connection_failed_handler, resolve_endpoint, start,
  on_resolved, on_completed, step,
}
use tcp_pubsub.Asio.{failed, done}
use tcp_pubsub.Wire.Endian.{little_endian}
use tcp_pubsub.SubscriberSession.RetryTimer.{
  SteadyTimer, timed_start, timed_step, timed_run, AllPossible,
}
use tcp_pubsub.SubscriberSession.RetryTimer.Total.{waits_one_second}
use tcp_pubsub.SubscriberSession

-- A timer that is its expiry.
abbrev timer : SteadyTimer
timer = record {
  Timer = ℕ;
  construct = λ now duration. now + duration;
  wait_ends = λ expiry now. if ltb now expiry then expiry else now;
  expires = λ now duration later. refl;
}

-- A session without a limit of its retries cannot resolve the host of its one publisher: the first
-- retry waits until the timer expires, the second does not wait.
abbrev times : List (ℕ × Event)
times =
    (300, operation_ends 0 failed)
    ∷ (1000, operation_ends 0 (done []))
    ∷ (1200, operation_ends 0 failed)
    ∷ (1200, operation_ends 0 (done []))
    ∷ []

abbrev lone : SubscriberSession
lone = record {
  publisher_list = ("a", 1) ∷ [];
  connected_publisher_endpoint = ("", 0);
  max_reconnection_attempts = negsuc 0;
  retries_left = negsuc 0;
  canceled = false;
  socket_open = false;
  synchronous_callback = none;
  operations = [];
  strand = [];
  delivered = [];
  closed_calls = 0;
}

times-AllPossible : AllPossible timer little_endian times (timed_start timer 0 lone)
unfolding timed_start timed_step SubscriberSession.step SubscriberSession.start on_completed
    on_resolved resolve_endpoint connection_failed_handler
times-AllPossible = (
  record { in_time = omega arith; expired = λ i b e g. absurd (ground (arith, e)) },
  (
    record { in_time = omega arith; expired = λ i b e g. omega arith },
    (
      record { in_time = omega arith; expired = λ i b e g. absurd (ground (arith, e)) },
      (record { in_time = omega arith; expired = λ i b e g. omega arith }, tt),
    ),
  ),
)

waits_one_second_example :
    (timed_run timer little_endian times (timed_start timer 0 lone)).waited ≤ 1000
unfolding new
waits_one_second_example =
    waits_one_second timer little_endian 0 ("a", 1) [] (negsuc 0) times refl times-AllPossible
