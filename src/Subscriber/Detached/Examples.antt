-- ===== src/Subscriber/Detached/Examples.antt =====
-- setCallback from a callback thread, at small inputs.
use tcp_pubsub.Base.{◌≡◌, refl, false, none, List, [], ◌∷◌, ◌++◌}
use tcp_pubsub.Subscriber.Detached.{
  in_callback, Worker, Workers, Event, message_stored, worker_turns, sets_callback, run,
}
use tcp_pubsub.Subscriber.Detached.Survival.{old_callback_survives}

-- The thread of callback 1 is in its callback.
abbrev one_worker : Worker
one_worker = record { callback_function = 1; at = in_callback }

abbrev in_first : Workers
in_first = record {
  callback_thread_stop = false;
  last_callback_data = none;
  workers = one_worker ∷ [];
  calls = [];
}

-- Callback 1 sets callback 2, a message comes, and the new thread takes it.
abbrev replaced : List Event
replaced = worker_turns 0 ∷ message_stored (5 ∷ []) ∷ worker_turns 1 ∷ []

old_callback_survives_example :
    let t = run (sets_callback 2 ∷ replaced) in_first in
    (more : List Event) × ((run (more ++ message_stored (6 ∷ []) ∷ worker_turns 0 ∷ []) t).calls
      ≡ t.calls ++ (1, 6 ∷ []) ∷ [])
old_callback_survives_example =
    old_callback_survives 2 (6 ∷ []) replaced one_worker in_first refl refl tt
