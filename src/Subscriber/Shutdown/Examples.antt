-- ===== src/Subscriber/Shutdown/Examples.antt =====
-- Stopping the callback thread, at small inputs.
use tcp_pubsub.Base.{◌≡◌, refl, true, false, none, [], ◌∷◌, ◌++◌, arith}
use tcp_pubsub.Subscriber.Shutdown.{
  testing, asleep, calling, ended, before_store, before_notify, joining, joined, Shutdown, thread,
  stopper, message, run,
}
use tcp_pubsub.Subscriber.Shutdown.Missed.{thread_mover, stopper_mover, moves, missed, stop_missed}
use tcp_pubsub.Subscriber.Shutdown.Heard.{stop_heard}

-- The thread has just been started, and setCallback is called.
abbrev idle : Shutdown
idle = record {
  thread = testing;
  stopper = before_store;
  callback_thread_stop = false;
  last_callback_data = none;
  calls = [];
}

stop_missed_example :
    let t = run (missed ++ moves (thread_mover ∷ stopper_mover ∷ [])) idle in
    (t.thread ≡ asleep) × (t.stopper ≡ joining) × (t.callback_thread_stop ≡ true)
stop_missed_example = stop_missed (thread_mover ∷ stopper_mover ∷ []) idle refl refl refl refl

abbrev called : Shutdown
called = record idle {
  thread = calling (1 ∷ []);
  stopper = before_notify;
  callback_thread_stop = true;
}

stop_heard_example :
    let es = thread ∷ message (2 ∷ []) ∷ thread ∷ thread ∷ [] in
    let t = run (stopper ∷ es ++ stopper ∷ []) called in (t.thread ≡ ended) × (t.stopper ≡ joined)
stop_heard_example =
    stop_heard (thread ∷ message (2 ∷ []) ∷ thread ∷ thread ∷ []) called refl refl (λ e. cc)
      (omega arith)
