-- ===== src/Subscriber/Detached.antt =====
-- Subscriber_Impl: setCallback that is called from the callback thread itself (subscriber_impl.cpp).
-- The thread sets callback_thread_stop_, notifies, and detaches itself, as it cannot join itself;
-- for an asynchronous callback it then resets the flag and starts a new thread. Between the two
-- stores the other threads run. All threads share the flag and last_callback_data_, and each has
-- the callback function that it was started with.
pub mod Lives
pub mod Survival
mod Examples
use tcp_pubsub.Base.{
  if◌then◌else◌, get_elem?, ℕ, zero, suc, Bool, true, false, Option, none, some, List, [], ◌∷◌,
  ◌++◌, length, ◌-◌,
}

-- Where a callback thread stands: in front of the test of its wait, in the user's callback, in a
-- call of setCallback from there behind the notification, or behind its end.
pub data WorkerAt : Type 0 where
  waits_for_data in_callback : WorkerAt
  in_set_callback : (callback_function : ℕ) → WorkerAt
  thread_ended : WorkerAt

pub record Worker : Type 0 where
  pub callback_function : ℕ
  pub at : WorkerAt

pub record Workers : Type 0 where
  pub callback_thread_stop : Bool
  pub last_callback_data : Option (List ℕ)
  -- the callback threads that were ever started, detached ones too
  pub workers : List Worker
  pub calls : List (ℕ × List ℕ)

unfoldable pub set_at : ℕ → WorkerAt → List Worker → List Worker
set_at i a [] = []
set_at zero a (w ∷ ws) = record w { at = a } ∷ ws
set_at (suc i) a (w ∷ ws) = w ∷ set_at i a ws

-- The rest of setCallback for an asynchronous callback, in thread i: the flag is reset, and a thread
-- is started.
unfoldable pub start_new_thread : ℕ → ℕ → Workers → Workers
unfolding set_at
start_new_thread i c s = record s {
  callback_thread_stop = false;
  workers =
      set_at i in_callback s.workers ++ record { callback_function = c; at = waits_for_data } ∷ [];
}

-- A thread that waits tests the flag and the data, and goes up to the call of the user's callback or
-- to its end; from the callback it comes back, and from setCallback it goes on with its rest.
unfoldable pub worker_turn : ℕ → Worker → Workers → Workers
unfolding set_at start_new_thread
worker_turn i w s = elim w.at [
  | waits_for_data ↦
      if s.callback_thread_stop
      then record s { workers = set_at i thread_ended s.workers }
      else elim s.last_callback_data [
        | some buffer ↦ record s {
          last_callback_data = none;
          workers = set_at i in_callback s.workers;
          calls = s.calls ++ (w.callback_function, buffer) ∷ [];
        }
        | none ↦ s
      ]
  | in_callback ↦ record s { workers = set_at i waits_for_data s.workers }
  | in_set_callback c ↦ start_new_thread i c s
  | thread_ended ↦ s
]

-- setCallback for an asynchronous callback, from the callback of thread i, up to the notification.
unfoldable pub stop_all_threads : ℕ → ℕ → Worker → Workers → Workers
unfolding set_at
stop_all_threads i c w s = elim w.at [
  | in_callback ↦ record s {
    callback_thread_stop = true;
    workers = set_at i (in_set_callback c) s.workers;
  }
  | waits_for_data ↦ s
  | in_set_callback d ↦ s
  | thread_ended ↦ s
]

-- What can happen: a message is stored, a thread takes its turn, or callback_thread_, which is the
-- thread that was started last, calls setCallback. From any other thread, setCallback joins
-- callback_thread_ (Shutdown).
pub data Event : Type 0 where
  message_stored : List ℕ → Event
  worker_turns : ℕ → Event
  sets_callback : (callback_function : ℕ) → Event

abbrev pub current : Workers → ℕ
current s = length s.workers - 1

unfoldable pub step : Event → Workers → Workers
unfolding worker_turn stop_all_threads
step (message_stored b) s = record s { last_callback_data = some b }
step (worker_turns i) s = elim (get_elem? s.workers i) [ some w ↦ worker_turn i w s | none ↦ s ]
step (sets_callback c) s = elim (get_elem? s.workers (current s)) [
  | some w ↦ stop_all_threads (current s) c w s
  | none ↦ s
]

unfoldable pub run : List Event → Workers → Workers
run [] s = s
run (e ∷ es) s = run es (step e s)
