-- ===== src/Subscriber/Shutdown.antt =====
-- Subscriber_Impl: stopping the callback thread, one access at a time. setCallback and cancel store
-- callback_thread_stop_ and notify last_callback_data_cv_ without its mutex, and then join:
--
--   callback_thread_stop_ = true;
--   last_callback_data_cv_.notify_all();
--   callback_thread_->join();
--
-- The thread tests the predicate of its wait with the mutex held, and gives the mutex up as it goes
-- to sleep. A session stores a message and notifies with the mutex held.
pub mod Missed
pub mod Heard
mod Examples
use tcp_pubsub.Base.{
  if◌then◌else◌, ℕ, ◌≡◌, refl, Bool, true, false, ◌||◌, Option, none, some, List, [], ◌∷◌, ◌++◌,
  ◌-◌,
}

-- Where the callback thread stands: in front of the predicate, behind a predicate that was true,
-- behind one that was false and about to sleep, asleep, in the user's callback, or at its end.
pub data ThreadAt : Type 0 where
  testing : ThreadAt
  passed : ThreadAt
  falling_asleep : ThreadAt
  asleep : ThreadAt
  calling : List ℕ → ThreadAt
  ended : ThreadAt

-- Where the caller of setCallback or cancel stands: in front of the store, of the notification, of
-- the end of join, or behind it.
pub data StopperAt : Type 0 where
  before_store before_notify joining joined : StopperAt

pub record Shutdown : Type 0 where
  pub thread : ThreadAt
  pub stopper : StopperAt
  pub callback_thread_stop : Bool
  pub last_callback_data : Option (List ℕ)
  pub calls : List (List ℕ)

-- notify_all; a thread does not wake without it, though the standard allows that.
wake : ThreadAt → ThreadAt
wake asleep = testing
wake testing = testing
wake passed = passed
wake falling_asleep = falling_asleep
wake (calling b) = calling b
wake ended = ended

holds_mutex : ThreadAt → Bool
holds_mutex testing = true
holds_mutex passed = true
holds_mutex falling_asleep = true
holds_mutex asleep = false
holds_mutex (calling b) = false
holds_mutex ended = false

-- The swap, and the call that follows it.
take_data : Option (List ℕ) → Shutdown → Shutdown
take_data none s = record s { thread = calling [] }
take_data (some b) s = record s { thread = calling b; last_callback_data = none }

is_there : Option (List ℕ) → Bool
is_there none = false
is_there (some b) = true

-- The next access of the callback thread.
thread_moves : ThreadAt → Shutdown → Shutdown
unfolding take_data is_there
thread_moves testing s =
    if is_there s.last_callback_data || s.callback_thread_stop
    then record s { thread = passed }
    else record s { thread = falling_asleep }
thread_moves passed s =
    if s.callback_thread_stop then record s { thread = ended } else take_data s.last_callback_data s
thread_moves falling_asleep s = record s { thread = asleep }
thread_moves asleep s = s
thread_moves (calling b) s = record s { thread = testing; calls = s.calls ++ b ∷ [] }
thread_moves ended s = s

-- The next access of the caller. join returns when the thread has ended.
stopper_moves : StopperAt → Shutdown → Shutdown
unfolding wake
stopper_moves before_store s = record s { callback_thread_stop = true; stopper = before_notify }
stopper_moves before_notify s = record s { thread = wake s.thread; stopper = joining }
stopper_moves joining s = elim s.thread [ ended ↦ record s { stopper = joined } | other ↦ s ]
stopper_moves joined s = s

-- A session's callback, which waits for the mutex.
message_comes : List ℕ → Shutdown → Shutdown
unfolding wake holds_mutex
message_comes b s =
    if holds_mutex s.thread
    then s
    else record s { last_callback_data = some b; thread = wake s.thread }

pub data Event : Type 0 where
  thread stopper : Event
  message : List ℕ → Event

pub step : Event → Shutdown → Shutdown
unfolding thread_moves stopper_moves message_comes
step thread s = thread_moves s.thread s
step stopper s = stopper_moves s.stopper s
step (message b) s = message_comes b s

pub run : List Event → Shutdown → Shutdown
run [] s = s
run (e ∷ es) s = run es (step e s)

pub run-append : (xs ys : List Event) (s : Shutdown) → run (xs ++ ys) s ≡ run ys (run xs s)
unfolding run
run-append [] ys s = refl
run-append (x ∷ xs) ys s = run-append xs ys (step x s)
