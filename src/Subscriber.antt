-- ===== src/Subscriber.antt =====
-- tcp_pubsub/src/subscriber_impl.{h,cpp}: the subscriber's list of sessions and its callbacks.
--
-- Callbacks of the user are numbers, and 0 is the empty one. `session` holds the session objects
-- by number; an operation on one also runs the callback for what it delivers, and the closed handler
-- that addSession gave to it. `callback_thread` is the thread's callback while there is a thread;
-- one turn of its loop is one step, and setCallback and cancel are one step each, called from
-- another thread, which joins the callback thread between two turns (Shutdown takes that apart).
-- `calls` lists the calls of callbacks with their buffers, `missing` counts the error "The
-- subscriber does not exist". Other log output is left out.
mod State
pub mod Mode
pub mod Callbacks
pub mod Mutex
pub mod Objects
pub mod Sessions
pub mod Everywhere
pub mod Ready
pub mod Silence
pub mod Voice
pub mod Delivery
pub mod Shutdown
pub mod Detached
pub mod Synchronous
pub mod Asynchronous
mod Examples
unfoldable pub use State.*
use tcp_pubsub.SubscriberSession
use tcp_pubsub.SubscriberSession.{
  SubscriberSession, Callback, call_user, store_data, start, set_synchronous_callback, Endpoint,
}
use tcp_pubsub.Base.{
  ◌==◌, if◌then◌else◌, ℕ, suc, Bool, true, false, ◌||◌, Option, none, some, List, [], ◌∷◌, ◌++◌,
  ltb, length, drop, ℤ, zero, ◌-◌,
}
use tcp_pubsub.Base.Ids.{contains, erase}
use tcp_pubsub.Wire.Endian.{Host, store}

unfoldable pub update : (ℕ → SubscriberSession) → ℕ → SubscriberSession → ℕ → SubscriberSession
update store id s other = if other == id then s else store other

-- A session calls the function that setCallbackToSession made.
unfoldable pub on_data : Callback → List ℕ → Subscriber → Subscriber
on_data (call_user c) buffer s =
    if s.user_callback_is_synchronous then record s { calls = s.calls ++ (c, buffer) ∷ [] } else s
on_data store_data buffer s =
    if s.user_callback_is_synchronous then s else record s { last_callback_data = some buffer }

-- The calls of synchronous_callback_, in order. An empty std::function would throw; it is never
-- called (Ready).
unfoldable pub on_deliveries : List (Option Callback × List ℕ) → Subscriber → Subscriber
unfolding on_data
on_deliveries [] s = s
on_deliveries ((none, buffer) ∷ more) s = on_deliveries more s
on_deliveries ((some c, buffer) ∷ more) s = on_deliveries more (on_data c buffer s)

-- subscriber_session_closed_handler
unfoldable pub subscriber_session_closed_handler : ℕ → Subscriber → Subscriber
unfolding contains erase
subscriber_session_closed_handler id s =
    if contains id s.session_list
    then record s { session_list = erase id s.session_list }
    else record s { missing = suc s.missing }

-- The handler is called a number of times.
unfoldable pub notify : ℕ → ℕ → Subscriber → Subscriber
unfolding subscriber_session_closed_handler
notify zero id s = s
notify (suc calls) id s = subscriber_session_closed_handler id (notify calls id s)

-- A step of a session, with the calls that it makes of the callback and of the closed handler.
unfoldable pub on_session : ℕ → (SubscriberSession → SubscriberSession) → Subscriber → Subscriber
unfolding update on_deliveries notify
on_session id operation s =
    let old = s.session id in
    let after = operation old in
    notify (after.closed_calls - old.closed_calls) id (
      on_deliveries (drop (length old.delivered) after.delivered)
        (record s { session = update s.session id after }))

-- The function that setCallbackToSession makes.
unfoldable pub session_callback : Subscriber → Callback
session_callback s =
    if s.user_callback_is_synchronous then call_user s.synchronous_user_callback else store_data

unfoldable pub set_callback_to_session : ℕ → Subscriber → Subscriber
unfolding on_session session_callback SubscriberSession.set_synchronous_callback
set_callback_to_session id s =
    on_session id (SubscriberSession.set_synchronous_callback (session_callback s)) s

-- A turn of the callback thread's loop: it waits without data, and ends when it is to stop.
unfoldable pub callback_thread_turn : Subscriber → Subscriber
callback_thread_turn s = elim s.callback_thread [
  | some c ↦ if s.callback_thread_stop then s else elim s.last_callback_data [
    | some buffer ↦ record s { last_callback_data = none; calls = s.calls ++ (c, buffer) ∷ [] }
    | none ↦ s
  ]
  | none ↦ s
]

-- The thread is told to stop, joined and removed.
unfoldable pub stop_callback_thread : Subscriber → Subscriber
stop_callback_thread s = elim s.callback_thread [
  | some c ↦ record s { callback_thread = none; callback_thread_stop = true }
  | none ↦ s
]

-- The loop over the list of sessions.
unfoldable pub renew_callbacks : List ℕ → Subscriber → Subscriber
unfolding set_callback_to_session
renew_callbacks [] s = s
renew_callbacks (id ∷ ids) s = renew_callbacks ids (set_callback_to_session id s)

-- The new callback, and for an asynchronous one its thread, after the old thread is gone.
unfoldable pub change_callback : ℕ → Bool → Subscriber → Subscriber
change_callback callback_function true s = record s {
  synchronous_user_callback = callback_function;
  user_callback_is_synchronous = true;
  last_callback_data = none;
}
change_callback callback_function false s = record s {
  synchronous_user_callback = 0;
  user_callback_is_synchronous = false;
  callback_thread_stop = false;
  callback_thread = some callback_function;
}

unfoldable pub set_callback : ℕ → Bool → Subscriber → Subscriber
unfolding stop_callback_thread change_callback renew_callbacks
set_callback callback_function synchronous_execution s =
    let t = change_callback callback_function synchronous_execution (stop_callback_thread s) in
    if synchronous_execution || s.user_callback_is_synchronous
    then renew_callbacks s.session_list t
    else t

-- The end of addSession: the session gets the callback, is listed and started.
unfoldable pub enter_session : ℕ → Subscriber → Subscriber
unfolding set_callback_to_session on_session SubscriberSession.start
enter_session id s =
    let t = set_callback_to_session id s in
    on_session id SubscriberSession.start (record t { session_list = t.session_list ++ id ∷ [] })

-- addSession behind the constructor of the session, which throws for an empty list of publishers.
unfoldable pub admit : Option SubscriberSession → Subscriber → Option Subscriber
unfolding enter_session update
admit none s = none
admit (some constructed) s = some (
    enter_session s.next_id
      (record s { session = update s.session s.next_id constructed; next_id = suc s.next_id }))

unfoldable pub add_session : List Endpoint → ℤ → Subscriber → Option Subscriber
unfolding SubscriberSession.new admit
add_session publisher_list max_reconnection_attempts s =
    admit (SubscriberSession.new publisher_list max_reconnection_attempts) s

-- A call that throws leaves the subscriber as it was.
abbrev pub unless_thrown : Option Subscriber → Subscriber → Subscriber
unless_thrown none s = s
unless_thrown (some t) s = t

-- The loop of cancel over the list of sessions.
unfoldable pub cancel_sessions : List ℕ → Subscriber → Subscriber
unfolding on_session SubscriberSession.cancel
cancel_sessions [] s = s
cancel_sessions (id ∷ ids) s = cancel_sessions ids (on_session id SubscriberSession.cancel s)

unfoldable pub cancel : Subscriber → Subscriber
unfolding cancel_sessions stop_callback_thread
cancel s =
    let t = stop_callback_thread (cancel_sessions s.session_list s) in
    record t { synchronous_user_callback = 0; user_callback_is_synchronous = true }

-- What can happen to a subscriber: calls of its owner, a turn of the callback thread, and what
-- happens to one of its sessions.
pub data Event : Type 0 where
  set_callback_call : ℕ → Bool → Event
  add_session_call : List Endpoint → ℤ → Event
  cancel_call : Event
  thread_turns : Event
  session_event : ℕ → SubscriberSession.Event → Event

unfoldable pub step : Host → Event → Subscriber → Subscriber
unfolding set_callback add_session cancel callback_thread_turn on_session SubscriberSession.step
step h (set_callback_call c synchronous) s = set_callback c synchronous s
step h (add_session_call publisher_list attempts) s =
    unless_thrown (add_session publisher_list attempts s) s
step h cancel_call s = cancel s
step h thread_turns s = callback_thread_turn s
step h (session_event id e) s =
    if ltb id s.next_id then on_session id (SubscriberSession.step h e) s else s

unfoldable pub run : Host → List Event → Subscriber → Subscriber
run h [] s = s
run h (e ∷ es) s = run h es (step h e s)
