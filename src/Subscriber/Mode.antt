-- ===== src/Subscriber/Mode.antt =====
-- Subscriber_Impl: what its sessions do leaves the callback that is set, and its thread, alone.
use tcp_pubsub.SubscriberSession
use tcp_pubsub.Base.{
  length, drop, ℕ, zero, suc, ◌-◌, ◌≡◌, refl, ◌∙◌, Option, none, some, List, [], ◌∷◌, ◌++◌, arith,
}
use tcp_pubsub.Subscriber.{
  Subscriber, update, on_data, on_deliveries, subscriber_session_closed_handler, notify, on_session,
  set_callback_to_session, renew_callbacks, enter_session, cancel_sessions, session_callback,
}
use tcp_pubsub.SubscriberSession.{
  Callback, call_user, store_data, SubscriberSession, start, set_synchronous_callback,
}

-- The callback and the thread of one state are those of another.
pub record SameMode (s t : Subscriber) : Type 0 where
  pub mode : t.user_callback_is_synchronous ≡ s.user_callback_is_synchronous
  pub callback : t.synchronous_user_callback ≡ s.synchronous_user_callback
  pub thread : t.callback_thread ≡ s.callback_thread
  pub stop : t.callback_thread_stop ≡ s.callback_thread_stop
  pub known : t.next_id ≡ s.next_id

pub SameMode-refl : (s : Subscriber) → SameMode s s
SameMode-refl s = ground arith

pub SameMode-trans : {s t u : Subscriber} → SameMode s t → SameMode t u → SameMode s u
SameMode-trans f g = record {
  mode = g.mode ∙ f.mode;
  callback = g.callback ∙ f.callback;
  thread = g.thread ∙ f.thread;
  stop = g.stop ∙ f.stop;
  known = g.known ∙ f.known;
}

pub on_data-mode :
    (c : Callback) (buffer : List ℕ) (s : Subscriber) → SameMode s (on_data c buffer s)
unfolding on_data
on_data-mode (call_user c) buffer s = ground arith
on_data-mode store_data buffer s = ground arith

pub on_deliveries-mode :
    (ds : List (Option Callback × List ℕ)) (s : Subscriber) → SameMode s (on_deliveries ds s)
unfolding on_deliveries
on_deliveries-mode [] s = ground arith
on_deliveries-mode ((none, b) ∷ ds) s = on_deliveries-mode ds s
on_deliveries-mode ((some c, b) ∷ ds) s =
    SameMode-trans (on_data-mode c b s) (on_deliveries-mode ds (on_data c b s))

closed-mode : (id : ℕ) (s : Subscriber) → SameMode s (subscriber_session_closed_handler id s)
unfolding subscriber_session_closed_handler
closed-mode id s = ground arith

notify-mode : (n id : ℕ) (s : Subscriber) → SameMode s (notify n id s)
unfolding notify
notify-mode zero id s = ground arith
notify-mode (suc n) id s = SameMode-trans (notify-mode n id s) (closed-mode id (notify n id s))

pub on_session-mode :
    (id : ℕ) (operation : SubscriberSession → SubscriberSession) (s : Subscriber)
    → SameMode s (on_session id operation s)
unfolding on_session
on_session-mode id operation s =
    let old = s.session id in
    let after = operation old in
    let t : Subscriber = record s { session = update s.session id after } in
    let given = drop (length old.delivered) after.delivered in
    let f : SameMode s t = record {
      mode = refl;
      callback = refl;
      thread = refl;
      stop = refl;
      known = refl;
    } in
    SameMode-trans f (
      SameMode-trans (on_deliveries-mode given t)
        (notify-mode (after.closed_calls - old.closed_calls) id (on_deliveries given t)))

set_callback_to_session-mode : (id : ℕ) (s : Subscriber) → SameMode s (set_callback_to_session id s)
unfolding set_callback_to_session
set_callback_to_session-mode id s =
    on_session-mode id (SubscriberSession.set_synchronous_callback (session_callback s)) s

pub renew_callbacks-mode : (ids : List ℕ) (s : Subscriber) → SameMode s (renew_callbacks ids s)
unfolding renew_callbacks
renew_callbacks-mode [] s = ground arith
renew_callbacks-mode (id ∷ ids) s =
    SameMode-trans (set_callback_to_session-mode id s)
      (renew_callbacks-mode ids (set_callback_to_session id s))

pub cancel_sessions-mode : (ids : List ℕ) (s : Subscriber) → SameMode s (cancel_sessions ids s)
unfolding cancel_sessions
cancel_sessions-mode [] s = ground arith
cancel_sessions-mode (id ∷ ids) s =
    SameMode-trans (on_session-mode id SubscriberSession.cancel s)
      (cancel_sessions-mode ids (on_session id SubscriberSession.cancel s))

pub enter_session-mode : (id : ℕ) (s : Subscriber) → SameMode s (enter_session id s)
unfolding enter_session
enter_session-mode id s =
    let t = set_callback_to_session id s in
    let f = set_callback_to_session-mode id s in
    let listed : SameMode s (record t { session_list = t.session_list ++ id ∷ [] }) = record {
      mode = f.mode;
      callback = f.callback;
      thread = f.thread;
      stop = f.stop;
      known = f.known;
    } in
    SameMode-trans listed (
      on_session-mode id SubscriberSession.start
        (record t { session_list = t.session_list ++ id ∷ [] }))
