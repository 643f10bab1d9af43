-- ===== src/Subscriber/Callbacks.antt =====
-- Subscriber_Impl::setCallback, the callback thread and cancel: the mode and the thread agree, and
-- the thread is given the newest message.
use tcp_pubsub.SubscriberSession
use tcp_pubsub.Base.{
  ltb, if◌then◌else◌, ℕ, ◌≡◌, refl, ap, ◌∙◌, Bool, true, false, not, ◌&&◌, ◌||◌, Option, none, some,
  List, [], ◌∷◌, ◌++◌, arith, suc,
}
use tcp_pubsub.Subscriber.{
  Subscriber, new, on_data, on_deliveries, on_session, callback_thread_turn, stop_callback_thread,
  renew_callbacks, change_callback, set_callback, add_session, cancel_sessions, cancel, Event,
  set_callback_call, add_session_call, cancel_call, thread_turns, session_event, step, run, update,
  enter_session, admit, unless_thrown,
}
use tcp_pubsub.Subscriber.Mode.{SameMode, on_session-mode, renew_callbacks-mode, enter_session-mode}
use tcp_pubsub.SubscriberSession.{Callback, store_data, SubscriberSession}
use tcp_pubsub.Wire.Endian.{Host}

unfoldable pub is_some : Option ℕ → Bool
is_some none = false
is_some (some c) = true

-- There is a callback thread exactly in the asynchronous mode, and it is not told to stop.
unfoldable pub Inv : Subscriber → Type 0
unfolding is_some
Inv s =
    (s.user_callback_is_synchronous ≡ not (is_some s.callback_thread))
    × (is_some s.callback_thread && s.callback_thread_stop ≡ false)

mode-Inv : (s t : Subscriber) → SameMode s t → Inv s → Inv t
unfolding Inv is_some
mode-Inv s t f i = (rw (f.mode, f.thread) i.0, rw (f.thread, f.stop) i.1)

either_way : (b : Bool) (x y : Subscriber) → Inv x → Inv y → Inv (if b then x else y)
either_way true x y i j = i
either_way false x y i j = j

stop_lem : (s : Subscriber) → (stop_callback_thread s).callback_thread ≡ none
unfolding stop_callback_thread
stop_lem s = ground arith

change_callback-Inv :
    (c : ℕ) (b : Bool) (s : Subscriber) → s.callback_thread ≡ none → Inv (change_callback c b s)
unfolding change_callback Inv is_some
change_callback-Inv c true s e = ground arith
change_callback-Inv c false s e = (refl, refl)

set_callback-Inv : (c : ℕ) (b : Bool) (s : Subscriber) → Inv (set_callback c b s)
unfolding set_callback
set_callback-Inv c b s =
    let t = change_callback c b (stop_callback_thread s) in
    let changed = change_callback-Inv c b (stop_callback_thread s) (stop_lem s) in
    either_way (b || s.user_callback_is_synchronous) (renew_callbacks s.session_list t) t
      (mode-Inv t (renew_callbacks s.session_list t) (renew_callbacks-mode s.session_list t)
        changed)
      changed

cancel-Inv : (s : Subscriber) → Inv (cancel s)
unfolding cancel Inv is_some
cancel-Inv s = let none_left = stop_lem (cancel_sessions s.session_list s) in ground arith

turn-Inv : (s : Subscriber) → Inv s → Inv (callback_thread_turn s)
unfolding callback_thread_turn Inv is_some
turn-Inv s i = ground arith

admit-Inv :
    (constructed : Option SubscriberSession) (s : Subscriber)
    → Inv s
    → Inv (unless_thrown (admit constructed s) s)
unfolding admit
admit-Inv none s i = i
admit-Inv (some c) s i =
    let t : Subscriber = record s {
      session = update s.session s.next_id c;
      next_id = suc s.next_id;
    } in
    mode-Inv t (enter_session s.next_id t) (enter_session-mode s.next_id t) (unfold Inv in i)

step-Inv : (h : Host) (e : Event) (s : Subscriber) → Inv s → Inv (step h e s)
unfolding step add_session
step-Inv h (set_callback_call c b) s i = set_callback-Inv c b s
step-Inv h (add_session_call ps attempts) s i = admit-Inv (SubscriberSession.new ps attempts) s i
step-Inv h cancel_call s i = cancel-Inv s
step-Inv h thread_turns s i = turn-Inv s i
step-Inv h (session_event id e) s i =
    let t = on_session id (SubscriberSession.step h e) s in
    either_way (ltb id s.next_id) t s
      (mode-Inv s t (on_session-mode id (SubscriberSession.step h e) s) i) i

run-Inv : (h : Host) (es : List Event) (s : Subscriber) → Inv s → Inv (run h es s)
unfolding run
run-Inv h [] s i = i
run-Inv h (e ∷ es) s i = run-Inv h es (step h e s) (step-Inv h e s i)

-- From the constructor on, through any events, there is a callback thread exactly while the user's
-- callback is asynchronous, and a thread that is there is not told to stop.
pub run-new-Inv :
    (h : Host) (session : ℕ → SubscriberSession) (es : List Event) → Inv (run h es (new session))
unfolding new Inv is_some
run-new-Inv h session es = run-Inv h es (new session) (refl, refl)

-- Messages for the callback thread, the last one given by itself.
abbrev pub stores : List (List ℕ) → List ℕ → List (Option Callback × List ℕ)
stores [] last = (some store_data, last) ∷ []
stores (buffer ∷ more) last = (some store_data, buffer) ∷ stores more last

pub stores_lem :
    (more : List (List ℕ)) (last : List ℕ) (s : Subscriber)
    → s.user_callback_is_synchronous ≡ false
    → on_deliveries (stores more last) s ≡ record s { last_callback_data = some last }
unfolding on_deliveries on_data
stores_lem [] last s e = ground arith
stores_lem (buffer ∷ more) last s e =
    let stored : on_data store_data buffer s ≡ record s { last_callback_data = some buffer } =
      ground arith in
    ap (on_deliveries (stores more last)) stored
    ∙ stores_lem more last (record s { last_callback_data = some buffer }) e

-- While the user's callback is asynchronous with thread c, the next turn of the thread after any
-- messages calls c once, with the last message, and takes it; the messages before are not given to
-- any callback.
latest_message_wins :
    (c : ℕ) (more : List (List ℕ)) (last : List ℕ) (s : Subscriber)
    → Inv s
    → s.callback_thread ≡ some c
    → callback_thread_turn (on_deliveries (stores more last) s)
      ≡ record s { last_callback_data = none; calls = s.calls ++ (c, last) ∷ [] }
unfolding Inv is_some callback_thread_turn
latest_message_wins c more last s i t =
    ap callback_thread_turn (stores_lem more last s (ground arith)) ∙ ground arith
