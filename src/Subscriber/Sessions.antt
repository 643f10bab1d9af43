-- ===== src/Subscriber/Sessions.antt =====
-- Subscriber_Impl: the list of sessions, from addSession to the closed handlers.
use tcp_pubsub.SubscriberSession
use tcp_pubsub.Base.{
  ltb, ◌==◌, if◌then◌else◌, ℕ, suc, ◌≤◌, ◌≡◌, refl, ◌&&◌, Option, none, some, List, [], ◌∷◌, arith,
  Bool, true, false, ◌||◌, ℤ,
}
use tcp_pubsub.Base.Ids.{
  contains, Distinct, contains-erase, erase-Distinct, contains-append, append-Distinct,
}
use tcp_pubsub.Subscriber.{
  Subscriber, update, on_session, session_callback, set_callback_to_session, callback_thread_turn,
  stop_callback_thread, renew_callbacks, change_callback, set_callback, cancel_sessions, cancel,
  new, admit, add_session, unless_thrown, Event, set_callback_call, add_session_call, cancel_call,
  thread_turns, session_event, step, run,
}
use tcp_pubsub.Subscriber.Mode.{on_session-mode}
use tcp_pubsub.SubscriberSession.{
  Callback, call_user, store_data, SubscriberSession, set_synchronous_callback, Endpoint, start,
}
use tcp_pubsub.SubscriberSession.Growth.{
  set_synchronous_callback-SameCalls, cancel-SameCalls, step-Grows,
}
use tcp_pubsub.Wire.Endian.{Host}
use tcp_pubsub.Subscriber.Mutex.{enter_session_lem}
use tcp_pubsub.Subscriber.Objects.{on_session-objects, on_session_lem}

-- Exactly the sessions that were added and have not called their closed handler are in the list,
-- each once.
pub record Listed (s : Subscriber) : Type 0 where
  pub distinct : Distinct s.session_list
  pub entries :
      (id : ℕ) → contains id s.session_list ≡ ltb id s.next_id && (s.session id).closed_calls == 0

on_session-Listed :
    (id : ℕ) (operation : SubscriberSession → SubscriberSession) (s : Subscriber)
    → ((r : SubscriberSession) → r.closed_calls ≤ (operation r).closed_calls)
    → Listed s
    → Listed (on_session id operation s)
unfolding update
on_session-Listed id operation s grows v =
    let f = on_session_lem id operation s v.distinct in
    let objects = on_session-objects id operation s in
    let m = on_session-mode id operation s in
    record {
      distinct = ground (arith, f, erase-Distinct id s.session_list v.distinct);
      entries = λ j.
          rw (objects, m.known)
            (ground (
              arith,
              f,
              grows (s.session id),
              v.entries j,
              v.entries id,
              contains-erase id j s.session_list v.distinct,
            ));
    }

set_callback_to_session-Listed :
    (id : ℕ) (s : Subscriber) → Listed s → Listed (set_callback_to_session id s)
unfolding set_callback_to_session
set_callback_to_session-Listed id s v =
    let c = session_callback s in
    on_session-Listed id (SubscriberSession.set_synchronous_callback c) s
      (λ r. omega (arith, (set_synchronous_callback-SameCalls c r).1)) v

renew_callbacks-Listed : (ids : List ℕ) (s : Subscriber) → Listed s → Listed (renew_callbacks ids s)
unfolding renew_callbacks
renew_callbacks-Listed [] s v = v
renew_callbacks-Listed (id ∷ ids) s v =
    renew_callbacks-Listed ids (set_callback_to_session id s)
      (set_callback_to_session-Listed id s v)

cancel_sessions-Listed : (ids : List ℕ) (s : Subscriber) → Listed s → Listed (cancel_sessions ids s)
unfolding cancel_sessions
cancel_sessions-Listed [] s v = v
cancel_sessions-Listed (id ∷ ids) s v =
    cancel_sessions-Listed ids (on_session id SubscriberSession.cancel s) (
      on_session-Listed id SubscriberSession.cancel s (λ r. omega (arith, (cancel-SameCalls r).1))
        v)

-- What does not touch the list and the sessions.
same-Listed :
    (s t : Subscriber)
    → t.session_list ≡ s.session_list
    → t.session ≡ s.session
    → t.next_id ≡ s.next_id
    → Listed s
    → Listed t
same-Listed s t l o n v = record {
  distinct = rw l v.distinct;
  entries = λ id. rw (l, o, n) (v.entries id);
}

stop-Listed : (s : Subscriber) → Listed s → Listed (stop_callback_thread s)
unfolding stop_callback_thread
stop-Listed s v =
    same-Listed s (stop_callback_thread s) (ground arith) (ground arith) (ground arith) v

change-Listed : (c : ℕ) (b : Bool) (s : Subscriber) → Listed s → Listed (change_callback c b s)
unfolding change_callback
change-Listed c true s v = record { distinct = v.distinct; entries = v.entries }
change-Listed c false s v = record { distinct = v.distinct; entries = v.entries }

either_way : (b : Bool) (x y : Subscriber) → Listed x → Listed y → Listed (if b then x else y)
either_way true x y i j = i
either_way false x y i j = j

set_callback-Listed : (c : ℕ) (b : Bool) (s : Subscriber) → Listed s → Listed (set_callback c b s)
unfolding set_callback
set_callback-Listed c b s v =
    let t = change_callback c b (stop_callback_thread s) in
    let w = change-Listed c b (stop_callback_thread s) (stop-Listed s v) in
    either_way (b || s.user_callback_is_synchronous) (renew_callbacks s.session_list t) t
      (renew_callbacks-Listed s.session_list t w) w

cancel-Listed : (s : Subscriber) → Listed s → Listed (cancel s)
unfolding cancel
cancel-Listed s v =
    let w =
      stop-Listed (cancel_sessions s.session_list s) (cancel_sessions-Listed s.session_list s v) in
    record { distinct = w.distinct; entries = w.entries }

turn-Listed : (s : Subscriber) → Listed s → Listed (callback_thread_turn s)
unfolding callback_thread_turn
turn-Listed s v =
    same-Listed s (callback_thread_turn s) (ground arith) (ground arith) (ground arith) v

-- addSession with the session that it constructs, which has called nothing.
admit-Listed :
    (constructed : Option SubscriberSession) (s : Subscriber)
    → ((c : SubscriberSession) → constructed ≡ some c → c.closed_calls ≡ 0)
    → Listed s
    → Listed (unless_thrown (admit constructed s) s)
unfolding admit update
admit-Listed none s z v = v
admit-Listed (some c) s z v =
    let id = s.next_id in
    let t : Subscriber = record s { session = update s.session id c; next_id = suc id } in
    let f = enter_session_lem id t in
    let out : contains id s.session_list ≡ false = ground (arith, v.entries id) in
    record {
      distinct = rw f.0 (append-Distinct s.session_list id v.distinct out);
      entries = λ j.
          rw (f.0, f.2.0, f.2.1 j, contains-append j s.session_list (id ∷ []))
            (ground (arith, v.entries j, z c refl));
    }

new_calls :
    (ps : List Endpoint) (attempts : ℤ) (c : SubscriberSession)
    → SubscriberSession.new ps attempts ≡ some c
    → c.closed_calls ≡ 0
unfolding SubscriberSession.new
new_calls [] attempts c e = cc
new_calls (p ∷ ps) attempts c e = ground arith

step-Listed : (h : Host) (e : Event) (s : Subscriber) → Listed s → Listed (step h e s)
unfolding step add_session
step-Listed h (set_callback_call c b) s v = set_callback-Listed c b s v
step-Listed h (add_session_call ps attempts) s v =
    admit-Listed (SubscriberSession.new ps attempts) s (new_calls ps attempts) v
step-Listed h cancel_call s v = cancel-Listed s v
step-Listed h thread_turns s v = turn-Listed s v
step-Listed h (session_event id e) s v =
    let t = on_session id (SubscriberSession.step h e) s in
    either_way (ltb id s.next_id) t s
      (on_session-Listed id (SubscriberSession.step h e) s (λ r. (step-Grows h e r).1) v) v

run-Listed : (h : Host) (es : List Event) (s : Subscriber) → Listed s → Listed (run h es s)
unfolding run
run-Listed h [] s v = v
run-Listed h (e ∷ es) s v = run-Listed h es (step h e s) (step-Listed h e s v)

-- From the constructor on, through any calls and any events of the sessions, the list holds exactly
-- the sessions that were added and have not called their closed handler, each once.
pub run-new-Listed :
    (h : Host) (session : ℕ → SubscriberSession) (es : List Event) → Listed (run h es (new session))
unfolding new contains
run-new-Listed h session es =
    run-Listed h es (new session) (record { distinct = tt; entries = λ id. ground arith })
