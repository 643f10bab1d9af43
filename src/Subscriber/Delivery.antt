-- ===== src/Subscriber/Delivery.antt =====
-- From Publisher_Impl::send to the user's callback: a session of the subscriber and its callbacks
-- together.
use tcp_pubsub.SubscriberSession.{SubscriberSession, call_user, store_data}
use tcp_pubsub.Base.{
  length, drop, drop-append, ℕ, ◌<◌, ◌≡◌, refl, sym, ap, ◌∙◌, some, List, [], ◌∷◌, ◌++◌, append-nil,
  append_assoc, arith, true,
}
use tcp_pubsub.Subscriber.{Subscriber, on_data, on_deliveries, run, callback_thread_turn}
use tcp_pubsub.Wire.Endian.{Host}
use tcp_pubsub.Subscriber.Callbacks.{Inv, stores, stores_lem, is_some}
use tcp_pubsub.SubscriberSession.Receive.{
  Waits, prepared, stream, Calls, with_callback, stream_delivered,
}
use tcp_pubsub.Publisher.Message.{Payload}
use tcp_pubsub.Subscriber.Voice.{session_events, all_given, all_given_lem, run_heard}

-- The calls of a synchronous callback.
abbrev pub called : ℕ → List (List ℕ) → List (ℕ × List ℕ)
called c [] = []
called c (b ∷ bs) = (c, b) ∷ called c bs

calls_user :
    (c : ℕ) (all : List (List ℕ)) (s : Subscriber)
    → s.user_callback_is_synchronous ≡ true
    → (on_deliveries (with_callback (some (call_user c)) all) s).calls ≡ s.calls ++ called c all
unfolding on_deliveries on_data
calls_user c [] s sync = sym (append-nil s.calls)
calls_user c (b ∷ bs) s sync =
    let t : Subscriber = record s { calls = s.calls ++ (c, b) ∷ [] } in
    let first : on_data (call_user c) b s ≡ t = ground arith in
    ap (λ r. (on_deliveries (with_callback (some (call_user c)) bs) r).calls) first
    ∙ calls_user c bs t sync
    ∙ append_assoc s.calls ((c, b) ∷ []) (called c bs)

-- What a waiting session is given when a publisher's messages arrive.
pub given_stream :
    (sender receiver : Host) {calls : List (List ℕ × List Payload)} {all : List (List ℕ)}
    (s : SubscriberSession)
    → Calls calls all
    → Waits s
    → all_given receiver (stream (prepared sender calls)) s
      ≡ with_callback s.synchronous_callback all
given_stream sender receiver {calls} {all} s g w =
    let es = stream (prepared sender calls) in
    let all_of = all_given receiver es s in
    let n = length s.delivered in
    sym (drop-append n s.delivered all_of refl)
    ∙ ap (drop n) (sym (all_given_lem receiver es s) ∙ (stream_delivered sender receiver s g w).1)
    ∙ drop-append n s.delivered (with_callback s.synchronous_callback all) refl

-- While the user's callback is synchronous, and when the buffers that send prepares for some calls,
-- each with some data, on a host of any byte order, arrive one after the other at a waiting session,
-- each leads to one call of the callback that the session was given, with the bytes of the payloads,
-- in the order in which they arrive.
pub messages_reach_user :
    (sender receiver : Host) {calls : List (List ℕ × List Payload)} {all : List (List ℕ)} (id c : ℕ)
    (s : Subscriber)
    → Calls calls all
    → id < s.next_id
    → Waits (s.session id)
    → (s.session id).synchronous_callback ≡ some (call_user c)
    → s.user_callback_is_synchronous ≡ true
    → (run receiver (session_events id (stream (prepared sender calls))) s).calls
      ≡ s.calls ++ called c all
messages_reach_user sender receiver {calls} {all} id c s g l w cb sync =
    let es = stream (prepared sender calls) in
    let heard = (run_heard receiver es id s l).0 in
    heard.calls
    ∙ ap (λ ds. (on_deliveries ds s).calls)
        (given_stream sender receiver (s.session id) g w ∙ ap (λ o. with_callback o all) cb)
    ∙ calls_user c all s sync

stores-eq :
    (more : List (List ℕ)) (last : List ℕ)
    → with_callback (some store_data) (more ++ last ∷ []) ≡ stores more last
stores-eq [] last = refl
stores-eq (b ∷ more) last = ap (◌∷◌ (some store_data, b)) (stores-eq more last)

-- While the user's callback is asynchronous with thread c, the messages of any calls of send that a
-- waiting session reads before the thread's next turn lead to one call of the callback, with the
-- bytes of the last one.
last_message_reaches_thread :
    (sender receiver : Host) {calls : List (List ℕ × List Payload)} (id c : ℕ)
    (more : List (List ℕ)) (last : List ℕ) (s : Subscriber)
    → Calls calls (more ++ last ∷ [])
    → id < s.next_id
    → Waits (s.session id)
    → (s.session id).synchronous_callback ≡ some store_data
    → Inv s
    → s.callback_thread ≡ some c
    → let t = run receiver (session_events id (stream (prepared sender calls))) s in
      (callback_thread_turn t).calls ≡ s.calls ++ (c, last) ∷ []
unfolding callback_thread_turn Inv is_some
last_message_reaches_thread sender receiver {calls} id c more last s g l w cb v thread =
    let es = stream (prepared sender calls) in
    let (heard, session, mode) = run_heard receiver es id s l in
    let given =
      given_stream sender receiver (s.session id) g w
      ∙ ap (λ o. with_callback o (more ++ last ∷ [])) cb
      ∙ stores-eq more last in
    let stored = ap (λ ds. on_deliveries ds s) given ∙ stores_lem more last s (ground arith) in
    let waits = heard.last ∙ ap (λ r. r.last_callback_data) stored in
    let before = heard.calls ∙ ap (λ r. r.calls) stored in
    ground (arith, mode.thread, mode.stop, waits, before)
