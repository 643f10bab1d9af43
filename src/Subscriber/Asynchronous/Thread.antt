-- ===== src/Subscriber/Asynchronous/Thread.antt =====
-- Subscriber_Impl: what a session reads, through the box, to the callback thread.
use mathlib.Core.List.{Sublist, Sublistᴰ}
use mathlib.Core.List.Sublistᴰ
use mathlib.Core.Path.{subst}
use tcp_pubsub.SubscriberSession
use tcp_pubsub.Base.{
  last_or, at_most_one, All, ℕ, ◌<◌, ◌≡◌, refl, sym, ap, ◌∙◌, Option, none, some, List, [], ◌∷◌,
  ◌++◌, append-nil, arith,
}
use tcp_pubsub.Subscriber.{Subscriber, on_session, callback_thread_turn, session_event, step, run}
use tcp_pubsub.SubscriberSession.{Callback, store_data, SubscriberSession}
use tcp_pubsub.Subscriber.Delivery.{called, given_stream}
use tcp_pubsub.Subscriber.Voice.{step_heard, all_given, step_known, stepped}
use tcp_pubsub.Subscriber.Mode.{on_session-mode}
use tcp_pubsub.Subscriber.Callbacks.{is_some, Inv}
use tcp_pubsub.Wire.Endian.{Host}
use tcp_pubsub.SubscriberSession.Growth.{gives}
use tcp_pubsub.SubscriberSession.Receive.{Waits, prepared, stream, Calls, with_callback}
use tcp_pubsub.Publisher.Message.{Payload}
use tcp_pubsub.Subscriber.Asynchronous.{
  waiting, Moment, reads, turns, moments, reads_of, Threaded, Stored, bytes_of, stored_lem,
  turn-Threaded, turn-session, bytes_of-append, append-All-Stored, with_callback-Stored,
  bytes_of-with_callback,
}
use tcp_pubsub.Subscriber.Asynchronous.Box.{Hears, stored_first, turn_first}

-- What the session gives to its callback in the course of them.
given_in : Host → List Moment → SubscriberSession → List (Option Callback × List ℕ)
given_in h ms r = all_given h (reads_of ms) r

run-Hears :
    (h : Host) (ms : List Moment) (id c : ℕ) (s : Subscriber)
    → Threaded id c s
    → All Stored (given_in h ms (s.session id))
    → Hears c s (run h (moments id ms) s) (bytes_of (given_in h ms (s.session id)))
unfolding run step given_in all_given
run-Hears h [] id c s v a = record {
  heard = [];
  calls = sym (append-nil s.calls);
  in_order =
      subst (Sublistᴰ (waiting s)) (sym (append-nil (waiting s))) (Sublistᴰ.refl (waiting s));
  newest = λ d. ap (last_or d) (sym (append-nil (waiting s)));
}
run-Hears h (reads e ∷ ms) id c s v a =
    let t = on_session id (SubscriberSession.step h e) s in
    let m = on_session-mode id (SubscriberSession.step h e) s in
    let now = gives e (s.session id) in
    let later = given_in h ms (SubscriberSession.step h e (s.session id)) in
    let (a_now, a_later) = append-All-Stored now later a in
    let heard = step_heard h e id s in
    let stored = stored_lem now s a_now v.asynchronous in
    let w : Threaded id c t = record {
      known = omega (arith, m.known, v.known);
      asynchronous = m.mode ∙ v.asynchronous;
      thread = m.thread ∙ v.thread;
      goes_on = m.stop ∙ v.goes_on;
    } in
    let after = stepped h e id s in
    let rest = rw after at (run-Hears h ms id c t w (rw after a_later)) in
    subst (λ bs. Hears c s (run h (session_event id e ∷ moments id ms) s) bs)
      (sym (bytes_of-append now later))
      (stored_first c s t (run h (session_event id e ∷ moments id ms) s) (bytes_of now)
        (bytes_of later) (heard.calls ∙ ap (λ (r : Subscriber). r.calls) stored)
        (heard.last ∙ ap (λ (r : Subscriber). r.last_callback_data) stored)
        (subst (λ u. Hears c t (run h (moments id ms) u) (bytes_of later))
          (sym (step_known h e id s v.known)) rest))
run-Hears h (turns ∷ ms) id c s v a =
    let t = callback_thread_turn s in
    let same : t.session ≡ s.session = turn-session s in
    let rest = rw same at (run-Hears h ms id c t (turn-Threaded id c s v) (rw same a)) in
    turn_first id c s (run h (moments id ms) t) (bytes_of (given_in h ms (s.session id)))
      s.last_callback_data refl v rest

-- While the user's callback is asynchronous with thread c, and no message waits for the thread, a
-- waiting session reads the messages of any calls of send with some data, and the thread takes its
-- turns anywhere in between. Then the thread has called c with the bytes of some of the calls, and
-- at most one message waits for its next turn; these are in the order of the calls, none twice, and
-- end with the last call of send.
pub thread_hears :
    (sender receiver : Host) {calls : List (List ℕ × List Payload)} {all : List (List ℕ)}
    (ms : List Moment) (id c : ℕ) (s : Subscriber)
    → Calls calls all
    → reads_of ms ≡ stream (prepared sender calls)
    → id < s.next_id
    → Waits (s.session id)
    → (s.session id).synchronous_callback ≡ some store_data
    → Inv s
    → s.callback_thread ≡ some c
    → s.last_callback_data ≡ none
    → let t = run receiver (moments id ms) s in
      (heard : List (List ℕ)) × (t.calls ≡ s.calls ++ called c heard)
      × Sublist (heard ++ waiting t) all
      × (last_or none (heard ++ waiting t) ≡ last_or none all)
unfolding Inv is_some given_in
thread_hears sender receiver {calls} {all} ms id c s g arrived known waits cb v thread empty =
    let given : given_in receiver ms (s.session id) ≡ with_callback (some store_data) all =
      ap (λ es. all_given receiver es (s.session id)) arrived
      ∙ given_stream sender receiver (s.session id) g waits
      ∙ ap (λ o. with_callback o all) cb in
    let ready : Threaded id c s = record {
      known = known;
      asynchronous = ground (arith, v, thread);
      thread = thread;
      goes_on = ground (arith, v, thread);
    } in
    let r = run-Hears receiver ms id c s ready (rw given (with_callback-Stored all)) in
    let t = run receiver (moments id ms) s in
    let bytes = bytes_of (given_in receiver ms (s.session id)) in
    let same : waiting s ++ bytes ≡ all =
      ap (λ o. at_most_one o ++ bytes) empty
      ∙ ap bytes_of given
      ∙ bytes_of-with_callback (some store_data) all in
    (
      r.heard,
      r.calls,
      ∣ subst (Sublistᴰ (r.heard ++ waiting t)) same r.in_order ∣₁,
      r.newest none ∙ ap (last_or none) same,
    )
