-- ===== src/Subscriber/Silence.antt =====
-- Subscriber_Impl::cancel: what it promises to the user.
use tcp_pubsub.SubscriberSession
use mathlib.Core.Path.{subst}
use tcp_pubsub.SubscriberSession.Closing
use tcp_pubsub.Base.{
  ℕ, ◌≡◌, true, ◌||◌, none, List, [], ◌∷◌, arith, ltb, Bool-cases, ◌<◌, refl, sym, ap, ◌∙◌, inl,
  inr, map,
}
use tcp_pubsub.Base.Ids.{contains}
use tcp_pubsub.Subscriber.{
  Subscriber, update, on_session, stop_callback_thread, cancel_sessions, cancel, Event, cancel_call,
  thread_turns, session_event, step, new, on_deliveries, callback_thread_turn, run,
}
use tcp_pubsub.Subscriber.Everywhere.{
  Kept, AllSessions, on_session-AllSessions, cancel_sessions-AllSessions, run-new-AllSessions,
}
use tcp_pubsub.Subscriber.Sessions.{Listed, run-new-Listed}
use tcp_pubsub.SubscriberSession.{SubscriberSession, set_synchronous_callback}
use tcp_pubsub.SubscriberSession.Silence.{Over, step-Over, Over-gives}
use tcp_pubsub.Subscriber.Mode.{on_session-mode}
use tcp_pubsub.Subscriber.Mutex.{quiet_lem, cancel_sessions_lem}
use tcp_pubsub.SubscriberSession.Growth.{cancel-SameCalls}
use tcp_pubsub.Wire.Endian.{Host}
use tcp_pubsub.Subscriber.Objects.{on_session-objects}
use tcp_pubsub.Subscriber.Voice.{step_heard}

Inv-Kept : Kept Closing.Inv
Inv-Kept = record {
  started = Closing.given-Inv;
  set_synchronous_callback = Closing.callback-Inv;
  cancel = Closing.cancel-Inv;
  step = Closing.step-Inv;
}

cancel_marks : (r : SubscriberSession) → (SubscriberSession.cancel r).canceled ≡ true
unfolding SubscriberSession.cancel
cancel_marks r = ground arith

-- The loop of cancel leaves every session of its list canceled.
cancel_sessions_marks :
    (ids : List ℕ) (id : ℕ) (s : Subscriber)
    → contains id ids || (s.session id).canceled ≡ true
    → ((cancel_sessions ids s).session id).canceled ≡ true
unfolding contains cancel_sessions update
cancel_sessions_marks [] id s e = e
cancel_sessions_marks (x ∷ ids) id s e =
    let objects = on_session-objects x SubscriberSession.cancel s in
    cancel_sessions_marks ids id (on_session x SubscriberSession.cancel s)
      (rw objects (ground (arith, cancel_marks (s.session x), cancel_marks (s.session id))))

-- A subscriber after cancel().
record Silent (s : Subscriber) : Type 0 where
  no_thread : s.callback_thread ≡ none
  over : AllSessions Over s

Listed-cancel-Over :
    (s : Subscriber)
    → Listed s
    → AllSessions Closing.Inv s
    → AllSessions Over (cancel_sessions s.session_list s)
Listed-cancel-Over s v all =
    let ids = s.session_list in
    let t = cancel_sessions ids s in
    let f = cancel_sessions_lem ids s in
    record {
      every = λ id l. record {
        in_order = (cancel_sessions-AllSessions Closing.Inv Inv-Kept ids s all).every id l;
        stopped = elim (Bool-cases (contains id ids)) [
          | inl mem ↦ inl (cancel_sessions_marks ids id s (rw mem refl))
          | inr out ↦ inr (ground (arith, f.2.0, f.2.1 id, v.entries id))
        ];
      };
    }

cancel-Over : (r : SubscriberSession) → Over r → Over (SubscriberSession.cancel r)
cancel-Over r o = record {
  in_order = Closing.cancel-Inv r o.in_order;
  stopped = inl (cancel_marks r);
}

cancel_sessions-Over :
    (ids : List ℕ) (s : Subscriber) → AllSessions Over s → AllSessions Over (cancel_sessions ids s)
unfolding cancel_sessions
cancel_sessions-Over [] s v = v
cancel_sessions-Over (id ∷ ids) s v =
    cancel_sessions-Over ids (on_session id SubscriberSession.cancel s)
      (on_session-AllSessions Over id SubscriberSession.cancel s cancel-Over v)

cancel_sessions_calls : (ids : List ℕ) (s : Subscriber) → ((cancel_sessions ids s).calls ≡ s.calls)
unfolding cancel_sessions
cancel_sessions_calls [] s = refl
cancel_sessions_calls (id ∷ ids) s =
    cancel_sessions_calls ids (on_session id SubscriberSession.cancel s)
    ∙ ap (λ t. t.calls) (quiet_lem id SubscriberSession.cancel s (cancel-SameCalls (s.session id)))

stop_frame :
    (s : Subscriber)
    → ((cancel s).calls ≡ s.calls)
      × ((cancel s).callback_thread ≡ none)
      × ((cancel s).session ≡ (cancel_sessions s.session_list s).session)
      × ((cancel s).next_id ≡ (cancel_sessions s.session_list s).next_id)
unfolding cancel stop_callback_thread
stop_frame s = ground (arith, cancel_sessions_calls s.session_list s)

cancel_to_Silent :
    (s : Subscriber) → AllSessions Over (cancel_sessions s.session_list s) → Silent (cancel s)
cancel_to_Silent s v =
    let (calls, thread, objects, known) = stop_frame s in
    record {
      no_thread = thread;
      over = record { every = λ id l. rw objects (v.every id (rw known at l)) };
    }

-- What can happen to a subscriber when its owner only cancels it again.
pub data Late : Type 0 where
  cancels_again : Late
  thread_turns_late : Late
  session_late : ℕ → SubscriberSession.Event → Late

abbrev pub late : Late → Event
late cancels_again = cancel_call
late thread_turns_late = thread_turns
late (session_late id e) = session_event id e

Keeps : Subscriber → Subscriber → Type 0
Keeps s t = Silent t × (t.calls ≡ s.calls)

nothing_called : (s : Subscriber) → (on_deliveries [] s).calls ≡ s.calls
unfolding on_deliveries
nothing_called s = refl

session-Keeps :
    (h : Host) (id : ℕ) (e : SubscriberSession.Event) (s : Subscriber)
    → id < s.next_id
    → Silent s
    → Keeps s (on_session id (SubscriberSession.step h e) s)
unfolding Keeps
session-Keeps h id e s l q =
    let m = on_session-mode id (SubscriberSession.step h e) s in
    let none_given = Over-gives e (s.session id) (q.over.every id l) in
    (
      record {
        no_thread = m.thread ∙ q.no_thread;
        over = on_session-AllSessions Over id (SubscriberSession.step h e) s (step-Over h e) q.over;
      },
      (step_heard h e id s).calls
          ∙ ap (λ ds. (on_deliveries ds s).calls) none_given
          ∙ nothing_called s,
    )

late-Keeps : (h : Host) (l : Late) (s : Subscriber) → Silent s → Keeps s (step h (late l) s)
unfolding step Keeps callback_thread_turn
late-Keeps h cancels_again s q =
    (cancel_to_Silent s (cancel_sessions-Over s.session_list s q.over), (stop_frame s).0)
late-Keeps h thread_turns_late s q =
    let same : step h thread_turns s ≡ s = ground (arith, q.no_thread) in
    (subst Silent (sym same) q, ap (λ t. t.calls) same)
late-Keeps h (session_late id e) s q = elim (Bool-cases (ltb id s.next_id)) [
  | inl known ↦ rw known (session-Keeps h id e s (ground arith) q)
  | inr unknown ↦ rw unknown (q, refl)
]

run_keeps :
    (h : Host) (ls : List Late) (s : Subscriber)
    → Silent s
    → (run h (map late ls) s).calls ≡ s.calls
unfolding run Keeps
run_keeps h [] s q = refl
run_keeps h (l ∷ ls) s q =
    let k = late-Keeps h l s q in run_keeps h ls (step h (late l) s) k.0 ∙ k.1

-- Whatever a subscriber has gone through, a delivery that tests canceled_ after cancel(), and a turn
-- that the callback thread begins after it, call no callback of the user, until another session is
-- added or another callback is set. A delivery is one step here, so that none is between its test
-- and its call when cancel() comes.
pub silent_after_cancel :
    (h : Host) (session : ℕ → SubscriberSession) (es : List Event) (ls : List Late)
    → let s = run h es (new session) in (run h (map late ls) (cancel s)).calls ≡ s.calls
silent_after_cancel h session es ls =
    let s = run h es (new session) in
    let all = run-new-AllSessions Closing.Inv Inv-Kept h session es in
    let v = run-new-Listed h session es in
    run_keeps h ls (cancel s) (cancel_to_Silent s (Listed-cancel-Over s v all)) ∙ (stop_frame s).0
