-- ===== src/Subscriber/Mutex.antt =====
-- Subscriber_Impl: what is done to sessions while session_list_mutex_ is held.
use tcp_pubsub.SubscriberSession
use tcp_pubsub.Base.{drop-length, ℕ, ◌≡◌, refl, ap, ◌∙◌, List, [], ◌∷◌, ◌++◌, arith}
use tcp_pubsub.Subscriber.{
  Subscriber, update, on_deliveries, notify, on_session, session_callback, set_callback_to_session,
  renew_callbacks, enter_session, cancel_sessions,
}
use tcp_pubsub.SubscriberSession.{SubscriberSession, start, set_synchronous_callback}
use tcp_pubsub.SubscriberSession.Growth.{
  SameCalls, set_synchronous_callback-SameCalls, start-SameCalls, cancel-SameCalls,
}

-- An operation that calls neither handler only changes its session.
pub quiet_lem :
    (id : ℕ) (operation : SubscriberSession → SubscriberSession) (s : Subscriber)
    → SameCalls (s.session id) (operation (s.session id))
    → on_session id operation s
      ≡ record s { session = update s.session id (operation (s.session id)) }
unfolding on_session notify on_deliveries
quiet_lem id operation s q = rw (q.0, q.1, drop-length) (ground arith)

-- From one state to another no closed handler is called.
abbrev pub NoneClosed : Subscriber → Subscriber → Type 0
NoneClosed s t =
    (t.next_id ≡ s.next_id) × ((id : ℕ) → (t.session id).closed_calls ≡ (s.session id).closed_calls)

quiet_step :
    (id : ℕ) (operation : SubscriberSession → SubscriberSession) (s : Subscriber)
    → SameCalls (s.session id) (operation (s.session id))
    → ((on_session id operation s).session_list ≡ s.session_list)
      × ((on_session id operation s).missing ≡ s.missing)
      × NoneClosed s (on_session id operation s)
unfolding update
quiet_step id operation s q =
    rw (quiet_lem id operation s q) (refl, refl, (refl, λ j. ground arith))

set_callback_to_session_lem :
    (id : ℕ) (s : Subscriber)
    → let t = set_callback_to_session id s in
      (t.session_list ≡ s.session_list) × (t.missing ≡ s.missing) × NoneClosed s t
unfolding set_callback_to_session
set_callback_to_session_lem id s =
    let c = session_callback s in
    quiet_step id (SubscriberSession.set_synchronous_callback c) s
      (set_synchronous_callback-SameCalls c (s.session id))

renew_callbacks_lem :
    (ids : List ℕ) (s : Subscriber)
    → let t = renew_callbacks ids s in
      (t.session_list ≡ s.session_list) × (t.missing ≡ s.missing) × NoneClosed s t
unfolding renew_callbacks
renew_callbacks_lem [] s = (refl, refl, (refl, λ j. refl))
renew_callbacks_lem (id ∷ ids) s =
    let f = set_callback_to_session_lem id s in
    let g = renew_callbacks_lem ids (set_callback_to_session id s) in
    (g.0 ∙ f.0, g.1 ∙ f.1, (g.2.0 ∙ f.2.0, λ j. g.2.1 j ∙ f.2.1 j))

pub cancel_sessions_lem :
    (ids : List ℕ) (s : Subscriber)
    → let t = cancel_sessions ids s in
      (t.session_list ≡ s.session_list) × (t.missing ≡ s.missing) × NoneClosed s t
unfolding cancel_sessions
cancel_sessions_lem [] s = (refl, refl, (refl, λ j. refl))
cancel_sessions_lem (id ∷ ids) s =
    let f = quiet_step id SubscriberSession.cancel s (cancel-SameCalls (s.session id)) in
    let g = cancel_sessions_lem ids (on_session id SubscriberSession.cancel s) in
    (g.0 ∙ f.0, g.1 ∙ f.1, (g.2.0 ∙ f.2.0, λ j. g.2.1 j ∙ f.2.1 j))

pub enter_session_lem :
    (id : ℕ) (s : Subscriber)
    → let t = enter_session id s in
      (t.session_list ≡ s.session_list ++ id ∷ []) × (t.missing ≡ s.missing) × NoneClosed s t
unfolding enter_session
enter_session_lem id s =
    let f = set_callback_to_session_lem id s in
    let t = set_callback_to_session id s in
    let u : Subscriber = record t { session_list = t.session_list ++ id ∷ [] } in
    let g = quiet_step id SubscriberSession.start u (start-SameCalls (u.session id)) in
    (g.0 ∙ ap (λ l. l ++ id ∷ []) f.0, g.1 ∙ f.1, (g.2.0 ∙ f.2.0, λ j. g.2.1 j ∙ f.2.1 j))

-- The three places where the list's mutex is held while sessions are called, the loop of
-- setCallback, the end of addSession and the loop of cancel, call no session's closed handler,
-- which would wait for the same mutex. The first and the last leave the list as it is, the second
-- puts its session at the end.
pub mutex_not_taken_twice :
    (ids : List ℕ) (id : ℕ) (s : Subscriber)
    → NoneClosed s (renew_callbacks ids s)
      × NoneClosed s (enter_session id s)
      × NoneClosed s (cancel_sessions ids s)
      × ((renew_callbacks ids s).session_list ≡ s.session_list)
      × ((enter_session id s).session_list ≡ s.session_list ++ id ∷ [])
      × ((cancel_sessions ids s).session_list ≡ s.session_list)
mutex_not_taken_twice ids id s =
    let f = renew_callbacks_lem ids s in
    let g = enter_session_lem id s in
    let h = cancel_sessions_lem ids s in (f.2, g.2, h.2, f.0, g.0, h.0)
