-- ===== src/Subscriber/Everywhere.antt =====
-- Subscriber_Impl: what holds of a session at its start and is kept by all that can happen to it,
-- holds of every session of a subscriber, at any time.
use tcp_pubsub.SubscriberSession
use tcp_pubsub.Base.{
  ltb, ◌==◌, if◌then◌else◌, ==→≡, ==_refl, Bool-cases, ℤ, ℕ, suc, ◌<◌, ◌≡◌, refl, inl, inr, Bool,
  true, false, ◌||◌, Option, none, some, List, [], ◌∷◌, ◌++◌, arith,
}
use tcp_pubsub.Subscriber.{
  Subscriber, new, update, on_session, session_callback, set_callback_to_session,
  callback_thread_turn, stop_callback_thread, renew_callbacks, change_callback, set_callback,
  enter_session, admit, add_session, unless_thrown, cancel_sessions, Event, set_callback_call,
  add_session_call, cancel_call, thread_turns, session_event, run, cancel, step,
}
use tcp_pubsub.Subscriber.Mode.{on_session-mode, enter_session-mode}
use tcp_pubsub.SubscriberSession.{Endpoint, Callback, SubscriberSession, start}
use tcp_pubsub.Wire.Endian.{Host}
use tcp_pubsub.Subscriber.Objects.{on_session-objects}

-- Kept by a session's calls and events, from addSession on.
pub record Kept (P : SubscriberSession → Type 0) : Type 0 where
  pub started :
      (ps : List Endpoint) (attempts : ℤ) (c : SubscriberSession) (callback : Callback)
      → SubscriberSession.new ps attempts ≡ some c
      → P (SubscriberSession.start (SubscriberSession.set_synchronous_callback callback c))
  pub set_synchronous_callback :
      (callback : Callback) (r : SubscriberSession)
      → P r
      → P (SubscriberSession.set_synchronous_callback callback r)
  pub cancel : (r : SubscriberSession) → P r → P (SubscriberSession.cancel r)
  pub step :
      (h : Host) (e : SubscriberSession.Event) (r : SubscriberSession)
      → P r
      → P (SubscriberSession.step h e r)

-- The sessions that were added.
pub record AllSessions (P : SubscriberSession → Type 0) (s : Subscriber) : Type 0 where
  pub every : (id : ℕ) → id < s.next_id → P (s.session id)

-- addSession leaves the other sessions alone, and gives the new one a callback and starts it.
pub enter_objects :
    (id j : ℕ) (s : Subscriber)
    → (enter_session id s).session j ≡ (
        if j == id
        then SubscriberSession.start
            (SubscriberSession.set_synchronous_callback (session_callback s) (s.session id))
        else s.session j)
unfolding enter_session set_callback_to_session update
enter_objects id j s =
    let set = SubscriberSession.set_synchronous_callback (session_callback s) in
    let t = on_session id set s in
    let u : Subscriber = record t { session_list = t.session_list ++ id ∷ [] } in
    rw (on_session-objects id SubscriberSession.start u, on_session-objects id set s) (ground arith)

change_stop :
    (c : ℕ) (b : Bool) (s : Subscriber)
    → let t = change_callback c b (stop_callback_thread s) in
      (t.session ≡ s.session) × (t.next_id ≡ s.next_id)
unfolding change_callback stop_callback_thread
change_stop c true s = ground arith
change_stop c false s = ground arith

module _ (P : SubscriberSession → Type 0) where
  pub on_session-AllSessions :
      (id : ℕ) (operation : SubscriberSession → SubscriberSession) (s : Subscriber)
      → ((r : SubscriberSession) → P r → P (operation r))
      → AllSessions P s
      → AllSessions P (on_session id operation s)
  unfolding update
  on_session-AllSessions id operation s keeps v =
      let m = on_session-mode id operation s in
      record {
        every = λ j l.
            let w = v.every j (rw m.known at l) in
            rw (on_session-objects id operation s) (elim (Bool-cases (j == id)) [
              | inl same ↦ rw same (keeps (s.session id) (rw (==→≡ j id same) at w))
              | inr other ↦ rw other w
            ]);
      }

module _ (P : SubscriberSession → Type 0) (k : Kept P) where
  renew_callbacks-AllSessions :
      (ids : List ℕ) (s : Subscriber) → AllSessions P s → AllSessions P (renew_callbacks ids s)
  unfolding renew_callbacks set_callback_to_session
  renew_callbacks-AllSessions [] s v = v
  renew_callbacks-AllSessions (id ∷ ids) s v =
      let c = session_callback s in
      renew_callbacks-AllSessions ids (set_callback_to_session id s) (
        on_session-AllSessions P id (SubscriberSession.set_synchronous_callback c) s
          (k.set_synchronous_callback c) v)

  pub cancel_sessions-AllSessions :
      (ids : List ℕ) (s : Subscriber) → AllSessions P s → AllSessions P (cancel_sessions ids s)
  unfolding cancel_sessions
  cancel_sessions-AllSessions [] s v = v
  cancel_sessions-AllSessions (id ∷ ids) s v =
      cancel_sessions-AllSessions ids (on_session id SubscriberSession.cancel s)
        (on_session-AllSessions P id SubscriberSession.cancel s k.cancel v)

  admit-AllSessions :
      (constructed : Option SubscriberSession) (s : Subscriber)
      → ((c : SubscriberSession) (callback : Callback)
          → constructed ≡ some c
          → P (SubscriberSession.start (SubscriberSession.set_synchronous_callback callback c)))
      → AllSessions P s
      → AllSessions P (unless_thrown (admit constructed s) s)
  unfolding admit update
  admit-AllSessions none s f v = v
  admit-AllSessions (some c) s f v =
      let id = s.next_id in
      let t : Subscriber = record s { session = update s.session id c; next_id = suc id } in
      let m = enter_session-mode id t in
      let first = f c (session_callback t) refl in
      record {
        every = λ j l. rw (enter_objects id j t) (elim (Bool-cases (j == id)) [
          | inl same ↦ rw (same, ==_refl id) first
          | inr other ↦ rw other (v.every j (ground (arith, m.known)))
        ]);
      }

  -- What does not touch the sessions.
  same-AllSessions :
      (s t : Subscriber)
      → t.session ≡ s.session
      → t.next_id ≡ s.next_id
      → AllSessions P s
      → AllSessions P t
  same-AllSessions s t o n v = record { every = λ id l. rw o (v.every id (rw n at l)) }

  either_way :
      (b : Bool) (x y : Subscriber)
      → AllSessions P x
      → AllSessions P y
      → AllSessions P (if b then x else y)
  either_way true x y i j = i
  either_way false x y i j = j

  set_callback-AllSessions :
      (c : ℕ) (b : Bool) (s : Subscriber) → AllSessions P s → AllSessions P (set_callback c b s)
  unfolding set_callback
  set_callback-AllSessions c b s v =
      let t = change_callback c b (stop_callback_thread s) in
      let (same, known) = change_stop c b s in
      let w = same-AllSessions s t same known v in
      either_way (b || s.user_callback_is_synchronous) (renew_callbacks s.session_list t) t
        (renew_callbacks-AllSessions s.session_list t w) w

  cancel-AllSessions : (s : Subscriber) → AllSessions P s → AllSessions P (cancel s)
  unfolding cancel stop_callback_thread
  cancel-AllSessions s v =
      let t = cancel_sessions s.session_list s in
      same-AllSessions t (cancel s) (ground arith) (ground arith)
        (cancel_sessions-AllSessions s.session_list s v)

  step-AllSessions :
      (h : Host) (e : Event) (s : Subscriber) → AllSessions P s → AllSessions P (step h e s)
  unfolding step add_session callback_thread_turn
  step-AllSessions h (set_callback_call c b) s v = set_callback-AllSessions c b s v
  step-AllSessions h (add_session_call ps attempts) s v =
      admit-AllSessions (SubscriberSession.new ps attempts) s
        (λ c callback e. k.started ps attempts c callback e) v
  step-AllSessions h cancel_call s v = cancel-AllSessions s v
  step-AllSessions h thread_turns s v =
      same-AllSessions s (step h thread_turns s) (ground arith) (ground arith) v
  step-AllSessions h (session_event id e) s v =
      either_way (ltb id s.next_id) (on_session id (SubscriberSession.step h e) s) s
        (on_session-AllSessions P id (SubscriberSession.step h e) s (k.step h e) v) v

  pub run-AllSessions :
      (h : Host) (es : List Event) (s : Subscriber) → AllSessions P s → AllSessions P (run h es s)
  unfolding run
  run-AllSessions h [] s v = v
  run-AllSessions h (e ∷ es) s v = run-AllSessions h es (step h e s) (step-AllSessions h e s v)

  -- From the constructor on.
  pub run-new-AllSessions :
      (h : Host) (session : ℕ → SubscriberSession) (es : List Event)
      → AllSessions P (run h es (new session))
  unfolding new
  run-new-AllSessions h session es =
      run-AllSessions h es (new session) (record { every = λ id l. absurd (omega arith) })
