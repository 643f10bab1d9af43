-- ===== src/Subscriber/Shutdown/Missed.antt =====
-- Subscriber_Impl: a notification that the callback thread misses.
use tcp_pubsub.Base.{
  ◌≡◌, refl, ap, ◌∙◌, ◌⊎◌, inl, inr, true, false, none, List, [], ◌∷◌, ◌++◌, arith,
}
use tcp_pubsub.Subscriber.Shutdown.{
  testing, asleep, before_store, joining, Shutdown, Event, thread, stopper, step, run,
}

-- Steps of the two threads alone.
pub data Mover : Type 0 where
  thread_mover stopper_mover : Mover

abbrev pub moves : List Mover → List Event
moves [] = []
moves (thread_mover ∷ ms) = thread ∷ moves ms
moves (stopper_mover ∷ ms) = stopper ∷ moves ms

stuck_step :
    (e : Event) (s : Shutdown)
    → (e ≡ thread) ⊎ (e ≡ stopper)
    → s.thread ≡ asleep
    → s.stopper ≡ joining
    → step e s ≡ s
unfolding step
stuck_step e s o a j = ground arith

stuck :
    (ms : List Mover) (s : Shutdown)
    → s.thread ≡ asleep
    → s.stopper ≡ joining
    → run (moves ms) s ≡ s
unfolding run
stuck [] s a j = refl
stuck (thread_mover ∷ ms) s a j =
    ap (run (moves ms)) (stuck_step thread s (inl refl) a j) ∙ stuck ms s a j
stuck (stopper_mover ∷ ms) s a j =
    ap (run (moves ms)) (stuck_step stopper s (inr refl) a j) ∙ stuck ms s a j

-- The four steps in which the notification comes between the thread's test and its sleep.
abbrev pub missed : List Event
missed = thread ∷ stopper ∷ stopper ∷ thread ∷ []

-- If the thread tests its predicate without a message before callback_thread_stop_ is stored, and
-- goes to sleep after the notification, then no steps of the two threads end it: it sleeps, and
-- setCallback or cancel waits in join, until a session brings a message.
pub stop_missed :
    (ms : List Mover) (s : Shutdown)
    → s.thread ≡ testing
    → s.stopper ≡ before_store
    → s.callback_thread_stop ≡ false
    → s.last_callback_data ≡ none
    → let t = run (missed ++ moves ms) s in
      (t.thread ≡ asleep) × (t.stopper ≡ joining) × (t.callback_thread_stop ≡ true)
unfolding run step
stop_missed ms s at before up empty =
    let t = run missed s in
    let slept : t.thread ≡ asleep = ground arith in
    let joins : t.stopper ≡ joining = ground arith in
    let told : t.callback_thread_stop ≡ true = ground arith in
    rw (stuck ms t slept joins) (slept, joins, told)
