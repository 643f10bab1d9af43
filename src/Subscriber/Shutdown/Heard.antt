-- ===== src/Subscriber/Shutdown/Heard.antt =====
-- Subscriber_Impl: a callback thread that hears its notification ends.
use tcp_pubsub.Base.{ℕ, suc, ◌-◌, ◌≤◌, ◌≡◌, refl, ◌≢◌, ◌⊎◌, true, List, [], ◌∷◌, ◌++◌, arith}
use tcp_pubsub.Subscriber.Shutdown.{
  ThreadAt, testing, passed, falling_asleep, asleep, calling, ended, before_notify, joining, joined,
  Shutdown, Event, thread, stopper, message, step, run, run-append,
}

-- Steps left to a thread that is told to stop and not about to sleep.
abbrev pub steps_left : ThreadAt → ℕ
steps_left (calling b) = 3
steps_left testing = 2
steps_left passed = 1
steps_left ended = 0
steps_left falling_asleep = 4
steps_left asleep = 4

abbrev pub thread_steps : List Event → ℕ
thread_steps [] = 0
thread_steps (thread ∷ es) = suc (thread_steps es)
thread_steps (stopper ∷ es) = thread_steps es
thread_steps (message b ∷ es) = thread_steps es

record Ending (s : Shutdown) : Type 0 where
  told : s.callback_thread_stop ≡ true
  awake : steps_left s.thread ≤ 3
  late : (s.stopper ≡ joining) ⊎ (s.stopper ≡ joined)

thread-Ending :
    (at : ThreadAt) (s : Shutdown)
    → s.thread ≡ at
    → Ending s
    → Ending (step thread s) × (steps_left (step thread s).thread ≤ steps_left at - 1)
unfolding step
thread-Ending testing s e v = ground arith
thread-Ending passed s e v = ground arith
thread-Ending falling_asleep s e v = absurd (ground arith)
thread-Ending asleep s e v = absurd (ground arith)
thread-Ending (calling b) s e v = ground arith
thread-Ending ended s e v = ground arith

other-Ending :
    (e : Event) (s : Shutdown)
    → e ≢ thread
    → Ending s
    → Ending (step e s) × (steps_left (step e s).thread ≡ steps_left s.thread)
unfolding step
other-Ending thread s n v = absurd (n refl)
other-Ending stopper s n v = ground arith
other-Ending (message b) s n v = ground arith

run-Ending :
    (es : List Event) (s : Shutdown)
    → Ending s
    → steps_left s.thread ≤ thread_steps es
    → Ending (run es s) × (steps_left (run es s).thread ≡ 0)
unfolding run
run-Ending [] s v few = (v, omega arith)
run-Ending (thread ∷ es) s v few =
    let (w, less) = thread-Ending s.thread s refl v in run-Ending es (step thread s) w (omega arith)
run-Ending (stopper ∷ es) s v few =
    let (w, same) = other-Ending stopper s (λ e. cc) v in
    run-Ending es (step stopper s) w (omega arith)
run-Ending (message b ∷ es) s v few =
    let (w, same) = other-Ending (message b) s (λ e. cc) v in
    run-Ending es (step (message b) s) w (omega arith)

notified-Ending :
    (at : ThreadAt) (s : Shutdown)
    → s.thread ≡ at
    → s.callback_thread_stop ≡ true
    → s.stopper ≡ before_notify
    → at ≢ falling_asleep
    → Ending (step stopper s)
unfolding step
notified-Ending falling_asleep s e told before n = absurd (n refl)
notified-Ending at s e told before n = ground arith

ended_joins :
    (at : ThreadAt) (s : Shutdown)
    → s.thread ≡ at
    → Ending s
    → steps_left at ≡ 0
    → ((step stopper s).thread ≡ ended) × ((step stopper s).stopper ≡ joined)
unfolding step
ended_joins ended s e v z = ground arith
ended_joins at s e v z = absurd (omega arith)

-- If the thread is not about to sleep when it is notified, it ends within three of its own steps,
-- whatever the sessions and the caller do in between, and join returns.
pub stop_heard :
    (es : List Event) (s : Shutdown)
    → s.callback_thread_stop ≡ true
    → s.stopper ≡ before_notify
    → s.thread ≢ falling_asleep
    → 3 ≤ thread_steps es
    → let t = run (stopper ∷ es ++ stopper ∷ []) s in (t.thread ≡ ended) × (t.stopper ≡ joined)
unfolding run
stop_heard es s told before n enough =
    let v = notified-Ending s.thread s refl told before n in
    let t = run es (step stopper s) in
    let (w, z) = run-Ending es (step stopper s) v (omega (arith, v.awake)) in
    rw (run-append es (stopper ∷ []) (step stopper s)) (ended_joins t.thread t refl w z)
