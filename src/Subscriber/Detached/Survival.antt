-- ===== src/Subscriber/Detached/Survival.antt =====
-- Subscriber_Impl: a callback thread that was told to stop and detached by its own setCallback.
use tcp_pubsub.Base.{
  ◌==◌, ==→≡, get_elem?, ℕ, ◌≡◌, refl, ap, ◌∙◌, true, false, some, List, [], ◌∷◌, ◌++◌, arith,
}
use tcp_pubsub.Subscriber.Detached.{
  WorkerAt, waits_for_data, in_callback, in_set_callback, thread_ended, Worker, Workers, set_at,
  start_new_thread, worker_turn, stop_all_threads, Event, message_stored, worker_turns,
  sets_callback, current, step, run,
}
use tcp_pubsub.Subscriber.Detached.Lives.{
  get_elem?-set_at, get_elem?-append, Lives, NoMoreCalls, run-Lives, stops-Lives,
}

-- A thread in front of its wait takes the next message.
takes_next :
    (i : ℕ) (b : List ℕ) (w : Worker) (s : Workers)
    → get_elem? s.workers i ≡ some w
    → w.at ≡ waits_for_data
    → s.callback_thread_stop ≡ false
    → (run (message_stored b ∷ worker_turns i ∷ []) s).calls
      ≡ s.calls ++ (w.callback_function, b) ∷ []
unfolding run step worker_turn
takes_next i b w s found at stop = ground (arith, found, at, stop)

-- The turns that bring a thread to its wait.
abbrev turns_to_wait : ℕ → WorkerAt → List Event
turns_to_wait i waits_for_data = []
turns_to_wait i in_callback = worker_turns i ∷ []
turns_to_wait i (in_set_callback c) = worker_turns i ∷ worker_turns i ∷ []
turns_to_wait i thread_ended = []

returns_to_wait :
    (i : ℕ) (w : Worker) (s : Workers)
    → get_elem? s.workers i ≡ some w
    → w.at ≡ in_callback
    → let t = step (worker_turns i) s in
      (get_elem? t.workers i ≡ some (record w { at = waits_for_data }))
      × (t.callback_thread_stop ≡ s.callback_thread_stop)
      × (t.calls ≡ s.calls)
unfolding step worker_turn
returns_to_wait i w s found at =
    let t = record s { workers = set_at i waits_for_data s.workers } in
    let returned : step (worker_turns i) s ≡ t = ground (arith, found, at) in
    rw returned (get_elem?-set_at i i waits_for_data s.workers w found ∙ ground arith, refl, refl)

starts_new :
    (i d : ℕ) (w : Worker) (s : Workers)
    → get_elem? s.workers i ≡ some w
    → w.at ≡ in_set_callback d
    → let t = step (worker_turns i) s in
      (get_elem? t.workers i ≡ some (record w { at = in_callback }))
      × (t.callback_thread_stop ≡ false)
      × (t.calls ≡ s.calls)
unfolding step worker_turn start_new_thread
starts_new i d w s found at =
    let more : List Worker = record { callback_function = d; at = waits_for_data } ∷ [] in
    let back = set_at i in_callback s.workers in
    let t = record s { callback_thread_stop = false; workers = back ++ more } in
    let started : step (worker_turns i) s ≡ t = ground (arith, found, at) in
    let w_back = record w { at = in_callback } in
    rw started (
      get_elem?-append i back more w_back
          (get_elem?-set_at i i in_callback s.workers w found ∙ ground arith),
      refl,
      refl,
    )

comes_to_wait :
    (i c : ℕ) (a : WorkerAt) (s : Workers) (l : Lives i c s)
    → l.worker.at ≡ a
    → let t = run (turns_to_wait i a) s in
      (get_elem? t.workers i ≡ some (record l.worker { at = waits_for_data }))
      × (t.callback_thread_stop ≡ false)
      × (t.calls ≡ s.calls)
unfolding run step worker_turn start_new_thread
comes_to_wait i c waits_for_data s l e =
    (l.found ∙ ground (arith, e), ground (arith, e, l.lives), refl)
comes_to_wait i c in_callback s l e =
    let f = returns_to_wait i l.worker s l.found e in (f.0, f.1 ∙ ground (arith, e, l.lives), f.2)
comes_to_wait i c (in_set_callback d) s l e =
    let f = starts_new i d l.worker s l.found e in
    let g =
      returns_to_wait i (record l.worker { at = in_callback }) (step (worker_turns i) s) f.0 refl in
    (g.0, g.1 ∙ f.1, g.2 ∙ f.2)
comes_to_wait i c thread_ended s l e = absurd (ground (arith, e, l.lives))

run-append : (xs ys : List Event) (s : Workers) → run (xs ++ ys) s ≡ run ys (run xs s)
unfolding run
run-append [] ys s = refl
run-append (x ∷ xs) ys s = run-append xs ys (step x s)

-- setCallback for an asynchronous callback, called by the callback of the callback thread, does not
-- end that thread. Behind the call, and with any messages and turns of threads in between and after
-- it, but no further call of setCallback: there are turns of the old thread that bring it back to
-- its wait, and if it then takes the next message, it calls the old callback with it.
pub old_callback_survives :
    (d : ℕ) (b : List ℕ) (es : List Event) (w : Worker) (s : Workers)
    → get_elem? s.workers (current s) ≡ some w
    → w.at ≡ in_callback
    → NoMoreCalls es
    → let t = run (sets_callback d ∷ es) s in
      (more : List Event) × ((run
          (more ++ message_stored b ∷ worker_turns (current s) ∷ [])
          t).calls
        ≡ t.calls ++ (w.callback_function, b) ∷ [])
unfolding run
old_callback_survives d b es w s found at quiet =
    let i = current s in
    let c = w.callback_function in
    let t = run es (step (sets_callback d) s) in
    let l = run-Lives i c es (step (sets_callback d) s) quiet (stops-Lives d w s found at) in
    let more = turns_to_wait i l.worker.at in
    let later : List Event = message_stored b ∷ worker_turns i ∷ [] in
    let f = comes_to_wait i c l.worker.at t l refl in
    (
      more,
      ap (λ (r : Workers). r.calls) (run-append more later t)
          ∙ takes_next i b (record l.worker { at = waits_for_data }) (run more t) f.0 refl f.1
          ∙ ap (λ cs. cs ++ (l.worker.callback_function, b) ∷ []) f.2
          ∙ ap (λ k. t.calls ++ (k, b) ∷ []) l.runs,
    )

-- A detached thread that waits, and takes its turn while the flag is set, ends.
waiting_thread_ends :
    (d j : ℕ) (w v : Worker) (s : Workers)
    → get_elem? s.workers (current s) ≡ some w
    → w.at ≡ in_callback
    → get_elem? s.workers j ≡ some v
    → v.at ≡ waits_for_data
    → get_elem? (run (sets_callback d ∷ worker_turns j ∷ []) s).workers j
      ≡ some (record v { at = thread_ended })
unfolding run step stop_all_threads worker_turn
waiting_thread_ends d j w v s found at waits waiting =
    let i = current s in
    let t = record s {
      callback_thread_stop = true;
      workers = set_at i (in_set_callback d) s.workers;
    } in
    let stopped : step (sets_callback d) s ≡ t = ground (arith, found, at) in
    let apart : j == i ≡ false = ground (arith, found, at, waits, waiting, ==→≡ j i) in
    let there : get_elem? t.workers j ≡ some v =
      get_elem?-set_at j i (in_set_callback d) s.workers v waits ∙ ground (arith, apart) in
    let u = record t { workers = set_at j thread_ended t.workers } in
    let turned : step (worker_turns j) t ≡ u = ground (arith, there, waiting) in
    ap (λ (r : Workers). get_elem? (step (worker_turns j) r).workers j) stopped
    ∙ ap (λ (r : Workers). get_elem? r.workers j) turned
    ∙ get_elem?-set_at j j thread_ended t.workers v there
    ∙ ground arith
