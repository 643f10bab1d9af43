-- ===== src/Subscriber/Detached/Lives.antt =====
-- Subscriber_Impl: which callback threads do not end when one of them calls setCallback.
use mathlib.Core.Path.{subst}
use tcp_pubsub.Base.{
  ◌==◌, if◌then◌else◌, ==→≡, Bool-cases, Option-cases, get_elem?, ℕ, zero, suc, ◌≡◌, refl, sym, ap,
  ◌∙◌, inl, inr, Bool, true, false, not, Option, none, some, List, [], ◌∷◌, ◌++◌, arith,
}
use tcp_pubsub.Subscriber.Detached.{
  WorkerAt, waits_for_data, in_callback, in_set_callback, thread_ended, Worker, Workers, set_at,
  start_new_thread, worker_turn, stop_all_threads, Event, message_stored, worker_turns,
  sets_callback, current, step, run,
}

pub get_elem?-set_at :
    (i j : ℕ) (a : WorkerAt) (ws : List Worker) (w : Worker)
    → get_elem? ws i ≡ some w
    → get_elem? (set_at j a ws) i ≡ some (if i == j then record w { at = a } else w)
unfolding set_at
get_elem?-set_at i j a [] w e = ground (arith, e)
get_elem?-set_at zero zero a (x ∷ ws) w e = ground (arith, e)
get_elem?-set_at zero (suc j) a (x ∷ ws) w e = ground (arith, e)
get_elem?-set_at (suc i) zero a (x ∷ ws) w e = ground (arith, e)
get_elem?-set_at (suc i) (suc j) a (x ∷ ws) w e = ground (arith, get_elem?-set_at i j a ws w e)

pub get_elem?-append :
    (i : ℕ) (ws more : List Worker) (w : Worker)
    → get_elem? ws i ≡ some w
    → get_elem? (ws ++ more) i ≡ some w
get_elem?-append i [] more w e = ground (arith, e)
get_elem?-append zero (x ∷ ws) more w e = e
get_elem?-append (suc i) (x ∷ ws) more w e = get_elem?-append i ws more w e

-- A thread that is told to stop does not end yet if it is the one that tells it.
abbrev pub survives : Bool → WorkerAt → Bool
survives stop waits_for_data = not stop
survives stop in_callback = not stop
survives stop (in_set_callback c) = true
survives stop thread_ended = false

-- Thread i runs callback c, and does not end for as long as none is told to stop again.
pub record Lives (i c : ℕ) (s : Workers) : Type 0 where
  pub worker : Worker
  pub found : get_elem? s.workers i ≡ some worker
  pub runs : worker.callback_function ≡ c
  pub lives : survives s.callback_thread_stop worker.at ≡ true

-- Another place of thread j, and another state of the flag.
set_at-Lives :
    (i j c : ℕ) (a : WorkerAt) (s t : Workers) (l : Lives i c s)
    → t.workers ≡ set_at j a s.workers
    → survives t.callback_thread_stop (if i == j then a else l.worker.at) ≡ true
    → Lives i c t
set_at-Lives i j c a s t l e stays = record {
  worker = if i == j then record l.worker { at = a } else l.worker;
  found = ap (λ ws. get_elem? ws i) e ∙ get_elem?-set_at i j a s.workers l.worker l.found;
  runs = ground (arith, l.runs);
  lives = ground (arith, stays);
}

same_worker :
    (i j c : ℕ) (w : Worker) (s : Workers) (l : Lives i c s)
    → get_elem? s.workers j ≡ some w
    → i == j ≡ true
    → l.worker.at ≡ w.at
same_worker i j c w s l found e = ground (arith, l.found, found, ==→≡ i j e)

appended-Lives :
    (i c : ℕ) (more : List Worker) (s : Workers)
    → Lives i c s
    → Lives i c (record s { workers = s.workers ++ more })
appended-Lives i c more s l = record {
  worker = l.worker;
  found = get_elem?-append i s.workers more l.worker l.found;
  runs = l.runs;
  lives = l.lives;
}

turn-Lives :
    (i j c : ℕ) (w : Worker) (a : WorkerAt) (o : Option (List ℕ)) (s : Workers)
    → get_elem? s.workers j ≡ some w
    → w.at ≡ a
    → s.last_callback_data ≡ o
    → Lives i c s
    → Lives i c (worker_turn j w s)
unfolding worker_turn start_new_thread
turn-Lives i j c w waits_for_data none s found e f l = elim (Bool-cases s.callback_thread_stop) [
  | inl told ↦
      let t = record s { workers = set_at j thread_ended s.workers } in
      let turned : worker_turn j w s ≡ t = ground (arith, e, told) in
      subst (Lives i c) (sym turned) (
        set_at-Lives i j c thread_ended s t l refl
          (ground (arith, l.lives, told, e, same_worker i j c w s l found)))
  | inr free ↦
      let turned : worker_turn j w s ≡ s = ground (arith, e, f, free) in
      subst (Lives i c) (sym turned) l
]
turn-Lives i j c w waits_for_data (some b) s found e f l =
    elim (Bool-cases s.callback_thread_stop) [
      | inl told ↦
          let t = record s { workers = set_at j thread_ended s.workers } in
          let turned : worker_turn j w s ≡ t = ground (arith, e, told) in
          subst (Lives i c) (sym turned) (
            set_at-Lives i j c thread_ended s t l refl
              (ground (arith, l.lives, told, e, same_worker i j c w s l found)))
      | inr free ↦
          let t = record s {
            last_callback_data = none;
            workers = set_at j in_callback s.workers;
            calls = s.calls ++ (w.callback_function, b) ∷ [];
          } in
          let turned : worker_turn j w s ≡ t = ground (arith, e, f, free) in
          subst (Lives i c) (sym turned)
            (set_at-Lives i j c in_callback s t l refl (ground (arith, l.lives, free)))
    ]
turn-Lives i j c w in_callback o s found e f l =
    let t = record s { workers = set_at j waits_for_data s.workers } in
    let turned : worker_turn j w s ≡ t = ground (arith, e) in
    subst (Lives i c) (sym turned) (
      set_at-Lives i j c waits_for_data s t l refl
        (ground (arith, l.lives, e, same_worker i j c w s l found)))
turn-Lives i j c w (in_set_callback d) o s found e f l =
    let t = record s { callback_thread_stop = false; workers = set_at j in_callback s.workers } in
    let more : List Worker = record { callback_function = d; at = waits_for_data } ∷ [] in
    let turned : worker_turn j w s ≡ record t { workers = t.workers ++ more } = ground (arith, e) in
    subst (Lives i c) (sym turned) (
      appended-Lives i c more t
        (set_at-Lives i j c in_callback s t l refl (ground (arith, l.lives))))
turn-Lives i j c w thread_ended o s found e f l =
    let turned : worker_turn j w s ≡ s = ground (arith, e) in subst (Lives i c) (sym turned) l

-- Messages and turns of threads, without a further call of setCallback.
abbrev pub NoMoreCalls : List Event → Type 0
NoMoreCalls [] = Unit
NoMoreCalls (message_stored b ∷ es) = NoMoreCalls es
NoMoreCalls (worker_turns i ∷ es) = NoMoreCalls es
NoMoreCalls (sets_callback c ∷ es) = ⊥

pub run-Lives :
    (i c : ℕ) (es : List Event) (s : Workers) → NoMoreCalls es → Lives i c s → Lives i c (run es s)
unfolding run step
run-Lives i c [] s n l = l
run-Lives i c (message_stored b ∷ es) s n l =
    run-Lives i c es (record s { last_callback_data = some b }) n
      (record { worker = l.worker; found = l.found; runs = l.runs; lives = l.lives })
run-Lives i c (worker_turns j ∷ es) s n l = elim (Option-cases (get_elem? s.workers j)) [
  | inl no_thread ↦ rw (no_thread, run, step) (run-Lives i c es s n l)
  | inr (w, found) ↦
      rw (found, run, step)
        (run-Lives i c es (worker_turn j w s) n
          (turn-Lives i j c w w.at s.last_callback_data s found refl refl l))
]
run-Lives i c (sets_callback d ∷ es) s n l = elim n [ ]

-- The thread that calls setCallback is not ended by it.
pub stops-Lives :
    (d : ℕ) (w : Worker) (s : Workers)
    → get_elem? s.workers (current s) ≡ some w
    → w.at ≡ in_callback
    → Lives (current s) w.callback_function (step (sets_callback d) s)
unfolding step stop_all_threads
stops-Lives d w s found at =
    let i = current s in
    let t = record s {
      callback_thread_stop = true;
      workers = set_at i (in_set_callback d) s.workers;
    } in
    let stopped : step (sets_callback d) s ≡ t = ground (arith, found, at) in
    subst (Lives i w.callback_function) (sym stopped) (record {
      worker = record w { at = in_set_callback d };
      found = get_elem?-set_at i i (in_set_callback d) s.workers w found ∙ ground arith;
      runs = refl;
      lives = refl;
    })
